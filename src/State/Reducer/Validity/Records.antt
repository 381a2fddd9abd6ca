-- ===== src/State/Reducer/Validity/Records.antt =====
-- The blocks of `StateReducer.apply` that write one record at a time (src/core/state/reducers.py).
use agent_roles.Common.{
  String, ◌≡◌, refl, subst, Bool, true, false, Option, none, some, List, ok, if◌then◌else◌,
  raise_if, >>=-eq-ok, ok-injective, or_raise, value_error,
}
use agent_roles.Common.Dict.{Dict, get, contains}
use agent_roles.State.Models.{
  NodeState, ArtifactRecord, PolicyDecisionRecord, SideEffectRecord, ReducedSnapshot,
}
use agent_roles.State.Patch.{StatePatch, NodeStateUpdate}
use agent_roles.State.Dataclass.{
  checked, checked_valid, apply_updates, bump_version, patch_record, patch_record_valid,
}
use agent_roles.State.Validation.{
  node_state_valid, thread_record_class, run_record_class, thread_state_class, run_state_class,
  node_state_class,
}
use agent_roles.State.Reducer.{
  apply_records, upserted, upsert_node, update_node, set_output, create_artifact, ensure_same,
  rewrite_node, note_decision, note_decision_of, note_side_effect, create_decision,
  create_side_effect,
}
use agent_roles.State.Reducer.Validity.{Entries, IsValid, Entries-put, bumped_valid}

pub apply_records-IsValid :
    (p : StatePatch) (s t : ReducedSnapshot) → IsValid s → apply_records p s ≡ ok t → IsValid t
unfolding apply_records
apply_records-IsValid p s t v h =
    let (tr, e₁, h₁) =
      >>=-eq-ok (patch_record thread_record_class s.thread_record p.thread_record_updates) _ h in
    let (rr, e₂, h₂) =
      >>=-eq-ok (patch_record run_record_class s.run_record p.run_record_updates) _ h₁ in
    let (ts, e₃, h₃) =
      >>=-eq-ok (patch_record thread_state_class s.thread_state p.thread_state_updates) _ h₂ in
    let (rs, e₄, h₄) =
      >>=-eq-ok (patch_record run_state_class s.run_state p.run_state_updates) _ h₃ in
    subst IsValid (ok-injective h₄) (record {
      thread_record =
          patch_record_valid thread_record_class s.thread_record p.thread_record_updates
            v.thread_record e₁;
      run_record =
          patch_record_valid run_record_class s.run_record p.run_record_updates v.run_record e₂;
      thread_state =
          patch_record_valid thread_state_class s.thread_state p.thread_state_updates v.thread_state
            e₃;
      run_state = patch_record_valid run_state_class s.run_state p.run_state_updates v.run_state e₄;
      node_states = v.node_states;
      interrupts = v.interrupts;
    })

-- A snapshot with other nodes.
nodes-IsValid :
    (s : ReducedSnapshot) (nodes : Dict NodeState)
    → IsValid s
    → Entries node_state_valid nodes
    → IsValid (record s { node_states = nodes })
nodes-IsValid s nodes v e = record {
  thread_record = v.thread_record;
  run_record = v.run_record;
  thread_state = v.thread_state;
  run_state = v.run_state;
  node_states = e;
  interrupts = v.interrupts;
}

upserted_valid :
    (o : Option NodeState) (n : NodeState) {n' : NodeState}
    → node_state_valid n ≡ true
    → upserted o n ≡ ok n'
    → node_state_valid n' ≡ true
unfolding upserted
upserted_valid none n v h = subst (λ m. node_state_valid m ≡ true) (ok-injective h) v
upserted_valid (some old) n v h = checked_valid node_state_class _ h

pub upsert_node-IsValid :
    (s : ReducedSnapshot) (n : NodeState) (t : ReducedSnapshot)
    → IsValid s
    → node_state_valid n ≡ true
    → upsert_node s n ≡ ok t
    → IsValid t
unfolding upsert_node
upsert_node-IsValid s n t v w h =
    let (_, _, h₁) = >>=-eq-ok (ensure_same n.run_id s.run_state.run_id) _ h in
    let (n', e, h₂) = >>=-eq-ok (upserted (get s.node_states n.node_id) n) _ h₁ in
    subst IsValid (ok-injective h₂) (
      nodes-IsValid s _ v (
        Entries-put node_state_valid s.node_states n.node_id n' v.node_states
          (upserted_valid _ n w e)))

pub update_node-IsValid :
    (s : ReducedSnapshot) (u : String × List NodeStateUpdate) (t : ReducedSnapshot)
    → IsValid s
    → update_node s u ≡ ok t
    → IsValid t
unfolding update_node
update_node-IsValid s (id, us) t v h =
    let (n, _, h₁) = >>=-eq-ok (or_raise (get s.node_states id) value_error) _ h in
    let (m, _, h₂) = >>=-eq-ok (apply_updates node_state_class n us) _ h₁ in
    let (n', e, h₃) = >>=-eq-ok (bump_version node_state_class m) _ h₂ in
    subst IsValid (ok-injective h₃) (
      nodes-IsValid s _ v (
        Entries-put node_state_valid s.node_states id n' v.node_states
          (bumped_valid node_state_class m e)))

-- A node that is changed, checked and given a new version keeps the nodes valid.
rewrite_node-Entries :
    (nodes : Dict NodeState) (id : String) (n : NodeState) {nodes' : Dict NodeState}
    → Entries node_state_valid nodes
    → rewrite_node nodes id n ≡ ok nodes'
    → Entries node_state_valid nodes'
unfolding rewrite_node
rewrite_node-Entries nodes id n v h =
    let (n', _, h₁) = >>=-eq-ok (checked node_state_class n) _ h in
    let (n'', e, h₂) = >>=-eq-ok (bump_version node_state_class n') _ h₁ in
    subst (Entries node_state_valid) (ok-injective h₂)
      (Entries-put node_state_valid nodes id n'' v (bumped_valid node_state_class n' e))

-- The same, where the node is left alone if a test holds.
rewrite_unless-Entries :
    (b : Bool) (nodes : Dict NodeState) (id : String) (n : NodeState) {nodes' : Dict NodeState}
    → Entries node_state_valid nodes
    → (if b then ok nodes else rewrite_node nodes id n) ≡ ok nodes'
    → Entries node_state_valid nodes'
rewrite_unless-Entries true nodes id n v h = subst (Entries node_state_valid) (ok-injective h) v
rewrite_unless-Entries false nodes id n v h = rewrite_node-Entries nodes id n v h

set_output-Entries :
    (nodes : Dict NodeState) (a : ArtifactRecord) (o : Option NodeState) {nodes' : Dict NodeState}
    → Entries node_state_valid nodes
    → set_output nodes a o ≡ ok nodes'
    → Entries node_state_valid nodes'
unfolding set_output
set_output-Entries nodes a none v h = subst (Entries node_state_valid) (ok-injective h) v
set_output-Entries nodes a (some n) v h = rewrite_unless-Entries _ nodes _ _ v h

note_decision-Entries :
    (node_id id : String) (nodes : Dict NodeState) (o : Option NodeState) {nodes' : Dict NodeState}
    → Entries node_state_valid nodes
    → note_decision node_id id nodes o ≡ ok nodes'
    → Entries node_state_valid nodes'
unfolding note_decision
note_decision-Entries node_id id nodes none v h =
    subst (Entries node_state_valid) (ok-injective h) v
note_decision-Entries node_id id nodes (some n) v h = rewrite_unless-Entries _ nodes _ _ v h

note_decision_of-Entries :
    (node_id : Option String) (id : String) (nodes : Dict NodeState) {nodes' : Dict NodeState}
    → Entries node_state_valid nodes
    → note_decision_of node_id id nodes ≡ ok nodes'
    → Entries node_state_valid nodes'
unfolding note_decision_of
note_decision_of-Entries none id nodes v h = subst (Entries node_state_valid) (ok-injective h) v
note_decision_of-Entries (some n) id nodes v h = note_decision-Entries n id nodes _ v h

note_side_effect-Entries :
    (node_id id : String) (nodes : Dict NodeState) (o : Option NodeState) {nodes' : Dict NodeState}
    → Entries node_state_valid nodes
    → note_side_effect node_id id nodes o ≡ ok nodes'
    → Entries node_state_valid nodes'
unfolding note_side_effect
note_side_effect-Entries node_id id nodes none v h =
    subst (Entries node_state_valid) (ok-injective h) v
note_side_effect-Entries node_id id nodes (some n) v h = rewrite_unless-Entries _ nodes _ _ v h

-- What only the artifacts, the decisions and the side effects do to a snapshot.
files-IsValid :
    {s t : ReducedSnapshot}
    → IsValid s
    → t.thread_record ≡ s.thread_record
    → t.run_record ≡ s.run_record
    → t.thread_state ≡ s.thread_state
    → t.run_state ≡ s.run_state
    → t.interrupts ≡ s.interrupts
    → Entries node_state_valid t.node_states
    → IsValid t
files-IsValid v a b c d e n = record {
  thread_record = rw a v.thread_record;
  run_record = rw b v.run_record;
  thread_state = rw c v.thread_state;
  run_state = rw d v.run_state;
  node_states = n;
  interrupts = rw e v.interrupts;
}

pub create_artifact-IsValid :
    (s : ReducedSnapshot) (a : ArtifactRecord) (t : ReducedSnapshot)
    → IsValid s
    → create_artifact s a ≡ ok t
    → IsValid t
unfolding create_artifact
create_artifact-IsValid s a t v h =
    let (_, _, h₁) = >>=-eq-ok (ensure_same a.run_id s.run_state.run_id) _ h in
    let (_, _, h₂) = >>=-eq-ok (ensure_same a.thread_id s.thread_state.thread_id) _ h₁ in
    let (_, _, h₃) = >>=-eq-ok (raise_if (contains s.artifacts a.artifact_id) value_error) _ h₂ in
    let (nodes, e, h₄) = >>=-eq-ok (set_output s.node_states a _) _ h₃ in
    subst IsValid (ok-injective h₄) (
      files-IsValid v refl refl refl refl refl
        (set_output-Entries s.node_states a _ v.node_states e))

pub create_decision-IsValid :
    (s : ReducedSnapshot) (d : PolicyDecisionRecord) (t : ReducedSnapshot)
    → IsValid s
    → create_decision s d ≡ ok t
    → IsValid t
unfolding create_decision
create_decision-IsValid s d t v h =
    let (_, _, h₁) = >>=-eq-ok (ensure_same d.run_id s.run_state.run_id) _ h in
    let (_, _, h₂) =
      >>=-eq-ok (raise_if (contains s.policy_decisions d.decision_id) value_error) _ h₁ in
    let (nodes, e, h₃) = >>=-eq-ok (note_decision_of d.node_id d.decision_id s.node_states) _ h₂ in
    subst IsValid (ok-injective h₃) (
      files-IsValid v refl refl refl refl refl
        (note_decision_of-Entries d.node_id d.decision_id s.node_states v.node_states e))

pub create_side_effect-IsValid :
    (s : ReducedSnapshot) (x : SideEffectRecord) (t : ReducedSnapshot)
    → IsValid s
    → create_side_effect s x ≡ ok t
    → IsValid t
unfolding create_side_effect
create_side_effect-IsValid s x t v h =
    let (_, _, h₁) = >>=-eq-ok (ensure_same x.run_id s.run_state.run_id) _ h in
    let (_, _, h₂) =
      >>=-eq-ok (raise_if (contains s.side_effects x.side_effect_id) value_error) _ h₁ in
    let (nodes, e, h₃) =
      >>=-eq-ok (note_side_effect x.node_id x.side_effect_id s.node_states _) _ h₂ in
    subst IsValid (ok-injective h₃) (
      files-IsValid v refl refl refl refl refl
        (note_side_effect-Entries x.node_id x.side_effect_id s.node_states _ v.node_states e))
