-- ===== src/State/Reducer/Growth.antt =====
-- Artifacts, policy decisions and side effects are an append-only record
-- (src/core/state/reducers.py).
use agent_roles.Common.{
  String, ◌≡◌, none, some, List, ok, fold_result, fold_result-keeps, >>=-eq-ok, arith, eq_iff,
}
use agent_roles.Common.Dict.{Dict, get, put, get-put}
use agent_roles.State.Models.{
  NodeState, ArtifactRecord, InterruptRecord, PolicyDecisionRecord, SideEffectRecord,
  ReducedSnapshot,
}
use agent_roles.State.Patch.{StatePatch, NodeStateUpdate}
use agent_roles.State.Reducer.{
  apply, apply_records, upsert_node, update_node, create_artifact, create_artifacts,
  create_interrupt, create_interrupts, update_interrupts, create_decision, create_side_effect,
}
use agent_roles.State.Reducer.Blocks.{apply-keeps}

-- Everything on file in `s` is on file in `t`, unchanged.
pub record Extends (s t : ReducedSnapshot) : Type 0 where
  pub artifacts :
      (id : String) {a : ArtifactRecord} → get s.artifacts id ≡ some a → get t.artifacts id ≡ some a
  pub decisions :
      (id : String) {d : PolicyDecisionRecord}
      → get s.policy_decisions id ≡ some d
      → get t.policy_decisions id ≡ some d
  pub side_effects :
      (id : String) {e : SideEffectRecord}
      → get s.side_effects id ≡ some e
      → get t.side_effects id ≡ some e

Extends-refl : (s : ReducedSnapshot) → Extends s s
Extends-refl s = record { artifacts = λ id e. e; decisions = λ id e. e; side_effects = λ id e. e }

Extends-trans : {s t u : ReducedSnapshot} → Extends s t → Extends t u → Extends s u
Extends-trans p q = record {
  artifacts = λ id e. q.artifacts id (p.artifacts id e);
  decisions = λ id e. q.decisions id (p.decisions id e);
  side_effects = λ id e. q.side_effects id (p.side_effects id e);
}

-- The three files are the same.
pub record SameFiles (s t : ReducedSnapshot) : Type 0 where
  pub artifacts : t.artifacts ≡ s.artifacts
  pub decisions : t.policy_decisions ≡ s.policy_decisions
  pub side_effects : t.side_effects ≡ s.side_effects

SameFiles-Extends : {s t : ReducedSnapshot} → SameFiles s t → Extends s t
SameFiles-Extends q = record {
  artifacts = λ id e. rw q.artifacts e;
  decisions = λ id e. rw q.decisions e;
  side_effects = λ id e. rw q.side_effects e;
}

pub apply_records-SameFiles :
    (p : StatePatch) (s t : ReducedSnapshot) → apply_records p s ≡ ok t → SameFiles s t
unfolding apply_records
apply_records-SameFiles p s t h = ground arith

pub upsert_node-SameFiles :
    (s : ReducedSnapshot) (n : NodeState) (t : ReducedSnapshot)
    → upsert_node s n ≡ ok t
    → SameFiles s t
unfolding upsert_node
upsert_node-SameFiles s n t h = ground arith

pub update_node-SameFiles :
    (s : ReducedSnapshot) (u : String × List NodeStateUpdate) (t : ReducedSnapshot)
    → update_node s u ≡ ok t
    → SameFiles s t
unfolding update_node
update_node-SameFiles s u t h = ground arith

pub create_interrupt-SameFiles :
    (s : ReducedSnapshot) (i : InterruptRecord) (t : ReducedSnapshot)
    → create_interrupt s i ≡ ok t
    → SameFiles s t
unfolding create_interrupt
create_interrupt-SameFiles s i t h = ground arith

create_interrupts-Extends :
    (p : StatePatch) (s t : ReducedSnapshot) → create_interrupts p s ≡ ok t → Extends s t
unfolding create_interrupts
create_interrupts-Extends p s t h =
    let (m, loop, rest) = >>=-eq-ok (fold_result create_interrupt s p.interrupts_to_create) _ h in
    let grown =
      fold_result-keeps (Extends s) create_interrupt
        (λ a i b q e. Extends-trans q (SameFiles-Extends (create_interrupt-SameFiles a i b e))) s
        p.interrupts_to_create m (Extends-refl s) loop in
    let last : SameFiles m t = ground arith in Extends-trans grown (SameFiles-Extends last)

pub update_interrupts-SameFiles :
    (p : StatePatch) (s t : ReducedSnapshot)
    → update_interrupts p.interrupt_updates s ≡ ok t
    → SameFiles s t
unfolding update_interrupts
update_interrupts-SameFiles p s t h = ground arith

-- A write under an id that is not on file keeps what is.
get-put_fresh {ℓ} :
    {V : Type ℓ} (d : Dict V) (k : String) (v : V) (id : String) {a : V}
    → get d k ≡ none
    → get d id ≡ some a
    → get (put d k v) id ≡ some a
get-put_fresh d k v id n e = ground (arith, get-put d k v id, eq_iff k id)

pub create_artifact_lem :
    (s : ReducedSnapshot) (a : ArtifactRecord) {t : ReducedSnapshot}
    → create_artifact s a ≡ ok t
    → (get s.artifacts a.artifact_id ≡ none)
      × (t.artifacts ≡ put s.artifacts a.artifact_id a)
      × (t.policy_decisions ≡ s.policy_decisions)
      × (t.side_effects ≡ s.side_effects)
unfolding create_artifact
create_artifact_lem s a h = ground arith

create_artifact-Extends :
    (s : ReducedSnapshot) (a : ArtifactRecord) (t : ReducedSnapshot)
    → create_artifact s a ≡ ok t
    → Extends s t
create_artifact-Extends s a t h =
    let (new, files, same, same') = create_artifact_lem s a h in
    record {
      artifacts = λ id e. rw files (get-put_fresh s.artifacts a.artifact_id a id new e);
      decisions = λ id e. rw same e;
      side_effects = λ id e. rw same' e;
    }

create_decision-Extends :
    (s : ReducedSnapshot) (d : PolicyDecisionRecord) (t : ReducedSnapshot)
    → create_decision s d ≡ ok t
    → Extends s t
unfolding create_decision
create_decision-Extends s d t h = record {
  artifacts = λ id e. ground arith;
  decisions =
      λ id {d = a} e. ground (arith, get-put_fresh s.policy_decisions d.decision_id d id {a = a});
  side_effects = λ id e. ground arith;
}

create_side_effect-Extends :
    (s : ReducedSnapshot) (x : SideEffectRecord) (t : ReducedSnapshot)
    → create_side_effect s x ≡ ok t
    → Extends s t
unfolding create_side_effect
create_side_effect-Extends s x t h = record {
  artifacts = λ id e. ground arith;
  decisions = λ id e. ground arith;
  side_effects =
      λ id {e = a} e. ground (arith, get-put_fresh s.side_effects x.side_effect_id x id {a = a});
}

artifact_loop-Extends :
    (xs : List ArtifactRecord) (s t : ReducedSnapshot)
    → fold_result create_artifact s xs ≡ ok t
    → Extends s t
artifact_loop-Extends xs s t h =
    fold_result-keeps (Extends s) create_artifact
      (λ a x b q e. Extends-trans q (create_artifact-Extends a x b e)) s xs t (Extends-refl s) h

create_artifacts-Extends :
    (p : StatePatch) (s t : ReducedSnapshot) → create_artifacts p s ≡ ok t → Extends s t
unfolding create_artifacts
create_artifacts-Extends p s t h =
    let (m, loop, rest) = >>=-eq-ok (fold_result create_artifact s p.artifacts_to_create) _ h in
    let last : SameFiles m t = ground arith in
    Extends-trans (artifact_loop-Extends p.artifacts_to_create s m loop) (SameFiles-Extends last)

upsert_loop-Extends :
    (xs : List NodeState) (s t : ReducedSnapshot)
    → fold_result upsert_node s xs ≡ ok t
    → Extends s t
upsert_loop-Extends xs s t h =
    fold_result-keeps (Extends s) upsert_node
      (λ a n b q e. Extends-trans q (SameFiles-Extends (upsert_node-SameFiles a n b e))) s xs t
      (Extends-refl s) h

-- Applying a patch removes and changes no artifact, policy decision or side effect on file.
pub apply-Extends : (p : StatePatch) (s t : ReducedSnapshot) → apply s p ≡ ok t → Extends s t
apply-Extends p s t h =
    apply-keeps p (Extends s)
      (record {
        records = λ a b q e. Extends-trans q (SameFiles-Extends (apply_records-SameFiles p a b e));
        upsert = λ a b q e. Extends-trans q (upsert_loop-Extends p.node_states_to_upsert a b e);
        update = λ a u b q e. Extends-trans q (SameFiles-Extends (update_node-SameFiles a u b e));
        artifacts = λ a b q e. Extends-trans q (create_artifacts-Extends p a b e);
        interrupts = λ a b q e. Extends-trans q (create_interrupts-Extends p a b e);
        resolutions =
            λ a b q e. Extends-trans q (SameFiles-Extends (update_interrupts-SameFiles p a b e));
        decisions = λ a b q e.
            fold_result-keeps (Extends s) create_decision
              (λ c d m k f. Extends-trans k (create_decision-Extends c d m f)) a
              p.policy_decisions_to_create b q e;
        side_effects = λ a b q e.
            fold_result-keeps (Extends s) create_side_effect
              (λ c x m k f. Extends-trans k (create_side_effect-Extends c x m f)) a
              p.side_effects_to_create b q e;
      })
      s t (Extends-refl s) h
