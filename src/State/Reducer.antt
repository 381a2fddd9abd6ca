-- ===== src/State/Reducer.antt =====
-- `StateReducer.apply` (src/core/state/reducers.py), one function for each of its blocks. The
-- Python works on deep copies and returns a new snapshot, so a run that raises changes nothing.
pub mod Pending
pub mod Frames
pub mod Blocks
pub mod Validity
pub mod Growth
use agent_roles.Common.{
  ℕ, String, ◌+◌, ◌≡◌, refl, Bool, true, false, not, ◌&&◌, ◌||◌, Option, none, some, List, [], ◌∷◌,
  ◌++◌, Result, ok, err, value_error, ◌>>=◌, ◌>>◌, require, raise_if, or_raise, fold_result, elem,
  append_new, without, is_empty, ◌=ₛ◌, is_some, if◌then◌else◌,
}
use agent_roles.Common.Dict.{Dict, get, put, contains}
use agent_roles.State.Models.{
  InterruptType, InterruptStatus, ThreadState, RunState, NodeState, ArtifactRecord, InterruptRecord,
  PolicyDecisionRecord, SideEffectRecord, ReducedSnapshot,
}
use agent_roles.State.Patch.{StatePatch, NodeStateUpdate, InterruptRecordUpdate}
use agent_roles.State.Dataclass.{checked, apply_updates, bump_version, patch_record}
use agent_roles.State.Validation.{
  thread_record_class, run_record_class, thread_state_class, run_state_class, node_state_class,
  interrupt_class,
}

abbrev pub is_open : InterruptStatus → Bool
is_open InterruptStatus.open_status = true
is_open _ = false

abbrev pub is_approval : InterruptType → Bool
is_approval InterruptType.approval_required = true
is_approval _ = false

-- `_ensure_same_run` and `_ensure_same_thread`
abbrev pub ensure_same : String → String → Result (Unit {0})
ensure_same value expected = require (value =ₛ expected) value_error

-- The four blocks of record updates.
unfoldable pub apply_records : StatePatch → ReducedSnapshot → Result ReducedSnapshot
apply_records p s = do
  tr ← patch_record thread_record_class s.thread_record p.thread_record_updates
  rr ← patch_record run_record_class s.run_record p.run_record_updates
  ts ← patch_record thread_state_class s.thread_state p.thread_state_updates
  rs ← patch_record run_state_class s.run_state p.run_state_updates
  ok (record s { thread_record = tr; run_record = rr; thread_state = ts; run_state = rs })

-- `existing is not None: upserted = replace(upserted, version=existing.version + 1)`
unfoldable pub upserted : Option NodeState → NodeState → Result NodeState
upserted none n = ok n
upserted (some old) n = checked node_state_class (record n { version = old.version + 1 })

unfoldable pub upsert_node : ReducedSnapshot → NodeState → Result ReducedSnapshot
upsert_node s n = do
  ensure_same n.run_id s.run_state.run_id
  n' ← upserted (get s.node_states n.node_id) n
  ok (record s { node_states = put s.node_states n.node_id n' })

unfoldable pub update_node :
    ReducedSnapshot → String × List NodeStateUpdate → Result ReducedSnapshot
update_node s (node_id, updates) = do
  n ← or_raise (get s.node_states node_id) value_error
  updated ← apply_updates node_state_class n updates
  n' ← bump_version node_state_class updated
  ok (record s { node_states = put s.node_states node_id n' })

-- `node_states[id] = _bump_version(replace(node, ...))`
unfoldable pub rewrite_node : Dict NodeState → String → NodeState → Result (Dict NodeState)
rewrite_node nodes id n = do
  n' ← checked node_state_class n
  n'' ← bump_version node_state_class n'
  ok (put nodes id n'')

-- The producer's output is set by its first artifact only.
unfoldable pub set_output :
    Dict NodeState → ArtifactRecord → Option NodeState → Result (Dict NodeState)
set_output nodes a none = ok nodes
set_output nodes a (some n) =
    if is_some n.output_artifact_id
    then ok nodes
    else rewrite_node nodes a.producer_node_id
        (record n { output_artifact_id = some a.artifact_id })

unfoldable pub create_artifact : ReducedSnapshot → ArtifactRecord → Result ReducedSnapshot
create_artifact s a = do
  ensure_same a.run_id s.run_state.run_id
  ensure_same a.thread_id s.thread_state.thread_id
  raise_if (contains s.artifacts a.artifact_id) value_error
  nodes ← set_output s.node_states a (get s.node_states a.producer_node_id)
  ok (record s { artifacts = put s.artifacts a.artifact_id a; node_states = nodes })

-- `for x in new: if x not in ids: ids.append(x)`
abbrev pub append_all : List String → List String → List String
append_all ids [] = ids
append_all ids (x ∷ xs) = append_all (append_new ids x) xs

abbrev pub artifact_ids_of : List ArtifactRecord → List String
artifact_ids_of [] = []
artifact_ids_of (a ∷ as') = a.artifact_id ∷ artifact_ids_of as'

unfoldable pub record_artifact_ids : List String → ThreadState → Result ThreadState
record_artifact_ids [] t = ok t
record_artifact_ids (x ∷ xs) t =
    checked thread_state_class (record t { artifact_ids = append_all t.artifact_ids (x ∷ xs) })
    >>= bump_version thread_state_class

unfoldable pub create_artifacts : StatePatch → ReducedSnapshot → Result ReducedSnapshot
create_artifacts p s = do
  s' ← fold_result create_artifact s p.artifacts_to_create
  ts ← record_artifact_ids (artifact_ids_of p.artifacts_to_create) s'.thread_state
  ok (record s' { thread_state = ts })

unfoldable pub create_interrupt : ReducedSnapshot → InterruptRecord → Result ReducedSnapshot
create_interrupt s i = do
  ensure_same i.run_id s.run_state.run_id
  ensure_same i.thread_id s.thread_state.thread_id
  raise_if (contains s.interrupts i.interrupt_id) value_error
  ok (record s { interrupts = put s.interrupts i.interrupt_id i })

-- `interrupt_ids_to_append` and `approval_ids_to_append`
abbrev pub open_ids : List InterruptRecord → List String
open_ids [] = []
open_ids (i ∷ is) =
    let rest = open_ids is in if is_open i.status then i.interrupt_id ∷ rest else rest

abbrev pub approval_ids : List InterruptRecord → List String
approval_ids [] = []
approval_ids (i ∷ is) =
    let rest = approval_ids is in
    if is_open i.status && is_approval i.interrupt_type then i.interrupt_id ∷ rest else rest

-- `replace(run_state, pending_interrupt_ids=..., pending_approval_ids=...)`, with a new version.
unfoldable pub set_pending : List String → List String → RunState → Result RunState
set_pending pending approvals r =
    checked run_state_class
      (record r { pending_interrupt_ids = pending; pending_approval_ids = approvals })
    >>= bump_version run_state_class

unfoldable pub record_pending : List String → List String → RunState → Result RunState
record_pending [] [] r = ok r
record_pending opened approvals r =
    set_pending (append_all r.pending_interrupt_ids opened)
      (append_all r.pending_approval_ids approvals) r

unfoldable pub create_interrupts : StatePatch → ReducedSnapshot → Result ReducedSnapshot
create_interrupts p s = do
  s' ← fold_result create_interrupt s p.interrupts_to_create
  rs ←
      record_pending (open_ids p.interrupts_to_create) (approval_ids p.interrupts_to_create)
        s'.run_state
  ok (record s' { run_state = rs })

-- The loop variables of the block on `interrupt_updates`.
pub record Tracked : Type 0 where
  pub interrupts : Dict InterruptRecord
  pub pending : List String
  pub approvals : List String

-- How one interrupt, just written, moves in and out of the two lists.
unfoldable pub track : String → InterruptRecord → Tracked → Tracked
track id i t =
    if is_open i.status
    then record t {
      pending = append_new t.pending id;
      approvals = if is_approval i.interrupt_type then append_new t.approvals id else t.approvals;
    }
    else record t { pending = without id t.pending; approvals = without id t.approvals }

unfoldable pub update_interrupt : Tracked → String × List InterruptRecordUpdate → Result Tracked
update_interrupt t (id, updates) = do
  i ← or_raise (get t.interrupts id) value_error
  updated ← apply_updates interrupt_class i updates
  i' ← bump_version interrupt_class updated
  ok (track id i' (record t { interrupts = put t.interrupts id i' }))

abbrev pub tracked_of : ReducedSnapshot → Tracked
tracked_of s = record {
  interrupts = s.interrupts;
  pending = s.run_state.pending_interrupt_ids;
  approvals = s.run_state.pending_approval_ids;
}

unfoldable pub update_interrupts :
    Dict (List InterruptRecordUpdate) → ReducedSnapshot → Result ReducedSnapshot
update_interrupts [] s = ok s
update_interrupts (u ∷ us) s = do
  t ← fold_result update_interrupt (tracked_of s) (u ∷ us)
  rs ← set_pending t.pending t.approvals s.run_state
  ok (record s { interrupts = t.interrupts; run_state = rs })

-- The node that a decision or a side effect names gets its id, at most once.
unfoldable pub note_decision :
    String → String → Dict NodeState → Option NodeState → Result (Dict NodeState)
note_decision node_id id nodes none = ok nodes
note_decision node_id id nodes (some n) =
    if elem id n.policy_decision_ids
    then ok nodes
    else rewrite_node nodes node_id
        (record n { policy_decision_ids = n.policy_decision_ids ++ id ∷ [] })

-- `if decision.node_id is not None and decision.node_id in node_states`
unfoldable pub note_decision_of : Option String → String → Dict NodeState → Result (Dict NodeState)
note_decision_of none id nodes = ok nodes
note_decision_of (some node_id) id nodes = note_decision node_id id nodes (get nodes node_id)

unfoldable pub create_decision : ReducedSnapshot → PolicyDecisionRecord → Result ReducedSnapshot
create_decision s d = do
  ensure_same d.run_id s.run_state.run_id
  raise_if (contains s.policy_decisions d.decision_id) value_error
  nodes ← note_decision_of d.node_id d.decision_id s.node_states
  ok (record s { policy_decisions = put s.policy_decisions d.decision_id d; node_states = nodes })

unfoldable pub note_side_effect :
    String → String → Dict NodeState → Option NodeState → Result (Dict NodeState)
note_side_effect node_id id nodes none = ok nodes
note_side_effect node_id id nodes (some n) =
    if elem id n.side_effect_ids
    then ok nodes
    else rewrite_node nodes node_id (record n { side_effect_ids = n.side_effect_ids ++ id ∷ [] })

unfoldable pub create_side_effect : ReducedSnapshot → SideEffectRecord → Result ReducedSnapshot
create_side_effect s e = do
  ensure_same e.run_id s.run_state.run_id
  raise_if (contains s.side_effects e.side_effect_id) value_error
  nodes ← note_side_effect e.node_id e.side_effect_id s.node_states (get s.node_states e.node_id)
  ok (record s { side_effects = put s.side_effects e.side_effect_id e; node_states = nodes })

-- `StateReducer.apply(current_snapshot, patch)`
unfoldable pub apply : ReducedSnapshot → StatePatch → Result ReducedSnapshot
apply s p = do
  s₁ ← apply_records p s
  s₂ ← fold_result upsert_node s₁ p.node_states_to_upsert
  s₃ ← fold_result update_node s₂ p.node_state_updates
  s₄ ← create_artifacts p s₃
  s₅ ← create_interrupts p s₄
  s₆ ← update_interrupts p.interrupt_updates s₅
  s₇ ← fold_result create_decision s₆ p.policy_decisions_to_create
  fold_result create_side_effect s₇ p.side_effects_to_create
