-- ===== src/State/Reducer/Validity.antt =====
-- `StateReducer.apply` returns only records that pass their `__post_init__` checks
-- (src/core/state/reducers.py, src/core/state/models.py): what that means, and the end of every
-- write.
pub mod Records
pub mod Lists
pub mod Files
pub mod Whole
use agent_roles.Common.{
  String, ◌≡◌, refl, sym, ◌∙◌, subst, Bool, true, false, Option, none, some, List, [], ◌∷◌, Result,
  ok, err, ◌>>=◌, fold_result, fold_result-keeps, fold_result-keeps_all, if◌then◌else◌, raise_if,
  >>=-eq-ok, ok-injective, arith, ◌=ₛ◌, eq_iff, eq_refl, All, or_raise, value_error, ◌+◌,
}
use agent_roles.Common.Dict.{Dict, get, put, get-put, get-put_self, contains}
use agent_roles.State.Models.{
  NodeState, ArtifactRecord, InterruptRecord, PolicyDecisionRecord, SideEffectRecord,
  ReducedSnapshot, ThreadState, RunState,
}
use agent_roles.State.Patch.{StatePatch, NodeStateUpdate, InterruptRecordUpdate}
use agent_roles.State.Dataclass.{
  Dataclass, checked, checked_valid, checked_same, apply_updates, bump_version, patch_record,
  patch_record_valid,
}
use agent_roles.State.Validation.{
  thread_record_valid, run_record_valid, thread_state_valid, run_state_valid, node_state_valid,
  interrupt_valid, thread_record_class, run_record_class, thread_state_class, run_state_class,
  node_state_class, interrupt_class,
}
use agent_roles.State.Reducer.{
  apply, apply_records, upserted, upsert_node, update_node, set_output, create_artifact,
  create_artifacts, record_artifact_ids, create_interrupt, create_interrupts, record_pending,
  set_pending, ensure_same, Tracked, tracked_of, track, update_interrupt, update_interrupts,
  rewrite_node, note_decision, note_decision_of, note_side_effect, create_decision,
  create_side_effect, artifact_ids_of, open_ids, approval_ids,
}
use agent_roles.State.Reducer.Blocks.{apply-keeps}

-- Every entry of a dict satisfies a test.
abbrev pub Entries : {V : Type 0} → (V → Bool) → Dict V → Type 0
Entries {V} p d = (id : String) (v : V) → get d id ≡ some v → p v ≡ true

-- Every record of a snapshot passes its checks.
pub record IsValid (s : ReducedSnapshot) : Type 0 where
  pub thread_record : thread_record_valid s.thread_record ≡ true
  pub run_record : run_record_valid s.run_record ≡ true
  pub thread_state : thread_state_valid s.thread_state ≡ true
  pub run_state : run_state_valid s.run_state ≡ true
  pub node_states : Entries node_state_valid s.node_states
  pub interrupts : Entries interrupt_valid s.interrupts

-- The records that the patch brings in were checked when they were made.
pub record IsValidPatch (p : StatePatch) : Type 0 where
  pub nodes : All (λ n. node_state_valid n ≡ true) p.node_states_to_upsert
  pub interrupts : All (λ i. interrupt_valid i ≡ true) p.interrupts_to_create

pub Entries-put :
    {V : Type 0} (p : V → Bool) (d : Dict V) (k : String) (v : V)
    → Entries p d
    → p v ≡ true
    → Entries p (put d k v)
Entries-put p d k v h e id w q = ground (arith, get-put d k v id, h id w)

-- The end of every write to a record: it is checked, and checked again with its new version.
pub bumped_valid :
    {A U : Type 0} (d : Dataclass A U) (a : A) {b : A} → bump_version d a ≡ ok b → d.valid b ≡ true
unfolding bump_version
bumped_valid d a h = checked_valid d (d.bump a) h
