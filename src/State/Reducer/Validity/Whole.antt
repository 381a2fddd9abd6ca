-- ===== src/State/Reducer/Validity/Whole.antt =====
-- `StateReducer.apply` as a whole keeps every record valid (src/core/state/reducers.py).
use agent_roles.Common.{◌≡◌, true, ok, fold_result-keeps, fold_result-keeps_all}
use agent_roles.State.Models.{ReducedSnapshot}
use agent_roles.State.Patch.{StatePatch}
use agent_roles.State.Validation.{node_state_valid}
use agent_roles.State.Reducer.{apply, upsert_node, create_decision, create_side_effect}
use agent_roles.State.Reducer.Blocks.{apply-keeps}
use agent_roles.State.Reducer.Validity.{IsValid, IsValidPatch}
use agent_roles.State.Reducer.Validity.Records.{
  apply_records-IsValid, upsert_node-IsValid, update_node-IsValid, create_decision-IsValid,
  create_side_effect-IsValid,
}
use agent_roles.State.Reducer.Validity.Files.{HasValidFiles, BringsValidFiles, apply-HasValidFiles}
use agent_roles.State.Reducer.Validity.Lists.{
  create_artifacts-IsValid, create_interrupts-IsValid, update_interrupts-IsValid,
}

-- The records of threads, runs, nodes and interrupts.
apply-IsValid :
    (p : StatePatch) (s t : ReducedSnapshot)
    → IsValidPatch p
    → IsValid s
    → apply s p ≡ ok t
    → IsValid t
apply-IsValid p s t q v h =
    apply-keeps p IsValid
      (record {
        records = apply_records-IsValid p;
        upsert = λ a b w e.
            fold_result-keeps_all IsValid (λ n. node_state_valid n ≡ true) upsert_node
              upsert_node-IsValid a p.node_states_to_upsert b q.nodes w e;
        update = update_node-IsValid;
        artifacts = create_artifacts-IsValid p;
        interrupts = λ a b. create_interrupts-IsValid p a b q;
        resolutions = update_interrupts-IsValid p.interrupt_updates;
        decisions = λ a b w e.
            fold_result-keeps IsValid create_decision create_decision-IsValid a
              p.policy_decisions_to_create b w e;
        side_effects = λ a b w e.
            fold_result-keeps IsValid create_side_effect create_side_effect-IsValid a
              p.side_effects_to_create b w e;
      })
      s t v h

-- Every record of a snapshot passes its checks: the four of the thread and the run, and the node
-- states, artifacts, interrupts, policy decisions and side effects.
pub record IsWhollyValid (s : ReducedSnapshot) : Type 0 where
  pub records : IsValid s
  pub files : HasValidFiles s

-- The records that a patch creates or upserts, of any kind, pass their checks.
pub record BringsValid (p : StatePatch) : Type 0 where
  pub records : IsValidPatch p
  pub files : BringsValidFiles p

-- A snapshot whose records all pass their checks, and a patch whose new records do, give a snapshot
-- whose records all pass their checks: those of the thread and the run, the node states, artifacts,
-- interrupts, policy decisions and side effects.
pub apply-IsWhollyValid :
    (p : StatePatch) (s t : ReducedSnapshot)
    → BringsValid p
    → IsWhollyValid s
    → apply s p ≡ ok t
    → IsWhollyValid t
apply-IsWhollyValid p s t q v h = record {
  records = apply-IsValid p s t q.records v.records h;
  files = apply-HasValidFiles p s t q.files v.files h;
}
