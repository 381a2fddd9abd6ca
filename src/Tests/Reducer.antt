-- ===== src/Tests/Reducer.antt =====
-- The reducer at a snapshot whose pending interrupt is resolved.
use agent_roles.Common.{◌≡◌, refl, some, [], ◌∷◌, ok, arith}
use agent_roles.Common.Dict.{get, put}
use agent_roles.State.Models.{InterruptStatus, NodeStatus, ReducedSnapshot}
use agent_roles.State.Patch.{
  StatePatch, InterruptRecordUpdate, NodeStateUpdate, empty_patch, set_interrupt, set_node_state,
}
use agent_roles.State.Dataclass.{checked, apply_updates, bump_version, patch_record}
use agent_roles.State.Validation.{
  artifact_valid, decision_valid, side_effect_valid, non_empty, thread_record_valid,
  run_record_valid, thread_state_valid, run_state_valid, node_state_valid, interrupt_valid,
}
use agent_roles.State.Reducer.{
  apply, apply_records, update_node, create_artifacts, create_interrupts, record_artifact_ids,
  record_pending, update_interrupts, update_interrupt, track, set_pending,
}
use agent_roles.State.Reducer.Pending.{PendingIsOpen, apply-PendingIsOpen}
use agent_roles.State.Reducer.Growth.{Extends, apply-Extends}
use agent_roles.State.Reducer.Validity.{IsValid, Entries-put}
use agent_roles.State.Reducer.Validity.Whole.{IsWhollyValid, apply-IsWhollyValid}
use agent_roles.State.Reducer.Validity.Files.{HasValidFiles}
use agent_roles.Tests.Data.{
  snapshot, text_artifact, ask_interrupt, draft_node, review_node, run_state,
}

abbrev patch : StatePatch
patch = record empty_patch {
  node_state_updates = ("review", NodeStateUpdate.status NodeStatus.ready ∷ []) ∷ [];
  interrupt_updates =
      (
        "ask",
        InterruptRecordUpdate.status InterruptStatus.resolved
            ∷ (InterruptRecordUpdate.resolved_at (some 9) ∷ []),
      )
      ∷ [];
}

abbrev after : ReducedSnapshot
after = record snapshot {
  run_state = record run_state {
    pending_interrupt_ids = [];
    pending_approval_ids = [];
    version = 4;
  };
  node_states =
      ("draft", draft_node)
      ∷ (("review", record review_node { status = NodeStatus.ready; version = 4 }) ∷ []);
  interrupts =
      (
        "ask",
        record ask_interrupt {
          status = InterruptStatus.resolved;
          resolved_at = some 9;
          version = 2;
        },
      )
      ∷ [];
}

applied : apply snapshot patch ≡ ok after
unfolding apply apply_records patch_record update_node apply_updates bump_version checked
    create_artifacts create_interrupts record_artifact_ids record_pending update_interrupts
    update_interrupt track set_pending set_interrupt set_node_state get put node_state_valid
    interrupt_valid run_state_valid non_empty
applied = refl

pub snapshot-IsValid : IsValid snapshot
unfolding thread_record_valid run_record_valid thread_state_valid run_state_valid node_state_valid
    interrupt_valid non_empty get put
snapshot-IsValid = record {
  thread_record = refl;
  run_record = refl;
  thread_state = refl;
  run_state = refl;
  node_states =
      Entries-put node_state_valid (put [] "draft" draft_node) "review" review_node
        (Entries-put node_state_valid [] "draft" draft_node (λ id v e. absurd (ground arith)) refl)
        refl;
  interrupts =
      Entries-put interrupt_valid [] "ask" ask_interrupt (λ id v e. absurd (ground arith)) refl;
}

snapshot-PendingIsOpen : PendingIsOpen snapshot
unfolding get
snapshot-PendingIsOpen id = ground arith

snapshot-HasValidFiles : HasValidFiles snapshot
unfolding artifact_valid non_empty get put
snapshot-HasValidFiles = record {
  artifacts =
      Entries-put artifact_valid [] "text" text_artifact (λ id v e. absurd (ground arith)) refl;
  decisions = λ id v e. absurd (ground arith);
  side_effects = λ id v e. absurd (ground arith);
}

apply-IsWhollyValid_example : IsWhollyValid after
unfolding artifact_valid decision_valid side_effect_valid non_empty
apply-IsWhollyValid_example =
    apply-IsWhollyValid patch snapshot after
      (record {
        records = record { nodes = tt; interrupts = tt };
        files = record { artifacts = tt; decisions = tt; side_effects = tt };
      })
      (record { records = snapshot-IsValid; files = snapshot-HasValidFiles }) applied

apply-PendingIsOpen_example : PendingIsOpen after
apply-PendingIsOpen_example =
    apply-PendingIsOpen patch snapshot after tt snapshot-PendingIsOpen applied

apply-Extends_example : Extends snapshot after
apply-Extends_example = apply-Extends patch snapshot after applied
