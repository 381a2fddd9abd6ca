-- ===== src/Tests/Runtime.antt =====
-- The runtime service at an interrupted run.
use agent_roles.Common.{◌≡◌, refl, true, none, some, [], ◌∷◌, ok, fold_result}
use agent_roles.Value.{Value, end, field}
use agent_roles.State.Models.{NodeStatus, ReducedSnapshot, RunState}
use agent_roles.State.Patch.{set_run_state}
use agent_roles.Stores.State.{empty_store, persist_snapshot}
use agent_roles.Stores.Checkpoints.{no_checkpoints}
use agent_roles.Runtime.Monad.{World}
use agent_roles.Runtime.Context.{Dependencies, NodeExecutionResult}
use agent_roles.Runtime.Marks.Effects.{Ended}
use agent_roles.Runtime.Outcome.{status_lists}
use agent_roles.Runtime.Outcome.Listing.{status_lists-Ended}
use agent_roles.Runtime.Outcome.Listing as Listing
use agent_roles.Runtime.Service.Resume.{resolve_all, resumption_of}
use agent_roles.Runtime.Service.Resolution.{Resolves, resolve_all-Resolves}
use agent_roles.Tests.Data.{services, config, definition, snapshot, run_state}

-- An executor of one kind of node, that always succeeds.
abbrev success : NodeExecutionResult
success = record {
  status = NodeStatus.succeeded;
  output = none;
  artifact_type = none;
  artifact = none;
  interrupts = [];
  error_code = none;
  error_message = none;
  policy_decisions = [];
  side_effects = [];
  next_hints = end;
  metadata = end;
}

abbrev pub dependencies : Dependencies
dependencies = record {
  services = services;
  config = config;
  get_definition = λ id version. some definition;
  can_execute = λ t ref. true;
  execute = λ c w. (ok success, w);
  resolve_bindings = none;
}

status_lists-Ended_example :
    (r : RunState) × (fold_result set_run_state run_state
        (status_lists NodeStatus.succeeded "review" run_state)
      ≡ ok r)
    × Listing.Ended NodeStatus.succeeded "review" run_state r
status_lists-Ended_example = status_lists-Ended NodeStatus.succeeded "review" run_state refl

resolve_all-Resolves_example :
    Resolves snapshot 9
      (field "approved" (Value.bool true) end)
      ("ask" ∷ [])
      (resumption_of run_state)
      (resolve_all snapshot 9
        (field "approved" (Value.bool true) end)
        ("ask" ∷ [])
        (resumption_of run_state))
resolve_all-Resolves_example =
    resolve_all-Resolves snapshot 9 (field "approved" (Value.bool true) end)

-- The world in which a snapshot is all there is.
abbrev pub world_of : ReducedSnapshot → World
world_of s = record {
  state_store = persist_snapshot s empty_store;
  event_store = record { events_by_id = []; events_by_run = [] };
  checkpoint_store = no_checkpoints;
  cache = [];
  calls = 10;
}
