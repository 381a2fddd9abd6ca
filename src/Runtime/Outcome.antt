-- ===== src/Runtime/Outcome.antt =====
-- `_build_result_patch` and `_apply_result_hints` (src/core/runtime/runtime_service.py): what a
-- node's result does to the state of the run.
pub mod Listing
use agent_roles.Common.{
  ℕ, String, ◌≡◌, refl, Bool, true, false, not, Option, none, some, List, [], ◌∷◌, ◌++◌, Result, ok,
  err, Error, key_error, value_error, or_raise, if◌then◌else◌, without, is_some,
}
use agent_roles.Common.Dict.{Dict, get}
use agent_roles.Value.{Value, Fields, end, fget}
use agent_roles.State.Models.{NodeStatus, RunState, ArtifactRecord, ReducedSnapshot}
use agent_roles.State.Patch.{
  StatePatch, RunStateUpdate, ThreadStateUpdate, NodeStateUpdate, empty_patch,
}
use agent_roles.State.Validation.{artifact_valid}
use agent_roles.Workflow.Models.{CompiledWorkflow, NodeSpec, OutputBinding}
use agent_roles.Contracts.{Services}
use agent_roles.Runtime.Monad.{Action, ◌>>=◌, pure, lift}
use agent_roles.Runtime.Context.{NodeExecutionResult}
use agent_roles.Runtime.Lists.{dedupe}
use agent_roles.Runtime.Store.{now, new_id}

-- The list that a status puts its node in gets it at its end.
abbrev appended_if : Bool → List String → String → List String
appended_if true xs id = xs ++ id ∷ []
appended_if false xs id = xs

abbrev pub has_succeeded : NodeStatus → Bool
has_succeeded NodeStatus.succeeded = true
has_succeeded _ = false

abbrev pub has_failed : NodeStatus → Bool
has_failed NodeStatus.failed = true
has_failed _ = false

abbrev pub is_waiting : NodeStatus → Bool
is_waiting NodeStatus.waiting = true
is_waiting _ = false

abbrev pub is_blocked : NodeStatus → Bool
is_blocked NodeStatus.blocked = true
is_blocked _ = false

-- A list of nodes after `node_id` has left it, and come back if the status says so.
unfoldable pub relisted : Bool → String → List String → List String
relisted back node_id xs = dedupe (appended_if back (without node_id xs) node_id)

unfoldable pub status_lists : NodeStatus → String → RunState → List RunStateUpdate
status_lists status node_id r =
    RunStateUpdate.active_nodes (without node_id r.active_nodes)
    ∷ (RunStateUpdate.completed_nodes (relisted (has_succeeded status) node_id r.completed_nodes)
        ∷ (RunStateUpdate.failed_nodes (relisted (has_failed status) node_id r.failed_nodes)
            ∷ (RunStateUpdate.waiting_nodes (relisted (is_waiting status) node_id r.waiting_nodes)
                ∷ (RunStateUpdate.blocked_nodes
                      (relisted (is_blocked status) node_id r.blocked_nodes)
                    ∷ []))))

-- A hint that is given must be a dict; an explicit None is as good as none.
unfoldable pub hint : Fields → String → Result (Option Fields)
hint hints key = elim (fget hints key) [
  | none ↦ ok none
  | some Value.null ↦ ok none
  | some (Value.dict d) ↦ ok (some d)
  | some _ ↦ err value_error
]

abbrev run_extensions : Option Fields → List RunStateUpdate
run_extensions none = []
run_extensions (some d) = RunStateUpdate.extensions d ∷ []

abbrev thread_extensions : Option Fields → List ThreadStateUpdate
thread_extensions none = []
thread_extensions (some d) = ThreadStateUpdate.extensions d ∷ []

abbrev checked_artifact : ArtifactRecord → Result ArtifactRecord
checked_artifact a = if artifact_valid a then ok a else err value_error

module _ (sv : Services) where
  -- `ArtifactRecord(...)` of a node's output, with its `__post_init__`.
  unfoldable pub output_artifact :
      ReducedSnapshot → String → OutputBinding → Fields → Action ArtifactRecord
  output_artifact s node_id binding output = do
    id ← new_id sv "artifact"
    created_at ← now sv
    lift (
        checked_artifact (record {
          artifact_id = id;
          run_id = s.run_record.run_id;
          thread_id = s.thread_record.thread_id;
          producer_node_id = node_id;
          artifact_type = binding.artifact_type;
          schema_version = "1.0";
          payload_ref = none;
          payload_inline = some output;
          summary = none;
          quality_status = none;
          created_at = created_at;
          metadata = end;
        }))

  abbrev pub bound_artifacts :
      ReducedSnapshot → String → Option OutputBinding → Fields → Action (List ArtifactRecord)
  bound_artifacts s node_id none output = pure []
  bound_artifacts s node_id (some b) output =
      output_artifact s node_id b output >>= λ a. pure (a ∷ [])

  -- `artifacts_to_create`
  unfoldable pub new_artifacts :
      ReducedSnapshot
      → CompiledWorkflow
      → String
      → Option ArtifactRecord
      → Option Fields
      → Action (List ArtifactRecord)
  new_artifacts s w node_id (some a) output = pure (a ∷ [])
  new_artifacts s w node_id none none = pure []
  new_artifacts s w node_id none (some output) = do
    spec ← lift (or_raise (get w.node_map node_id) key_error)
    bound_artifacts s node_id spec.output_binding output

  unfoldable pub build_result_patch :
      ReducedSnapshot → CompiledWorkflow → String → NodeExecutionResult → Action StatePatch
  build_result_patch s w node_id result = do
    ended_at ← now sv
    for_run ← lift (hint result.next_hints "run_state_extensions")
    for_thread ← lift (hint result.next_hints "thread_state_extensions")
    artifacts ← new_artifacts s w node_id result.artifact result.output
    pure (record empty_patch {
      thread_state_updates = thread_extensions for_thread;
      run_state_updates = status_lists result.status node_id s.run_state ++ run_extensions for_run;
      node_state_updates =
          (
            node_id,
            NodeStateUpdate.status result.status
                ∷ (NodeStateUpdate.ended_at (some ended_at)
                    ∷ (NodeStateUpdate.error_code result.error_code
                        ∷ (NodeStateUpdate.error_message result.error_message ∷ []))),
          )
          ∷ [];
      artifacts_to_create = artifacts;
      interrupts_to_create = result.interrupts;
      policy_decisions_to_create = result.policy_decisions;
      side_effects_to_create = result.side_effects;
    })
