-- ===== src/Runtime/Service.antt =====
-- `RuntimeService` (src/core/runtime/runtime_service.py): the operations that a client calls.
pub mod Start
pub mod Resume
pub mod Resolution
use agent_roles.Common.{
  ℕ, ◌≡◌, refl, String, Bool, true, false, not, ◌&&◌, Option, none, some, List, [], ◌∷◌, Result, ok,
  err, Error, key_error, value_error, or_raise, if◌then◌else◌, is_some, ◌=ₛ◌, is_empty,
}
use agent_roles.Common.Dict.{Dict, get, values}
use agent_roles.Value.{Value, Fields, end, field}
use agent_roles.State.Models.{
  ThreadStatus, RunStatus, NodeStatus, BudgetSnapshot, BudgetUsage, ThreadRecord, RunRecord,
  ThreadState, RunState, NodeState, ReducedSnapshot,
}
use agent_roles.State.Patch.{
  StatePatch, ThreadRecordUpdate, ThreadStateUpdate, RunRecordUpdate, RunStateUpdate,
  NodeStateUpdate, empty_patch,
}
use agent_roles.State.Dataclass.{checked}
use agent_roles.State.Validation.{
  thread_record_class, run_record_class, thread_state_class, run_state_class, node_state_class,
}
use agent_roles.State.Reducer.{apply}
use agent_roles.Selector.Paths.{optional_text}
use agent_roles.Selector.Ready.{is_terminal}
use agent_roles.Workflow.Models.{WorkflowDefinition, CompiledWorkflow, NodeSpec}
use agent_roles.Workflow.Compiler.{compile}
use agent_roles.Agents.Bindings.{ResolvedWorkflowBindings, to_extension_map}
use agent_roles.Stores.State.{save_thread_record, save_thread_state}
use agent_roles.Stores.Checkpoints.{CheckpointRecord, latest}
use agent_roles.Runtime.Monad.{World, Action, ◌>>=◌, ◌>>◌, pure, lift, ask, modify, raise_when}
use agent_roles.Runtime.Context.{Dependencies, ReplayHandle, ReplayMode, diagnostic, execution}
use agent_roles.Runtime.Store.{
  now, new_id, get_state, persist, apply_patch, append_run_events, checkpoint, emit_thread,
  new_event, run_event, run_trace_context,
}
use agent_roles.Runtime.Marks.{freed}
use agent_roles.Runtime.Rounds.{is_terminal_run, Progress, returned, again, run_scheduler_loop}

-- `self.get_run(run_id) or record`
unfoldable pub run_or : String → RunRecord → Action RunRecord
run_or run_id r w = elim (get w.state_store.run_records run_id) [
  | some stored ↦ (ok stored, w)
  | none ↦ (ok r, w)
]

-- What is returned once the loop of the scheduler has, if it has.
abbrev pub if_returned : {A : Type 0} → Progress → Action A → Action (Option A)
if_returned returned m = m >>= λ a. pure (some a)
if_returned again m = pure none

-- `ReplayMode(mode)`
unfoldable pub replay_mode : String → Result ReplayMode
replay_mode s =
    if s =ₛ "diagnostic"
    then ok diagnostic
    else if s =ₛ "execution"
    then ok execution
    else err value_error

-- The update of each node that a cancelled run had not finished.
unfoldable pub cancelled_nodes : ℕ → Option String → Dict NodeState → Dict (List NodeStateUpdate)
cancelled_nodes ended_at reason [] = []
cancelled_nodes ended_at reason ((id, n) ∷ d) =
    let rest = cancelled_nodes ended_at reason d in
    if is_terminal n.status
    then rest
    else (
      id,
      NodeStateUpdate.status NodeStatus.cancelled
          ∷ (NodeStateUpdate.ended_at (some ended_at)
              ∷ (NodeStateUpdate.error_message reason ∷ [])),
    )
      ∷ rest

unfoldable pub cancelled_patch : ℕ → Option String → ReducedSnapshot → StatePatch
cancelled_patch ended_at reason s = record (freed ended_at) {
  run_record_updates =
      RunRecordUpdate.status RunStatus.cancelled
      ∷ (RunRecordUpdate.ended_at (some ended_at) ∷ (RunRecordUpdate.failure_message reason ∷ []));
  run_state_updates =
      RunStateUpdate.status RunStatus.cancelled
      ∷ (RunStateUpdate.frontier []
          ∷ (RunStateUpdate.active_nodes []
              ∷ (RunStateUpdate.waiting_nodes [] ∷ (RunStateUpdate.blocked_nodes [] ∷ []))));
  node_state_updates = cancelled_nodes ended_at reason s.node_states;
}

module _ (dp : Dependencies) where
  -- `create_thread`; a dict of metadata that is None is the empty dict.
  unfoldable pub create_thread :
      String → String → Option String → Option String → Option String → Fields → Action ThreadRecord
  create_thread thread_type goal title owner_id tenant_id metadata = do
    created_at ← now dp.services
    id ← new_id dp.services "thread"
    thread ← lift (
        checked thread_record_class (record {
          thread_id = id;
          thread_type = thread_type;
          title = title;
          owner_id = owner_id;
          tenant_id = tenant_id;
          status = ThreadStatus.created;
          created_at = created_at;
          updated_at = created_at;
          current_run_id = none;
          latest_checkpoint_id = none;
          labels = [];
          metadata = metadata;
          version = 0;
        }))
    state ← lift (
        checked thread_state_class (record {
          thread_id = id;
          goal = goal;
          global_context = end;
          shared_memory_refs = [];
          artifact_ids = [];
          active_run_id = none;
          thread_status = ThreadStatus.created;
          extensions = end;
          version = 0;
        }))
    modify (λ w. record w { state_store = save_thread_record thread w.state_store })
    modify (λ w. record w { state_store = save_thread_state state w.state_store })
    emit_thread dp.services "thread.created" thread (field "goal" (Value.text goal) end)

  -- `_require_workflow`, then `compile`
  unfoldable pub compiled : String → Option String → Action CompiledWorkflow
  compiled workflow_id version w = elim (dp.get_definition workflow_id version) [
    | none ↦ (err key_error, w)
    | some d ↦ elim (compile d w.cache) [
      | ok (c, cache) ↦ (ok c, record w { cache = cache })
      | err e ↦ (err e, w)
    ]
  ]

  -- `cancel_run`
  unfoldable pub cancel_run : String → Option String → Action RunRecord
  cancel_run run_id reason = do
    s ← get_state run_id
    elim (is_terminal_run s.run_record.status) [
      | true ↦ pure s.run_record
      | false ↦ do
        ended_at ← now dp.services
        cancelled ← apply_patch s (cancelled_patch ended_at reason s)
        e ← lift (
            run_event "run.cancelled" cancelled.thread_record.thread_id run_id
              (field "reason" (optional_text reason) end))
        append_run_events dp.services run_id (e ∷ [])
        _ ← checkpoint dp.services cancelled
        run_or run_id cancelled.run_record
    ]

  -- The checkpoint that a replay names, or the run's latest.
  unfoldable pub replayed : String → Option String → Action CheckpointRecord
  replayed run_id none w = elim (latest w.checkpoint_store run_id) [
    | ok c ↦ (or_raise c key_error, w)
    | err e ↦ (err e, w)
  ]
  replayed run_id (some id) w = (or_raise (get w.checkpoint_store.checkpoints id) key_error, w)

  -- `replay_run`
  unfoldable pub replay_run : String → Option String → String → Action ReplayHandle
  replay_run run_id checkpoint_id mode = do
    w ← ask
    _ ← lift (or_raise (get w.state_store.run_records run_id) key_error)
    c ← replayed run_id checkpoint_id
    id ← new_id dp.services "replay"
    m ← lift (replay_mode mode)
    pure (record {
      run_id = id;
      source_run_id = run_id;
      checkpoint_id = some c.checkpoint_id;
      mode = m;
    })
