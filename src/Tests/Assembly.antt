-- ===== src/Tests/Assembly.antt =====
-- A run whose last node is ready, executed by the executors of src/core/executors.
use agent_roles.Common.{◌≡◌, refl, none, some, [], ◌∷◌, ok}
use agent_roles.State.Models.{NodeStatus, RunStatus, ReducedSnapshot}
use agent_roles.Runtime.Monad.{World}
use agent_roles.Runtime.Context.{Dependencies}
use agent_roles.Executors.Together.{assembled}
use agent_roles.Tests.Data.{
  services, config, definition, flow, snapshot, review_node, draft_node, tally,
}
use agent_roles.Tests.Runtime.{world_of}
use agent_roles.Tests.Tools.{echo, strict}
use agent_roles.Tests.Executors.{repr, writer}
use agent_roles.Runtime.Nodes.{
  node_event_type, read_agent_binding, resolve_executor_ref, started_patch, build_execution_context,
  interrupt_events, result_events, begin_node, finish_node, execute_node,
}
use agent_roles.Runtime.Outcome.{relisted, status_lists, hint, new_artifacts, build_result_patch}
use agent_roles.Runtime.Lists.{merge_unique, dedupe_onto, dedupe}
use agent_roles.Runtime.Rounds.{
  dispatch_nodes, act_on, scheduler_round, run_scheduler_loop, returned,
}
use agent_roles.Runtime.Marks.{completed_patch, announce, mark, mark_run_completed}
use agent_roles.Runtime.Store.{
  get_state, persist, apply_patch, run_trace_context, node_trace_context, new_event, run_event,
  snapshot_to_payload, now, new_id, emit, append_run_events, new_checkpoint, checkpoint,
}
use agent_roles.Selector.Inputs.{resolve_input_source, resolve_all, merge_values, select_node_input}
use agent_roles.Selector.Ready.{
  status_ready, node_ready, ready_among, select_ready_nodes, terminal_condition_met,
}
use agent_roles.Executors.Basic.{is_builtin, execute_builtin, execute, can_execute}
use agent_roles.Executors.Flow.{execute_noop}
use agent_roles.State.Reducer.{
  apply_records, update_node, record_artifact_ids, create_artifacts, record_pending,
  create_interrupts, update_interrupts, apply,
}
use agent_roles.State.Dataclass.{checked, apply_updates, bump_version, patch_record}
use agent_roles.State.Patch.{
  set_thread_record, set_run_record, set_thread_state, set_run_state, set_node_state,
}
use agent_roles.State.Validation.{
  non_empty, thread_record_valid, run_record_valid, thread_state_valid, run_state_valid,
  node_state_valid,
}
use agent_roles.Scheduler.{insert_sorted, sorted, order_ready_nodes, decide_from, decide}
use agent_roles.Events.Models.{
  root_trace_context, child_trace_context, decimal, event_valid, draft_sound,
}
use agent_roles.Events.Emitter.{
  next_sequence_no, event_of, materialize, materialize_all, emit_run_events,
}
use agent_roles.Events.Store.{
  run_events, append_to_run, append_filed, append, check_batch, append_each, append_batch,
  latest_for_run,
}
use agent_roles.Stores.Checkpoints.{checkpoint_valid, consistent, create}
use agent_roles.Stores.State.{
  put_node, save_node_state, save_nodes, persist_snapshot, nodes_of_run, build_snapshot,
}
use agent_roles.Common.Dict.{get, put}
use agent_roles.Value.{fget}

abbrev executed : Dependencies
executed =
    assembled services config (λ id version. some definition) none repr strict echo (writer ∷ [])

-- The review is ready.
abbrev ready : ReducedSnapshot
ready = record snapshot {
  run_record = record snapshot.run_record { status = RunStatus.running };
  run_state = record snapshot.run_state {
    status = RunStatus.running;
    frontier = "review" ∷ [];
    waiting_nodes = [];
    pending_interrupt_ids = [];
    pending_approval_ids = [];
  };
  node_states =
      ("draft", draft_node)
      ∷ (("review", record review_node { status = NodeStatus.ready; started_at = none }) ∷ []);
  interrupts = [];
}

-- What the loop leaves.
abbrev finished : World
finished = (run_scheduler_loop executed 3 "run" flow (world_of ready)).1

finishes : run_scheduler_loop executed 3 "run" flow (world_of ready) ≡ (ok returned, finished)
unfolding tally node_event_type read_agent_binding resolve_executor_ref started_patch
    build_execution_context interrupt_events result_events begin_node finish_node execute_node
    relisted status_lists hint new_artifacts build_result_patch merge_unique dedupe_onto dedupe
    dispatch_nodes act_on scheduler_round run_scheduler_loop completed_patch announce mark
    mark_run_completed get_state persist apply_patch run_trace_context node_trace_context new_event
    run_event snapshot_to_payload now new_id emit append_run_events new_checkpoint checkpoint
    resolve_input_source resolve_all merge_values select_node_input status_ready node_ready
    ready_among select_ready_nodes terminal_condition_met is_builtin execute_builtin execute
    can_execute execute_noop apply_records update_node record_artifact_ids create_artifacts
    record_pending create_interrupts update_interrupts apply checked apply_updates bump_version
    patch_record set_thread_record set_run_record set_thread_state set_run_state set_node_state
    non_empty thread_record_valid run_record_valid thread_state_valid run_state_valid
    node_state_valid insert_sorted sorted order_ready_nodes decide_from decide root_trace_context
    child_trace_context decimal event_valid draft_sound next_sequence_no event_of materialize
    materialize_all emit_run_events run_events append_to_run append_filed append check_batch
    append_each append_batch latest_for_run checkpoint_valid consistent create put_node
    save_node_state save_nodes persist_snapshot nodes_of_run build_snapshot get put fget
finishes = refl
