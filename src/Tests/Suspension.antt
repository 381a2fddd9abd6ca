-- ===== src/Tests/Suspension.antt =====
-- A run with an open interrupt, whose loop suspends it.
use agent_roles.Common.{◌≡◌, refl, ok}
use agent_roles.Runtime.Rounds.{act_on, returned, run_scheduler_loop, scheduler_round}
use agent_roles.Runtime.Marks.{mark_run_interrupted, mark, announce, paused_patch}
use agent_roles.Runtime.Store.{
  apply_patch, persist, get_state, run_event, new_event, run_trace_context, emit, append_run_events,
  new_checkpoint, checkpoint, now, new_id, snapshot_to_payload,
}
use agent_roles.Events.Models.{event_valid, draft_sound, root_trace_context}
use agent_roles.Events.Emitter.{event_of, materialize, materialize_all, emit_run_events}
use agent_roles.Events.Store.{
  run_events, append_to_run, append_filed, append, check_batch, append_each, append_batch,
}
use agent_roles.State.Dataclass.{checked, apply_updates, bump_version, patch_record}
use agent_roles.State.Patch.{set_thread_record, set_run_record, set_thread_state, set_run_state}
use agent_roles.State.Reducer.{
  apply, apply_records, create_artifacts, create_interrupts, record_artifact_ids, record_pending,
  update_interrupts,
}
use agent_roles.State.Validation.{
  non_empty, thread_record_valid, run_record_valid, thread_state_valid, run_state_valid,
}
use agent_roles.Scheduler.{decide, decide_from, order_ready_nodes, sorted}
use agent_roles.Selector.Ready.{
  select_ready_nodes, ready_among, node_ready, status_ready, terminal_condition_met,
}
use agent_roles.Tests.Data.{flow, snapshot, tally}
use agent_roles.Stores.Checkpoints.{checkpoint_valid, create, consistent}
use agent_roles.Stores.State.{
  build_snapshot, persist_snapshot, save_nodes, save_node_state, put_node, nodes_of_run,
}
use agent_roles.Common.Dict.{get, put}
use agent_roles.Runtime.Monad.{World}
use agent_roles.Runtime.Rest.Marked.{IsAtRest}
use agent_roles.Runtime.Rest.Loop.{run_scheduler_loop-IsAtRest}
use agent_roles.Tests.Runtime.{dependencies, world_of}

-- What the loop leaves.
abbrev suspended : World
suspended = (run_scheduler_loop dependencies 1 "run" flow (world_of snapshot)).1

returns :
    run_scheduler_loop dependencies 1 "run" flow (world_of snapshot) ≡ (ok returned, suspended)
unfolding run_scheduler_loop scheduler_round act_on mark_run_interrupted mark announce paused_patch
    apply_patch persist get_state run_event new_event run_trace_context emit append_run_events
    new_checkpoint checkpoint now new_id snapshot_to_payload event_valid draft_sound
    root_trace_context event_of materialize materialize_all emit_run_events run_events append_to_run
    append_filed append check_batch append_each append_batch checked apply_updates bump_version
    patch_record set_thread_record set_run_record set_thread_state set_run_state apply apply_records
    create_artifacts create_interrupts record_artifact_ids record_pending update_interrupts
    non_empty thread_record_valid run_record_valid thread_state_valid run_state_valid decide
    decide_from order_ready_nodes sorted select_ready_nodes ready_among node_ready status_ready
    terminal_condition_met tally checkpoint_valid create consistent build_snapshot persist_snapshot
    save_nodes save_node_state put_node nodes_of_run get put
returns = refl

run_scheduler_loop-IsAtRest_example : IsAtRest "run" suspended
unfolding persist_snapshot put
run_scheduler_loop-IsAtRest_example =
    run_scheduler_loop-IsAtRest dependencies (λ c w f. f) 1 "run" flow (world_of snapshot) suspended
      (refl, tt) returns
