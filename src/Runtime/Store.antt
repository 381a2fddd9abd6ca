-- ===== src/Runtime/Store.antt =====
-- How the runtime service reads and writes its stores (src/core/runtime/runtime_service.py).
use Prim.Native.String.{◌++◌ as join}
use agent_roles.Common.{
  ℕ, suc, ◌+◌, String, Option, none, some, List, [], ◌∷◌, Result, ok, err, value_error,
  if◌then◌else◌, length, last?,
}
use agent_roles.Common.Dict.{keys, values}
use agent_roles.Value.{pos, Value, Fields, end, field}
use agent_roles.State.Models.{ThreadRecord, ReducedSnapshot}
use agent_roles.State.Patch.{StatePatch, RunStateUpdate, ThreadRecordUpdate, empty_patch}
use agent_roles.State.Reducer.{apply}
use agent_roles.Events.Models.{
  TraceContext, RuntimeEvent, EventDraft, root_trace_context, child_trace_context, decimal,
  draft_sound,
}
use agent_roles.Events.Store.{EventStore, latest_for_run}
use agent_roles.Events.Emitter.{emit_run_events, emit_thread_event}
use agent_roles.Stores.State.{persist_snapshot, build_snapshot}
use agent_roles.Stores.Checkpoints.{CheckpointRecord, SnapshotPayload, checkpoint_valid, create}
use agent_roles.Contracts.{Services}
use agent_roles.Runtime.Monad.{Action, ◌>>=◌, ◌>>◌, pure, lift, ask, modify}

-- `get_state`
unfoldable pub get_state : String → Action ReducedSnapshot
get_state run_id w = (build_snapshot w.state_store run_id, w)

-- `_persist_snapshot`
unfoldable pub persist : ReducedSnapshot → Action (Unit {0})
persist s = modify (λ w. record w { state_store = persist_snapshot s w.state_store })

-- `_apply_patch`
unfoldable pub apply_patch : ReducedSnapshot → StatePatch → Action ReducedSnapshot
apply_patch s p = do reduced ← lift (apply s p); persist reduced; pure reduced

-- `_run_trace_context` and `_node_trace_context`
unfoldable pub run_trace_context : String → TraceContext
run_trace_context run_id = root_trace_context run_id "run"

unfoldable pub node_trace_context : String → String → ℕ → TraceContext
node_trace_context run_id node_id attempt =
    child_trace_context (run_trace_context run_id) "node"
      (join "node:" (join node_id (join ":" (decimal attempt))))
      (field "node_id" (Value.text node_id) (field "attempt" (Value.int (pos attempt)) end))

abbrev pub checked_draft : EventDraft → Result EventDraft
checked_draft d = if draft_sound d then ok d else err value_error

-- `_new_event`, with no actor and no metadata, as it is called.
unfoldable pub new_event :
    String → String → String → Option String → Fields → TraceContext → Result EventDraft
new_event event_type thread_id run_id node_id payload trace = checked_draft (record {
  event_type = event_type;
  thread_id = thread_id;
  run_id = some run_id;
  node_id = node_id;
  actor_type = none;
  actor_ref = none;
  payload = payload;
  metadata = end;
  trace_context = some trace;
})

-- An event about the run as a whole.
unfoldable pub run_event : String → String → String → Fields → Result EventDraft
run_event event_type thread_id run_id payload =
    new_event event_type thread_id run_id none payload (run_trace_context run_id)

abbrev number_of : Option RuntimeEvent → ℕ
number_of none = 0
number_of (some e) = e.sequence_no

abbrev pub id_of : Option RuntimeEvent → Option String
id_of none = none
id_of (some e) = some e.event_id

-- `_snapshot_to_payload`
unfoldable pub snapshot_to_payload : EventStore → ReducedSnapshot → SnapshotPayload
snapshot_to_payload st s = record {
  thread_record = s.thread_record;
  run_record = s.run_record;
  thread_state = s.thread_state;
  run_state = s.run_state;
  node_states = values s.node_states;
  artifact_ids = keys s.artifacts;
  interrupt_ids = keys s.interrupts;
  policy_decision_ids = keys s.policy_decisions;
  side_effect_ids = keys s.side_effects;
  last_event_id = id_of (latest_for_run st s.run_record.run_id);
}

module _ (sv : Services) where
  -- `clock.now()` and `id_generator.new(prefix)`
  unfoldable pub now : Action ℕ
  now w = (ok (sv.now w.calls), record w { calls = suc w.calls })

  unfoldable pub new_id : String → Action String
  new_id prefix w = (ok (sv.new_id prefix w.calls), record w { calls = suc w.calls })

  -- `emit_run_events`; each event made takes a call.
  unfoldable pub emit : String → List EventDraft → Action (List RuntimeEvent)
  emit run_id drafts w =
      let r = emit_run_events sv w.calls run_id drafts w.event_store in
      (r.0, record w { event_store = r.1; calls = w.calls + length drafts })

  -- `_emit_thread_event`
  unfoldable pub emit_thread : String → ThreadRecord → Fields → Action ThreadRecord
  emit_thread event_type thread payload = do
    draft ← lift (
        checked_draft (record {
          event_type = event_type;
          thread_id = thread.thread_id;
          run_id = none;
          node_id = none;
          actor_type = none;
          actor_ref = none;
          payload = payload;
          metadata = end;
          trace_context = some (root_trace_context thread.thread_id "thread");
        }))
    e ← (λ w.
        let r = emit_thread_event sv w.calls draft w.event_store in
        (r.0, record w { event_store = r.1; calls = suc w.calls }))
    pure thread

  -- `_append_run_events`: the run then names its last event.
  unfoldable pub append_run_events : String → List EventDraft → Action (Unit {0})
  append_run_events run_id [] = pure tt
  append_run_events run_id (d ∷ ds) = do
    events ← emit run_id (d ∷ ds)
    s ← get_state run_id
    updated ← lift (
        apply s (record empty_patch {
          run_state_updates = RunStateUpdate.last_event_id (id_of (last? events)) ∷ [];
        }))
    persist updated

  abbrev pub checked_checkpoint : CheckpointRecord → Result CheckpointRecord
  checked_checkpoint c = if checkpoint_valid c then ok c else err value_error

  abbrev pub save_checkpoint : CheckpointRecord → SnapshotPayload → Action (Unit {0})
  save_checkpoint c p w = elim (create c p w.checkpoint_store) [
    | ok st ↦ (ok tt, record w { checkpoint_store = st })
    | err e ↦ (err e, w)
  ]

  -- The checkpoint of a snapshot, made and stored.
  unfoldable pub new_checkpoint : ReducedSnapshot → Action CheckpointRecord
  new_checkpoint s = do
    w ← ask
    id ← new_id "checkpoint"
    created_at ← now
    c ← lift (
        checked_checkpoint (record {
          checkpoint_id = id;
          thread_id = s.thread_record.thread_id;
          run_id = s.run_record.run_id;
          sequence_no = number_of (latest_for_run w.event_store s.run_record.run_id);
          created_at = created_at;
          reason = "auto";
          schema_version = "1.0";
          snapshot_ref = "inline";
          frontier_snapshot = s.run_state.frontier;
          event_cursor = id_of (latest_for_run w.event_store s.run_record.run_id);
          metadata = end;
        }))
    save_checkpoint c (snapshot_to_payload w.event_store s)
    pure c

  -- `_checkpoint`: of the state as it is stored, which the snapshot only names.
  unfoldable pub checkpoint : ReducedSnapshot → Action CheckpointRecord
  checkpoint snapshot = do
    s ← get_state snapshot.run_record.run_id
    c ← new_checkpoint s
    updated ← lift (
        apply s (record empty_patch {
          thread_record_updates =
              ThreadRecordUpdate.latest_checkpoint_id (some c.checkpoint_id) ∷ [];
        }))
    persist updated
    pure c
