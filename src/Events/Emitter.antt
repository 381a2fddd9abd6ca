-- ===== src/Events/Emitter.antt =====
-- `RuntimeEventEmitter` (src/core/events/emitter.py): it numbers the events of a run.
use agent_roles.Common.{
  ℕ, suc, ◌+◌, String, Option, none, some, List, [], ◌∷◌, Result, ok, err, value_error, ◌>>=◌,
  if◌then◌else◌, is_some,
}
use agent_roles.Value.{Value, Fields, fput}
use agent_roles.Contracts.{Services}
use agent_roles.Events.Models.{TraceContext, to_map, RuntimeEvent, EventDraft, event_valid}
use agent_roles.Events.Store.{EventStore, latest_for_run, append, append_batch}

-- `_metadata`
abbrev traced : Fields → Option TraceContext → Fields
traced m none = m
traced m (some t) = fput m "trace_context" (Value.dict (to_map t))

abbrev trace_field : Option TraceContext → (TraceContext → Option String) → Option String
trace_field none f = none
trace_field (some t) f = f t

abbrev pub number_after : Option RuntimeEvent → ℕ
number_after none = 1
number_after (some e) = e.sequence_no + 1

-- `_next_sequence_no`
unfoldable pub next_sequence_no : EventStore → String → ℕ
next_sequence_no st run_id = number_after (latest_for_run st run_id)

abbrev pub stored : {A : Type 0} → A → Result (Unit {0}) × EventStore → Result A × EventStore
stored a (ok _, st) = (ok a, st)
stored a (err x, st) = (err x, st)

module _ (sv : Services) where
  -- `_materialize`: the event of a draft, made at the `n`th call of the services.
  unfoldable pub event_of : ℕ → ℕ → EventDraft → RuntimeEvent
  event_of n sequence_no d = record {
    event_id = sv.new_id "event" n;
    event_type = d.event_type;
    thread_id = d.thread_id;
    run_id = d.run_id;
    node_id = d.node_id;
    actor_type = d.actor_type;
    actor_ref = d.actor_ref;
    trace_id = trace_field d.trace_context (λ t. some t.trace_id);
    span_id = trace_field d.trace_context (λ t. some t.span_id);
    parent_span_id = trace_field d.trace_context (λ t. t.parent_span_id);
    sequence_no = sequence_no;
    timestamp = sv.now n;
    payload = d.payload;
    metadata = traced d.metadata d.trace_context;
  }

  -- The new event is checked by `RuntimeEvent.__post_init__`.
  unfoldable pub materialize : ℕ → ℕ → EventDraft → Result RuntimeEvent
  materialize n sequence_no d =
      let e = event_of n sequence_no d in if event_valid e then ok e else err value_error

  -- `[self._materialize(draft, next_sequence + offset) for offset, draft in enumerate(drafts)]`
  unfoldable pub materialize_all : ℕ → ℕ → List EventDraft → Result (List RuntimeEvent)
  materialize_all n sequence_no [] = ok []
  materialize_all n sequence_no (d ∷ ds) = do
    e ← materialize n sequence_no d
    es ← materialize_all (suc n) (suc sequence_no) ds
    ok (e ∷ es)

  abbrev pub emit_materialized :
      Result (List RuntimeEvent) → EventStore → Result (List RuntimeEvent) × EventStore
  emit_materialized (ok es) st = stored es (append_batch es st)
  emit_materialized (err x) st = (err x, st)

  -- `emit_run_events`, from the `n`th call of the services.
  unfoldable pub emit_run_events :
      ℕ → String → List EventDraft → EventStore → Result (List RuntimeEvent) × EventStore
  emit_run_events n run_id [] st = (ok [], st)
  emit_run_events n run_id (d ∷ ds) st =
      emit_materialized (materialize_all n (next_sequence_no st run_id) (d ∷ ds)) st

  abbrev pub emit_one : Result RuntimeEvent → EventStore → Result RuntimeEvent × EventStore
  emit_one (ok e) st = stored e (append e st)
  emit_one (err x) st = (err x, st)

  unfoldable pub emit_thread_event : ℕ → EventDraft → EventStore → Result RuntimeEvent × EventStore
  emit_thread_event n d st =
      if is_some d.run_id then (err value_error, st) else emit_one (materialize n 0 d) st
