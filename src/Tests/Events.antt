-- ===== src/Tests/Events.antt =====
-- The event store at a run of two events.
use agent_roles.Common.{
  ℕ, ◌≡◌, refl, sym, String, true, none, some, [], ◌∷◌, ◌++◌, arith, inl, inr, ◌=ₛ◌, Bool-cases,
}
use agent_roles.Common.Dict.{get, put}
use agent_roles.Value.{end}
use agent_roles.Events.Models.{RuntimeEvent, EventDraft, draft_sound, draft_valid}
use agent_roles.Events.Store.{
  EventStore, run_events, append, append_filed, append_to_run, append_batch, list_by_run,
}
use agent_roles.Events.Order.{IsStore, append-IsStore, append_batch-IsStore}
use agent_roles.Events.Numbering.{Emitted, emit_run_events_lem}
use agent_roles.Events.Stream.{list_by_run-cursor, limited}
use agent_roles.Tests.Data.{services}

abbrev event : String → ℕ → RuntimeEvent
event id n = record {
  event_id = id;
  event_type = "node.started";
  thread_id = "thread";
  run_id = some "run";
  node_id = none;
  actor_type = none;
  actor_ref = none;
  trace_id = none;
  span_id = none;
  parent_span_id = none;
  sequence_no = n;
  timestamp = n;
  payload = end;
  metadata = end;
}

abbrev no_events : EventStore
no_events = record { events_by_id = []; events_by_run = [] }

no_events-IsStore : IsStore no_events
unfolding run_events get
no_events-IsStore = record { unique_runs = refl; ordered = λ r. tt }

abbrev one_event : EventStore
one_event = record {
  events_by_id = ("a", event "a" 1) ∷ [];
  events_by_run = ("run", event "a" 1 ∷ []) ∷ [];
}

appended : (append (event "a" 1) no_events).1 ≡ one_event
unfolding append append_filed append_to_run run_events get put
appended = refl

append-IsStore_example : IsStore (append (event "a" 1) no_events).1
append-IsStore_example = append-IsStore (event "a" 1) no_events no_events-IsStore

one_event-IsStore : IsStore one_event
one_event-IsStore = rw (sym appended) (append-IsStore (event "a" 1) no_events no_events-IsStore)

append_batch-IsStore_example : IsStore (append_batch (event "b" 2 ∷ []) one_event).1
append_batch-IsStore_example = append_batch-IsStore (event "b" 2 ∷ []) one_event one_event-IsStore

abbrev draft : EventDraft
draft = record {
  event_type = "run.started";
  thread_id = "thread";
  run_id = some "run";
  node_id = none;
  actor_type = none;
  actor_ref = none;
  payload = end;
  metadata = end;
  trace_context = none;
}

sound : draft_sound draft ≡ true
unfolding draft_sound draft_valid
sound = refl

emit_run_events_lem_example : Emitted services "run" 5 (draft ∷ (draft ∷ [])) no_events
emit_run_events_lem_example =
    emit_run_events_lem services "run" 5 (draft ∷ (draft ∷ [])) no_events no_events-IsStore
      (λ m h. refl) (refl, (refl, tt)) (sound, (sound, tt))

abbrev two_events : EventStore
two_events = record one_event { events_by_run = ("run", event "a" 1 ∷ (event "b" 2 ∷ [])) ∷ [] }

two_events-IsStore : IsStore two_events
unfolding run_events get
two_events-IsStore = record {
  unique_runs = refl;
  ordered = λ r. elim (Bool-cases ("run" =ₛ r)) [
    | inl same ↦ rw same (omega arith, tt)
    | inr other ↦ rw other tt
  ];
}

listed : run_events two_events "run" ≡ [] ++ event "a" 1 ∷ (event "b" 2 ∷ [])
unfolding run_events get
listed = refl

list_by_run-cursor_example :
    list_by_run two_events "run" (some 1) none ≡ limited none (event "b" 2 ∷ [])
list_by_run-cursor_example =
    list_by_run-cursor two_events "run" [] (event "a" 1) (event "b" 2 ∷ []) none two_events-IsStore
      listed
