-- ===== src/Events/Store.antt =====
-- `InMemoryEventStore` (src/core/stores/memory_event_store.py). A method returns its result or its
-- exception, and the store as it is left, also by a call that raises.
use agent_roles.Common.{
  ℕ, String, Bool, true, false, Option, none, some, List, [], ◌∷◌, ◌++◌, Result, ok, err,
  value_error, elem, last?, keep, take, leb, ltb, if◌then◌else◌,
}
use agent_roles.Common.Dict.{Dict, get, put, contains, keys}
use agent_roles.Events.Models.{RuntimeEvent}

pub record EventStore : Type 0 where
  pub events_by_id : Dict RuntimeEvent
  pub events_by_run : Dict (List RuntimeEvent)

unfoldable pub empty_store : EventStore
empty_store = record { events_by_id = []; events_by_run = [] }

-- `self._events_by_run.get(run_id, [])`
abbrev pub list_or_empty : Option (List RuntimeEvent) → List RuntimeEvent
list_or_empty none = []
list_or_empty (some es) = es

unfoldable pub run_events : EventStore → String → List RuntimeEvent
run_events st run_id = list_or_empty (get st.events_by_run run_id)

-- `run_events[-1].sequence_no`, where the code starts from -1.
abbrev pub last_sequence : List RuntimeEvent → Option ℕ
last_sequence es = elim (last? es) [ none ↦ none | some e ↦ some e.sequence_no ]

-- `sequence_no <= previous`
abbrev pub not_after : ℕ → Option ℕ → Bool
not_after n none = false
not_after n (some previous) = leb n previous

-- The part of `append` for an event of a run, once the event is filed under its id.
unfoldable pub append_to_run : RuntimeEvent → String → EventStore → Result (Unit {0}) × EventStore
append_to_run e run_id st =
    let listed = run_events st run_id in
    let opened = record st { events_by_run = put st.events_by_run run_id listed } in
    if not_after e.sequence_no (last_sequence listed)
    then (err value_error, opened)
    else (ok tt, record st { events_by_run = put st.events_by_run run_id (listed ++ e ∷ []) })

unfoldable pub append_filed :
    RuntimeEvent → Option String → EventStore → Result (Unit {0}) × EventStore
append_filed e none st = (ok tt, st)
append_filed e (some run_id) st = append_to_run e run_id st

unfoldable pub append : RuntimeEvent → EventStore → Result (Unit {0}) × EventStore
append e st =
    if contains st.events_by_id e.event_id
    then (err value_error, st)
    else append_filed e e.run_id (record st { events_by_id = put st.events_by_id e.event_id e })

-- `run_previous`: the last number of each run that has events.
abbrev pub previous_numbers : Dict (List RuntimeEvent) → Dict ℕ
previous_numbers [] = []
previous_numbers ((r, es) ∷ d) =
    let rest = previous_numbers d in
    elim (last? es) [ none ↦ rest | some e ↦ (r, e.sequence_no) ∷ rest ]

-- The loop of `append_batch` that checks the whole batch before anything is written.
unfoldable pub check_batch : List String → Dict ℕ → List RuntimeEvent → Result (Unit {0})
check_batch seen previous [] = ok tt
check_batch seen previous (e ∷ es) =
    let unnumbered = check_batch (e.event_id ∷ seen) previous es in
    let numbered =
      λ (r : String). check_batch (e.event_id ∷ seen) (put previous r e.sequence_no) es in
    if elem e.event_id seen then err value_error else elim e.run_id [
      | none ↦ unnumbered
      | some r ↦ if not_after e.sequence_no (get previous r) then err value_error else numbered r
    ]

-- The next call, unless the last one raised.
abbrev pub then_append :
    Result (Unit {0}) × EventStore
    → (EventStore → Result (Unit {0}) × EventStore)
    → Result (Unit {0}) × EventStore
then_append (ok _, st) next = next st
then_append (err x, st) next = (err x, st)

-- `for event in pending: self.append(event)`
unfoldable pub append_each : List RuntimeEvent → EventStore → Result (Unit {0}) × EventStore
append_each [] st = (ok tt, st)
append_each (e ∷ es) st = then_append (append e st) (λ st'. append_each es st')

unfoldable pub append_batch : List RuntimeEvent → EventStore → Result (Unit {0}) × EventStore
append_batch es st =
    elim (check_batch (keys st.events_by_id) (previous_numbers st.events_by_run) es) [
      | ok _ ↦ append_each es st
      | err x ↦ (err x, st)
    ]

unfoldable pub list_by_run : EventStore → String → Option ℕ → Option ℕ → List RuntimeEvent
list_by_run st run_id after limit =
    let filtered =
      keep (λ e. elim after [ none ↦ true | some n ↦ ltb n e.sequence_no ])
        (run_events st run_id) in
    elim limit [ none ↦ filtered | some n ↦ take n filtered ]

unfoldable pub latest_for_run : EventStore → String → Option RuntimeEvent
latest_for_run st run_id = last? (run_events st run_id)
