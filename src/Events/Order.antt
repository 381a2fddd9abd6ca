-- ===== src/Events/Order.antt =====
-- The events of a run are numbered upwards in the store (src/core/stores/memory_event_store.py).
use agent_roles.Common.{
  is_unique, ◌≡◌, ◌<◌, sym, subst, String, Bool, true, false, Option, none, some, List, [], ◌∷◌,
  ◌++◌, Result, ok, err, arith, if◌then◌else◌, ◌=ₛ◌, Bool-cases, inl, inr,
}
use agent_roles.Common.Dict.{put, get-put, contains, keys, put_unique}
use agent_roles.Events.Models.{RuntimeEvent}
use agent_roles.Events.Store.{
  EventStore, run_events, last_sequence, not_after, append_to_run, append_filed, append,
  append_each, then_append, append_batch, check_batch, previous_numbers,
}

-- Each event's number is above that of the one before it.
abbrev pub IsAscending : List RuntimeEvent → Type 0
IsAscending [] = Unit
IsAscending (e ∷ []) = Unit
IsAscending (e ∷ (f ∷ es)) = (e.sequence_no < f.sequence_no) × IsAscending (f ∷ es)

-- Every run's events ascend.
abbrev pub IsOrdered : EventStore → Type 0
IsOrdered st = (r : String) → IsAscending (run_events st r)

IsAscending-snoc :
    (es : List RuntimeEvent) (e : RuntimeEvent)
    → IsAscending es
    → not_after e.sequence_no (last_sequence es) ≡ false
    → IsAscending (es ++ e ∷ [])
IsAscending-snoc [] e h n = tt
IsAscending-snoc (x ∷ []) e h n = ground arith
IsAscending-snoc (x ∷ (y ∷ es)) e h n = (h.0, IsAscending-snoc (y ∷ es) e h.1 n)

-- What a write of one run's list does to the others: nothing.
pub run_events-put :
    (st : EventStore) (r : String) (es : List RuntimeEvent) (q : String)
    → run_events (record st { events_by_run = put st.events_by_run r es }) q
      ≡ (if r =ₛ q then es else run_events st q)
unfolding run_events
run_events-put st r es q = ground (arith, get-put st.events_by_run r es q)

-- The runs of a store are listed once, and their events ascend.
pub record IsStore (st : EventStore) : Type 0 where
  pub unique_runs : is_unique (keys st.events_by_run) ≡ true
  pub ordered : IsOrdered st

put_run-IsStore :
    (st : EventStore) (r : String) (es : List RuntimeEvent)
    → IsStore st
    → IsAscending es
    → IsStore (record st { events_by_run = put st.events_by_run r es })
put_run-IsStore st r es h a = record {
  unique_runs = put_unique st.events_by_run r es h.unique_runs;
  ordered = λ q. subst IsAscending (sym (run_events-put st r es q)) (pick (r =ₛ q) _ (h.ordered q));
}
  where
    pick : (b : Bool) (xs : List RuntimeEvent) → IsAscending xs → IsAscending (if b then es else xs)
    pick true xs x = a
    pick false xs x = x

append_to_run-IsStore :
    (e : RuntimeEvent) (r : String) (st : EventStore)
    → IsStore st
    → IsStore (append_to_run e r st).1
unfolding append_to_run
append_to_run-IsStore e r st h =
    elim (Bool-cases (not_after e.sequence_no (last_sequence (run_events st r)))) [
      | inl late ↦ rw late (put_run-IsStore st r (run_events st r) h (h.ordered r))
      | inr next ↦
          rw next
            (put_run-IsStore st r _ h (IsAscending-snoc (run_events st r) e (h.ordered r) next))
    ]

append_filed-IsStore :
    (e : RuntimeEvent) (o : Option String) (st : EventStore)
    → IsStore st
    → IsStore (append_filed e o st).1
unfolding append_filed
append_filed-IsStore e none st h = h
append_filed-IsStore e (some r) st h = append_to_run-IsStore e r st h

-- An append keeps every run's events in ascending order, whether or not the event is accepted.
pub append-IsStore : (e : RuntimeEvent) (st : EventStore) → IsStore st → IsStore (append e st).1
unfolding append
append-IsStore e st h = elim (Bool-cases (contains st.events_by_id e.event_id)) [
  | inl known ↦ rw known h
  | inr new ↦ rw new (append_filed-IsStore e e.run_id _ (same h))
]
  where
    same : IsStore st → IsStore (record st { events_by_id = put st.events_by_id e.event_id e })
    same k = record { unique_runs = k.unique_runs; ordered = unfold run_events in k.ordered }

then_append-IsStore :
    (m : Result (Unit {0}) × EventStore) (next : EventStore → Result (Unit {0}) × EventStore)
    → IsStore m.1
    → ((st : EventStore) → IsStore st → IsStore (next st).1)
    → IsStore (then_append m next).1
then_append-IsStore (ok _, st) next h k = k st h
then_append-IsStore (err x, st) next h k = h

append_each-IsStore :
    (es : List RuntimeEvent) (st : EventStore) → IsStore st → IsStore (append_each es st).1
unfolding append_each
append_each-IsStore [] st h = h
append_each-IsStore (e ∷ es) st h =
    then_append-IsStore (append e st) (λ st'. append_each es st') (append-IsStore e st h)
      (append_each-IsStore es)

-- The store keeps every run's events in ascending order, whatever batch it is given and whether or
-- not the batch is accepted.
pub append_batch-IsStore :
    (es : List RuntimeEvent) (st : EventStore) → IsStore st → IsStore (append_batch es st).1
unfolding append_batch
append_batch-IsStore es st h =
    go (check_batch (keys st.events_by_id) (previous_numbers st.events_by_run) es)
  where
    go :
        (r : Result (Unit {0}))
        → IsStore
            (elim r as (λ _. Result (Unit {0}) × EventStore) [
              | ok _ ↦ append_each es st
              | err x ↦ (err x, st)
            ]).1
    go (ok _) = append_each-IsStore es st h
    go (err x) = h
