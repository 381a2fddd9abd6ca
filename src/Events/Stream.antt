-- ===== src/Events/Stream.antt =====
-- Reading a run's events from a cursor: `list_by_run` (src/core/stores/memory_event_store.py),
-- which `RuntimeService.stream_events` passes on.
use agent_roles.Common.{
  ℕ, ◌≡◌, ◌<◌, ◌≤◌, refl, subst, String, Option, none, some, List, [], ◌∷◌, ◌++◌, arith, keep, take,
  ltb,
}
use agent_roles.Events.Models.{RuntimeEvent}
use agent_roles.Events.Store.{EventStore, run_events, list_by_run}
use agent_roles.Events.Order.{IsAscending, IsStore}

abbrev after_number : ℕ → List RuntimeEvent → List RuntimeEvent
after_number n = keep (λ e. ltb n e.sequence_no)

keep_later :
    (n : ℕ) (e : RuntimeEvent) (ys : List RuntimeEvent)
    → n ≤ e.sequence_no
    → IsAscending (e ∷ ys)
    → after_number n ys ≡ ys
keep_later n e [] h a = refl
keep_later n e (y ∷ ys) h a = ground (arith, keep_later n y ys)

IsAscending-tail :
    (e : RuntimeEvent) (ys : List RuntimeEvent) → IsAscending (e ∷ ys) → IsAscending ys
IsAscending-tail e [] a = tt
IsAscending-tail e (y ∷ ys) a = a.1

below_later :
    (x : RuntimeEvent) (xs : List RuntimeEvent) (e : RuntimeEvent) (ys : List RuntimeEvent)
    → IsAscending (x ∷ (xs ++ e ∷ ys))
    → x.sequence_no < e.sequence_no
below_later x [] e ys a = a.0
below_later x (z ∷ xs) e ys a = omega (arith, below_later z xs e ys a.1, a.0)

keep_after :
    (xs : List RuntimeEvent) (e : RuntimeEvent) (ys : List RuntimeEvent)
    → IsAscending (xs ++ e ∷ ys)
    → after_number e.sequence_no (xs ++ e ∷ ys) ≡ ys
keep_after [] e ys a = ground (arith, keep_later e.sequence_no e ys)
keep_after (x ∷ xs) e ys a =
    ground
      (arith, keep_after xs e ys (IsAscending-tail x (xs ++ e ∷ ys) a), below_later x xs e ys a)

-- `filtered[:limit]`
abbrev pub limited : Option ℕ → List RuntimeEvent → List RuntimeEvent
limited none es = es
limited (some n) es = take n es

-- A reader that asks for what comes after the number of an event of the run gets exactly the
-- events behind it, none left out and none twice, up to its limit.
pub list_by_run-cursor :
    (st : EventStore) (run_id : String) (xs : List RuntimeEvent) (e : RuntimeEvent)
    (ys : List RuntimeEvent) (limit : Option ℕ)
    → IsStore st
    → run_events st run_id ≡ xs ++ e ∷ ys
    → list_by_run st run_id (some e.sequence_no) limit ≡ limited limit ys
unfolding list_by_run
list_by_run-cursor st run_id xs e ys none h q =
    rw q (keep_after xs e ys (subst IsAscending q (h.ordered run_id)))
list_by_run-cursor st run_id xs e ys (some n) h q =
    rw (q, keep_after xs e ys (subst IsAscending q (h.ordered run_id)))
