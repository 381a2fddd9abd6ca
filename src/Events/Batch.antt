-- ===== src/Events/Batch.antt =====
-- A batch of events goes in whole or not at all (src/core/stores/memory_event_store.py).
use agent_roles.Common.{
  ◌⊎◌, ℕ, is_unique, ◌≡◌, refl, sym, ap, ◌∙◌, String, Bool, true, false, ◌||◌, none, some, List, [],
  ◌∷◌, ◌++◌, Result, ok, err, Error, arith, elem, if◌then◌else◌, ◌=ₛ◌, eq_iff, Option-cases, inl,
  inr, last?-snoc,
}
use mathlib.Core.List.{append-nil, append_assoc}
use agent_roles.Common.Dict.{Dict, get, put, get-put, contains, keys, elem-keys}
use agent_roles.Events.Models.{RuntimeEvent}
use agent_roles.Events.Store.{
  EventStore, run_events, list_or_empty, last_sequence, not_after, append_to_run, append_filed,
  append, append_each, append_batch, check_batch, previous_numbers,
}
use agent_roles.Events.Order.{IsStore}

previous_numbers_lem :
    (d : Dict (List RuntimeEvent)) (r : String)
    → is_unique (keys d) ≡ true
    → get (previous_numbers d) r ≡ last_sequence (list_or_empty (get d r))
unfolding get
previous_numbers_lem [] r u = refl
previous_numbers_lem ((j, es) ∷ d) r u =
    ground (arith, previous_numbers_lem d r, elem-keys d r, eq_iff j r)

pub previous_numbers-run :
    (st : EventStore) (r : String)
    → IsStore st
    → get (previous_numbers st.events_by_run) r ≡ last_sequence (run_events st r)
unfolding run_events
previous_numbers-run st r h = previous_numbers_lem st.events_by_run r h.unique_runs

-- What the checking loop knows of the store that the batch is going into.
record Agrees (seen : List String) (previous : Dict ℕ) (st : EventStore) : Type 0 where
  ids : (id : String) → elem id seen ≡ contains st.events_by_id id
  numbers : (r : String) → get previous r ≡ last_sequence (run_events st r)

Agrees-start :
    (st : EventStore)
    → IsStore st
    → Agrees (keys st.events_by_id) (previous_numbers st.events_by_run) st
unfolding run_events
Agrees-start st h = record {
  ids = elem-keys st.events_by_id;
  numbers = λ r. previous_numbers-run st r h;
}

-- An event of a run that passes its check is appended.
append_lem :
    (e : RuntimeEvent) (r : String) (st : EventStore)
    → e.run_id ≡ some r
    → contains st.events_by_id e.event_id ≡ false
    → not_after e.sequence_no (last_sequence (run_events st r)) ≡ false
    → append e st ≡ (
      ok tt,
      record {
        events_by_id = put st.events_by_id e.event_id e;
        events_by_run = put st.events_by_run r (run_events st r ++ e ∷ []);
      },
    )
unfolding append append_filed append_to_run run_events
append_lem e r st q n a = ground arith

append_thread_lem :
    (e : RuntimeEvent) (st : EventStore)
    → e.run_id ≡ none
    → contains st.events_by_id e.event_id ≡ false
    → append e st ≡ (ok tt, record st { events_by_id = put st.events_by_id e.event_id e })
unfolding append append_filed
append_thread_lem e st q n = ground arith

-- The events of a batch that belong to a run, and the ids of a batch.
abbrev pub of_run : String → List RuntimeEvent → List RuntimeEvent
of_run r [] = []
of_run r (e ∷ es) =
    let rest = of_run r es in
    elim e.run_id [ none ↦ rest | some q ↦ if q =ₛ r then e ∷ rest else rest ]

abbrev pub ids_of : List RuntimeEvent → List String
ids_of [] = []
ids_of (e ∷ es) = e.event_id ∷ ids_of es

-- `st'` is `st` with the batch at the end of the runs.
pub record Appended (es : List RuntimeEvent) (st st' : EventStore) : Type 0 where
  pub runs : (r : String) → run_events st' r ≡ run_events st r ++ of_run r es
  pub ids :
      (id : String)
      → contains st'.events_by_id id ≡ (contains st.events_by_id id || elem id (ids_of es))

check_thread_lem :
    (seen : List String) (previous : Dict ℕ) (e : RuntimeEvent) (es : List RuntimeEvent)
    → e.run_id ≡ none
    → check_batch seen previous (e ∷ es) ≡ ok tt
    → (elem e.event_id seen ≡ false) × (check_batch (e.event_id ∷ seen) previous es ≡ ok tt)
unfolding check_batch
check_thread_lem seen previous e es q h = ground arith

check_run_lem :
    (seen : List String) (previous : Dict ℕ) (e : RuntimeEvent) (es : List RuntimeEvent)
    (r : String)
    → e.run_id ≡ some r
    → check_batch seen previous (e ∷ es) ≡ ok tt
    → (elem e.event_id seen ≡ false)
      × (not_after e.sequence_no (get previous r) ≡ false)
      × (check_batch (e.event_id ∷ seen) (put previous r e.sequence_no) es ≡ ok tt)
unfolding check_batch
check_run_lem seen previous e es r q h = ground arith

Agrees-thread :
    (seen : List String) (previous : Dict ℕ) (e : RuntimeEvent) (st : EventStore)
    → Agrees seen previous st
    → Agrees
        (e.event_id ∷ seen)
        previous
        (record st { events_by_id = put st.events_by_id e.event_id e })
unfolding run_events
Agrees-thread seen previous e st a = record {
  ids = λ id. ground (arith, a.ids id, get-put st.events_by_id e.event_id e id);
  numbers = a.numbers;
}

last_sequence-snoc :
    (es : List RuntimeEvent) (e : RuntimeEvent) → last_sequence (es ++ e ∷ []) ≡ some e.sequence_no
last_sequence-snoc es e = rw (last?-snoc es e, last_sequence)

Agrees-run :
    (seen : List String) (previous : Dict ℕ) (e : RuntimeEvent) (r : String) (st : EventStore)
    → Agrees seen previous st
    → Agrees (e.event_id ∷ seen) (put previous r e.sequence_no) (record {
      events_by_id = put st.events_by_id e.event_id e;
      events_by_run = put st.events_by_run r (run_events st r ++ e ∷ []);
    })
unfolding run_events
Agrees-run seen previous e r st a = record {
  ids = λ id. ground (arith, a.ids id, get-put st.events_by_id e.event_id e id);
  numbers = λ q. ground (
    arith,
    a.numbers q,
    get-put previous r e.sequence_no q,
    get-put st.events_by_run r (run_events st r ++ e ∷ []) q,
    last_sequence-snoc (run_events st r) e,
  );
}

of_run_thread :
    (e : RuntimeEvent) (es : List RuntimeEvent) (r : String)
    → e.run_id ≡ none
    → of_run r (e ∷ es) ≡ of_run r es
of_run_thread e es r q = ground arith

Appended-thread :
    (e : RuntimeEvent) (es : List RuntimeEvent) (st t : EventStore)
    → e.run_id ≡ none
    → Appended es (record st { events_by_id = put st.events_by_id e.event_id e }) t
    → Appended (e ∷ es) st t
unfolding run_events
Appended-thread e es st t q a = record {
  runs = λ r. a.runs r ∙ sym (ap (λ xs. run_events st r ++ xs) (of_run_thread e es r q));
  ids = λ id. ground (arith, a.ids id, get-put st.events_by_id e.event_id e id);
}

run_lists :
    (b : Bool) (xs ys : List RuntimeEvent) (e : RuntimeEvent)
    → (if b then xs ++ e ∷ [] else xs) ++ ys ≡ xs ++ (if b then e ∷ ys else ys)
run_lists true xs ys e = append_assoc xs (e ∷ []) ys
run_lists false xs ys e = refl

Appended-run :
    (e : RuntimeEvent) (es : List RuntimeEvent) (q : String) (st t : EventStore)
    → e.run_id ≡ some q
    → Appended es
        (record {
          events_by_id = put st.events_by_id e.event_id e;
          events_by_run = put st.events_by_run q (run_events st q ++ e ∷ []);
        })
        t
    → Appended (e ∷ es) st t
unfolding run_events
Appended-run e es q st t h a = record {
  runs = λ r. ground (
    arith,
    a.runs r,
    get-put st.events_by_run q (run_events st q ++ e ∷ []) r,
    eq_iff q r,
    append_assoc (run_events st r) (e ∷ []) (of_run r es),
  );
  ids = λ id. ground (arith, a.ids id, get-put st.events_by_id e.event_id e id);
}

-- A batch that passes its check goes in.
append_each_lem :
    (seen : List String) (previous : Dict ℕ) (es : List RuntimeEvent) (st : EventStore)
    → Agrees seen previous st
    → check_batch seen previous es ≡ ok tt
    → ((append_each es st).0 ≡ ok tt) × Appended es st (append_each es st).1
unfolding append_each
append_each_lem seen previous [] st a h =
    (refl, record { runs = λ r. sym (append-nil (run_events st r)); ids = λ id. ground arith })
append_each_lem seen previous (e ∷ es) st a h = elim (Option-cases e.run_id) [
  | inl q ↦
      let (new, rest) = check_thread_lem seen previous e es q h in
      let (done, added) =
        append_each_lem (e.event_id ∷ seen) previous es
          (record st { events_by_id = put st.events_by_id e.event_id e })
          (Agrees-thread seen previous e st a) rest in
      rw (append_thread_lem e st q (sym (a.ids e.event_id) ∙ new))
        (done, Appended-thread e es st _ q added)
  | inr (r, q) ↦
      let (new, after, rest) = check_run_lem seen previous e es r q h in
      let (done, added) =
        append_each_lem (e.event_id ∷ seen) (put previous r e.sequence_no) es
          (record {
            events_by_id = put st.events_by_id e.event_id e;
            events_by_run = put st.events_by_run r (run_events st r ++ e ∷ []);
          })
          (Agrees-run seen previous e r st a) rest in
      rw
        (append_lem e r st q (sym (a.ids e.event_id) ∙ new)
          (ap (not_after e.sequence_no) (sym (a.numbers r)) ∙ after))
        (done, Appended-run e es r st _ q added)
]

pub append_batch_all_or_nothing :
    (es : List RuntimeEvent) (st : EventStore)
    → IsStore st
    → let checked = check_batch (keys st.events_by_id) (previous_numbers st.events_by_run) es in
      ((checked ≡ ok tt) × ((append_batch es st).0 ≡ ok tt) × Appended es st (append_batch es st).1)
      ⊎ ((x : Error) × (checked ≡ err x) × (append_batch es st ≡ (err x, st)))
unfolding append_batch
append_batch_all_or_nothing es st h =
    go (check_batch (keys st.events_by_id) (previous_numbers st.events_by_run) es) refl
  where
    go :
        (r : Result (Unit {0}))
        → check_batch (keys st.events_by_id) (previous_numbers st.events_by_run) es ≡ r
        → ((r ≡ ok tt) × ((append_batch es st).0 ≡ ok tt) × Appended es st (append_batch es st).1)
          ⊎ ((x : Error) × (r ≡ err x) × (append_batch es st ≡ (err x, st)))
    go (ok _) e =
        let (done, added) =
          append_each_lem (keys st.events_by_id) (previous_numbers st.events_by_run) es st
            (Agrees-start st h) e in
        inl (refl, rw (e, append_batch) done, rw (e, append_batch) added)
    go (err x) e = inr (x, refl, rw (e, append_batch))
