-- ===== src/Events/Numbering.antt =====
-- The emitter's events are accepted, and numbered on from the last of their run
-- (src/core/events/emitter.py, src/core/stores/memory_event_store.py).
use agent_roles.Common.{
  ℕ, suc, ◌≤◌, ◌≡◌, ◌≢◌, refl, sym, ap, ◌∙◌, String, true, false, some, List, [], ◌∷◌, ◌++◌, Result,
  ok, err, arith, elem, eq_iff, eq_refl, length, All, inl, inr,
}
use mathlib.Core.List.{append-nil}
use agent_roles.Common.Dict.{Dict, get, put, get-put, keys}
use agent_roles.Contracts.{Services}
use agent_roles.Events.Models.{RuntimeEvent, EventDraft, event_valid, draft_sound}
use agent_roles.Events.Store.{
  EventStore, run_events, last_sequence, not_after, check_batch, append_batch, previous_numbers,
  latest_for_run,
}
use agent_roles.Events.Order.{IsStore}
use agent_roles.Events.Batch.{append_batch_all_or_nothing, previous_numbers-run, of_run}
use agent_roles.Events.Emitter.{
  event_of, materialize, materialize_all, next_sequence_no, emit_run_events, stored,
}

-- The events of a run, numbered on from `n`.
abbrev pub NumberedFrom : String → ℕ → List RuntimeEvent → Type 0
NumberedFrom run_id n [] = Unit
NumberedFrom run_id n (e ∷ es) =
    ((e.run_id ≡ some run_id) × (e.sequence_no ≡ n)) × NumberedFrom run_id (suc n) es

abbrev pub OfRun : String → EventDraft → Type 0
OfRun run_id d = d.run_id ≡ some run_id

stored_lem :
    {A : Type 0} (a : A) (m : Result (Unit {0}) × EventStore)
    → m.0 ≡ ok tt
    → ((stored a m).0 ≡ ok a) × ((stored a m).1 ≡ m.1)
stored_lem a (ok _, st) h = (refl, refl)
stored_lem a (err x, st) h = cc

module _ (sv : Services) (run_id : String) where
  -- No identifier from the `n`th call on is taken.
  abbrev pub AreFree : ℕ → List String → Type 0
  AreFree n taken = (m : ℕ) → n ≤ m → elem (sv.new_id "event" m) taken ≡ false

  AreFree-cons :
      (n : ℕ) (taken : List String)
      → AreFree n taken
      → AreFree (suc n) (sv.new_id "event" n ∷ taken)
  AreFree-cons n taken f m h =
      let other : sv.new_id "event" n ≢ sv.new_id "event" m =
        λ e. absurd (omega (arith, sv.new_id_distinct "event" "event" n m e)) in
      ground (arith, f m (omega arith), eq_iff (sv.new_id "event" n) (sv.new_id "event" m))

  -- The next event of the run, with a free identifier and a number above the last, passes the
  -- check.
  check_next :
      (n k : ℕ) (d : EventDraft) (ds : List RuntimeEvent) (taken : List String) (previous : Dict ℕ)
      → OfRun run_id d
      → elem (sv.new_id "event" n) taken ≡ false
      → not_after k (get previous run_id) ≡ false
      → check_batch taken previous (event_of sv n k d ∷ ds)
        ≡ check_batch (sv.new_id "event" n ∷ taken) (put previous run_id k) ds
  unfolding check_batch event_of
  check_next n k d ds taken previous r f a = ground arith

  event_of_valid :
      (n k : ℕ) (d : EventDraft) → draft_sound d ≡ true → event_valid (event_of sv n k d) ≡ true
  unfolding event_valid event_of draft_sound
  event_of_valid n k d h = ground (arith, sv.new_id_filled "event" n)

  materialize_lem :
      (n k : ℕ) (d : EventDraft)
      → draft_sound d ≡ true
      → materialize sv n k d ≡ ok (event_of sv n k d)
  unfolding materialize
  materialize_lem n k d h = rw (event_of_valid n k d h)

  event_of_run :
      (n k : ℕ) (d : EventDraft)
      → OfRun run_id d
      → ((event_of sv n k d).run_id ≡ some run_id) × ((event_of sv n k d).sequence_no ≡ k)
  unfolding event_of
  event_of_run n k d r = (r, refl)

  -- The events of the drafts: they pass the check of a batch, carry the run and count up.
  record Materialized (n k : ℕ) (ds : List EventDraft) (taken : List String) (previous : Dict ℕ)
      : Type 0 where
    events : List RuntimeEvent
    made : materialize_all sv n k ds ≡ ok events
    passes : check_batch taken previous events ≡ ok tt
    numbered : NumberedFrom run_id k events
    size : length events ≡ length ds

  materialized :
      (ds : List EventDraft) (n k : ℕ) (taken : List String) (previous : Dict ℕ)
      → All (OfRun run_id) ds
      → All (λ d. draft_sound d ≡ true) ds
      → AreFree n taken
      → not_after k (get previous run_id) ≡ false
      → Materialized n k ds taken previous
  unfolding materialize_all
  materialized [] n k taken previous r v f a = record {
    events = [];
    made = refl;
    passes = unfold check_batch in refl;
    numbered = tt;
    size = refl;
  }
  materialized (d ∷ ds) n k taken previous r v f a =
      let rest =
        materialized ds (suc n) (suc k) (sv.new_id "event" n ∷ taken) (put previous run_id k) r.1
          v.1 (AreFree-cons n taken f)
          (ground (arith, get-put previous run_id k run_id, eq_refl run_id)) in
      record {
        events = event_of sv n k d ∷ rest.events;
        made = rw (materialize_lem n k d v.0, rest.made);
        passes =
            check_next n k d rest.events taken previous r.0 (f n (omega arith)) a ∙ rest.passes;
        numbered = (event_of_run n k d r.0, rest.numbered);
        size = ap suc rest.size;
      }

  of_run-numbered :
      (k : ℕ) (es : List RuntimeEvent) → NumberedFrom run_id k es → of_run run_id es ≡ es
  of_run-numbered k [] h = refl
  of_run-numbered k (e ∷ es) h = ground (arith, of_run-numbered (suc k) es h.1, eq_refl run_id)

  next_is_after :
      (st : EventStore)
      → not_after (next_sequence_no st run_id) (last_sequence (run_events st run_id)) ≡ false
  unfolding next_sequence_no latest_for_run
  next_is_after st = ground arith

  -- What emitting the drafts gives: their events, numbered on from the last of the run, stand at
  -- the end of the run's list.
  pub record Emitted (n : ℕ) (ds : List EventDraft) (st : EventStore) : Type 0 where
    pub events : List RuntimeEvent
    pub returned : (emit_run_events sv n run_id ds st).0 ≡ ok events
    pub numbered : NumberedFrom run_id (next_sequence_no st run_id) events
    pub size : length events ≡ length ds
    pub listed :
        run_events (emit_run_events sv n run_id ds st).1 run_id ≡ run_events st run_id ++ events

  -- Emitting sound drafts of a run into a store with no identifier of the future succeeds: each
  -- draft gives one event, numbered on from the last of the run, at the end of the run's list.
  pub emit_run_events_lem :
      (n : ℕ) (ds : List EventDraft) (st : EventStore)
      → IsStore st
      → AreFree n (keys st.events_by_id)
      → All (OfRun run_id) ds
      → All (λ d. draft_sound d ≡ true) ds
      → Emitted n ds st
  unfolding emit_run_events
  emit_run_events_lem n [] st h f r v = record {
    events = [];
    returned = refl;
    numbered = tt;
    size = refl;
    listed = sym (append-nil _);
  }
  emit_run_events_lem n (d ∷ ds) st h f r v =
      let m =
        materialized (d ∷ ds) n (next_sequence_no st run_id) (keys st.events_by_id)
          (previous_numbers st.events_by_run) r v f
          (ap (not_after (next_sequence_no st run_id)) (previous_numbers-run st run_id h)
            ∙ next_is_after st) in
      elim (append_batch_all_or_nothing m.events st h) [
        | inl (_, done, added) ↦
            let (returned, left) = stored_lem m.events (append_batch m.events st) done in
            record {
              events = m.events;
              returned = rw m.made returned;
              numbered = m.numbered;
              size = m.size;
              listed =
                  rw (m.made, left)
                    (added.runs run_id
                      ∙ ap (λ xs. run_events st run_id ++ xs)
                          (of_run-numbered _ m.events m.numbered));
            }
        | inr (x, fails, _) ↦ cc (m.passes, fails)
      ]
