-- ===== src/State/Reducer/Pending.antt =====
-- The pending interrupts of a run are exactly its open ones (src/core/state/reducers.py): what the
-- scheduler, the selector and `resume_run` rely on.
use agent_roles.Common.{
  String, ◌+◌, ◌≡◌, ◌∙◌, Bool, false, Option, none, some, List, [], ◌∷◌, ok, fold_result,
  fold_result-keeps, >>=-eq-ok, ok-injective, arith, value_error, subst, ◌||◌, elem, elem-without,
  elem-append_new, append_new, eq_iff, All, or_raise,
}
use agent_roles.Common.Dict.{Dict, get, put, get-put}
use agent_roles.State.Models.{InterruptRecord, ReducedSnapshot, RunState}
use agent_roles.State.Patch.{StatePatch, RunStateUpdate, InterruptRecordUpdate, set_run_state}
use agent_roles.State.Dataclass.{patch_record, checked, checked_same, apply_updates, bump_version}
use agent_roles.State.Validation.{
  thread_record_class, run_record_class, thread_state_class, run_state_class, interrupt_class,
}
use agent_roles.State.Reducer.{
  create_decision, create_side_effect, is_open, append_all, open_ids, create_interrupt,
  record_pending, set_pending, create_interrupts, Tracked, tracked_of, track, update_interrupt,
  update_interrupts, apply, apply_records, upsert_node,
}
use agent_roles.State.Reducer.Blocks.{apply-keeps}
use agent_roles.State.Reducer.Frames.{
  SameRun, loop-SameRun, upsert_node-SameRun, update_node-SameRun, create_artifacts-SameRun,
  create_decision-SameRun, create_side_effect-SameRun,
}

-- Whether an interrupt is on file and open.
abbrev pub open_in : Option InterruptRecord → Bool
open_in none = false
open_in (some i) = is_open i.status

abbrev IsTracked : Tracked → Type 0
IsTracked t = (id : String) → elem id t.pending ≡ open_in (get t.interrupts id)

-- The interrupts that the run lists as pending are the open ones, no more and no less.
abbrev pub PendingIsOpen : ReducedSnapshot → Type 0
PendingIsOpen s =
    (id : String) → elem id s.run_state.pending_interrupt_ids ≡ open_in (get s.interrupts id)

elem-append_all :
    (a : String) (xs ys : List String) → elem a (append_all xs ys) ≡ (elem a xs || elem a ys)
elem-append_all a xs [] = ground arith
elem-append_all a xs (y ∷ ys) =
    ground (arith, elem-append_all a (append_new xs y) ys, elem-append_new a xs y)

track-IsTracked :
    (id : String) (i : InterruptRecord) (t : Tracked)
    → IsTracked t
    → IsTracked (track id i (record t { interrupts = put t.interrupts id i }))
unfolding track
track-IsTracked id i t h j = ground (
  arith,
  h j,
  get-put t.interrupts id i j,
  elem-without j id t.pending,
  elem-append_new j t.pending id,
)

update_interrupt-IsTracked :
    (t : Tracked) (u : String × List InterruptRecordUpdate) (t' : Tracked)
    → IsTracked t
    → update_interrupt t u ≡ ok t'
    → IsTracked t'
unfolding update_interrupt
update_interrupt-IsTracked t (id, us) t' k h =
    let (i, _, h₁) = >>=-eq-ok (or_raise (get t.interrupts id) value_error) _ h in
    let (updated, _, h₂) = >>=-eq-ok (apply_updates interrupt_class i us) _ h₁ in
    let (i', _, h₃) = >>=-eq-ok (bump_version interrupt_class updated) _ h₂ in
    subst IsTracked (ok-injective h₃) (track-IsTracked id i' t k)

set_pending_lem :
    (pending approvals : List String) (r : RunState) {r' : RunState}
    → set_pending pending approvals r ≡ ok r'
    → r'.pending_interrupt_ids ≡ pending
unfolding set_pending checked bump_version
set_pending_lem pending approvals r h = ground arith

record_pending_lem :
    (opened approvals : List String) (r : RunState) {r' : RunState}
    → record_pending opened approvals r ≡ ok r'
    → r'.pending_interrupt_ids ≡ append_all r.pending_interrupt_ids opened
unfolding record_pending
record_pending_lem [] [] r h = ground arith
record_pending_lem [] (a ∷ as') r h = set_pending_lem _ _ r h
record_pending_lem (o ∷ os) as' r h = set_pending_lem _ _ r h

pub update_interrupts-PendingIsOpen :
    (us : Dict (List InterruptRecordUpdate)) (s t : ReducedSnapshot)
    → PendingIsOpen s
    → update_interrupts us s ≡ ok t
    → PendingIsOpen t
unfolding update_interrupts
update_interrupts-PendingIsOpen [] s t k h id = subst PendingIsOpen (ok-injective h) k id
update_interrupts-PendingIsOpen (u ∷ us) s t k h id =
    let (tr, loop, h₁) = >>=-eq-ok (fold_result update_interrupt (tracked_of s) (u ∷ us)) _ h in
    let (rs, pend, h₂) = >>=-eq-ok (set_pending tr.pending tr.approvals s.run_state) _ h₁ in
    let kept =
      fold_result-keeps IsTracked update_interrupt update_interrupt-IsTracked (tracked_of s)
        (u ∷ us) tr k loop id in
    ground (arith, set_pending_lem tr.pending tr.approvals s.run_state pend)

-- A new interrupt is one that was not on file.
create_interrupt_lem :
    (s : ReducedSnapshot) (i : InterruptRecord) {t : ReducedSnapshot}
    → create_interrupt s i ≡ ok t
    → (t.run_state ≡ s.run_state)
      × (get s.interrupts i.interrupt_id ≡ none)
      × (t.interrupts ≡ put s.interrupts i.interrupt_id i)
unfolding create_interrupt
create_interrupt_lem s i h = ground arith

create_loop_lem :
    (is : List InterruptRecord) (s t : ReducedSnapshot) (id : String)
    → fold_result create_interrupt s is ≡ ok t
    → (t.run_state ≡ s.run_state)
      × (open_in (get t.interrupts id) ≡ (open_in (get s.interrupts id) || elem id (open_ids is)))
create_loop_lem [] s t id h = ground arith
create_loop_lem (i ∷ is) s t id h =
    let (m, first, rest) = >>=-eq-ok (create_interrupt s i) _ h in
    let facts = create_interrupt_lem s i first in
    ground (
      arith,
      facts,
      create_loop_lem is m t id rest,
      get-put s.interrupts i.interrupt_id i id,
      eq_iff i.interrupt_id id,
    )

pub create_interrupts-PendingIsOpen :
    (p : StatePatch) (s t : ReducedSnapshot)
    → PendingIsOpen s
    → create_interrupts p s ≡ ok t
    → PendingIsOpen t
unfolding create_interrupts
create_interrupts-PendingIsOpen p s t k h id =
    let (m, loop, h₁) = >>=-eq-ok (fold_result create_interrupt s p.interrupts_to_create) _ h in
    let (rs, pend, h₂) = >>=-eq-ok (record_pending _ _ m.run_state) _ h₁ in
    let facts = create_loop_lem p.interrupts_to_create s m id loop in
    ground (
      arith,
      k id,
      facts,
      record_pending_lem _ _ m.run_state pend,
      elem-append_all id s.run_state.pending_interrupt_ids (open_ids p.interrupts_to_create),
    )

-- No write of the patch sets the two lists of a run's state outright.
abbrev pub LeavesPending : RunStateUpdate → Type 0
LeavesPending (RunStateUpdate.pending_interrupt_ids _) = ⊥
LeavesPending _ = Unit

set_run_state-pending :
    (r : RunState) (u : RunStateUpdate) {r' : RunState}
    → LeavesPending u
    → set_run_state r u ≡ ok r'
    → r'.pending_interrupt_ids ≡ r.pending_interrupt_ids
unfolding set_run_state
set_run_state-pending r (RunStateUpdate.pending_interrupt_ids _) l h = elim l [ ]
set_run_state-pending r _ l h = ground arith

set_loop-pending :
    (us : List RunStateUpdate) (r : RunState) {r' : RunState}
    → All LeavesPending us
    → fold_result set_run_state r us ≡ ok r'
    → r'.pending_interrupt_ids ≡ r.pending_interrupt_ids
set_loop-pending [] r l h = ground arith
set_loop-pending (u ∷ us) r l h =
    let (m, first, rest) = >>=-eq-ok (set_run_state r u) _ h in
    set_loop-pending us m l.1 rest ∙ set_run_state-pending r u l.0 first

patch_run_state-pending :
    (us : List RunStateUpdate) (r : RunState) {r' : RunState}
    → All LeavesPending us
    → patch_record run_state_class r us ≡ ok r'
    → r'.pending_interrupt_ids ≡ r.pending_interrupt_ids
unfolding patch_record apply_updates bump_version
patch_run_state-pending [] r l h = ground arith
patch_run_state-pending (u ∷ us) r l h =
    let (m, updates, bump) = >>=-eq-ok (apply_updates run_state_class r (u ∷ us)) _ h in
    let (n, loop, check) = >>=-eq-ok (fold_result set_run_state r (u ∷ us)) _ updates in
    ground (
      arith,
      set_loop-pending (u ∷ us) r l loop,
      checked_same run_state_class n check,
      checked_same run_state_class (record m { version = m.version + 1 }) bump,
    )

apply_records-PendingIsOpen :
    (p : StatePatch) (s t : ReducedSnapshot)
    → All LeavesPending p.run_state_updates
    → PendingIsOpen s
    → apply_records p s ≡ ok t
    → PendingIsOpen t
unfolding apply_records
apply_records-PendingIsOpen p s t l k h id =
    let (_, _, h₁) =
      >>=-eq-ok (patch_record thread_record_class s.thread_record p.thread_record_updates) _ h in
    let (_, _, h₂) =
      >>=-eq-ok (patch_record run_record_class s.run_record p.run_record_updates) _ h₁ in
    let (_, _, h₃) =
      >>=-eq-ok (patch_record thread_state_class s.thread_state p.thread_state_updates) _ h₂ in
    let (_, e, h₄) =
      >>=-eq-ok (patch_record run_state_class s.run_state p.run_state_updates) _ h₃ in
    ground (arith, k id, patch_run_state-pending p.run_state_updates s.run_state l e)

SameRun-PendingIsOpen : {s t : ReducedSnapshot} → SameRun s t → PendingIsOpen s → PendingIsOpen t
SameRun-PendingIsOpen q k id = ground (arith, k id)

-- Applying a patch that leaves the two lists to the reducer keeps the pending interrupts exactly
-- the open ones: created ones enter, and updated ones enter or leave, as their status says.
pub apply-PendingIsOpen :
    (p : StatePatch) (s t : ReducedSnapshot)
    → All LeavesPending p.run_state_updates
    → PendingIsOpen s
    → apply s p ≡ ok t
    → PendingIsOpen t
apply-PendingIsOpen p s t l k h =
    apply-keeps p PendingIsOpen
      (record {
        records = λ a b. apply_records-PendingIsOpen p a b l;
        upsert = λ a b q e.
            SameRun-PendingIsOpen
              (loop-SameRun upsert_node upsert_node-SameRun a p.node_states_to_upsert b e) q;
        update = λ a u b q e. SameRun-PendingIsOpen (update_node-SameRun a u b e) q;
        artifacts = λ a b q e. SameRun-PendingIsOpen (create_artifacts-SameRun p a b e) q;
        interrupts = create_interrupts-PendingIsOpen p;
        resolutions = update_interrupts-PendingIsOpen p.interrupt_updates;
        decisions = λ a b q e.
            SameRun-PendingIsOpen
              (loop-SameRun create_decision create_decision-SameRun a p.policy_decisions_to_create b
                e)
              q;
        side_effects = λ a b q e.
            SameRun-PendingIsOpen
              (loop-SameRun create_side_effect create_side_effect-SameRun a p.side_effects_to_create
                b e)
              q;
      })
      s t k h
