-- ===== src/Executors/Requests.antt =====
-- The interrupts that executors make (`InterruptRecord.__post_init__`, src/core/state/models.py).
use agent_roles.Common.{
  ◌≡◌, sym, subst, true, Result, ok, err, value_error, ok-injective, arith, Bool-cases, inl, inr,
  if◌then◌else◌,
}
use agent_roles.State.Models.{InterruptRecord}
use agent_roles.State.Validation.{interrupt_valid}

abbrev pub checked_interrupt : InterruptRecord → Result InterruptRecord
checked_interrupt i = if interrupt_valid i then ok i else err value_error

pub valid_checked :
    (i j : InterruptRecord) → checked_interrupt i ≡ ok j → (j ≡ i) × (interrupt_valid j ≡ true)
valid_checked i j h = elim (Bool-cases (interrupt_valid i)) [
  | inl valid ↦
      let same : i ≡ j = ok-injective (let k : ok i ≡ ok j = rw valid at h in k) in
      (sym same, subst (λ x. interrupt_valid x ≡ true) same valid)
  | inr other ↦
      let k : ◌≡◌ {A = Result InterruptRecord} (err value_error) (ok j) = rw other at h in
      absurd (ground arith)
]
