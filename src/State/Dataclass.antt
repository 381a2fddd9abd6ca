-- ===== src/State/Dataclass.antt =====
-- `dataclasses.replace` with the `__post_init__` checks of src/core/state/models.py, and
-- `_apply_updates` and `_bump_version` of src/core/state/reducers.py, for every kind of record.
use agent_roles.Common.{
  ℕ, suc, ◌≡◌, Bool, true, List, [], ◌∷◌, Result, ok, err, value_error, ◌>>=◌, fold_result,
  if◌then◌else◌, arith, >>=-eq-ok,
}

-- A record `A` with updates `U`: how one field is written, what `__post_init__` checks, and the
-- version counter.
pub record Dataclass (A U : Type 0) : Type 0 where
  pub set : A → U → Result A
  pub valid : A → Bool
  pub version : A → ℕ
  pub bump : A → A
  pub valid-bump : (a : A) → valid (bump a) ≡ valid a
  pub version-bump : (a : A) → version (bump a) ≡ suc (version a)

module _ {A U : Type 0} (d : Dataclass A U) where
  -- The end of `replace`: `__post_init__` runs on the new record.
  unfoldable pub checked : A → Result A
  checked a = if d.valid a then ok a else err value_error

  unfoldable pub apply_updates : A → List U → Result A
  apply_updates a [] = ok a
  apply_updates a (u ∷ us) = fold_result d.set a (u ∷ us) >>= checked

  unfoldable pub bump_version : A → Result A
  bump_version a = checked (d.bump a)

  -- `if patch.x_updates: x = _apply_updates(x, ...); x = _bump_version(x)`
  unfoldable pub patch_record : A → List U → Result A
  patch_record a [] = ok a
  patch_record a (u ∷ us) = apply_updates a (u ∷ us) >>= bump_version

  pub checked_valid : (a : A) {b : A} → checked a ≡ ok b → d.valid b ≡ true
  unfolding checked
  checked_valid a h = ground arith

  pub checked_same : (a : A) {b : A} → checked a ≡ ok b → b ≡ a
  unfolding checked
  checked_same a h = ground arith

  -- A record that is patched was checked, unless nothing was to be written.
  pub patch_record_valid :
      (a : A) (us : List U) {b : A} → d.valid a ≡ true → patch_record a us ≡ ok b → d.valid b ≡ true
  unfolding patch_record
  patch_record_valid a [] v h = ground arith
  patch_record_valid a (u ∷ us) v h =
      let (t, _, last) = >>=-eq-ok (apply_updates a (u ∷ us)) bump_version h in
      checked_valid (d.bump t) (unfold bump_version in last)
