-- ===== src/Value.antt =====
-- The values that the code passes as `Any` and `JsonMap` (src/core/state/models.py, selectors.py):
-- a dict keeps the order of its keys. `object` is an instance of a dataclass with its attributes.
-- Floating-point numbers do not occur.
mod Path
unfoldable pub use Path.*
use agent_roles.Common.{
  ℕ, String, ◌≡◌, refl, Bool, true, false, ◌&&◌, ◌||◌, not, Option, none, some, arith, ◌=ₛ◌, ◌==◌,
  if◌then◌else◌, is_some, eq_iff, eq_refl, suc,
}

-- `negsuc n` is -(n + 1).
pub data ℤ : Type 0 where
  pos : ℕ → ℤ
  negsuc : ℕ → ℤ

mutual
  pub data Value : Type 0 where
    null : Value
    bool : Bool → Value
    int : ℤ → Value
    text : String → Value
    arr : Items → Value
    dict : Fields → Value
    object : Fields → Value

  pub data Items : Type 0 where
    nil : Items
    cons : Value → Items → Items

  pub data Fields : Type 0 where
    end : Fields
    field : String → Value → Fields → Fields

-- `d.get(k)`
unfoldable pub fget : Fields → String → Option Value
fget end k = none
fget (field j v d) k = if j =ₛ k then some v else fget d k

-- `d[k] = v`
unfoldable pub fput : Fields → String → Value → Fields
fput end k v = field k v end
fput (field j w d) k v = if j =ₛ k then field j v d else field j w (fput d k v)

-- `merged = dict(current); merged.update(incoming)`
unfoldable pub update : Fields → Fields → Fields
update d end = d
update d (field k v e) = update (fput d k v) e

-- `len(d)`
unfoldable pub fsize : Fields → ℕ
fsize end = 0
fsize (field k v d) = suc (fsize d)

-- `state._merge_value(current, incoming)`
unfoldable pub merge_value : Value → Value → Value
merge_value (dict d) (dict e) = dict (update d e)
merge_value _ v = v

pub fget-fput :
    (d : Fields) (k : String) (v : Value) (j : String)
    → fget (fput d k v) j ≡ (if k =ₛ j then some v else fget d j)
unfolding fget fput
fget-fput end k v j = refl
fget-fput (field i w d) k v j =
    ground (arith, eq_iff k j, eq_iff i k, eq_iff i j, fget-fput d k v j)

-- A key of the incoming dict is written, its last value winning; any other is kept.
pub fget-update_absent :
    (d e : Fields) (k : String) → fget e k ≡ none → fget (update d e) k ≡ fget d k
unfolding update fget
fget-update_absent d end k h = refl
fget-update_absent d (field j v e) k h =
    ground (arith, fget-update_absent (fput d j v) e k, fget-fput d j v k)

abbrev equal_int : ℤ → ℤ → Bool
equal_int (pos m) (pos n) = m == n
equal_int (negsuc m) (negsuc n) = m == n
equal_int _ _ = false

-- `True == 1` and `False == 0` in Python.
abbrev int_of_bool : Bool → ℤ
int_of_bool true = pos 1
int_of_bool false = pos 0

abbrev equal_bool : Bool → Value → Bool
equal_bool b (bool c) = equal_int (int_of_bool b) (int_of_bool c)
equal_bool b (int n) = equal_int (int_of_bool b) n
equal_bool b _ = false

abbrev equal_number : ℤ → Value → Bool
equal_number m (bool c) = equal_int m (int_of_bool c)
equal_number m (int n) = equal_int m n
equal_number m _ = false

abbrev equal_text : String → Value → Bool
equal_text s (text t) = s =ₛ t
equal_text s _ = false

-- Python's `==`: of lists item by item, of dicts whatever the order of the keys.
unfoldable mutual
  pub value_eq : Value → Value → Bool
  value_eq null w = elim w [ null ↦ true | _ ↦ false ]
  value_eq (bool b) w = equal_bool b w
  value_eq (int n) w = equal_number n w
  value_eq (text s) w = equal_text s w
  value_eq (arr xs) w = elim w [ arr ys ↦ items_eq xs ys | _ ↦ false ]
  value_eq (dict d) w = elim w [ dict e ↦ (fsize d == fsize e) && fields_in d e | _ ↦ false ]
  value_eq (object d) w = elim w [ object e ↦ (fsize d == fsize e) && fields_in d e | _ ↦ false ]

  pub items_eq : Items → Items → Bool
  items_eq nil ys = elim ys [ nil ↦ true | cons _ _ ↦ false ]
  items_eq (cons x xs) ys = elim ys [ nil ↦ false | cons y ys' ↦ value_eq x y && items_eq xs ys' ]

  pub fields_in : Fields → Fields → Bool
  fields_in end e = true
  fields_in (field k v d) e =
      elim (fget e k) [ none ↦ false | some w ↦ value_eq v w ] && fields_in d e
