-- ===== src/Common/Lists.antt =====
-- Lists measured by native numbers, membership of texts in a list, and predicates over a list.
use Prim.Native.Nat.{ℕ, zero, suc, ◌≤◌}
use Prim.Native.String.{String}
use mathlib.Core.Path.{◌≡◌, refl}
use mathlib.Core.Bool.{Bool, true, false, not, ◌&&◌, ◌||◌}
use mathlib.Core.List.{List, [], ◌∷◌, ◌++◌}
use mathlib.Core.Option.{Option, none, some}
use native.Mathlib.Omega.{arith}
use text.Mathlib.TextEquality.{eq_iff}
use text.Mathlib.TextPositions.{eq_refl}
use mathlib.Core.Path.{sym, ap, ◌∙◌, subst}
use mathlib.Core.Logic.{◌⊎◌, inl, inr}
use agent_roles.Common.Tests.{Bool-cases, ◌=ₛ◌, if◌then◌else◌}

module _ {ℓ} {A : Type ℓ} where
  abbrev pub length : List A → ℕ
  length [] = 0
  length (x ∷ xs) = suc (length xs)

  abbrev pub take : ℕ → List A → List A
  take zero xs = []
  take (suc n) [] = []
  take (suc n) (x ∷ xs) = x ∷ take n xs

  -- `not items` of a list.
  abbrev pub is_empty : List A → Bool
  is_empty [] = true
  is_empty (x ∷ xs) = false

  -- `items[-1]`, if there is one.
  abbrev pub last? : List A → Option A
  last? [] = none
  last? (x ∷ []) = some x
  last? (x ∷ (y ∷ ys)) = last? (y ∷ ys)

  -- `[x for x in items if p(x)]`
  abbrev pub keep : (A → Bool) → List A → List A
  keep p [] = []
  keep p (x ∷ xs) = let rest = keep p xs in if p x then x ∷ rest else rest

  -- `any(...)` and `all(...)` over a list.
  abbrev pub any_of : (A → Bool) → List A → Bool
  any_of p [] = false
  any_of p (x ∷ xs) = p x || any_of p xs

  abbrev pub all_of : (A → Bool) → List A → Bool
  all_of p [] = true
  all_of p (x ∷ xs) = p x && all_of p xs

  abbrev pub All {κ} : (A → Type κ) → List A → Type κ
  All P [] = Unit
  All P (x ∷ xs) = P x × All P xs

  if_cons-All {κ} :
      (P : A → Type κ) (b : Bool) (x : A) (xs : List A)
      → P x
      → All P xs
      → All P (if b then x ∷ xs else xs)
  if_cons-All P true x xs h k = (h, k)
  if_cons-All P false x xs h k = k

  -- What is kept of a list has what all of it has.
  pub keep-All {κ} : (P : A → Type κ) (p : A → Bool) (xs : List A) → All P xs → All P (keep p xs)
  keep-All P p [] k = tt
  keep-All P p (x ∷ xs) k = if_cons-All P (p x) x (keep p xs) k.0 (keep-All P p xs k.1)

  pub length-take_le : (n : ℕ) (xs : List A) → length (take n xs) ≤ n
  length-take_le zero xs = omega arith
  length-take_le (suc n) [] = omega arith
  length-take_le (suc n) (x ∷ xs) = omega (arith, length-take_le n xs)

  pub last?-snoc : (xs : List A) (y : A) → last? (xs ++ y ∷ []) ≡ some y
  last?-snoc [] y = refl
  last?-snoc (x ∷ []) y = refl
  last?-snoc (x ∷ (z ∷ xs)) y = last?-snoc (z ∷ xs) y

-- An item stands in a list.
abbrev pub Occurs : {A : Type 0} → A → List A → Type 0
Occurs a [] = ⊥
Occurs a (x ∷ xs) = (x ≡ a) ⊎ Occurs a xs

module _ {A : Type 0} (p : A → Bool) where
  if_cons-Occurs :
      (b : Bool) (x a : A) (xs : List A)
      → p x ≡ b
      → Occurs a (if b then x ∷ xs else xs)
      → ((x ≡ a) × (p a ≡ true)) ⊎ Occurs a xs
  if_cons-Occurs true x a xs e (inl same) = inl (same, subst (λ y. p y ≡ true) same e)
  if_cons-Occurs true x a xs e (inr later) = inr later
  if_cons-Occurs false x a xs e later = inr later

  -- What is kept stood in the list, and passes the test.
  pub Occurs-keep : (a : A) (xs : List A) → Occurs a (keep p xs) → Occurs a xs × (p a ≡ true)
  Occurs-keep a [] h = absurd h
  Occurs-keep a (x ∷ xs) h = elim (if_cons-Occurs (p x) x a (keep p xs) refl h) [
    | inl (same, passes) ↦ (inl same, passes)
    | inr later ↦ let (there, passes) = Occurs-keep a xs later in (inr there, passes)
  ]

  -- An item that passes the test is kept.
  pub keep-Occurs : (a : A) (xs : List A) → Occurs a xs → p a ≡ true → Occurs a (keep p xs)
  keep-Occurs a [] h e = absurd h
  keep-Occurs a (x ∷ xs) (inl same) e =
      subst (λ b. Occurs a (if b then x ∷ keep p xs else keep p xs)) (sym (ap p same ∙ e))
        (inl same)
  keep-Occurs a (x ∷ xs) (inr later) e = either (p x) (keep-Occurs a xs later e)
    where
      either : (b : Bool) → Occurs a (keep p xs) → Occurs a (if b then x ∷ keep p xs else keep p xs)
      either true h = inr h
      either false h = h

-- What all items have, each item has.
pub All-Occurs {κ} :
    {A : Type 0} (P : A → Type κ) (xs : List A) (a : A) → All P xs → Occurs a xs → P a
All-Occurs P [] a h o = absurd o
All-Occurs P (x ∷ xs) a (h, hs) (inl same) = subst P same h
All-Occurs P (x ∷ xs) a (h, hs) (inr later) = All-Occurs P xs a hs later

-- `item in items`
abbrev pub elem : String → List String → Bool
elem a [] = false
elem a (x ∷ xs) = x =ₛ a || elem a xs

-- `len(items) == len(set(items))`
abbrev pub is_unique : List String → Bool
is_unique [] = true
is_unique (x ∷ xs) = not (elem x xs) && is_unique xs

-- `[item for item in items if item != a]`
abbrev pub without : String → List String → List String
without a xs = keep (λ x. not (x =ₛ a)) xs

-- `if item not in items: items.append(item)`
abbrev pub append_new : List String → String → List String
append_new xs a = if elem a xs then xs else xs ++ a ∷ []

pub elem-append : (a : String) (xs ys : List String) → elem a (xs ++ ys) ≡ (elem a xs || elem a ys)
elem-append a [] ys = refl
elem-append a (x ∷ xs) ys = ground (arith, elem-append a xs ys)

pub elem-snoc :
    (a : String) (xs : List String) (b : String)
    → elem a (xs ++ b ∷ []) ≡ (if b =ₛ a then true else elem a xs)
elem-snoc a xs b = ground (arith, elem-append a xs (b ∷ []))

pub elem-without :
    (a b : String) (xs : List String)
    → elem a (without b xs) ≡ (if b =ₛ a then false else elem a xs)
elem-without a b [] = ground arith
elem-without a b (x ∷ xs) =
    ground (arith, elem-without a b xs, eq_iff x b, eq_iff x a, eq_iff b a, eq_refl a)

pub is_unique-snoc :
    (xs : List String) (a : String)
    → elem a xs ≡ false
    → is_unique xs ≡ true
    → is_unique (xs ++ a ∷ []) ≡ true
is_unique-snoc [] a n u = refl
is_unique-snoc (x ∷ xs) a n u =
    ground (arith, is_unique-snoc xs a, elem-snoc x xs a, eq_iff x a, eq_iff a x)

pub is_unique-without :
    (a : String) (xs : List String) → is_unique xs ≡ true → is_unique (without a xs) ≡ true
is_unique-without a [] u = refl
is_unique-without a (x ∷ xs) u = ground (arith, is_unique-without a xs, elem-without x a xs)

pub append_new_unique :
    (xs : List String) (a : String) → is_unique xs ≡ true → is_unique (append_new xs a) ≡ true
append_new_unique xs a u = ground (arith, is_unique-snoc xs a)

pub elem-append_new :
    (a : String) (xs : List String) (b : String)
    → elem a (append_new xs b) ≡ (if b =ₛ a then true else elem a xs)
elem-append_new a xs b = ground (arith, elem-snoc a xs b, eq_iff b a)

-- `any` over a list of texts, member by member.
pub any_of-false :
    (p : String → Bool) (xs : List String) (a : String)
    → any_of p xs ≡ false
    → elem a xs ≡ true
    → p a ≡ false
any_of-false p [] a h e = cc
any_of-false p (x ∷ xs) a h e = elim (Bool-cases (x =ₛ a)) [
  | inl same ↦ subst (λ y. p y ≡ false) ((eq_iff x a).0 same) (ground arith)
  | inr other ↦ any_of-false p xs a (ground arith) (ground arith)
]

pub any_of_none :
    (p : String → Bool) (xs : List String)
    → ((a : String) → elem a xs ≡ true → p a ≡ false)
    → any_of p xs ≡ false
any_of_none p [] h = refl
any_of_none p (x ∷ xs) h =
    ground (arith, h x, eq_refl x, any_of_none p xs (λ a e. h a (ground arith)))
