-- ===== src/Common/Errors.antt =====
-- Python's exceptions as values. Only the class of an exception is kept: no handler of the code
-- that is modelled reads a message. `compile_error` is WorkflowCompileError, a ValueError, and
-- `policy_error` MemoryPolicyError, a RuntimeError.
use mathlib.Core.Path.{◌≡◌, refl, subst}
use mathlib.Core.Bool.{Bool, true, false}
use mathlib.Core.Option.{Option, none, some}
use mathlib.Core.List.{List, [], ◌∷◌}
use agent_roles.Common.Lists.{All}

-- `fuel_spent` is no exception: it marks a search cut short, which never happens.
pub data Error : Type 0 where
  value_error key_error type_error attribute_error compile_error policy_error fuel_spent : Error

-- What a call returns, or the exception that it raises.
pub data Result (A : Type 0) : Type 0 where
  err : Error → Result A
  ok : A → Result A

infixl 5 ◌>>=◌ ◌>>◌
abbrev pub ◌>>=◌ : {A B : Type 0} → Result A → (A → Result B) → Result B
err raised >>= next = err raised
ok value >>= next = next value

abbrev pub ◌>>◌ : {B : Type 0} → Result (Unit {0}) → Result B → Result B
first >> next = first >>= λ _. next

-- `if test: raise e`
abbrev pub raise_if : Bool → Error → Result (Unit {0})
raise_if true e = err e
raise_if false e = ok tt

abbrev pub require : Bool → Error → Result (Unit {0})
require true e = ok tt
require false e = err e

-- `if x is None: raise e`
abbrev pub or_raise : {A : Type 0} → Option A → Error → Result A
or_raise none e = err e
or_raise (some a) e = ok a

-- A loop that may raise, over the items in order.
abbrev pub fold_result : {A S : Type 0} → (S → A → Result S) → S → List A → Result S
fold_result f s [] = ok s
fold_result f s (x ∷ xs) = f s x >>= λ s'. fold_result f s' xs

-- Inversion of a step that returned.
pub >>=-eq-ok :
    {A B : Type 0} (first : Result A) (next : A → Result B) {b : B}
    → (first >>= next) ≡ ok b
    → (a : A) × (first ≡ ok a) × (next a ≡ ok b)
>>=-eq-ok (err raised) next h = cc
>>=-eq-ok (ok value) next h = (value, refl, h)

pub ok-injective : {A : Type 0} {a b : A} → ok a ≡ ok b → a ≡ b
ok-injective h = cc

-- What each step keeps holds after the loop.
pub fold_result-keeps :
    {A S : Type 0} (P : S → Type 0) (f : S → A → Result S)
    → ((s : S) (a : A) (s' : S) → P s → f s a ≡ ok s' → P s')
    → (s : S) (xs : List A) (s' : S) → P s
    → fold_result f s xs ≡ ok s'
    → P s'
fold_result-keeps P f keep s [] s' h e = subst P (ok-injective e) h
fold_result-keeps P f keep s (x ∷ xs) s' h e =
    let (t, first, rest) = >>=-eq-ok (f s x) (λ t. fold_result f t xs) e in
    fold_result-keeps P f keep t xs s' (keep s x t h first) rest

-- The same, where a step also relies on a property of its item.
pub fold_result-keeps_all :
    {A S : Type 0} (P : S → Type 0) (Q : A → Type 0) (f : S → A → Result S)
    → ((s : S) (a : A) (s' : S) → P s → Q a → f s a ≡ ok s' → P s')
    → (s : S) (xs : List A) (s' : S) → All Q xs
    → P s
    → fold_result f s xs ≡ ok s'
    → P s'
fold_result-keeps_all P Q f keep s [] s' q h e = subst P (ok-injective e) h
fold_result-keeps_all P Q f keep s (x ∷ xs) s' q h e =
    let (t, first, rest) = >>=-eq-ok (f s x) (λ t. fold_result f t xs) e in
    fold_result-keeps_all P Q f keep t xs s' q.1 (keep s x t h q.0 first) rest
