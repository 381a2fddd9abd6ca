-- ===== src/Common/TextOrder.antt =====
-- The order of texts is asymmetric: of two texts at most one is the smaller.
use Prim.Native.Nat.{ℕ, Ordering, compare as compare_ℕ}
use Prim.Native.Char.{code}
use Prim.Native.String.compare
use Prim.Native.String.{String, compare, then}
use mathlib.Core.Path.{◌≡◌, refl, sym, ap, ◌∙◌}
use mathlib.Core.Bool.{true, false}
use native.Mathlib.Omega.{arith}
use text.Mathlib.Text.{is_lt}
use agent_roles.Common.Tests.{text_lt}

abbrev flip : Ordering → Ordering
flip Ordering.lt = Ordering.gt
flip Ordering.eq = Ordering.eq
flip Ordering.gt = Ordering.lt

flip_number : (a b : ℕ) → compare_ℕ b a ≡ flip (compare_ℕ a b)
flip_number a b = ground arith

flip-then : (o p : Ordering) → flip (then o p) ≡ then (flip o) (flip p)
flip-then Ordering.lt p = refl
flip-then Ordering.eq p = refl
flip-then Ordering.gt p = refl

flip_text : (s t : String) → compare t s ≡ flip (compare s t)
flip_text String.[] String.[] = compare.nil-nil ∙ sym (ap flip compare.nil-nil)
flip_text String.[] (String.◌∷◌ d t) = compare.cons-nil d t ∙ sym (ap flip (compare.nil-cons d t))
flip_text (String.◌∷◌ c s) String.[] = compare.nil-cons c s ∙ sym (ap flip (compare.cons-nil c s))
flip_text (String.◌∷◌ c s) (String.◌∷◌ d t) =
    compare.cons-cons d c t s
    ∙ (rw (flip_number (code c) (code d), flip_text s t)
        (sym (flip-then (compare_ℕ (code c) (code d)) (compare s t))))
    ∙ sym (ap flip (compare.cons-cons c d s t))

pub text_lt-asymm : (s t : String) → text_lt s t ≡ true → text_lt t s ≡ false
text_lt-asymm s t h = rw (flip_text s t) (go (compare s t) h)
  where
    go : (o : Ordering) → is_lt o ≡ true → is_lt (flip o) ≡ false
    go Ordering.lt h = refl
    go _ h = ground arith

-- What is not smaller than a text that is not smaller than a third is not smaller than the third.
abbrev Leads : Ordering → Ordering → Ordering → Type 0
Leads a b c = is_lt a ≡ false → is_lt b ≡ false → is_lt c ≡ false

then-Leads :
    (a b c : ℕ) (o p q : Ordering)
    → Leads o p q
    → Leads (then (compare_ℕ a b) o) (then (compare_ℕ b c) p) (then (compare_ℕ a c) q)
then-Leads a b c o p q l h k = ground arith

-- The order of texts: what is not below a text that is not below a third is not below the third.
pub text_lt_trans :
    (s t u : String) → text_lt s t ≡ false → text_lt t u ≡ false → text_lt s u ≡ false
text_lt_trans String.[] String.[] u h k = k
text_lt_trans String.[] (String.◌∷◌ d t) u h k =
    absurd (let l : is_lt Ordering.lt ≡ false = rw (compare.nil-cons d t) at h in ground arith)
text_lt_trans (String.◌∷◌ c s) t String.[] h k = rw (compare.cons-nil c s) refl
text_lt_trans (String.◌∷◌ c s) String.[] (String.◌∷◌ e u) h k =
    absurd (let l : is_lt Ordering.lt ≡ false = rw (compare.nil-cons e u) at k in ground arith)
text_lt_trans (String.◌∷◌ c s) (String.◌∷◌ d t) (String.◌∷◌ e u) h k =
    ap is_lt (compare.cons-cons c e s u)
    ∙ then-Leads (code c) (code d) (code e) (compare s t) (compare t u) (compare s u)
        (text_lt_trans s t u) (sym (ap is_lt (compare.cons-cons c d s t)) ∙ h)
        (sym (ap is_lt (compare.cons-cons d e t u)) ∙ k)
