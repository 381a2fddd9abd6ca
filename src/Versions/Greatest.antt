-- ===== src/Versions/Greatest.antt =====
-- The greatest of some versions is not below any of them (`max` with `_version_sort_key`, of
-- src/core/agents/registry.py and src/core/workflow/registry.py).
use agent_roles.Common.{
  ℕ, String, ◌≡◌, refl, sym, ap, ◌∙◌, subst, Bool, true, false, List, [], ◌∷◌, Result, ok, err,
  ◌>>=◌, arith, elem, ◌=ₛ◌, eq_iff, eq_refl, if◌then◌else◌, Bool-cases, inl, inr, ok-injective,
}
use agent_roles.Common.TextOrder.{text_lt-asymm, text_lt_trans}
use agent_roles.Versions.{VersionKey, version_key, numbers_lt, version_key_lt, greatest}

numbers_lt-asymm : (ms ns : List ℕ) → numbers_lt ms ns ≡ true → numbers_lt ns ms ≡ false
unfolding numbers_lt
numbers_lt-asymm [] [] h = refl
numbers_lt-asymm [] (n ∷ ns) h = refl
numbers_lt-asymm (m ∷ ms) [] h = ground arith
numbers_lt-asymm (m ∷ ms) (n ∷ ns) h = ground (arith, numbers_lt-asymm ms ns)

numbers_lt_trans :
    (ls ms ns : List ℕ)
    → numbers_lt ls ms ≡ false
    → numbers_lt ms ns ≡ false
    → numbers_lt ls ns ≡ false
unfolding numbers_lt
numbers_lt_trans ls ms [] h k = by_clause ls
  where
    by_clause : (ls : List ℕ) → numbers_lt ls [] ≡ false
    by_clause [] = refl
    by_clause (l ∷ ls) = refl
numbers_lt_trans ls [] (n ∷ ns) h k = absurd (ground arith)
numbers_lt_trans [] (m ∷ ms) (n ∷ ns) h k = absurd (ground arith)
numbers_lt_trans (l ∷ ls) (m ∷ ms) (n ∷ ns) h k = ground (arith, numbers_lt_trans ls ms ns)

-- Of two keys that can be compared, the first is not below the second.
abbrev pub NotBelow : String → String → Type 0
NotBelow v u = version_key_lt (version_key v) (version_key u) ≡ ok false

key_irrefl : (k : VersionKey) → version_key_lt k k ≡ ok false
unfolding version_key_lt
key_irrefl (VersionKey.numbers ns) = ap ok (ground (arith, numbers_lt-asymm ns ns))
key_irrefl (VersionKey.word s) = ap ok (ground (arith, text_lt-asymm s s))

key-asymm : (j k : VersionKey) → version_key_lt j k ≡ ok true → version_key_lt k j ≡ ok false
unfolding version_key_lt
key-asymm (VersionKey.numbers ms) (VersionKey.numbers ns) h =
    ap ok (numbers_lt-asymm ms ns (ok-injective h))
key-asymm (VersionKey.word s) (VersionKey.word t) h = ap ok (text_lt-asymm s t (ok-injective h))
key-asymm (VersionKey.numbers ms) (VersionKey.word t) h = absurd (ground arith)
key-asymm (VersionKey.word s) (VersionKey.numbers ns) h = absurd (ground arith)

key_trans :
    (i j k : VersionKey)
    → version_key_lt i j ≡ ok false
    → version_key_lt j k ≡ ok false
    → version_key_lt i k ≡ ok false
unfolding version_key_lt
key_trans (VersionKey.numbers ls) (VersionKey.numbers ms) (VersionKey.numbers ns) h l =
    ap ok (numbers_lt_trans ls ms ns (ok-injective h) (ok-injective l))
key_trans (VersionKey.word s) (VersionKey.word t) (VersionKey.word u) h l =
    ap ok (text_lt_trans s t u (ok-injective h) (ok-injective l))
key_trans (VersionKey.numbers ls) (VersionKey.word t) k h l = absurd (ground arith)
key_trans (VersionKey.word s) (VersionKey.numbers ms) k h l = absurd (ground arith)
key_trans i (VersionKey.numbers ms) (VersionKey.word u) h l = absurd (ground arith)
key_trans i (VersionKey.word t) (VersionKey.numbers ns) h l = absurd (ground arith)

-- The greatest of some versions is one of them, and below none; or two of them have no order.
abbrev pub IsGreatest : List String → Result String → Type 0
IsGreatest vs (ok m) = (elem m vs ≡ true) × ((u : String) → elem u vs ≡ true → NotBelow m u)
IsGreatest vs (err e) =
    (u : String) × (v : String) × (elem u vs ≡ true)
    × (elem v vs ≡ true)
    × (version_key_lt (version_key u) (version_key v) ≡ err e)

-- With one more version, which is not above one of the others.
IsGreatest-more :
    (low high : String) (vs : List String) (x : Result String)
    → NotBelow high low
    → elem high vs ≡ true
    → IsGreatest vs x
    → IsGreatest (low ∷ vs) x
IsGreatest-more low high vs (ok m) n e (there, above) = (
  ground arith,
  λ u h. elim (Bool-cases (low =ₛ u)) [
    | inl same ↦
        subst (NotBelow m) ((eq_iff low u).0 same)
          (key_trans (version_key m) (version_key high) (version_key low) (above high e) n)
    | inr other ↦ above u (ground arith)
  ],
)
IsGreatest-more low high vs (err x) n e (u, v, h, k, c) = (u, v, ground arith, ground arith, c)

IsGreatest-same :
    (vs ws : List String) (x : Result String)
    → ((u : String) → elem u vs ≡ elem u ws)
    → IsGreatest vs x
    → IsGreatest ws x
IsGreatest-same vs ws (ok m) e (there, above) = (sym (e m) ∙ there, λ u h. above u (e u ∙ h))
IsGreatest-same vs ws (err x) e (u, v, h, k, c) = (u, v, sym (e u) ∙ h, sym (e v) ∙ k, c)

pub greatest-IsGreatest :
    (best : String) (vs : List String) → IsGreatest (best ∷ vs) (greatest best vs)
unfolding greatest
greatest-IsGreatest best [] = (
  ground (arith, eq_refl best),
  λ u h. subst (NotBelow best) ((eq_iff best u).0 (ground arith)) (key_irrefl (version_key best)),
)
greatest-IsGreatest best (v ∷ vs) =
    by_order (version_key_lt (version_key best) (version_key v)) refl (greatest-IsGreatest best vs)
      (greatest-IsGreatest v vs)
  where
    by_order :
        (o : Result Bool)
        → version_key_lt (version_key best) (version_key v) ≡ o
        → IsGreatest (best ∷ vs) (greatest best vs)
        → IsGreatest (v ∷ vs) (greatest v vs)
        → IsGreatest (best ∷ (v ∷ vs)) (o >>= λ g. greatest (if g then v else best) vs)
    by_order (err e) c g l = (best, v, ground (arith, eq_refl best), ground (arith, eq_refl v), c)
    by_order (ok true) c g l =
        IsGreatest-more best v (v ∷ vs) (greatest v vs)
          (key-asymm (version_key best) (version_key v) c) (ground (arith, eq_refl v)) l
    by_order (ok false) c g l =
        IsGreatest-same (v ∷ (best ∷ vs)) (best ∷ (v ∷ vs)) (greatest best vs) (λ u. ground arith)
          (IsGreatest-more v best (best ∷ vs) (greatest best vs) c (ground (arith, eq_refl best)) g)
