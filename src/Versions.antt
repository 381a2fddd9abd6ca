-- ===== src/Versions.antt =====
-- `_version_sort_key`, which src/core/agents/registry.py and src/core/workflow/registry.py both
-- have, and the greatest of some versions by it. A version is taken to be written with ASCII
-- digits.
pub mod Greatest
pub mod Latest
use agent_roles.Common.{
  ◌≡◌, refl, ℕ, zero, suc, ◌+◌, ◌-◌, ◌*◌, String, Bool, true, false, ◌&&◌, Option, none, some, List,
  [], ◌∷◌, Result, ok, err, type_error, ◌>>=◌, if◌then◌else◌, leb, ltb, ◌==◌, text_lt,
}
use agent_roles.Common.Dict.{Dict, get, keys}
use Prim.Native.Char.{Char, code}
use agent_roles.Value.{split_path}

-- What `_version_sort_key` returns: a tuple of numbers, or of one text.
pub data VersionKey : Type 0 where
  numbers : List ℕ → VersionKey
  word : String → VersionKey

-- `int(part)` of a part that is read on from a number.
unfoldable pub digits_onto : ℕ → String → Option ℕ
digits_onto n String.[] = some n
digits_onto n (String.◌∷◌ c s) =
    let rest = digits_onto (10 * n + (code c - 48)) s in
    if leb 48 (code c) && leb (code c) 57 then rest else none

-- `int(part)` if `part.isdigit()`: an empty part is no number.
unfoldable pub number_part : String → Option ℕ
number_part String.[] = none
number_part s = digits_onto 0 s

unfoldable pub number_parts : List String → Option (List ℕ)
number_parts [] = some []
number_parts (p ∷ ps) = elim (number_part p) [
  | none ↦ none
  | some n ↦ elim (number_parts ps) [ none ↦ none | some ns ↦ some (n ∷ ns) ]
]

unfoldable pub version_key : String → VersionKey
version_key version = elim (number_parts (split_path version)) [
  | none ↦ VersionKey.word version
  | some ns ↦ VersionKey.numbers ns
]

-- `<` of two tuples of numbers.
unfoldable pub numbers_lt : List ℕ → List ℕ → Bool
numbers_lt ms [] = false
numbers_lt [] (n ∷ ns) = true
numbers_lt (m ∷ ms) (n ∷ ns) = let rest = numbers_lt ms ns in if m == n then rest else ltb m n

-- `<` of two keys: a number and a text have no order.
unfoldable pub version_key_lt : VersionKey → VersionKey → Result Bool
version_key_lt (VersionKey.numbers ms) (VersionKey.numbers ns) = ok (numbers_lt ms ns)
version_key_lt (VersionKey.word s) (VersionKey.word t) = ok (text_lt s t)
version_key_lt _ _ = err type_error

-- `max(versions, key=_version_sort_key)` of versions that begin with one: the first of the
-- greatest.
unfoldable pub greatest : String → List String → Result String
greatest best [] = ok best
greatest best (v ∷ vs) = do
  is_greater ← version_key_lt (version_key best) (version_key v)
  greatest (if is_greater then v else best) vs

-- `versions[max(versions, key=_version_sort_key)]`, where there is a version.
unfoldable pub latest_version : {V : Type 0} → Dict V → Result (Option V)
latest_version [] = ok none
latest_version ((v, a) ∷ versions) = do
  latest ← greatest v (keys versions)
  ok (get ((v, a) ∷ versions) latest)

version_key_two : version_key "1.10" ≡ VersionKey.numbers (1 ∷ (10 ∷ []))
unfolding version_key split_path number_parts number_part digits_onto
version_key_two = refl

greatest_two : greatest "1.9" ("1.10" ∷ ("1.2" ∷ [])) ≡ ok "1.10"
unfolding greatest version_key_lt numbers_lt version_key split_path number_parts number_part
    digits_onto
greatest_two = refl
