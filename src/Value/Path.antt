-- ===== src/Value/Path.antt =====
-- Dotted paths: `path.split(".")` of `_extract_path` (src/core/state/selectors.py).
use Prim.Native.Char.{Char, code}
use agent_roles.Common.{String, ◌≡◌, refl, List, [], ◌∷◌, ◌==◌, if◌then◌else◌, Bool-cases, inl, inr}

abbrev before_first : Char → List String → List String
before_first c [] = String.◌∷◌ c String.[] ∷ []
before_first c (p ∷ ps) = String.◌∷◌ c p ∷ ps

unfoldable pub split_path : String → List String
split_path String.[] = String.[] ∷ []
split_path (String.◌∷◌ c s) =
    let rest = split_path s in if code c == b'.' then String.[] ∷ rest else before_first c rest

split_path_two : split_path "ab.c" ≡ "ab" ∷ "c" ∷ []
unfolding split_path
split_path_two = refl

-- A path has at least one segment.
pub split_path_filled : (s : String) → (p : String) × (ps : List String) × (split_path s ≡ p ∷ ps)
unfolding split_path
split_path_filled String.[] = (String.[], [], refl)
split_path_filled (String.◌∷◌ c s) =
    let (p, ps, e) = split_path_filled s in
    elim (Bool-cases (code c == b'.')) [
      | inl dot ↦ (String.[], split_path s, rw dot refl)
      | inr other ↦ (String.◌∷◌ c p, ps, rw (other, e) refl)
    ]
