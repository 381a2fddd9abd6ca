-- ===== src/Tools/Policy/Redaction.antt =====
-- What redaction hides, and what it leaves (src/core/tools/policy.py).
use agent_roles.Common.{
  String, ◌≡◌, refl, sym, subst, true, false, Option, none, some, List, [], ◌∷◌, arith, elem,
  eq_iff, eq_refl, ◌=ₛ◌, if◌then◌else◌, Bool-cases, Option-cases, inl, inr,
}
use agent_roles.Value.{
  Value, Fields, end, field, fget, fput, fget-fput, split_path, split_path_filled,
}
use agent_roles.Tools.Policy.{fdrop, dict_under, redact_parts, redact_path, redact_all}

-- The value that a path leads to through dicts.
unfoldable pub find_parts : List String → Fields → Option Value
find_parts [] d = some (Value.dict d)
find_parts (p ∷ []) d = fget d p
find_parts (p ∷ (q ∷ ps)) d = elim (dict_under d p) [ none ↦ none | some e ↦ find_parts (q ∷ ps) e ]

fget-fdrop : (d : Fields) (k j : String) → fget (fdrop d k) j ≡ (if k =ₛ j then none else fget d j)
unfolding fget fdrop
fget-fdrop end k j = ground arith
fget-fdrop (field i v d) k j = ground (arith, eq_iff i k, eq_iff i j, eq_iff k j, fget-fdrop d k j)

dict_under-fdrop :
    (d : Fields) (k j : String)
    → dict_under (fdrop d k) j ≡ (if k =ₛ j then none else dict_under d j)
unfolding dict_under
dict_under-fdrop d k j = rw (fget-fdrop d k j, dict_under) (ground arith)

dict_under-fput :
    (d e : Fields) (k j : String)
    → dict_under (fput d k (Value.dict e)) j ≡ (if k =ₛ j then some e else dict_under d j)
unfolding dict_under
dict_under-fput d e k j = rw (fget-fput d k (Value.dict e) j, dict_under) (ground arith)

dict_under-fget :
    (d : Fields) (k : String) (e : Fields)
    → dict_under d k ≡ some e
    → fget d k ≡ some (Value.dict e)
unfolding dict_under
dict_under-fget d k e h = ground arith

-- A redacted path leads nowhere.
redacted_hidden :
    (p : String) (ps : List String) (d : Fields)
    → find_parts (p ∷ ps) (redact_parts (p ∷ ps) d) ≡ none
unfolding find_parts redact_parts
redacted_hidden p [] d = ground (arith, fget-fdrop d p p, eq_refl p)
redacted_hidden p (q ∷ ps) d = elim (Option-cases (dict_under d p)) [
  | inl e ↦ rw (e, redact_parts, find_parts, e) refl
  | inr (f, e) ↦
      rw (e, redact_parts)
        (ground (
          arith,
          dict_under-fput d (redact_parts (q ∷ ps) f) p p,
          eq_refl p,
          redacted_hidden q ps f,
        ))
]

-- What a path does not lead to, it does not lead to after a redaction.
hidden_kept :
    (ps : List String) (q : String) (qs : List String) (d : Fields)
    → find_parts (q ∷ qs) d ≡ none
    → find_parts (q ∷ qs) (redact_parts ps d) ≡ none
unfolding find_parts redact_parts
hidden_kept [] q qs d h = h
hidden_kept (p ∷ []) q [] d h = ground (arith, fget-fdrop d p q)
hidden_kept (p ∷ []) q (r ∷ qs) d h = ground (arith, dict_under-fdrop d p q)
hidden_kept (p ∷ (p' ∷ ps)) q [] d h = elim (Option-cases (dict_under d p)) [
  | inl e ↦ rw (e, redact_parts) h
  | inr (f, e) ↦
      rw (e, redact_parts)
        (ground (
          arith,
          fget-fput d p (Value.dict (redact_parts (p' ∷ ps) f)) q,
          dict_under-fget d p f e,
          eq_iff p q,
        ))
]
hidden_kept (p ∷ (p' ∷ ps)) q (r ∷ qs) d h = elim (Option-cases (dict_under d p)) [
  | inl e ↦ rw (e, redact_parts) h
  | inr (f, e) ↦
      rw (e, redact_parts)
        (ground (
          arith,
          dict_under-fput d (redact_parts (p' ∷ ps) f) p q,
          hidden_kept (p' ∷ ps) r qs f,
          eq_iff p q,
        ))
]

-- A path that is not empty leads nowhere.
abbrev pub IsHidden : String → Fields → Type 0
IsHidden path d = find_parts (split_path path) d ≡ none

IsHidden-at_once :
    (path : String) (d : Fields) → (path =ₛ "") ≡ false → IsHidden path (redact_path d path)
unfolding redact_path
IsHidden-at_once path d filled =
    let (p, ps, e) = split_path_filled path in rw (filled, e) (redacted_hidden p ps d)

IsHidden-longer :
    (path other : String) (d : Fields) → IsHidden path d → IsHidden path (redact_path d other)
unfolding redact_path
IsHidden-longer path other d h =
    let (p, ps, e) = split_path_filled path in
    elim (Bool-cases (other =ₛ "")) [
      | inl empty ↦ rw empty h
      | inr filled ↦
          rw (filled, e)
            (hidden_kept (split_path other) p ps d
              (let k : find_parts (p ∷ ps) d ≡ none = rw e at h in k))
    ]

IsHidden-after :
    (path : String) (paths : List String) (d : Fields)
    → IsHidden path d
    → IsHidden path (redact_all paths d)
unfolding redact_all
IsHidden-after path [] d h = h
IsHidden-after path (other ∷ paths) d h =
    IsHidden-after path paths (redact_path d other) (IsHidden-longer path other d h)

-- Every path of a list, but the empty one, leads nowhere.
abbrev pub Hides : List String → Fields → Type 0
Hides paths d = (path : String) → elem path paths ≡ true → (path =ₛ "") ≡ false → IsHidden path d

-- Redacting the paths of a list hides all of them.
pub redact_all-Hides : (paths : List String) (d : Fields) → Hides paths (redact_all paths d)
unfolding redact_all
redact_all-Hides [] d path m filled = absurd (ground arith)
redact_all-Hides (other ∷ paths) d path m filled = elim (Bool-cases (other =ₛ path)) [
  | inl same ↦
      let e = (eq_iff other path).0 same in
      IsHidden-after path paths (redact_path d other)
        (subst (λ o. IsHidden path (redact_path d o)) (sym e) (IsHidden-at_once path d filled))
  | inr differs ↦ redact_all-Hides paths (redact_path d other) path (ground arith) filled
]
