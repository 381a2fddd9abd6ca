-- ===== src/Llm/Registry/Defaults.antt =====
-- Which profile is the default of a provider, or of all (src/core/llm/registry.py).
use agent_roles.Common.{
  String, ◌≡◌, refl, subst, true, false, Option, none, some, List, [], ◌∷◌, keep, Occurs,
  Occurs-keep, keep-Occurs, ◌⊎◌, inl, inr, text_lt, eq_iff, Bool-cases,
}
use agent_roles.Common.Dict.{values}
use agent_roles.Common.TextOrder.{text_lt-asymm, text_lt_trans}
use agent_roles.Llm.Models.{LlmModelProfile}
use agent_roles.Llm.Registry.{
  ProviderRegistry, of_provider, lower, first_profile, or_first, get_default_profile,
}

-- A profile is of the provider that is named, if one is.
abbrev pub Serves : Option String → LlmModelProfile → Type 0
Serves none p = Unit
Serves (some ref) p = p.provider_ref ≡ ref

-- Of the profiles of a list with a property, the one whose reference is least.
abbrev pub IsLeast : (LlmModelProfile → Type 0) → List LlmModelProfile → LlmModelProfile → Type 0
IsLeast P ps p =
    Occurs p ps
    × P p
    × ((q : LlmModelProfile) → Occurs q ps → P q → text_lt q.profile_ref p.profile_ref ≡ false)

-- The default among some profiles: the least that is marked as one, or else the least; and there is
-- none only where no profile is of the provider.
abbrev pub IsDefault : Option String → List LlmModelProfile → Option LlmModelProfile → Type 0
IsDefault ref ps none = (q : LlmModelProfile) → Occurs q ps → ¬ (Serves ref q)
IsDefault ref ps (some p) =
    IsLeast (λ q. Serves ref q × (q.is_default ≡ true)) ps p
    ⊎ (((q : LlmModelProfile) → Occurs q ps → Serves ref q → q.is_default ≡ false)
        × IsLeast (Serves ref) ps p)

abbrev First : List LlmModelProfile → Option LlmModelProfile → Type 0
First ps none = ps ≡ []
First ps (some p) =
    Occurs p ps
    × ((q : LlmModelProfile) → Occurs q ps → text_lt q.profile_ref p.profile_ref ≡ false)

text_lt_irrefl : (s : String) → text_lt s s ≡ false
text_lt_irrefl s = elim (Bool-cases (text_lt s s)) [
  | inl below ↦ text_lt-asymm s s below
  | inr above ↦ above
]

lower-First :
    (p : LlmModelProfile) (ps : List LlmModelProfile) (o : Option LlmModelProfile)
    → First ps o
    → First (p ∷ ps) (lower p o)
lower-First p ps none h = (inl refl, alone)
  where
    alone : (q : LlmModelProfile) → Occurs q (p ∷ ps) → text_lt q.profile_ref p.profile_ref ≡ false
    alone q (inl same) =
        subst (λ x. text_lt x.profile_ref p.profile_ref ≡ false) same (text_lt_irrefl p.profile_ref)
    alone q (inr later) = absurd (subst (Occurs q) h later)
lower-First p ps (some q) (there, least) = elim (Bool-cases (text_lt q.profile_ref p.profile_ref)) [
  | inl below ↦ rw below (inr there, λ x o. below_all below x o)
  | inr above ↦ rw above (inl refl, λ x o. above_all above x o)
]
  where
    below_all :
        text_lt q.profile_ref p.profile_ref ≡ true
        → (x : LlmModelProfile) → Occurs x (p ∷ ps)
        → text_lt x.profile_ref q.profile_ref ≡ false
    below_all e x (inl same) =
        subst (λ y. text_lt y.profile_ref q.profile_ref ≡ false) same
          (text_lt-asymm q.profile_ref p.profile_ref e)
    below_all e x (inr later) = least x later

    above_all :
        text_lt q.profile_ref p.profile_ref ≡ false
        → (x : LlmModelProfile) → Occurs x (p ∷ ps)
        → text_lt x.profile_ref p.profile_ref ≡ false
    above_all e x (inl same) =
        subst (λ y. text_lt y.profile_ref p.profile_ref ≡ false) same (text_lt_irrefl p.profile_ref)
    above_all e x (inr later) =
        text_lt_trans x.profile_ref q.profile_ref p.profile_ref (least x later) e

first_profile-First : (ps : List LlmModelProfile) → First ps (first_profile ps)
unfolding first_profile
first_profile-First [] = refl
first_profile-First (p ∷ ps) = lower-First p ps (first_profile ps) (first_profile-First ps)

of_provider-Serves :
    (ref : Option String) (p : LlmModelProfile) → of_provider ref p ≡ true → Serves ref p
of_provider-Serves none p h = tt
of_provider-Serves (some ref) p h = (eq_iff p.provider_ref ref).0 h

Serves-of_provider :
    (ref : Option String) (p : LlmModelProfile) → Serves ref p → of_provider ref p ≡ true
Serves-of_provider none p h = refl
Serves-of_provider (some ref) p h = (eq_iff p.provider_ref ref).1 h

module _ (ref : Option String) (ps : List LlmModelProfile) where
  abbrev candidates : List LlmModelProfile
  candidates = keep (of_provider ref) ps

  abbrev marked : List LlmModelProfile
  marked = keep (λ (p : LlmModelProfile). p.is_default) candidates

  candidate : (q : LlmModelProfile) → Occurs q ps → Serves ref q → Occurs q candidates
  candidate q o h = keep-Occurs (of_provider ref) q ps o (Serves-of_provider ref q h)

  picked :
      (d c : Option LlmModelProfile)
      → First marked d
      → First candidates c
      → first_profile candidates ≡ c
      → IsDefault ref ps (or_first d candidates)
  picked (some p) c (there, least) k e =
      let (o, m) = Occurs-keep (λ (x : LlmModelProfile). x.is_default) p candidates there in
      let (o', s) = Occurs-keep (of_provider ref) p ps o in
      inl (
        o',
        (of_provider-Serves ref p s, m),
        λ q t h. least q (
            keep-Occurs (λ (x : LlmModelProfile). x.is_default) q candidates (candidate q t h.0)
              h.1),
      )
  picked none (some p) h (there, least) e =
      let (o, s) = Occurs-keep (of_provider ref) p ps there in
      rw e (
        inr (
          λ q t g. unmarked q (candidate q t g),
          (o, of_provider-Serves ref p s, λ q t g. least q (candidate q t g)),
        ))
    where
      unmarked : (q : LlmModelProfile) → Occurs q candidates → q.is_default ≡ false
      unmarked q t = elim (Bool-cases q.is_default) [
        | inl yes_ ↦ absurd (
            subst (Occurs q) h
              (keep-Occurs (λ (x : LlmModelProfile). x.is_default) q candidates t yes_))
        | inr no_ ↦ no_
      ]
  picked none none h k e = rw e (λ q t g. subst (Occurs q) k (candidate q t g))

-- The default profile that the registry gives is the default of its profiles.
pub get_default_profile-IsDefault :
    (ref : Option String) (r : ProviderRegistry)
    → IsDefault ref (values r.profiles) (get_default_profile ref r)
unfolding get_default_profile
get_default_profile-IsDefault ref r =
    let ps = values r.profiles in
    picked ref ps (first_profile (marked ref ps)) (first_profile (candidates ref ps))
      (first_profile-First (marked ref ps)) (first_profile-First (candidates ref ps)) refl
