-- ===== src/Llm/Invoker/Routing.antt =====
-- Where a request for a language model goes (src/core/llm/invoker.py).
use agent_roles.Common.{
  String, ◌≡◌, refl, sym, ap, ◌∙◌, subst, Option, none, some, List, [], ◌∷◌, Result, ok, err,
  value_error, ◌>>=◌, arith, All, keep, keep-All, inl, inr, ◌⊎◌, or_raise, text_lt, Bool-cases,
}
use agent_roles.Common.Dict.{get, values}
use agent_roles.Stores.State.Laws.{OwnKeys-found}
use agent_roles.Llm.Models.{LlmProviderConfig, LlmModelProfile, LlmRequest}
use agent_roles.Llm.Registry.{
  ProviderRegistry, lower, of_provider, first_profile, or_first, get_default_profile,
}
use agent_roles.Llm.Registry.Defaults.{IsDefault, get_default_profile-IsDefault}
use agent_roles.Llm.Registry.Soundness.{IsServed, IsSound, get-All}
use agent_roles.Llm.Invoker.{
  named, or_else, provider_of, profile_by, default_profile, resolve_profile,
  resolve_provider_and_profile,
}

-- What is picked of some profiles is one of them.
abbrev Picked : (LlmModelProfile → Type 0) → List LlmModelProfile → Option LlmModelProfile → Type 0
Picked P ps none = ps ≡ []
Picked P ps (some p) = P p

lower-Picked :
    (P : LlmModelProfile → Type 0) (p : LlmModelProfile) (ps : List LlmModelProfile)
    (o : Option LlmModelProfile)
    → P p
    → Picked P ps o
    → Picked P (p ∷ ps) (lower p o)
lower-Picked P p ps none h k = h
lower-Picked P p ps (some q) h k = elim (Bool-cases (text_lt q.profile_ref p.profile_ref)) [
  | inl below ↦ rw below k
  | inr above ↦ rw above h
]

first_profile-Picked :
    (P : LlmModelProfile → Type 0) (ps : List LlmModelProfile)
    → All P ps
    → Picked P ps (first_profile ps)
unfolding first_profile
first_profile-Picked P [] a = refl
first_profile-Picked P (p ∷ ps) a =
    lower-Picked P p ps (first_profile ps) a.0 (first_profile-Picked P ps a.1)

or_first-Picked :
    (P : LlmModelProfile → Type 0) (d ps : List LlmModelProfile) (o : Option LlmModelProfile)
    → All P ps
    → Picked P d o
    → Picked P ps (or_first o ps)
or_first-Picked P d ps (some p) a k = k
or_first-Picked P d ps none a k = first_profile-Picked P ps a

module _ (r : ProviderRegistry) (s : IsSound r) where
  abbrev Served : LlmModelProfile → Type 0
  Served p = IsServed r.providers p

  default-Picked :
      (provider_ref : Option String)
      → Picked Served
          (keep (of_provider provider_ref) (values r.profiles))
          (get_default_profile provider_ref r)
  unfolding get_default_profile
  default-Picked provider_ref =
      let ps = keep (of_provider provider_ref) (values r.profiles) in
      let a = keep-All Served (of_provider provider_ref) (values r.profiles) s.served in
      let ds = keep (λ (p : LlmModelProfile). p.is_default) ps in
      or_first-Picked Served ds ps (first_profile ds) a (
        first_profile-Picked Served ds
          (keep-All Served (λ (p : LlmModelProfile). p.is_default) ps a))

  keep_all : (ps : List LlmModelProfile) → keep (of_provider none) ps ≡ ps
  keep_all [] = refl
  keep_all (p ∷ ps) = ap (λ x. p ∷ x) (keep_all ps)

  or_else-Picked :
      (a b : Option LlmModelProfile) (ps qs : List LlmModelProfile)
      → Picked Served ps a
      → Picked Served qs b
      → Picked Served qs (or_else a b)
  or_else-Picked none b ps qs h k = k
  or_else-Picked (some p) b ps qs h k = h

  any-Picked : Picked Served (values r.profiles) (get_default_profile none r)
  any-Picked =
      subst (λ ps. Picked Served ps (get_default_profile none r)) (keep_all (values r.profiles))
        (default-Picked none)

  default_profile-Picked :
      (d provider_ref : Option String)
      → Picked Served (values r.profiles) (default_profile r d provider_ref)
  default_profile-Picked d none = any-Picked
  default_profile-Picked d (some ref) =
      or_else-Picked (get_default_profile (some ref) r) (get_default_profile none r)
        (keep (of_provider (some ref)) (values r.profiles)) (values r.profiles)
        (default-Picked (some ref)) any-Picked

  abbrev Unknown : String → Type 0
  Unknown ref = get r.profiles ref ≡ none

  -- The first name of two that is given is unknown.
  abbrev FirstUnknown : Option String → Option String → Type 0
  FirstUnknown (some ref) d = Unknown ref
  FirstUnknown none (some ref) = Unknown ref
  FirstUnknown none none = ⊥

  -- The profile of a request, given its own name for one, the invoker's, and its provider: the
  -- registered profile of the first name; or else the default of the provider, if one is named and
  -- has profiles, and else the default of all.
  abbrev IsProfile : (own invokers provider_ref : Option String) → Option LlmModelProfile → Type 0
  IsProfile (some ref) invokers provider_ref p =
      (q : LlmModelProfile) × (p ≡ some q) × (get r.profiles ref ≡ some q)
  IsProfile none (some ref) provider_ref p =
      (q : LlmModelProfile) × (p ≡ some q) × (get r.profiles ref ≡ some q)
  IsProfile none none none p = IsDefault none (values r.profiles) p
  IsProfile none none (some ref) p =
      ((q : LlmModelProfile) × (p ≡ some q) × IsDefault (some ref) (values r.profiles) (some q))
      ⊎ (IsDefault (some ref) (values r.profiles) none × IsDefault none (values r.profiles) p)

  default_profile-IsProfile :
      (d provider_ref : Option String)
      → IsProfile none none provider_ref (default_profile r d provider_ref)
  default_profile-IsProfile d none = get_default_profile-IsDefault none r
  default_profile-IsProfile d (some ref) =
      of_provider_or_any (get_default_profile (some ref) r)
        (get_default_profile-IsDefault (some ref) r)
    where
      of_provider_or_any :
          (o : Option LlmModelProfile)
          → IsDefault (some ref) (values r.profiles) o
          → IsProfile none none (some ref) (or_else o (get_default_profile none r))
      of_provider_or_any none e = inr (e, get_default_profile-IsDefault none r)
      of_provider_or_any (some q) e = inl (q, refl, e)

  -- What a request resolves to: its profile, and a provider that is found and is the one that the
  -- request names, or else its profile's. There is no provider only because the profile that is
  -- named is not registered, or the provider that is named, or because nothing is named and no
  -- profile is registered.
  abbrev pub Routes :
      (own invokers asked provider_ref : Option String)
      → Result (LlmProviderConfig × Option LlmModelProfile)
      → Type 0
  Routes own invokers asked provider_ref (ok (c, p)) =
      IsProfile own invokers asked p
      × (get r.providers c.provider_ref ≡ some c)
      × (or_else provider_ref (provider_of p) ≡ some c.provider_ref)
  Routes own invokers asked provider_ref (err e) =
      FirstUnknown own invokers
      ⊎ (((ref : String) × (provider_ref ≡ some ref) × (get r.providers ref ≡ none))
          ⊎ ((provider_ref ≡ none) × (values r.profiles ≡ [])))

  -- The profile that is resolved, or the reason why there is none.
  abbrev ByProfile :
      Option String → Option String → Option String → Result (Option LlmModelProfile) → Type 0
  ByProfile own invokers asked (ok p) =
      Picked Served (values r.profiles) p × IsProfile own invokers asked p
  ByProfile own invokers asked (err e) = FirstUnknown own invokers

  named_profile-ByProfile :
      (ref : String) (o : Option LlmModelProfile) (own invokers asked : Option String)
      → (Unknown ref → FirstUnknown own invokers)
      → ((p : LlmModelProfile)
          → get r.profiles ref ≡ some p
          → IsProfile own invokers asked (some p))
      → get r.profiles ref ≡ o
      → ByProfile own invokers asked (or_raise o value_error >>= λ p. ok (some p))
  named_profile-ByProfile ref none own invokers asked f g h = f h
  named_profile-ByProfile ref (some p) own invokers asked f g h =
      (get-All Served r.profiles ref p s.served h, g p h)

  profile_by-ByProfile :
      (d own invokers asked : Option String)
      → ByProfile own invokers asked (profile_by r d own invokers asked)
  profile_by-ByProfile d (some ref) invokers asked =
      named_profile-ByProfile ref (get r.profiles ref) (some ref) invokers asked (λ h. h)
        (λ p h. (p, refl, h)) refl
  profile_by-ByProfile d none (some ref) asked =
      named_profile-ByProfile ref (get r.profiles ref) none (some ref) asked (λ h. h)
        (λ p h. (p, refl, h)) refl
  profile_by-ByProfile d none none asked =
      (default_profile-Picked d asked, default_profile-IsProfile d asked)

  -- The provider of a name that is given, or of the profile.
  abbrev provider_by :
      Option String → Option LlmModelProfile → Result (LlmProviderConfig × Option LlmModelProfile)
  provider_by name p =
      (or_raise (or_else name (provider_of p)) value_error >>= λ ref.
      or_raise (get r.providers ref) value_error)
      >>= λ c. ok (c, p)

  found :
      (own invokers asked name : Option String) (ref : String) (p : Option LlmModelProfile)
      (o : Option LlmProviderConfig)
      → or_else name (provider_of p) ≡ some ref
      → get r.providers ref ≡ o
      → IsProfile own invokers asked p
      → ((get r.providers ref ≡ none) → Routes own invokers asked name (err value_error))
      → Routes own invokers asked name (or_raise o value_error >>= λ c. ok (c, p))
  found own invokers asked name ref p none e h k f = f h
  found own invokers asked name ref p (some c) e h k f =
      let same =
        OwnKeys-found (λ (x : LlmProviderConfig). x.provider_ref) r.providers ref c
          s.filed_providers h in
      (k, ap (get r.providers) same ∙ h, e ∙ ap some (sym same))

  provider_by-Routes :
      (own invokers asked name : Option String) (p : Option LlmModelProfile)
      → Picked Served (values r.profiles) p
      → IsProfile own invokers asked p
      → Routes own invokers asked name (provider_by name p)
  provider_by-Routes own invokers asked (some ref) p k i =
      found own invokers asked (some ref) ref p (get r.providers ref) refl refl i
        (λ h. inr (inl (ref, refl, h)))
  provider_by-Routes own invokers asked none (some p) k i =
      found own invokers asked none p.provider_ref (some p) (get r.providers p.provider_ref) refl
        refl i (λ h. absurd (ground arith))
  provider_by-Routes own invokers asked none none k i = inr (inr (refl, k))

  routed :
      (own invokers asked name : Option String) (x : Result (Option LlmModelProfile))
      → ByProfile own invokers asked x
      → Routes own invokers asked name (x >>= λ p. provider_by name p)
  routed own invokers asked name (ok p) k = provider_by-Routes own invokers asked name p k.0 k.1
  routed own invokers asked name (err e) k = inl k

  -- In a sound registry a request is resolved to the profile that it names, or else that the
  -- invoker names, or else to a default: of the profiles of its provider, or of all if that is not
  -- named or has none, the one with the least reference that is marked as a default, or with the
  -- least reference if none is marked. Its provider is the one that it names, or else that of the
  -- profile. Only a name that is not registered, or a registry without profiles, leaves it without
  -- a provider.
  pub resolve_provider_and_profile-Routes :
      (default_profile_ref : Option String) (request : LlmRequest)
      → Routes
          (named request.profile_ref)
          (named default_profile_ref)
          request.provider_ref
          (named request.provider_ref)
          (resolve_provider_and_profile r default_profile_ref request)
  unfolding resolve_provider_and_profile resolve_profile
  resolve_provider_and_profile-Routes default_profile_ref request =
      routed (named request.profile_ref) (named default_profile_ref) request.provider_ref
        (named request.provider_ref)
        (profile_by r default_profile_ref (named request.profile_ref) (named default_profile_ref)
          request.provider_ref)
        (profile_by-ByProfile default_profile_ref (named request.profile_ref)
          (named default_profile_ref) request.provider_ref)
