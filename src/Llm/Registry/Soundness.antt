-- ===== src/Llm/Registry/Soundness.antt =====
-- What every registry of providers keeps (src/core/llm/registry.py): a profile's provider is
-- registered, and each record is filed under its reference.
use agent_roles.Common.{
  String, ◌≡◌, subst, true, some, List, [], ◌∷◌, ok, value_error, >>=-eq-ok, raise_if, require,
  ok-injective, arith, All, Bool-cases, inl, inr, ◌=ₛ◌,
}
use agent_roles.Common.Dict.{Dict, get, put, values, contains, get-put}
use agent_roles.Stores.State.Laws.{OwnKeys, put-OwnKeys}
use agent_roles.Llm.Models.{LlmProviderConfig, LlmModelProfile}
use agent_roles.Llm.Registry.{ProviderRegistry, register_provider, register_profile}

-- The provider of a profile is registered.
abbrev pub IsServed : Dict LlmProviderConfig → LlmModelProfile → Type 0
IsServed providers p = contains providers p.provider_ref ≡ true

pub record IsSound (r : ProviderRegistry) : Type 0 where
  pub filed_providers : OwnKeys (λ (c : LlmProviderConfig). c.provider_ref) r.providers
  pub filed_profiles : OwnKeys (λ (p : LlmModelProfile). p.profile_ref) r.profiles
  pub served : All (IsServed r.providers) (values r.profiles)

module _ {V : Type 0} (P : V → Type 0) where
  pub put-All :
      (d : Dict V) (k : String) (v : V) → P v → All P (values d) → All P (values (put d k v))
  unfolding put
  put-All [] k v h a = (h, tt)
  put-All ((j, w) ∷ d) k v h a = elim (Bool-cases (j =ₛ k)) [
    | inl same ↦ rw same (h, a.1)
    | inr other ↦ rw other (a.0, put-All d k v h a.1)
  ]

  pub get-All : (d : Dict V) (k : String) (v : V) → All P (values d) → get d k ≡ some v → P v
  unfolding get
  get-All [] k v a h = absurd (ground arith)
  get-All ((j, w) ∷ d) k v a h = elim (Bool-cases (j =ₛ k)) [
    | inl same ↦ subst P (ground arith) a.0
    | inr other ↦ get-All d k v a.1 (ground arith)
  ]

more-All :
    {V : Type 0} (P Q : V → Type 0) → ((v : V) → P v → Q v) → (vs : List V) → All P vs → All Q vs
more-All P Q f [] a = tt
more-All P Q f (v ∷ vs) a = (f v a.0, more-All P Q f vs a.1)

-- Registering keeps a registry sound.
pub register_provider-IsSound :
    (c : LlmProviderConfig) (r after : ProviderRegistry)
    → IsSound r
    → register_provider c r ≡ ok after
    → IsSound after
unfolding register_provider
register_provider-IsSound c r after s h =
    let (_, _, rest) = >>=-eq-ok (raise_if (contains r.providers c.provider_ref) value_error) _ h in
    subst IsSound (ok-injective rest) (record {
      filed_providers = put-OwnKeys (λ x. x.provider_ref) r.providers c s.filed_providers;
      filed_profiles = s.filed_profiles;
      served =
          more-All (IsServed r.providers) (IsServed (put r.providers c.provider_ref c))
            (λ p k. ground (arith, get-put r.providers c.provider_ref c p.provider_ref))
            (values r.profiles) s.served;
    })

-- A sound registry that registers a profile is sound.
pub register_profile-IsSound :
    (p : LlmModelProfile) (r after : ProviderRegistry)
    → IsSound r
    → register_profile p r ≡ ok after
    → IsSound after
unfolding register_profile
register_profile-IsSound p r after s h =
    let (_, _, h₁) = >>=-eq-ok (raise_if (contains r.profiles p.profile_ref) value_error) _ h in
    let (_, known, rest) =
      >>=-eq-ok (require (contains r.providers p.provider_ref) value_error) _ h₁ in
    subst IsSound (ok-injective rest) (record {
      filed_providers = s.filed_providers;
      filed_profiles = put-OwnKeys (λ x. x.profile_ref) r.profiles p s.filed_profiles;
      served = put-All (IsServed r.providers) r.profiles p.profile_ref p (ground arith) s.served;
    })
