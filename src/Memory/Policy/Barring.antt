-- ===== src/Memory/Policy/Barring.antt =====
-- Memory whose scope the static policy bars (src/core/memory/policy.py,
-- src/core/policies/static.py).
use agent_roles.State.Validation.{side_effect_valid, decision_valid}
use agent_roles.Common.{
  ℕ, suc, String, ◌≡◌, refl, sym, ap, subst, Bool, true, false, some, ok, err, value_error, Error,
  arith, elem, ◌⊎◌, inl, inr, if◌then◌else◌,
}
use agent_roles.Value.{ℤ, Value, Fields}
use agent_roles.State.Models.{PolicyDecisionRecord, SideEffectRecord}
use agent_roles.Contracts.{Services}
use agent_roles.Runtime.Monad.{World, Action, continue_with, ◌>>=◌}
use agent_roles.Runtime.Context.{ExecutionContext}
use agent_roles.Runtime.Store.{now, new_id}
use agent_roles.Tools.Static.{
  StaticPolicyEngine, Ruling, side_effect_ruling, decision_of, decision, pre_side_effect,
  static_engine,
}
use agent_roles.Memory.Policy.{
  MemoryProvider, Asked, effect_of, is_passing, or_refuse, judge, precheck, scope_of, asks_retrieve,
  asks_write, asks_summarize, retrieve, write, summarize,
}

-- An action raises, and writes into no store: at most it has asked the services.
abbrev pub Refuses : {A : Type 0} → Action A → Type 0
Refuses m = (w : World) → (x : Error) × (n : ℕ) × (m w ≡ (err x, record w { calls = n }))

Refuses->>= : {A B : Type 0} (m : Action A) (k : A → Action B) → Refuses m → Refuses (m >>= k)
Refuses->>= m k r w = let (x, n, e) = r w in (x, n, ap (λ y. continue_with y k) e)

-- The scope is on the list of those that are denied, or that need approval.
abbrev pub IsBarredScope : StaticPolicyEngine → String → Type 0
IsBarredScope e scope =
    (elem scope e.deny_side_effect_targets ≡ true)
    ⊎ (elem scope e.approval_side_effect_targets ≡ true)

barred_action :
    (e : StaticPolicyEngine) (scope : String)
    → IsBarredScope e scope
    → is_passing (side_effect_ruling e scope).action ≡ false
unfolding side_effect_ruling
barred_action e scope (inl denied) = ground arith
barred_action e scope (inr approval) = ground arith

refused_at :
    (c : PolicyDecisionRecord) (b : Bool) (v : World)
    → is_passing c.action ≡ false
    → continue_with ((if b then ok c else err value_error), v) or_refuse
      ≡ (err (if b then Error.policy_error else value_error), v)
refused_at c true v h = rw h refl
refused_at c false v h = refl

module _ (e : StaticPolicyEngine) (sv : Services) (context : ExecutionContext) where
  -- A decision of an action that does not pass.
  decision-Refuses :
      (r : Ruling) → is_passing r.action ≡ false → Refuses (decision e sv context r >>= or_refuse)
  unfolding decision new_id now
  decision-Refuses r h w =
      let c = decision_of e context r (sv.new_id "policy" w.calls) (sv.now (suc w.calls)) in
      (
        (if decision_valid c then Error.policy_error else value_error),
        suc (suc w.calls),
        refused_at c (decision_valid c) (record w { calls = suc (suc w.calls) }) h,
      )

  effect_refused :
      (s : SideEffectRecord) (b : Bool) (v : World)
      → IsBarredScope e s.target_ref
      → (x : Error) × (n : ℕ) × (continue_with
            ((if b then ok s else err value_error), v)
            (λ effect. pre_side_effect e sv context effect >>= or_refuse)
          ≡ (err x, record v { calls = n }))
  unfolding pre_side_effect
  effect_refused s true v barred =
      decision-Refuses (side_effect_ruling e s.target_ref) (barred_action e s.target_ref barred) v
  effect_refused s false v barred = (value_error, v.calls, refl)

  judge-Refuses :
      (a : Asked) → IsBarredScope e a.scope → Refuses (judge sv (static_engine e sv) context a)
  unfolding judge new_id now
  judge-Refuses a barred w =
      let s = effect_of context a (sv.new_id "side_effect" w.calls) (sv.now (suc w.calls)) in
      effect_refused s (side_effect_valid s) (record w { calls = suc (suc w.calls) }) barred

module _ {R : Type 0} (delegate : MemoryProvider R) (repr : Value → String) (e : StaticPolicyEngine)
    (sv : Services) (context : ExecutionContext) (scope : String) where
  -- Memory in a scope that the static policy denies, or wants approved, is out of reach for a node:
  -- retrieving from the scope, summarising it, and writing an item of the scope all raise, whatever
  -- the provider would do, and nothing but the clock and the identifiers has been asked.
  pub barred_scope_refused :
      IsBarredScope e scope
      → ((query : String) (top_k : ℤ)
          → Refuses (
              retrieve delegate repr sv
                (some (static_engine e sv))
                query
                scope
                top_k
                (some context)))
        × Refuses (summarize delegate repr sv (some (static_engine e sv)) scope (some context))
        × ((item : Fields)
            → scope_of repr item ≡ scope
            → Refuses (write delegate repr sv (some (static_engine e sv)) item (some context)))
  unfolding retrieve summarize write precheck
  barred_scope_refused barred = (
    λ query top_k.
        Refuses->>= (judge sv (static_engine e sv) context (asks_retrieve query scope top_k)) _
          (judge-Refuses e sv context (asks_retrieve query scope top_k) barred),
    Refuses->>= (judge sv (static_engine e sv) context (asks_summarize scope)) _
        (judge-Refuses e sv context (asks_summarize scope) barred),
    λ item same. Refuses->>= (judge sv (static_engine e sv) context (asks_write repr item)) _ (
        judge-Refuses e sv context (asks_write repr item)
          (subst (IsBarredScope e) (sym same) barred)),
  )
