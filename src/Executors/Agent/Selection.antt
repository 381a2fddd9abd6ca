-- ===== src/Executors/Agent/Selection.antt =====
-- Which implementation of an agent runs (src/core/executors/agent_executor.py).
use agent_roles.Common.{
  String, ◌≡◌, ◌≢◌, ◌↔◌, refl, sym, ap, ◌∙◌, Bool, Option, none, some, List, [], ◌∷◌, keep, Result,
  ok, err, value_error, ok-injective, arith,
}
use agent_roles.Agents.Bindings.{ResolvedAgentBinding}
use agent_roles.Executors.Agent.{AgentImplementation, only, is_named, filled, select_implementation}

-- What the binding asks of an implementation: its reference where the binding gives one, and else
-- that it can handle the binding.
abbrev pub fits : ResolvedAgentBinding → AgentImplementation → Bool
fits b i = elim (filled b.implementation_ref) [ some ref ↦ is_named ref i | none ↦ i.can_handle b ]

only-eq : (is : List AgentImplementation) (i : AgentImplementation) → only is ≡ ok i → is ≡ i ∷ []
unfolding only
only-eq [] i h = absurd (ground arith)
only-eq (j ∷ []) i h = ap (λ x. x ∷ []) (ok-injective h)
only-eq (j ∷ (k ∷ is)) i h = absurd (ground arith)

only-fails :
    (is : List AgentImplementation)
    → ((i : AgentImplementation) → is ≢ i ∷ [])
    → only is ≡ err value_error
unfolding only
only-fails [] h = refl
only-fails (j ∷ []) h = absurd (h j refl)
only-fails (j ∷ (k ∷ is)) h = refl

selected_lem :
    (is : List AgentImplementation) (b : ResolvedAgentBinding)
    → select_implementation is b ≡ only (keep (fits b) is)
unfolding select_implementation
selected_lem is b = from (filled b.implementation_ref)
  where
    from :
        (o : Option String)
        → (elim o as (λ _. Result AgentImplementation) [
          | some ref ↦ only (keep (is_named ref) is)
          | none ↦ only (keep (λ (i : AgentImplementation). i.can_handle b) is)
        ])
          ≡ only (
              keep
                (λ (i : AgentImplementation). elim o as (λ _. Bool) [
                  | some ref ↦ is_named ref i
                  | none ↦ i.can_handle b
                ])
                is)
    from none = refl
    from (some ref) = refl

-- An agent's implementation is never guessed. Where exactly one of those registered fits the
-- binding, it is selected; where none fits, or more than one does, the selection raises.
pub select_implementation_iff :
    (is : List AgentImplementation) (b : ResolvedAgentBinding)
    → ((i : AgentImplementation)
        → (select_implementation is b ≡ ok i) ↔ (keep (fits b) is ≡ i ∷ []))
      × (((i : AgentImplementation) → keep (fits b) is ≢ i ∷ [])
          → select_implementation is b ≡ err value_error)
unfolding only
select_implementation_iff is b = (
  λ i. (
    λ h. only-eq (keep (fits b) is) i (sym (selected_lem is b) ∙ h),
    λ e. selected_lem is b ∙ ap only e,
  ),
  λ h. selected_lem is b ∙ only-fails (keep (fits b) is) h,
)
