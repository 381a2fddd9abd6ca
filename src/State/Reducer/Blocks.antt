-- ===== src/State/Reducer/Blocks.antt =====
-- One rule for invariants of `StateReducer.apply` (src/core/state/reducers.py): what each of its
-- blocks keeps, the whole keeps.
use agent_roles.Common.{String, ◌≡◌, List, ok, fold_result, fold_result-keeps, >>=-eq-ok}
use agent_roles.State.Models.{ReducedSnapshot}
use agent_roles.State.Patch.{StatePatch, NodeStateUpdate}
use agent_roles.State.Reducer.{
  apply, apply_records, upsert_node, update_node, create_artifacts, create_interrupts,
  update_interrupts, create_decision, create_side_effect,
}

-- Every block of the run of patch `p` keeps `P`.
pub record Blocks (p : StatePatch) (P : ReducedSnapshot → Type 0) : Type 0 where
  pub records : (s t : ReducedSnapshot) → P s → apply_records p s ≡ ok t → P t
  pub upsert :
      (s t : ReducedSnapshot) → P s → fold_result upsert_node s p.node_states_to_upsert ≡ ok t → P t
  pub update :
      (s : ReducedSnapshot) (u : String × List NodeStateUpdate) (t : ReducedSnapshot)
      → P s
      → update_node s u ≡ ok t
      → P t
  pub artifacts : (s t : ReducedSnapshot) → P s → create_artifacts p s ≡ ok t → P t
  pub interrupts : (s t : ReducedSnapshot) → P s → create_interrupts p s ≡ ok t → P t
  pub resolutions :
      (s t : ReducedSnapshot) → P s → update_interrupts p.interrupt_updates s ≡ ok t → P t
  pub decisions :
      (s t : ReducedSnapshot)
      → P s
      → fold_result create_decision s p.policy_decisions_to_create ≡ ok t
      → P t
  pub side_effects :
      (s t : ReducedSnapshot)
      → P s
      → fold_result create_side_effect s p.side_effects_to_create ≡ ok t
      → P t

pub apply-keeps :
    (p : StatePatch) (P : ReducedSnapshot → Type 0)
    → Blocks p P
    → (s t : ReducedSnapshot) → P s
    → apply s p ≡ ok t
    → P t
unfolding apply
apply-keeps p P b s t k h =
    let (s₁, e₁, h₁) = >>=-eq-ok (apply_records p s) _ h in
    let (s₂, e₂, h₂) = >>=-eq-ok (fold_result upsert_node s₁ p.node_states_to_upsert) _ h₁ in
    let (s₃, e₃, h₃) = >>=-eq-ok (fold_result update_node s₂ p.node_state_updates) _ h₂ in
    let (s₄, e₄, h₄) = >>=-eq-ok (create_artifacts p s₃) _ h₃ in
    let (s₅, e₅, h₅) = >>=-eq-ok (create_interrupts p s₄) _ h₄ in
    let (s₆, e₆, h₆) = >>=-eq-ok (update_interrupts p.interrupt_updates s₅) _ h₅ in
    let (s₇, e₇, e₈) =
      >>=-eq-ok (fold_result create_decision s₆ p.policy_decisions_to_create) _ h₆ in
    let k₁ = b.records s s₁ k e₁ in
    let k₂ = b.upsert s₁ s₂ k₁ e₂ in
    let k₃ = fold_result-keeps P update_node b.update s₂ p.node_state_updates s₃ k₂ e₃ in
    let k₄ = b.artifacts s₃ s₄ k₃ e₄ in
    let k₅ = b.interrupts s₄ s₅ k₄ e₅ in
    let k₆ = b.resolutions s₅ s₆ k₅ e₆ in
    let k₇ = b.decisions s₆ s₇ k₆ e₇ in b.side_effects s₇ t k₇ e₈
