-- ===== src/Tools/Registry/Meeting.antt =====
-- What it is for a descriptor of a tool to meet a query (src/core/tools/registry.py).
use agent_roles.Common.{
  String, ◌≡◌, ◌↔◌, refl, ap, subst, Bool, true, Option, none, some, List, [], ◌∷◌, elem, all_of,
  arith, ◌=ₛ◌, eq_iff, eq_refl, some-injective, Bool-cases, inl, inr,
}
use agent_roles.State.Models.{SideEffectKind}
use agent_roles.Tools.Models.{ToolTransportKind, ToolApprovalMode, ToolDescriptor, ToolQuery}
use agent_roles.Tools.Registry.{transport_eq, kind_eq, approval_eq, same_provider, meets, matches}

-- A descriptor has what a query names, and every tag that the query lists.
pub record Meets (q : ToolQuery) (d : ToolDescriptor) : Type 0 where
  pub transport : (k : ToolTransportKind) → q.transport_kind ≡ some k → d.transport_kind ≡ k
  pub effect : (k : SideEffectKind) → q.side_effect_kind ≡ some k → d.side_effect_kind ≡ k
  pub approval : (m : ToolApprovalMode) → q.approval_mode ≡ some m → d.approval_mode ≡ m
  pub provider : (p : String) → q.provider_ref ≡ some p → d.provider_ref ≡ some p
  pub tagged : (t : String) → elem t q.tags ≡ true → elem t d.tags ≡ true

same_kind : (j k : SideEffectKind) → (kind_eq j k ≡ true) ↔ (j ≡ k)
same_kind SideEffectKind.read_only SideEffectKind.read_only = (λ _. refl, λ _. refl)
same_kind SideEffectKind.read_only SideEffectKind.local_write =
    (λ h. absurd (ground arith), λ h. absurd (ground arith))
same_kind SideEffectKind.read_only SideEffectKind.external_write =
    (λ h. absurd (ground arith), λ h. absurd (ground arith))
same_kind SideEffectKind.local_write SideEffectKind.read_only =
    (λ h. absurd (ground arith), λ h. absurd (ground arith))
same_kind SideEffectKind.local_write SideEffectKind.local_write = (λ _. refl, λ _. refl)
same_kind SideEffectKind.local_write SideEffectKind.external_write =
    (λ h. absurd (ground arith), λ h. absurd (ground arith))
same_kind SideEffectKind.external_write SideEffectKind.read_only =
    (λ h. absurd (ground arith), λ h. absurd (ground arith))
same_kind SideEffectKind.external_write SideEffectKind.local_write =
    (λ h. absurd (ground arith), λ h. absurd (ground arith))
same_kind SideEffectKind.external_write SideEffectKind.external_write = (λ _. refl, λ _. refl)

same_approval : (j k : ToolApprovalMode) → (approval_eq j k ≡ true) ↔ (j ≡ k)
same_approval ToolApprovalMode.none_mode ToolApprovalMode.none_mode = (λ _. refl, λ _. refl)
same_approval ToolApprovalMode.none_mode ToolApprovalMode.optional =
    (λ h. absurd (ground arith), λ h. absurd (ground arith))
same_approval ToolApprovalMode.none_mode ToolApprovalMode.required =
    (λ h. absurd (ground arith), λ h. absurd (ground arith))
same_approval ToolApprovalMode.optional ToolApprovalMode.none_mode =
    (λ h. absurd (ground arith), λ h. absurd (ground arith))
same_approval ToolApprovalMode.optional ToolApprovalMode.optional = (λ _. refl, λ _. refl)
same_approval ToolApprovalMode.optional ToolApprovalMode.required =
    (λ h. absurd (ground arith), λ h. absurd (ground arith))
same_approval ToolApprovalMode.required ToolApprovalMode.none_mode =
    (λ h. absurd (ground arith), λ h. absurd (ground arith))
same_approval ToolApprovalMode.required ToolApprovalMode.optional =
    (λ h. absurd (ground arith), λ h. absurd (ground arith))
same_approval ToolApprovalMode.required ToolApprovalMode.required = (λ _. refl, λ _. refl)

same_transport : (j k : ToolTransportKind) → (transport_eq j k ≡ true) ↔ (j ≡ k)
same_transport ToolTransportKind.local_function ToolTransportKind.local_function =
    (λ _. refl, λ _. refl)
same_transport ToolTransportKind.local_function ToolTransportKind.http_api =
    (λ h. absurd (ground arith), λ h. absurd (ground arith))
same_transport ToolTransportKind.local_function ToolTransportKind.command =
    (λ h. absurd (ground arith), λ h. absurd (ground arith))
same_transport ToolTransportKind.local_function ToolTransportKind.database =
    (λ h. absurd (ground arith), λ h. absurd (ground arith))
same_transport ToolTransportKind.local_function ToolTransportKind.mcp =
    (λ h. absurd (ground arith), λ h. absurd (ground arith))
same_transport ToolTransportKind.local_function ToolTransportKind.custom =
    (λ h. absurd (ground arith), λ h. absurd (ground arith))
same_transport ToolTransportKind.http_api ToolTransportKind.local_function =
    (λ h. absurd (ground arith), λ h. absurd (ground arith))
same_transport ToolTransportKind.http_api ToolTransportKind.http_api = (λ _. refl, λ _. refl)
same_transport ToolTransportKind.http_api ToolTransportKind.command =
    (λ h. absurd (ground arith), λ h. absurd (ground arith))
same_transport ToolTransportKind.http_api ToolTransportKind.database =
    (λ h. absurd (ground arith), λ h. absurd (ground arith))
same_transport ToolTransportKind.http_api ToolTransportKind.mcp =
    (λ h. absurd (ground arith), λ h. absurd (ground arith))
same_transport ToolTransportKind.http_api ToolTransportKind.custom =
    (λ h. absurd (ground arith), λ h. absurd (ground arith))
same_transport ToolTransportKind.command ToolTransportKind.local_function =
    (λ h. absurd (ground arith), λ h. absurd (ground arith))
same_transport ToolTransportKind.command ToolTransportKind.http_api =
    (λ h. absurd (ground arith), λ h. absurd (ground arith))
same_transport ToolTransportKind.command ToolTransportKind.command = (λ _. refl, λ _. refl)
same_transport ToolTransportKind.command ToolTransportKind.database =
    (λ h. absurd (ground arith), λ h. absurd (ground arith))
same_transport ToolTransportKind.command ToolTransportKind.mcp =
    (λ h. absurd (ground arith), λ h. absurd (ground arith))
same_transport ToolTransportKind.command ToolTransportKind.custom =
    (λ h. absurd (ground arith), λ h. absurd (ground arith))
same_transport ToolTransportKind.database ToolTransportKind.local_function =
    (λ h. absurd (ground arith), λ h. absurd (ground arith))
same_transport ToolTransportKind.database ToolTransportKind.http_api =
    (λ h. absurd (ground arith), λ h. absurd (ground arith))
same_transport ToolTransportKind.database ToolTransportKind.command =
    (λ h. absurd (ground arith), λ h. absurd (ground arith))
same_transport ToolTransportKind.database ToolTransportKind.database = (λ _. refl, λ _. refl)
same_transport ToolTransportKind.database ToolTransportKind.mcp =
    (λ h. absurd (ground arith), λ h. absurd (ground arith))
same_transport ToolTransportKind.database ToolTransportKind.custom =
    (λ h. absurd (ground arith), λ h. absurd (ground arith))
same_transport ToolTransportKind.mcp ToolTransportKind.local_function =
    (λ h. absurd (ground arith), λ h. absurd (ground arith))
same_transport ToolTransportKind.mcp ToolTransportKind.http_api =
    (λ h. absurd (ground arith), λ h. absurd (ground arith))
same_transport ToolTransportKind.mcp ToolTransportKind.command =
    (λ h. absurd (ground arith), λ h. absurd (ground arith))
same_transport ToolTransportKind.mcp ToolTransportKind.database =
    (λ h. absurd (ground arith), λ h. absurd (ground arith))
same_transport ToolTransportKind.mcp ToolTransportKind.mcp = (λ _. refl, λ _. refl)
same_transport ToolTransportKind.mcp ToolTransportKind.custom =
    (λ h. absurd (ground arith), λ h. absurd (ground arith))
same_transport ToolTransportKind.custom ToolTransportKind.local_function =
    (λ h. absurd (ground arith), λ h. absurd (ground arith))
same_transport ToolTransportKind.custom ToolTransportKind.http_api =
    (λ h. absurd (ground arith), λ h. absurd (ground arith))
same_transport ToolTransportKind.custom ToolTransportKind.command =
    (λ h. absurd (ground arith), λ h. absurd (ground arith))
same_transport ToolTransportKind.custom ToolTransportKind.database =
    (λ h. absurd (ground arith), λ h. absurd (ground arith))
same_transport ToolTransportKind.custom ToolTransportKind.mcp =
    (λ h. absurd (ground arith), λ h. absurd (ground arith))
same_transport ToolTransportKind.custom ToolTransportKind.custom = (λ _. refl, λ _. refl)

same_name : (p : Option String) (q : String) → (same_provider p q ≡ true) ↔ (p ≡ some q)
same_name none q = (λ h. absurd (ground arith), λ h. absurd (ground arith))
same_name (some p) q = (λ h. ap some ((eq_iff p q).0 h), λ h. (eq_iff p q).1 (some-injective h))

meets_iff :
    {A : Type 0} (o : Option A) (test : A → Bool) (P : A → Type 0)
    → ((a : A) → (test a ≡ true) ↔ P a)
    → (meets o test ≡ true) ↔ ((a : A) → o ≡ some a → P a)
meets_iff none test P f = (λ _ a e. absurd (ground arith), λ _. refl)
meets_iff (some x) test P f =
    (λ h a e. subst P (some-injective e) ((f x).0 h), λ h. (f x).1 (h x refl))

all_of-elem :
    (xs ys : List String)
    → (all_of (λ t. elem t ys) xs ≡ true) ↔ ((t : String) → elem t xs ≡ true → elem t ys ≡ true)
all_of-elem [] ys = (λ _ t e. absurd (ground arith), λ _. refl)
all_of-elem (x ∷ xs) ys =
    let rest = all_of-elem xs ys in
    (
      λ h t e. elim (Bool-cases (x =ₛ t)) [
        | inl same ↦ subst (λ y. elem y ys ≡ true) ((eq_iff x t).0 same) (ground arith)
        | inr other ↦ rest.0 (ground arith) t (ground arith)
      ],
      λ h. ground (arith, h x (ground (arith, eq_refl x)), rest.1 (λ t e. h t (ground arith))),
    )

-- The tests of the loop are those conditions.
pub matches_iff : (q : ToolQuery) (d : ToolDescriptor) → (matches q d ≡ true) ↔ Meets q d
unfolding matches
matches_iff q d =
    let t =
      meets_iff q.transport_kind (transport_eq d.transport_kind) (λ k. d.transport_kind ≡ k)
        (same_transport d.transport_kind) in
    let e =
      meets_iff q.side_effect_kind (kind_eq d.side_effect_kind) (λ k. d.side_effect_kind ≡ k)
        (same_kind d.side_effect_kind) in
    let a =
      meets_iff q.approval_mode (approval_eq d.approval_mode) (λ k. d.approval_mode ≡ k)
        (same_approval d.approval_mode) in
    let p =
      meets_iff q.provider_ref (same_provider d.provider_ref) (λ k. d.provider_ref ≡ some k)
        (same_name d.provider_ref) in
    let g = all_of-elem q.tags d.tags in
    (
      λ h. record {
        transport = t.0 (ground arith);
        effect = e.0 (ground arith);
        approval = a.0 (ground arith);
        provider = p.0 (ground arith);
        tagged = g.0 (ground arith);
      },
      λ m.
          ground
            (arith, t.1 m.transport, e.1 m.effect, a.1 m.approval, p.1 m.provider, g.1 m.tagged),
    )
