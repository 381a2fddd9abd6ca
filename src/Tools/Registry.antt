-- ===== src/Tools/Registry.antt =====
-- `InMemoryToolRegistry` (src/core/tools/registry.py).
pub mod Meeting
pub mod Laws
use agent_roles.Common.{
  ℕ, String, Bool, true, false, not, ◌&&◌, Option, none, some, List, [], ◌∷◌, Result, ok,
  value_error, ◌>>=◌, ◌>>◌, raise_if, elem, all_of, text_lt, ◌=ₛ◌, if◌then◌else◌, is_some,
}
use agent_roles.Common.Dict.{Dict, get, put, keys, contains}
use agent_roles.State.Models.{SideEffectKind}
use agent_roles.Scheduler.{sorted}
use agent_roles.Tools.Models.{ToolTransportKind, ToolApprovalMode, ToolDescriptor, ToolQuery}

abbrev pub ToolRegistry : Type 0
ToolRegistry = Dict ToolDescriptor

-- `register`
unfoldable pub register : ToolDescriptor → ToolRegistry → Result ToolRegistry
register d r = do raise_if (contains r d.tool_ref) value_error; ok (put r d.tool_ref d)

abbrev pub transport_eq : ToolTransportKind → ToolTransportKind → Bool
transport_eq ToolTransportKind.local_function ToolTransportKind.local_function = true
transport_eq ToolTransportKind.http_api ToolTransportKind.http_api = true
transport_eq ToolTransportKind.command ToolTransportKind.command = true
transport_eq ToolTransportKind.database ToolTransportKind.database = true
transport_eq ToolTransportKind.mcp ToolTransportKind.mcp = true
transport_eq ToolTransportKind.custom ToolTransportKind.custom = true
transport_eq _ _ = false

abbrev pub kind_eq : SideEffectKind → SideEffectKind → Bool
kind_eq SideEffectKind.read_only SideEffectKind.read_only = true
kind_eq SideEffectKind.local_write SideEffectKind.local_write = true
kind_eq SideEffectKind.external_write SideEffectKind.external_write = true
kind_eq _ _ = false

abbrev pub approval_eq : ToolApprovalMode → ToolApprovalMode → Bool
approval_eq ToolApprovalMode.none_mode ToolApprovalMode.none_mode = true
approval_eq ToolApprovalMode.optional ToolApprovalMode.optional = true
approval_eq ToolApprovalMode.required ToolApprovalMode.required = true
approval_eq _ _ = false

-- `provider_ref != query.provider_ref`, where the query has one.
abbrev pub same_provider : Option String → String → Bool
same_provider none q = false
same_provider (some p) q = p =ₛ q

-- What a query does not name, every descriptor meets.
abbrev pub meets : {A : Type 0} → Option A → (A → Bool) → Bool
meets none test = true
meets (some a) test = test a

-- The tests of the loop of `list`.
unfoldable pub matches : ToolQuery → ToolDescriptor → Bool
matches q d =
    meets q.transport_kind (transport_eq d.transport_kind)
    && (meets q.side_effect_kind (kind_eq d.side_effect_kind)
        && (meets q.approval_mode (approval_eq d.approval_mode)
            && (meets q.provider_ref (same_provider d.provider_ref)
                && all_of (λ t. elem t d.tags) q.tags)))

-- The loop of `list` over the sorted references, each of which is in the dict.
unfoldable pub listed : ToolQuery → ToolRegistry → List String → List ToolDescriptor
listed q r [] = []
listed q r (ref ∷ refs) =
    let rest = listed q r refs in
    elim (get r ref) [ none ↦ rest | some d ↦ if matches q d then d ∷ rest else rest ]

-- `list`
unfoldable pub list_tools : ToolQuery → ToolRegistry → List ToolDescriptor
list_tools q r = listed q r (sorted text_lt (keys r))
