-- ===== src/Agents/Bindings/Extension.antt =====
-- `ResolvedWorkflowBindings.from_extension_map` (src/core/agents/bindings.py).
use agent_roles.Common.{◌≡◌, refl, true, [], ◌∷◌, All, Result, ok, ◌>>=◌}
use agent_roles.Common.Dict.{Dict, values}
use agent_roles.Value.{Value, Fields, end, field, fget}
use agent_roles.State.Validation.{non_empty}
use agent_roles.Agents.Bindings.{
  ResolvedAgentBinding, ResolvedWorkflowBindings, binding_valid, value_or, as_map, required_text,
  from_map, bindings_map, to_extension_map, checked_bindings, from_map-to_map,
}

-- `{node_id: ResolvedAgentBinding.from_map(payload) for node_id, payload in ...}`
unfoldable read_bindings : Fields → Result (Dict ResolvedAgentBinding)
read_bindings end = ok []
read_bindings (field k v d) =
    let later = read_bindings d in
    do payload ← as_map v; b ← from_map payload; bs ← later; ok ((k, b) ∷ bs)

unfoldable from_extension_map : Fields → Result ResolvedWorkflowBindings
from_extension_map d = do
  workflow_id ← required_text d "workflow_id"
  version ← required_text d "workflow_version"
  by_node ← as_map (value_or (fget d "agent_bindings_by_node") (Value.dict end))
  bindings ← read_bindings by_node
  metadata ← as_map (value_or (fget d "metadata") (Value.dict end))
  checked_bindings (record {
    workflow_id = workflow_id;
    workflow_version = version;
    agent_bindings_by_node = bindings;
    metadata = metadata;
  })

abbrev AllSound : Dict ResolvedAgentBinding → Type 0
AllSound bs = All (λ b. binding_valid b ≡ true) (values bs)

read_bindings-bindings_map :
    (bs : Dict ResolvedAgentBinding) → AllSound bs → read_bindings (bindings_map bs) ≡ ok bs
unfolding read_bindings bindings_map
read_bindings-bindings_map [] a = refl
read_bindings-bindings_map ((k, b) ∷ bs) a =
    rw (from_map-to_map b a.0, read_bindings-bindings_map bs a.1) refl

-- The bindings of a workflow are read back from the extensions of a run as they were.
from_extension_map-to_extension_map :
    (b : ResolvedWorkflowBindings)
    → non_empty b.workflow_id ≡ true
    → non_empty b.workflow_version ≡ true
    → AllSound b.agent_bindings_by_node
    → from_extension_map (to_extension_map b) ≡ ok b
unfolding from_extension_map to_extension_map fget checked_bindings
from_extension_map-to_extension_map b i v a =
    rw (read_bindings-bindings_map b.agent_bindings_by_node a, i, v) refl
