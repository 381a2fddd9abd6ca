-- ===== src/Workflow/Compiler.antt =====
-- `WorkflowCompiler` (src/core/workflow/compiler.py). Its copies are values here.
pub mod Cycles
pub mod Graphs
pub mod Nodes
use agent_roles.Common.{
  ℕ, zero, suc, String, ◌≡◌, refl, Bool, true, false, not, ◌&&◌, ◌||◌, Option, none, some, List, [],
  ◌∷◌, ◌++◌, Result, ok, err, Error, key_error, value_error, compile_error, ◌>>=◌, ◌>>◌, ◌=ₛ◌, ltb,
  if◌then◌else◌, or_raise, raise_if, require, fold_result, elem, without, length, is_some, is_empty,
}
use agent_roles.Common.Dict.{Dict, get, put, contains, keys}
use agent_roles.Workflow.Models.{
  NodeSpec, EdgeSpec, RetryPolicy, TimeoutPolicy, JoinPolicy, TerminalCondition, WorkflowDefinition,
  CompiledWorkflow, is_merge, is_human_gate, is_quorum, is_explicit_node, compiled_valid,
}
use agent_roles.Workflow.Compiler.Cycles.{contains_cycle}

-- `x if x is not None else default`
abbrev or_default : {A : Type 0} → Option A → Option A → Option A
or_default none d = d
or_default (some a) d = some a

abbrev pub with_defaults : WorkflowDefinition → NodeSpec → NodeSpec
with_defaults d n = record n {
  retry_policy = or_default n.retry_policy d.default_retry_policy;
  timeout_policy = or_default n.timeout_policy d.default_timeout_policy;
}

-- `_materialize_node_map`
unfoldable pub materialize_node_map :
    WorkflowDefinition → List NodeSpec → Dict NodeSpec → Dict NodeSpec
materialize_node_map d [] m = m
materialize_node_map d (n ∷ ns) m = materialize_node_map d ns (put m n.node_id (with_defaults d n))

-- `{node_id: [] for node_id in node_map}`
unfoldable pub no_edges : List String → Dict (List EdgeSpec) → Dict (List EdgeSpec)
no_edges [] d = d
no_edges (id ∷ ids) d = no_edges ids (put d id [])

-- `edges[node_id].append(edge)`
unfoldable pub append_edge :
    Dict (List EdgeSpec) → String → EdgeSpec → Result (Dict (List EdgeSpec))
append_edge d node_id e =
    or_raise (get d node_id) key_error >>= λ es. ok (put d node_id (es ++ e ∷ []))

-- `_validate_edge_reference`
unfoldable pub validate_edge_reference : Dict NodeSpec → EdgeSpec → Result (Unit {0})
validate_edge_reference m e = do
  require (contains m e.from_node_id) compile_error
  require (contains m e.to_node_id) compile_error

-- The two dicts that the loop over the edges fills.
pub record EdgeMaps : Type 0 where
  pub outgoing : Dict (List EdgeSpec)
  pub incoming : Dict (List EdgeSpec)

unfoldable pub add_edge : Dict NodeSpec → EdgeMaps → EdgeSpec → Result EdgeMaps
add_edge m s e = do
  validate_edge_reference m e
  outgoing ← append_edge s.outgoing e.from_node_id e
  incoming ← append_edge s.incoming e.to_node_id e
  ok (record { outgoing = outgoing; incoming = incoming })

abbrev names_node : Dict NodeSpec → Option String → Bool
names_node m none = false
names_node m (some id) = contains m id

-- `_validate_terminal_conditions`
unfoldable pub validate_terminal_conditions :
    Dict NodeSpec → List TerminalCondition → Result (Unit {0})
validate_terminal_conditions m [] = ok tt
validate_terminal_conditions m (c ∷ cs) = do
  raise_if (is_explicit_node c.condition_type && not (names_node m c.node_id)) compile_error
  validate_terminal_conditions m cs

-- A quorum that the incoming edges cannot reach.
abbrev quorum_too_large : Option JoinPolicy → List EdgeSpec → Bool
quorum_too_large none incoming = false
quorum_too_large (some p) incoming = elim p.quorum_size [
  | none ↦ false
  | some q ↦ is_quorum p.join_kind && (not (is_empty incoming) && ltb (length incoming) q)
]

unfoldable pub validate_node : Dict (List EdgeSpec) → String × NodeSpec → Result (Unit {0})
validate_node incoming_edges (id, n) = do
  incoming ← or_raise (get incoming_edges id) key_error
  raise_if (is_merge n.node_type && is_empty incoming) compile_error
  raise_if (is_human_gate n.node_type && not (is_some n.approval_policy)) compile_error
  raise_if (quorum_too_large n.join_policy incoming) compile_error

-- `_validate_node_constraints`
unfoldable pub validate_node_constraints : Dict (List EdgeSpec) → Dict NodeSpec → Result (Unit {0})
validate_node_constraints incoming_edges [] = ok tt
validate_node_constraints incoming_edges (n ∷ m) = do
  validate_node incoming_edges n
  validate_node_constraints incoming_edges m

-- `self._cache`, whose keys are pairs of an id and a version.
abbrev pub Cache : Type 0
Cache = List (String × String × CompiledWorkflow)

unfoldable pub cached : Cache → String → String → Option CompiledWorkflow
cached [] id version = none
cached ((i, v, w) ∷ c) id version =
    if (i =ₛ id) && (v =ₛ version) then some w else cached c id version

unfoldable pub remember : Cache → String → String → CompiledWorkflow → Cache
remember [] id version w = (id, version, w) ∷ []
remember ((i, v, x) ∷ c) id version w =
    if (i =ₛ id) && (v =ₛ version) then (i, v, w) ∷ c else (i, v, x) ∷ remember c id version w

-- `CompiledWorkflow(...)` with its `__post_init__`.
abbrev pub checked_workflow : CompiledWorkflow → Result CompiledWorkflow
checked_workflow w = if compiled_valid w then ok w else err value_error

abbrev pub workflow_of : WorkflowDefinition → Dict NodeSpec → EdgeMaps → Bool → CompiledWorkflow
workflow_of d m edges cyclic = record {
  workflow_id = d.workflow_id;
  workflow_version = d.workflow_version;
  entry_node_id = d.entry_node_id;
  node_map = m;
  outgoing_edges = edges.outgoing;
  incoming_edges = edges.incoming;
  allow_cycles = d.allow_cycles;
  contains_cycles = cyclic;
  terminal_conditions = d.terminal_conditions;
}

-- `compile` from the loop over the edges on.
unfoldable pub compile_graph :
    WorkflowDefinition → Dict NodeSpec → EdgeMaps → Result CompiledWorkflow
compile_graph d m edges = do
  validate_terminal_conditions m d.terminal_conditions
  validate_node_constraints edges.incoming m
  cyclic ← contains_cycle (keys m) edges.outgoing
  raise_if (cyclic && not d.allow_cycles) compile_error
  raise_if (cyclic && is_empty d.terminal_conditions) compile_error
  checked_workflow (workflow_of d m edges cyclic)

-- The loop of `compile` over the edges.
unfoldable pub collect_edges : Dict NodeSpec → List EdgeSpec → Result EdgeMaps
collect_edges m es =
    fold_result (add_edge m)
      (record { outgoing = no_edges (keys m) []; incoming = no_edges (keys m) [] }) es

-- `compile` where the cache holds nothing for the definition.
unfoldable pub compile_definition : WorkflowDefinition → Result CompiledWorkflow
compile_definition d =
    let m = materialize_node_map d d.node_specs [] in
    collect_edges m d.edge_specs >>= λ edges. compile_graph d m edges

-- `compile(definition)`, with the cache in use.
unfoldable pub compile : WorkflowDefinition → Cache → Result (CompiledWorkflow × Cache)
compile d c = elim (cached c d.workflow_id d.workflow_version) [
  | some w ↦ ok (w, c)
  | none ↦ compile_definition d >>= λ w. ok (w, remember c d.workflow_id d.workflow_version w)
]

-- `invalidate(workflow_id, version)`
unfoldable pub invalidate : String → Option String → Cache → Cache
invalidate id version [] = []
invalidate id version ((i, v, w) ∷ c) =
    let rest = invalidate id version c in
    if (i =ₛ id) && elim version [ none ↦ true | some x ↦ v =ₛ x ] then rest else (i, v, w) ∷ rest
