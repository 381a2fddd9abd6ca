-- ===== src/Executors/Flow.antt =====
-- The nodes that compute on values alone (src/core/executors/basic.py): `_execute_noop`,
-- `_execute_condition` and, once the state of the run is read, `_execute_merge`. The annotations
-- ask that an output is a dict or None: of another value the model raises `type_error`.
pub mod Merging
use Prim.Native.String.{◌++◌ as join}
use agent_roles.Common.{
  ℕ, suc, String, Bool, true, false, Option, none, some, List, [], ◌∷◌, Result, ok, err,
  value_error, type_error, attribute_error, ◌>>=◌, ◌=ₛ◌, if◌then◌else◌, length,
}
use agent_roles.Common.Dict.{get}
use agent_roles.Value.{pos, negsuc, Value, Items, Fields, nil, cons, end, field, fget, fput, fsize}
use agent_roles.State.Models.{NodeStatus, InterruptRecord, ReducedSnapshot, ArtifactRecord}
use agent_roles.Workflow.Models.{EdgeSpec, MergeMode, MergeStrategySpec}
use agent_roles.Events.Models.{decimal}
use agent_roles.Selector.Paths.{optional_text, extract_path}
use agent_roles.Runtime.Context.{ExecutionContext, NodeExecutionResult}
use agent_roles.Executors.Conditions.{truthy, evaluate_condition}

abbrev pub result_of : NodeStatus → Option Fields → List InterruptRecord → NodeExecutionResult
result_of status output interrupts = record {
  status = status;
  output = output;
  artifact_type = none;
  artifact = none;
  interrupts = interrupts;
  error_code = none;
  error_message = none;
  policy_decisions = [];
  side_effects = [];
  next_hints = end;
  metadata = end;
}

abbrev pub succeeds : Option Fields → NodeExecutionResult
succeeds output = result_of NodeStatus.succeeded output []

abbrev as_output : Value → Result (Option Fields)
as_output Value.null = ok none
as_output (Value.dict d) = ok (some d)
as_output _ = err type_error

abbrev value_or : Value → Option Value → Value
value_or default none = default
value_or default (some v) = v

-- `_execute_noop`
unfoldable pub execute_noop : ExecutionContext → Result NodeExecutionResult
execute_noop c = elim (fget c.node_spec.config "output") [
  | some v ↦ as_output v >>= λ o. ok (succeeds o)
  | none ↦ ok (
      succeeds (
        some (
          if truthy (value_or (Value.bool true) (fget c.node_spec.config "emit_input"))
          then c.selected_input
          else end)))
]

-- A configured path: None, or a text, which alone has `split`.
abbrev as_path : Option Value → Result (Option String)
as_path none = ok none
as_path (some Value.null) = ok none
as_path (some (Value.text s)) = ok (some s)
as_path (some _) = err attribute_error

-- `str(value)`, as far as it may name an operator.
abbrev operator_text : Option Value → String
operator_text none = "truthy"
operator_text (some (Value.text s)) = s
operator_text (some _) = ""

-- `branches.get(key)`
abbrev branch_of : Option Value → String → Result Value
branch_of none key = ok Value.null
branch_of (some (Value.dict d)) key = ok (value_or Value.null (fget d key))
branch_of (some _) key = err attribute_error

abbrev branch_key : Bool → String
branch_key true = "true"
branch_key false = "false"

-- `_execute_condition`
unfoldable pub execute_condition : ExecutionContext → Result NodeExecutionResult
execute_condition c = do
  path ← as_path (fget c.node_spec.config "operand_path")
  actual ← extract_path (Value.dict c.selected_input) path
  let operator = operator_text (fget c.node_spec.config "operator")
  let expected = value_or Value.null (fget c.node_spec.config "value")
  matched ← evaluate_condition actual operator expected
  branch ← branch_of (fget c.node_spec.config "branches") (branch_key matched)
  ok (
      succeeds (
        some (
          field "matched" (Value.bool matched) (
            field "operator" (Value.text operator) (
              field "expected" expected
                (field "actual" actual (field "selected_branch" branch end)))))))

-- What a node upstream hands on: the inline payload of its output, or a note of where it is.
abbrev pub payload_of : ArtifactRecord → Fields
payload_of a = elim a.payload_inline [
  | some d ↦ d
  | none ↦ field "payload_ref" (optional_text a.payload_ref) (
      field "summary" (optional_text a.summary)
        (field "artifact_type" (Value.text a.artifact_type) end))
]

abbrev pub and_then : {A B : Type 0} → Option A → (A → Option B) → Option B
and_then none f = none
and_then (some a) f = f a

-- The output of the node that an edge comes from, if it has one on file.
unfoldable pub upstream_payload : ReducedSnapshot → EdgeSpec → Option Fields
upstream_payload s e = and_then (get s.node_states e.from_node_id) (λ n.
    and_then n.output_artifact_id (λ id. and_then (get s.artifacts id) (λ a. some (payload_of a))))

-- The loop over the incoming edges: each item names its node.
unfoldable pub merge_items : ReducedSnapshot → List EdgeSpec → List (String × Fields)
merge_items s [] = []
merge_items s (e ∷ es) =
    let rest = merge_items s es in
    elim (upstream_payload s e) [ none ↦ rest | some d ↦ (e.from_node_id, d) ∷ rest ]

abbrev pub item_values : List (String × Fields) → Items
item_values [] = nil
item_values ((id, d) ∷ xs) =
    cons (Value.dict (field "node_id" (Value.text id) (field "payload" (Value.dict d) end)))
      (item_values xs)

abbrev number_value : ℕ → Value
number_value n = Value.int (pos n)

abbrev pub edges_or_none : Option (List EdgeSpec) → List EdgeSpec
edges_or_none none = []
edges_or_none (some es) = es

-- `repr` of a list, a dict or an instance is Python's, and a parameter.
module _ (repr : Value → String) where
  -- `str(value)`
  unfoldable pub str_of : Value → String
  str_of Value.null = "None"
  str_of (Value.bool true) = "True"
  str_of (Value.bool false) = "False"
  str_of (Value.int (pos n)) = decimal n
  str_of (Value.int (negsuc n)) = join "-" (decimal (suc n))
  str_of (Value.text s) = s
  str_of v = repr v

  -- `merged[str(key)] = payload`, over the items.
  unfoldable pub key_items : String → List (String × Fields) → Fields → Result Fields
  key_items key_field [] merged = ok merged
  key_items key_field ((id, d) ∷ xs) merged = do
    key ← extract_path (Value.dict d) (some key_field)
    key_items key_field xs (fput merged (str_of key) (Value.dict d))

  abbrev pub keyed_result : Fields → NodeExecutionResult
  keyed_result merged = succeeds (
      some (
        field "items_by_key" (Value.dict merged) (field "count" (number_value (fsize merged)) end)))

  unfoldable pub merge_keyed : Option String → List (String × Fields) → Result NodeExecutionResult
  merge_keyed none items = err value_error
  merge_keyed (some key_field) items =
      if key_field =ₛ ""
      then err value_error
      else (key_items key_field items end >>= λ merged. ok (keyed_result merged))

  -- The three modes of a strategy.
  unfoldable pub merge_by :
      MergeMode → Option String → List (String × Fields) → Result NodeExecutionResult
  merge_by MergeMode.collect_list key_field items = ok (
      succeeds (
        some (
          field "items" (Value.arr (item_values items))
            (field "count" (number_value (length items)) end))))
  merge_by MergeMode.keyed_map key_field items = merge_keyed key_field items
  merge_by MergeMode.custom_ref key_field items = err value_error

  -- `_execute_merge`, after the state of the run has been read.
  unfoldable pub execute_merge :
      ExecutionContext → MergeStrategySpec → ReducedSnapshot → Result NodeExecutionResult
  execute_merge c strategy s =
      merge_by strategy.mode strategy.key_field
        (merge_items s (edges_or_none (get c.workflow.incoming_edges c.node_state.node_id)))
