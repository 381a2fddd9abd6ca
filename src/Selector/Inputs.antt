-- ===== src/Selector/Inputs.antt =====
-- `select_node_input` and the sources that it resolves (src/core/state/selectors.py).
use agent_roles.Common.{
  String, Bool, false, ◌&&◌, Option, none, some, List, [], ◌∷◌, Result, ok, err, key_error,
  value_error, type_error, ◌>>=◌, ◌=ₛ◌, if◌then◌else◌, or_raise, is_some, keep, last?, ltb,
}
use agent_roles.Common.Dict.{get, values}
use agent_roles.Value.{Value, Fields, end, field, fget, update}
use agent_roles.State.Models.{ReducedSnapshot, ArtifactRecord, InterruptRecord}
use agent_roles.Workflow.Models.{InputSource, InputSelector, InputSourceType, MergeStrategyKind}
use agent_roles.Executors.Conditions.{is_in}
use agent_roles.Selector.Paths.{
  extract_path, deep_merge, artifact_payload, thread_state_value, run_state_value,
}

-- `len(matches) == 1`, no match, or several.
abbrev pub only_match : List ArtifactRecord → Result ArtifactRecord
only_match [] = err key_error
only_match (a ∷ []) = ok a
only_match (a ∷ (b ∷ as')) = err value_error

-- `_find_artifact`
unfoldable pub find_artifact : ReducedSnapshot → String → Result ArtifactRecord
find_artifact s source_ref = elim (get s.artifacts source_ref) [
  | some a ↦ ok a
  | none ↦ only_match (keep (λ a. a.producer_node_id =ₛ source_ref) (values s.artifacts))
]

-- The first of the latest: `matches.sort(key=created_at, reverse=True); matches[0]`.
abbrev pub latest_of : InterruptRecord → List InterruptRecord → InterruptRecord
latest_of best [] = best
latest_of best (i ∷ is) = latest_of (if ltb best.created_at i.created_at then i else best) is

abbrev pub latest_match : List InterruptRecord → Option InterruptRecord
latest_match [] = none
latest_match (i ∷ is) = some (latest_of i is)

abbrev pub is_for_node : Option String → String → Bool
is_for_node none node_id = false
is_for_node (some n) node_id = n =ₛ node_id

-- `interrupt.resolution_payload or {}`
abbrev pub payload_or_empty : Option Fields → Fields
payload_or_empty none = end
payload_or_empty (some d) = d

-- `_find_interrupt_resolution`
unfoldable pub find_interrupt_resolution : ReducedSnapshot → String → Result Fields
find_interrupt_resolution s source_ref = elim (get s.interrupts source_ref) [
  | some i ↦ or_raise i.resolution_payload key_error
  | none ↦
      elim (latest_match (
        keep (λ i. is_for_node i.node_id source_ref && is_some i.resolution_payload)
          (values s.interrupts))) [
            | none ↦ err key_error
            | some i ↦ ok (payload_or_empty i.resolution_payload)
          ]
]

-- `snapshot.run_state.extensions.get("memory_results", {})`
abbrev pub memory_results : Fields → Value
memory_results extensions = elim (fget extensions "memory_results") [
  | none ↦ Value.dict end
  | some v ↦ v
]

-- `if source.source_ref not in cached: raise KeyError`, and `cached[source.source_ref]`, which
-- takes a dict.
unfoldable pub find_memory : Value → String → Result Value
find_memory (Value.dict d) source_ref = or_raise (fget d source_ref) key_error
find_memory cached source_ref =
    is_in (Value.text source_ref) cached >>= λ found. err (if found then type_error else key_error)

abbrev pub resolve_required : ReducedSnapshot → InputSource → InputSourceType → Result Value
resolve_required s src InputSourceType.thread_state =
    extract_path (thread_state_value s.thread_state) src.path
resolve_required s src InputSourceType.run_state =
    extract_path (run_state_value s.run_state) src.path
resolve_required s src InputSourceType.artifact =
    find_artifact s src.source_ref >>= λ a. extract_path (artifact_payload a) src.path
resolve_required s src InputSourceType.literal = ok (Value.text src.source_ref)
resolve_required s src InputSourceType.interrupt_resolution =
    find_interrupt_resolution s src.source_ref >>= λ d. extract_path (Value.dict d) src.path
resolve_required s src InputSourceType.memory_result =
    find_memory (memory_results s.run_state.extensions) src.source_ref >>= λ v.
    extract_path v src.path

-- `except Exception: if source.required: raise; return None`
abbrev pub unless_required : Bool → Result Value → Result Value
unless_required required (ok v) = ok v
unless_required required (err e) = if required then err e else ok Value.null

-- `_resolve_input_source`
unfoldable pub resolve_input_source : ReducedSnapshot → InputSource → Result Value
resolve_input_source s src = unless_required src.required (resolve_required s src src.source_type)

unfoldable pub resolve_all : ReducedSnapshot → List InputSource → Result (List Value)
resolve_all s [] = ok []
resolve_all s (src ∷ srcs) = do v ← resolve_input_source s src; vs ← resolve_all s srcs; ok (v ∷ vs)

-- A dict as it is, and anything else under the key `value`.
abbrev pub as_dict : Value → Fields
as_dict (Value.dict d) = d
as_dict v = field "value" v end

abbrev pub require_dict : Value → Result Fields
require_dict (Value.dict d) = ok d
require_dict _ = err value_error

unfoldable pub merge_all : (Fields → Fields → Fields) → Fields → List Value → Result Fields
merge_all f merged [] = ok merged
merge_all f merged (v ∷ vs) = require_dict v >>= λ d. merge_all f (f merged d) vs

-- A selector has a source, by its `__post_init__`.
unfoldable pub merge_values : MergeStrategyKind → List Value → Result Fields
merge_values MergeStrategyKind.replace vs = or_raise (last? vs) value_error >>= λ v. ok (as_dict v)
merge_values MergeStrategyKind.shallow_merge vs = merge_all update end vs
merge_values MergeStrategyKind.deep_merge vs = merge_all deep_merge end vs

unfoldable pub select_node_input : ReducedSnapshot → InputSelector → Result Fields
select_node_input s sel = resolve_all s sel.sources >>= λ vs. merge_values sel.merge_strategy vs
