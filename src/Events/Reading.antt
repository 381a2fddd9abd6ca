-- ===== src/Events/Reading.antt =====
-- `trace_context_from_map` (src/core/events/tracing.py), and `get` of the store of events.
use agent_roles.Common.{
  String, ◌≡◌, refl, ap, ◌∙◌, true, Option, none, some, Result, ok, err, value_error, if◌then◌else◌,
}
use agent_roles.Common.Dict.{get}
use agent_roles.Value.{Value, Fields, end, fget}
use agent_roles.Events.Models.{TraceContext, text_or_null, to_map, trace_valid, RuntimeEvent}
use agent_roles.Events.Store.{EventStore}

-- `x if isinstance(x, str) else None`
abbrev as_str : Option Value → Option String
as_str (some (Value.text s)) = some s
as_str _ = none

-- `dict(x or {}) if isinstance(x, dict) else {}`
abbrev as_attributes : Option Value → Fields
as_attributes (some (Value.dict d)) = d
as_attributes _ = end

abbrev checked_trace : TraceContext → Result (Option TraceContext)
checked_trace t = if trace_valid (some t) then ok (some t) else err value_error

abbrev trace_of : Option String → Option String → Fields → Result (Option TraceContext)
trace_of (some trace_id) (some span_id) d = checked_trace (record {
  trace_id = trace_id;
  span_id = span_id;
  parent_span_id = as_str (fget d "parent_span_id");
  scope = as_str (fget d "scope");
  attributes = as_attributes (fget d "attributes");
})
trace_of _ _ d = ok none

-- `trace_context_from_map`; an empty dict has no trace id.
unfoldable trace_context_from_map : Option Fields → Result (Option TraceContext)
trace_context_from_map none = ok none
trace_context_from_map (some d) =
    trace_of (as_str (fget d "trace_id")) (as_str (fget d "span_id")) d

as_str-text_or_null : (o : Option String) → as_str (some (text_or_null o)) ≡ o
as_str-text_or_null none = refl
as_str-text_or_null (some s) = refl

-- A trace context that passes its checks is read back from its dict.
trace_context_from_map-to_map :
    (t : TraceContext)
    → trace_valid (some t) ≡ true
    → trace_context_from_map (some (to_map t)) ≡ ok (some t)
unfolding trace_context_from_map to_map fget
trace_context_from_map-to_map t v =
    ap
      (λ o.
        checked_trace
          (record t { parent_span_id = o; scope = as_str (some (text_or_null t.scope)) }))
      (as_str-text_or_null t.parent_span_id)
    ∙ ap (λ o. checked_trace (record t { scope = o })) (as_str-text_or_null t.scope)
    ∙ rw v refl

unfoldable get_event : EventStore → String → Option RuntimeEvent
get_event st event_id = get st.events_by_id event_id
