-- ===== src/Events/Models.antt =====
-- src/core/events/event_models.py and src/core/events/tracing.py.
use Prim.Native.Nat.{◌/◌, ◌%◌}
use Prim.Native.String.{◌++◌ as join}
use agent_roles.Common.{
  ℕ, zero, suc, ◌≡◌, refl, String, Bool, true, not, ◌&&◌, Option, none, some, ◌=ₛ◌, ◌==◌, ltb,
  if◌then◌else◌,
}
use agent_roles.Value.{Value, Fields, end, field}

pub record TraceContext : Type 0 where
  pub trace_id : String
  pub span_id : String
  pub parent_span_id : Option String
  pub scope : Option String
  pub attributes : Fields

abbrev pub text_or_null : Option String → Value
text_or_null none = Value.null
text_or_null (some s) = Value.text s

-- `TraceContext.to_map`
unfoldable pub to_map : TraceContext → Fields
to_map t = field "trace_id" (Value.text t.trace_id) (
    field "span_id" (Value.text t.span_id) (
      field "parent_span_id" (text_or_null t.parent_span_id)
        (field "scope" (text_or_null t.scope) (field "attributes" (Value.dict t.attributes) end))))

unfoldable pub root_trace_context : String → String → TraceContext
root_trace_context trace_id scope = record {
  trace_id = trace_id;
  span_id = join "root:" trace_id;
  parent_span_id = none;
  scope = some scope;
  attributes = end;
}

-- `child_trace_context` with a parent and a span id, as the runtime calls it.
unfoldable pub child_trace_context : TraceContext → String → String → Fields → TraceContext
child_trace_context parent scope span_id attributes = record {
  trace_id = parent.trace_id;
  span_id = span_id;
  parent_span_id = some parent.span_id;
  scope = some scope;
  attributes = attributes;
}

abbrev digit_text : ℕ → String
digit_text n =
    if n == 0
    then "0"
    else if n == 1
    then "1"
    else if n == 2
    then "2"
    else if n == 3
    then "3"
    else if n == 4
    then "4"
    else if n == 5
    then "5"
    else if n == 6
    then "6"
    else if n == 7
    then "7"
    else if n == 8
    then "8"
    else "9"

decimal_fuel : ℕ → ℕ → String
decimal_fuel zero n = ""
decimal_fuel (suc f) n =
    let more = join (decimal_fuel f (n / 10)) (digit_text (n % 10)) in
    if ltb n 10 then digit_text n else more

-- `str(n)`: a number has fewer digits than its successor counts.
unfoldable pub decimal : ℕ → String
unfolding decimal_fuel
decimal n = decimal_fuel (suc n) n

decimal_three : decimal 407 ≡ "407"
unfolding decimal
decimal_three = refl

pub record RuntimeEvent : Type 0 where
  pub event_id : String
  pub event_type : String
  pub thread_id : String
  pub run_id : Option String
  pub node_id : Option String
  pub actor_type : Option String
  pub actor_ref : Option String
  pub trace_id : Option String
  pub span_id : Option String
  pub parent_span_id : Option String
  pub sequence_no : ℕ
  pub timestamp : ℕ
  pub payload : Fields
  pub metadata : Fields

pub record EventDraft : Type 0 where
  pub event_type : String
  pub thread_id : String
  pub run_id : Option String
  pub node_id : Option String
  pub actor_type : Option String
  pub actor_ref : Option String
  pub payload : Fields
  pub metadata : Fields
  pub trace_context : Option TraceContext

abbrev not_empty : String → Bool
not_empty s = not (s =ₛ "")

abbrev given_not_empty : Option String → Bool
given_not_empty none = true
given_not_empty (some s) = not_empty s

-- `RuntimeEvent.__post_init__`
unfoldable pub event_valid : RuntimeEvent → Bool
event_valid e =
    not_empty e.event_id
    && (not_empty e.event_type
        && (not_empty e.thread_id && (given_not_empty e.trace_id && given_not_empty e.span_id)))

-- `EventDraft.__post_init__`
unfoldable pub draft_valid : EventDraft → Bool
draft_valid d = not_empty d.event_type && not_empty d.thread_id

-- `TraceContext.__post_init__`
abbrev pub trace_valid : Option TraceContext → Bool
trace_valid none = true
trace_valid (some t) = not_empty t.trace_id && not_empty t.span_id

-- A draft whose own checks and whose trace context's checks have passed.
unfoldable pub draft_sound : EventDraft → Bool
unfolding draft_valid
draft_sound d = draft_valid d && trace_valid d.trace_context
