-- ===== src/Runtime/Service/Resume.antt =====
-- `resume_run` (src/core/runtime/runtime_service.py).
use agent_roles.Common.{
  ℕ, String, Bool, true, false, not, Option, none, some, List, [], ◌∷◌, ◌++◌, value_error, without,
  is_empty,
}
use agent_roles.Common.Dict.{Dict, get, put, keys}
use agent_roles.Value.{Value, Fields, end, field}
use agent_roles.State.Models.{
  ThreadStatus, RunStatus, NodeStatus, InterruptStatus, RunRecord, RunState, ReducedSnapshot,
}
use agent_roles.State.Patch.{
  StatePatch, ThreadRecordUpdate, ThreadStateUpdate, RunRecordUpdate, RunStateUpdate,
  NodeStateUpdate, InterruptRecordUpdate, empty_patch,
}
use agent_roles.Agents.Bindings.{texts}
use agent_roles.Events.Models.{TraceContext, EventDraft}
use agent_roles.Runtime.Monad.{Action, ◌>>=◌, ◌>>◌, pure, lift, raise_when}
use agent_roles.Runtime.Context.{Dependencies}
use agent_roles.Runtime.Lists.{merge_unique}
use agent_roles.Runtime.Store.{
  now, get_state, apply_patch, append_run_events, checkpoint, new_event, run_event,
  run_trace_context, node_trace_context,
}
use agent_roles.Runtime.Rounds.{run_scheduler_loop}
use agent_roles.Runtime.Service.{compiled, run_or, if_returned}

-- The local variables of the loop over the pending interrupts.
pub record Resumption : Type 0 where
  pub interrupt_updates : Dict (List InterruptRecordUpdate)
  pub node_updates : Dict (List NodeStateUpdate)
  pub frontier : List String
  pub waiting : List String
  pub blocked : List String

abbrev pub resumption_of : RunState → Resumption
resumption_of r = record {
  interrupt_updates = [];
  node_updates = [];
  frontier = r.frontier;
  waiting = r.waiting_nodes;
  blocked = r.blocked_nodes;
}

abbrev pub ready_again : List NodeStateUpdate
ready_again =
    NodeStateUpdate.status NodeStatus.ready
    ∷ (NodeStateUpdate.error_code none ∷ (NodeStateUpdate.error_message none ∷ []))

-- The node that an interrupt held back, if it names one, is ready again.
unfoldable pub release_node : Option String → Resumption → Resumption
release_node none r = r
release_node (some id) r = record r {
  node_updates = put r.node_updates id ready_again;
  frontier = merge_unique r.frontier (id ∷ []);
  waiting = without id r.waiting;
  blocked = without id r.blocked;
}

abbrev pub held_node : ReducedSnapshot → String → Option String
held_node s id = elim (get s.interrupts id) [ none ↦ none | some i ↦ i.node_id ]

abbrev pub resolution : ℕ → Fields → List InterruptRecordUpdate
resolution resolved_at payload =
    InterruptRecordUpdate.status InterruptStatus.resolved
    ∷ (InterruptRecordUpdate.resolved_at (some resolved_at)
        ∷ (InterruptRecordUpdate.resolution_payload (some payload) ∷ []))

-- One round of the loop.
unfoldable pub resolve_interrupt : ReducedSnapshot → ℕ → Fields → String → Resumption → Resumption
resolve_interrupt s resolved_at payload id r =
    release_node (held_node s id)
      (record r { interrupt_updates = put r.interrupt_updates id (resolution resolved_at payload) })

unfoldable pub resolve_all : ReducedSnapshot → ℕ → Fields → List String → Resumption → Resumption
resolve_all s resolved_at payload [] r = r
resolve_all s resolved_at payload (id ∷ ids) r =
    resolve_all s resolved_at payload ids (resolve_interrupt s resolved_at payload id r)

-- With no payload the loop does not run.
abbrev pub resolved_with : ReducedSnapshot → ℕ → Option Fields → Resumption
resolved_with s resolved_at none = resumption_of s.run_state
resolved_with s resolved_at (some payload) =
    resolve_all s resolved_at payload s.run_state.pending_interrupt_ids (resumption_of s.run_state)

abbrev resumed_lists : Resumption → List RunStateUpdate
resumed_lists r = elim (is_empty r.interrupt_updates) [
  | true ↦ []
  | false ↦
      RunStateUpdate.waiting_nodes r.waiting
      ∷ (RunStateUpdate.blocked_nodes r.blocked ∷ (RunStateUpdate.frontier r.frontier ∷ []))
]

unfoldable pub resumed_patch : Resumption → StatePatch
resumed_patch r = record empty_patch {
  thread_record_updates = ThreadRecordUpdate.status ThreadStatus.active ∷ [];
  thread_state_updates = ThreadStateUpdate.thread_status ThreadStatus.active ∷ [];
  run_record_updates = RunRecordUpdate.status RunStatus.running ∷ [];
  run_state_updates = RunStateUpdate.status RunStatus.running ∷ resumed_lists r;
  node_state_updates = r.node_updates;
  interrupt_updates = r.interrupt_updates;
}

-- The trace context of the node that an interrupt held back, or of the run.
abbrev interrupt_trace : ReducedSnapshot → String → Option String → TraceContext
interrupt_trace s run_id none = run_trace_context run_id
interrupt_trace s run_id (some node_id) = elim (get s.node_states node_id) [
  | none ↦ run_trace_context run_id
  | some n ↦ node_trace_context run_id node_id n.attempt
]

-- The events `interrupt.resolved`.
unfoldable pub resolved_events :
    ReducedSnapshot → String → Fields → List String → Action (List EventDraft)
resolved_events s run_id payload [] = pure []
resolved_events s run_id payload (id ∷ ids) = do
  e ← lift (
      new_event "interrupt.resolved" s.thread_record.thread_id run_id none
        (field "interrupt_id" (Value.text id) (field "resolution_payload" (Value.dict payload) end))
        (interrupt_trace s run_id (held_node s id)))
  es ← resolved_events s run_id payload ids
  pure (e ∷ es)

abbrev events_with :
    ReducedSnapshot → String → Option Fields → List String → Action (List EventDraft)
events_with s run_id none ids = pure []
events_with s run_id (some payload) ids = resolved_events s run_id payload ids

-- `{RunStatus.INTERRUPTED, RunStatus.WAITING}`
abbrev pub is_resumable : RunStatus → Bool
is_resumable RunStatus.interrupted = true
is_resumable RunStatus.waiting = true
is_resumable _ = false

module _ (dp : Dependencies) where
  -- `resume_run`, with so many rounds of the scheduler; `none` if these did not do.
  unfoldable pub resume_run : ℕ → String → Option Fields → Action (Option RunRecord)
  resume_run rounds run_id payload = do
    s ← get_state run_id
    raise_when (not (is_resumable s.run_record.status)) value_error
    resolved_at ← now dp.services
    events ← events_with s run_id payload s.run_state.pending_interrupt_ids
    resumed ← apply_patch s (resumed_patch (resolved_with s resolved_at payload))
    e ← lift (
        run_event "run.resumed" resumed.thread_record.thread_id run_id (
          field "resolved_interrupts"
            (Value.arr (texts (keys (resolved_with s resolved_at payload).interrupt_updates))) end))
    append_run_events dp.services run_id (events ++ e ∷ [])
    _ ← checkpoint dp.services resumed
    w ← compiled dp resumed.run_record.workflow_id (some resumed.run_record.workflow_version)
    p ← run_scheduler_loop dp rounds run_id w
    if_returned p (run_or run_id resumed.run_record)
