-- ===== src/Scheduler.antt =====
-- `FrontierScheduler` (src/core/runtime/scheduler.py). `_validate` of the configuration gives at
-- least one parallel node; nothing below needs it.
pub mod Order
pub mod Decisions
use agent_roles.Common.{
  ℕ, suc, ◌-◌, String, Bool, true, false, not, ◌&&◌, ◌||◌, Option, none, some, List, [], ◌∷◌, ltb,
  ◌==◌, text_lt, if◌then◌else◌, length, take, is_empty,
}
use agent_roles.Common.Dict.{Dict, get, put}
use agent_roles.State.Models.{QueuePolicy, ReducedSnapshot, RunState, SchedulerConfig}
use agent_roles.Workflow.Models.{CompiledWorkflow}
use agent_roles.Selector.Ready.{select_ready_nodes, terminal_condition_met}

-- A `FrontierDecision` by its type, with what that type carries: the ready nodes, the reason, or
-- the failure's code and reason.
pub data Decision : Type 0 where
  dispatch : List String → Decision
  complete : Decision
  interrupt : String → Decision
  wait : String → Decision
  fail : String → String → Decision

-- Stable sorting, as `sorted` does: an item goes before those it is not greater than.
module _ {A : Type 0} (lt : A → A → Bool) where
  unfoldable pub insert_sorted : A → List A → List A
  insert_sorted x [] = x ∷ []
  insert_sorted x (y ∷ ys) =
      let later = insert_sorted x ys in if lt y x then y ∷ later else x ∷ (y ∷ ys)

  unfoldable pub sorted : List A → List A
  sorted [] = []
  sorted (x ∷ xs) = insert_sorted x (sorted xs)

-- `{node_id: index for index, node_id in enumerate(frontier)}`
unfoldable pub frontier_order : ℕ → List String → Dict ℕ → Dict ℕ
frontier_order i [] d = d
frontier_order i (id ∷ ids) d = frontier_order (suc i) ids (put d id i)

-- `frontier_order.get(node_id, len(frontier_order))`
abbrev pub place : Dict ℕ → String → ℕ
place d id = elim (get d id) [ none ↦ length d | some i ↦ i ]

-- The order of the keys `(place, node_id)`.
abbrev pub key_lt : Dict ℕ → String → String → Bool
key_lt d a b = ltb (place d a) (place d b) || ((place d a == place d b) && text_lt a b)

abbrev pub queue_lt : QueuePolicy → List String → String → String → Bool
queue_lt QueuePolicy.priority frontier = text_lt
queue_lt QueuePolicy.fifo frontier = key_lt (frontier_order 0 frontier [])

-- `_order_ready_nodes`
unfoldable pub order_ready_nodes : SchedulerConfig → ReducedSnapshot → List String → List String
order_ready_nodes c s ready = sorted (queue_lt c.node_queue_policy s.run_state.frontier) ready

-- `max(0, max_parallel_nodes - len(active_nodes))`
abbrev pub available_slots : SchedulerConfig → ReducedSnapshot → ℕ
available_slots c s = c.max_parallel_nodes - length s.run_state.active_nodes

abbrev pub has_unresolved : RunState → Bool
has_unresolved r =
    not (is_empty r.active_nodes)
    || (not (is_empty r.waiting_nodes) || not (is_empty r.blocked_nodes))

-- The body of `decide`, once the ready nodes are ordered and the selector has been asked.
unfoldable pub decide_from : SchedulerConfig → ReducedSnapshot → List String → Bool → Decision
decide_from c s ready terminal =
    if not (is_empty ready) && ltb 0 (available_slots c s)
    then dispatch (take (available_slots c s) ready)
    else if terminal
    then complete
    else if not (is_empty s.run_state.pending_interrupt_ids)
    then interrupt "pending interrupts require resolution"
    else if has_unresolved s.run_state
    then wait "run has active or unresolved waiting/blocked nodes"
    else if not (is_empty ready) && (available_slots c s == 0)
    then wait "scheduler parallelism limit reached"
    else if not c.deadlock_detection_enabled
    then wait "no ready nodes and deadlock detection disabled"
    else fail "NO_PROGRESS" "no ready nodes and no terminal or interrupt condition matched"

unfoldable pub decide : SchedulerConfig → ReducedSnapshot → CompiledWorkflow → Decision
decide c s w =
    decide_from c s (order_ready_nodes c s (select_ready_nodes s w)) (terminal_condition_met s w)
