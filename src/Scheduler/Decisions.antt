-- ===== src/Scheduler/Decisions.antt =====
-- What each decision of the scheduler means (src/core/runtime/scheduler.py).
use agent_roles.Common.{
  ◌+◌, ◌≤◌, ◌<◌, ◌≡◌, ◌≢◌, ◌⊎◌, String, Bool, true, false, List, [], length, take,
}
use agent_roles.State.Models.{ReducedSnapshot, SchedulerConfig}
use agent_roles.Scheduler.{
  Decision, dispatch, complete, interrupt, wait, fail, available_slots, has_unresolved,
}

-- No node is ready, or as many are active as may run at once.
abbrev pub NothingToDispatch : SchedulerConfig → ReducedSnapshot → List String → Type 0
NothingToDispatch c s ready =
    (ready ≡ []) ⊎ (c.max_parallel_nodes ≤ length s.run_state.active_nodes)

abbrev Idle : ReducedSnapshot → Type 0
Idle s =
    (s.run_state.active_nodes ≡ [])
    × (s.run_state.waiting_nodes ≡ [])
    × (s.run_state.blocked_nodes ≡ [])

-- What holds where a decision is made, given the queue and whether a terminal condition holds.
abbrev pub Means : SchedulerConfig → ReducedSnapshot → List String → Bool → Decision → Type 0
Means c s ready terminal (dispatch ns) =
    (ns ≡ take (available_slots c s) ready)
    × (0 < length ns)
    × (length s.run_state.active_nodes + length ns ≤ c.max_parallel_nodes)
Means c s ready terminal complete = NothingToDispatch c s ready × (terminal ≡ true)
Means c s ready terminal (interrupt reason) =
    NothingToDispatch c s ready × (terminal ≡ false) × (s.run_state.pending_interrupt_ids ≢ [])
Means c s ready terminal (wait reason) =
    NothingToDispatch c s ready
    × (terminal ≡ false)
    × (s.run_state.pending_interrupt_ids ≡ [])
    × ((has_unresolved s.run_state ≡ true)
        ⊎ ((ready ≢ []) ⊎ (c.deadlock_detection_enabled ≡ false)))
Means c s ready terminal (fail code reason) =
    (ready ≡ [])
    × (terminal ≡ false)
    × (s.run_state.pending_interrupt_ids ≡ [])
    × Idle s
    × (c.deadlock_detection_enabled ≡ true)
    × (code ≡ "NO_PROGRESS")
