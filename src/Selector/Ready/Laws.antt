-- ===== src/Selector/Ready/Laws.antt =====
-- What `select_ready_nodes` and `_dependencies_satisfied` decide (src/core/state/selectors.py).
use agent_roles.Common.{
  String, ◌≡◌, ◌≢◌, ◌↔◌, ◌⊎◌, inl, inr, refl, sym, ap, ◌∙◌, Bool, true, false, not, ◌&&◌, Option,
  none, some, [], ◌∷◌, ◌=ₛ◌, elem, is_unique, any_of-false, any_of_none, arith, eq_iff, eq_refl,
  Bool-cases, Option-cases,
}
use agent_roles.Common.Dict.{Dict, get, keys}
use agent_roles.State.Models.{NodeStatus, NodeState, InterruptRecord, ReducedSnapshot}
use agent_roles.Workflow.Models.{NodeSpec, CompiledWorkflow}
use agent_roles.Selector.Inputs.{is_for_node}
use agent_roles.Selector.Ready.{
  has_open_interrupt, dependencies_satisfied, status_ready, node_ready, ready_among,
  select_ready_nodes,
}

-- No pending interrupt on file belongs to the node.
abbrev pub Unblocked : ReducedSnapshot → String → Type 0
Unblocked s node_id =
    (id : String) (i : InterruptRecord)
    → elem id s.run_state.pending_interrupt_ids ≡ true
    → get s.interrupts id ≡ some i
    → i.node_id ≢ some node_id

-- A node of the workflow that may be dispatched: it is marked ready, or it is pending or blocked,
-- no open interrupt holds it, and its dependencies are met.
abbrev pub Startable : ReducedSnapshot → CompiledWorkflow → String → NodeSpec → NodeStatus → Type 0
Startable s w id spec status =
    (status ≡ NodeStatus.ready)
    ⊎ (((status ≡ NodeStatus.pending) ⊎ (status ≡ NodeStatus.blocked))
        × Unblocked s id
        × (dependencies_satisfied s w id spec.join_policy ≡ true))

pub record CanRun (s : ReducedSnapshot) (w : CompiledWorkflow) (id : String) : Type 0 where
  pub spec : NodeSpec
  pub declared : get w.node_map id ≡ some spec
  pub node : NodeState
  pub known : get s.node_states id ≡ some node
  pub startable : Startable s w id spec node.status

Unblocked-of_test :
    (s : ReducedSnapshot) (node_id : String)
    → has_open_interrupt s node_id ≡ false
    → Unblocked s node_id
unfolding has_open_interrupt
Unblocked-of_test s node_id h id i pending filed owns =
    let free = any_of-false _ s.run_state.pending_interrupt_ids id h pending in
    ground (arith, free, eq_refl node_id)

is_for_node_ne :
    (o : Option String) (node_id : String) → o ≢ some node_id → is_for_node o node_id ≡ false
is_for_node_ne none node_id h = refl
is_for_node_ne (some m) node_id h = elim (Bool-cases (m =ₛ node_id)) [
  | inl same ↦ absurd (h (ap some ((eq_iff m node_id).0 same)))
  | inr other ↦ other
]

test-of_Unblocked :
    (s : ReducedSnapshot) (node_id : String)
    → Unblocked s node_id
    → has_open_interrupt s node_id ≡ false
unfolding has_open_interrupt
test-of_Unblocked s node_id u =
    any_of_none _ s.run_state.pending_interrupt_ids
      (λ id pending. go id (get s.interrupts id) refl pending)
  where
    go :
        (id : String) (o : Option InterruptRecord)
        → get s.interrupts id ≡ o
        → elem id s.run_state.pending_interrupt_ids ≡ true
        → (elim o as (λ _. Bool) [ none ↦ false | some i ↦ is_for_node i.node_id node_id ]) ≡ false
    go id none e p = refl
    go id (some i) e p = is_for_node_ne i.node_id node_id (u id i p e)

abbrev MayStart : ReducedSnapshot → CompiledWorkflow → String → NodeSpec → Type 0
MayStart s w id spec = Unblocked s id × (dependencies_satisfied s w id spec.join_policy ≡ true)

MayStart-iff :
    (s : ReducedSnapshot) (w : CompiledWorkflow) (id : String) (spec : NodeSpec)
    → ((not (has_open_interrupt s id) && dependencies_satisfied s w id spec.join_policy) ≡ true)
      ↔ MayStart s w id spec
MayStart-iff s w id spec = (
  λ h. (Unblocked-of_test s id (ground arith), ground arith),
  λ m. rw (test-of_Unblocked s id m.0, m.1),
)

status_ready-Startable :
    (s : ReducedSnapshot) (w : CompiledWorkflow) (id : String) (spec : NodeSpec)
    (status : NodeStatus)
    → status_ready s w id spec.join_policy status ≡ true
    → Startable s w id spec status
unfolding status_ready
status_ready-Startable s w id spec NodeStatus.ready h = inl refl
status_ready-Startable s w id spec NodeStatus.pending h =
    let m = (MayStart-iff s w id spec).0 h in inr (inl refl, m.0, m.1)
status_ready-Startable s w id spec NodeStatus.blocked h =
    let m = (MayStart-iff s w id spec).0 h in inr (inr refl, m.0, m.1)
status_ready-Startable s w id spec _ h = cc

Startable-status_ready :
    (s : ReducedSnapshot) (w : CompiledWorkflow) (id : String) (spec : NodeSpec)
    (status : NodeStatus)
    → Startable s w id spec status
    → status_ready s w id spec.join_policy status ≡ true
unfolding status_ready
Startable-status_ready s w id spec status (inl e) = rw e
Startable-status_ready s w id spec status (inr (inl e, u, d)) =
    rw (e, (MayStart-iff s w id spec).1 (u, d))
Startable-status_ready s w id spec status (inr (inr e, u, d)) =
    rw (e, (MayStart-iff s w id spec).1 (u, d))

abbrev ready_at : ReducedSnapshot → CompiledWorkflow → String → Option NodeSpec → Bool
ready_at s w id none = false
ready_at s w id (some spec) = node_ready s w id spec

ready_among-keys :
    (s : ReducedSnapshot) (w : CompiledWorkflow) (m : Dict NodeSpec) (id : String)
    → elem id (ready_among s w m) ≡ true
    → elem id (keys m) ≡ true
unfolding ready_among
ready_among-keys s w [] id h = h
ready_among-keys s w ((j, spec) ∷ m) id h = ground (arith, ready_among-keys s w m id)

elem-ready_among :
    (s : ReducedSnapshot) (w : CompiledWorkflow) (m : Dict NodeSpec) (id : String)
    → is_unique (keys m) ≡ true
    → elem id (ready_among s w m) ≡ ready_at s w id (get m id)
unfolding ready_among get
elem-ready_among s w [] id u = refl
elem-ready_among s w ((j, spec) ∷ m) id u =
    ground (arith, elem-ready_among s w m id, ready_among-keys s w m id, eq_iff j id, eq_refl id)

CanRun-of_test :
    (s : ReducedSnapshot) (w : CompiledWorkflow) (id : String) (o : Option NodeSpec)
    → get w.node_map id ≡ o
    → ready_at s w id o ≡ true
    → CanRun s w id
unfolding node_ready
CanRun-of_test s w id none e h = cc
CanRun-of_test s w id (some spec) e h = elim (Option-cases (get s.node_states id)) [
  | inl unknown ↦ cc (
      ap
        (λ (o : Option NodeState). elim o as (λ _. Bool) [
          | none ↦ false
          | some n ↦ status_ready s w id spec.join_policy n.status
        ])
        unknown)
  | inr (n, known) ↦ record {
    spec = spec;
    declared = e;
    node = n;
    known = known;
    startable = status_ready-Startable s w id spec n.status (ground arith);
  }
]

test-of_CanRun :
    (s : ReducedSnapshot) (w : CompiledWorkflow) (id : String)
    → CanRun s w id
    → ready_at s w id (get w.node_map id) ≡ true
unfolding node_ready
test-of_CanRun s w id c =
    ground
      (arith, c.declared, c.known, Startable-status_ready s w id c.spec c.node.status c.startable)

-- In a workflow that lists each node once, the ready nodes are exactly those that can run.
pub select_ready_nodes_iff :
    (s : ReducedSnapshot) (w : CompiledWorkflow) (id : String)
    → is_unique (keys w.node_map) ≡ true
    → (elem id (select_ready_nodes s w) ≡ true) ↔ CanRun s w id
unfolding select_ready_nodes
select_ready_nodes_iff s w id u = (
  λ h.
      CanRun-of_test s w id (get w.node_map id) refl
        (sym (elem-ready_among s w w.node_map id u) ∙ h),
  λ c. elem-ready_among s w w.node_map id u ∙ test-of_CanRun s w id c,
)
