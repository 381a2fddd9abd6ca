-- ===== src/Tests/Data.antt =====
-- A thread with a run of two nodes: one has ended with an artifact, the other waits for an
-- approval.
use Prim.Native.String.{◌++◌ as join, count}
use text.Mathlib.TextLemmas.{length-append}
use agent_roles.Common.{
  ℕ, zero, suc, ◌≡◌, refl, ap, String, true, false, none, some, List, [], ◌∷◌, arith, ◌=ₛ◌, eq_iff,
  Bool-cases, inl, inr,
}
use agent_roles.Common.Dict.{Dict}
use agent_roles.Value.{Value, end, field}
use agent_roles.State.Models.{
  ThreadStatus, RunStatus, NodeStatus, NodeType, InterruptType, InterruptStatus, QueuePolicy,
  ThreadRecord, RunRecord, ThreadState, RunState, NodeState, ArtifactRecord, InterruptRecord,
  ReducedSnapshot, SchedulerConfig,
}
use agent_roles.Contracts.{Services}
use agent_roles.Runtime.Service.Start.{no_budget, nothing_used}
use agent_roles.Workflow.Models.{
  InputSourceType, MergeStrategyKind, NodeSpec, EdgeSpec, WorkflowDefinition, CompiledWorkflow,
}

-- A clock that counts, and identifiers by how many strokes they have.
unfoldable pub tally : ℕ → String
tally zero = "#"
tally (suc n) = join "#" (tally n)

abbrev pub thread_record : ThreadRecord
thread_record = record {
  thread_id = "thread";
  thread_type = "task";
  title = none;
  owner_id = none;
  tenant_id = none;
  status = ThreadStatus.active;
  created_at = 0;
  updated_at = 1;
  current_run_id = some "run";
  latest_checkpoint_id = none;
  labels = "a" ∷ ("b" ∷ []);
  metadata = end;
  version = 1;
}

abbrev pub run_record : RunRecord
run_record = record {
  run_id = "run";
  thread_id = "thread";
  workflow_id = "flow";
  workflow_version = "1";
  status = RunStatus.interrupted;
  entry_node_id = "draft";
  started_at = some 1;
  ended_at = none;
  parent_run_id = none;
  trigger = "manual";
  trigger_payload = end;
  failure_code = none;
  failure_message = none;
  budget_snapshot = no_budget;
  metadata = end;
  version = 1;
}

abbrev pub thread_state : ThreadState
thread_state = record {
  thread_id = "thread";
  goal = "write";
  global_context = end;
  shared_memory_refs = [];
  artifact_ids = "text" ∷ [];
  active_run_id = some "run";
  thread_status = ThreadStatus.paused;
  extensions = end;
  version = 1;
}

abbrev pub run_state : RunState
run_state = record {
  run_id = "run";
  thread_id = "thread";
  workflow_id = "flow";
  workflow_version = "1";
  status = RunStatus.interrupted;
  frontier = [];
  completed_nodes = "draft" ∷ [];
  failed_nodes = [];
  waiting_nodes = "review" ∷ [];
  blocked_nodes = [];
  active_nodes = [];
  pending_interrupt_ids = "ask" ∷ [];
  pending_approval_ids = "ask" ∷ [];
  budget_usage = nothing_used;
  last_event_id = none;
  extensions = end;
  version = 3;
}

abbrev pub draft_node : NodeState
draft_node = record {
  run_id = "run";
  node_id = "draft";
  node_type = NodeType.agent;
  status = NodeStatus.succeeded;
  attempt = 1;
  input_snapshot = end;
  output_artifact_id = some "text";
  started_at = some 2;
  ended_at = some 3;
  executor_ref = "writer";
  error_code = none;
  error_message = none;
  side_effect_ids = [];
  policy_decision_ids = [];
  metadata = end;
  version = 3;
}

abbrev pub review_node : NodeState
review_node = record draft_node {
  node_id = "review";
  node_type = NodeType.noop;
  status = NodeStatus.waiting;
  output_artifact_id = none;
  ended_at = none;
}

abbrev pub text_artifact : ArtifactRecord
text_artifact = record {
  artifact_id = "text";
  run_id = "run";
  thread_id = "thread";
  producer_node_id = "draft";
  artifact_type = "document";
  schema_version = "1.0";
  payload_ref = none;
  payload_inline = some (field "body" (Value.text "hello") end);
  summary = none;
  quality_status = none;
  created_at = 3;
  metadata = end;
}

abbrev pub ask_interrupt : InterruptRecord
ask_interrupt = record {
  interrupt_id = "ask";
  run_id = "run";
  thread_id = "thread";
  node_id = some "review";
  interrupt_type = InterruptType.approval_required;
  reason_code = "APPROVAL";
  reason_message = "please approve";
  payload = end;
  status = InterruptStatus.open_status;
  created_at = 4;
  resolved_at = none;
  resolution_payload = none;
  version = 1;
}

abbrev pub snapshot : ReducedSnapshot
snapshot = record {
  thread_record = thread_record;
  run_record = run_record;
  thread_state = thread_state;
  run_state = run_state;
  node_states = ("draft", draft_node) ∷ (("review", review_node) ∷ []);
  artifacts = ("text", text_artifact) ∷ [];
  interrupts = ("ask", ask_interrupt) ∷ [];
  policy_decisions = [];
  side_effects = [];
}

abbrev pub draft_spec : NodeSpec
draft_spec = record {
  node_id = "draft";
  node_type = NodeType.agent;
  executor_ref = "writer";
  input_selector = record {
    sources =
        record {
          source_type = InputSourceType.literal;
          source_ref = "hello";
          required = true;
          path = none;
        }
        ∷ [];
    merge_strategy = MergeStrategyKind.replace;
  };
  agent_ref = none;
  output_binding = none;
  retry_policy = none;
  timeout_policy = none;
  approval_policy = none;
  join_policy = none;
  merge_strategy = none;
  config = end;
  metadata = end;
}

abbrev pub review_spec : NodeSpec
review_spec = record draft_spec {
  node_id = "review";
  node_type = NodeType.noop;
  executor_ref = "noop";
}

abbrev pub edge : EdgeSpec
edge = record {
  edge_id = "next";
  from_node_id = "draft";
  to_node_id = "review";
  edge_condition = none;
  metadata = end;
}

abbrev pub definition : WorkflowDefinition
definition = record {
  workflow_id = "flow";
  name = "flow";
  workflow_version = "1";
  entry_node_id = "draft";
  node_specs = draft_spec ∷ (review_spec ∷ []);
  edge_specs = edge ∷ [];
  default_retry_policy = none;
  default_timeout_policy = none;
  allow_cycles = false;
  terminal_conditions = [];
  metadata = end;
}

abbrev pub edges_by_source : Dict (List EdgeSpec)
edges_by_source = ("draft", edge ∷ []) ∷ (("review", []) ∷ [])

abbrev pub flow : CompiledWorkflow
flow = record {
  workflow_id = "flow";
  workflow_version = "1";
  entry_node_id = "draft";
  node_map = ("draft", draft_spec) ∷ (("review", review_spec) ∷ []);
  outgoing_edges = edges_by_source;
  incoming_edges = ("draft", []) ∷ (("review", edge ∷ []) ∷ []);
  allow_cycles = false;
  contains_cycles = false;
  terminal_conditions = [];
}

abbrev pub config : SchedulerConfig
config = record {
  max_parallel_nodes = 2;
  node_queue_policy = QueuePolicy.fifo;
  deadlock_detection_enabled = true;
  deadlock_timeout_ms = 1000;
}

count-tally : (n : ℕ) → count (tally n) ≡ suc n
unfolding tally
count-tally zero = refl
count-tally (suc n) = ground (arith, length-append "#" (tally n), count-tally n)

pub tally-distinct : (m n : ℕ) → tally m ≡ tally n → m ≡ n
tally-distinct m n e = omega (arith, count-tally m, count-tally n, ap count e)

pub tally-filled : (n : ℕ) → (tally n =ₛ "") ≡ false
tally-filled n = elim (Bool-cases (tally n =ₛ "")) [
  | inl same ↦ absurd (omega (arith, count-tally n, ap count ((eq_iff (tally n) "").0 same)))
  | inr other ↦ other
]

abbrev pub services : Services
services = record {
  new_id = λ prefix n. tally n;
  now = λ n. n;
  new_id_distinct = λ p q m n e. tally-distinct m n e;
  new_id_filled = λ p n. tally-filled n;
}
