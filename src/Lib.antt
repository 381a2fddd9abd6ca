-- ===== src/Lib.antt =====
-- The core runtime of a platform for agent workflows: a workflow is a graph of nodes; a run of it
-- belongs to a thread; a scheduler dispatches the nodes that are ready; what they do is merged
-- into the state of the run, filed as events, and kept in checkpoints.
--
-- The parts and their files. State: the records and their checks (src/core/state/models.py) are
-- State/Models and State/Validation; a StatePatch and `StateReducer.apply`
-- (src/core/state/reducers.py) are State/Patch, State/Dataclass and State/Reducer, one function
-- for each block of `apply`. Workflow: the models (src/core/workflow/workflow_models.py) are
-- Workflow/Models, `WorkflowCompiler` (src/core/workflow/compiler.py) is Workflow/Compiler, with
-- its search for a cycle in Workflow/Compiler/Cycles. Selector: `DefaultStateSelector`
-- (src/core/state/selectors.py) is Selector/Paths, Selector/Inputs and Selector/Ready. Scheduler:
-- `FrontierScheduler` (src/core/runtime/scheduler.py). Events: src/core/events and
-- src/core/stores/memory_event_store.py are Events/Models, Events/Store and Events/Emitter.
-- Stores: src/core/stores/memory_state_store.py is Stores/State, and memory_checkpoint_store.py
-- with src/core/checkpoint is Stores/Checkpoints. Agents: src/core/agents/bindings.py is
-- Agents/Bindings. Runtime: `RuntimeService` (src/core/runtime/runtime_service.py) is
-- Runtime/Store (reads, writes, events, checkpoints), Runtime/Outcome (`_build_result_patch`),
-- Runtime/Marks (`_mark_run_*`), Runtime/Nodes (`_execute_node`), Runtime/Rounds
-- (`_run_scheduler_loop`) and Runtime/Service (`create_thread`, `start_run`, `resume_run`,
-- `cancel_run`, `replay_run`). Executors: src/core/executors is Executors/Conditions
-- (`_evaluate_condition`), Executors/Flow (`_execute_noop`, `_execute_condition`,
-- `_execute_merge`), Executors/Basic (`_execute_human_gate` and `execute` of `BasicNodeExecutor`),
-- Executors/Tool, Executors/Agent and Executors/Together, which assembles them. Tools:
-- src/core/tools and src/core/policies are Tools/Models, Tools/Registry, Tools/Policy
-- (`PolicyAwareToolInvoker`) and Tools/Static (`StaticPolicyEngine`). Agents/Models,
-- Agents/Registry and Agents/Resolver are src/core/agents, and Workflow/Registry is
-- src/core/workflow/registry.py; Versions is the order of versions that both registries have.
-- Llm/Models, Llm/Registry and Llm/Invoker are src/core/llm (`RoutingLLMInvoker`). Memory/Policy
-- is src/core/memory/policy.py (`PolicyAwareMemoryProvider`). Common and Value hold shared
-- helpers. Tests holds concrete data.
--
-- How they interact. The runtime service reads a snapshot of a run from the state store, asks the
-- scheduler, which asks the selector, lets an executor run a node, gives its result as a patch to
-- the reducer, saves the snapshot that the reducer returns, emits events, and files a checkpoint.
-- Its state is `World` (Runtime/Monad): the three stores, the compiler's cache, and how often the
-- services have been called. An operation is a function of a world to a result and a world, so
-- what was written before an exception stays written.
--
-- Choices. Of an exception only its class is kept. Deep copies are values. A datetime is a number
-- of ticks, and a cost, a temperature or a top_p a number of millionths; there are no floating-
-- point numbers. A dict of updates from field names to values is a list of typed writes, at most
-- one for each field. Durations, counters and versions are naturals, so the checks that they are
-- not negative hold by type. The clock, the identifier generator, the workflow provider, the node
-- executor and the resolver of bindings are parameters (Contracts, Runtime/Context); of
-- identifiers it is assumed that no two are equal and none is empty, as for uuid4. A tool, an
-- agent's implementation and a policy engine are functions from a context to an action; a version
-- is written with ASCII digits; `repr`, which `str` of a list, a dict or an instance needs, is a
-- parameter. A set is a list that is only searched. The creation time of a checkpoint or an
-- artifact, which the code reads from the system's clock where none is given, is read from the
-- services' clock. Where the code would keep a value of another type than it declares, such as an
-- output that is not a dict, the model raises a type error.
--
-- Bounds. The loop of the scheduler runs for a number of rounds, and `start_run` and `resume_run`
-- return nothing if these did not do; the code itself may loop for ever. The search for a cycle
-- goes one deeper than there are nodes, which is enough, since it never enters a node that it has
-- not left. A number has no more digits than its successor counts, so printing ends.
--
-- Not modelled: the adapters and servers of tools and language models, which call other systems
-- and are parameters; the in-memory store of memory, whose scores are floating-point numbers;
-- evaluation, observability and the registry of resources; the applications, domain packs,
-- infrastructure and interfaces around the core, which are data or input and output; and the
-- configuration of backends.
pub mod Common
pub mod Value
pub mod State
pub mod Contracts
pub mod Workflow
pub mod Tools
pub mod Executors
pub mod Selector
pub mod Scheduler
pub mod Agents
pub mod Versions
pub mod Llm
pub mod Memory
pub mod Stores
pub mod Runtime
pub mod Events
pub mod Tests
