-- ===== src/Tests/Stores.antt =====
-- The state store at a snapshot that is saved into an empty one, and a binding's dict.
use agent_roles.Common.{◌≡◌, refl, String, true, none, [], ◌∷◌, ok, arith}
use agent_roles.Value.{end, field, Value}
use agent_roles.State.Models.{ReducedSnapshot}
use agent_roles.State.Validation.{non_empty}
use agent_roles.Stores.State.{empty_store, persist_snapshot, build_snapshot}
use agent_roles.Stores.State.RoundTrip.{
  IsStore, IsCoherent, Restores, build_snapshot-persist_snapshot,
}
use agent_roles.Stores.State.Filed.{IsFiledStore, persist_snapshot-IsFiledStore}
use agent_roles.Agents.Bindings.{
  ResolvedAgentBinding, binding_valid, to_map, from_map, from_map-to_map,
}
use agent_roles.Stores.Checkpoints.{
  CheckpointRecord, SnapshotPayload, CheckpointStore, consistent, create, restore,
}
use agent_roles.Stores.Checkpoints.Restoring.{IsPaired, restore-create}
use agent_roles.Common.Dict.{get, put}
use agent_roles.Tests.Data.{snapshot}

empty_store-IsStore : IsStore empty_store
empty_store-IsStore = record {
  artifacts = record { own = tt; unique = refl };
  interrupts = record { own = tt; unique = refl };
  policy_decisions = record { own = tt; unique = refl };
  side_effects = record { own = tt; unique = refl };
}

snapshot-IsCoherent : IsCoherent snapshot
snapshot-IsCoherent = record {
  run_thread = refl;
  state_thread = refl;
  state_run = refl;
  nodes = record { own = (refl, (refl, tt)); unique = refl };
  nodes_run = (refl, (refl, tt));
  artifacts = record { own = (refl, tt); unique = refl };
  interrupts = record { own = (refl, tt); unique = refl };
  policy_decisions = record { own = tt; unique = refl };
  side_effects = record { own = tt; unique = refl };
}

empty_store-IsFiledStore : IsFiledStore empty_store
empty_store-IsFiledStore = record {
  threads = record { own = tt; unique = refl };
  runs = record { own = tt; unique = refl };
  thread_states = record { own = tt; unique = refl };
  run_states = record { own = tt; unique = refl };
  nodes = tt;
  others = empty_store-IsStore;
}

persist_snapshot-IsFiledStore_example : IsFiledStore (persist_snapshot snapshot empty_store)
persist_snapshot-IsFiledStore_example =
    persist_snapshot-IsFiledStore snapshot empty_store empty_store-IsFiledStore

build_snapshot-persist_snapshot_example :
    (t : ReducedSnapshot) × (build_snapshot (persist_snapshot snapshot empty_store) "run" ≡ ok t)
    × Restores snapshot empty_store t
build_snapshot-persist_snapshot_example =
    build_snapshot-persist_snapshot snapshot empty_store snapshot-IsCoherent empty_store-IsStore

abbrev binding : ResolvedAgentBinding
binding = record {
  node_id = "draft";
  agent_ref = "writer";
  resolved_agent_id = "writer";
  resolved_version = "1";
  executor_ref = "agent.domain";
  implementation_ref = none;
  tool_refs = "search" ∷ ("read" ∷ []);
  memory_scopes = [];
  policy_profiles = "default" ∷ [];
  capabilities = [];
  metadata = field "owner" (Value.text "x") end;
}

valid : binding_valid binding ≡ true
unfolding binding_valid non_empty
valid = refl

from_map-to_map_example : from_map (to_map binding) ≡ ok binding
from_map-to_map_example = from_map-to_map binding valid

abbrev first_checkpoint : CheckpointRecord
first_checkpoint = record {
  checkpoint_id = "first";
  thread_id = "thread";
  run_id = "run";
  sequence_no = 1;
  created_at = 5;
  reason = "auto";
  schema_version = "1";
  snapshot_ref = "inline";
  frontier_snapshot = [];
  event_cursor = none;
  metadata = end;
}

abbrev second_checkpoint : CheckpointRecord
second_checkpoint = record first_checkpoint { checkpoint_id = "second"; sequence_no = 2 }

abbrev payload : SnapshotPayload
payload = record {
  thread_record = snapshot.thread_record;
  run_record = snapshot.run_record;
  thread_state = snapshot.thread_state;
  run_state = snapshot.run_state;
  node_states = [];
  artifact_ids = "text" ∷ [];
  interrupt_ids = [];
  policy_decision_ids = [];
  side_effect_ids = [];
  last_event_id = none;
}

abbrev resumed_payload : SnapshotPayload
resumed_payload = record payload { artifact_ids = [] }

-- A store of one checkpoint, and of two.
abbrev one_checkpoint : CheckpointStore
one_checkpoint = record {
  checkpoints = ("first", first_checkpoint) ∷ [];
  payloads = ("first", payload) ∷ [];
  checkpoint_ids_by_run = ("run", "first" ∷ []) ∷ [];
}

abbrev two_checkpoints : CheckpointStore
two_checkpoints = record {
  checkpoints = ("first", first_checkpoint) ∷ (("second", second_checkpoint) ∷ []);
  payloads = ("first", payload) ∷ (("second", resumed_payload) ∷ []);
  checkpoint_ids_by_run = ("run", "first" ∷ ("second" ∷ [])) ∷ [];
}

created : create second_checkpoint resumed_payload one_checkpoint ≡ ok two_checkpoints
unfolding create consistent get put
created = refl

one_checkpoint-IsPaired : IsPaired one_checkpoint
unfolding get
one_checkpoint-IsPaired id = ground (arith)

restore-create_example :
    (restore two_checkpoints "second" ≡ ok resumed_payload)
    × ((id : String) (q : SnapshotPayload)
        → restore one_checkpoint id ≡ ok q
        → restore two_checkpoints id ≡ ok q)
    × IsPaired two_checkpoints
restore-create_example =
    restore-create second_checkpoint resumed_payload one_checkpoint two_checkpoints
      one_checkpoint-IsPaired created
