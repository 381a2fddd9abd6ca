-- ===== src/Stores/Checkpoints.antt =====
-- `InMemoryCheckpointStore` (src/core/stores/memory_checkpoint_store.py) and the records that it
-- keeps (src/core/checkpoint/checkpoint_models.py).
pub mod Restoring
use agent_roles.Common.{
  ℕ, String, Bool, ◌&&◌, ◌||◌, Option, none, some, List, [], ◌∷◌, ◌++◌, Result, ok, value_error,
  key_error, ◌>>=◌, ◌>>◌, ◌=ₛ◌, ◌==◌, ltb, or_raise, raise_if, require, last?, all_of,
}
use agent_roles.Common.Dict.{Dict, get, put, contains}
use agent_roles.Value.{Fields}
use agent_roles.State.Models.{ThreadRecord, RunRecord, ThreadState, RunState, NodeState}
use agent_roles.State.Validation.{non_empty}
use agent_roles.Scheduler.{sorted}

pub record CheckpointRecord : Type 0 where
  pub checkpoint_id : String
  pub thread_id : String
  pub run_id : String
  pub sequence_no : ℕ
  pub created_at : ℕ
  pub reason : String
  pub schema_version : String
  pub snapshot_ref : String
  pub frontier_snapshot : List String
  pub event_cursor : Option String
  pub metadata : Fields

pub record SnapshotPayload : Type 0 where
  pub thread_record : ThreadRecord
  pub run_record : RunRecord
  pub thread_state : ThreadState
  pub run_state : RunState
  pub node_states : List NodeState
  pub artifact_ids : List String
  pub interrupt_ids : List String
  pub policy_decision_ids : List String
  pub side_effect_ids : List String
  pub last_event_id : Option String

-- `CheckpointRecord.__post_init__`
unfoldable pub checkpoint_valid : CheckpointRecord → Bool
checkpoint_valid c =
    non_empty c.checkpoint_id
    && (non_empty c.thread_id
        && (non_empty c.run_id && (non_empty c.reason && non_empty c.schema_version)))

pub record CheckpointStore : Type 0 where
  pub checkpoints : Dict CheckpointRecord
  pub payloads : Dict SnapshotPayload
  pub checkpoint_ids_by_run : Dict (List String)

abbrev pub no_checkpoints : CheckpointStore
no_checkpoints = record { checkpoints = []; payloads = []; checkpoint_ids_by_run = [] }

-- `_validate_consistency`
unfoldable pub consistent : CheckpointRecord → SnapshotPayload → Bool
consistent c p =
    (c.run_id =ₛ p.run_record.run_id)
    && ((c.thread_id =ₛ p.thread_record.thread_id)
        && ((p.run_record.thread_id =ₛ p.thread_record.thread_id)
            && ((p.run_state.run_id =ₛ p.run_record.run_id)
                && ((p.run_state.thread_id =ₛ p.thread_record.thread_id)
                    && ((p.thread_state.thread_id =ₛ p.thread_record.thread_id)
                        && all_of (λ n. n.run_id =ₛ p.run_record.run_id) p.node_states)))))

abbrev pub ids_or_empty : Option (List String) → List String
ids_or_empty none = []
ids_or_empty (some ids) = ids

-- `create`: both checks come before any write.
unfoldable pub create :
    CheckpointRecord → SnapshotPayload → CheckpointStore → Result CheckpointStore
create c p st = do
  raise_if (contains st.checkpoints c.checkpoint_id) value_error
  require (consistent c p) value_error
  ok (record {
    checkpoints = put st.checkpoints c.checkpoint_id c;
    payloads = put st.payloads c.checkpoint_id p;
    checkpoint_ids_by_run =
        put st.checkpoint_ids_by_run c.run_id
          (ids_or_empty (get st.checkpoint_ids_by_run c.run_id) ++ c.checkpoint_id ∷ []);
  })

-- The order of `(sequence_no, created_at)`.
abbrev pub checkpoint_lt : CheckpointRecord → CheckpointRecord → Bool
checkpoint_lt a b =
    ltb a.sequence_no b.sequence_no
    || ((a.sequence_no == b.sequence_no) && ltb a.created_at b.created_at)

-- `[self._checkpoints[id] for id in ids]`
unfoldable pub fetch : CheckpointStore → List String → Result (List CheckpointRecord)
fetch st [] = ok []
fetch st (id ∷ ids) = do
  c ← or_raise (get st.checkpoints id) key_error
  cs ← fetch st ids
  ok (c ∷ cs)

unfoldable pub list_for_run : CheckpointStore → String → Result (List CheckpointRecord)
list_for_run st run_id = do
  cs ← fetch st (ids_or_empty (get st.checkpoint_ids_by_run run_id))
  ok (sorted checkpoint_lt cs)

unfoldable pub latest : CheckpointStore → String → Result (Option CheckpointRecord)
latest st run_id = do cs ← list_for_run st run_id; ok (last? cs)

unfoldable pub restore : CheckpointStore → String → Result SnapshotPayload
restore st id = or_raise (get st.payloads id) key_error
