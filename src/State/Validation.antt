-- ===== src/State/Validation.antt =====
-- The `__post_init__` checks of each record of src/core/state/models.py, and the records as
-- instances of the interface that the reducer works with.
use agent_roles.Common.{
  ◌+◌, ◌≡◌, refl, String, Bool, true, false, not, ◌&&◌, ◌||◌, none, some, List, elem, is_unique,
  any_of, all_of, [], ◌∷◌, is_empty, ◌=ₛ◌, is_some,
}
use native.Mathlib.Numerals.{add-one}
use agent_roles.State.Models.{
  RunStatus, NodeStatus, InterruptStatus, ThreadRecord, RunRecord, ThreadState, RunState, NodeState,
  InterruptRecord, ArtifactRecord, PolicyDecisionRecord, SideEffectRecord,
}
use agent_roles.State.Patch.{
  ThreadRecordUpdate, RunRecordUpdate, ThreadStateUpdate, RunStateUpdate, NodeStateUpdate,
  InterruptRecordUpdate, set_thread_record, set_run_record, set_thread_state, set_run_state,
  set_node_state, set_interrupt,
}
use agent_roles.State.Dataclass.{Dataclass}

-- `_require_non_empty`
unfoldable pub non_empty : String → Bool
non_empty s = not (s =ₛ "")

abbrev is_running : NodeStatus → Bool
is_running NodeStatus.running = true
is_running _ = false

abbrev is_completed : RunStatus → Bool
is_completed RunStatus.completed = true
is_completed _ = false

abbrev is_resolved : InterruptStatus → Bool
is_resolved InterruptStatus.resolved = true
is_resolved _ = false

unfoldable pub thread_record_valid : ThreadRecord → Bool
thread_record_valid r = non_empty r.thread_id && (non_empty r.thread_type && is_unique r.labels)

unfoldable pub run_record_valid : RunRecord → Bool
run_record_valid r =
    non_empty r.run_id
    && (non_empty r.thread_id
        && (non_empty r.workflow_id
            && (non_empty r.workflow_version
                && (non_empty r.entry_node_id && non_empty r.trigger))))

unfoldable pub thread_state_valid : ThreadState → Bool
thread_state_valid s = non_empty s.thread_id && is_unique s.artifact_ids

-- `set(self.frontier) & set(self.completed_nodes)`
abbrev pub overlaps : List String → List String → Bool
overlaps xs ys = any_of (λ x. elem x ys) xs

unfoldable pub run_state_valid : RunState → Bool
run_state_valid s =
    (non_empty s.run_id
      && (non_empty s.thread_id && (non_empty s.workflow_id && non_empty s.workflow_version)))
    && ((is_unique s.frontier
          && (is_unique s.completed_nodes
              && (is_unique s.failed_nodes
                  && (is_unique s.waiting_nodes
                      && (is_unique s.blocked_nodes
                          && (is_unique s.active_nodes
                              && (is_unique s.pending_interrupt_ids
                                  && is_unique s.pending_approval_ids)))))))
        && (not (overlaps s.frontier s.completed_nodes)
            && not (is_completed s.status && not (is_empty s.frontier))))

unfoldable pub node_state_valid : NodeState → Bool
node_state_valid s =
    non_empty s.run_id
    && (non_empty s.node_id
        && (is_unique s.side_effect_ids
            && (is_unique s.policy_decision_ids
                && not (is_running s.status && not (is_some s.started_at)))))

unfoldable pub interrupt_valid : InterruptRecord → Bool
interrupt_valid r =
    non_empty r.interrupt_id
    && (non_empty r.run_id
        && (non_empty r.thread_id
            && (non_empty r.reason_code
                && (non_empty r.reason_message
                    && not (is_resolved r.status && not (is_some r.resolved_at))))))

-- `PolicyDecisionRecord.__post_init__`
unfoldable pub decision_valid : PolicyDecisionRecord → Bool
decision_valid c =
    non_empty c.decision_id
    && (non_empty c.run_id
        && (non_empty c.policy_name
            && (non_empty c.reason_code && (non_empty c.reason_message && is_unique c.redactions))))

-- `SideEffectRecord.__post_init__`
unfoldable pub side_effect_valid : SideEffectRecord → Bool
side_effect_valid s = all_of non_empty (
    s.side_effect_id
    ∷ (s.run_id ∷ (s.node_id ∷ (s.target_type ∷ (s.target_ref ∷ (s.action ∷ []))))))

-- An empty `payload_ref` is as good as none.
unfoldable pub artifact_valid : ArtifactRecord → Bool
artifact_valid a =
    (non_empty a.artifact_id
      && (non_empty a.run_id
          && (non_empty a.thread_id
              && (non_empty a.producer_node_id
                  && (non_empty a.artifact_type && non_empty a.schema_version)))))
    && (elim a.payload_ref [ none ↦ false | some ref ↦ non_empty ref ] || is_some a.payload_inline)

abbrev bump_thread_record : ThreadRecord → ThreadRecord
bump_thread_record r = record r { version = r.version + 1 }

pub valid-bump_thread_record :
    (r : ThreadRecord) → thread_record_valid (bump_thread_record r) ≡ thread_record_valid r
unfolding thread_record_valid
valid-bump_thread_record r = refl

abbrev pub thread_record_class : Dataclass ThreadRecord ThreadRecordUpdate
thread_record_class = record {
  set = set_thread_record;
  valid = thread_record_valid;
  version = λ r. r.version;
  bump = bump_thread_record;
  valid-bump = valid-bump_thread_record;
  version-bump = λ r. add-one r.version;
}

abbrev bump_run_record : RunRecord → RunRecord
bump_run_record r = record r { version = r.version + 1 }

pub valid-bump_run_record :
    (r : RunRecord) → run_record_valid (bump_run_record r) ≡ run_record_valid r
unfolding run_record_valid
valid-bump_run_record r = refl

abbrev pub run_record_class : Dataclass RunRecord RunRecordUpdate
run_record_class = record {
  set = set_run_record;
  valid = run_record_valid;
  version = λ r. r.version;
  bump = bump_run_record;
  valid-bump = valid-bump_run_record;
  version-bump = λ r. add-one r.version;
}

abbrev bump_thread_state : ThreadState → ThreadState
bump_thread_state r = record r { version = r.version + 1 }

pub valid-bump_thread_state :
    (r : ThreadState) → thread_state_valid (bump_thread_state r) ≡ thread_state_valid r
unfolding thread_state_valid
valid-bump_thread_state r = refl

abbrev pub thread_state_class : Dataclass ThreadState ThreadStateUpdate
thread_state_class = record {
  set = set_thread_state;
  valid = thread_state_valid;
  version = λ r. r.version;
  bump = bump_thread_state;
  valid-bump = valid-bump_thread_state;
  version-bump = λ r. add-one r.version;
}

abbrev bump_run_state : RunState → RunState
bump_run_state r = record r { version = r.version + 1 }

pub valid-bump_run_state : (r : RunState) → run_state_valid (bump_run_state r) ≡ run_state_valid r
unfolding run_state_valid
valid-bump_run_state r = refl

abbrev pub run_state_class : Dataclass RunState RunStateUpdate
run_state_class = record {
  set = set_run_state;
  valid = run_state_valid;
  version = λ r. r.version;
  bump = bump_run_state;
  valid-bump = valid-bump_run_state;
  version-bump = λ r. add-one r.version;
}

abbrev bump_node_state : NodeState → NodeState
bump_node_state r = record r { version = r.version + 1 }

pub valid-bump_node_state :
    (r : NodeState) → node_state_valid (bump_node_state r) ≡ node_state_valid r
unfolding node_state_valid
valid-bump_node_state r = refl

abbrev pub node_state_class : Dataclass NodeState NodeStateUpdate
node_state_class = record {
  set = set_node_state;
  valid = node_state_valid;
  version = λ r. r.version;
  bump = bump_node_state;
  valid-bump = valid-bump_node_state;
  version-bump = λ r. add-one r.version;
}

abbrev bump_interrupt : InterruptRecord → InterruptRecord
bump_interrupt r = record r { version = r.version + 1 }

pub valid-bump_interrupt :
    (r : InterruptRecord) → interrupt_valid (bump_interrupt r) ≡ interrupt_valid r
unfolding interrupt_valid
valid-bump_interrupt r = refl

abbrev pub interrupt_class : Dataclass InterruptRecord InterruptRecordUpdate
interrupt_class = record {
  set = set_interrupt;
  valid = interrupt_valid;
  version = λ r. r.version;
  bump = bump_interrupt;
  valid-bump = valid-bump_interrupt;
  version-bump = λ r. add-one r.version;
}
