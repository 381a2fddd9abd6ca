-- ===== src/State/Reducer/Validity/Files.antt =====
-- The artifacts, policy decisions and side effects of a snapshot pass their `__post_init__` checks
-- (src/core/state/reducers.py, src/core/state/models.py).
use agent_roles.Common.{
  ◌≡◌, true, ok, fold_result, fold_result-keeps, fold_result-keeps_all, >>=-eq-ok, All, arith,
}
use agent_roles.Common.Dict.{put}
use agent_roles.State.Models.{
  ArtifactRecord, PolicyDecisionRecord, SideEffectRecord, ReducedSnapshot,
}
use agent_roles.State.Patch.{StatePatch}
use agent_roles.State.Validation.{artifact_valid, decision_valid, side_effect_valid}
use agent_roles.State.Reducer.{
  apply, upsert_node, create_artifact, create_artifacts, create_interrupt, create_interrupts,
  create_decision, create_side_effect,
}
use agent_roles.State.Reducer.Blocks.{apply-keeps}
use agent_roles.State.Reducer.Growth.{
  SameFiles, apply_records-SameFiles, upsert_node-SameFiles, update_node-SameFiles,
  create_interrupt-SameFiles, update_interrupts-SameFiles, create_artifact_lem,
}
use agent_roles.State.Reducer.Validity.{Entries, Entries-put}

-- Every artifact, policy decision and side effect on file passes its checks.
pub record HasValidFiles (s : ReducedSnapshot) : Type 0 where
  pub artifacts : Entries artifact_valid s.artifacts
  pub decisions : Entries decision_valid s.policy_decisions
  pub side_effects : Entries side_effect_valid s.side_effects

-- Those that a patch brings in were checked when they were made.
pub record BringsValidFiles (p : StatePatch) : Type 0 where
  pub artifacts : All (λ a. artifact_valid a ≡ true) p.artifacts_to_create
  pub decisions : All (λ d. decision_valid d ≡ true) p.policy_decisions_to_create
  pub side_effects : All (λ e. side_effect_valid e ≡ true) p.side_effects_to_create

SameFiles-HasValidFiles :
    (s t : ReducedSnapshot) → SameFiles s t → HasValidFiles s → HasValidFiles t
SameFiles-HasValidFiles s t q v = record {
  artifacts = rw q.artifacts v.artifacts;
  decisions = rw q.decisions v.decisions;
  side_effects = rw q.side_effects v.side_effects;
}

create_artifact-HasValidFiles :
    (s : ReducedSnapshot) (a : ArtifactRecord) (t : ReducedSnapshot)
    → HasValidFiles s
    → artifact_valid a ≡ true
    → create_artifact s a ≡ ok t
    → HasValidFiles t
create_artifact-HasValidFiles s a t v c h =
    let (_, files, same, same') = create_artifact_lem s a h in
    record {
      artifacts = rw files (Entries-put artifact_valid s.artifacts a.artifact_id a v.artifacts c);
      decisions = rw same v.decisions;
      side_effects = rw same' v.side_effects;
    }

create_decision_lem :
    (s : ReducedSnapshot) (d : PolicyDecisionRecord) (t : ReducedSnapshot)
    → create_decision s d ≡ ok t
    → (t.policy_decisions ≡ put s.policy_decisions d.decision_id d)
      × (t.artifacts ≡ s.artifacts)
      × (t.side_effects ≡ s.side_effects)
unfolding create_decision
create_decision_lem s d t h = ground arith

create_decision-HasValidFiles :
    (s : ReducedSnapshot) (d : PolicyDecisionRecord) (t : ReducedSnapshot)
    → HasValidFiles s
    → decision_valid d ≡ true
    → create_decision s d ≡ ok t
    → HasValidFiles t
create_decision-HasValidFiles s d t v c h =
    let (files, same, same') = create_decision_lem s d t h in
    record {
      artifacts = rw same v.artifacts;
      decisions =
          rw files (Entries-put decision_valid s.policy_decisions d.decision_id d v.decisions c);
      side_effects = rw same' v.side_effects;
    }

create_side_effect_lem :
    (s : ReducedSnapshot) (x : SideEffectRecord) (t : ReducedSnapshot)
    → create_side_effect s x ≡ ok t
    → (t.side_effects ≡ put s.side_effects x.side_effect_id x)
      × (t.artifacts ≡ s.artifacts)
      × (t.policy_decisions ≡ s.policy_decisions)
unfolding create_side_effect
create_side_effect_lem s x t h = ground arith

create_side_effect-HasValidFiles :
    (s : ReducedSnapshot) (x : SideEffectRecord) (t : ReducedSnapshot)
    → HasValidFiles s
    → side_effect_valid x ≡ true
    → create_side_effect s x ≡ ok t
    → HasValidFiles t
create_side_effect-HasValidFiles s x t v c h =
    let (files, same, same') = create_side_effect_lem s x t h in
    record {
      artifacts = rw same v.artifacts;
      decisions = rw same' v.decisions;
      side_effects =
          rw files
            (Entries-put side_effect_valid s.side_effects x.side_effect_id x v.side_effects c);
    }

create_artifacts-HasValidFiles :
    (p : StatePatch)
    → All (λ a. artifact_valid a ≡ true) p.artifacts_to_create
    → (s t : ReducedSnapshot) → HasValidFiles s
    → create_artifacts p s ≡ ok t
    → HasValidFiles t
unfolding create_artifacts
create_artifacts-HasValidFiles p q s t v h =
    let (m, loop, rest) = >>=-eq-ok (fold_result create_artifact s p.artifacts_to_create) _ h in
    let last : SameFiles m t = ground arith in
    SameFiles-HasValidFiles m t last (
      fold_result-keeps_all HasValidFiles (λ a. artifact_valid a ≡ true) create_artifact
        create_artifact-HasValidFiles s p.artifacts_to_create m q v loop)

create_interrupts-HasValidFiles :
    (p : StatePatch) (s t : ReducedSnapshot)
    → HasValidFiles s
    → create_interrupts p s ≡ ok t
    → HasValidFiles t
unfolding create_interrupts
create_interrupts-HasValidFiles p s t v h =
    let (m, loop, rest) = >>=-eq-ok (fold_result create_interrupt s p.interrupts_to_create) _ h in
    let last : SameFiles m t = ground arith in
    SameFiles-HasValidFiles m t last (
      fold_result-keeps HasValidFiles create_interrupt
        (λ a i b q e. SameFiles-HasValidFiles a b (create_interrupt-SameFiles a i b e) q) s
        p.interrupts_to_create m v loop)

pub apply-HasValidFiles :
    (p : StatePatch) (s t : ReducedSnapshot)
    → BringsValidFiles p
    → HasValidFiles s
    → apply s p ≡ ok t
    → HasValidFiles t
apply-HasValidFiles p s t q v h =
    apply-keeps p HasValidFiles
      (record {
        records = λ a b w e. SameFiles-HasValidFiles a b (apply_records-SameFiles p a b e) w;
        upsert = λ a b w e.
            fold_result-keeps HasValidFiles upsert_node
              (λ c n m k f. SameFiles-HasValidFiles c m (upsert_node-SameFiles c n m f) k) a
              p.node_states_to_upsert b w e;
        update = λ a u b w e. SameFiles-HasValidFiles a b (update_node-SameFiles a u b e) w;
        artifacts = create_artifacts-HasValidFiles p q.artifacts;
        interrupts = create_interrupts-HasValidFiles p;
        resolutions =
            λ a b w e. SameFiles-HasValidFiles a b (update_interrupts-SameFiles p a b e) w;
        decisions = λ a b w e.
            fold_result-keeps_all HasValidFiles (λ d. decision_valid d ≡ true) create_decision
              create_decision-HasValidFiles a p.policy_decisions_to_create b q.decisions w e;
        side_effects = λ a b w e.
            fold_result-keeps_all HasValidFiles (λ x. side_effect_valid x ≡ true) create_side_effect
              create_side_effect-HasValidFiles a p.side_effects_to_create b q.side_effects w e;
      })
      s t v h
