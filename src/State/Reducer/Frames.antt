-- ===== src/State/Reducer/Frames.antt =====
-- What each block of `StateReducer.apply` (src/core/state/reducers.py) leaves alone.
use agent_roles.Common.{
  String, ◌≡◌, refl, ◌∙◌, List, Result, ok, fold_result, fold_result-keeps, >>=-eq-ok, arith,
}
use agent_roles.State.Models.{
  NodeState, ArtifactRecord, PolicyDecisionRecord, SideEffectRecord, ReducedSnapshot,
}
use agent_roles.State.Patch.{StatePatch, NodeStateUpdate}
use agent_roles.State.Reducer.{
  upsert_node, update_node, create_artifact, create_artifacts, create_decision, create_side_effect,
}

-- The run's state and its interrupts are the same.
pub record SameRun (s t : ReducedSnapshot) : Type 0 where
  pub run_state : t.run_state ≡ s.run_state
  pub interrupts : t.interrupts ≡ s.interrupts

pub SameRun-refl : (s : ReducedSnapshot) → SameRun s s
SameRun-refl s = record { run_state = refl; interrupts = refl }

pub upsert_node-SameRun :
    (s : ReducedSnapshot) (n : NodeState) (t : ReducedSnapshot)
    → upsert_node s n ≡ ok t
    → SameRun s t
unfolding upsert_node
upsert_node-SameRun s n t h = ground arith

pub update_node-SameRun :
    (s : ReducedSnapshot) (u : String × List NodeStateUpdate) (t : ReducedSnapshot)
    → update_node s u ≡ ok t
    → SameRun s t
unfolding update_node
update_node-SameRun s u t h = ground arith

pub create_artifact-SameRun :
    (s : ReducedSnapshot) (a : ArtifactRecord) (t : ReducedSnapshot)
    → create_artifact s a ≡ ok t
    → SameRun s t
unfolding create_artifact
create_artifact-SameRun s a t h = ground arith

pub create_decision-SameRun :
    (s : ReducedSnapshot) (d : PolicyDecisionRecord) (t : ReducedSnapshot)
    → create_decision s d ≡ ok t
    → SameRun s t
unfolding create_decision
create_decision-SameRun s d t h = ground arith

pub create_side_effect-SameRun :
    (s : ReducedSnapshot) (e : SideEffectRecord) (t : ReducedSnapshot)
    → create_side_effect s e ≡ ok t
    → SameRun s t
unfolding create_side_effect
create_side_effect-SameRun s e t h = ground arith

-- A loop whose steps leave the run alone does.
pub loop-SameRun :
    {A : Type 0} (f : ReducedSnapshot → A → Result ReducedSnapshot)
    → ((s : ReducedSnapshot) (a : A) (t : ReducedSnapshot) → f s a ≡ ok t → SameRun s t)
    → (s : ReducedSnapshot) (xs : List A) (t : ReducedSnapshot) → fold_result f s xs ≡ ok t
    → SameRun s t
loop-SameRun f step s xs t h =
    fold_result-keeps (SameRun s) f
      (λ a x b p e.
        let q = step a x b e in
        record { run_state = q.run_state ∙ p.run_state; interrupts = q.interrupts ∙ p.interrupts })
      s xs t (SameRun-refl s) h

pub create_artifacts-SameRun :
    (p : StatePatch) (s t : ReducedSnapshot) → create_artifacts p s ≡ ok t → SameRun s t
unfolding create_artifacts
create_artifacts-SameRun p s t h =
    let (m, first, rest) = >>=-eq-ok (fold_result create_artifact s p.artifacts_to_create) _ h in
    let same =
      loop-SameRun create_artifact create_artifact-SameRun s p.artifacts_to_create m first in
    ground arith
