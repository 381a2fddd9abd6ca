-- ===== src/Runtime/Rest/Marked.antt =====
-- What a mark leaves of its run, when the run is at rest
-- (src/core/runtime/runtime_service.py).
use agent_roles.Common.{
  String, ◌≡◌, refl, ap, ◌∙◌, subst, Bool, true, false, Option, some, ok, arith,
}
use agent_roles.Common.Dict.{get}
use agent_roles.Value.{Value, Fields, end, field}
use agent_roles.Selector.Paths.{optional_text}
use agent_roles.State.Models.{RunStatus, RunRecord, ReducedSnapshot}
use agent_roles.Contracts.{Services}
use agent_roles.Runtime.Monad.{World, Action, ◌>>=◌, pure}
use agent_roles.Runtime.Store.{now}
use agent_roles.Runtime.Marks.{
  completed_patch, failed_patch, paused_patch, mark, mark_run_completed, mark_run_failed,
}
use agent_roles.Runtime.Rounds.{is_terminal_run, Progress, returned}
use agent_roles.Runtime.Keys.{IsFiled, Keeps}
use agent_roles.Runtime.Rest.{
  >>=-returned, records_patch_run, paused_run, completed_run, failed_run,
}
use agent_roles.Runtime.Rest.Steps.{IsMarked, mark-IsMarked}

-- The statuses in which nothing of the run goes on.
abbrev pub is_at_rest : RunStatus → Bool
is_at_rest RunStatus.completed = true
is_at_rest RunStatus.failed = true
is_at_rest RunStatus.cancelled = true
is_at_rest RunStatus.interrupted = true
is_at_rest RunStatus.waiting = true
is_at_rest _ = false

-- The run is on file, and is at rest.
abbrev pub IsAtRest : String → World → Type 0
IsAtRest run_id w =
    (r : RunRecord) × (get w.state_store.run_records run_id ≡ some r) × (is_at_rest r.status ≡ true)

pub terminal_at_rest : (t : RunStatus) → is_terminal_run t ≡ true → is_at_rest t ≡ true
terminal_at_rest RunStatus.completed h = refl
terminal_at_rest RunStatus.failed h = refl
terminal_at_rest RunStatus.cancelled h = refl
terminal_at_rest _ h = absurd (ground arith)

marked-IsAtRest :
    (t : RunStatus) (run_id : String) (w : World)
    → is_at_rest t ≡ true
    → IsMarked t run_id w
    → IsAtRest run_id w
marked-IsAtRest t run_id w a (r, e, m) = (r, e, ap is_at_rest m ∙ a)

-- What an action that returns leaves behind.
abbrev pub Rests : String → Action Progress → Type 0
Rests run_id m = (w w' : World) → IsFiled w → m w ≡ (ok returned, w') → IsAtRest run_id w'

-- After a step that keeps the runs filed, what the rest leaves is what is left.
pub then-Rests :
    {A : Type 0} (run_id : String) (m : Action A) (k : A → Action Progress)
    → Keeps m
    → ((a : A) → Rests run_id (k a))
    → Rests run_id (m >>= k)
then-Rests run_id m k keep rest w w' f h =
    let (a, v, e, q) = >>=-returned m k w h in
    rest a v w' (subst IsFiled (ap (λ x. x.1) e) (keep w f)) q

-- The mark of a run whose record has a given id.
abbrev Marks : RunStatus → ReducedSnapshot → Action (Unit {0}) → Type 0
Marks status s m =
    (w w' : World) → IsFiled w → m w ≡ (ok tt, w') → IsMarked status s.run_record.run_id w'

module _ (sv : Services) where
  pub mark_run_completed-Marks :
      (s : ReducedSnapshot) → Marks RunStatus.completed s (mark_run_completed sv s)
  unfolding mark_run_completed completed_patch now
  mark_run_completed-Marks s w w' f h =
      mark-IsMarked sv s (completed_patch (sv.now w.calls)) "run.completed" end (now sv w).1 w'
        RunStatus.completed f
        (λ u a.
          completed_run s.run_record u.run_record RunStatus.completed (some (sv.now w.calls))
            (records_patch_run _ _ _ _ s u a))
        h

  pub mark_run_failed-Marks :
      (s : ReducedSnapshot) (code : String) (message : Option String)
      → Marks RunStatus.failed s (mark_run_failed sv s code message)
  unfolding mark_run_failed failed_patch now
  mark_run_failed-Marks s code message w w' f h =
      mark-IsMarked sv s (failed_patch (sv.now w.calls) code message) "run.failed"
        (field "failure_code" (Value.text code)
          (field "failure_message" (optional_text message) end))
        (now sv w).1 w' RunStatus.failed f
        (λ u a.
          failed_run s.run_record u.run_record RunStatus.failed (some (sv.now w.calls)) (some code)
            message (records_patch_run _ _ _ _ s u a))
        h

  pub paused-Marks :
      (s : ReducedSnapshot) (status : RunStatus) (event_type : String) (payload : Fields)
      → Marks status s (mark sv s (paused_patch status) event_type payload)
  unfolding paused_patch
  paused-Marks s status event_type payload w w' f h =
      mark-IsMarked sv s (paused_patch status) event_type payload w w' status f
        (λ u a. paused_run s.run_record u.run_record status (records_patch_run _ _ _ _ s u a)) h

-- A round that marks the run returns with the run at rest.
pub marked_return :
    (m : Action (Unit {0})) (t : RunStatus) (s : ReducedSnapshot) (run_id : String) (w w' : World)
    → Marks t s m
    → is_at_rest t ≡ true
    → s.run_record.run_id ≡ run_id
    → IsFiled w
    → (m >>= λ _. pure returned) w ≡ (ok returned, w')
    → IsAtRest run_id w'
marked_return m t s run_id w w' marks a id f h =
    let (_, v, e, q) = >>=-returned m (λ _. pure returned) w h in
    subst (IsAtRest run_id) (ap (λ x. x.1) q)
      (marked-IsAtRest t run_id v a (subst (λ k. IsMarked t k v) id (marks w v f e)))
