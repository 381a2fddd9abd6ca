-- ===== src/Runtime/Monad.antt =====
-- Code that changes the stores and may raise (src/core/runtime/runtime_service.py): what was
-- written before an exception stays written.
use agent_roles.Common.{ℕ, Bool, true, false, Result, ok, err, Error}
use agent_roles.Stores.State.{StateStore}
use agent_roles.Stores.Checkpoints.{CheckpointStore}
use agent_roles.Events.Store.{EventStore}
use agent_roles.Workflow.Compiler.{Cache}

-- The stores, the cache of the compiler, and the number of calls that the services have answered.
pub record World : Type 0 where
  pub state_store : StateStore
  pub event_store : EventStore
  pub checkpoint_store : CheckpointStore
  pub cache : Cache
  pub calls : ℕ

abbrev pub Action : Type 0 → Type 0
Action A = World → Result A × World

abbrev pub continue_with : {A B : Type 0} → Result A × World → (A → Action B) → Result B × World
continue_with (ok a, w) k = k a w
continue_with (err e, w) k = (err e, w)

infixl 5 ◌>>=◌ ◌>>◌
abbrev pub ◌>>=◌ : {A B : Type 0} → Action A → (A → Action B) → Action B
(m >>= k) w = continue_with (m w) k

abbrev pub ◌>>◌ : {B : Type 0} → Action (Unit {0}) → Action B → Action B
m >> k = m >>= λ _. k

abbrev pub pure : {A : Type 0} → A → Action A
pure a w = (ok a, w)

-- A computation on values, which changes nothing.
abbrev pub lift : {A : Type 0} → Result A → Action A
lift r w = (r, w)

abbrev pub ask : Action World
ask w = (ok w, w)

abbrev pub modify : (World → World) → Action (Unit {0})
modify f w = (ok tt, f w)

-- `if test: raise e`
abbrev pub raise_when : Bool → Error → Action (Unit {0})
raise_when true e w = (err e, w)
raise_when false e w = (ok tt, w)
