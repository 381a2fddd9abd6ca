-- ===== src/Contracts.antt =====
-- What the runtime is given from outside (src/core/contracts/types.py): the clock and the generator
-- of identifiers. The code uses `datetime.now` and `uuid4`, whose answers are functions of how many
-- calls have been made; no two identifiers are equal, and none is empty.
use agent_roles.Common.{ℕ, String, ◌≡◌, false, ◌=ₛ◌}

pub record Services : Type 0 where
  -- `id_generator.new(prefix)`
  pub new_id : String → ℕ → String
  -- `clock.now()`
  pub now : ℕ → ℕ
  pub new_id_distinct : (p q : String) (m n : ℕ) → new_id p m ≡ new_id q n → m ≡ n
  pub new_id_filled : (p : String) (n : ℕ) → (new_id p n =ₛ "") ≡ false
