-- ===== src/Signer/State.antt =====
-- The lifecycle of an execution in the signer (src/signer/authorization.ts), and a test for equality.
use ari_os.Prelude.{ℕ, Bool, true, ◌≡◌, ◌==◌, arith}

pub data ExecutionState : Type 0 where
  issued claimed signing signed broadcast reconciliation : ExecutionState
  confirmed reverted expired dropped failed : ExecutionState

abbrev state_code : ExecutionState → ℕ
state_code issued = 0
state_code claimed = 1
state_code signing = 2
state_code signed = 3
state_code broadcast = 4
state_code reconciliation = 5
state_code confirmed = 6
state_code reverted = 7
state_code expired = 8
state_code dropped = 9
state_code failed = 10

unfoldable pub same_state : ExecutionState → ExecutionState → Bool
same_state a b = state_code a == state_code b

pub same_state_refl : (a : ExecutionState) → same_state a a ≡ true
unfolding same_state
same_state_refl a = ground arith
