-- ===== src/Kernel/Gateway/Run.antt =====
-- What a gateway call runs against (`TradeGatewayDeps` and the local variables of `#live` in
-- src/kernel/trade-gateway.ts). The ports are outside the repository or cross the network: `Ports`
-- holds what each of them answers in one call. `effects` is the trace of the calls that move
-- value; a broadcast is recorded with the store as it stands when the call is made.
use ari_os.Prelude.{ℕ, String, Bool, List, [], ◌∷◌, ◌++◌, Option, Result, ok, err}
use ari_os.Prelude.Int.{ℤ}
use ari_os.Kernel.Contracts.{
  Failure, PolicyConfig, LandMode, SignedTx, PerpPositionRef, ConfirmStatus,
}
use ari_os.Kernel.Store.Rows.{KernelStore}

-- The places where the gateway reads its clock.
pub data Moment : Type 0 where
  started simulated persisted signed_event signature_set sent sent_event settled settled_event :
      Moment
  unconfirmed unconfirmed_event failed failed_event : Moment

pub record PositionReader : Type 0 where
  pub read_before : PerpPositionRef → Result Failure ℤ
  pub read_after : PerpPositionRef → Result Failure ℤ

pub record Ports : Type 0 where
  pub policy : PolicyConfig
  pub clock : Moment → ℕ
  pub new_trade_id : String
  pub new_reservation_id : String
  pub pubkey : String
  -- Whether a mint is a Token-2022 mint.
  pub inspect : String → Result Failure Bool
  pub balance_before : String → Result Failure ℤ
  pub balance_after : String → Result Failure ℤ
  pub simulate : String → Result Failure Bool
  pub sign : String → Result Failure SignedTx
  pub broadcaster : LandMode → Option (SignedTx → Option String → Result Failure String)
  pub confirm : String → ℕ → Result Failure ConfirmStatus
  pub positions : Option PositionReader

pub data Effect : Type 0 where
  signs : String → Effect
  broadcasts : SignedTx → KernelStore → Effect

pub record Progress : Type 0 where
  pub store : KernelStore
  pub effects : List Effect
  pub reservation_id : Option String
  pub inserted : Bool

-- A step may throw; what it wrote before stays written.
abbrev pub Step : Type 0 → Type 0
Step A = Progress → Result Failure A × Progress

abbrev pub continue : {A B : Type 0} → Result Failure A → (A → Step B) → Step B
continue (ok a) f s = f a s
continue (err e) f s = (err e, s)

infixl 5 ◌>>=◌ ◌>>◌
unfoldable pub ◌>>=◌ : {A B : Type 0} → Step A → (A → Step B) → Step B
◌>>=◌ m f s = let (r, s') = m s in continue r f s'

abbrev pub ◌>>◌ : {B : Type 0} → Step (Unit {0}) → Step B → Step B
m >> k = m >>= λ _. k

unfoldable pub pure : {A : Type 0} → A → Step A
pure a s = (ok a, s)

unfoldable pub lift : {A : Type 0} → Result Failure A → Step A
lift r s = (r, s)

unfoldable pub update : (KernelStore → KernelStore) → Step (Unit {0})
update f s = (ok tt, record s { store = f s.store })

unfoldable pub emit : Effect → Step (Unit {0})
emit e s = (ok tt, record s { effects = s.effects ++ e ∷ [] })

unfoldable pub emit_broadcast : SignedTx → Step (Unit {0})
emit_broadcast signed s =
    (ok tt, record s { effects = s.effects ++ broadcasts signed s.store ∷ [] })
