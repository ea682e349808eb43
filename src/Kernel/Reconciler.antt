-- ===== src/Kernel/Reconciler.antt =====
-- Crash recovery at boot (src/kernel/reconciler.ts). The confirmer is a parameter; when it throws,
-- the recovery stops and what it wrote stays written.
pub mod Recovery
use ari_os.Prelude.{
  ℕ, ◌+◌, String, Bool, true, false, List, [], ◌∷◌, Option, none, some, Result, ok, err, str_eq,
  length, if◌then◌else◌,
}
use ari_os.Kernel.Contracts.{
  Failure, ConfirmStatus, TradeState, ErrorCode, reconcile_no_signature, reconcile,
}
use ari_os.Kernel.Store.Rows.{TradeRow, KernelStore}
use ari_os.Kernel.Store.Trades.{set_state, fail, pending_sent}
use ari_os.Kernel.Gateway.Live.{release_held, consume_held}

pub record ReconcilerDeps : Type 0 where
  pub confirm : String → ℕ → Result Failure ConfirmStatus
  -- The time at which a row is written, by its identifier.
  pub clock : String → ℕ

pub record ReconcileSummary : Type 0 where
  pub checked : ℕ
  pub confirmed : ℕ
  pub failed : ℕ

-- `!trade.signature` also holds of the empty string.
unfoldable pub has_signature : Option String → Option String
has_signature none = none
has_signature (some signature) = if str_eq signature "" then none else some signature

unfoldable pub held_by : Option String → Option String
held_by none = none
held_by (some id) = if str_eq id "" then none else some id

unfoldable pub settle_state : ConfirmStatus → TradeState
settle_state ConfirmStatus.confirmed = TradeState.confirmed
settle_state ConfirmStatus.expired = TradeState.expired
settle_state ConfirmStatus.failed = TradeState.errored

unfoldable pub settle_row : ReconcilerDeps → TradeRow → ConfirmStatus → KernelStore → KernelStore
unfolding held_by settle_state release_held consume_held
settle_row deps trade ConfirmStatus.confirmed s =
    set_state trade.id TradeState.confirmed (deps.clock trade.id)
      (consume_held (held_by trade.reservation_id) s)
settle_row deps trade status s =
    fail trade.id (settle_state status) (reconcile status) (deps.clock trade.id)
      (release_held (held_by trade.reservation_id) s)

unfoldable pub drop_row : ReconcilerDeps → TradeRow → KernelStore → KernelStore
unfolding held_by release_held
drop_row deps trade s =
    fail trade.id TradeState.errored reconcile_no_signature (deps.clock trade.id)
      (release_held (held_by trade.reservation_id) s)

unfoldable pub tally : ConfirmStatus → ReconcileSummary → ReconcileSummary
tally ConfirmStatus.confirmed sum = record sum { confirmed = sum.confirmed + 1 }
tally _ sum = record sum { failed = sum.failed + 1 }

-- One turn of the loop, from the signature and the answer of the confirmer on.
unfoldable pub settle_with :
    ReconcilerDeps
    → TradeRow
    → Result Failure ConfirmStatus
    → ReconcileSummary
    → KernelStore
    → Result Failure ReconcileSummary × KernelStore
unfolding settle_row tally
settle_with deps trade (err e) sum s = (err e, s)
settle_with deps trade (ok status) sum s = (ok (tally status sum), settle_row deps trade status s)

unfoldable pub recover_row :
    ReconcilerDeps
    → TradeRow
    → Option String
    → ReconcileSummary
    → KernelStore
    → Result Failure ReconcileSummary × KernelStore
unfolding settle_with drop_row
recover_row deps trade none sum s =
    (ok (record sum { failed = sum.failed + 1 }), drop_row deps trade s)
recover_row deps trade (some signature) sum s =
    settle_with deps trade (deps.confirm signature trade.last_valid_block_height) sum s

unfoldable pub recover_rest :
    ReconcilerDeps
    → List TradeRow
    → Result Failure ReconcileSummary
    → KernelStore
    → Result Failure ReconcileSummary × KernelStore
unfolding recover_row has_signature
recover_rest deps trades (err e) s = (err e, s)
recover_rest deps [] (ok sum) s = (ok sum, s)
recover_rest deps (trade ∷ trades) (ok sum) s =
    let (r, t) = recover_row deps trade (has_signature trade.signature) sum s in
    recover_rest deps trades r t

unfoldable pub recover :
    ReconcilerDeps → KernelStore → Result Failure ReconcileSummary × KernelStore
unfolding recover_rest pending_sent
recover deps s =
    recover_rest deps (pending_sent s)
      (ok (record { checked = length (pending_sent s); confirmed = 0; failed = 0 })) s
