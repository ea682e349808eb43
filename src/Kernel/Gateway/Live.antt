-- ===== src/Kernel/Gateway/Live.antt =====
-- `#live` of src/kernel/trade-gateway.ts from the simulation on, and as a whole: `attempt` is the try
-- block and `handle` its handler.
use ari_os.Prelude.{
  String, Bool, true, false, not, [], Option, none, some, Result, ok, err, if◌then◌else◌, throw_if,
}
use ari_os.Prelude.Int.{ℤ, ◌-ℤ◌}
use ari_os.Kernel.Contracts.{
  Failure, guard_error, GuardCode, TradeIntent, ExecuteResult, guard_code, SignedTx, ConfirmStatus,
}
use ari_os.Kernel.Contracts.{TradeState}
use ari_os.Kernel.Store.Rows.{
  KernelStore, TradeRow, guard_rejected, trade_simulated, trade_signed, trade_sent, trade_confirmed,
  trade_failed, append_journal,
}
use ari_os.Kernel.Store.Spends.{release_reservation, consume_reservation}
use ari_os.Kernel.Store.Trades.{
  claim_idempotency, trade_by_key, persist_signed, set_state, set_signature, fail,
}
use ari_os.Kernel.Gateway.Run.{
  Ports, Moment, signs, Progress, Step, ◌>>=◌, ◌>>◌, pure, lift, update, emit, emit_broadcast,
}
use ari_os.Kernel.Gateway.Checks.{throws, journalled, reported, error_result, both}
use ari_os.Kernel.Gateway.Settle.{Settled, settle}
use ari_os.Kernel.Gateway.Prepare.{
  Request, Before, check, reserve_input, read_before, insert_row, preview,
}

-- Stage 5.
unfoldable pub simulate_step : Ports → Request → Step (Unit {0})
simulate_step ports q = do
  done ← lift (ports.simulate q.intent.unsigned_tx_base64)
  update (append_journal (trade_simulated ports.new_trade_id (ports.clock Moment.simulated) done))
  lift (throw_if (not done) (guard_error GuardCode.simulation_failed))

unfoldable pub persist : Ports → SignedTx → KernelStore → KernelStore
persist ports signed s =
    append_journal
      (trade_signed ports.new_trade_id (ports.clock Moment.signed_event) signed.signature)
      (persist_signed ports.new_trade_id signed.wire_base64 signed.signature
        (ports.clock Moment.persisted) s)

-- Stage 6: sign, then persist the signed wire before it is broadcast.
unfoldable pub sign_step : Ports → Request → Step SignedTx
unfolding persist
sign_step ports q = do
  emit (signs q.intent.unsigned_tx_base64)
  signed ← lift (ports.sign q.intent.unsigned_tx_base64)
  update (persist ports signed)
  pure signed

-- An error of the broadcaster is reported as a failed broadcast.
unfoldable pub as_broadcast_failure : Result Failure String → Result Failure String
as_broadcast_failure (ok signature) = ok signature
as_broadcast_failure (err e) = throws GuardCode.broadcast_failed

unfoldable pub mark_sent : Ports → String → KernelStore → KernelStore
mark_sent ports signature s =
    append_journal (trade_sent ports.new_trade_id (ports.clock Moment.sent_event) signature) (
      set_state ports.new_trade_id TradeState.sent (ports.clock Moment.sent)
        (set_signature ports.new_trade_id signature (ports.clock Moment.signature_set) s))

unfoldable pub broadcast_with :
    Ports
    → Request
    → SignedTx
    → Option (SignedTx → Option String → Result Failure String)
    → Step String
unfolding as_broadcast_failure mark_sent
broadcast_with ports q signed none = lift (throws GuardCode.broadcast_failed)
broadcast_with ports q signed (some broadcast) = do
  emit_broadcast signed
  signature ← lift (as_broadcast_failure (broadcast signed q.intent.land_handle))
  update (mark_sent ports signature)
  pure signature

-- Stage 7.
unfoldable pub broadcast_step : Ports → Request → SignedTx → Step String
unfolding broadcast_with
broadcast_step ports q signed = broadcast_with ports q signed (ports.broadcaster q.intent.land_mode)

unfoldable pub release_held : Option String → KernelStore → KernelStore
release_held none s = s
release_held (some id) s = release_reservation id s

unfoldable pub consume_held : Option String → KernelStore → KernelStore
consume_held none s = s
consume_held (some id) s = consume_reservation id s

unfoldable pub unconfirmed_code : ConfirmStatus → GuardCode
unconfirmed_code ConfirmStatus.expired = GuardCode.confirm_timeout
unconfirmed_code _ = GuardCode.broadcast_failed

unfoldable pub unconfirmed_state : ConfirmStatus → TradeState
unconfirmed_state ConfirmStatus.expired = TradeState.expired
unconfirmed_state _ = TradeState.errored

-- Stage 8, not confirmed: release the reservation and fail the trade.
unfoldable pub give_up : Ports → ConfirmStatus → Step ExecuteResult
unfolding release_held
give_up ports status p = (
  ok (error_result ports.new_trade_id (guard_error (unconfirmed_code status)) false),
  record p {
    store =
        append_journal
          (trade_failed ports.new_trade_id (ports.clock Moment.unconfirmed_event)
            (unconfirmed_code status))
          (fail ports.new_trade_id (unconfirmed_state status) (guard_code (unconfirmed_code status))
            (ports.clock Moment.unconfirmed) (release_held p.reservation_id p.store));
  },
)

unfoldable pub confirmed_result : Ports → String → Settled → ℤ → ℤ → ExecuteResult
confirmed_result ports signature settled spent got = record {
  trade_id = ports.new_trade_id;
  state = TradeState.confirmed;
  signature = some signature;
  simulated = false;
  fill = some (record {
    input_delta = spent;
    output_delta = got;
    effective_slippage_bps = settled.effective_slippage_bps;
    position_delta = settled.position_delta;
  });
  error = elim settled.problem [ none ↦ none | some code ↦ some (guard_code code) ];
}

unfoldable pub mark_confirmed :
    Ports → String → Settled → ℤ → ℤ → Option String → KernelStore → KernelStore
unfolding consume_held
mark_confirmed ports signature settled spent got held s =
    append_journal
      (trade_confirmed ports.new_trade_id (ports.clock Moment.settled_event) signature spent got
        settled.effective_slippage_bps settled.position_delta)
      (set_state ports.new_trade_id TradeState.confirmed (ports.clock Moment.settled)
        (consume_held held s))

-- Stage 9, after both balances are read again.
unfoldable pub book_fill : Ports → Request → String → Before → ℤ × ℤ → Step ExecuteResult
unfolding mark_confirmed confirmed_result
book_fill ports q signature before (input, output) p =
    let spent = input -ℤ before.input in
    let got = output -ℤ before.output in
    let settled = settle ports q.intent got before.position in
    (
      ok (confirmed_result ports signature settled spent got),
      record p {
        store = mark_confirmed ports signature settled spent got p.reservation_id p.store;
      },
    )

unfoldable pub read_after : Ports → TradeIntent → Result Failure (ℤ × ℤ)
unfolding both
read_after ports intent =
    both (ports.balance_after intent.input.mint) (ports.balance_after intent.output_mint)

unfoldable pub finish : Ports → Request → String → Before → ConfirmStatus → Step ExecuteResult
finish ports q signature before ConfirmStatus.confirmed = do
  after ← lift (read_after ports q.intent)
  book_fill ports q signature before after
finish ports q signature before status = give_up ports status

-- Stages 1 to 4 of the try block.
unfoldable pub prepare : Ports → Request → Step Before
prepare ports q = do
  lift (check ports q false)
  reserve_input ports q
  before ← lift (read_before ports q.intent)
  insert_row ports q
  pure before

-- Stages 5 to 9.
unfoldable pub send : Ports → Request → Before → Step ExecuteResult
send ports q before = do
  simulate_step ports q
  signed ← sign_step ports q
  signature ← broadcast_step ports q signed
  status ← lift (ports.confirm signature q.intent.last_valid_block_height)
  finish ports q signature before status

unfoldable pub attempt : Ports → Request → Step ExecuteResult
unfolding prepare send
attempt ports q = do before ← prepare ports q; send ports q before

unfoldable pub record_failure : Ports → Failure → Progress → KernelStore → KernelStore
record_failure ports e p s =
    if p.inserted
    then append_journal
        (trade_failed ports.new_trade_id (ports.clock Moment.failed_event) (journalled e))
        (fail ports.new_trade_id TradeState.errored (reported e) (ports.clock Moment.failed) s)
    else append_journal
        (guard_rejected ports.new_trade_id (ports.clock Moment.failed_event) (journalled e)) s

-- The handler: release, then mark the row or journal the refusal.
unfoldable pub handle : Ports → Result Failure ExecuteResult × Progress → ExecuteResult × Progress
unfolding release_held record_failure
handle ports (ok result, p) = (result, p)
handle ports (err e, p) = (
  error_result ports.new_trade_id e false,
  record p { store = record_failure ports e p (release_held p.reservation_id p.store) },
)

unfoldable pub duplicate_result : Ports → Option TradeRow → ExecuteResult
duplicate_result ports none = record {
  trade_id = ports.new_trade_id;
  state = TradeState.rejected;
  signature = none;
  simulated = false;
  fill = none;
  error = some (guard_code GuardCode.duplicate_intent);
}
duplicate_result ports (some prior) = record {
  trade_id = prior.id;
  state = prior.state;
  signature = prior.signature;
  simulated = false;
  fill = none;
  error = some (guard_code GuardCode.duplicate_intent);
}

abbrev pub start : KernelStore → Progress
start s = record { store = s; effects = []; reservation_id = none; inserted = false }

unfoldable pub claimed : Ports → Request → Bool × KernelStore → ExecuteResult × Progress
unfolding duplicate_result
claimed ports q (false, s) =
    (duplicate_result ports (trade_by_key q.opts.idempotency_key s.trades), start s)
claimed ports q (true, s) = handle ports (attempt ports q (start s))

unfoldable pub live : Ports → Request → KernelStore → ExecuteResult × Progress
unfolding claimed
live ports q s =
    claimed ports q
      (claim_idempotency q.opts.idempotency_key ports.new_trade_id (ports.clock Moment.started) s)

unfoldable pub execute : Ports → Request → KernelStore → ExecuteResult × Progress
execute ports q s = if q.opts.dry_run then (preview ports q s, start s) else live ports q s
