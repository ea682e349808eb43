-- ===== src/Kernel/Gateway/Prepare.antt =====
-- `#preview`, and the stages of `#live` up to the inserted trade row (src/kernel/trade-gateway.ts). A
-- stage is a step that may throw.
use ari_os.Prelude.{
  ℕ, String, Bool, true, not, Option, none, some, Result, ok, err, if◌then◌else◌, throw_if,
}
use ari_os.Prelude.Int.{ℤ, pos, ltb_ℤ, ◌+ℤ◌}
use ari_os.Kernel.Contracts.{
  Failure, guard_error, other_error, GuardCode, TradeIntent, ExecuteOptions, ExecuteResult,
}
use ari_os.Kernel.Contracts.{TradeState}
use ari_os.Kernel.Money.{QuoteBucket, sol, quote_bucket_for}
use ari_os.Kernel.Policy.{static_guards}
use ari_os.Kernel.Store.Rows.{
  KernelStore, JournalEvent, intent_received, trade_reserved, append_journal,
}
use ari_os.Kernel.Store.Spends.{
  usage, ReserveArgs, ReserveOutcome, granted, denied, conflict, reserve,
}
use ari_os.Kernel.Store.Trades.{NewTradeRow, insert_trade}
use ari_os.Kernel.Gateway.Run.{Ports, Moment, Progress, Step}
use ari_os.Kernel.Gateway.Checks.{
  throws, error_result, assert_settleable, assert_mints_supported, caps_of, assert_within_caps,
  both, read_position,
}

pub record Request : Type 0 where
  pub intent : TradeIntent
  pub opts : ExecuteOptions

-- Everything that is refused before money is reserved.
unfoldable pub check : Ports → Request → Bool → Result Failure (Unit {0})
check ports q dry =
    elim (static_guards ports.policy q.intent
      (record { dry_run = dry; confirmed_by_user = q.opts.confirmed_by_user })) [
        | err e ↦ err e
        | ok _ ↦ elim (assert_settleable ports q.intent) [
          | err e ↦ err e
          | ok _ ↦ assert_mints_supported ports q.intent
        ]
      ]

unfoldable pub preview_caps : Ports → Request → KernelStore → Result Failure (Unit {0})
preview_caps ports q s = elim (quote_bucket_for q.intent.input.mint) [
  | none ↦ ok tt
  | some bucket ↦
      assert_within_caps q.intent.input.amount (caps_of ports.policy bucket)
        (usage bucket (ports.clock Moment.started) s)
]

unfoldable pub preview_checks : Ports → Request → KernelStore → Result Failure (Unit {0})
unfolding preview_caps
preview_checks ports q s = elim (check ports q true) [
  | err e ↦ err e
  | ok _ ↦ elim (preview_caps ports q s) [
    | err e ↦ err e
    | ok _ ↦ elim (ports.simulate q.intent.unsigned_tx_base64) [
      | err e ↦ err e
      | ok done ↦ throw_if (not done) (guard_error GuardCode.simulation_failed)
    ]
  ]
]

-- Touches no row of the store.
unfoldable pub preview : Ports → Request → KernelStore → ExecuteResult
unfolding preview_checks
preview ports q s = elim (preview_checks ports q s) [
  | ok _ ↦ record {
    trade_id = ports.new_trade_id;
    state = TradeState.reserved;
    signature = none;
    simulated = true;
    fill = none;
    error = none;
  }
  | err e ↦ error_result ports.new_trade_id e true
]

unfoldable pub reserve_args : Ports → Request → QuoteBucket → ReserveArgs
reserve_args ports q bucket = record {
  bucket = bucket;
  amount = q.intent.input.amount;
  caps = caps_of ports.policy bucket;
  trade_id = ports.new_trade_id;
  now = ports.clock Moment.started;
}

unfoldable pub take_outcome :
    Progress → ReserveOutcome × KernelStore → Result Failure (Unit {0}) × Progress
take_outcome p (granted id hour day, s) = (ok tt, record p { store = s; reservation_id = some id })
take_outcome p (denied reason cap would, s) =
    (throws GuardCode.cap_exceeded, record p { store = s })
take_outcome p (conflict, s) = (err other_error, record p { store = s })

unfoldable pub reserve_in : Ports → Request → Option QuoteBucket → Step (Unit {0})
unfolding reserve_args take_outcome
reserve_in ports q none p = (ok tt, p)
reserve_in ports q (some bucket) p =
    take_outcome p (reserve ports.new_reservation_id (reserve_args ports q bucket) p.store)

-- Stage 2: reserve the input leg against its cap, when the input is a quote asset.
unfoldable pub reserve_input : Ports → Request → Step (Unit {0})
unfolding reserve_in
reserve_input ports q = reserve_in ports q (quote_bucket_for q.intent.input.mint)

abbrev pub fee_buffer_lamports : ℕ
fee_buffer_lamports = 3_000_000

unfoldable pub needed : TradeIntent → ℤ
needed intent =
    intent.input.amount
    +ℤ elim (quote_bucket_for intent.input.mint) [ some sol ↦ pos fee_buffer_lamports | _ ↦ pos 0 ]

pub record Before : Type 0 where
  pub input : ℤ
  pub output : ℤ
  pub position : Option ℤ

unfoldable pub before_of :
    TradeIntent → Result Failure (ℤ × ℤ) → Result Failure (Option ℤ) → Result Failure Before
before_of intent (err e) position = err e
before_of intent (ok (input, output)) (err e) = err e
before_of intent (ok (input, output)) (ok position) =
    if ltb_ℤ input (needed intent)
    then throws GuardCode.insufficient_balance
    else ok (record { input = input; output = output; position = position })

-- Stage 3: the balances and the position before anything is signed.
unfoldable pub read_before : Ports → TradeIntent → Result Failure Before
unfolding both before_of
read_before ports intent =
    before_of intent
      (both (ports.balance_before intent.input.mint) (ports.balance_before intent.output_mint))
      (read_position ports intent)

unfoldable pub trade_row : Ports → Request → NewTradeRow
trade_row ports q = record {
  id = ports.new_trade_id;
  idempotency_key = q.opts.idempotency_key;
  input_mint = q.intent.input.mint;
  output_mint = q.intent.output_mint;
  input_amount = q.intent.input.amount;
  last_valid_block_height = q.intent.last_valid_block_height;
  now = ports.clock Moment.started;
}

unfoldable pub received : Ports → Request → JournalEvent
received ports q =
    intent_received ports.new_trade_id (ports.clock Moment.started) q.opts.idempotency_key
      q.intent.source q.intent.summary

unfoldable pub reserved_event : Ports → Request → Option String → KernelStore → KernelStore
reserved_event ports q none s = s
reserved_event ports q (some id) s =
    append_journal
      (trade_reserved ports.new_trade_id (ports.clock Moment.started)
        (quote_bucket_for q.intent.input.mint) q.intent.input.amount)
      s

unfoldable pub inserted_row :
    Ports → Request → Progress → Option KernelStore → Result Failure (Unit {0}) × Progress
unfolding received reserved_event
inserted_row ports q p none = (err other_error, p)
inserted_row ports q p (some s) = (
  ok tt,
  record p {
    store = reserved_event ports q p.reservation_id (append_journal (received ports q) s);
    inserted = true;
  },
)

-- Stage 4: the trade row and its first events.
unfoldable pub insert_row : Ports → Request → Step (Unit {0})
unfolding inserted_row
insert_row ports q p =
    inserted_row ports q p (insert_trade (trade_row ports q) p.reservation_id p.store)
