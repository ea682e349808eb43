-- ===== src/Kernel/Examples.antt =====
-- Runs of the kernel on a small store (src/kernel), and its theorems at those runs.
use ari_os.Prelude.{
  ◌+◌, ◌*◌, ◌<◌, ◌≤◌, String, true, false, List, [], ◌∷◌, Option, none, some, ok, ◌≡◌, ◌↔◌, ◌⊎◌,
  refl, arith, length, str_eq, if◌then◌else◌,
}
use ari_os.Prelude.Int.{pos}
use ari_os.Prelude.Number.{of_ℕ}
use ari_os.Kernel.Contracts.{
  IntentKind, LandMode, MintProvenance, SpendCaps, PolicyConfig, TradeIntent, SignedTx,
  ConfirmStatus, TradeState,
}
use ari_os.Kernel.Money.{QuoteBucket, wsol_mint}
use ari_os.Kernel.Policy.{GuardOptions, static_guards}
use ari_os.Kernel.Policy.Admissible.{Admissible, static_guards_iff}
use ari_os.Kernel.Policy.MinOut.{static_guards-min_out}
use ari_os.Kernel.Store.Rows.{KernelStore, TradeRow, SpendRow, reserved, empty_store}
use ari_os.Kernel.Store.Spends.{ReserveArgs, reserve}
use ari_os.Kernel.Store.Caps.{MeetsCaps, reserve-MeetsCaps}
use ari_os.Kernel.Store.Trades.{has_claim, pending_sent}
use ari_os.Kernel.Gateway.Run.{Ports}
use ari_os.Kernel.Gateway.Prepare.{Request}
use ari_os.Kernel.Gateway.Live.{live, start}
use ari_os.Kernel.Gateway.Reservations.{Ended, live_accounts_for_spend}
use ari_os.Kernel.Gateway.Trace.{Ordered, live_effects_in_order}
use ari_os.Kernel.Gateway.Once.{total, signed_count, broadcast_count, live_at_most_once}
use ari_os.Kernel.Gateway.Confirmed.{Filled, live-Filled}
use ari_os.Kernel.Reconciler.{ReconcilerDeps, ReconcileSummary, recover}
use ari_os.Kernel.Reconciler.Recovery.{recover-leaves_none_sent}
use ari_os.Prelude.{includes}
use ari_os.Prelude.Int.{scale, times, ◌+ℤ◌, ◌-ℤ◌}
use ari_os.Prelude.Number.{exceeds, floor_div, floor, is_negative, is_finite}
use ari_os.Kernel.Contracts.{
  is_intent_kind, posts_zero_collateral, is_perp_intent_kind, settle_mode_for,
}
use ari_os.Kernel.Money.{quote_bucket_for, slippage_bps}
use ari_os.Kernel.Policy.{
  armed_guard, input_guard, perp_guard, perp_leg_guard, no_perp_leg_guard, provenance_guard,
  is_untrusted, priority_fee_guard, is_quote_asset, slippage_guard, mint_guards, not_listed,
}
use ari_os.Kernel.Store.Rows.{append_journal}
use ari_os.Kernel.Store.Spends.{
  is_active, same_bucket, in_window, sum_active, has_spend, reserved_row, insert_spend, is_reserved,
  release_row, release_reservation, consume_row, consume_reservation,
}
use ari_os.Kernel.Store.Trades.{
  claim_idempotency, has_trade, new_trade, insert_trade, update_row, update_trade, persist_signed,
  set_state, set_signature, trade_by_key,
}
use ari_os.Kernel.Gateway.Run.{◌>>=◌, pure, lift, update, emit, emit_broadcast}
use ari_os.Kernel.Gateway.Checks.{
  assert_settleable, both, assert_mints_supported, caps_of, position_ref, read_from, read_position,
}
use ari_os.Kernel.Gateway.Settle.{at_least_zero, shortfall_if, settle_tokens, settle_from, settle}
use ari_os.Kernel.Gateway.Prepare.{
  check, reserve_args, take_outcome, reserve_in, reserve_input, needed, before_of, read_before,
  trade_row, received, reserved_event, inserted_row, insert_row,
}
use ari_os.Kernel.Gateway.Live.{
  simulate_step, persist, sign_step, as_broadcast_failure, mark_sent, broadcast_with,
  broadcast_step, consume_held, confirmed_result, mark_confirmed, book_fill, read_after, finish,
  prepare, send, attempt, handle, claimed, duplicate_result,
}

abbrev caps : SpendCaps
caps = record { per_trade = pos 5_000; per_hour = pos 8_000; per_day = pos 9_000 }

abbrev policy : PolicyConfig
policy = record {
  execution_enabled = true;
  kill_switch = false;
  max_slippage_bps = pos 100;
  caps_sol = caps;
  caps_usdc = caps;
  mint_allowlist = none;
  mint_denylist = "scam" ∷ [];
  allow_token2022 = false;
  priority_fee_max_lamports = pos 50;
  priority_fee_max_bps = pos 100;
}

abbrev guard_options : GuardOptions
guard_options = record { dry_run = false; confirmed_by_user = false }

-- 4,000 lamports for a token, quoted at 700 with a minimum of 695.
abbrev buy : TradeIntent
buy = record {
  kind = IntentKind.swap;
  source = "test";
  input = record { mint = wsol_mint; amount = pos 4_000 };
  output_mint = "token";
  input_provenance = MintProvenance.user;
  output_provenance = MintProvenance.watchlist;
  unsigned_tx_base64 = "tx";
  last_valid_block_height = 90;
  land_mode = LandMode.self_rpc;
  land_handle = none;
  priority_fee_lamports = of_ℕ 10;
  quote = record { out_amount = pos 700; min_out_amount = pos 695; slippage_bps = of_ℕ 70 };
  perp = none;
  summary = "buy";
}

abbrev request : Request
request = record {
  intent = buy;
  opts = record { idempotency_key = "key"; dry_run = false; confirmed_by_user = false };
}

abbrev signed : SignedTx
signed = record { wire_base64 = "wire"; signature = "sig" }

-- Everything succeeds; the token balance goes from 0 to 698.
abbrev ports : Ports
ports = record {
  policy = policy;
  clock = λ m. 1_000;
  new_trade_id = "trade";
  new_reservation_id = "reservation";
  pubkey = "wallet";
  inspect = λ mint. ok false;
  balance_before = λ mint. if str_eq mint "token" then ok (pos 0) else ok (pos 9_000_000);
  balance_after = λ mint. if str_eq mint "token" then ok (pos 698) else ok (pos 8_996_000);
  simulate = λ tx. ok true;
  sign = λ tx. ok signed;
  broadcaster = λ mode. some (λ tx handle. ok "sig");
  confirm = λ signature height. ok ConfirmStatus.confirmed;
  positions = none;
}

guards_pass : static_guards policy buy guard_options ≡ ok tt
unfolding static_guards includes scale times ◌+ℤ◌ ◌-ℤ◌ exceeds floor_div floor is_negative is_finite
    is_intent_kind posts_zero_collateral is_perp_intent_kind settle_mode_for quote_bucket_for
    slippage_bps armed_guard input_guard perp_guard perp_leg_guard no_perp_leg_guard
    provenance_guard is_untrusted priority_fee_guard is_quote_asset slippage_guard mint_guards
    not_listed
guards_pass = refl

static_guards_iff_example :
    (static_guards policy buy guard_options ≡ ok tt) ↔ Admissible policy buy guard_options
static_guards_iff_example = static_guards_iff policy buy guard_options

static_guards-min_out_example : 10_000 * 700 < 10_000 * 695 + (100 + 51) * 700
static_guards-min_out_example =
    static_guards-min_out policy buy guard_options 700 695 100 (omega arith) refl refl refl
      guards_pass

abbrev earlier : SpendRow
earlier = record {
  id = "earlier";
  trade_id = "old";
  bucket = QuoteBucket.sol;
  amount = pos 4_500;
  state = reserved;
  created_at = 500;
}

abbrev spent_store : KernelStore
spent_store = record { trades = []; spends = earlier ∷ []; claims = []; journal = [] }

abbrev args : ReserveArgs
args = record {
  bucket = QuoteBucket.sol;
  amount = pos 3_000;
  caps = caps;
  trade_id = "trade";
  now = 1_000;
}

reserve-MeetsCaps_example :
    MeetsCaps "reservation" args spent_store
      (reserve "reservation" args spent_store).0
      (reserve "reservation" args spent_store).1
reserve-MeetsCaps_example = reserve-MeetsCaps "reservation" args spent_store

live_accounts_for_spend_example :
    ((has_claim "key" empty_store.claims ≡ true)
      × ((live ports request empty_store).1 ≡ start empty_store))
    ⊎ ((has_claim "key" empty_store.claims ≡ false)
        × Ended ports request []
            (live ports request empty_store).0
            (live ports request empty_store).1)
live_accounts_for_spend_example = live_accounts_for_spend ports request empty_store

live_effects_in_order_example : Ordered ports request (live ports request empty_store).1.effects
live_effects_in_order_example = live_effects_in_order ports request empty_store

abbrev twice : List (Ports × Request)
twice = (ports, request) ∷ (ports, request) ∷ []

live_at_most_once_example :
    (total signed_count "key" twice empty_store ≤ 1)
    × (total broadcast_count "key" twice empty_store ≤ 1)
live_at_most_once_example = live_at_most_once "key" twice empty_store

signs_once : total signed_count "key" twice empty_store ≡ 1
unfolding includes scale times ◌+ℤ◌ ◌-ℤ◌ exceeds floor_div floor is_negative is_finite
    is_intent_kind posts_zero_collateral is_perp_intent_kind settle_mode_for quote_bucket_for
    slippage_bps armed_guard input_guard perp_guard perp_leg_guard no_perp_leg_guard
    provenance_guard is_untrusted priority_fee_guard is_quote_asset slippage_guard mint_guards
    not_listed has_claim static_guards reserve live append_journal is_active same_bucket in_window
    sum_active has_spend reserved_row insert_spend is_reserved release_row release_reservation
    consume_row consume_reservation claim_idempotency has_trade new_trade insert_trade update_row
    update_trade persist_signed set_state set_signature trade_by_key ◌>>=◌ pure lift update emit
    emit_broadcast assert_settleable both assert_mints_supported caps_of position_ref read_from
    read_position at_least_zero shortfall_if settle_tokens settle_from settle check reserve_args
    take_outcome reserve_in reserve_input needed before_of read_before trade_row received
    reserved_event inserted_row insert_row simulate_step persist sign_step as_broadcast_failure
    mark_sent broadcast_with broadcast_step consume_held confirmed_result mark_confirmed book_fill
    read_after finish prepare send attempt handle claimed duplicate_result
signs_once = refl

no_error : (live ports request empty_store).0.error ≡ none
unfolding includes scale times ◌+ℤ◌ ◌-ℤ◌ exceeds floor_div floor is_negative is_finite
    is_intent_kind posts_zero_collateral is_perp_intent_kind settle_mode_for quote_bucket_for
    slippage_bps armed_guard input_guard perp_guard perp_leg_guard no_perp_leg_guard
    provenance_guard is_untrusted priority_fee_guard is_quote_asset slippage_guard mint_guards
    not_listed has_claim static_guards reserve live append_journal is_active same_bucket in_window
    sum_active has_spend reserved_row insert_spend is_reserved release_row release_reservation
    consume_row consume_reservation claim_idempotency has_trade new_trade insert_trade update_row
    update_trade persist_signed set_state set_signature trade_by_key ◌>>=◌ pure lift update emit
    emit_broadcast assert_settleable both assert_mints_supported caps_of position_ref read_from
    read_position at_least_zero shortfall_if settle_tokens settle_from settle check reserve_args
    take_outcome reserve_in reserve_input needed before_of read_before trade_row received
    reserved_event inserted_row insert_row simulate_step persist sign_step as_broadcast_failure
    mark_sent broadcast_with broadcast_step consume_held confirmed_result mark_confirmed book_fill
    read_after finish prepare send attempt handle claimed duplicate_result
no_error = refl

live-Filled_example : Filled ports request (live ports request empty_store).0
live-Filled_example = live-Filled ports request empty_store no_error

abbrev sent_row : String → Option String → TradeRow
sent_row id signature = record {
  id = id;
  idempotency_key = id;
  state = TradeState.sent;
  signature = signature;
  input_mint = wsol_mint;
  output_mint = "token";
  input_amount = pos 4_500;
  last_valid_block_height = 90;
  signed_wire = some "wire";
  error = none;
  reservation_id = some "earlier";
  created_at = 500;
  updated_at = 500;
}

abbrev crashed_store : KernelStore
crashed_store = record {
  trades = sent_row "a" (some "sig_a") ∷ sent_row "b" none ∷ [];
  spends = earlier ∷ [];
  claims = [];
  journal = [];
}

abbrev deps : ReconcilerDeps
deps = record { confirm = λ signature height. ok ConfirmStatus.confirmed; clock = λ id. 2_000 }

recover-leaves_none_sent_example :
    (sum : ReconcileSummary) × ((recover deps crashed_store).0 ≡ ok sum)
    × (pending_sent (recover deps crashed_store).1 ≡ [])
    × (sum.checked ≡ length (pending_sent crashed_store))
    × (sum.confirmed + sum.failed ≡ sum.checked)
recover-leaves_none_sent_example =
    recover-leaves_none_sent deps (λ signature height. ConfirmStatus.confirmed)
      (λ signature height. refl) crashed_store
