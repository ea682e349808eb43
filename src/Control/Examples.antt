-- ===== src/Control/Examples.antt =====
-- A policy, two trades and a small ledger, and the theorems on them (src/execution/control/index.ts).
use ari_os.Prelude.{ℕ, arith, true, false, [], ◌∷◌, none, some, ◌≡◌, ◌↔◌, refl}
use ari_os.Prelude.Int.{pos, ◌+ℤ◌, ◌-ℤ◌, ◌*ℤ◌}
use ari_os.Prelude.Number.{of_ℕ}
use ari_os.Prelude.Checks.{reasons, reasons_iff}
use ari_os.Control.Ledger.Rows.{
  LedgerEntry, Ledger, ok, expire, unexpired, has_id, has_committed, plain_row, reserve, release,
  commit, discrepancy, Changes, as_number,
}
use ari_os.Control.Ledger.Within.{WithinLimits, quoted, reserve_within}
use ari_os.Control.Ledger.Snapshot.{reconcile, committed_row}
use ari_os.Control.Ledger.Granted.{Answer, Granted, reserve_within_lem}
use ari_os.Control.Ledger.Amounts.{Unique}
use ari_os.Control.Ledger.Balanced.{Balanced, reconcile_iff}
use ari_os.Control.Ledger.Steps.{LedgerSteps, reads, reserves, stop, step}
use ari_os.Control.Ledger.Committed.{LedgerSteps-committed}
use ari_os.Control.Evaluator.{RiskLimits, RiskInput, evaluate}
use ari_os.Control.Evaluator.Allowed.{Acceptable, evaluate_iff}
use ari_os.Control.Policy.{PolicyDocument, TradeRequest}
use ari_os.Control.Trading.{TradingControl, reserve_trade, trade_checks}
use ari_os.Control.Trading.Reserved.{Decided, reserve_trade_lem, reserve_trade-granted}

abbrev limits : RiskLimits
limits = record {
  chains = pos 1 ∷ [];
  accounts = "0xa" ∷ [];
  routers = "0xr" ∷ [];
  tokens = "USDC" ∷ "WETH" ∷ [];
  max_per_trade = ("USDC", pos 100) ∷ [];
  max_reserved_per_token = ("USDC", pos 150) ∷ [];
  max_slippage_bps = pos 50;
  max_quote_age = pos 30;
  max_quote_blocks = pos 2;
  native_gas_reserve = pos 10;
  max_daily_notional = none;
}

abbrev input : RiskInput
input = record {
  now = pos 1_000;
  chain = pos 1;
  account = "0xa";
  router = "0xr";
  token_in = "USDC";
  token_out = "WETH";
  amount_in = pos 60;
  slippage_bps = pos 50;
  quote_at = pos 980;
  quote_block = pos 7;
  current_block = pos 8;
  quote_block_hash = "0xb";
  canonical_block_hash = "0xb";
  token_balance = pos 60;
  native_balance = pos 30;
  estimated_gas_cost = pos 20;
  notional = none;
  daily_notional = none;
}

abbrev policy : PolicyDocument
policy = record {
  version = "1";
  effective_at = pos 100;
  expires_at = pos 9_000;
  allow = record {
    chains = pos 1 ∷ [];
    accounts = "0xa" ∷ [];
    tokens = "USDC" ∷ "WETH" ∷ [];
    routers = "0xr" ∷ [];
    targets = "0xt" ∷ [];
    selectors = "0x01" ∷ [];
    recipients = "0xa" ∷ [];
  };
  limits = record {
    per_trade = pos 100;
    asset_hourly = pos 120;
    asset_daily = pos 500;
    strategy_hourly = pos 120;
    strategy_daily = pos 500;
    total_exposure = pos 1_000;
    asset_exposure = pos 400;
    concentration_bps = pos 5_000;
    drawdown = pos 50;
    total_loss = pos 20;
  };
  market = record {
    max_quote_age = pos 30;
    max_slippage_bps = pos 100;
    max_impact_bps = pos 100;
    max_gas = pos 10;
    max_fees = pos 10;
    min_liquidity = pos 1_000;
    max_tax_bps = pos 0;
    allow_proxy = false;
    max_oracle_age = pos 60;
    require_sequencer_up = true;
  };
  dead_man_after = pos 300;
  global_kill = false;
  strategy_kills = [];
}

abbrev control : TradingControl
control = record {
  policy = policy;
  ref = record { policy_hash = "h"; signature = "s" };
  digest = λ p. "h";
  verify = λ r h. true;
  options = record { ttl = pos 3_600; aggregate_quote = none };
}

abbrev trade : TradeRequest
trade = record {
  id = "t2";
  now = pos 5_000;
  chain = pos 1;
  account = "0xa";
  token_in = "USDC";
  token_out = "WETH";
  router = "0xr";
  target = "0xt";
  selector = "0x01";
  recipient = "0xa";
  strategy = "grid";
  amount = pos 60;
  approval_amount = pos 60;
  quote_at = pos 4_990;
  slippage_bps = pos 50;
  impact_bps = pos 10;
  gas = pos 5;
  fees = pos 1;
  liquidity = pos 50_000;
  tax_bps = pos 0;
  is_proxy = false;
  oracle_at = pos 4_980;
  sequencer_up = true;
  portfolio_exposure = pos 100;
  asset_exposure = pos 50;
  portfolio_value = pos 1_000;
  peak_value = pos 1_010;
  realized_loss = pos 3;
  unrealized_loss = pos 4;
  last_heartbeat = pos 4_900;
}

abbrev entry_1 : LedgerEntry
entry_1 = record { id = "t1"; at = pos 4_000; asset = "USDC"; strategy = "grid"; amount = pos 60 }

abbrev entry_3 : LedgerEntry
entry_3 = record { id = "t3"; at = pos 5_000; asset = "USDC"; strategy = "grid"; amount = pos 20 }

-- One reservation that is over, and one that holds.
abbrev ledger : Ledger
ledger = record {
  rows =
      plain_row control.options (record entry_1 { id = "t0"; at = pos 100 })
      ∷ plain_row control.options entry_1
      ∷ [];
  status = ok;
}

abbrev settled : Ledger
settled = record { rows = committed_row entry_1 ∷ []; status = ok }

evaluate_iff_example :
    ((evaluate limits input ledger.rows).allowed ≡ true) ↔ Acceptable limits input ledger.rows
evaluate_iff_example = evaluate_iff limits input ledger.rows

reserve_trade_lem_example : Decided control trade ledger (reserve_trade control trade ledger)
reserve_trade_lem_example = reserve_trade_lem control trade ledger

no_reason : reasons (trade_checks control trade (expire trade.now ledger)) ≡ []
unfolding trade_checks expire reasons ◌-ℤ◌ ◌+ℤ◌ ◌*ℤ◌ plain_row
no_reason = refl

reserve_trade-granted_example : (reserve_trade control trade ledger).0.allowed ≡ true
reserve_trade-granted_example =
    reserve_trade-granted control trade ledger refl (omega arith) (unfold ◌+ℤ◌ in omega arith)
      (omega arith)
      ((reasons_iff (trade_checks control trade (expire trade.now ledger))).0 no_reason)

abbrev within : WithinLimits
within = record {
  per_asset = pos 100;
  aggregate = quoted (record {
    denomination = "USD";
    decimals = of_ℕ 6;
    max = pos 100;
    value = pos 20;
    evidence = "oracle";
  });
}

reserve_within_lem_example :
    Answer
      (Granted entry_3 within (record { rows = []; status = ok }))
      (pos 5_000)
      (record { rows = []; status = ok })
      (reserve_within control.options entry_3 within (record { rows = []; status = ok }))
reserve_within_lem_example =
    reserve_within_lem control.options entry_3 within (record { rows = []; status = ok })

settled_agrees : reconcile (entry_1 ∷ []) (pos 5_000) settled ≡ some (ok, settled)
unfolding reconcile
settled_agrees = refl

settled_Unique : Unique settled.rows
unfolding Unique has_id
settled_Unique = (refl, tt)

reconcile_iff_example :
    (ok ≡ ok) × ((ok ≡ ok) ↔ Balanced (entry_1 ∷ []) (unexpired (pos 5_000) settled.rows))
reconcile_iff_example =
    reconcile_iff (entry_1 ∷ []) (pos 5_000) settled (ok, settled) settled_Unique settled_agrees

-- An amount that differs.
differs :
    (reconcile (record entry_1 { amount = pos 61 } ∷ []) (pos 5_000) settled)
    ≡ some (discrepancy, record settled { status = discrepancy })
unfolding reconcile
differs = refl

-- The default of the driver: the number of changed rows is a `number`.
by_default : ℕ → Changes
by_default = as_number

release_then : (release by_default "t1" ledger).0 ≡ false
unfolding release by_default
release_then = refl

-- Two trades on an empty ledger, the first of them committed.
abbrev empty : Ledger
empty = record { rows = []; status = ok }

abbrev one : Ledger
one = (reserve control.options entry_1 empty).1

abbrev paid : Ledger
paid = (commit as_number "t1" (pos 4_100) one).1

abbrev later : Ledger
later = expire (pos 9_000) (reserve control.options entry_3 paid).1

day : LedgerSteps control.options paid later
day =
    step _ _ _ (reserves entry_3 paid)
      (step _ _ _ (reads (pos 9_000) (reserve control.options entry_3 paid).1) (stop later))

is_paid : has_committed "t1" paid.rows ≡ true
unfolding reserve commit has_committed ◌+ℤ◌
is_paid = refl

LedgerSteps-committed_example : has_committed "t1" later.rows ≡ true
LedgerSteps-committed_example = LedgerSteps-committed control.options "t1" paid later day is_paid
