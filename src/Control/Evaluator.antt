-- ===== src/Control/Evaluator.antt =====
-- `ProductionRiskEvaluator` of src/execution/control/index.ts: every reason for which a trade is
-- refused, and the trades that are allowed.
pub mod Allowed
use ari_os.Prelude.{
  String, Bool, true, false, not, ◌&&◌, ◌||◌, List, [], ◌∷◌, ◌++◌, Option, none, some, includes,
  str_eq, ◌≡◌, ◌↔◌, refl, arith, if◌then◌else◌,
}
use ari_os.Prelude.Int.{ℤ, pos, ltb_ℤ, leb_ℤ, eq_ℤ, includes_ℤ, ◌+ℤ◌, ◌-ℤ◌, ◌≤ℤ◌, ◌<ℤ◌, int_laws}
use ari_os.Prelude.Checks.{reasons, is_empty, Clean, reasons_iff}
use ari_os.Control.Ledger.Rows.{Reservation, LedgerEntry, sum_where, is_asset}

pub data RiskReason : Type 0 where
  chain_not_allowed account_not_allowed router_not_allowed token_not_allowed : RiskReason
  per_trade_unit_unconfigured token_exposure_unit_unconfigured per_trade_limit_exceeded : RiskReason
  invalid_amount slippage_exceeded quote_stale quote_block_stale quote_noncanonical : RiskReason
  insufficient_token_balance insufficient_gas_reserve token_reserved_exposure_exceeded : RiskReason
  notional_unavailable daily_notional_exceeded : RiskReason

pub record RiskLimits : Type 0 where
  pub chains : List ℤ
  pub accounts : List String
  pub routers : List String
  pub tokens : List String
  pub max_per_trade : List (String × ℤ)
  pub max_reserved_per_token : List (String × ℤ)
  pub max_slippage_bps : ℤ
  pub max_quote_age : ℤ
  pub max_quote_blocks : ℤ
  pub native_gas_reserve : ℤ
  pub max_daily_notional : Option ℤ

pub record RiskInput : Type 0 where
  pub now : ℤ
  pub chain : ℤ
  pub account : String
  pub router : String
  pub token_in : String
  pub token_out : String
  pub amount_in : ℤ
  pub slippage_bps : ℤ
  pub quote_at : ℤ
  pub quote_block : ℤ
  pub current_block : ℤ
  pub quote_block_hash : String
  pub canonical_block_hash : String
  pub token_balance : ℤ
  pub native_balance : ℤ
  pub estimated_gas_cost : ℤ
  pub notional : Option ℤ
  pub daily_notional : Option ℤ

unfoldable pub value_of : String → List (String × ℤ) → Option ℤ
value_of key [] = none
value_of key ((k, v) ∷ rest) = if str_eq k key then some v else value_of key rest

unfoldable pub is_missing : Option ℤ → Bool
is_missing none = true
is_missing (some n) = false

-- `n > cap`, where there is a cap.
unfoldable pub passes_cap : ℤ → Option ℤ → Bool
passes_cap n none = false
passes_cap n (some cap) = ltb_ℤ cap n

-- Older than the limit, or from the future.
unfoldable pub is_stale : ℤ → ℤ → ℤ → Bool
is_stale at now limit = ltb_ℤ now at || ltb_ℤ limit (now -ℤ at)

unfoldable pub passes_daily : Option ℤ → Option ℤ → ℤ → Bool
passes_daily (some a) (some b) max = ltb_ℤ max (a +ℤ b)
passes_daily _ _ max = false

unfoldable pub notional_checks : Option ℤ → Option ℤ → Option ℤ → List (Bool × RiskReason)
unfolding is_missing passes_daily
notional_checks none notional daily = []
notional_checks (some max) notional daily =
    (is_missing notional || is_missing daily, notional_unavailable)
    ∷ (passes_daily notional daily max, daily_notional_exceeded)
    ∷ []

unfoldable pub risk_checks : RiskLimits → RiskInput → List Reservation → List (Bool × RiskReason)
unfolding value_of is_missing passes_cap is_stale notional_checks sum_where is_asset
risk_checks l x rows =
    (not (includes_ℤ l.chains x.chain), chain_not_allowed)
    ∷ (not (includes l.accounts x.account), account_not_allowed)
    ∷ (not (includes l.routers x.router), router_not_allowed)
    ∷ (not (includes l.tokens x.token_in) || not (includes l.tokens x.token_out), token_not_allowed)
    ∷ (is_missing (value_of x.token_in l.max_per_trade), per_trade_unit_unconfigured)
    ∷ (is_missing (value_of x.token_in l.max_reserved_per_token), token_exposure_unit_unconfigured)
    ∷ (passes_cap x.amount_in (value_of x.token_in l.max_per_trade), per_trade_limit_exceeded)
    ∷ (leb_ℤ x.amount_in (pos 0), invalid_amount)
    ∷ (ltb_ℤ l.max_slippage_bps x.slippage_bps, slippage_exceeded)
    ∷ (is_stale x.quote_at x.now l.max_quote_age, quote_stale)
    ∷ (is_stale x.quote_block x.current_block l.max_quote_blocks, quote_block_stale)
    ∷ (
      str_eq x.quote_block_hash "" || not (str_eq x.quote_block_hash x.canonical_block_hash),
      quote_noncanonical,
    )
    ∷ (ltb_ℤ x.token_balance x.amount_in, insufficient_token_balance)
    ∷ (
      ltb_ℤ x.native_balance (x.estimated_gas_cost +ℤ l.native_gas_reserve),
      insufficient_gas_reserve,
    )
    ∷ (
      passes_cap (sum_where (is_asset x.token_in) rows +ℤ x.amount_in)
          (value_of x.token_in l.max_reserved_per_token),
      token_reserved_exposure_exceeded,
    )
    ∷ notional_checks l.max_daily_notional x.notional x.daily_notional

pub record Verdict : Type 0 where
  pub allowed : Bool
  pub refused_for : List RiskReason

unfoldable pub evaluate : RiskLimits → RiskInput → List Reservation → Verdict
unfolding risk_checks reasons is_empty
evaluate l x rows = record {
  allowed = is_empty (reasons (risk_checks l x rows));
  refused_for = reasons (risk_checks l x rows);
}
