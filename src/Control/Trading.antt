-- ===== src/Control/Trading.antt =====
-- `TradingControl` of src/execution/control/index.ts. The digest of a policy and the check of its
-- signature are parameters; a verifier that throws refuses.
pub mod Permitted
pub mod Limits
pub mod Reserved
use ari_os.Prelude.{
  ℕ, String, Bool, true, false, not, ◌&&◌, ◌||◌, List, [], ◌∷◌, ◌++◌, Option, none, some, includes,
  str_eq, if◌then◌else◌,
}
use ari_os.Prelude.Int.{ℤ, pos, ltb_ℤ, leb_ℤ, eq_ℤ, includes_ℤ, times, ◌+ℤ◌, ◌-ℤ◌, ◌*ℤ◌}
use ari_os.Prelude.Checks.{reasons, is_empty}
use ari_os.Control.Ledger.Rows.{
  LedgerEntry, Ledger, LedgerOptions, Reservation, expire, has_id, sum_where, is_asset, usage,
  reserve,
}
use ari_os.Control.Policy.{
  PolicyDocument, SignedPolicyReference, TradeRequest, is_valid_policy, any_negative,
}

pub data Reason : Type 0 where
  policy_signature_invalid invalid_numeric_input invalid_amount quote_future oracle_future : Reason
  heartbeat_future policy_inactive global_kill_switch strategy_kill_switch chain_not_allowed :
      Reason
  account_not_allowed token_not_allowed router_not_allowed target_not_allowed : Reason
  selector_not_allowed recipient_not_allowed approval_not_exact per_trade_limit_exceeded : Reason
  quote_stale slippage_exceeded impact_exceeded gas_exceeded fees_exceeded liquidity_too_low :
      Reason
  tax_exceeded proxy_forbidden oracle_stale sequencer_down total_exposure_exceeded : Reason
  asset_exposure_exceeded concentration_exceeded drawdown_exceeded loss_exceeded : Reason
  dead_man_switch asset_hourly_limit_exceeded asset_daily_limit_exceeded : Reason
  strategy_hourly_limit_exceeded strategy_daily_limit_exceeded duplicate_trade_id : Reason

pub record TradingControl : Type 0 where
  pub policy : PolicyDocument
  pub ref : SignedPolicyReference
  pub digest : PolicyDocument → String
  pub verify : SignedPolicyReference → String → Bool
  pub options : LedgerOptions

unfoldable pub is_signed : TradingControl → Bool
unfolding is_valid_policy
is_signed c =
    is_valid_policy c.policy
    && str_eq (c.digest c.policy) c.ref.policy_hash
    && c.verify c.ref (c.digest c.policy)

abbrev pub trade_values : TradeRequest → List ℤ
trade_values t =
    t.now ∷ t.chain ∷ t.amount ∷ t.approval_amount ∷ t.quote_at ∷ t.slippage_bps ∷ t.impact_bps
    ∷ t.gas ∷ t.fees ∷ t.liquidity ∷ t.tax_bps ∷ t.oracle_at ∷ t.portfolio_exposure
    ∷ t.asset_exposure ∷ t.portfolio_value ∷ t.peak_value ∷ t.realized_loss ∷ t.unrealized_loss
    ∷ t.last_heartbeat ∷ []

-- The request itself, and whether the policy is in force.
unfoldable pub request_checks : TradingControl → TradeRequest → List (Bool × Reason)
unfolding is_signed any_negative
request_checks c t =
    let p = c.policy in
    (not (is_signed c), policy_signature_invalid)
    ∷ (any_negative (trade_values t) || eq_ℤ t.amount (pos 0), invalid_numeric_input)
    ∷ (leb_ℤ t.amount (pos 0), invalid_amount)
    ∷ (ltb_ℤ t.now t.quote_at, quote_future)
    ∷ (ltb_ℤ t.now t.oracle_at, oracle_future)
    ∷ (ltb_ℤ t.now t.last_heartbeat, heartbeat_future)
    ∷ (ltb_ℤ t.now p.effective_at || leb_ℤ p.expires_at t.now, policy_inactive)
    ∷ (p.global_kill, global_kill_switch)
    ∷ (includes p.strategy_kills t.strategy, strategy_kill_switch)
    ∷ []

unfoldable pub allow_checks : PolicyDocument → TradeRequest → List (Bool × Reason)
allow_checks p t =
    (not (includes_ℤ p.allow.chains t.chain), chain_not_allowed)
    ∷ (not (includes p.allow.accounts t.account), account_not_allowed)
    ∷ (
      not (includes p.allow.tokens t.token_in && includes p.allow.tokens t.token_out),
      token_not_allowed,
    )
    ∷ (not (includes p.allow.routers t.router), router_not_allowed)
    ∷ (not (includes p.allow.targets t.target), target_not_allowed)
    ∷ (not (includes p.allow.selectors t.selector), selector_not_allowed)
    ∷ (not (includes p.allow.recipients t.recipient), recipient_not_allowed)
    ∷ []

unfoldable pub market_checks : PolicyDocument → TradeRequest → List (Bool × Reason)
market_checks p t =
    (not (eq_ℤ t.approval_amount t.amount), approval_not_exact)
    ∷ (ltb_ℤ p.limits.per_trade t.amount, per_trade_limit_exceeded)
    ∷ (ltb_ℤ p.market.max_quote_age (t.now -ℤ t.quote_at), quote_stale)
    ∷ (ltb_ℤ p.market.max_slippage_bps t.slippage_bps, slippage_exceeded)
    ∷ (ltb_ℤ p.market.max_impact_bps t.impact_bps, impact_exceeded)
    ∷ (ltb_ℤ p.market.max_gas t.gas, gas_exceeded)
    ∷ (ltb_ℤ p.market.max_fees t.fees, fees_exceeded)
    ∷ (ltb_ℤ t.liquidity p.market.min_liquidity, liquidity_too_low)
    ∷ (ltb_ℤ p.market.max_tax_bps t.tax_bps, tax_exceeded)
    ∷ (t.is_proxy && not p.market.allow_proxy, proxy_forbidden)
    ∷ (ltb_ℤ p.market.max_oracle_age (t.now -ℤ t.oracle_at), oracle_stale)
    ∷ (p.market.require_sequencer_up && not t.sequencer_up, sequencer_down)
    ∷ []

abbrev pub any_entry : LedgerEntry → Bool
any_entry e = true

unfoldable pub is_strategy : String → LedgerEntry → Bool
is_strategy strategy e = str_eq e.strategy strategy

unfoldable pub exposure_checks : PolicyDocument → TradeRequest → Ledger → List (Bool × Reason)
unfolding sum_where is_asset
exposure_checks p t l =
    let asset = sum_where (is_asset t.token_in) l.rows in
    let total = sum_where any_entry l.rows in
    (
      ltb_ℤ p.limits.total_exposure (t.portfolio_exposure +ℤ total +ℤ t.amount),
      total_exposure_exceeded,
    )
    ∷ (
      ltb_ℤ p.limits.asset_exposure (t.asset_exposure +ℤ asset +ℤ t.amount),
      asset_exposure_exceeded,
    )
    ∷ (
      leb_ℤ t.portfolio_value (pos 0)
          || ltb_ℤ (p.limits.concentration_bps *ℤ t.portfolio_value)
              ((t.asset_exposure +ℤ asset +ℤ t.amount) *ℤ pos 10_000),
      concentration_exceeded,
    )
    ∷ (
      ltb_ℤ t.portfolio_value t.peak_value
          && ltb_ℤ p.limits.drawdown (t.peak_value -ℤ t.portfolio_value),
      drawdown_exceeded,
    )
    ∷ (ltb_ℤ p.limits.total_loss (t.realized_loss +ℤ t.unrealized_loss), loss_exceeded)
    ∷ (ltb_ℤ p.dead_man_after (t.now -ℤ t.last_heartbeat), dead_man_switch)
    ∷ []

-- The spend of a window with the request in it.
unfoldable pub window_use : TradeRequest → ℤ → (LedgerEntry → Bool) → Ledger → ℤ
unfolding usage
window_use t w p l = usage t.now w p l +ℤ t.amount

unfoldable pub window_checks : PolicyDocument → TradeRequest → Ledger → List (Bool × Reason)
unfolding window_use is_strategy is_asset has_id
window_checks p t l =
    (
      ltb_ℤ p.limits.asset_hourly (window_use t (pos 3_600) (is_asset t.token_in) l),
      asset_hourly_limit_exceeded,
    )
    ∷ (
      ltb_ℤ p.limits.asset_daily (window_use t (pos 86_400) (is_asset t.token_in) l),
      asset_daily_limit_exceeded,
    )
    ∷ (
      ltb_ℤ p.limits.strategy_hourly (window_use t (pos 3_600) (is_strategy t.strategy) l),
      strategy_hourly_limit_exceeded,
    )
    ∷ (
      ltb_ℤ p.limits.strategy_daily (window_use t (pos 86_400) (is_strategy t.strategy) l),
      strategy_daily_limit_exceeded,
    )
    ∷ (has_id t.id l.rows, duplicate_trade_id)
    ∷ []

unfoldable pub trade_checks : TradingControl → TradeRequest → Ledger → List (Bool × Reason)
unfolding request_checks allow_checks market_checks exposure_checks window_checks
trade_checks c t l =
    request_checks c t
    ++ (allow_checks c.policy t
        ++ (market_checks c.policy t
            ++ (exposure_checks c.policy t l ++ window_checks c.policy t l)))

pub record Decision : Type 0 where
  pub allowed : Bool
  pub refused_for : List Reason
  pub reservation_id : Option String

abbrev pub entry_of : TradeRequest → LedgerEntry
entry_of t = record {
  id = t.id;
  at = t.now;
  asset = t.token_in;
  strategy = t.strategy;
  amount = t.amount;
}

unfoldable pub decided : TradeRequest → Bool × Ledger → Decision × Ledger
decided t (true, l) = (record { allowed = true; refused_for = []; reservation_id = some t.id }, l)
decided t (false, l) =
    (record { allowed = false; refused_for = duplicate_trade_id ∷ []; reservation_id = none }, l)

unfoldable pub decide : TradingControl → TradeRequest → List Reason → Ledger → Decision × Ledger
unfolding decided reserve
decide c t [] l = decided t (reserve c.options (entry_of t) l)
decide c t (r ∷ rs) l = (record { allowed = false; refused_for = r ∷ rs; reservation_id = none }, l)

-- Reading the entries expires the reservations of the past; the reads after it expire nothing more.
unfoldable pub reserve_trade : TradingControl → TradeRequest → Ledger → Decision × Ledger
unfolding trade_checks reasons decide expire
reserve_trade c t l = let live = expire t.now l in decide c t (reasons (trade_checks c t live)) live
