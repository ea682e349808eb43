-- ===== src/Control/Trading/Permitted.antt =====
-- What a reserved trade satisfies (`TradingControl` of src/execution/control/index.ts).

use ari_os.Prelude.{
  Bool, true, false, not, ◌&&◌, includes, ◌≡◌, refl, inl, inr, ◌⊎◌, true_of_not, or_false, and_true,
}
use ari_os.Prelude.Int.{
  ℤ, pos, ltb_ℤ, includes_ℤ, ◌+ℤ◌, ◌-ℤ◌, ◌≤ℤ◌, ◌<ℤ◌, eq_of_eq_ℤ, le_of_not_ltb, lt_of_not_leb,
}
use ari_os.Prelude.Checks.{Clean}
use ari_os.Control.Ledger.Rows.{Ledger}
use ari_os.Control.Policy.{PolicyDocument, TradeRequest, any_negative}
use ari_os.Control.Trading.{
  TradingControl, trade_values, is_signed, request_checks, allow_checks, market_checks,
  exposure_checks,
}

-- The policy is signed, in force and not stopped, and allows every party to the trade.
pub record Authorized (c : TradingControl) (t : TradeRequest) : Type 0 where
  pub signed : is_signed c ≡ true
  pub started : c.policy.effective_at ≤ℤ t.now
  pub unexpired : t.now <ℤ c.policy.expires_at
  pub not_killed : c.policy.global_kill ≡ false
  pub not_killed_strategy : includes c.policy.strategy_kills t.strategy ≡ false
  pub chain : includes_ℤ c.policy.allow.chains t.chain ≡ true
  pub account : includes c.policy.allow.accounts t.account ≡ true
  pub token_in : includes c.policy.allow.tokens t.token_in ≡ true
  pub token_out : includes c.policy.allow.tokens t.token_out ≡ true
  pub router : includes c.policy.allow.routers t.router ≡ true
  pub target : includes c.policy.allow.targets t.target ≡ true
  pub selector : includes c.policy.allow.selectors t.selector ≡ true
  pub recipient : includes c.policy.allow.recipients t.recipient ≡ true

-- The trade and its market are within the limits.
pub record InMarket (p : PolicyDocument) (t : TradeRequest) : Type 0 where
  pub spends : pos 0 <ℤ t.amount
  pub exact : t.approval_amount ≡ t.amount
  pub per_trade : t.amount ≤ℤ p.limits.per_trade
  pub quoted : t.quote_at ≤ℤ t.now
  pub quote_fresh : (t.now -ℤ t.quote_at) ≤ℤ p.market.max_quote_age
  pub oracle : t.oracle_at ≤ℤ t.now
  pub oracle_fresh : (t.now -ℤ t.oracle_at) ≤ℤ p.market.max_oracle_age
  pub alive : t.last_heartbeat ≤ℤ t.now
  pub alive_lately : (t.now -ℤ t.last_heartbeat) ≤ℤ p.dead_man_after
  pub slippage : t.slippage_bps ≤ℤ p.market.max_slippage_bps
  pub impact : t.impact_bps ≤ℤ p.market.max_impact_bps
  pub gas : t.gas ≤ℤ p.market.max_gas
  pub fees : t.fees ≤ℤ p.market.max_fees
  pub liquidity : p.market.min_liquidity ≤ℤ t.liquidity
  pub tax : t.tax_bps ≤ℤ p.market.max_tax_bps
  pub no_negative : any_negative (trade_values t) ≡ false
  pub proxy : (t.is_proxy ≡ false) ⊎ (p.market.allow_proxy ≡ true)
  pub sequencer : (p.market.require_sequencer_up ≡ false) ⊎ (t.sequencer_up ≡ true)
  pub drawdown :
      (t.peak_value ≤ℤ t.portfolio_value)
      ⊎ ((t.peak_value -ℤ t.portfolio_value) ≤ℤ p.limits.drawdown)
  pub loss : (t.realized_loss +ℤ t.unrealized_loss) ≤ℤ p.limits.total_loss

-- A check that fails when the first holds and the second does not.
either : (a b : Bool) → (a && not b) ≡ false → (a ≡ false) ⊎ (b ≡ true)
either true b h = inr (true_of_not b h)
either false b h = inl refl

and_false : (a b : Bool) → (a && b) ≡ false → (a ≡ false) ⊎ (b ≡ false)
and_false true b h = inr h
and_false false b h = inl refl

within_drawdown :
    (value peak drawdown : ℤ)
    → (ltb_ℤ value peak && ltb_ℤ drawdown (peak -ℤ value)) ≡ false
    → (peak ≤ℤ value) ⊎ ((peak -ℤ value) ≤ℤ drawdown)
within_drawdown value peak drawdown h = elim (and_false _ _ h) [
  | inl e ↦ inl (le_of_not_ltb value peak e)
  | inr e ↦ inr (le_of_not_ltb drawdown (peak -ℤ value) e)
]

pub request-Authorized :
    (c : TradingControl) (t : TradeRequest)
    → Clean (request_checks c t)
    → Clean (allow_checks c.policy t)
    → Authorized c t
unfolding request_checks allow_checks
request-Authorized c t (a0, (a1, (a2, (a3, (a4, (a5, (a6, (a7, (a8, a9)))))))))
      (b0, (b1, (b2, (b3, (b4, (b5, (b6, b7))))))) =
    record {
      signed = true_of_not _ a0;
      started = le_of_not_ltb t.now c.policy.effective_at (or_false _ _ a6).0;
      unexpired = lt_of_not_leb c.policy.expires_at t.now (or_false _ _ a6).1;
      not_killed = a7;
      not_killed_strategy = a8;
      chain = true_of_not _ b0;
      account = true_of_not _ b1;
      token_in = (and_true _ _ (true_of_not _ b2)).0;
      token_out = (and_true _ _ (true_of_not _ b2)).1;
      router = true_of_not _ b3;
      target = true_of_not _ b4;
      selector = true_of_not _ b5;
      recipient = true_of_not _ b6;
    }

pub market-InMarket :
    (c : TradingControl) (t : TradeRequest) (l : Ledger)
    → Clean (request_checks c t)
    → Clean (market_checks c.policy t)
    → Clean (exposure_checks c.policy t l)
    → InMarket c.policy t
unfolding request_checks market_checks exposure_checks
market-InMarket c t l (a0, (a1, (a2, (a3, (a4, (a5, (a6, (a7, (a8, a9)))))))))
      (b0, (b1, (b2, (b3, (b4, (b5, (b6, (b7, (b8, (b9, (b10, (b11, b12))))))))))))
      (d0, (d1, (d2, (d3, (d4, (d5, d6)))))) =
    record {
      spends = lt_of_not_leb t.amount (pos 0) a2;
      exact = eq_of_eq_ℤ t.approval_amount t.amount (true_of_not _ b0);
      per_trade = le_of_not_ltb (c.policy.limits.per_trade) (t.amount) b1;
      quoted = le_of_not_ltb (t.now) (t.quote_at) a3;
      quote_fresh = le_of_not_ltb (c.policy.market.max_quote_age) (t.now -ℤ t.quote_at) b2;
      oracle = le_of_not_ltb (t.now) (t.oracle_at) a4;
      oracle_fresh = le_of_not_ltb (c.policy.market.max_oracle_age) (t.now -ℤ t.oracle_at) b10;
      alive = le_of_not_ltb (t.now) (t.last_heartbeat) a5;
      alive_lately = le_of_not_ltb (c.policy.dead_man_after) (t.now -ℤ t.last_heartbeat) d5;
      slippage = le_of_not_ltb (c.policy.market.max_slippage_bps) (t.slippage_bps) b3;
      impact = le_of_not_ltb (c.policy.market.max_impact_bps) (t.impact_bps) b4;
      gas = le_of_not_ltb (c.policy.market.max_gas) (t.gas) b5;
      fees = le_of_not_ltb (c.policy.market.max_fees) (t.fees) b6;
      liquidity = le_of_not_ltb (t.liquidity) (c.policy.market.min_liquidity) b7;
      tax = le_of_not_ltb (c.policy.market.max_tax_bps) (t.tax_bps) b8;
      no_negative = (or_false _ _ a1).0;
      proxy = either t.is_proxy c.policy.market.allow_proxy b9;
      sequencer = either c.policy.market.require_sequencer_up t.sequencer_up b11;
      drawdown = within_drawdown t.portfolio_value t.peak_value c.policy.limits.drawdown d3;
      loss = le_of_not_ltb (c.policy.limits.total_loss) (t.realized_loss +ℤ t.unrealized_loss) d4;
    }
