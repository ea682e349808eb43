-- ===== src/Control/Policy.antt =====
-- The policy of the trading control, and when it is well formed (`PolicyDocument`, `validatePolicy` of
-- src/execution/control/index.ts).
use ari_os.Prelude.{
  String, Bool, true, false, not, ◌&&◌, ◌||◌, List, [], ◌∷◌, ◌++◌, includes, str_eq,
}
use ari_os.Prelude.Int.{ℤ, pos, ltb_ℤ, leb_ℤ, includes_ℤ}

pub record Allowlists : Type 0 where
  pub chains : List ℤ
  pub accounts : List String
  pub tokens : List String
  pub routers : List String
  pub targets : List String
  pub selectors : List String
  pub recipients : List String

pub record PolicyLimits : Type 0 where
  pub per_trade : ℤ
  pub asset_hourly : ℤ
  pub asset_daily : ℤ
  pub strategy_hourly : ℤ
  pub strategy_daily : ℤ
  pub total_exposure : ℤ
  pub asset_exposure : ℤ
  pub concentration_bps : ℤ
  pub drawdown : ℤ
  pub total_loss : ℤ

pub record MarketLimits : Type 0 where
  pub max_quote_age : ℤ
  pub max_slippage_bps : ℤ
  pub max_impact_bps : ℤ
  pub max_gas : ℤ
  pub max_fees : ℤ
  pub min_liquidity : ℤ
  pub max_tax_bps : ℤ
  pub allow_proxy : Bool
  pub max_oracle_age : ℤ
  pub require_sequencer_up : Bool

pub record PolicyDocument : Type 0 where
  pub version : String
  pub effective_at : ℤ
  pub expires_at : ℤ
  pub allow : Allowlists
  pub limits : PolicyLimits
  pub market : MarketLimits
  pub dead_man_after : ℤ
  pub global_kill : Bool
  pub strategy_kills : List String

pub record SignedPolicyReference : Type 0 where
  pub policy_hash : String
  pub signature : String

pub record TradeRequest : Type 0 where
  pub id : String
  pub now : ℤ
  pub chain : ℤ
  pub account : String
  pub token_in : String
  pub token_out : String
  pub router : String
  pub target : String
  pub selector : String
  pub recipient : String
  pub strategy : String
  pub amount : ℤ
  pub approval_amount : ℤ
  pub quote_at : ℤ
  pub slippage_bps : ℤ
  pub impact_bps : ℤ
  pub gas : ℤ
  pub fees : ℤ
  pub liquidity : ℤ
  pub tax_bps : ℤ
  pub is_proxy : Bool
  pub oracle_at : ℤ
  pub sequencer_up : Bool
  pub portfolio_exposure : ℤ
  pub asset_exposure : ℤ
  pub portfolio_value : ℤ
  pub peak_value : ℤ
  pub realized_loss : ℤ
  pub unrealized_loss : ℤ
  pub last_heartbeat : ℤ

unfoldable pub repeats_ℤ : List ℤ → Bool
repeats_ℤ [] = false
repeats_ℤ (x ∷ xs) = includes_ℤ xs x || repeats_ℤ xs

unfoldable pub repeats : List String → Bool
repeats [] = false
repeats (x ∷ xs) = includes xs x || repeats xs

unfoldable pub bad_chains : List ℤ → Bool
unfolding repeats_ℤ
bad_chains [] = true
bad_chains (x ∷ xs) = repeats_ℤ (x ∷ xs)

-- Empty, with a repeated entry, or with an empty text.
unfoldable pub bad_list : List String → Bool
unfolding repeats includes
bad_list [] = true
bad_list (x ∷ xs) = repeats (x ∷ xs) || includes (x ∷ xs) ""

unfoldable pub bad_allowlists : Allowlists → Bool
unfolding bad_chains bad_list
bad_allowlists a =
    bad_chains a.chains
    || bad_list a.accounts
    || bad_list a.tokens
    || bad_list a.routers
    || bad_list a.targets
    || bad_list a.selectors
    || bad_list a.recipients

unfoldable pub any_negative : List ℤ → Bool
any_negative [] = false
any_negative (x ∷ xs) = ltb_ℤ x (pos 0) || any_negative xs

abbrev pub limit_values : PolicyLimits → List ℤ
limit_values l =
    l.per_trade ∷ l.asset_hourly ∷ l.asset_daily ∷ l.strategy_hourly ∷ l.strategy_daily
    ∷ l.total_exposure ∷ l.asset_exposure ∷ l.concentration_bps ∷ l.drawdown ∷ l.total_loss ∷ []

abbrev pub market_values : MarketLimits → List ℤ
market_values m =
    m.max_quote_age ∷ m.max_slippage_bps ∷ m.max_impact_bps ∷ m.max_gas ∷ m.max_fees
    ∷ m.min_liquidity ∷ m.max_tax_bps ∷ m.max_oracle_age ∷ []

unfoldable pub is_valid_policy : PolicyDocument → Bool
unfolding bad_allowlists any_negative
is_valid_policy p =
    not (
      not (str_eq p.version "1")
      || ltb_ℤ p.effective_at (pos 0)
      || leb_ℤ p.expires_at p.effective_at)
    && not (bad_allowlists p.allow)
    && not (
        any_negative (limit_values p.limits ++ market_values p.market ++ p.dead_man_after ∷ [])
        || ltb_ℤ (pos 10_000) p.limits.concentration_bps
        || ltb_ℤ (pos 10_000) p.market.max_slippage_bps
        || ltb_ℤ (pos 10_000) p.market.max_impact_bps
        || ltb_ℤ (pos 10_000) p.market.max_tax_bps)
