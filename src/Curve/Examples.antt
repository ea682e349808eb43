-- ===== src/Curve/Examples.antt =====
-- The theorems on the bonding curve at a concrete curve, and runs of its quotes.
use ari_os.Prelude.{ℕ, ◌+◌, ◌-◌, ◌*◌, ◌≤◌, ◌<◌, ◌≡◌, refl, true, false, [], ◌∷◌, ok, err, arith}
use ari_os.Prelude.Int.{pos, ◌≤ℤ◌}
use ari_os.Prelude.Number.{dyadic, of_ℕ, is_finite, is_negative, at_least, round}
use ari_os.Curve.Buying.{buy_within_budget, buy_keeps_product}
use ari_os.Curve.Selling.{bought, round_trip_loses, sell_bounds}
use ari_os.Curve.Tiers.{fee_tier_of_Rising}
use ari_os.Curve.{
  CurveReserves, FeeTier, BuyQuote, SellQuote, curve_completed, quote_buy_for_sol_budget,
  quote_sell, tokens_for_sol, tokens_out, curve_budget, buy_quote, sell_quote, sol_cost_for_tokens,
  sol_for_tokens, calculate_fee_tier,
}

-- 30 SOL against 1,073 tokens of six decimals.
abbrev launch : CurveReserves
launch = record {
  virtual_sol_reserves = 30_000_000_000;
  virtual_token_reserves = 1_073_000_000_000_000;
  real_sol_reserves = 0;
  real_token_reserves = 793_100_000_000_000;
  token_total_supply = 1_000_000_000_000_000;
  complete = false;
}

-- One SOL at a fee of 95 bps and a slippage of 100.5 bps, which rounds to 101.
abbrev one_sol : BuyQuote
one_sol = record {
  token_amount = 34297586679651;
  sol_cost_lamports = 990589400;
  fee_lamports = 9410599;
  total_lamports = 999999999;
  max_sol_cost_lamports = 1010099998;
  fee_bps = 95;
}

buys : quote_buy_for_sol_budget launch (pos 1000000000) (pos 95) (dyadic (pos 201) 1) ≡ ok one_sol
unfolding quote_buy_for_sol_budget is_finite is_negative tokens_for_sol curve_budget tokens_out
    sol_cost_for_tokens buy_quote round
buys = refl

completed_refuses :
    quote_buy_for_sol_budget (record launch { complete = true }) (pos 5) (pos 95) (of_ℕ 100)
    ≡ err curve_completed
unfolding quote_buy_for_sol_budget is_finite is_negative
completed_refuses = refl

buy_within_budget_example :
    (0 < one_sol.token_amount)
    × (one_sol.token_amount ≤ launch.real_token_reserves)
    × (one_sol.total_lamports ≤ 1000000000)
    × (one_sol.total_lamports ≡ one_sol.sol_cost_lamports + one_sol.fee_lamports)
    × (one_sol.total_lamports ≤ one_sol.max_sol_cost_lamports)
    × (launch.complete ≡ false)
buy_within_budget_example = buy_within_budget launch 1000000000 95 (dyadic (pos 201) 1) one_sol buys

costs : sol_cost_for_tokens launch (pos 34297586679651) ≡ ok 990589400
unfolding sol_cost_for_tokens
costs = refl

buy_keeps_product_example :
    (launch.virtual_sol_reserves * launch.virtual_token_reserves
      < (launch.virtual_sol_reserves + 990589400)
        * (launch.virtual_token_reserves - 34297586679651))
    × ((launch.virtual_sol_reserves + 990589400) * (launch.virtual_token_reserves - 34297586679651)
        ≤ launch.virtual_sol_reserves * launch.virtual_token_reserves
          + (launch.virtual_token_reserves - 34297586679651))
buy_keeps_product_example = buy_keeps_product launch 34297586679650 990589400 costs

sells_back :
    sol_for_tokens (bought launch 34297586679651 990589400) (pos 34297586679651) ≡ ok 990589399
unfolding sol_for_tokens
sells_back = refl

round_trip_loses_example : 990589399 < 990589400
round_trip_loses_example =
    round_trip_loses launch 34297586679650 990589400 990589399 costs sells_back

-- Five million tokens at a fee of 95 bps and a slippage of 50 bps.
abbrev five_million : SellQuote
five_million = record {
  token_amount = 5000000000000;
  gross_sol_lamports = 139146567;
  fee_lamports = 1321892;
  net_sol_lamports = pos 137824675;
  min_sol_output_lamports = pos 137135551;
  fee_bps = 95;
}

sells : quote_sell launch (pos 5000000000000) (pos 95) (of_ℕ 50) ≡ ok five_million
unfolding quote_sell is_finite is_negative at_least sol_for_tokens sell_quote round
sells = refl

sell_bounds_example :
    (five_million.gross_sol_lamports < launch.virtual_sol_reserves)
    × (five_million.fee_lamports ≤ five_million.gross_sol_lamports)
    × (five_million.net_sol_lamports
        ≡ pos (five_million.gross_sol_lamports - five_million.fee_lamports))
    × (pos 0 ≤ℤ five_million.min_sol_output_lamports)
    × (five_million.min_sol_output_lamports ≤ℤ five_million.net_sol_lamports)
    × (launch.complete ≡ false)
sell_bounds_example = sell_bounds launch 5000000000000 95 (of_ℕ 50) five_million (omega arith) sells

abbrev tier : ℕ → ℕ → FeeTier
tier cap bps = record {
  market_cap_lamports_threshold = cap;
  fees = record { lp_fee_bps = 0; protocol_fee_bps = bps; creator_fee_bps = 5 };
}

fee_tier_of_Rising_example :
    calculate_fee_tier (tier 0 95 ∷ tier 100 80 ∷ tier 1_000 40 ∷ []) 500 ≡ ok (tier 100 80).fees
fee_tier_of_Rising_example =
    fee_tier_of_Rising (tier 0 95) (tier 100 80 ∷ tier 1_000 40 ∷ []) 500 (omega arith)
