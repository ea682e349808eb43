-- ===== src/Curve.antt =====
-- The bonding-curve arithmetic of src/pools/pumpfun/math.ts. Reserves and fee rows are decoded
-- from unsigned integers, so they are natural numbers; what a caller passes in is signed.
-- `sub_ℕ a b` is the integer a - b. Spot prices and price impact are floats for display and are not modelled.
pub mod Buying
pub mod Selling
pub mod Tiers
mod Examples
use ari_os.Prelude.{
  ℕ, ◌+◌, ◌-◌, ◌*◌, ◌/◌, String, Bool, true, false, not, ◌||◌, List, [], ◌∷◌, Result, ok, err,
  ◌>>=◌, ◌>>◌, throw_if, ltb, leb, if◌then◌else◌,
}
use mathlib.Core.List.{reverse}
use ari_os.Prelude.Int.{ℤ, pos, pos_part, sub_ℕ, scale, ltb_ℤ, leb_ℤ}
use ari_os.Prelude.Number.{Number, is_finite, is_negative, round, at_least}

pub record CurveReserves : Type 0 where
  pub virtual_sol_reserves : ℕ
  pub virtual_token_reserves : ℕ
  pub real_sol_reserves : ℕ
  pub real_token_reserves : ℕ
  pub token_total_supply : ℕ
  pub complete : Bool

pub data CurveMathError : Type 0 where
  must_be_positive : String → CurveMathError
  tier_table_empty would_drain_reserve budget_not_positive amount_not_positive : CurveMathError
  fee_negative slippage_invalid slippage_too_large curve_completed budget_too_small : CurveMathError

abbrev pub Checked : Type 0 → Type 0
Checked = Result CurveMathError

unfoldable pub assert_positive : String → ℕ → Checked (Unit {0})
assert_positive name v = throw_if (leb v 0) (must_be_positive name)

pub record Fees : Type 0 where
  pub lp_fee_bps : ℕ
  pub protocol_fee_bps : ℕ
  pub creator_fee_bps : ℕ

pub record FeeTier : Type 0 where
  pub market_cap_lamports_threshold : ℕ
  pub fees : Fees

unfoldable pub bonding_curve_market_cap : ℕ → ℕ → ℕ → Checked ℕ
unfolding assert_positive
bonding_curve_market_cap mint_supply virtual_sol virtual_token = do
  assert_positive "virtualTokenReserves" virtual_token
  ok (virtual_sol * mint_supply / virtual_token)

-- The loop from the last tier down: the first one met at or below the market cap, else `first`.
unfoldable pub scan_tiers : FeeTier → List FeeTier → ℕ → Fees
scan_tiers first [] cap = first.fees
scan_tiers first (tier ∷ tiers) cap =
    if leb tier.market_cap_lamports_threshold cap then tier.fees else scan_tiers first tiers cap

unfoldable pub calculate_fee_tier : List FeeTier → ℕ → Checked Fees
unfolding scan_tiers
calculate_fee_tier [] cap = err tier_table_empty
calculate_fee_tier (first ∷ tiers) cap =
    if ltb cap first.market_cap_lamports_threshold
    then ok first.fees
    else ok (scan_tiers first (reverse (first ∷ tiers)) cap)

unfoldable pub curve_fee_bps : Fees → ℕ
curve_fee_bps fees = fees.protocol_fee_bps + fees.creator_fee_bps

-- The arithmetic of `tokensForSol` after its guards.
unfoldable pub tokens_out : CurveReserves → ℕ → ℕ
tokens_out r sol_in =
    let k = r.virtual_sol_reserves * r.virtual_token_reserves in
    let new_sol = r.virtual_sol_reserves + sol_in in
    let new_tokens = k / new_sol + 1 in
    let out =
      if ltb new_tokens r.virtual_token_reserves
      then r.virtual_token_reserves - new_tokens
      else 0 in
    if ltb out r.real_token_reserves then out else r.real_token_reserves

unfoldable pub tokens_for_sol : CurveReserves → ℤ → Checked ℕ
unfolding assert_positive
tokens_for_sol r sol_in = do
  assert_positive "virtualSolReserves" r.virtual_sol_reserves
  assert_positive "virtualTokenReserves" r.virtual_token_reserves
  if leb_ℤ sol_in (pos 0) then ok 0 else ok (tokens_out r (pos_part sol_in))

-- The virtual SOL reserve after buying `amount` tokens.
unfoldable pub new_sol_after : CurveReserves → ℕ → ℕ
new_sol_after r amount =
    r.virtual_sol_reserves * r.virtual_token_reserves / (r.virtual_token_reserves - amount) + 1

-- The difference at the end is never negative (`sol_cost_exact`), so `-` is the source's.
unfoldable pub sol_cost_for_tokens : CurveReserves → ℤ → Checked ℕ
unfolding assert_positive new_sol_after
sol_cost_for_tokens r token_amount = do
  assert_positive "virtualSolReserves" r.virtual_sol_reserves
  assert_positive "virtualTokenReserves" r.virtual_token_reserves
  if leb_ℤ token_amount (pos 0)
      then ok 0
      else if leb_ℤ (pos r.virtual_token_reserves) token_amount
      then err would_drain_reserve
      else ok (new_sol_after r (pos_part token_amount) - r.virtual_sol_reserves)

unfoldable pub sol_for_tokens : CurveReserves → ℤ → Checked ℕ
unfolding assert_positive
sol_for_tokens r token_amount = do
  assert_positive "virtualSolReserves" r.virtual_sol_reserves
  assert_positive "virtualTokenReserves" r.virtual_token_reserves
  if leb_ℤ token_amount (pos 0)
      then ok 0
      else ok (
          pos_part token_amount
          * r.virtual_sol_reserves
          / (r.virtual_token_reserves + pos_part token_amount))

pub record BuyQuote : Type 0 where
  pub token_amount : ℕ
  pub sol_cost_lamports : ℕ
  pub fee_lamports : ℕ
  pub total_lamports : ℕ
  pub max_sol_cost_lamports : ℕ
  pub fee_bps : ℕ

-- The part of the budget that is left for the curve once the fee on top of it is taken off.
unfoldable pub curve_budget : ℕ → ℕ → ℕ
curve_budget budget fee_bps = budget * 10_000 / (10_000 + fee_bps)

unfoldable pub buy_quote : ℕ → ℕ → ℕ → ℕ → BuyQuote
buy_quote token_amount cost fee_bps slippage = record {
  token_amount = token_amount;
  sol_cost_lamports = cost;
  fee_lamports = cost * fee_bps / 10_000;
  total_lamports = cost + cost * fee_bps / 10_000;
  max_sol_cost_lamports = (cost + cost * fee_bps / 10_000) * (10_000 + slippage) / 10_000;
  fee_bps = fee_bps;
}

-- The slippage that passes the guards is not negative, so its rounding is a natural number.
unfoldable pub quote_buy_for_sol_budget : CurveReserves → ℤ → ℤ → Number → Checked BuyQuote
quote_buy_for_sol_budget r budget fee_bps slippage_bps = do
  throw_if (leb_ℤ budget (pos 0)) budget_not_positive
  throw_if (ltb_ℤ fee_bps (pos 0)) fee_negative
  throw_if (not (is_finite slippage_bps) || is_negative slippage_bps) slippage_invalid
  throw_if r.complete curve_completed
  token_amount ← tokens_for_sol r (pos (curve_budget (pos_part budget) (pos_part fee_bps)))
  throw_if (leb token_amount 0) budget_too_small
  cost ← sol_cost_for_tokens r (pos token_amount)
  ok (buy_quote token_amount cost (pos_part fee_bps) (pos_part (round slippage_bps)))

pub record SellQuote : Type 0 where
  pub token_amount : ℕ
  pub gross_sol_lamports : ℕ
  pub fee_lamports : ℕ
  pub net_sol_lamports : ℤ
  pub min_sol_output_lamports : ℤ
  pub fee_bps : ℕ

-- The net is signed: a fee rate above 100% takes more than the gross.
unfoldable pub sell_quote : ℕ → ℕ → ℕ → ℕ → SellQuote
unfolding scale
sell_quote token_amount gross fee_bps slippage =
    let net = sub_ℕ gross (gross * fee_bps / 10_000) in
    record {
      token_amount = token_amount;
      gross_sol_lamports = gross;
      fee_lamports = gross * fee_bps / 10_000;
      net_sol_lamports = net;
      min_sol_output_lamports = scale net (10_000 - slippage) 10_000;
      fee_bps = fee_bps;
    }

unfoldable pub quote_sell : CurveReserves → ℤ → ℤ → Number → Checked SellQuote
quote_sell r token_amount fee_bps slippage_bps = do
  throw_if (leb_ℤ token_amount (pos 0)) amount_not_positive
  throw_if (ltb_ℤ fee_bps (pos 0)) fee_negative
  throw_if (not (is_finite slippage_bps) || is_negative slippage_bps) slippage_invalid
  throw_if (at_least slippage_bps 10_000) slippage_too_large
  throw_if r.complete curve_completed
  gross ← sol_for_tokens r token_amount
  ok (sell_quote (pos_part token_amount) gross (pos_part fee_bps) (pos_part (round slippage_bps)))
