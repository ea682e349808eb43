-- ===== src/Curve/Buying.antt =====
-- What a buy on the bonding curve costs and yields (src/pools/pumpfun/math.ts).
use ari_os.Prelude.{ℕ, suc, ◌+◌, ◌-◌, ◌*◌, ◌/◌, ◌≤◌, ◌<◌, ◌≡◌, refl, false, ok, arith}
use ari_os.Prelude.Division.{div_mul-le, lt-suc_div_mul, div-lt, le-div, le_of_mul}
use ari_os.Prelude.Int.{pos, pos_part}
use ari_os.Prelude.Number.{Number, round}
use ari_os.Curve.{
  CurveReserves, tokens_out, tokens_for_sol, new_sol_after, sol_cost_for_tokens, curve_budget,
  buy_quote, BuyQuote, quote_buy_for_sol_budget,
}

-- The curve never hands out more than it holds.
pub tokens_out-le-real : (r : CurveReserves) (sol : ℕ) → tokens_out r sol ≤ r.real_token_reserves
unfolding tokens_out
tokens_out-le-real r sol = ground arith

-- What is left of the virtual tokens is past the new quotient.
tokens_out_leaves :
    (r : CurveReserves) (sol : ℕ)
    → 0 < tokens_out r sol
    → tokens_out r sol
        + (r.virtual_sol_reserves * r.virtual_token_reserves / (r.virtual_sol_reserves + sol) + 1)
      ≤ r.virtual_token_reserves
unfolding tokens_out
tokens_out_leaves r sol h = ground arith

new_sol_after-lt :
    (vs vt sol t : ℕ) → 0 < vs → t + (vs * vt / (vs + sol) + 1) ≤ vt → vs * vt / (vt - t) < vs + sol
new_sol_after-lt vs vt sol t p h =
    div-lt (vs * vt) (vt - t) (vs + sol) (omega arith)
      (grind (arith, lt-suc_div_mul (vs * vt) (vs + sol) (omega arith)))

-- The virtual SOL reserve never falls on a buy.
sol_le_new_sol : (vs vt t : ℕ) → t < vt → vs ≤ vs * vt / (vt - t)
sol_le_new_sol vs vt t h = le-div (vs * vt) (vt - t) vs (omega arith) (grind arith)

-- The cost is the growth of the virtual SOL reserve, and the subtraction never stops at zero.
pub sol_cost_exact :
    (r : CurveReserves) (t cost : ℕ)
    → sol_cost_for_tokens r (pos (suc t)) ≡ ok cost
    → cost + r.virtual_sol_reserves ≡ new_sol_after r (suc t)
unfolding sol_cost_for_tokens new_sol_after
sol_cost_exact r t cost h =
    ground (arith, sol_le_new_sol r.virtual_sol_reserves r.virtual_token_reserves (suc t))

pub sol_cost_below :
    (r : CurveReserves) (t cost : ℕ)
    → sol_cost_for_tokens r (pos (suc t)) ≡ ok cost
    → suc t < r.virtual_token_reserves
unfolding sol_cost_for_tokens
sol_cost_below r t cost h = ground arith

-- What a successful buy quote is made of.
record Bought (r : CurveReserves) (budget fee : ℕ) (slippage : Number) (q : BuyQuote) : Type 0 where
  sol : 0 < r.virtual_sol_reserves
  token : 0 < r.virtual_token_reserves
  amount : 0 < tokens_out r (curve_budget budget fee)
  below : tokens_out r (curve_budget budget fee) < r.virtual_token_reserves
  is_open : r.complete ≡ false
  made :
      q
      ≡ buy_quote
          (tokens_out r (curve_budget budget fee))
          (new_sol_after r (tokens_out r (curve_budget budget fee)) - r.virtual_sol_reserves)
          fee
          (pos_part (round slippage))

Bought-of_ok :
    (r : CurveReserves) (budget fee : ℕ) (slippage : Number) (q : BuyQuote)
    → quote_buy_for_sol_budget r (pos budget) (pos fee) slippage ≡ ok q
    → Bought r budget fee slippage q
unfolding quote_buy_for_sol_budget tokens_for_sol sol_cost_for_tokens
Bought-of_ok r budget fee slippage q h = ground arith

-- A fee taken on top of the curve leg stays within the budget that was stripped of it.
cost_and_fee-le :
    (budget fee cost : ℕ) → cost ≤ curve_budget budget fee → cost + cost * fee / 10_000 ≤ budget
unfolding curve_budget
cost_and_fee-le budget fee cost h = omega (
  arith,
  le_of_mul (cost + cost * fee / 10_000) budget 10_000 (omega arith)
      (grind (arith, div_mul-le (cost * fee) 10_000, div_mul-le (budget * 10_000) (10_000 + fee))),
)

total-le-max : (total slippage : ℕ) → total ≤ total * (10_000 + slippage) / 10_000
total-le-max total slippage =
    le-div (total * (10_000 + slippage)) 10_000 total (omega arith) (grind arith)

cost-le-budget :
    (r : CurveReserves) (sol : ℕ)
    → 0 < r.virtual_sol_reserves
    → 0 < tokens_out r sol
    → new_sol_after r (tokens_out r sol) - r.virtual_sol_reserves ≤ sol
unfolding new_sol_after
cost-le-budget r sol p h = omega (
  arith,
  new_sol_after-lt r.virtual_sol_reserves r.virtual_token_reserves sol (tokens_out r sol) p
      (tokens_out_leaves r sol h),
)

-- A buy quote that is returned asks for at least one token and for no more than the curve holds,
-- costs no more than the budget with its fee, and commits to a maximum that covers that total. The
-- curve is still open.
pub buy_within_budget :
    (r : CurveReserves) (budget fee : ℕ) (slippage : Number) (q : BuyQuote)
    → quote_buy_for_sol_budget r (pos budget) (pos fee) slippage ≡ ok q
    → (0 < q.token_amount)
      × (q.token_amount ≤ r.real_token_reserves)
      × (q.total_lamports ≤ budget)
      × (q.total_lamports ≡ q.sol_cost_lamports + q.fee_lamports)
      × (q.total_lamports ≤ q.max_sol_cost_lamports)
      × (r.complete ≡ false)
unfolding buy_quote
buy_within_budget r budget fee slippage q h =
    let b = Bought-of_ok r budget fee slippage q h in
    let t = tokens_out r (curve_budget budget fee) in
    let cost = new_sol_after r t - r.virtual_sol_reserves in
    rw b.made (
      b.amount,
      tokens_out-le-real r (curve_budget budget fee),
      cost_and_fee-le budget fee cost (cost-le-budget r (curve_budget budget fee) b.sol b.amount),
      refl,
      total-le-max (cost + cost * fee / 10_000) (pos_part (round slippage)),
      b.is_open,
    )

-- The product of the virtual reserves rises when a positive number of tokens leaves the curve and
-- their quoted cost comes in, and it rises by at most the tokens that are left.
pub buy_keeps_product :
    (r : CurveReserves) (t cost : ℕ)
    → sol_cost_for_tokens r (pos (suc t)) ≡ ok cost
    → (r.virtual_sol_reserves * r.virtual_token_reserves
        < (r.virtual_sol_reserves + cost) * (r.virtual_token_reserves - suc t))
      × ((r.virtual_sol_reserves + cost) * (r.virtual_token_reserves - suc t)
          ≤ r.virtual_sol_reserves * r.virtual_token_reserves + (r.virtual_token_reserves - suc t))
unfolding new_sol_after
buy_keeps_product r t cost h =
    let k = r.virtual_sol_reserves * r.virtual_token_reserves in
    let d = r.virtual_token_reserves - suc t in
    let e : r.virtual_sol_reserves + cost ≡ k / d + 1 = omega (arith, sol_cost_exact r t cost h) in
    rw e
      (lt-suc_div_mul k d (omega (arith, sol_cost_below r t cost h)), omega (arith, div_mul-le k d))
