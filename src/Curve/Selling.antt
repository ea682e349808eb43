-- ===== src/Curve/Selling.antt =====
-- What a sell on the bonding curve returns (src/pools/pumpfun/math.ts).
use ari_os.Prelude.{ℕ, suc, ◌+◌, ◌-◌, ◌*◌, ◌/◌, ◌≤◌, ◌<◌, ◌≡◌, false, ok, ap, arith}
use ari_os.Prelude.Division.{div-lt, div-le, mul-le_left}
use ari_os.Prelude.Int.{pos, pos_part, ◌≤ℤ◌}
use ari_os.Prelude.Number.{Number, round}
use ari_os.Curve.{
  CurveReserves, sol_cost_for_tokens, sol_for_tokens, sell_quote, SellQuote, quote_sell,
}
use ari_os.Curve.Buying.{sol_cost_below, buy_keeps_product}

-- The state of the curve once a buy of `t` tokens at `cost` has gone through.
abbrev pub bought : CurveReserves → ℕ → ℕ → CurveReserves
bought r t cost = record r {
  virtual_sol_reserves = r.virtual_sol_reserves + cost;
  virtual_token_reserves = r.virtual_token_reserves - t;
}

cross_terms : (vs d t cost : ℕ) → vs * (d + t) < (vs + cost) * d → t * (vs + cost) < cost * (d + t)
cross_terms vs d t cost h = omega arith

round_trip-lt :
    (vs vt t cost : ℕ)
    → t < vt
    → vs * vt < (vs + cost) * (vt - t)
    → t * (vs + cost) / (vt - t + t) < cost
round_trip-lt vs vt t cost h p =
    let e : vt ≡ vt - t + t = omega arith in
    div-lt (t * (vs + cost)) (vt - t + t) cost (omega arith)
      (cross_terms vs (vt - t) t cost (omega (arith, ap (λ (x : ℕ). vs * x) e)))

-- Selling back the tokens of a buy, at the reserves that the buy leaves, returns less than they cost.
pub round_trip_loses :
    (r : CurveReserves) (t cost back : ℕ)
    → sol_cost_for_tokens r (pos (suc t)) ≡ ok cost
    → sol_for_tokens (bought r (suc t) cost) (pos (suc t)) ≡ ok back
    → back < cost
unfolding sol_for_tokens
round_trip_loses r t cost back h e = ground (
  arith,
  round_trip-lt r.virtual_sol_reserves r.virtual_token_reserves (suc t) cost
      (sol_cost_below r t cost h) (buy_keeps_product r t cost h).0,
)

gross-lt : (t vs vt : ℕ) → 0 < vs → 0 < vt → t * vs / (vt + t) < vs
gross-lt t vs vt p h = div-lt (t * vs) (vt + t) vs (omega arith) (grind arith)

fee-le : (gross fee : ℕ) → fee ≤ 10_000 → gross * fee / 10_000 ≤ gross
fee-le gross fee h = div-le (gross * fee) 10_000 gross (omega arith) (grind arith)

min_output-le : (net slippage : ℕ) → net * (10_000 - slippage) / 10_000 ≤ net
min_output-le net slippage =
    div-le (net * (10_000 - slippage)) 10_000 net (omega arith)
      (mul-le_left net (10_000 - slippage) 10_000 (omega arith))

-- What a successful sell quote is made of.
record Sold (r : CurveReserves) (t fee : ℕ) (slippage : Number) (q : SellQuote) : Type 0 where
  sol : 0 < r.virtual_sol_reserves
  token : 0 < r.virtual_token_reserves
  is_open : r.complete ≡ false
  made :
      q
      ≡ sell_quote t
          (t * r.virtual_sol_reserves / (r.virtual_token_reserves + t))
          fee
          (pos_part (round slippage))

Sold-of_ok :
    (r : CurveReserves) (t fee : ℕ) (slippage : Number) (q : SellQuote)
    → quote_sell r (pos t) (pos fee) slippage ≡ ok q
    → Sold r t fee slippage q
unfolding quote_sell sol_for_tokens
Sold-of_ok r t fee slippage q h = ground arith

-- A sell quote that is returned, at a fee rate of at most 100%: the gross is below the virtual SOL
-- reserve, the net is the gross less the fee, and the committed minimum is not negative and is at
-- most the net. The curve is still open.
pub sell_bounds :
    (r : CurveReserves) (t fee : ℕ) (slippage : Number) (q : SellQuote)
    → fee ≤ 10_000
    → quote_sell r (pos t) (pos fee) slippage ≡ ok q
    → (q.gross_sol_lamports < r.virtual_sol_reserves)
      × (q.fee_lamports ≤ q.gross_sol_lamports)
      × (q.net_sol_lamports ≡ pos (q.gross_sol_lamports - q.fee_lamports))
      × (pos 0 ≤ℤ q.min_sol_output_lamports)
      × (q.min_sol_output_lamports ≤ℤ q.net_sol_lamports)
      × (r.complete ≡ false)
unfolding sell_quote
sell_bounds r t fee slippage q f h =
    let s = Sold-of_ok r t fee slippage q h in
    let gross = t * r.virtual_sol_reserves / (r.virtual_token_reserves + t) in
    let net = gross - gross * fee / 10_000 in
    rw s.made (
      ground (
        arith,
        gross-lt t r.virtual_sol_reserves r.virtual_token_reserves s.sol s.token,
        fee-le gross fee f,
        min_output-le net (pos_part (round slippage)),
        s.is_open,
      ))
