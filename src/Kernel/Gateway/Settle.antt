-- ===== src/Kernel/Gateway/Settle.antt =====
-- How the fill of a confirmed transaction is verified (`#settle` of src/kernel/trade-gateway.ts).
use ari_os.Prelude.{Bool, true, false, Option, none, some, Result, ok, err, if◌then◌else◌}
use ari_os.Prelude.Int.{ℤ, pos, ltb_ℤ, ◌-ℤ◌}
use ari_os.Kernel.Contracts.{
  Failure, other_error, GuardCode, TradeIntent, PerpSettleLeg, PerpPositionRef, Side, long, short,
}
use ari_os.Kernel.Money.{slippage_bps}
use ari_os.Kernel.Gateway.Run.{Ports, PositionReader}
use ari_os.Kernel.Gateway.Checks.{position_ref}

pub record Settled : Type 0 where
  pub effective_slippage_bps : ℤ
  pub position_delta : Option ℤ
  pub problem : Option GuardCode

unfoldable pub at_least_zero : ℤ → ℤ
at_least_zero n = if ltb_ℤ (pos 0) n then n else pos 0

unfoldable pub shortfall_if : Bool → Option GuardCode
shortfall_if true = some GuardCode.settle_shortfall
shortfall_if false = none

unfoldable pub settle_tokens : TradeIntent → ℤ → Settled
unfolding shortfall_if
settle_tokens intent output_delta = record {
  effective_slippage_bps = slippage_bps intent.quote.out_amount (at_least_zero output_delta);
  position_delta = none;
  problem = shortfall_if (ltb_ℤ output_delta intent.quote.min_out_amount);
}

unfoldable pub filled_size : Side → ℤ → ℤ
filled_size long delta = delta
filled_size short delta = pos 0 -ℤ delta

unfoldable pub settle_position : PerpSettleLeg → ℤ → ℤ → Settled
unfolding shortfall_if
settle_position leg before after =
    let delta = after -ℤ before in
    let filled = filled_size leg.side delta in
    record {
      effective_slippage_bps = slippage_bps leg.expected_base_amount (at_least_zero filled);
      position_delta = some delta;
      problem = shortfall_if (ltb_ℤ filled leg.min_base_amount);
    }

unfoldable pub settle_read : PerpSettleLeg → ℤ → Result Failure ℤ → Settled
unfolding settle_position
settle_read leg before (ok after) = settle_position leg before after
settle_read leg before (err e) = record {
  effective_slippage_bps = pos 0;
  position_delta = none;
  problem = some GuardCode.settle_unverified;
}

-- With no reader the source reads a property of `undefined` inside the try.
unfoldable pub settle_from :
    TradeIntent
    → ℤ
    → Option ℤ
    → Option PositionReader
    → Option (PerpSettleLeg × PerpPositionRef)
    → Settled
unfolding settle_tokens settle_read
settle_from intent output_delta none positions r = settle_tokens intent output_delta
settle_from intent output_delta (some before) positions none = settle_tokens intent output_delta
settle_from intent output_delta (some before) none (some (leg, ref)) =
    settle_read leg before (err other_error)
settle_from intent output_delta (some before) (some reader) (some (leg, ref)) =
    settle_read leg before (reader.read_after ref)

-- #settle
unfoldable pub settle : Ports → TradeIntent → ℤ → Option ℤ → Settled
unfolding settle_from
settle ports intent output_delta prior =
    settle_from intent output_delta prior ports.positions (position_ref ports intent)
