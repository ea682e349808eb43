-- ===== src/Kernel/Gateway/Fills.antt =====
-- What the settlement of a confirmed transaction reports (`#settle` of src/kernel/trade-gateway.ts).
use ari_os.Prelude.{
  Bool, true, false, Option, none, some, Result, ok, err, ◌≡◌, ◌≢◌, ◌↔◌, refl, arith,
}
use ari_os.Prelude.Int.{ℤ, pos, ◌-ℤ◌, ◌≤ℤ◌, ltb_ℤ, -ℤ_parts}
use ari_os.Kernel.Contracts.{Failure, TradeIntent, PerpSettleLeg, PerpPositionRef, Side}
use ari_os.Kernel.Gateway.Run.{PositionReader}
use ari_os.Kernel.Gateway.Checks.{known_position, read_from}
use ari_os.Kernel.Gateway.Settle.{
  settle_tokens, filled_size, settle_position, settle_read, settle_from, shortfall_if,
}

-- The position has moved by the committed minimum in the direction of the order.
abbrev pub Moved : PerpSettleLeg → ℤ → ℤ → Side → Type 0
Moved leg before after Side.long = leg.min_base_amount ≤ℤ (after -ℤ before)
Moved leg before after Side.short = leg.min_base_amount ≤ℤ (before -ℤ after)

shortfall_iff : (b : Bool) → (shortfall_if b ≡ none) ↔ (b ≡ false)
unfolding shortfall_if
shortfall_iff true = (λ h. cc, λ h. cc)
shortfall_iff false = (λ h. refl, λ h. refl)

filled_iff :
    (leg : PerpSettleLeg) (side : Side) (before after : ℤ)
    → (ltb_ℤ (filled_size side (after -ℤ before)) leg.min_base_amount ≡ false)
      ↔ Moved leg before after side
unfolding filled_size
filled_iff leg Side.long before after = (λ h. ground arith, λ h. ground arith)
filled_iff leg Side.short before after = (
  λ h.
      ground
        (arith, -ℤ_parts before after, -ℤ_parts after before, -ℤ_parts (pos 0) (after -ℤ before)),
  λ h.
      ground
        (arith, -ℤ_parts before after, -ℤ_parts after before, -ℤ_parts (pos 0) (after -ℤ before)),
)

pub settle_position_iff :
    (leg : PerpSettleLeg) (before after : ℤ)
    → ((settle_position leg before after).problem ≡ none) ↔ Moved leg before after leg.side
unfolding settle_position
settle_position_iff leg before after = (
  λ h. (filled_iff leg leg.side before after).0 ((shortfall_iff _).0 h),
  λ h. (shortfall_iff _).1 ((filled_iff leg leg.side before after).1 h),
)

pub settle_tokens_iff :
    (intent : TradeIntent) (got : ℤ)
    → ((settle_tokens intent got).problem ≡ none) ↔ (intent.quote.min_out_amount ≤ℤ got)
unfolding settle_tokens
settle_tokens_iff intent got =
    (λ h. let e = (shortfall_iff _).0 h in ground arith, λ h. (shortfall_iff _).1 (ground arith))

-- What a settlement without a problem has seen: the output arrived; or the venue's position was read
-- before and after, and moved.
abbrev pub Verified :
    TradeIntent
    → ℤ
    → Option ℤ
    → Option PositionReader
    → Option (PerpSettleLeg × PerpPositionRef)
    → Type 0
Verified intent got prior positions none = intent.quote.min_out_amount ≤ℤ got
Verified intent got prior none (some (leg, ref)) = ⊥
Verified intent got prior (some reader) (some (leg, ref)) =
    (before : ℤ) × (after : ℤ) × (prior ≡ some before)
    × (reader.read_before ref ≡ ok before)
    × (reader.read_after ref ≡ ok after)
    × Moved leg before after leg.side

known_position-some :
    (r : Result Failure ℤ) (before : ℤ) → known_position r ≡ ok (some before) → r ≡ ok before
unfolding known_position
known_position-some (ok n) before h = cc
known_position-some (err e) before h = absurd (cc)

known_position-none : (r : Result Failure ℤ) → known_position r ≢ ok none
unfolding known_position
known_position-none (ok n) h = cc
known_position-none (err e) h = cc

settle_read_lem :
    (leg : PerpSettleLeg) (before : ℤ) (r : Result Failure ℤ)
    → (settle_read leg before r).problem ≡ none
    → (after : ℤ) × (r ≡ ok after) × Moved leg before after leg.side
unfolding settle_read
settle_read_lem leg before (ok after) h = (after, refl, (settle_position_iff leg before after).0 h)
settle_read_lem leg before (err e) h = absurd (cc)

pub settle_from-Verified :
    (intent : TradeIntent) (got : ℤ) (prior : Option ℤ) (positions : Option PositionReader)
    (r : Option (PerpSettleLeg × PerpPositionRef))
    → read_from positions r ≡ ok prior
    → (settle_from intent got prior positions r).problem ≡ none
    → Verified intent got prior positions r
unfolding read_from settle_from
settle_from-Verified intent got none positions none h k = (settle_tokens_iff intent got).0 k
settle_from-Verified intent got (some before) positions none h k =
    (settle_tokens_iff intent got).0 k
settle_from-Verified intent got prior none (some (leg, ref)) h k = absurd (cc)
settle_from-Verified intent got none (some reader) (some (leg, ref)) h k =
    absurd (known_position-none (reader.read_before ref) h)
settle_from-Verified intent got (some before) (some reader) (some (leg, ref)) h k =
    let s = settle_read_lem leg before (reader.read_after ref) k in
    (before, s.0, refl, known_position-some (reader.read_before ref) before h, s.1, s.2)
