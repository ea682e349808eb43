-- ===== src/Kernel/Gateway/Checks.antt =====
-- The checks that the gateway makes before it reads a balance, and the error results
-- (src/kernel/trade-gateway.ts).
use ari_os.Prelude.{
  String, Bool, not, ◌&&◌, ◌||◌, Option, none, some, Result, ok, err, if◌then◌else◌, throw_if,
}
use ari_os.Prelude.Int.{ℤ, ltb_ℤ, ◌+ℤ◌}
use ari_os.Kernel.Contracts.{
  Failure, guard_error, other_error, GuardCode, TradeIntent, ExecuteResult, ErrorCode, guard_code,
  internal, PerpSettleLeg, PerpPositionRef, token_delta, venue_position, settle_mode_for, SpendCaps,
  PolicyConfig,
}
use ari_os.Kernel.Contracts.{TradeState}
use ari_os.Kernel.Money.{QuoteBucket, sol, usdc}
use ari_os.Kernel.Store.Spends.{Usage}
use ari_os.Kernel.Gateway.Run.{Ports, PositionReader}

abbrev pub throws : {A : Type 0} → GuardCode → Result Failure A
throws code = err (guard_error code)

-- `isGuardError(err) ? err.code : "INTERNAL"`.
unfoldable pub reported : Failure → ErrorCode
reported (guard_error code) = guard_code code
reported other_error = internal

-- `isGuardError(err) ? err.code : "INVALID_INTENT"`, as the journal has it.
unfoldable pub journalled : Failure → GuardCode
journalled (guard_error code) = code
journalled other_error = GuardCode.invalid_intent

unfoldable pub error_result : String → Failure → Bool → ExecuteResult
unfolding reported
error_result trade_id e simulated = record {
  trade_id = trade_id;
  state = TradeState.rejected;
  signature = none;
  simulated = simulated;
  fill = none;
  error = some (reported e);
}

-- #assertSettleable
unfoldable pub assert_settleable : Ports → TradeIntent → Result Failure (Unit {0})
assert_settleable ports intent = elim (settle_mode_for intent.kind) [
  | token_delta ↦ ok tt
  | venue_position ↦ elim ports.positions [
    | none ↦ throws GuardCode.settle_unverifiable
    | some r ↦ ok tt
  ]
]

unfoldable pub both : {A B : Type 0} → Result Failure A → Result Failure B → Result Failure (A × B)
both (ok a) (ok b) = ok (a, b)
both (ok a) (err e) = err e
both (err e) _ = err e

-- #assertMintsSupported
unfoldable pub assert_mints_supported : Ports → TradeIntent → Result Failure (Unit {0})
unfolding both
assert_mints_supported ports intent =
    elim (both (ports.inspect intent.input.mint) (ports.inspect intent.output_mint)) [
      | ok (a, b) ↦
          throw_if (not ports.policy.allow_token2022 && (a || b))
            (guard_error GuardCode.token2022_unsupported)
      | err e ↦ err e
    ]

unfoldable pub caps_of : PolicyConfig → QuoteBucket → SpendCaps
caps_of policy sol = policy.caps_sol
caps_of policy usdc = policy.caps_usdc

-- #assertWithinCaps
unfoldable pub assert_within_caps : ℤ → SpendCaps → Usage → Result Failure (Unit {0})
assert_within_caps amount caps used =
    if ltb_ℤ caps.per_trade amount
    then throws GuardCode.cap_exceeded
    else if ltb_ℤ caps.per_hour (used.hour +ℤ amount)
    then throws GuardCode.cap_exceeded
    else throw_if (ltb_ℤ caps.per_day (used.day +ℤ amount)) (guard_error GuardCode.cap_exceeded)

-- #positionRef
unfoldable pub position_ref : Ports → TradeIntent → Option (PerpSettleLeg × PerpPositionRef)
position_ref ports intent = elim intent.perp [
  | none ↦ none
  | some leg ↦ elim (settle_mode_for intent.kind) [
    | token_delta ↦ none
    | venue_position ↦ some (
      leg,
      record {
        venue = leg.venue;
        market = leg.market;
        owner = ports.pubkey;
        sub_account_id = leg.account_sub_id;
      },
    )
  ]
]

unfoldable pub known_position : Result Failure ℤ → Result Failure (Option ℤ)
known_position (ok n) = ok (some n)
known_position (err e) = err e

unfoldable pub read_from :
    Option PositionReader → Option (PerpSettleLeg × PerpPositionRef) → Result Failure (Option ℤ)
unfolding known_position
read_from positions none = ok none
read_from none (some (leg, ref)) = err other_error
read_from (some reader) (some (leg, ref)) = known_position (reader.read_before ref)

-- #readPosition, before the transaction is signed.
unfoldable pub read_position : Ports → TradeIntent → Result Failure (Option ℤ)
unfolding read_from
read_position ports intent = read_from ports.positions (position_ref ports intent)
