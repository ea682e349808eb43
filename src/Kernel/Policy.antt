-- ===== src/Kernel/Policy.antt =====
-- The guards that need no network (`staticGuards` of src/kernel/policy-engine.ts). The first one
-- that fails throws.
pub mod Admissible
pub mod MinOut
use ari_os.Prelude.{
  String, Bool, true, false, not, ◌&&◌, ◌||◌, List, [], ◌∷◌, Option, none, some, Result, ok, err,
  ◌>>◌, throw_if, includes, str_eq, if◌then◌else◌,
}
use ari_os.Prelude.Int.{pos, pos_part, ltb_ℤ, leb_ℤ, scale, ◌+ℤ◌}
use ari_os.Prelude.Number.{is_finite, is_negative, floor, exceeds}
use ari_os.Kernel.Contracts.{
  GuardCode, execution_disabled, kill_switch, invalid_intent, mint_not_pinned, mint_denied,
  slippage_exceeded, priority_fee_exceeded, priority_fee_invalid, min_out_mismatch, Failure,
  guard_error, is_intent_kind, is_perp_intent_kind, posts_zero_collateral, MintProvenance,
  untrusted, PolicyConfig, PerpSettleLeg, TradeIntent,
}
use ari_os.Kernel.Money.{quote_bucket_for, slippage_bps}

abbrev pub Guarded : Type 0 → Type 0
Guarded = Result Failure

abbrev pub refuse_if : Bool → GuardCode → Guarded (Unit {0})
refuse_if b code = throw_if b (guard_error code)

pub record GuardOptions : Type 0 where
  pub dry_run : Bool
  pub confirmed_by_user : Bool

unfoldable pub armed_guard : PolicyConfig → GuardOptions → Guarded (Unit {0})
armed_guard policy opts = do
  refuse_if policy.kill_switch kill_switch
  refuse_if (not opts.dry_run && not policy.execution_enabled) execution_disabled

-- The input leg is a real outflow, but for the kinds that post no collateral.
unfoldable pub input_guard : TradeIntent → Guarded (Unit {0})
input_guard intent =
    if posts_zero_collateral intent.kind
    then refuse_if (ltb_ℤ intent.input.amount (pos 0)) invalid_intent
    else refuse_if (leb_ℤ intent.input.amount (pos 0)) invalid_intent

unfoldable pub perp_leg_guard : Option PerpSettleLeg → Guarded (Unit {0})
perp_leg_guard none = err (guard_error invalid_intent)
perp_leg_guard (some leg) = do
  refuse_if (ltb_ℤ leg.expected_base_amount leg.min_base_amount) invalid_intent
  refuse_if (leb_ℤ leg.expected_base_amount (pos 0)) invalid_intent

unfoldable pub no_perp_leg_guard : Option PerpSettleLeg → Guarded (Unit {0})
no_perp_leg_guard none = ok tt
no_perp_leg_guard (some leg) = err (guard_error invalid_intent)

-- A perp leg is required for a perp kind and forbidden for any other.
unfoldable pub perp_guard : TradeIntent → Guarded (Unit {0})
perp_guard intent =
    if is_perp_intent_kind intent.kind
    then perp_leg_guard intent.perp
    else no_perp_leg_guard intent.perp

unfoldable pub is_untrusted : MintProvenance → Bool
is_untrusted untrusted = true
is_untrusted _ = false

unfoldable pub provenance_guard : TradeIntent → GuardOptions → Guarded (Unit {0})
provenance_guard intent opts = do
  refuse_if (str_eq intent.unsigned_tx_base64 "") invalid_intent
  refuse_if
      ((is_untrusted intent.input_provenance || is_untrusted intent.output_provenance)
        && not opts.confirmed_by_user)
      mint_not_pinned

unfoldable pub is_quote_asset : String → Bool
is_quote_asset mint = elim (quote_bucket_for mint) [ none ↦ false | some bucket ↦ true ]

-- min(absolute lamports, basis points of the input), the second for a positive quote-asset input.
unfoldable pub priority_fee_guard : PolicyConfig → TradeIntent → Guarded (Unit {0})
priority_fee_guard policy intent = do
  refuse_if
      (is_negative intent.priority_fee_lamports || not (is_finite intent.priority_fee_lamports))
      priority_fee_invalid
  let fee = floor intent.priority_fee_lamports
  refuse_if (ltb_ℤ policy.priority_fee_max_lamports fee) priority_fee_exceeded
  refuse_if
      (is_quote_asset intent.input.mint
        && ltb_ℤ (pos 0) intent.input.amount
        && ltb_ℤ (scale policy.priority_fee_max_bps (pos_part intent.input.amount) 10_000) fee)
      priority_fee_exceeded

unfoldable pub slippage_guard : PolicyConfig → TradeIntent → Guarded (Unit {0})
slippage_guard policy intent = do
  refuse_if (exceeds intent.quote.slippage_bps policy.max_slippage_bps) slippage_exceeded
  refuse_if
      (ltb_ℤ (policy.max_slippage_bps +ℤ pos 50)
        (slippage_bps intent.quote.out_amount intent.quote.min_out_amount))
      min_out_mismatch

unfoldable pub not_listed : Option (List String) → String → Bool
not_listed none mint = false
not_listed (some mints) mint = not (includes mints mint)

unfoldable pub mint_guards : PolicyConfig → List String → Guarded (Unit {0})
mint_guards policy [] = ok tt
mint_guards policy (mint ∷ mints) = do
  refuse_if (includes policy.mint_denylist mint) mint_denied
  refuse_if (not_listed policy.mint_allowlist mint) mint_denied
  mint_guards policy mints

unfoldable pub static_guards : PolicyConfig → TradeIntent → GuardOptions → Guarded (Unit {0})
static_guards policy intent opts = do
  armed_guard policy opts
  refuse_if (not (is_intent_kind intent.kind)) invalid_intent
  input_guard intent
  perp_guard intent
  provenance_guard intent opts
  priority_fee_guard policy intent
  slippage_guard policy intent
  mint_guards policy (intent.input.mint ∷ intent.output_mint ∷ [])
