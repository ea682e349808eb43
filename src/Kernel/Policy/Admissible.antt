-- ===== src/Kernel/Policy/Admissible.antt =====
-- Which intents the static guards let through (src/kernel/policy-engine.ts).
use mathlib.Core.Path.{subst}
use mathlib.Core.Option.{some-injective}
use ari_os.Prelude.{
  String, true, false, not, List, [], ◌∷◌, Option, none, some, ok, err, ◌>>◌, ◌≡◌, ◌↔◌, ◌⊎◌, inl,
  inr, refl, sym, arith, Bool-cases, includes, str_eq,
}
use ari_os.Prelude.Int.{pos, pos_part, ◌≤ℤ◌, ◌<ℤ◌, scale, ◌+ℤ◌}
use ari_os.Prelude.Number.{is_finite, is_negative, floor, exceeds}
use ari_os.Kernel.Contracts.{
  invalid_intent, IntentKind, PolicyConfig, TradeIntent, PerpSettleLeg, is_intent_kind,
  is_perp_intent_kind, posts_zero_collateral,
}
use ari_os.Kernel.Money.{slippage_bps}
use ari_os.Kernel.Policy.{
  Guarded, GuardOptions, refuse_if, armed_guard, input_guard, perp_leg_guard, no_perp_leg_guard,
  perp_guard, is_untrusted, provenance_guard, is_quote_asset, priority_fee_guard, slippage_guard,
  not_listed, mint_guards, static_guards,
}

abbrev pub Passes : Guarded (Unit {0}) → Type 0
Passes m = m ≡ ok tt

Passes-and : (m k : Guarded (Unit {0})) → Passes (m >> k) ↔ (Passes m × Passes k)
Passes-and (ok u) k = (λ h. (refl, h), λ h. h.1)
Passes-and (err e) k = (λ h. absurd (cc), λ h. cc)

-- Trading is on: the kill switch is off, and a live call needs the kernel to be armed.
abbrev pub Armed : PolicyConfig → GuardOptions → Type 0
Armed policy opts =
    (policy.kill_switch ≡ false) × ((opts.dry_run ≡ true) ⊎ (policy.execution_enabled ≡ true))

armed_guard_iff : (p : PolicyConfig) (o : GuardOptions) → Passes (armed_guard p o) ↔ Armed p o
unfolding armed_guard
armed_guard_iff p o = (λ h. ground arith, λ h. ground arith)

-- The input leg is an outflow; only a kind that posts no collateral may spend nothing.
abbrev pub Spends : TradeIntent → Type 0
Spends intent =
    (pos 0 ≤ℤ intent.input.amount)
    × ((posts_zero_collateral intent.kind ≡ true) ⊎ (pos 0 <ℤ intent.input.amount))

input_guard_iff : (i : TradeIntent) → Passes (input_guard i) ↔ Spends i
unfolding input_guard
input_guard_iff i = (λ h. ground arith, λ h. ground arith)

-- The perp leg is there exactly for a perp kind, with a worst case within the expected size.
abbrev pub HasLeg : TradeIntent → Type 0
HasLeg intent =
    ((is_perp_intent_kind intent.kind ≡ false) × (intent.perp ≡ none))
    ⊎ ((is_perp_intent_kind intent.kind ≡ true)
        × ((leg : PerpSettleLeg) × (intent.perp ≡ some leg)
            × (leg.min_base_amount ≤ℤ leg.expected_base_amount)
            × (pos 0 <ℤ leg.expected_base_amount)))

abbrev IsSized : PerpSettleLeg → Type 0
IsSized leg =
    (leg.min_base_amount ≤ℤ leg.expected_base_amount) × (pos 0 <ℤ leg.expected_base_amount)

IsSized-leg_iff : (leg : PerpSettleLeg) → Passes (perp_leg_guard (some leg)) ↔ IsSized leg
unfolding perp_leg_guard
IsSized-leg_iff leg = (λ h. ground arith, λ h. ground arith)

perp_leg_guard_iff :
    (o : Option PerpSettleLeg)
    → Passes (perp_leg_guard o) ↔ (
        (leg : PerpSettleLeg) × (o ≡ some leg)
        × (leg.min_base_amount ≤ℤ leg.expected_base_amount)
        × (pos 0 <ℤ leg.expected_base_amount))
perp_leg_guard_iff none = (λ h. absurd (unfold perp_leg_guard in cc), λ h. absurd (cc h.1))
perp_leg_guard_iff (some leg) = (
  λ h. let s = (IsSized-leg_iff leg).0 h in (leg, refl, s.0, s.1),
  λ h. (IsSized-leg_iff leg).1 (subst IsSized (sym (some-injective leg h.0 h.1)) (h.2, h.3)),
)

no_perp_leg_guard_iff : (o : Option PerpSettleLeg) → Passes (no_perp_leg_guard o) ↔ (o ≡ none)
unfolding no_perp_leg_guard
no_perp_leg_guard_iff none = (λ h. refl, λ h. refl)
no_perp_leg_guard_iff (some leg) = (λ h. cc, λ h. cc)

perp_guard_iff : (i : TradeIntent) → Passes (perp_guard i) ↔ HasLeg i
unfolding perp_guard
perp_guard_iff i = elim (Bool-cases (is_perp_intent_kind i.kind)) [
  | inl e ↦ rw e (
    λ h. inr (refl, (perp_leg_guard_iff i.perp).0 h),
    λ h. elim h [ inl u ↦ cc | inr u ↦ (perp_leg_guard_iff i.perp).1 u.1 ],
  )
  | inr e ↦ rw e (
    λ h. inl (refl, (no_perp_leg_guard_iff i.perp).0 h),
    λ h. elim h [ inl u ↦ (no_perp_leg_guard_iff i.perp).1 u.1 | inr u ↦ cc ],
  )
]

-- The transaction is built, and a human confirmed any mint that is not pinned.
abbrev pub IsPinned : TradeIntent → GuardOptions → Type 0
IsPinned intent opts =
    (str_eq intent.unsigned_tx_base64 "" ≡ false)
    × ((opts.confirmed_by_user ≡ true)
        ⊎ ((is_untrusted intent.input_provenance ≡ false)
            × (is_untrusted intent.output_provenance ≡ false)))

provenance_guard_iff :
    (i : TradeIntent) (o : GuardOptions) → Passes (provenance_guard i o) ↔ IsPinned i o
unfolding provenance_guard
provenance_guard_iff i o = (λ h. ground arith, λ h. ground arith)

-- The priority fee is a finite amount under the absolute ceiling, and under its share of a positive
-- input in a quote asset.
abbrev pub FeeIsCapped : PolicyConfig → TradeIntent → Type 0
FeeIsCapped policy intent =
    (is_negative intent.priority_fee_lamports ≡ false)
    × (is_finite intent.priority_fee_lamports ≡ true)
    × (floor intent.priority_fee_lamports ≤ℤ policy.priority_fee_max_lamports)
    × ((is_quote_asset intent.input.mint ≡ false)
        ⊎ (intent.input.amount ≤ℤ pos 0)
        ⊎ (floor intent.priority_fee_lamports
            ≤ℤ scale policy.priority_fee_max_bps (pos_part intent.input.amount) 10_000))

priority_fee_guard_iff :
    (p : PolicyConfig) (i : TradeIntent) → Passes (priority_fee_guard p i) ↔ FeeIsCapped p i
unfolding priority_fee_guard
priority_fee_guard_iff p i = (λ h. ground arith, λ h. ground arith)

-- Neither the stated slippage nor the one that the minimum output implies passes the clamp.
abbrev pub IsClamped : PolicyConfig → TradeIntent → Type 0
IsClamped policy intent =
    (exceeds intent.quote.slippage_bps policy.max_slippage_bps ≡ false)
    × (slippage_bps intent.quote.out_amount intent.quote.min_out_amount
        ≤ℤ policy.max_slippage_bps +ℤ pos 50)

slippage_guard_iff :
    (p : PolicyConfig) (i : TradeIntent) → Passes (slippage_guard p i) ↔ IsClamped p i
unfolding slippage_guard
slippage_guard_iff p i = (λ h. ground arith, λ h. ground arith)

abbrev pub IsAllowed : PolicyConfig → String → Type 0
IsAllowed policy mint =
    (includes policy.mint_denylist mint ≡ false)
    × ((policy.mint_allowlist ≡ none)
        ⊎ ((mints : List String) × (policy.mint_allowlist ≡ some mints)
            × (includes mints mint ≡ true)))

mint_guards_iff :
    (p : PolicyConfig) (a b : String)
    → Passes (mint_guards p (a ∷ b ∷ [])) ↔ (IsAllowed p a × IsAllowed p b)
unfolding mint_guards not_listed
mint_guards_iff p a b = (λ h. ground arith, λ h. ground arith)

known_iff :
    (kind : IntentKind)
    → Passes (refuse_if (not (is_intent_kind kind)) invalid_intent) ↔ (is_intent_kind kind ≡ true)
known_iff kind = (λ h. ground arith, λ h. ground arith)

pub record Admissible (policy : PolicyConfig) (intent : TradeIntent) (opts : GuardOptions)
    : Type 0 where
  pub armed : Armed policy opts
  pub known : is_intent_kind intent.kind ≡ true
  pub spends : Spends intent
  pub leg : HasLeg intent
  pub pinned : IsPinned intent opts
  pub fee : FeeIsCapped policy intent
  pub slippage : IsClamped policy intent
  pub mints : IsAllowed policy intent.input.mint × IsAllowed policy intent.output_mint

-- The guards let an intent through exactly when it is admissible: trading is on, the kind is known,
-- the input is an outflow, the perp leg fits the kind, a human confirmed untrusted mints, the priority
-- fee and the slippage are within their ceilings, and both mints are allowed.
pub static_guards_iff :
    (policy : PolicyConfig) (intent : TradeIntent) (opts : GuardOptions)
    → (static_guards policy intent opts ≡ ok tt) ↔ Admissible policy intent opts
unfolding static_guards
static_guards_iff policy intent opts = (sound, complete)
  where
    sound : static_guards policy intent opts ≡ ok tt → Admissible policy intent opts
    sound h =
        let h1 = (Passes-and (armed_guard policy opts) _).0 h in
        let h2 =
          (Passes-and (refuse_if (not (is_intent_kind intent.kind)) invalid_intent) _).0 h1.1 in
        let h3 = (Passes-and (input_guard intent) _).0 h2.1 in
        let h4 = (Passes-and (perp_guard intent) _).0 h3.1 in
        let h5 = (Passes-and (provenance_guard intent opts) _).0 h4.1 in
        let h6 = (Passes-and (priority_fee_guard policy intent) _).0 h5.1 in
        let h7 = (Passes-and (slippage_guard policy intent) _).0 h6.1 in
        record {
          armed = (armed_guard_iff policy opts).0 h1.0;
          known = (known_iff intent.kind).0 h2.0;
          spends = (input_guard_iff intent).0 h3.0;
          leg = (perp_guard_iff intent).0 h4.0;
          pinned = (provenance_guard_iff intent opts).0 h5.0;
          fee = (priority_fee_guard_iff policy intent).0 h6.0;
          slippage = (slippage_guard_iff policy intent).0 h7.0;
          mints = (mint_guards_iff policy intent.input.mint intent.output_mint).0 h7.1;
        }

    complete : Admissible policy intent opts → static_guards policy intent opts ≡ ok tt
    complete a = simp (
      (armed_guard_iff policy opts).1 a.armed,
      (known_iff intent.kind).1 a.known,
      (input_guard_iff intent).1 a.spends,
      (perp_guard_iff intent).1 a.leg,
      (provenance_guard_iff intent opts).1 a.pinned,
      (priority_fee_guard_iff policy intent).1 a.fee,
      (slippage_guard_iff policy intent).1 a.slippage,
      (mint_guards_iff policy intent.input.mint intent.output_mint).1 a.mints,
    )
