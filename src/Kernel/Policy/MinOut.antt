-- ===== src/Kernel/Policy/MinOut.antt =====
-- What the slippage clamp says of the minimum output (src/kernel/policy-engine.ts, money.ts).
use ari_os.Prelude.{ℕ, ◌+◌, ◌-◌, ◌*◌, ◌/◌, ◌≤◌, ◌<◌, ◌≡◌, ok, arith, leb, Bool-cases, inl, inr}
use ari_os.Prelude.Division.{lt-suc_div_mul}
use ari_os.Prelude.Int.{pos, ◌-ℤ◌, ◌+ℤ◌, ◌≤ℤ◌, scale}
use ari_os.Kernel.Contracts.{PolicyConfig, TradeIntent}
use ari_os.Kernel.Money.{slippage_bps}
use ari_os.Kernel.Policy.{GuardOptions, static_guards}
use ari_os.Kernel.Policy.Admissible.{static_guards_iff}

loss_bounded :
    (loss out bps : ℕ) → 0 < out → loss * 10_000 / out ≤ bps → loss * 10_000 < (bps + 1) * out
loss_bounded loss out bps p h = grind (arith, lt-suc_div_mul (loss * 10_000) out p)

slippage_bps-loss :
    (out min_out : ℕ)
    → 0 < out
    → min_out ≤ out
    → slippage_bps (pos out) (pos min_out) ≡ pos ((out - min_out) * 10_000 / out)
unfolding slippage_bps scale ◌-ℤ◌
slippage_bps-loss out min_out p h = ground arith

min_out_bounded :
    (out min_out bps : ℕ)
    → 0 < out
    → slippage_bps (pos out) (pos min_out) ≤ℤ pos bps +ℤ pos 50
    → 10_000 * out < 10_000 * min_out + (bps + 51) * out
unfolding ◌+ℤ◌
min_out_bounded out min_out bps p h = elim (Bool-cases (leb min_out out)) [
  | inl e ↦
      ground (arith, slippage_bps-loss out min_out p, loss_bounded (out - min_out) out (bps + 50) p)
  | inr e ↦ ground arith
]

-- An intent with a positive quoted output, a minimum output that is not negative and a clamp that is
-- not negative, which the guards let through, commits to a minimum output that falls short of the
-- quoted one by less than 51 basis points over the clamp.
pub static_guards-min_out :
    (policy : PolicyConfig) (intent : TradeIntent) (opts : GuardOptions) (out min_out bps : ℕ)
    → 0 < out
    → intent.quote.out_amount ≡ pos out
    → intent.quote.min_out_amount ≡ pos min_out
    → policy.max_slippage_bps ≡ pos bps
    → static_guards policy intent opts ≡ ok tt
    → 10_000 * out < 10_000 * min_out + (bps + 51) * out
static_guards-min_out policy intent opts out min_out bps p eo em ec h =
    min_out_bounded out min_out bps p
      (rw (← eo, ← em, ← ec) ((static_guards_iff policy intent opts).0 h).slippage.1)
