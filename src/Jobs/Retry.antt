-- ===== src/Jobs/Retry.antt =====
-- When a failed job is tried again (`fail` of src/autonomy/jobs/index.ts).
use native.Mathlib.Nat.{pow-zero, one-le-pow}
use native.Mathlib.Omega.{pow_step}
use ari_os.Prelude.{ℕ, zero, suc, ◌+◌, ◌-◌, ◌*◌, ◌/◌, ◌^◌, ◌≤◌, ◌<◌, ◌≡◌, arith}
use ari_os.Prelude.Int.{pos}
use ari_os.Prelude.Number.{dyadic, round}
use ari_os.Prelude.Division.{le-div, div-lt, mul-le_left}
use ari_os.Jobs.{retry_delay}

pow_add : (k m : ℕ) → 2 ^ (k + m) ≡ 2 ^ k * 2 ^ m
pow_add zero m = grind (arith, pow-zero 2)
pow_add (suc k) m = grind (arith, pow_add k m, pow_step 2 k, pow_step 2 (k + m))

pow_pos : (k : ℕ) → 0 < 2 ^ k
pow_pos k = one-le-pow k 2 (omega arith)

rounded :
    (n d b : ℕ)
    → 0 < d
    → b * d ≤ n
    → n ≤ 2 * (b * d)
    → (b ≤ (2 * n + d) / (2 * d)) × ((2 * n + d) / (2 * d) ≤ 2 * b)
rounded n d b p lo hi = (
  le-div (2 * n + d) (2 * d) b (omega (arith, p)) (grind (arith, lo)),
  omega (arith, div-lt (2 * n + d) (2 * d) (2 * b + 1) (omega (arith, p)) (grind (arith, hi, p))),
)

mul_mono : (j r a c : ℕ) → j ≤ a → r ≤ c → j * r ≤ a * c
mul_mono j r a c hj hr = grind (arith, hj, hr)

doubled : (b d x : ℕ) → x ≤ d → b * (d + x) ≤ 2 * (b * d)
doubled b d x h = grind (arith, mul-le_left b (d + x) (d + d) (omega (arith, h)))

-- A retry with a jitter j/2^k and a random number r/2^m, both from 0 to 1, waits at least the backoff
-- doubled for each attempt before, and at most twice as long.
pub retry_delay_bounded :
    (backoff attempts j k r m : ℕ)
    → j ≤ 2 ^ k
    → r ≤ 2 ^ m
    → (backoff * 2 ^ (attempts - 1)
        ≤ retry_delay backoff attempts (dyadic (pos j) k) (dyadic (pos r) m))
      × (retry_delay backoff attempts (dyadic (pos j) k) (dyadic (pos r) m)
          ≤ 2 * (backoff * 2 ^ (attempts - 1)))
unfolding retry_delay round
retry_delay_bounded backoff attempts j k r m hj hr =
    let b = backoff * 2 ^ (attempts - 1) in
    let d = 2 ^ (k + m) in
    rounded (b * (d + j * r)) d b (pow_pos (k + m)) (grind arith)
      (doubled b d (j * r) (omega (arith, mul_mono j r (2 ^ k) (2 ^ m) hj hr, pow_add k m)))
