-- ===== src/Kernel/Money.antt =====
-- Quote buckets and slippage (src/kernel/money.ts). A slippage is a `bigint` quotient that the source
-- turns into a `number`: the two agree below 2^53.
use ari_os.Prelude.{String, [], ◌∷◌, Option, none, some, includes, if◌then◌else◌}
use ari_os.Prelude.Int.{ℤ, pos, pos_part, leb_ℤ, scale, ◌-ℤ◌}

abbrev pub wsol_mint : String
wsol_mint = "So11111111111111111111111111111111111111112"

abbrev pub usdc_mint : String
usdc_mint = "EPjFWdd5AufqSSqeM2qN1xzybapC8G4wEGGkZwyTDt1v"

abbrev pub usdt_mint : String
usdt_mint = "Es9vMFrzaCERmJfrF4H2FYD4KCoNkY11McCe8BenwNYB"

pub data QuoteBucket : Type 0 where
  sol usdc : QuoteBucket

unfoldable pub quote_bucket_for : String → Option QuoteBucket
quote_bucket_for mint =
    if includes (wsol_mint ∷ []) mint
    then some sol
    else if includes (usdc_mint ∷ usdt_mint ∷ []) mint
    then some usdc
    else none

unfoldable pub slippage_bps : ℤ → ℤ → ℤ
slippage_bps expected actual =
    if leb_ℤ expected (pos 0) then pos 0 else scale (expected -ℤ actual) 10_000 (pos_part expected)
