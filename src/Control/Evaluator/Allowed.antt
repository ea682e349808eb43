-- ===== src/Control/Evaluator/Allowed.antt =====
-- Which trades the risk evaluator allows (`ProductionRiskEvaluator` of src/execution/control/index.ts).
use ari_os.Prelude.{
  true, false, List, [], ◌∷◌, Option, none, some, includes, str_eq, ◌≡◌, ◌↔◌, refl, arith,
}
use ari_os.Prelude.Int.{ℤ, pos, includes_ℤ, ◌+ℤ◌, ◌-ℤ◌, ◌≤ℤ◌, ◌<ℤ◌}
use ari_os.Prelude.Checks.{reasons, is_empty, Clean, reasons_iff}
use ari_os.Control.Ledger.Rows.{Reservation, sum_where, is_asset}
use ari_os.Control.Evaluator.{
  RiskReason, RiskLimits, RiskInput, value_of, is_missing, passes_cap, is_stale, passes_daily,
  notional_checks, risk_checks, evaluate,
}

-- At most a limit old, and not from the future.
abbrev pub Fresh : ℤ → ℤ → ℤ → Type 0
Fresh at now limit = (at ≤ℤ now) × ((now -ℤ at) ≤ℤ limit)

-- There is a cap, and the amount is within it.
abbrev pub Capped : ℤ → Option ℤ → Type 0
Capped n o = (cap : ℤ) × (o ≡ some cap) × (n ≤ℤ cap)

abbrev pub DailyCapped : Option ℤ → Option ℤ → Option ℤ → Type 0
DailyCapped none a b = Unit
DailyCapped (some max) (some a) (some b) = (a +ℤ b) ≤ℤ max
DailyCapped (some max) none b = ⊥
DailyCapped (some max) (some a) none = ⊥

pub record Acceptable (l : RiskLimits) (x : RiskInput) (rows : List Reservation) : Type 0 where
  pub on_chain : includes_ℤ l.chains x.chain ≡ true
  pub account : includes l.accounts x.account ≡ true
  pub router : includes l.routers x.router ≡ true
  pub token_in : includes l.tokens x.token_in ≡ true
  pub token_out : includes l.tokens x.token_out ≡ true
  pub spends : pos 0 <ℤ x.amount_in
  pub per_trade : Capped x.amount_in (value_of x.token_in l.max_per_trade)
  pub per_token :
      Capped
        (sum_where (is_asset x.token_in) rows +ℤ x.amount_in)
        (value_of x.token_in l.max_reserved_per_token)
  pub slippage : x.slippage_bps ≤ℤ l.max_slippage_bps
  pub quote : Fresh x.quote_at x.now l.max_quote_age
  pub block : Fresh x.quote_block x.current_block l.max_quote_blocks
  pub has_hash : str_eq x.quote_block_hash "" ≡ false
  pub canonical : str_eq x.quote_block_hash x.canonical_block_hash ≡ true
  pub balance : x.amount_in ≤ℤ x.token_balance
  pub gas : (x.estimated_gas_cost +ℤ l.native_gas_reserve) ≤ℤ x.native_balance
  pub daily : DailyCapped l.max_daily_notional x.notional x.daily_notional

is_stale_iff : (at now limit : ℤ) → (is_stale at now limit ≡ false) ↔ Fresh at now limit
unfolding is_stale
is_stale_iff at now limit = (λ h. ground arith, λ h. ground arith)

Capped-iff :
    (n : ℤ) (o : Option ℤ) → ((is_missing o ≡ false) × (passes_cap n o ≡ false)) ↔ Capped n o
unfolding is_missing passes_cap
Capped-iff n none = (λ h. absurd (cc h.0), λ h. absurd (cc h.1))
Capped-iff n (some cap) = (λ h. (cap, refl, ground arith), λ h. (refl, ground arith))

daily_iff : (max a b : Option ℤ) → Clean (notional_checks max a b) ↔ DailyCapped max a b
unfolding notional_checks is_missing passes_daily
daily_iff none a b = (λ h. tt, λ h. tt)
daily_iff (some m) none b = (λ h. absurd (cc h.0), λ h. absurd h)
daily_iff (some m) (some a) none = (λ h. absurd (cc h.0), λ h. absurd h)
daily_iff (some m) (some a) (some b) = (λ h. ground arith, λ h. (refl, (ground arith, tt)))

Clean-iff :
    (l : RiskLimits) (x : RiskInput) (rows : List Reservation)
    → Clean (risk_checks l x rows) ↔ Acceptable l x rows
unfolding risk_checks
Clean-iff l x rows = (forward, backward)
  where
    forward : Clean (risk_checks l x rows) → Acceptable l x rows
    forward
          (
            h0,
            (
              h1,
              (
                h2,
                (h3, (h4, (h5, (h6, (h7, (h8, (h9, (h10, (h11, (h12, (h13, (h14, h15)))))))))))),
              ),
            ),
          ) =
        record {
          on_chain = ground (arith, h0);
          account = ground (arith, h1);
          router = ground (arith, h2);
          token_in = ground (arith, h3);
          token_out = ground (arith, h3);
          spends = ground (arith, h7);
          per_trade = (Capped-iff _ _).0 (h4, h6);
          per_token = (Capped-iff _ _).0 (h5, h14);
          slippage = ground (arith, h8);
          quote = (is_stale_iff _ _ _).0 h9;
          block = (is_stale_iff _ _ _).0 h10;
          has_hash = ground (arith, h11);
          canonical = ground (arith, h11);
          balance = ground (arith, h12);
          gas = ground (arith, h13);
          daily = (daily_iff _ _ _).0 h15;
        }

    backward : Acceptable l x rows → Clean (risk_checks l x rows)
    backward a = (
      ground (arith, a.on_chain),
      (
        ground (arith, a.account),
        (
          ground (arith, a.router),
          (
            ground (arith, a.token_in, a.token_out),
            (
              ((Capped-iff _ _).1 a.per_trade).0,
              (
                ((Capped-iff _ _).1 a.per_token).0,
                (
                  ((Capped-iff _ _).1 a.per_trade).1,
                  (
                    ground (arith, a.spends),
                    (
                      ground (arith, a.slippage),
                      (
                        (is_stale_iff _ _ _).1 a.quote,
                        (
                          (is_stale_iff _ _ _).1 a.block,
                          (
                            ground (arith, a.has_hash, a.canonical),
                            (
                              ground (arith, a.balance),
                              (
                                ground (arith, a.gas),
                                (((Capped-iff _ _).1 a.per_token).1, (daily_iff _ _ _).1 a.daily),
                              ),
                            ),
                          ),
                        ),
                      ),
                    ),
                  ),
                ),
              ),
            ),
          ),
        ),
      ),
    )

evaluate-clean :
    (l : RiskLimits) (x : RiskInput) (rows : List Reservation)
    → ((evaluate l x rows).allowed ≡ true) ↔ (reasons (risk_checks l x rows) ≡ [])
unfolding evaluate
evaluate-clean l x rows = go (reasons (risk_checks l x rows))
  where
    go : (rs : List RiskReason) → (is_empty rs ≡ true) ↔ (rs ≡ [])
    go [] = (λ h. refl, λ h. unfold is_empty in refl)
    go (r ∷ rs) = (λ h. absurd (unfold is_empty in cc), λ h. absurd (cc))

-- A trade is allowed exactly when it is acceptable: its chain, account, router and both tokens are
-- allowed; its amount is positive, within the cap configured for its token and covered by the balance;
-- what is reserved of that token stays within its cap; the slippage, the age of the quote and of its
-- block are within their limits and neither is from the future; the quoted block is canonical; the gas
-- reserve is kept; and where a daily limit is set, both valuations are known and within it.
pub evaluate_iff :
    (l : RiskLimits) (x : RiskInput) (rows : List Reservation)
    → ((evaluate l x rows).allowed ≡ true) ↔ Acceptable l x rows
evaluate_iff l x rows = (
  λ h. (Clean-iff l x rows).0 ((reasons_iff _).0 ((evaluate-clean l x rows).0 h)),
  λ h. (evaluate-clean l x rows).1 ((reasons_iff _).1 ((Clean-iff l x rows).1 h)),
)
