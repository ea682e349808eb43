-- ===== src/Control/Trading/Limits.antt =====
-- The exposures and the windows of a reserved trade (`TradingControl` of
-- src/execution/control/index.ts).
use text.Mathlib.TextPositions.{eq_refl}
use ari_os.Prelude.{Bool, true, false, List, [], ◌∷◌, ◌++◌, ◌≡◌, refl, sym, arith, or_false}
use ari_os.Prelude.Int.{
  ℤ, pos, ◌+ℤ◌, ◌*ℤ◌, ◌≤ℤ◌, ◌<ℤ◌, ltb_ℤ, +ℤ_assoc, le_of_not_ltb, lt_of_not_leb,
}
use ari_os.Prelude.Checks.{Clean}
use ari_os.Control.Ledger.Rows.{
  LedgerEntry, Ledger, LedgerOptions, Reservation, expire, unexpired, sum_where, in_window,
  is_asset, plain_row,
}
use ari_os.Control.Ledger.Sums.{usage-expire, sum_where-push, is_asset_self, in_window_now}
use ari_os.Control.Policy.{PolicyDocument, TradeRequest}
use ari_os.Control.Trading.{
  exposure_checks, window_checks, window_use, any_entry, is_strategy, entry_of,
}

-- With the reservation in the ledger, every exposure and every window is within its limit.
pub record Bounded (p : PolicyDocument) (t : TradeRequest) (rows : List Reservation) : Type 0 where
  pub total : (t.portfolio_exposure +ℤ sum_where any_entry rows) ≤ℤ p.limits.total_exposure
  pub asset : (t.asset_exposure +ℤ sum_where (is_asset t.token_in) rows) ≤ℤ p.limits.asset_exposure
  pub valued : pos 0 <ℤ t.portfolio_value
  pub concentration :
      ((t.asset_exposure +ℤ sum_where (is_asset t.token_in) rows) *ℤ pos 10_000)
      ≤ℤ (p.limits.concentration_bps *ℤ t.portfolio_value)
  pub asset_hour :
      sum_where (in_window t.now (pos 3_600) (is_asset t.token_in)) rows ≤ℤ p.limits.asset_hourly
  pub asset_day :
      sum_where (in_window t.now (pos 86_400) (is_asset t.token_in)) rows ≤ℤ p.limits.asset_daily
  pub strategy_hour :
      sum_where (in_window t.now (pos 3_600) (is_strategy t.strategy)) rows
      ≤ℤ p.limits.strategy_hourly
  pub strategy_day :
      sum_where (in_window t.now (pos 86_400) (is_strategy t.strategy)) rows
      ≤ℤ p.limits.strategy_daily

-- A sum within a limit stays within it when its last term is already in the ledger.
in_limit :
    (limit x s a s' : ℤ) → s' ≡ s +ℤ a → ltb_ℤ limit (x +ℤ s +ℤ a) ≡ false → (x +ℤ s') ≤ℤ limit
in_limit limit x s a s' e h = rw e (rw (sym (+ℤ_assoc x s a)) (le_of_not_ltb limit (x +ℤ s +ℤ a) h))

in_concentration :
    (limit x s a s' : ℤ)
    → s' ≡ s +ℤ a
    → ltb_ℤ limit ((x +ℤ s +ℤ a) *ℤ pos 10_000) ≡ false
    → ((x +ℤ s') *ℤ pos 10_000) ≤ℤ limit
in_concentration limit x s a s' e h =
    rw e (rw (sym (+ℤ_assoc x s a)) (le_of_not_ltb limit ((x +ℤ s +ℤ a) *ℤ pos 10_000) h))

-- A window of the ledger with the reservation in it.
in_window_limit :
    (o : LedgerOptions) (t : TradeRequest) (limit w : ℤ) (p : LedgerEntry → Bool) (l : Ledger)
    → pos 0 <ℤ w
    → p (entry_of t) ≡ true
    → ltb_ℤ limit (window_use t w p (expire t.now l)) ≡ false
    → sum_where (in_window t.now w p) (unexpired t.now l.rows ++ plain_row o (entry_of t) ∷ [])
      ≤ℤ limit
unfolding window_use expire plain_row
in_window_limit o t limit w p l h k e =
    rw
      (sum_where-push (in_window t.now w p) (unexpired t.now l.rows) (plain_row o (entry_of t))
        (in_window_now w p (entry_of t) h k))
      (le_of_not_ltb limit (sum_where (in_window t.now w p) (unexpired t.now l.rows) +ℤ t.amount)
        (rw (sym (usage-expire t.now w p l)) e))

pushed_sum :
    (o : LedgerOptions) (t : TradeRequest) (rows : List Reservation) (q : LedgerEntry → Bool)
    → q (entry_of t) ≡ true
    → sum_where q (rows ++ plain_row o (entry_of t) ∷ []) ≡ sum_where q rows +ℤ t.amount
unfolding plain_row
pushed_sum o t rows q h = sum_where-push q rows (plain_row o (entry_of t)) h

pub checks-Bounded :
    (o : LedgerOptions) (p : PolicyDocument) (t : TradeRequest) (l : Ledger)
    → Clean (exposure_checks p t (expire t.now l))
    → Clean (window_checks p t (expire t.now l))
    → Bounded p t (unexpired t.now l.rows ++ plain_row o (entry_of t) ∷ [])
unfolding exposure_checks window_checks
checks-Bounded o p t l (d0, (d1, (d2, d3))) (w0, (w1, (w2, (w3, w4)))) =
    let pushed = pushed_sum o t (unexpired t.now l.rows) in
    let asset = is_asset_self (entry_of t) in
    record {
      total = in_limit _ _ _ _ _ (pushed any_entry refl) d0;
      asset = in_limit _ _ _ _ _ (pushed (is_asset t.token_in) asset) d1;
      valued = lt_of_not_leb t.portfolio_value (pos 0) (or_false _ _ d2).0;
      concentration =
          in_concentration _ _ _ _ _ (pushed (is_asset t.token_in) asset) (or_false _ _ d2).1;
      asset_hour = in_window_limit o t _ _ _ l (omega arith) asset w0;
      asset_day = in_window_limit o t _ _ _ l (omega arith) asset w1;
      strategy_hour =
          in_window_limit o t _ _ _ l (omega arith) (unfold is_strategy in eq_refl t.strategy) w2;
      strategy_day =
          in_window_limit o t _ _ _ l (omega arith) (unfold is_strategy in eq_refl t.strategy) w3;
    }
