-- ===== src/Control/Trading/Reserved.antt =====
-- What the answer to a reservation means (`TradingControl` of src/execution/control/index.ts).

use ari_os.Prelude.{
  Bool, true, false, not, ◌||◌, arith, List, [], ◌∷◌, ◌++◌, none, some, ◌≡◌, refl, str_eq, or_false,
}
use ari_os.Prelude.Int.{ℤ, pos, ltb_ℤ, leb_ℤ, ◌+ℤ◌, ◌≤ℤ◌, +ℤ_parts, le_of_not_ltb}
use ari_os.Prelude.Checks.{reasons, Clean, Clean-parts, reasons_iff}
use ari_os.Control.Ledger.Rows.{
  int64_max, Ledger, expire, unexpired, has_id, is_malformed, is_row_bindable, is_bindable,
  plain_row, insert_row, inserted, reserve,
}
use ari_os.Control.Policy.{PolicyDocument, TradeRequest, any_negative}
use ari_os.Control.Trading.{
  Reason, TradingControl, Decision, request_checks, allow_checks, market_checks, exposure_checks,
  window_checks, trade_checks, entry_of, decided, decide, reserve_trade,
}
use ari_os.Control.Trading.Permitted.{Authorized, InMarket, request-Authorized, market-InMarket}
use ari_os.Control.Trading.Limits.{Bounded, checks-Bounded}

-- What a granted reservation leaves.
pub record Permitted (c : TradingControl) (t : TradeRequest) (l after : Ledger) : Type 0 where
  pub inserted : after.rows ≡ unexpired t.now l.rows ++ plain_row c.options (entry_of t) ∷ []
  pub fresh : has_id t.id (unexpired t.now l.rows) ≡ false
  pub authorized : Authorized c t
  pub in_market : InMarket c.policy t
  pub bounded : Bounded c.policy t after.rows

-- What the answer of a reservation means.
pub data Decided (c : TradingControl) (t : TradeRequest) (l : Ledger) (r : Decision × Ledger)
    : Type 0 where
  granted :
      r.0.allowed ≡ true
      → r.0.refused_for ≡ []
      → r.0.reservation_id ≡ some t.id
      → Permitted c t l r.1
      → Decided c t l r
  refused :
      r.0.allowed ≡ false
      → ¬ (r.0.refused_for ≡ [])
      → r.0.reservation_id ≡ none
      → r.1 ≡ expire t.now l
      → Decided c t l r

Clean-Permitted :
    (c : TradingControl) (t : TradeRequest) (l after : Ledger)
    → after.rows ≡ unexpired t.now l.rows ++ plain_row c.options (entry_of t) ∷ []
    → has_id t.id (unexpired t.now l.rows) ≡ false
    → Clean (trade_checks c t (expire t.now l))
    → Permitted c t l after
unfolding trade_checks
Clean-Permitted c t l after rows fresh h =
    let live = expire t.now l in
    let (req, (allow, (market, (exposure, window)))) =
      Clean-parts (request_checks c t) (allow_checks c.policy t) (market_checks c.policy t)
        (exposure_checks c.policy t live) (window_checks c.policy t live) h in
    record {
      inserted = rows;
      fresh = fresh;
      authorized = request-Authorized c t req allow;
      in_market = market-InMarket c t live req market exposure;
      bounded = rw rows (checks-Bounded c.options c.policy t l exposure window);
    }

some_reason : (r : Reason) (rs : List Reason) → ¬ ((r ∷ rs) ≡ [])
some_reason r rs h = cc

-- The insert after clean checks.
insert-Decided :
    (c : TradingControl) (t : TradeRequest) (l : Ledger) (malformed refuses : Bool)
    → is_malformed (entry_of t) ≡ malformed
    → (has_id t.id (unexpired t.now l.rows)
        || not (is_row_bindable (plain_row c.options (entry_of t))))
      ≡ refuses
    → Clean (trade_checks c t (expire t.now l))
    → Decided c t l (decided t (reserve c.options (entry_of t) (expire t.now l)))
unfolding decided reserve insert_row inserted expire plain_row
insert-Decided c t l true taken e h k = rw e (refused refl (some_reason _ _) refl refl)
insert-Decided c t l false true e h k = rw e (rw h (refused refl (some_reason _ _) refl refl))
insert-Decided c t l false false e h k =
    rw e (rw h (granted refl refl refl (Clean-Permitted c t l _ refl (or_false _ _ h).0 k)))

decide-Decided :
    (c : TradingControl) (t : TradeRequest) (l : Ledger) (rs : List Reason)
    → reasons (trade_checks c t (expire t.now l)) ≡ rs
    → Decided c t l (decide c t rs (expire t.now l))
unfolding decide
decide-Decided c t l [] e = insert-Decided c t l _ _ refl refl ((reasons_iff _).0 e)
decide-Decided c t l (r ∷ rs) e = refused refl (some_reason _ _) refl refl

-- A reservation is granted only when the policy is signed and in force and allows every party, the
-- trade is in the limits, and the ledger, with the row of the trade in it, keeps every exposure and
-- every window in its limit; when it is refused a reason is given and nothing is reserved.
pub reserve_trade_lem :
    (c : TradingControl) (t : TradeRequest) (l : Ledger) → Decided c t l (reserve_trade c t l)
unfolding reserve_trade
reserve_trade_lem c t l = decide-Decided c t l _ refl

-- A request without a sign of its own: the entry of a clean one is well formed.
Clean-entry :
    (c : TradingControl) (t : TradeRequest)
    → str_eq t.id "" ≡ false
    → Clean (request_checks c t)
    → is_malformed (entry_of t) ≡ false
unfolding request_checks any_negative is_malformed
Clean-entry c t i (a0, (a1, (a2, a3))) =
    rw i (rw (or_false (ltb_ℤ t.now (pos 0)) _ (or_false _ _ a1).0).0 a2)

is_bindable-positive : (n : ℤ) → pos 0 ≤ℤ n → n ≤ℤ int64_max → is_bindable n ≡ true
unfolding is_bindable
is_bindable-positive n a b = ground arith

not_negative : (n : ℤ) → leb_ℤ n (pos 0) ≡ false → pos 0 ≤ℤ n
not_negative n h = ground arith

le_of_end : (now ttl : ℤ) → pos 0 ≤ℤ ttl → (now +ℤ ttl) ≤ℤ int64_max → now ≤ℤ int64_max
le_of_end now ttl a b = omega (arith, +ℤ_parts now ttl)

sum_positive : (now ttl : ℤ) → pos 0 ≤ℤ now → pos 0 ≤ℤ ttl → pos 0 ≤ℤ (now +ℤ ttl)
sum_positive now ttl a b = omega (arith, +ℤ_parts now ttl)

-- The row of a clean trade whose amount and end SQLite can hold.
binds :
    (c : TradingControl) (t : TradeRequest)
    → Clean (request_checks c t)
    → t.amount ≤ℤ int64_max
    → (t.now +ℤ c.options.ttl) ≤ℤ int64_max
    → pos 0 ≤ℤ c.options.ttl
    → is_row_bindable (plain_row c.options (entry_of t)) ≡ true
unfolding request_checks any_negative is_row_bindable plain_row
binds c t (a0, (a1, (a2, a3))) amount until ttl =
    let now =
      le_of_not_ltb t.now (pos 0) (or_false (ltb_ℤ t.now (pos 0)) _ (or_false _ _ a1).0).0 in
    rw (is_bindable-positive t.now now (le_of_end t.now c.options.ttl ttl until)) (
      rw (is_bindable-positive t.amount (not_negative t.amount a2) amount) (
        rw
          (is_bindable-positive (t.now +ℤ c.options.ttl) (sum_positive t.now c.options.ttl now ttl)
            until)
          refl))

request_Clean :
    (c : TradingControl) (t : TradeRequest) (l : Ledger)
    → Clean (trade_checks c t l)
    → Clean (request_checks c t)
unfolding trade_checks
request_Clean c t l h =
    (Clean-parts (request_checks c t) (allow_checks c.policy t) (market_checks c.policy t)
      (exposure_checks c.policy t l) (window_checks c.policy t l) h).0

fresh_of_window :
    (p : PolicyDocument) (t : TradeRequest) (l : Ledger)
    → Clean (window_checks p t l)
    → has_id t.id l.rows ≡ false
unfolding window_checks
fresh_of_window p t l (w0, (w1, (w2, (w3, (w4, w5))))) = w4

granted_of_Clean :
    (c : TradingControl) (t : TradeRequest) (l : Ledger)
    → str_eq t.id "" ≡ false
    → is_row_bindable (plain_row c.options (entry_of t)) ≡ true
    → Clean (trade_checks c t l)
    → (decided t (reserve c.options (entry_of t) l)).0.allowed ≡ true
unfolding trade_checks reserve insert_row inserted decided plain_row
granted_of_Clean c t l i b h =
    let (req, (allow, (market, (exposure, window)))) =
      Clean-parts (request_checks c t) (allow_checks c.policy t) (market_checks c.policy t)
        (exposure_checks c.policy t l) (window_checks c.policy t l) h in
    rw (Clean-entry c t i req) (rw (fresh_of_window c.policy t l window) (rw b refl))

-- A trade with an identifier is granted when no check fails on the live ledger, the amount and the end
-- of the reservation are below 2^63, and reservations last for no negative time.
pub reserve_trade-granted :
    (c : TradingControl) (t : TradeRequest) (l : Ledger)
    → str_eq t.id "" ≡ false
    → t.amount ≤ℤ int64_max
    → (t.now +ℤ c.options.ttl) ≤ℤ int64_max
    → pos 0 ≤ℤ c.options.ttl
    → Clean (trade_checks c t (expire t.now l))
    → (reserve_trade c t l).0.allowed ≡ true
unfolding reserve_trade decide
reserve_trade-granted c t l i amount until ttl h =
    rw ((reasons_iff (trade_checks c t (expire t.now l))).1 h) (
      granted_of_Clean c t (expire t.now l) i
        (binds c t (request_Clean c t (expire t.now l) h) amount until ttl) h)
