-- ===== src/Kernel/Reconciler/Recovery.antt =====
-- What a recovery leaves (src/kernel/reconciler.ts).
use text.Mathlib.TextPositions.{eq_refl}
use mathlib.Core.Path.{subst}
use ari_os.Prelude.{
  ℕ, ◌+◌, String, Bool, true, false, ◌||◌, List, [], ◌∷◌, map, Option, none, some, Result, ok, err,
  ◌≡◌, refl, sym, arith, str_eq, Bool-cases, inl, inr, length, All,
}
use ari_os.Kernel.Contracts.{Failure, ConfirmStatus}
use ari_os.Kernel.Store.Rows.{TradeRow, KernelStore}
use ari_os.Kernel.Store.Spends.{release_reservation, consume_reservation}
use ari_os.Kernel.Store.Trades.{
  update_row, update_trade, set_state, fail, is_sent, sent_rows, pending_sent,
}
use ari_os.Kernel.Gateway.Live.{release_held, consume_held}
use ari_os.Kernel.Reconciler.{
  ReconcilerDeps, ReconcileSummary, has_signature, held_by, settle_state, settle_row, drop_row,
  tally, settle_with, recover_row, recover_rest, recover,
}

unfoldable named : String → List TradeRow → Bool
named id [] = false
named id (t ∷ ts) = str_eq id t.id || named id ts

-- A row that is still sent is among the trades to come.
abbrev Left : List TradeRow → TradeRow → Type 0
Left trades row = is_sent row.state ≡ true → named row.id trades ≡ true

later-Left :
    (t : TradeRow) (ts rows : List TradeRow) → All (Left ts) rows → All (Left (t ∷ ts)) rows
unfolding named
later-Left t ts [] h = tt
later-Left t ts (row ∷ rows) h = (λ e. ground (arith, h.0 e), later-Left t ts rows h.1)

named_self : (t : TradeRow) (ts : List TradeRow) → named t.id (t ∷ ts) ≡ true
unfolding named
named_self t ts = rw (eq_refl t.id)

sent_rows-sent :
    (row : TradeRow) (rows : List TradeRow)
    → is_sent row.state ≡ true
    → sent_rows (row ∷ rows) ≡ row ∷ sent_rows rows
unfolding sent_rows
sent_rows-sent row rows e = rw e

sent_rows-other :
    (row : TradeRow) (rows : List TradeRow)
    → is_sent row.state ≡ false
    → sent_rows (row ∷ rows) ≡ sent_rows rows
unfolding sent_rows
sent_rows-other row rows e = rw e

sent_rows-Left : (rows : List TradeRow) → All (Left (sent_rows rows)) rows
sent_rows-Left [] = tt
sent_rows-Left (row ∷ rows) = elim (Bool-cases (is_sent row.state)) [
  | inl e ↦
      subst (λ ts. All (Left ts) (row ∷ rows)) (sym (sent_rows-sent row rows e))
        (
          λ _. named_self row (sent_rows rows),
          later-Left row (sent_rows rows) rows (sent_rows-Left rows),
        )
  | inr e ↦
      subst (λ ts. All (Left ts) (row ∷ rows)) (sym (sent_rows-other row rows e))
        (λ u. absurd (cc), sent_rows-Left rows)
]

none-Left : (rows : List TradeRow) → All (Left []) rows → sent_rows rows ≡ []
unfolding sent_rows named
none-Left [] h = refl
none-Left (row ∷ rows) h = ground (arith, h.0, none-Left rows h.1)

update_row-Left :
    (trade : TradeRow) (ts : List TradeRow) (change : TradeRow → TradeRow) (row : TradeRow)
    → ((t : TradeRow) → is_sent (change t).state ≡ false)
    → Left (trade ∷ ts) row
    → Left ts (update_row trade.id change row)
unfolding named update_row
update_row-Left trade ts change row clears h = elim (Bool-cases (str_eq row.id trade.id)) [
  | inl e ↦ rw e (λ u. absurd (cc (clears row)))
  | inr e ↦ rw e (λ u. ground (arith, h u))
]

-- To write a row that is then not sent is to be done with it.
update-Left :
    (trade : TradeRow) (ts : List TradeRow) (change : TradeRow → TradeRow) (rows : List TradeRow)
    → ((t : TradeRow) → is_sent (change t).state ≡ false)
    → All (Left (trade ∷ ts)) rows
    → All (Left ts) (map (update_row trade.id change) rows)
unfolding named update_row
update-Left trade ts change [] clears h = tt
update-Left trade ts change (row ∷ rows) clears h =
    (update_row-Left trade ts change row clears h.0, update-Left trade ts change rows clears h.1)

-- No row outside of `trades` is sent.
abbrev Pending : List TradeRow → KernelStore → Type 0
Pending trades s = All (Left trades) s.trades

release_held-trades : (o : Option String) (s : KernelStore) → (release_held o s).trades ≡ s.trades
unfolding release_held release_reservation
release_held-trades none s = refl
release_held-trades (some id) s = refl

consume_held-trades : (o : Option String) (s : KernelStore) → (consume_held o s).trades ≡ s.trades
unfolding consume_held consume_reservation
consume_held-trades none s = refl
consume_held-trades (some id) s = refl

settle_row-Pending :
    (deps : ReconcilerDeps) (trade : TradeRow) (ts : List TradeRow) (status : ConfirmStatus)
    (s : KernelStore)
    → Pending (trade ∷ ts) s
    → Pending ts (settle_row deps trade status s)
unfolding settle_row set_state fail update_trade settle_state is_sent
settle_row-Pending deps trade ts ConfirmStatus.confirmed s h =
    rw (consume_held-trades (held_by trade.reservation_id) s)
      (update-Left trade ts _ s.trades (λ t. refl) h)
settle_row-Pending deps trade ts ConfirmStatus.expired s h =
    rw (release_held-trades (held_by trade.reservation_id) s)
      (update-Left trade ts _ s.trades (λ t. refl) h)
settle_row-Pending deps trade ts ConfirmStatus.failed s h =
    rw (release_held-trades (held_by trade.reservation_id) s)
      (update-Left trade ts _ s.trades (λ t. refl) h)

drop_row-Pending :
    (deps : ReconcilerDeps) (trade : TradeRow) (ts : List TradeRow) (s : KernelStore)
    → Pending (trade ∷ ts) s
    → Pending ts (drop_row deps trade s)
unfolding drop_row fail update_trade is_sent
drop_row-Pending deps trade ts s h =
    rw (release_held-trades (held_by trade.reservation_id) s)
      (update-Left trade ts _ s.trades (λ t. refl) h)

-- Trades counted so far and trades to come.
abbrev Counts : ℕ → List TradeRow → ReconcileSummary → Type 0
Counts n trades sum = (sum.checked ≡ n) × (sum.confirmed + sum.failed + length trades ≡ n)

module _ (deps : ReconcilerDeps) (answer : String → ℕ → ConfirmStatus)
    (answers : (signature : String) (height : ℕ)
      → deps.confirm signature height ≡ ok (answer signature height)) where
  abbrev Recovers : ℕ → List TradeRow → Result Failure ReconcileSummary × KernelStore → Type 0
  Recovers n trades (ok sum, t) = Counts n trades sum × Pending trades t
  Recovers n trades (err e, t) = ⊥

  tally-Counts :
      (n : ℕ) (trade : TradeRow) (ts : List TradeRow) (status : ConfirmStatus)
      (sum : ReconcileSummary)
      → Counts n (trade ∷ ts) sum
      → Counts n ts (tally status sum)
  unfolding tally
  tally-Counts n trade ts ConfirmStatus.confirmed sum h = (h.0, omega (arith, h.1))
  tally-Counts n trade ts ConfirmStatus.expired sum h = (h.0, omega (arith, h.1))
  tally-Counts n trade ts ConfirmStatus.failed sum h = (h.0, omega (arith, h.1))

  recover_row-Recovers :
      (n : ℕ) (trade : TradeRow) (ts : List TradeRow) (o : Option String) (sum : ReconcileSummary)
      (s : KernelStore)
      → Counts n (trade ∷ ts) sum
      → Pending (trade ∷ ts) s
      → Recovers n ts (recover_row deps trade o sum s)
  unfolding recover_row settle_with
  recover_row-Recovers n trade ts none sum s c h =
      ((c.0, omega (arith, c.1)), drop_row-Pending deps trade ts s h)
  recover_row-Recovers n trade ts (some signature) sum s c h =
      rw (answers signature trade.last_valid_block_height) (
        tally-Counts n trade ts (answer signature trade.last_valid_block_height) sum c,
        settle_row-Pending deps trade ts (answer signature trade.last_valid_block_height) s h,
      )

  recover_rest-Recovers :
      (n : ℕ) (trades : List TradeRow) (w : Result Failure ReconcileSummary × KernelStore)
      → Recovers n trades w
      → Recovers n [] (recover_rest deps trades w.0 w.1)
  unfolding recover_rest
  recover_rest-Recovers n [] (ok sum, s) h = h
  recover_rest-Recovers n (trade ∷ ts) (ok sum, s) h =
      recover_rest-Recovers n ts _
        (recover_row-Recovers n trade ts (has_signature trade.signature) sum s h.0 h.1)
  recover_rest-Recovers n trades (err e, s) h = absurd h

  recovered :
      (n : ℕ) (w : Result Failure ReconcileSummary × KernelStore)
      → Recovers n [] w
      → (sum : ReconcileSummary) × (w.0 ≡ ok sum)
        × (sent_rows w.1.trades ≡ [])
        × (sum.checked ≡ n)
        × (sum.confirmed + sum.failed ≡ sum.checked)
  recovered n (ok sum, s) h =
      (sum, refl, none-Left s.trades h.1, h.0.0, omega (arith, h.0.0, h.0.1))
  recovered n (err e, s) h = absurd h

  -- When the confirmer answers for every signature, a recovery returns; then no trade of the store is
  -- sent any longer, and its summary accounts for every trade that was: each is counted once, as
  -- confirmed or as failed.
  pub recover-leaves_none_sent :
      (s : KernelStore)
      → (sum : ReconcileSummary) × ((recover deps s).0 ≡ ok sum)
        × (pending_sent (recover deps s).1 ≡ [])
        × (sum.checked ≡ length (pending_sent s))
        × (sum.confirmed + sum.failed ≡ sum.checked)
  unfolding recover pending_sent
  recover-leaves_none_sent s = recovered (length (sent_rows s.trades)) _ (
      recover_rest-Recovers (length (sent_rows s.trades)) (sent_rows s.trades)
        (ok (record { checked = length (sent_rows s.trades); confirmed = 0; failed = 0 }), s)
        ((refl, omega arith), sent_rows-Left s.trades))
