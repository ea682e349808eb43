-- ===== src/Kernel/Gateway/Trace.antt =====
-- The calls that move value in `#live` of src/kernel/trade-gateway.ts, in their order, and what must
-- have passed and been written before each.
use ari_os.Prelude.{
  String, Bool, true, false, List, [], ◌∷◌, ◌++◌, Option, none, some, Result, ok, err, ◌≡◌, refl,
  ap, ◌∙◌, ◌⊎◌, inl, inr, Bool-cases, throw_if, not,
}
use ari_os.Prelude.Int.{ℤ}
use ari_os.Kernel.Contracts.{
  Failure, SignedTx, ConfirmStatus, ExecuteResult, guard_error, GuardCode,
}
use ari_os.Kernel.Money.{QuoteBucket, quote_bucket_for}
use ari_os.Kernel.Store.Rows.{KernelStore, TradeRow, append_journal}
use ari_os.Kernel.Store.Spends.{ReserveOutcome, granted, denied, conflict}
use ari_os.Kernel.Store.Trades.{
  insert_trade, has_trade, new_trade, trade_by_id, persist_signed, has_claim,
}
use ari_os.Kernel.Store.TradeRows.{trade_by_id-insert, trade_by_id-update}
use ari_os.Kernel.Gateway.Run.{
  Ports, Progress, pure, lift, update, emit, emit_broadcast, Effect, signs, broadcasts,
}
use ari_os.Kernel.Gateway.Prepare.{
  Request, Before, check, take_outcome, reserve_in, reserve_input, read_before, insert_row,
  inserted_row, reserved_event, trade_row,
}
use ari_os.Kernel.Gateway.Live.{
  simulate_step, persist, sign_step, broadcast_with, broadcast_step, give_up, book_fill, finish,
  prepare, send, attempt, handle, start, claimed, live,
}
use ari_os.Kernel.Gateway.Idempotency.{with_claim, live_fresh, live_used}
use ari_os.Kernel.Gateway.Triple.{
  Onto, Triple, Triple-bind, Triple-weaken, Triple-lift, Triple-assume, Keeps, Keeps-bind,
  Keeps-pure, Keeps-lift, Keeps-update,
}

module _ (ports : Ports) (q : Request) where
  abbrev tx : String
  tx = q.intent.unsigned_tx_base64

  -- The signed transaction is in the store, in the row of this trade.
  abbrev pub OnDisk : SignedTx → KernelStore → Type 0
  OnDisk signed s =
      (row : TradeRow) × (trade_by_id ports.new_trade_id s.trades ≡ some row)
      × (row.signed_wire ≡ some signed.wire_base64)
      × (row.signature ≡ some signed.signature)
      × (row.idempotency_key ≡ q.opts.idempotency_key)

  -- The guards have passed and the simulation has succeeded.
  abbrev pub Cleared : Type 0
  Cleared = (check ports q false ≡ ok tt) × (ports.simulate tx ≡ ok true)

  -- Nothing is signed; or the intent's transaction is signed, once, after it was cleared; or it is
  -- then broadcast as well, once, with the signed form already in the store.
  abbrev pub Ordered : List Effect → Type 0
  Ordered effects =
      (effects ≡ [])
      ⊎ (Cleared × (effects ≡ signs tx ∷ []))
      ⊎ ((signed : SignedTx) × (s : KernelStore) × Cleared
          × (effects ≡ signs tx ∷ broadcasts signed s ∷ [])
          × (ports.sign tx ≡ ok signed)
          × OnDisk signed s)

  abbrev Traced : Progress → Type 0
  Traced p = Ordered p.effects

  abbrev Silent : Progress → Type 0
  Silent p = p.effects ≡ []

  -- The row of the trade is in the store.
  abbrev Rowed : Progress → Type 0
  Rowed p =
      (p.effects ≡ [])
      × (check ports q false ≡ ok tt)
      × ((row : TradeRow) × (trade_by_id ports.new_trade_id p.store.trades ≡ some row)
          × (row.idempotency_key ≡ q.opts.idempotency_key))

  take_outcome-Silent :
      (p : Progress) (o : ReserveOutcome) (s : KernelStore)
      → Silent p
      → Onto (λ _. Silent) (λ _. Traced) (take_outcome p (o, s)).0 (take_outcome p (o, s)).1
  unfolding take_outcome
  take_outcome-Silent p (granted id hour day) s h = h
  take_outcome-Silent p (denied reason cap would) s h = inl h
  take_outcome-Silent p conflict s h = inl h

  reserve_in-Silent :
      (o : Option QuoteBucket) → Triple Silent (reserve_in ports q o) (λ _. Silent) (λ _. Traced)
  unfolding reserve_in
  reserve_in-Silent none = record { run = λ p h. h }
  reserve_in-Silent (some b) = record { run = λ p h. take_outcome-Silent p _ _ h }

  trades-reserved_event :
      (o : Option String) (s : KernelStore) → (reserved_event ports q o s).trades ≡ s.trades
  unfolding reserved_event append_journal
  trades-reserved_event none s = refl
  trades-reserved_event (some id) s = refl

  insert_row-Rowed :
      check ports q false ≡ ok tt → Triple Silent (insert_row ports q) (λ _. Rowed) (λ _. Traced)
  unfolding insert_row inserted_row insert_trade append_journal trade_row new_trade
  insert_row-Rowed passed = record {
    run = λ p h. elim (Bool-cases (has_trade (trade_row ports q) p.store.trades)) [
      | inl e ↦ rw (e, Onto) (inl h)
      | inr e ↦
          rw (e, Onto)
            (
              h,
              passed,
              (
                new_trade (trade_row ports q) p.reservation_id,
                ap (trade_by_id ports.new_trade_id) (trades-reserved_event p.reservation_id _)
                    ∙ trade_by_id-insert (trade_row ports q) p.reservation_id p.store.trades e,
                refl,
              ),
            )
    ];
  }

  require_true :
      (done : Bool)
      → Triple
          (λ p. Rowed p × (ports.simulate tx ≡ ok done))
          (lift (throw_if (not done) (guard_error GuardCode.simulation_failed)))
          (λ _ p. Rowed p × (ports.simulate tx ≡ ok true))
          (λ _. Traced)
  unfolding lift
  require_true true = record { run = λ p h. h }
  require_true false = record { run = λ p h. inl h.0.0 }

  simulate_step-Rowed :
      Triple Rowed
        (simulate_step ports q)
        (λ _ p. Rowed p × (ports.simulate tx ≡ ok true))
        (λ _. Traced)
  unfolding simulate_step append_journal
  simulate_step-Rowed =
      Triple-bind (λ done p. Rowed p × (ports.simulate tx ≡ ok done)) (lift (ports.simulate tx)) _
        (Triple-weaken (lift (ports.simulate tx)) (Triple-lift (ports.simulate tx)) (λ a p h. h)
          (λ e p h. inl h.0))
        (λ done.
          Triple-bind (λ _ p. Rowed p × (ports.simulate tx ≡ ok done)) _ _
            (Triple-weaken _ (Keeps-update _ (λ p h. h)) (λ a p h. h) (λ e p h. inl h.0.0))
            (λ _. require_true done))

  -- Signed, and written to the row.
  abbrev Signed : SignedTx → Progress → Type 0
  Signed signed p =
      Cleared × (p.effects ≡ signs tx ∷ []) × (ports.sign tx ≡ ok signed) × OnDisk signed p.store

  persist-OnDisk :
      (signed : SignedTx) (s : KernelStore) (row : TradeRow)
      → trade_by_id ports.new_trade_id s.trades ≡ some row
      → row.idempotency_key ≡ q.opts.idempotency_key
      → OnDisk signed (persist ports signed s)
  unfolding persist append_journal persist_signed
  persist-OnDisk signed s row e k =
      (_, trade_by_id-update ports.new_trade_id _ s.trades row (λ t. refl) e, refl, refl, k)

  -- The transaction is handed to the wallet.
  abbrev Asked : Progress → Type 0
  Asked p =
      Cleared
      × (p.effects ≡ signs tx ∷ [])
      × ((row : TradeRow) × (trade_by_id ports.new_trade_id p.store.trades ≡ some row)
          × (row.idempotency_key ≡ q.opts.idempotency_key))

  emit_signs-Asked :
      Triple
        (λ p. Rowed p × (ports.simulate tx ≡ ok true))
        (emit (signs tx))
        (λ _. Asked)
        (λ _. Traced)
  unfolding emit
  emit_signs-Asked = record {
    run = λ p h. ((h.0.1, h.1), ap (λ (es : List Effect). es ++ signs tx ∷ []) h.0.0, h.0.2);
  }

  persist-Signed :
      (signed : SignedTx)
      → Triple
          (λ p. Asked p × (ports.sign tx ≡ ok signed))
          (update (persist ports signed))
          (λ _. Signed signed)
          (λ _. Traced)
  unfolding update
  persist-Signed signed = record {
    run = λ p h. (h.0.0, h.0.1, h.1, persist-OnDisk signed p.store h.0.2.0 h.0.2.1 h.0.2.2);
  }

  return-Signed : (signed : SignedTx) → Triple (Signed signed) (pure signed) Signed (λ _. Traced)
  unfolding pure
  return-Signed signed = record { run = λ p h. h }

  sign_step-Signed :
      Triple (λ p. Rowed p × (ports.simulate tx ≡ ok true)) (sign_step ports q) Signed (λ _. Traced)
  unfolding sign_step
  sign_step-Signed =
      Triple-bind (λ _. Asked) (emit (signs tx)) _ emit_signs-Asked
        (λ _.
          Triple-bind (λ signed p. Asked p × (ports.sign tx ≡ ok signed)) (lift (ports.sign tx)) _
            (Triple-weaken (lift (ports.sign tx)) (Triple-lift (ports.sign tx)) (λ a p h. h)
              (λ e p h. inr (inl (h.0, h.1))))
            (λ signed.
              Triple-bind (λ _. Signed signed) (update (persist ports signed)) _
                (persist-Signed signed) (λ _. return-Signed signed)))

  ruleset traced_rules = (Keeps-bind, Keeps-lift, Keeps-pure)

  update-Traced : (f : KernelStore → KernelStore) → Keeps Traced (update f)
  update-Traced f = Keeps-update f (λ p h. h)

  emit_broadcast-Traced :
      (signed : SignedTx)
      → Triple (Signed signed) (emit_broadcast signed) (λ _. Traced) (λ _. Traced)
  unfolding emit_broadcast
  emit_broadcast-Traced signed = record {
    run = λ p h. inr (
        inr (
          signed,
          p.store,
          h.0,
          ap (λ (es : List Effect). es ++ broadcasts signed p.store ∷ []) h.1,
          h.2,
          h.3,
        ));
  }

  Signed-Traced : (signed : SignedTx) (p : Progress) → Signed signed p → Traced p
  Signed-Traced signed p h = inr (inl (h.0, h.1))

  broadcast_with-Traced :
      (signed : SignedTx) (o : Option (SignedTx → Option String → Result Failure String))
      → Triple (Signed signed) (broadcast_with ports q signed o) (λ _. Traced) (λ _. Traced)
  unfolding broadcast_with
  broadcast_with-Traced signed none =
      Triple-weaken _ (Keeps-lift _) (λ a p h. Signed-Traced signed p h)
        (λ e p h. Signed-Traced signed p h)
  broadcast_with-Traced signed (some f) =
      Triple-bind (λ _. Traced) (emit_broadcast signed) _ (emit_broadcast-Traced signed)
        (λ _. search (traced_rules, update-Traced))

  give_up-Traced : (status : ConfirmStatus) → Keeps Traced (give_up ports status)
  unfolding give_up
  give_up-Traced status = record { run = λ p h. h }

  book_fill-Traced :
      (signature : String) (before : Before) (after : ℤ × ℤ)
      → Keeps Traced (book_fill ports q signature before after)
  unfolding book_fill
  book_fill-Traced signature before (input, output) = record { run = λ p h. h }

  finish-Traced :
      (signature : String) (before : Before) (status : ConfirmStatus)
      → Keeps Traced (finish ports q signature before status)
  unfolding finish
  finish-Traced signature before ConfirmStatus.confirmed = search (traced_rules, book_fill-Traced)
  finish-Traced signature before status = give_up-Traced status

  send-Traced : (before : Before) → Triple Rowed (send ports q before) (λ _. Traced) (λ _. Traced)
  unfolding send
  send-Traced before =
      Triple-bind (λ _ p. Rowed p × (ports.simulate tx ≡ ok true)) (simulate_step ports q) _
        simulate_step-Rowed
        (λ _. Triple-bind Signed (sign_step ports q) _ sign_step-Signed (λ signed.
          Triple-bind (λ _. Traced) (broadcast_step ports q signed) _
            (unfold broadcast_step in
              broadcast_with-Traced signed (ports.broadcaster q.intent.land_mode))
            (λ signature. search (traced_rules, finish-Traced))))

  prepare-Rowed : Triple Silent (prepare ports q) (λ _. Rowed) (λ _. Traced)
  unfolding prepare
  prepare-Rowed =
      Triple-bind (λ a p. Silent p × (check ports q false ≡ ok a)) (lift (check ports q false)) _
        (Triple-weaken (lift (check ports q false)) (Triple-lift (check ports q false)) (λ a p h. h)
          (λ e p h. inl h))
        (λ a. Triple-assume _ (λ passed.
          Triple-bind (λ _. Silent) (reserve_input ports q) _
            (unfold reserve_input in reserve_in-Silent (quote_bucket_for q.intent.input.mint))
            (λ _.
              Triple-bind (λ _. Silent) (lift (read_before ports q.intent)) _
                (Triple-weaken _ (Keeps-lift (read_before ports q.intent)) (λ b p h. h)
                  (λ e p h. inl h))
                (λ before.
                  Triple-bind (λ _. Rowed) (insert_row ports q) _ (insert_row-Rowed passed)
                    (λ _. Triple-weaken _ (Keeps-pure before) (λ b p h. h) (λ e p h. inl h.0))))))

  attempt-Traced : Triple Silent (attempt ports q) (λ _. Traced) (λ _. Traced)
  unfolding attempt
  attempt-Traced = Triple-bind (λ _. Rowed) (prepare ports q) _ prepare-Rowed send-Traced

  handle-Traced :
      (r : Result Failure ExecuteResult) (p : Progress)
      → Onto (λ _. Traced) (λ _. Traced) r p
      → Traced (handle ports (r, p)).1
  unfolding handle
  handle-Traced (ok result) p h = h
  handle-Traced (err e) p h = h

claimed-Traced :
    (ports : Ports) (q : Request) (s : KernelStore)
    → Ordered ports q (claimed ports q (true, s)).1.effects
unfolding claimed
claimed-Traced ports q s =
    handle-Traced ports q (attempt ports q (start s)).0 (attempt ports q (start s)).1
      ((attempt-Traced ports q).run (start s) refl)

-- Whatever the ports answer and the store holds, a live call makes its value-moving calls in order:
-- it signs the transaction of its intent at most once, and only after the guards passed and the
-- simulation succeeded; it broadcasts at most once, only what the wallet returned, and only when the
-- store already holds that signed wire and its signature in the row of this trade and key.
pub live_effects_in_order :
    (ports : Ports) (q : Request) (s : KernelStore) → Ordered ports q (live ports q s).1.effects
live_effects_in_order ports q s = elim (Bool-cases (has_claim q.opts.idempotency_key s.claims)) [
  | inl e ↦ rw (live_used ports q s e) (inl refl)
  | inr e ↦ rw (live_fresh ports q s e) (claimed-Traced ports q (with_claim ports q s))
]
