-- ===== src/Kernel/Gateway/Reservations.antt =====
-- A gateway call and the spend caps: what `#live` of src/kernel/trade-gateway.ts leaves in the spend
-- windows, whatever its ports answer.
use ari_os.Prelude.{
  ℕ, String, true, false, List, [], ◌∷◌, ◌++◌, Option, none, some, Result, ok, err, ◌≡◌, refl, ap,
  ◌∙◌, ◌⊎◌, inl, inr, arith, Bool-cases,
}
use ari_os.Prelude.Int.{ℤ}
use ari_os.Kernel.Contracts.{Failure, SignedTx, ConfirmStatus, TradeState, ExecuteResult}
use ari_os.Kernel.Money.{QuoteBucket, quote_bucket_for}
use ari_os.Kernel.Store.Rows.{KernelStore, SpendRow, append_journal}
use ari_os.Kernel.Store.Spends.{
  sum_active, reserved_row, ReserveOutcome, granted, denied, conflict, reserve, release_reservation,
  consume_reservation,
}
use ari_os.Kernel.Store.Trades.{
  insert_trade, persist_signed, set_state, set_signature, fail, has_claim,
}
use ari_os.Kernel.Store.Sums.{sum_active-release, sum_active-consume}
use ari_os.Kernel.Store.Caps.{WithinCaps, MeetsCaps, reserve-MeetsCaps}
use ari_os.Kernel.Gateway.Run.{
  Ports, Progress, Step, ◌>>=◌, pure, lift, update, emit, emit_broadcast, Effect,
}
use ari_os.Kernel.Gateway.Checks.{error_result}
use ari_os.Kernel.Gateway.Prepare.{
  Request, Before, check, reserve_args, take_outcome, reserve_in, reserve_input, insert_row,
  reserved_event,
}
use ari_os.Kernel.Gateway.Live.{
  simulate_step, sign_step, broadcast_with, broadcast_step, release_held, consume_held, give_up,
  confirmed_result, mark_confirmed, book_fill, read_after, finish, prepare, send, attempt,
  record_failure, handle, start, claimed, live,
}
use ari_os.Kernel.Gateway.Idempotency.{with_claim, live_fresh, live_used}
use ari_os.Kernel.Gateway.Triple.{
  Onto, Triple, Triple-bind, Triple-weaken, Keeps, Keeps-bind, Keeps-pure, Keeps-lift, Keeps-update,
  Keeps-emit,
}

module _ (ports : Ports) (q : Request) (rows : List SpendRow) where
  -- The reservation of the call, made in bucket `b` and within the caps.
  abbrev pub Made : QuoteBucket → Type 0
  Made b =
      (quote_bucket_for q.intent.input.mint ≡ some b)
      × WithinCaps ports.new_reservation_id (reserve_args ports q b) rows

  abbrev pub with_row : QuoteBucket → List SpendRow
  with_row b = rows ++ reserved_row ports.new_reservation_id (reserve_args ports q b) ∷ []

  abbrev pub Unreserved : Progress → Type 0
  Unreserved p = (p.reservation_id ≡ none) × (p.store.spends ≡ rows)

  -- No reservation is called for, or it is made and its row is the only change of the table.
  abbrev pub Held : Progress → Type 0
  Held p =
      (Unreserved p × (quote_bucket_for q.intent.input.mint ≡ none))
      ⊎ ((b : QuoteBucket) × Made b
          × (p.reservation_id ≡ some ports.new_reservation_id)
          × (p.store.spends ≡ with_row b))

  -- What holds after a throw: at most that row has been added.
  abbrev pub Stopped : Progress → Type 0
  Stopped p = Unreserved p ⊎ Held p

  take_outcome-Held :
      (p : Progress) (b : QuoteBucket) (o : ReserveOutcome) (s : KernelStore)
      → Unreserved p
      → quote_bucket_for q.intent.input.mint ≡ some b
      → MeetsCaps ports.new_reservation_id (reserve_args ports q b) p.store o s
      → Onto (λ _. Held) (λ _. Stopped) (take_outcome p (o, s)).0 (take_outcome p (o, s)).1
  unfolding take_outcome
  take_outcome-Held p b (granted id hour day) s u e m = inr (
    b,
    (e, rw (← u.1) m.2),
    ap some m.0,
    ap (λ (t : KernelStore). t.spends) m.1
        ∙ ap
            (λ (xs : List SpendRow).
              xs ++ reserved_row ports.new_reservation_id (reserve_args ports q b) ∷ [])
            u.1,
  )
  take_outcome-Held p b (denied reason cap would) s u e m =
      inl (u.0, ap (λ (t : KernelStore). t.spends) m.0 ∙ u.1)
  take_outcome-Held p b conflict s u e m = inl (u.0, ap (λ (t : KernelStore). t.spends) m.0 ∙ u.1)

  reserve_in-Held :
      (o : Option QuoteBucket)
      → quote_bucket_for q.intent.input.mint ≡ o
      → Triple Unreserved (reserve_in ports q o) (λ _. Held) (λ _. Stopped)
  unfolding reserve_in
  reserve_in-Held none e = record { run = λ p u. inl (u, e) }
  reserve_in-Held (some b) e = record {
    run = λ p u.
        take_outcome-Held p b (reserve ports.new_reservation_id (reserve_args ports q b) p.store).0
          (reserve ports.new_reservation_id (reserve_args ports q b) p.store).1 u e
          (reserve-MeetsCaps ports.new_reservation_id (reserve_args ports q b) p.store);
  }

  -- A step that writes neither the spends nor the reservation keeps `Held`.
  update-Held :
      (f : KernelStore → KernelStore)
      → ((s : KernelStore) → (f s).spends ≡ s.spends)
      → Keeps Held (update f)
  update-Held f same = Keeps-update f λ p h. elim h [
    | inl (u, e) ↦ inl ((u.0, same p.store ∙ u.1), e)
    | inr (b, made, id, e) ↦ inr (b, made, id, same p.store ∙ e)
  ]

  insert_row-Held : Keeps Held (insert_row ports q)
  unfolding insert_row insert_trade reserved_event append_journal
  insert_row-Held = record { run = λ p h. ground arith }

  ruleset held_rules = (Keeps-bind, Keeps-lift, Keeps-pure, update-Held)

  emit-Held : (e : Effect) → Keeps Held (emit e)
  emit-Held e = Keeps-emit e (λ p h. h)

  emit_broadcast-Held : (signed : SignedTx) → Keeps Held (emit_broadcast signed)
  unfolding emit_broadcast
  emit_broadcast-Held signed = record { run = λ p h. h }

  simulate_step-Held : Keeps Held (simulate_step ports q)
  unfolding simulate_step append_journal
  simulate_step-Held = search held_rules

  sign_step-Held : Keeps Held (sign_step ports q)
  unfolding sign_step append_journal persist_signed
  sign_step-Held = search (held_rules, emit-Held)

  broadcast_with-Held :
      (signed : SignedTx) (o : Option (SignedTx → Option String → Result Failure String))
      → Keeps Held (broadcast_with ports q signed o)
  unfolding broadcast_with append_journal set_state set_signature
  broadcast_with-Held signed none = search held_rules
  broadcast_with-Held signed (some f) = search (held_rules, emit_broadcast-Held)

  broadcast_step-Held : (signed : SignedTx) → Keeps Held (broadcast_step ports q signed)
  unfolding broadcast_step
  broadcast_step-Held signed = broadcast_with-Held signed (ports.broadcaster q.intent.land_mode)

  -- After the reservation a stage that keeps `Held` stops in `Stopped`.
  stops : {A : Type 0} (m : Step A) → Keeps Held m → Triple Held m (λ _. Held) (λ _. Stopped)
  stops m h = Triple-weaken m h (λ a p u. u) (λ e p u. inr u)

  insert_and_return-Held : (before : Before) → Keeps Held (insert_row ports q >>= λ _. pure before)
  insert_and_return-Held before = search (held_rules, insert_row-Held)

  prepare-Held : Triple Unreserved (prepare ports q) (λ _. Held) (λ _. Stopped)
  unfolding prepare
  prepare-Held =
      Triple-bind (λ _. Unreserved) (lift (check ports q false)) _
        (Triple-weaken (lift (check ports q false)) (Keeps-lift (check ports q false)) (λ a p u. u)
          (λ e p u. inl u))
        (λ _.
          Triple-bind (λ _. Held) (reserve_input ports q) _
            (unfold reserve_input in reserve_in-Held (quote_bucket_for q.intent.input.mint) refl)
            (λ _. stops _ (search (held_rules, insert_and_return-Held))))

  -- How a call that returns has ended: confirmed, with the reservation still counted; or rejected,
  -- with every window as it was.
  abbrev pub Counted : KernelStore → Type 0
  Counted s =
      ((quote_bucket_for q.intent.input.mint ≡ none) × (s.spends ≡ rows))
      ⊎ ((b : QuoteBucket) × Made b
          × ((c : QuoteBucket) (now w : ℕ)
              → sum_active c now w s.spends ≡ sum_active c now w (with_row b)))

  abbrev pub Freed : KernelStore → Type 0
  Freed s = (c : QuoteBucket) (now w : ℕ) → sum_active c now w s.spends ≡ sum_active c now w rows

  abbrev pub Ended : ExecuteResult → Progress → Type 0
  Ended result p =
      ((result.state ≡ TradeState.confirmed) × Counted p.store)
      ⊎ ((result.state ≡ TradeState.rejected) × Freed p.store)

  release_held-Freed : (p : Progress) → Stopped p → Freed (release_held p.reservation_id p.store)
  unfolding release_held release_reservation
  release_held-Freed p (inl u) c now w = rw (u.0, release_held) (rw u.1)
  release_held-Freed p (inr (inl (u, e))) c now w = rw (u.0, release_held) (rw u.1)
  release_held-Freed p (inr (inr (b, made, id, e))) c now w =
      rw (id, release_held)
        (rw e (
          sum_active-release ports.new_reservation_id (reserve_args ports q b) c now w rows
            made.1.3))

  consume_held-Counted : (p : Progress) → Held p → Counted (consume_held p.reservation_id p.store)
  unfolding consume_held consume_reservation
  consume_held-Counted p (inl (u, e)) = inl (e, rw (u.0, consume_held) u.1)
  consume_held-Counted p (inr (b, made, id, e)) = inr (
    b,
    made,
    λ c now w.
        rw (id, consume_held)
          (rw e (
            sum_active-consume ports.new_reservation_id (reserve_args ports q b) c now w rows
              made.1.3)),
  )

  give_up-Ended : (status : ConfirmStatus) → Triple Held (give_up ports status) Ended (λ _. Stopped)
  unfolding give_up error_result append_journal fail
  give_up-Ended status = record { run = λ p h. inr (refl, release_held-Freed p (inr h)) }

  book_fill-Ended :
      (signature : String) (before : Before) (after : ℤ × ℤ)
      → Triple Held (book_fill ports q signature before after) Ended (λ _. Stopped)
  unfolding book_fill confirmed_result mark_confirmed append_journal set_state
  book_fill-Ended signature before (input, output) = record {
    run = λ p h. inl (refl, consume_held-Counted p h);
  }

  finish-Ended :
      (signature : String) (before : Before) (status : ConfirmStatus)
      → Triple Held (finish ports q signature before status) Ended (λ _. Stopped)
  unfolding finish
  finish-Ended signature before ConfirmStatus.confirmed =
      Triple-bind (λ _. Held) (lift (read_after ports q.intent)) _
        (stops _ (Keeps-lift (read_after ports q.intent)))
        (λ after. book_fill-Ended signature before after)
  finish-Ended signature before status = give_up-Ended status

  send-Ended : (before : Before) → Triple Held (send ports q before) Ended (λ _. Stopped)
  unfolding send
  send-Ended before =
      Triple-bind (λ _. Held) (simulate_step ports q) _ (stops _ simulate_step-Held)
        (λ _.
          Triple-bind (λ _. Held) (sign_step ports q) _ (stops _ sign_step-Held)
            (λ signed.
              Triple-bind (λ _. Held) (broadcast_step ports q signed) _
                (stops _ (broadcast_step-Held signed))
                (λ signature.
                  Triple-bind (λ _. Held) _ _ (stops _ (Keeps-lift _))
                    (λ status. finish-Ended signature before status))))

  attempt-Ended : Triple Unreserved (attempt ports q) Ended (λ _. Stopped)
  unfolding attempt
  attempt-Ended = Triple-bind (λ _. Held) (prepare ports q) _ prepare-Held send-Ended

  spends-record_failure :
      (e : Failure) (p : Progress) (s : KernelStore)
      → (record_failure ports e p s).spends ≡ s.spends
  unfolding record_failure append_journal fail
  spends-record_failure e p s = ground arith

  handle-Ended :
      (r : Result Failure ExecuteResult) (p : Progress)
      → Onto Ended (λ _. Stopped) r p
      → Ended (handle ports (r, p)).0 (handle ports (r, p)).1
  unfolding handle error_result
  handle-Ended (ok result) p h = h
  handle-Ended (err e) p h = inr (
    refl,
    λ c now w.
        rw (spends-record_failure e p (release_held p.reservation_id p.store))
          (release_held-Freed p h c now w),
  )

claimed-Ended :
    (ports : Ports) (q : Request) (s : KernelStore)
    → Ended ports q s.spends (claimed ports q (true, s)).0 (claimed ports q (true, s)).1
unfolding claimed
claimed-Ended ports q s =
    handle-Ended ports q s.spends (attempt ports q (start s)).0 (attempt ports q (start s)).1
      ((attempt-Ended ports q s.spends).run (start s) (refl, refl))

-- Whatever the ports answer, a live call under a new idempotency key ends in one of two ways. It is
-- confirmed, and then either its input is no quote asset and no spend is written, or one spend row of
-- its amount is counted in every window of the store, within the per-trade cap, and within the hourly
-- and the daily cap at the time of the call. Or it is rejected, and every window of every bucket sums
-- to what it did before. Under a used key nothing changes.
pub live_accounts_for_spend :
    (ports : Ports) (q : Request) (s : KernelStore)
    → ((has_claim q.opts.idempotency_key s.claims ≡ true) × ((live ports q s).1 ≡ start s))
      ⊎ ((has_claim q.opts.idempotency_key s.claims ≡ false)
          × Ended ports q s.spends (live ports q s).0 (live ports q s).1)
live_accounts_for_spend ports q s = elim (Bool-cases (has_claim q.opts.idempotency_key s.claims)) [
  | inl e ↦ inl (e, ap (λ (r : ExecuteResult × Progress). r.1) (live_used ports q s e))
  | inr e ↦ inr (e, rw (live_fresh ports q s e) (claimed-Ended ports q (with_claim ports q s)))
]
