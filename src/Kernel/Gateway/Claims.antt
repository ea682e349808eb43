-- ===== src/Kernel/Gateway/Claims.antt =====
-- The idempotency keys that a gateway call leaves claimed (`#live` of src/kernel/trade-gateway.ts).
use ari_os.Prelude.{
  String, true, ◌||◌, List, [], ◌∷◌, ◌++◌, Option, none, some, Result, ok, err, ◌≡◌, refl, ap, ◌∙◌,
  inl, inr, arith, Bool-cases, str_eq, str_eq_iff,
}
use ari_os.Prelude.Int.{ℤ}
use ari_os.Kernel.Contracts.{Failure, SignedTx, ConfirmStatus, ExecuteResult}
use ari_os.Kernel.Money.{QuoteBucket}
use ari_os.Kernel.Store.Rows.{KernelStore, ClaimRow, append_journal}
use ari_os.Kernel.Store.Spends.{
  ReserveOutcome, granted, denied, conflict, release_reservation, consume_reservation,
}
use ari_os.Kernel.Store.Trades.{
  insert_trade, persist_signed, set_state, set_signature, fail, has_claim,
}
use ari_os.Kernel.Store.Caps.{MeetsCaps, reserve-MeetsCaps}
use ari_os.Kernel.Gateway.Run.{Ports, Progress, Effect, update, emit_broadcast, emit}
use ari_os.Kernel.Gateway.Prepare.{
  Request, Before, reserve_args, take_outcome, reserve_in, reserve_input, insert_row,
  reserved_event,
}
use ari_os.Kernel.Gateway.Live.{
  simulate_step, sign_step, broadcast_with, broadcast_step, release_held, give_up, mark_confirmed,
  consume_held, book_fill, finish, prepare, send, attempt, record_failure, handle, start, claimed,
  live,
}
use ari_os.Kernel.Gateway.Idempotency.{with_claim, live_fresh, live_used}
use ari_os.Kernel.Gateway.Triple.{
  Onto, Keeps, Keeps-bind, Keeps-pure, Keeps-lift, Keeps-update, Keeps-emit,
}

module _ (ports : Ports) (q : Request) (claims : List ClaimRow) where
  abbrev Claimed : Progress → Type 0
  Claimed p = p.store.claims ≡ claims

  update-Claimed :
      (f : KernelStore → KernelStore)
      → ((s : KernelStore) → (f s).claims ≡ s.claims)
      → Keeps Claimed (update f)
  update-Claimed f same = Keeps-update f (λ p h. same p.store ∙ h)

  emit-Claimed : (e : Effect) → Keeps Claimed (emit e)
  emit-Claimed e = Keeps-emit e (λ p h. h)

  emit_broadcast-Claimed : (signed : SignedTx) → Keeps Claimed (emit_broadcast signed)
  unfolding emit_broadcast
  emit_broadcast-Claimed signed = record { run = λ p h. h }

  ruleset claimed_rules =
      (Keeps-bind, Keeps-lift, Keeps-pure, update-Claimed, emit-Claimed, emit_broadcast-Claimed)

  take_outcome-Claimed :
      (p : Progress) (b : QuoteBucket) (o : ReserveOutcome) (s : KernelStore)
      → Claimed p
      → MeetsCaps ports.new_reservation_id (reserve_args ports q b) p.store o s
      → Onto (λ _. Claimed) (λ _. Claimed) (take_outcome p (o, s)).0 (take_outcome p (o, s)).1
  unfolding take_outcome
  take_outcome-Claimed p b (granted id hour day) s h m = ap (λ (t : KernelStore). t.claims) m.1 ∙ h
  take_outcome-Claimed p b (denied reason cap would) s h m =
      ap (λ (t : KernelStore). t.claims) m.0 ∙ h
  take_outcome-Claimed p b conflict s h m = ap (λ (t : KernelStore). t.claims) m.0 ∙ h

  reserve_in-Claimed : (o : Option QuoteBucket) → Keeps Claimed (reserve_in ports q o)
  unfolding reserve_in
  reserve_in-Claimed none = record { run = λ p h. h }
  reserve_in-Claimed (some b) = record {
    run = λ p h. take_outcome-Claimed p b _ _ h (reserve-MeetsCaps _ _ p.store);
  }

  insert_row-Claimed : Keeps Claimed (insert_row ports q)
  unfolding insert_row insert_trade reserved_event append_journal
  insert_row-Claimed = record { run = λ p h. ground arith }

  simulate_step-Claimed : Keeps Claimed (simulate_step ports q)
  unfolding simulate_step append_journal
  simulate_step-Claimed = search claimed_rules

  sign_step-Claimed : Keeps Claimed (sign_step ports q)
  unfolding sign_step append_journal persist_signed
  sign_step-Claimed = search claimed_rules

  broadcast_with-Claimed :
      (signed : SignedTx) (o : Option (SignedTx → Option String → Result Failure String))
      → Keeps Claimed (broadcast_with ports q signed o)
  unfolding broadcast_with append_journal set_state set_signature
  broadcast_with-Claimed signed none = search claimed_rules
  broadcast_with-Claimed signed (some f) = search claimed_rules

  release_held-claims : (o : Option String) (s : KernelStore) → (release_held o s).claims ≡ s.claims
  unfolding release_held release_reservation
  release_held-claims none s = refl
  release_held-claims (some id) s = refl

  consume_held-claims : (o : Option String) (s : KernelStore) → (consume_held o s).claims ≡ s.claims
  unfolding consume_held consume_reservation
  consume_held-claims none s = refl
  consume_held-claims (some id) s = refl

  give_up-Claimed : (status : ConfirmStatus) → Keeps Claimed (give_up ports status)
  unfolding give_up append_journal fail
  give_up-Claimed status = record { run = λ p h. release_held-claims p.reservation_id p.store ∙ h }

  book_fill-Claimed :
      (signature : String) (before : Before) (after : ℤ × ℤ)
      → Keeps Claimed (book_fill ports q signature before after)
  unfolding book_fill mark_confirmed append_journal set_state
  book_fill-Claimed signature before (input, output) = record {
    run = λ p h. consume_held-claims p.reservation_id p.store ∙ h;
  }

  finish-Claimed :
      (signature : String) (before : Before) (status : ConfirmStatus)
      → Keeps Claimed (finish ports q signature before status)
  unfolding finish
  finish-Claimed signature before ConfirmStatus.confirmed =
      search (claimed_rules, book_fill-Claimed)
  finish-Claimed signature before status = give_up-Claimed status

  prepare-Claimed : Keeps Claimed (prepare ports q)
  unfolding prepare reserve_input
  prepare-Claimed = search (claimed_rules, reserve_in-Claimed, insert_row-Claimed)

  send-Claimed : (before : Before) → Keeps Claimed (send ports q before)
  unfolding send broadcast_step
  send-Claimed before = search (
    claimed_rules, simulate_step-Claimed, sign_step-Claimed, broadcast_with-Claimed, finish-Claimed,
  )

  attempt-Claimed : Keeps Claimed (attempt ports q)
  unfolding attempt
  attempt-Claimed = search (claimed_rules, prepare-Claimed, send-Claimed)

  handle-Claimed :
      (r : Result Failure ExecuteResult) (p : Progress)
      → Onto (λ _. Claimed) (λ _. Claimed) r p
      → Claimed (handle ports (r, p)).1
  unfolding handle record_failure append_journal fail
  handle-Claimed (ok result) p h = h
  handle-Claimed (err e) p h = ground (arith, release_held-claims p.reservation_id p.store)

claimed-claims :
    (ports : Ports) (q : Request) (s : KernelStore)
    → (claimed ports q (true, s)).1.store.claims ≡ s.claims
unfolding claimed
claimed-claims ports q s =
    handle-Claimed ports q s.claims (attempt ports q (start s)).0 (attempt ports q (start s)).1
      ((attempt-Claimed ports q s.claims).run (start s) refl)

has_claim-append :
    (key : String) (xs ys : List ClaimRow)
    → has_claim key (xs ++ ys) ≡ (has_claim key xs || has_claim key ys)
unfolding has_claim
has_claim-append key [] ys = refl
has_claim-append key (x ∷ xs) ys = ground (arith, has_claim-append key xs ys)

claimed-twice :
    (k key : String) (claims : List ClaimRow)
    → has_claim k claims ≡ true
    → has_claim key claims ≡ (has_claim key claims || str_eq k key)
claimed-twice k key claims h = elim (Bool-cases (str_eq k key)) [
  | inl e ↦ rw (e, ← (str_eq_iff k key).0 e, h)
  | inr e ↦ rw e (ground arith)
]

-- A key stays claimed, and the key of a call is claimed after it.
pub live-claims :
    (ports : Ports) (q : Request) (s : KernelStore) (key : String)
    → has_claim key (live ports q s).1.store.claims
      ≡ (has_claim key s.claims || str_eq q.opts.idempotency_key key)
unfolding has_claim
live-claims ports q s key = elim (Bool-cases (has_claim q.opts.idempotency_key s.claims)) [
  | inl e ↦ rw (live_used ports q s e) (claimed-twice q.opts.idempotency_key key s.claims e)
  | inr e ↦
      rw
        (
          live_fresh ports q s e,
          claimed-claims ports q (with_claim ports q s),
          has_claim-append key s.claims,
        )
        (ground arith)
]
