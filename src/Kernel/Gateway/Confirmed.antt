-- ===== src/Kernel/Gateway/Confirmed.antt =====
-- What a live call that reports no error has done (`#live` of src/kernel/trade-gateway.ts).
use mathlib.Core.Path.{subst}
use ari_os.Prelude.{
  String, true, false, Option, none, some, Result, ok, err, ◌≡◌, ◌≢◌, ◌⊎◌, inl, inr, refl, sym, ap,
  ◌∙◌, arith, Bool-cases,
}
use ari_os.Prelude.Int.{ℤ, ◌-ℤ◌, ◌≤ℤ◌}
use ari_os.Kernel.Contracts.{
  Failure, ConfirmStatus, TradeState, ExecuteResult, FillReport, TradeIntent, GuardCode,
}
use ari_os.Kernel.Store.Rows.{KernelStore, TradeRow}
use ari_os.Kernel.Store.Trades.{has_claim, trade_by_key}
use ari_os.Kernel.Gateway.Run.{Ports, Progress, Step, lift, pure}
use ari_os.Kernel.Gateway.Checks.{position_ref, read_position, error_result}
use ari_os.Kernel.Gateway.Settle.{Settled, settle}
use ari_os.Kernel.Gateway.Fills.{Verified, settle_from-Verified}
use ari_os.Kernel.Gateway.Prepare.{
  Request, Before, check, needed, before_of, read_before, reserve_input, insert_row,
}
use ari_os.Kernel.Gateway.Live.{
  simulate_step, sign_step, broadcast_step, give_up, confirmed_result, book_fill, read_after,
  finish, prepare, send, attempt, handle, start, claimed, live, duplicate_result,
}
use ari_os.Kernel.Gateway.Idempotency.{with_claim, live_fresh, live_used}
use ari_os.Kernel.Gateway.Triple.{
  Onto, Triple, Triple-bind, Triple-lift, Triple-weaken, Triple-assume,
}

-- A fact about neither the store nor the trace holds after a step when it held before.
Triple-fact : {A : Type 0} (F : Type 0) (m : Step A) → Triple (λ _. F) m (λ _ _. F) (λ _ _. Unit)
Triple-fact {A} F m = record { run = λ p h. go (m p).0 (m p).1 h }
  where
    go : (r : Result Failure A) (p : Progress) → F → Onto (λ _ _. F) (λ _ _. Unit) r p
    go (ok a) p h = h
    go (err e) p h = tt

Triple-returns :
    {A : Type 0} (r : Result Failure A)
    → Triple (λ _. Unit {0}) (lift r) (λ a _. r ≡ ok a) (λ _ _. Unit)
unfolding lift
Triple-returns (ok a) = record { run = λ p h. refl }
Triple-returns (err e) = record { run = λ p h. tt }

before_of_lem :
    (intent : TradeIntent) (r : Result Failure (ℤ × ℤ)) (o : Result Failure (Option ℤ))
    (before : Before)
    → before_of intent r o ≡ ok before
    → (needed intent ≤ℤ before.input) × (o ≡ ok before.position)
unfolding before_of
before_of_lem intent (err e) o before h = absurd (cc)
before_of_lem intent (ok (input, output)) (err e) before h = absurd (cc)
before_of_lem intent (ok (input, output)) (ok position) before h = ground arith

module _ (ports : Ports) (q : Request) where
  abbrev Confirms : String → Type 0
  Confirms signature =
      ports.confirm signature q.intent.last_valid_block_height ≡ ok ConfirmStatus.confirmed

  -- The signature is confirmed on chain, the result reports what the balances did, and the fill is
  -- verified.
  pub record Filled (result : ExecuteResult) : Type 0 where
    pub before : Before
    pub input : ℤ
    pub output : ℤ
    pub signature : String
    pub fill : FillReport
    pub covered : needed q.intent ≤ℤ before.input
    pub read_first : read_before ports q.intent ≡ ok before
    pub read_last : read_after ports q.intent ≡ ok (input, output)
    pub on_chain :
        ports.confirm signature q.intent.last_valid_block_height ≡ ok ConfirmStatus.confirmed
    pub state : result.state ≡ TradeState.confirmed
    pub signed : result.signature ≡ some signature
    pub reported : result.fill ≡ some fill
    pub spent : fill.input_delta ≡ input -ℤ before.input
    pub got : fill.output_delta ≡ output -ℤ before.output
    pub verified :
        Verified q.intent
          (output -ℤ before.output)
          before.position
          ports.positions
          (position_ref ports q.intent)

  -- What a step of the call may return: an error, or a verified fill.
  abbrev Vouched : ExecuteResult → Type 0
  Vouched result = (result.error ≢ none) ⊎ Filled result

  book_fill-Vouched :
      (signature : String) (before : Before) (after : ℤ × ℤ)
      → read_before ports q.intent ≡ ok before
      → Confirms signature
      → read_after ports q.intent ≡ ok after
      → Triple
          (λ _. Unit {0})
          (book_fill ports q signature before after)
          (λ result _. Vouched result)
          (λ _ _. Unit)
  unfolding book_fill confirmed_result read_before read_position settle
  book_fill-Vouched signature before (input, output) b c a = record {
    run = λ p h.
        go (settle ports q.intent (output -ℤ before.output) before.position) refl
          (settle ports q.intent (output -ℤ before.output) before.position).problem refl;
  }
    where
      go :
          (settled : Settled)
          → settle ports q.intent (output -ℤ before.output) before.position ≡ settled
          → (o : Option GuardCode) → settled.problem ≡ o
          → Vouched (
              confirmed_result ports signature settled
                (input -ℤ before.input)
                (output -ℤ before.output))
      go settled es (some code) e = inl (rw e (cc))
      go settled es none e = inr (record {
        before = before;
        input = input;
        output = output;
        signature = signature;
        fill = _;
        covered = (before_of_lem q.intent _ _ before b).0;
        read_first = b;
        read_last = a;
        on_chain = c;
        state = refl;
        signed = refl;
        reported = refl;
        spent = refl;
        got = refl;
        verified =
            settle_from-Verified q.intent _ before.position ports.positions _
              (before_of_lem q.intent _ _ before b).1 (ap (λ (t : Settled). t.problem) es ∙ e);
      })

  -- What has been read before the transaction is sent.
  abbrev Read : Before → Type 0
  Read before = read_before ports q.intent ≡ ok before

  give_up-Vouched :
      {P : Progress → Type 0} (status : ConfirmStatus)
      → Triple P (give_up ports status) (λ result _. Vouched result) (λ _ _. Unit)
  unfolding give_up error_result
  give_up-Vouched status = record { run = λ p h. inl (λ e. cc) }

  finish-Vouched :
      (signature : String) (before : Before) (status : ConfirmStatus)
      → Read before
      → ports.confirm signature q.intent.last_valid_block_height ≡ ok status
      → Triple
          (λ _. Unit {0})
          (finish ports q signature before status)
          (λ result _. Vouched result)
          (λ _ _. Unit)
  unfolding finish
  finish-Vouched signature before ConfirmStatus.confirmed b c =
      Triple-bind (λ after _. Unit × (read_after ports q.intent ≡ ok after))
        (lift (read_after ports q.intent)) _
        (Triple-weaken (lift (read_after ports q.intent)) (Triple-lift (read_after ports q.intent))
          (λ a p h. h) (λ e p h. tt))
        (λ after. Triple-assume _ (λ a. book_fill-Vouched signature before after b c a))
  finish-Vouched signature before ConfirmStatus.expired b c = give_up-Vouched ConfirmStatus.expired
  finish-Vouched signature before ConfirmStatus.failed b c = give_up-Vouched ConfirmStatus.failed

  send-Vouched :
      (before : Before)
      → Read before
      → Triple (λ _. Unit {0}) (send ports q before) (λ result _. Vouched result) (λ _ _. Unit)
  unfolding send
  send-Vouched before b =
      Triple-bind (λ _ _. Unit) (simulate_step ports q) _ (Triple-fact Unit _)
        (λ _.
          Triple-bind (λ _ _. Unit) (sign_step ports q) _ (Triple-fact Unit _)
            (λ signed.
              Triple-bind (λ _ _. Unit) (broadcast_step ports q signed) _ (Triple-fact Unit _)
                (λ signature.
                  Triple-bind
                    (λ status _.
                      Unit × (ports.confirm signature q.intent.last_valid_block_height ≡ ok status))
                    (lift (ports.confirm signature q.intent.last_valid_block_height)) _
                    (Triple-weaken _
                      (Triple-lift (ports.confirm signature q.intent.last_valid_block_height))
                      (λ a p h. h) (λ e p h. tt))
                    (λ status. Triple-assume _ (λ c. finish-Vouched signature before status b c)))))

  return-Read :
      (before : Before)
      → Read before
      → Triple (λ _. Unit {0}) (pure before) (λ a _. Unit × Read a) (λ _ _. Unit)
  unfolding pure
  return-Read before b = record { run = λ p h. (tt, b) }

  prepare-Read :
      Triple (λ _. Unit {0}) (prepare ports q) (λ before _. Unit × Read before) (λ _ _. Unit)
  unfolding prepare
  prepare-Read =
      Triple-bind (λ _ _. Unit) (lift (check ports q false)) _ (Triple-fact Unit _)
        (λ _.
          Triple-bind (λ _ _. Unit) (reserve_input ports q) _ (Triple-fact Unit _)
            (λ _.
              Triple-bind (λ before _. Unit × Read before) (lift (read_before ports q.intent)) _
                (Triple-weaken _ (Triple-lift (read_before ports q.intent)) (λ a p h. h)
                  (λ e p h. tt))
                (λ before. Triple-assume _ (λ b.
                  Triple-bind (λ _ _. Unit) (insert_row ports q) _ (Triple-fact Unit _)
                    (λ _. return-Read before b)))))

  attempt-Vouched :
      Triple (λ _. Unit {0}) (attempt ports q) (λ result _. Vouched result) (λ _ _. Unit)
  unfolding attempt
  attempt-Vouched =
      Triple-bind (λ before _. Unit × Read before) (prepare ports q) _ prepare-Read
        (λ before. Triple-assume _ (λ b. send-Vouched before b))

  handle-Vouched :
      (r : Result Failure ExecuteResult) (p : Progress)
      → Onto (λ result _. Vouched result) (λ _ _. Unit {0}) r p
      → Vouched (handle ports (r, p)).0
  unfolding handle error_result
  handle-Vouched (ok result) p h = h
  handle-Vouched (err e) p h = inl (λ k. cc)

claimed-Vouched :
    (ports : Ports) (q : Request) (s : KernelStore) → Vouched ports q (claimed ports q (true, s)).0
unfolding claimed
claimed-Vouched ports q s =
    handle-Vouched ports q (attempt ports q (start s)).0 (attempt ports q (start s)).1
      ((attempt-Vouched ports q).run (start s) tt)

duplicate_result-error :
    (ports : Ports) (o : Option TradeRow) → (duplicate_result ports o).error ≢ none
unfolding duplicate_result
duplicate_result-error ports none h = cc
duplicate_result-error ports (some row) h = cc

Vouched-error :
    (ports : Ports) (q : Request) (result : ExecuteResult)
    → Vouched ports q result
    → result.error ≡ none
    → Filled ports q result
Vouched-error ports q result (inl h) e = absurd (h e)
Vouched-error ports q result (inr h) e = h

-- A live call that reports no error has been confirmed on chain, and its fill is verified: it covered
-- what it needed beforehand, its deltas are what the balances did, and either the output leg received
-- the minimum output, or, for an intent with a perp position, the venue's position was read before and
-- after and moved by the committed minimum in the direction of the order.
pub live-Filled :
    (ports : Ports) (q : Request) (s : KernelStore)
    → (live ports q s).0.error ≡ none
    → Filled ports q (live ports q s).0
live-Filled ports q s h = elim (Bool-cases (has_claim q.opts.idempotency_key s.claims)) [
  | inl e ↦ absurd (
      duplicate_result-error ports (trade_by_key q.opts.idempotency_key s.trades)
        (ap (λ (r : ExecuteResult × Progress). r.0.error) (sym (live_used ports q s e)) ∙ h))
  | inr e ↦
      Vouched-error ports q _
        (subst (Vouched ports q)
          (ap (λ (r : ExecuteResult × Progress). r.0) (sym (live_fresh ports q s e)))
          (claimed-Vouched ports q (with_claim ports q s)))
        h
]
