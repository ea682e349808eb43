-- ===== src/Kernel/Gateway/Idempotency.antt =====
-- The idempotency key of a gateway call (step 1 of `#live` in src/kernel/trade-gateway.ts).
use ari_os.Prelude.{true, false, [], ◌∷◌, ◌++◌, ◌≡◌}
use ari_os.Kernel.Store.Rows.{KernelStore}
use ari_os.Kernel.Store.Trades.{has_claim, claim_idempotency, trade_by_key}
use ari_os.Kernel.Gateway.Run.{Ports, Moment}
use ari_os.Kernel.Gateway.Prepare.{Request}
use ari_os.Kernel.Gateway.Live.{live, claimed, duplicate_result, start}

-- The store once the key of a request is claimed.
abbrev pub with_claim : Ports → Request → KernelStore → KernelStore
with_claim ports q s = record s {
  claims =
      s.claims
      ++ record {
        key = q.opts.idempotency_key;
        trade_id = ports.new_trade_id;
        created_at = ports.clock Moment.started;
      }
        ∷ [];
}

module _ (ports : Ports) (q : Request) (s : KernelStore) where
  pub live_fresh :
      has_claim q.opts.idempotency_key s.claims ≡ false
      → live ports q s ≡ claimed ports q (true, with_claim ports q s)
  unfolding live claim_idempotency
  live_fresh e = rw e

  pub live_used :
      has_claim q.opts.idempotency_key s.claims ≡ true
      → live ports q s
        ≡ (duplicate_result ports (trade_by_key q.opts.idempotency_key s.trades), start s)
  unfolding live claim_idempotency claimed
  live_used e = rw e
