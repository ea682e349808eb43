-- ===== src/Lib.antt =====
-- ARI OS: the trading kernel, the execution control, the signer's fence, the bonding curve, the
-- liquidity bins, the exposure of perpetuals and the leases of jobs.
--
-- ARI OS lets an agent propose trades; a deterministic kernel decides whether value may leave the
-- wallet. A caller hands the kernel an intent and an idempotency key. The gateway claims the key,
-- asks the static guards, reserves the input against the spend caps in the store, reads balances,
-- simulates, signs, broadcasts, waits for the confirmation and settles the fill. What a crash leaves
-- behind, the reconciler finishes at the next start. The bonding-curve quotes feed intents.
-- Beside it, trades on other chains pass the execution control: a signed policy and a ledger of
-- reserved exposure that a snapshot of the venue is compared with. The signer, in a process
-- of its own, checks the authorization of each transaction and claims it once.
--
-- Files and the code they model:
--   Prelude          words of the language: integers (`bigint`), numbers (`number`), maps, results, tests
--   Curve            src/pools/pumpfun/math.ts: quoteBuyForSolBudget is quote_buy_for_sol_budget, and
--                    so on; theorems in Curve/Buying, Curve/Selling, Curve/Tiers
--   Kernel/Contracts src/kernel/contracts.ts and errors.ts, the data of the money path
--   Kernel/Money     src/kernel/money.ts: quoteBucketFor, slippageBps
--   Kernel/Policy    src/kernel/policy-engine.ts: staticGuards, one function for each group of
--                    guards; theorems in Policy/Admissible and Policy/MinOut
--   Kernel/Store     src/kernel/store.ts: a table is a list of rows in insertion order, a transaction
--                    is one function; theorems in Store/Sums, Store/Caps, Store/TradeRows
--   Kernel/Gateway   src/kernel/trade-gateway.ts: Checks, Settle, Prepare and Live hold the private
--                    methods and the stages of #live; Triple reasons about stages; theorems in
--                    Reservations, Trace, Claims, Once, Fills and Confirmed
--   Kernel/Reconciler src/kernel/reconciler.ts; theorems in Reconciler/Recovery
--   Bins             src/pools/meteora/bins.ts: rangeAroundActive is range_around_active, distributeAmount
--                    is distribute_amount; theorems in Bins/Range and Bins/Shares
--   Jobs             src/autonomy/jobs/index.ts: claim, heartbeat, complete, fail and cancel of
--                    JobQueue; theorems in Finished, Retry, Recovered and Leased
--   Control          src/execution/control/index.ts: Evaluator is ProductionRiskEvaluator, Ledger/Rows,
--                    Ledger/Within and Ledger/Snapshot are ReservationLedger (reserveWithin is
--                    reserve_within), Policy is validatePolicy, Trading is TradingControl.evaluate
--                    (reserve_trade), its pushed reasons a list of conditions; theorems in
--                    Evaluator/Allowed, Ledger/Granted, Committed and Balanced, and Trading/Reserved
--   Signer           src/signer: Replay is SqliteReplayStore (replay.ts) and InMemoryReplayStore,
--                    Authorization is SignerWireVerifier (both authorization.ts); Fence is what both
--                    stores promise; theorems in Stores, Claimed, Once, Written and
--                    Authorization/Vouched
--   Perps            src/perps/exposure.ts (exposureFrom is exposure_from) and the notional of
--                    src/perps/policy.ts; theorems in Exposure and Notional
--   Rebalance        src/pools/rebalance/ledger.ts: RebalanceLedger; theorem in Window
-- The Examples of Curve, Kernel, Bins, Jobs, Control, Signer, Perps and Rebalance run the code and the
-- theorems at concrete inputs.
--
-- A gateway call is a step on a record of the store, the trace of value-moving calls, the reservation
-- and the inserted flag; a step may throw, and what it wrote stays written. The chain, the wallet, the
-- clock and the readers are parameters: a record of what each answers in one call. The code awaits
-- them between its writes. Theorems on one call take the store to be written by that call alone in the
-- meantime; calls in sequence are covered. The loop that narrows a range
-- runs on fuel, of which the sum of the two counts is enough, the recovery of leases on as many turns as
-- there are jobs, and the rounding to a double on 1,040, more than a product with a leverage has bits; everything else is structural recursion.
-- `bigint` is an unbounded integer. A `number` that the configuration sets in whole units is an
-- integer; any other is a dyadic rational, an infinity or NaN.
--
-- The product of a leverage is rounded as a double is; that of the retry delay is taken without its
-- rounding. Counts of bins are whole numbers, which doubles follow below 2^53.
--
-- An insert into the ledger of the execution control refuses an integer past 64 bits, which the driver
-- does not bind; the time of a read, a commit or a reconciliation is taken to fit. How the driver
-- reports the number of changed rows, as a number or as a bigint, is a parameter. The
-- digest of a policy and the check of its signature are parameters.
--
-- Not modelled: messages of errors, enqueueing and the schedules of jobs, the JSON of rows, display
-- helpers, prices and weights of bins, which are floating arithmetic; the liquidation distances and the
-- guards of perpetuals, the decision to rebalance, and approvals; the tools, the agent, the HTTP and
-- terminal interfaces, the venue adapters, and of the signer its process, its decoder and its keys.
pub mod Prelude
pub mod Curve
pub mod Kernel
pub mod Jobs
pub mod Control
pub mod Signer
pub mod Perps
pub mod Rebalance
pub mod Bins
