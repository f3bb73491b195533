-- ===== src/Lib.antt =====
-- AgentFi lets agents spend from wallets under a policy that an operator sets. This library models
-- the part of the backend that decides, accounts for and sends a spend, and the login limit of the
-- admin site. Paths are from the repository's root; the backend's policy code stands in
-- packages/backend/src/services/policy, its sending code in packages/backend/src/services/transaction
-- and packages/backend/src/queues.
--
-- The parts and their files:
--   Decimal   policy-numbers.ts and the conversions of usdc-spend-policy.ts, policy-authority.ts and
--             daily-volume.ts: decimal texts as lists of code units, micro-dollars as natural numbers.
--   Policy    the AgentPolicy row. Policy.Usdc is evaluateUsdcSpend, Policy.Outflow judgeOutflowCap,
--             Policy.Pricing spend-pricing.ts, Policy.Authority classifyPolicyChange, Policy.Service
--             PolicyService.validateTransaction, Policy.Service.Row its writes. Policy.Tighten relates
--             the classifier to the checks.
--   Ledger    services/payments/resource-payment-ledger.ts: which x402 payments count.
--   Volume    daily-volume.ts: Volume.Create, Volume.Approve and Volume.Settle are its operations on
--             the state Db, which has the Transaction rows and the DailyVolume rows.
--   Sync      policy-sync.ts: the policy derived for the on-chain module, the reading and the plan;
--             Sync.Module is what packages/contracts/src/AgentPolicyModule.sol does for one wallet.
--   Login     packages/admin/src/lib/login-rate-limit.ts.
--   Redis     the commands that the lanes use, a parameter, with what Redis documents of them.
--   Lane      services/transaction/wallet-lane.ts: the check of a lease and its release. Lane.Acquire is
--             the wait for a lane, Lane.Nonces the nonce stores, Lane.System the processes that contend
--             for one lane, as a step relation, Lane.Recovery the recovery lock of a chain.
--   Submit    services/transaction/submitter.service.ts: submitInLane and the broadcast of what was signed.
--   TxKnown   services/transaction/tx-known.ts: isTransactionKnownToAny over the answers as they come.
--   Worker    the transaction worker: Worker.Guard and Worker.Recheck are
--             services/transaction/pre-submit-guard.ts,
--             Worker.Process processTransactionJob, handleFailedTransactionJob and
--             settlePermanentFailure of queues/transaction.processor.ts, Worker.Outcome its
--             runPostConfirmation and re-poll with monitor.service.ts, Worker.Stranded
--             stranded-queued.ts. Worker.Runs puts their steps in any order.
--   Tests     sample inputs for the theorems.
--
-- How they interact: a route prices a spend (Policy.Pricing), asks validateTransaction (Policy.Service,
-- with Policy.Outflow), and creates the row with its reservation (Volume.Create, which reads Ledger
-- and the policy). An operator approves it (Volume.Approve); the transaction worker stamps and
-- settles it (Volume.Settle): it vets the row (Worker.Guard), signs and sends it in the wallet's lane
-- (Lane, Submit) after the hook of Worker.Process, and records the receipt (Worker.Outcome), while
-- the failure handler, the re-poll and the sweep take over what stopped half-way. A change of the
-- policy is classified first (Policy.Authority), written (Policy.Service.Row) and sent to the chain
-- (Sync).
--
-- How the code is modelled: a stateful function takes the state and returns it; a function that may
-- throw returns an Option, none being the exception. A database transaction under the agent's row
-- lock is one step. Identifiers, hashes and days are natural numbers, times are milliseconds. A
-- stored volume is its number of micro-dollars, which its text with six decimals denotes exactly.
-- Number arithmetic of ECMAScript is the parameter Policy.Floats.Floats, getAddress of viem a
-- function, the synthetic price table and the oracle the record Policy.Pricing.PriceSources. The
-- record OrderLaws states what the comparison of finite floats gives. Loops are structural, but
-- for the printing of a number, whose fuel is its successor, and the wait for a lane.
--
-- The worker's World is the database of Volume and a log of what it does elsewhere: the broadcasts,
-- the finalizers of A2A payments and escrow steps, the fees and the queue's jobs. The answers that a
-- step gets (the clock, the gates of a chain's configuration, the nodes, the queue) are its
-- arguments; a guard may decide on an older database than it writes to. The lookup of an earlier
-- transaction (isKnownTransaction) is taken as given to the worker. The clocks of the processes of a
-- lane may differ by constants. The loop of the lane's wait has the fuel `wait / 25 + 2`, since it
-- never sleeps for less than 25 milliseconds.
--
-- Not modelled: the wording of refusals, logging, ABI encoding, HTTP, signing and the chain itself;
-- the lane lock in memory; what the finalizers and the fee service do with a
-- call; the counts of the re-poll and the dead-letter queue; errors of the database itself; the
-- payment and escrow services, and all clients and pages.
pub mod Base
pub mod Decimal
pub mod Policy
pub mod Ledger
pub mod Volume
pub mod Sync
pub mod Login
pub mod Redis
pub mod Lane
pub mod Submit
pub mod TxKnown
pub mod Worker
pub mod Tests
