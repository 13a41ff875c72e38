-- ===== src/Lib.antt =====
-- Signal Count: a model of the coordinator's and the chain indexer's own logic, with its
-- theorems.
--
-- A coordinator sends one thesis to specialist nodes over a peer-to-peer transport, has the
-- answers verified, and records the accepted ones on a chain; an indexer reads the chain back.
-- The parts:
--
-- - Base (and its children): tests on numbers, dictionaries as association lists, results that
--   may raise, texts, JSON values and Python's floats. A float is a value of an abstract order
--   (`Base.Floats`), without the infinite ones and NaN, for which json.dumps raises in
--   app/identity/canonical.py (allow_nan=False); laws of arithmetic are hypotheses where needed.
-- - Orchestration.Graph (app/orchestration/graph.py): the declaration of the workflow and its
--   validation. `WorkflowGraph.__post_init__` is `post_init`; `_assert_acyclic` is
--   `assert_acyclic`, Kahn's algorithm over dictionaries, whose `while` runs on the number of
--   nodes as fuel: each round pops a node, so this is enough.
-- - Orchestration.Plan and Orchestration.State (app/orchestration/executor.py and state.py): the
--   execution plan, and the status of each node after a run.
-- - Axl.Registry and Axl.Capability (app/axl/registry.py): the peers configured for a role
--   (`AXLRegistry`) and the choice among them by health and reputation (`AXLCapabilityRegistry`).
-- - Schemas (app/schemas/contracts.py): the records that the parts exchange.
-- - Coordinator.Dispatch (app/coordinator/service.py): `_dispatch_role`, which calls one peer
--   after another until one answers. A call of the transport is a function of the number of calls
--   made before, so it may answer differently each time. The `while` loop runs on fuel; with
--   distinct peer ids the number of candidates is enough.
-- - Coordinator.Run (app/coordinator/service.py): what `dispatch` makes of the roles' outcomes,
--   with `_verify_responses`. Whole has the dispatch from the topology and the providers' data
--   on: `asyncio.gather` gives one result for each role, in order, or an exception of one, and
--   the verifier may raise. Settled and Whole.Accepted are about the graph's
--   state in the result. Judged says what the coordinator relies on of a verifier;
--   Nodes.Verifier.Judging and Dispatched put VerifierService in its place. Metadata has the
--   input sources and `_build_run_metadata`, with `model_dump` as functions.
-- - Coordinator.Submission (app/api/jobs.py): `create_completed_job_submission` over the
--   protocols that the file declares, which are functions of the job's id. A submission gives the
--   table of jobs as it is when it ends or raises, beside its answer. Ledger has one submission
--   after another (`submit_all`), whose leaderboard Coordinator.Run.Credited and
--   Store.Jobs.Credited are about.
-- - Coordinator.Memo and Coordinator.Synthesis (app/coordinator/synthesis.py): `synthesize`, by
--   the memo of the model's answer (Answer) or the one that `_fallback_memo` makes of the
--   dispatch. The sum of floats and its quotient are functions, `str` of a number is one, and so
--   are json, `model_dump` and `model_validate`, which is assumed to take two fields of a memo
--   from the payload. The call of the model is its outcome, and of its exceptions only whether
--   `synthesize` expects them.
-- - Identity.Hashing and Identity.Signing (app/identity): signing, recovery and verification of
--   an execution. What json, eth_utils and eth_account do is a record of functions with their
--   documented laws (`Crypto`); that nobody else can sign is not assumed.
-- - Ree.Receipts, Ree.Validator and Ree.Claims (app/ree/receipts.py, validator.py, claims.py):
--   the parsing of a receipt's dict, its local validation and the fail-closed check of a claim.
--   Hash functions and pydantic's validation are a record of functions without laws.
-- - Tamper.Detector (app/tamper/detector.py): the nine checks of a signed execution.
-- - Tamper.Adversarial (app/tamper/adversarial.py): the attacks of the demo.
-- - Evaluation.Reputation (app/evaluation/reputation.py): the updates that attestations give, the
--   aggregates of the leaderboard, and (Leaderboard) its sorting and the reading of stored
--   updates. Rounding, the factor of 100 and the sum of floats are functions without laws.
-- - Evaluation.Payouts (app/evaluation/payouts/policy.py, loop.py) and Evaluation.PayoutLedger
--   (schemas.py): the payout policy and the simulation of rounds, over an arithmetic of floats,
--   with the constraints of the ledger's fields and the OverflowError of a payout as errors.
--   Returned names the laws of the arithmetic that a simulation needs to end without an error.
-- - Chain.Config, Chain.Client, Chain.Receipts (app/chain/config.py, client.py, receipts.py,
--   explorer.py): the configuration and its validation, the builders of signed transactions, and
--   the receipts kept. eth_abi and eth_account are a record of functions; a signed transaction
--   decodes to itself.
-- - Chain.Rpc, Chain.Updates and Chain.Broadcaster (app/chain/broadcaster.py): the calls of a
--   node, the updates that a run's metadata has, and the recorder of a job's receipts, in a monad
--   over the calls made and the clock, which an exception leaves as they are. The node is any
--   function of the calls so far. The wait for a receipt runs on as many rounds as its time has
--   milliseconds, and one more, though each round takes a second or longer.
-- - Chain.Verification (app/chain/verification.py): reading a receipt back.
-- - Mcp.Router (mcp_routing/mcp_router.py): the handlers over the table of services. A routed
--   request is two functions, `route_start` and `route_end`, since other requests run while it is
--   awaited; a sequence of events is any interleaving of them.
-- - Store.Schema (app/store/jobs.py): the creation of the tables and the migration of older ones,
--   as the columns of each table.
-- - Store.Jobs (app/store/jobs.py): the table of jobs; `create_job`, `complete_job`, `get_job`,
--   `get_latest_job` and `get_reputation_leaderboard`. The id and the time of a new job are
--   arguments. `json.dumps`, `json.loads` and SQLite's `datetime` are functions; that a value is
--   read back as it was written is a hypothesis on that value.
-- - Store.Chain (app/store/jobs.py): the tables of indexed events, blocks and cursors; a table is
--   the list of its rows and each SQL statement a function on it.
-- - Indexer.Events (app/indexer/chain_events.py) and Indexer.Scheduler
--   (app/indexer/scheduler.py): a run of the indexer, whose poller is a record of functions that
--   may raise.
-- - Indexer.Decoding (app/indexer/chain_events.py): the decoding of logs and the poller; a reply
--   of the node is a function of the call. `to_block` is a number, as the scheduler passes it.
-- - Indexer.Projections and Indexer.Projections.Leaderboard (app/indexer/projections.py): the
--   projection of events and the leaderboard of agents. `sorted` is a stable insertion sort
--   (`Base.Sorting`).
-- - Evaluation.Scoring and Evaluation.Attestations (app/evaluation/scoring.py, attestations.py):
--   the score of a response and the signing of attestations. `model_dump` of an attestation is a
--   function; it gets the attestation without the excluded fields.
-- - Nodes.Policy and Nodes.Verifier (app/nodes/verifier/service.py): `VerifierService`;
--   `attest_execution` is its `verify_signed_execution`. `lower` in the policy's name is that of
--   ASCII.
-- - Examples: inputs on which the theorems are applied, and tests.
--
-- Not modelled: clocks and sleeping (`run_forever`), sockets, the reading of HTTP requests and
-- rendering of pages, which are pure input and output; the database's own failures; the field
-- constraints that pydantic checks, except those of the payout ledger; the checks that app/api/jobs.py answers with for a stored job
-- (its /verify route); the specialists, which ask a language model.
pub mod Base
pub mod Axl
pub mod Chain
pub mod Schemas
pub mod Coordinator
pub mod Store
pub mod Indexer
pub mod Orchestration
pub mod Examples
pub mod Identity
pub mod Ree
pub mod Tamper
pub mod Mcp
pub mod Evaluation
pub mod Nodes
