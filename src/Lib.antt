-- ===== src/Lib.antt =====
-- The payment gateway: a model of its core in total functions, and what holds of it.
--
-- The program is a set of services over one PostgreSQL database and an event log. A payment request
-- comes to the payment service, which inserts the payment, asks the fraud service, charges through
-- the acquirer router and records the outcome; captures, refunds, cancellations and disputes follow
-- later. Money is written to a double-entry ledger and events to an outbox, in the transactions
-- that change the payments.
--
-- Prelude holds what every module shares: Boolean tests, list lookups and updates, integers over
-- the native numbers with the reduction to 64 bits (Prelude/Int).
--
-- Common is crates/common/src: models.rs (Common/Status, Common/Models, Common/Requests,
-- Common/Response) and errors.rs (Common/Errors). Common/Values holds identifiers, times and JSON.
--
-- Payment is crates/payment-service/src. World is the state: the tables, the clock, the supply of
-- identifiers, the calls to the acquirer. A transaction is a function of type Tx: an error rolls it
-- back. Statements is db.rs, with the constraints that migrations/ declares; Ledger is ledger.rs;
-- StateMachine is state_machine.rs; External is the part of orchestrator.rs that reads replies and
-- builds payloads; Orchestrator has the transactions of orchestrator.rs one by one, and
-- Orchestrator/Operations the operations (create_payment, capture_payment, create_refund,
-- cancel_payment) as chains of transactions and calls; Listings is the listings of db.rs, Handlers is
-- handlers.rs over the operations; Dispute is create_dispute of dispute.rs. An HTTP call is an
-- Exchange: its reply, and what other requests commit before it arrives.
--
-- Acquirer is crates/acquirer-router/src: CircuitBreaker is circuit_breaker.rs and Router is
-- router.rs with adapter.rs. An adapter is a function to its reply and the seconds that it takes.
--
-- Fraud is crates/fraud-service/src/rules.rs: Rules has the rules over the tables that they query,
-- Engine the loop over them and the verdict in JSON.
--
-- Webhook/Deliveries is crates/webhook-service/src/retry_scheduler.rs, on one row of its table.
-- Webhook/Dispatcher and Webhook/Consumer are dispatcher.rs and consumer.rs there: the rows that the
-- scheduler works on come from them, and the endpoints from Merchant/Tables.
--
-- Settlement/Settler is crates/settlement-worker/src/settler.rs. It shares the payments and the
-- outbox with Payment/World and adds the settlements and the merchants' balances; a settlement of a
-- merchant is one of the steps of Payment/Steps.
--
-- Reconciliation is crates/reconciliation-service/src/reconciler.rs: Tables has its rows and
-- statements, Reconciler the run. It reads payments as Payment has them, and each of its statements
-- may fail.
--
-- Outbox/Worker is crates/outbox-worker/src/worker.rs: a poll of the whole outbox, by a worker that
-- may stop after any number of sends.
--
-- Crypto is crates/common/src/crypto.rs, on lists of bytes (Crypto/Bytes): Digests, Cipher and
-- Signatures, over the foreign functions of Crypto/Primitives.
--
-- Vault is crates/vault-service/src/tokenizer.rs: Luhn has the check of card numbers, Tokenizer the
-- tokens. It uses Crypto.
--
-- Merchant is crates/merchant-service/src: Tables has the rows and the triggers, Store is db.rs and
-- Handlers is handlers.rs. It uses Crypto for keys and secrets.
--
-- The proofs: Effects and Effects/Triples reason about transactions, Frames about the tables that a
-- statement leaves alone, Rows about the payments table, Transactions about what each transaction
-- does to it. Steps is the service as a step relation, whose steps are the commits of transactions
-- of any requests in any order, with its invariant; Histories is about the operations as histories
-- of such steps. Commits, Outcomes, Refunds, Refusals, Replay, Replies and Lifecycle state what the
-- operations do. Examples has concrete tables, and the theorems applied to them. In Acquirer,
-- Breakers is about the runs of a breaker, Routing about what the router answers and which breakers
-- it leaves, Ordering about the order of the acquirers. In Fraud, Verdicts is about what the engine
-- decides and what the payment service makes of it. In Webhook, Attempts is about the runs of the
-- scheduler, Once about messages that are repeated, Untyped about the payment service's events.
-- Payment/Unposted is about the foreign key between entries, Payment/Served about what the handlers
-- let through, Payment/Pages about the pages of a
-- listing. In Reconciliation, Reports is about the comparison and Completed about a run that
-- completes. In Settlement, Paid is about one merchant, Batches about all, and Kept about what
-- stays. In Outbox, Delivered and Spent are about any runs, Drained about a broker that accepts. In
-- Crypto, Accepted is about signatures; in Vault, Detected and Roundtrip about numbers and tokens;
-- in Merchant, Keys and Versions about keys and updates.
--
-- Bounds: amounts are integers; the reductions to 64 bits that the code makes are written out where
-- it computes (refundable_amount, the running balance), and the database refuses a sum or a column
-- that leaves the range of BIGINT, in the ledger and in the settlements. No definition runs on
-- fuel: every loop of the code is a recursion on a list.
--
-- Parameters: the fee and the velocity score, which are floating-point computations, the delays of
-- the scheduler, SHA-256, HMAC, AES-GCM, base64, hexadecimal and number formats, random bytes, the
-- accessors and the printing of serde_json, the replies of services, adapters and the broker, the
-- rows that other transactions lock, and how ORDER BY orders rows of one instant, which is one of
-- the arguments of a listing.
--
-- Not modelled: metrics, tracing, start-up, HTTP routing, failures of the database itself except in
-- Reconciliation and Settlement, and the other services (ledger and order services, the gateway).
pub mod Prelude
pub mod Common
pub mod Payment
pub mod Acquirer
pub mod Crypto
pub mod Fraud
pub mod Merchant
pub mod Outbox
pub mod Reconciliation
pub mod Settlement
pub mod Vault
pub mod Webhook
