-- ===== src/Lib.antt =====
-- The settlement exchange: agents hold token balances, a requester locks an amount and a fee in an
-- escrow for a provider, and handlers release, split, refund, dispute and resolve it. Every handler
-- runs in one database transaction; an observer sweeps escrows whose deadlines have passed.
--
-- Parts and files:
-- - Base, Int, Table: shared names, Python's unbounded integers, tables of rows under a key.
-- - Exchange/Models and Exchange/Config: the rows of exchange/models.py and the settings of
--   exchange/config.py that the modelled code reads. Exchange/Errors: a handler's result, a value
--   or an `HTTPException`.
-- - Exchange/Ledger: the updates of balances, escrows and the transaction log, and three measures
--   of a database. `net` is all balances and collected fees less what was minted and deposited.
--   `gap a` is what is held from account `a` less what its open escrows and held stakes account
--   for. `Solvent` says that no available funds are negative.
-- - Exchange/Fees, Exchange/Reputation, Exchange/Kya: `_fee_amount`, `_guarded_ema_update` and
--   `_apply_provenance_reputation_penalty`, and `_check_kya_gate` of exchange/routes/settlement.py.
-- - Exchange/Guard: `SpendingLimitGuard` of exchange/spending_guard.py.
-- - Exchange/Observer: `PaymentTimeoutObserver` of exchange/observers.py. `create_escrow`,
--   `partial_release`, `release` and `refund` call its first pass by `_expire_stale_escrows`.
-- - Exchange/Provenance: `_verify_provenance`, which `deliver` calls.
-- - Exchange/Attestations: the rows of attestations and the handlers of
--   exchange/routes/attestations.py, with the attestation part of the observer's sweep. The digest
--   of a row's canonical JSON is a parameter. Advance and Order hold the order of statuses and the
--   relation of a table to a later one.
-- - Exchange/Principals: the links, the decision and the in-process cache of
--   exchange/principal_resolver.py.
-- - Exchange/Settlement: one file per handler of exchange/routes/settlement.py: Deposit, Instant,
--   Create, Batch, Deliver, Partial, Release, Refund (with `_auto_refund_dependents`), Dispute,
--   Evidence (of the parties and of oracles), and Resolve (with `_settle_dispute_stake`). A handler
--   is its checks in the source's order as a do block, and the changes after the last check as a
--   function of its own. Files below a handler hold its proofs; Final, Solvency and History speak
--   of several handlers. `History.Step` is one request that succeeds, or one pass of the expiry;
--   `History` is a sequence of them.
-- - Exchange/Settlement/Queries: the handlers of that file which only read. A page is the rows that
--   a condition selects, sorted and cut; the `group_id` column is a table of its own, and the
--   effective fee rate is left out.
-- - Exchange/Accounts: exchange/auth.py (Auth), and the handlers of exchange/routes/accounts.py by
--   what they are about: Register, Keys, Claims, Cards, Directory, and Admin, which has the
--   operator's. The tables that they share with the settlement are those of Exchange/Models; random
--   keys, salts and new ids are arguments, and bcrypt, HMAC, `int` and `str.strip` are parameters.
--   Access and Lockout relate them to `create_escrow`.
-- - Exchange/Identity: exchange/identity/issuer_registry.py (Issuers), vc_verifier.py (Verifier) and
--   monitor.py (Monitor). The resolution of DIDs, Ed25519, canonical JSON and
--   `datetime.fromisoformat` are the record `Outside` of parameters; a date has the time that is
--   written, the instant that it denotes, and whether it is written with an offset.
-- - Exchange/KyaAdmin: exchange/routes/kya_admin.py, on the tables of accounts and issuers.
-- - Exchange/Metrics: exchange/reputation_metrics.py, exchange/routes/reputation.py and
--   `get_vi_attestation` of exchange/routes/settlement.py.
-- - Compliance/Merkle: `MerkleTree` of compliance/merkle.py, where `sha256` and `bytes.fromhex` are
--   parameters. The table of leaves is a list, the table of nodes a function of level and position.
--   Rows is the reference, the rows of a tree built from scratch; Stored, Rebuild, Append, Proof,
--   Verify, Duplicate and History relate the stored nodes to it.
-- - Shim/Gate: `EscrowGate` of shim/escrow_gate.py with the cost models of shim/cost_model.py.
-- - Tests: a concrete exchange, and the theorems applied to it.
--
-- How the code corresponds: ids are UUID texts that are only compared, so they are numbers; an
-- instant is a number of microseconds, and a request reads the clock once. The session has
-- `autoflush=False`, so a query by a condition reads the rows as they were when the handler began
-- (`rows`), while a select by key returns the session's changed object. Where the source
-- interleaves some of a handler's own changes with its checks, the model makes them after the last
-- check, but `resolve` settles the stake before its last one, as the source does: an
-- `HTTPException` rolls the transaction back, and only the freeze that the guard commits in a
-- session of its own survives, as part of the error. Floats are a record of operations, decimals
-- are exact, and settings are natural numbers. `classify_transaction` is a function of the context
-- of a request; Exchange/Principals models it on its own state. The order of floats that its
-- results use is a named hypothesis, as NaN cannot be stored as a confidence. The recursion of
-- `_auto_refund_dependents` has fuel for Python's recursion limit; any fuel above the number of
-- ranks of dependent escrows returns. The loops of the Merkle tree have the number of leaves as
-- fuel, which exceeds the number of rows. Loops over rows are structural.
--
-- An instant that is loaded from SQLite, the default database, has no offset, and to compare it with
-- the clock is a `TypeError`; the setting `aware` says whether the database keeps offsets, as
-- PostgreSQL does. Without it, sign-in, `get_attestation_status`, `list_attestations`,
-- `submit_evidence` and `warn_expiring_attestations` answer with an error where the source raises.
-- A sweep of the observer that meets the error is rolled back as a whole, and is no step. The
-- spending guard reads such instants as UTC, and queries compare them inside the database. A card's
-- date of expiry that has no offset, or is no date, is an error of `register_agent` and
-- `update_agent_card`; pydantic is taken to read dates as `fromisoformat` does.
--
-- Not modelled: webhooks, federation and compliance log, which run after the commit; descriptive
-- columns (task type, deliverables, credential chain, texts); constraints that the
-- database itself enforces on flush; concurrency of transactions, which row locks serialise; the
-- race between a rollback and the resolver's cache; the resolution of DIDs over HTTP, the
-- validation of agent cards by pydantic, and rate limits; the statistics; the
-- shim's proxy, the SDKs, the simulation and the examples.
pub mod Base
pub mod Int
pub mod Table
pub mod Exchange
pub mod Compliance
pub mod Shim
pub mod Tests
