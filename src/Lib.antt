-- ===== src/Lib.antt =====
-- QuantiQmt: order management, its repository with journal and outbox, the outbox health, the market
-- gateway with its data quality pipeline, and the admission of risk evaluations.
--
-- The program. An order is an aggregate that `Order.transition` takes from state to state along a
-- fixed table: the caller gives an event, the evidence for its guard and, for events that
-- report what a broker did, an external fact. A commit of an order writes
-- its state, a journal entry in a chain of checksums and outbox messages in one transaction; recovery
-- restores the order from the journal, or from a snapshot and the later entries. Dispatchers poll
-- the outbox: each claims a batch of messages under a lease and a fencing token, publishes them and
-- settles each claim. A periodic evaluation reads the outbox and decides whether trading must be
-- suspended. Market ticks enter the bounded queue of a subscription of the gateway, and are drained
-- into a quality pipeline that records gaps and staleness and lets an instrument return to NORMAL
-- through a verified recovery alone. A risk evaluation is admitted under one permit, which
-- its caller or the callback of its future gives back.
--
-- Base and its children: Boolean tests, lists, dictionaries, results and signed integers that the
-- components share.
--
-- Order: the aggregate of src/quantiqmt/order/domain/model.py.
--   Order.States, Order.Catalog   OrderState, OrderEvent, the table `_TRANSITIONS` and the event sets
--   Order.Evidence                GuardEvidence, ExternalFact, FactIdentity and the errors
--   Order.Guards                  the guards of `_guard_passes` and `_validate_trade_guard`
--   Order.Record                  Order, `__post_init__` and the parts of `_commit`
--   Order.Aggregate               `_commit`, `transition` and the helpers it calls
--   Order.StateQuantity, Accounting, Wellformed, Routes, Effects, Facts, Replay, Authority, Trace,
--   Trades, Final: the lemmas and theorems; Order.Examples runs them.
-- Quantities and versions are natural numbers where the constructor has refused negative ones, and
-- signed integers where the code takes any integer. A dictionary is an association list in
-- insertion order. The code returns or raises: a call here is a pair of an outcome and the order
-- after it. Texts are strings; the strip of an identity is read on the characters of the text.
--
-- Shared: the value objects of src/quantiqmt/shared, as far as the persistence reads them.
--   Shared.Platform               what the code calls of the standard library, as a record of functions
--   Shared.Numerals, Time, Values `str` of an integer, UTC texts, prices and instruments
--   Shared.Milliseconds           the milliseconds of a span of time, in double precision, as written
--
-- Persistence: the repository and the outbox of src/quantiqmt/order/infrastructure/memory.py, with
-- the DTOs, the serialization and the exceptions of src/quantiqmt/order/application/persistence.
--   Persistence.Json, Call        JsonValue; the exceptions and the deadline of a call
--   Persistence.Payload           reading and normalizing a JSON value
--   Persistence.Registration      OrderRegistration and PersistedOrder
--   Persistence.StatePayload      `order_state_payload`
--   Persistence.Restore           `_persisted_from_state_payload`
--   Persistence.RoundTrip         the second after the first: lemmas and the theorem, in View
--   Persistence.Canonical         `canonical_json_bytes`, by code points
--   Persistence.Journal           entries and their checksums (Record), the chain (Chain, Verified)
--   Persistence.Repository.Store  the state, its clock and the lookups
--   Persistence.Repository.Commit `register` and `save`
--   Persistence.Repository.Recovery, Pages: snapshots, recovery, rebuilding, the pages of ids
--   Persistence.Repository.Commits, Invariant, Preserved, Calls, Again, Restored, Recovered,
--   Snapshots, Replay, Paging, Ids, Published: lemmas and theorems; Examples and SnapshotExamples
--   run a registration and a save, on the data of ExampleData and the platform of ExamplePlatform.
--   Persistence.Messages          the builders of messages.py and their way into the outbox, run by
--                                 MessageExamples
--   Persistence.Outbox.Record     OutboxRecord, ClaimPolicy and the other DTOs of the port
--   Persistence.Outbox.Claim      `claim`
--   Persistence.Outbox.Settle     `mark_published`, `release_failed`, `renew`
--   Persistence.Outbox.Selection, Entries, Invariant, Grants, Fencing, Retry: lemmas and theorems
--   Persistence.Outbox.Safety     `evaluate_outbox_safety`
-- Times are microseconds, the resolution of `datetime`. The memory adapter keeps its records in
-- dictionaries, as here; a call of the repository that raises gives no store, since each raise stands
-- before the first write. The source stores and returns references to the mutable Order: a caller
-- that changes an order after it has committed it, or one that it was given, changes the stored one
-- with it. Here an order is a value, so the theorems are about callers that hand over an order and do
-- not change it afterwards. A set of fingerprints is a list in which each stands once. Fields that the
-- source types as `Literal` and never tests hold any JSON value. A call that reads the clock twice,
-- `load_for_recovery`, takes two readings. The hash, the normal form of Unicode, UUIDs and ISO texts are
-- functions of Shared.Platform; the one law assumed of them is that `fromisoformat` reads what
-- `isoformat` writes. The decimal arithmetic of the retry delay is a parameter. The digits of a
-- number are written with its successor as fuel, which is more than their number. Following pages
-- runs on fuel as well, one more than the number of ids.
--
-- Messaging.Health: the policy and evaluation of src/quantiqmt/messaging/outbox/health.py.
--
-- Market: src/quantiqmt/market/quality.py, policy.py and gateway.py.
--   Market.Quality.State          QualityState and the qualities, with the errors of market/errors.py
--   Market.Quality.Registry       RecoveryEvidenceRegistry
--   Market.Quality.Store          the object MarketQuality, baselines and the states of a gap
--   Market.Quality.Drain          the loop of `_observe_gap_backfill`
--   Market.Quality.Pipeline       ticks, overflows and staleness
--   Market.Quality.Recovery       `begin_recovery` and `complete_recovery`
--   Market.Quality.Relation, Moves, Follows, Diagram, Counters, Coherence, Replay, Records,
--   Redelivery, Evidence: the moves of one instrument as a relation, the lemmas and the theorems;
--   Examples runs a gap, its backfill and the start of a recovery.
-- The hash of a tick and the checksums of snapshots and checkpoints are computed by contracts/ and
-- market/validation.py: a tick carries its fingerprint as a field and the theorems hold for every
-- value of it. An integer of a tick or of evidence is a natural number, as market/validation.py wants
-- it (`_require_safe_int`); the pipeline by itself takes negative ones too, which are left out. Its
-- payload is a validated one, whose instrument is a text. The loop that drains the
-- set of backfilled sequences runs on fuel, the size of the set: each turn takes one element out of it.
-- Market.Policy.Authority is `AcceptedPolicyStore` of src/quantiqmt/market/policy.py, with the
-- validation of the shape of a policy and the version of the time zone data as parameters;
-- Market.Policy.Binding has the theorems.
-- Market.Gateway: src/quantiqmt/market/gateway.py, without its metrics.
--   Market.Gateway.Batch          the loop of `drain` on one subscription
--   Market.Gateway.Core           the state, `_lifecycle` and `_subscription`
--   Market.Gateway.Ingress        `on_tick`, `apply_gap_evidence`, `evaluate_staleness`,
--                                 `drain` and `queue_depth`
--   Market.Gateway.Admission, Verdict, Bounds, Tokens: the calls as steps, and the theorems;
--   Examples and CoreExamples run them.
-- Whether a request is a valid DTO, whether its deadline is over, the thresholds that its policy
-- resolves to, what the normalizer makes of a raw tick and the time that `parse_utc` reads from one
-- are arguments; the theorems hold for every value of them.
--
-- Risk: src/quantiqmt/risk/runner.py.
--   Risk.Ownership                `_AdmissionOwnership`, one function per block under the lock
--   Risk.Handoff                  the caller and the callback of the future as a step relation
--   Risk.VersionFilter            `_InputVersionFilter`, with SHA-256 as a parameter
--
-- Not modelled: the drafts of the order persistence, the PostgreSQL adapter,
-- the schema validation of contracts/, snapshots and health of the market gateway, bar aggregation,
-- money, ratios and weights, the risk evaluator and `run`, the live probe and the scripts of the
-- repository.
pub mod Base
pub mod Market
pub mod Messaging
pub mod Order
pub mod Persistence
pub mod Risk
pub mod Shared
