-- ===== src/Lib.antt =====
-- Verification library of ddd-kit-ts.
--
-- ddd-kit-ts is a toolkit for domain-driven design. An application loads an event-sourced
-- aggregate from its event store, by a snapshot and the events after it or by all its events,
-- lets it apply new events and appends these to the stream under the version that it has loaded.
-- Committed events reach projections in batches, which a checkpoint for each aggregate guards
-- against redelivery and gaps; the outbox gives the events of each commit the positions that
-- these checkpoints hold, and keeps every event until it is acknowledged. An idempotency store
-- lets a command take effect once although it is sent again, and a deadline store hands out due
-- work until it is acknowledged or has failed too often. A domain state machine moves along the
-- transitions of a definition, which an analyzer reads as a graph. Money is an exact amount in
-- minor units. The package states each store as a port and ships an in-memory reference
-- implementation; these implementations, the aggregate base classes, the projector, the state
-- machine and money are modelled here.
--
-- Files and code. The files below a module hold its lemmas, and its runs in Tests.
--   AggregateAddress  src/aggregate/aggregate-address.ts: the address of an aggregate and its
--                     key, which the stores, the identity map and the projector share.
--   EventSourced      src/aggregate/event-sourced-aggregate.ts and the part of
--                     src/aggregate/base-aggregate.ts that it stands on. Types has the state
--                     and the methods that a subclass supplies; the parent has loading,
--                     restoring, applying, snapshots and the acknowledgement of events.
--   EventStore        src/repo/in-memory-event-store.ts: appending and reading. Reading also has
--                     the paging loop that the port documents in src/repo/event-store.ts.
--   Snapshots         src/repo/in-memory-snapshot-store.ts: saving, loading, deleting, expiry
--                     and the eviction of the least recently used snapshot.
--   IdentityMap       src/repo/identity-map.ts: registering, looking up and deleting the
--                     instances of one unit of work, and the report of changed ones.
--   Idempotency       src/app/in-memory-idempotency-store.ts, with the types of
--                     src/app/idempotency.ts: claiming, completing, confirming, renewing,
--                     abandoning and reconciling. Creation has the constructor and the record
--                     of a new claim.
--   Deadlines         src/deadlines/in-memory-deadline-store.ts, with the types of
--                     src/deadlines/deadline-store.ts: scheduling, cancelling, the page of due
--                     deadlines, acknowledging, failure reports and dead letters.
--   Checkpoints       src/projections/in-memory-checkpoint-store.ts, and the checkpoint types
--                     and the order of positions from src/projections/ports.ts.
--   Projector         src/projections/projector.ts: projecting a batch. Positions has the
--                     envelopes and the tests on positions, Planning the guards of a batch and
--                     its plan, the parent the effects. The checkpoint port is a parameter,
--                     which Projector/Tests fills with the store of Checkpoints.
--   Outbox            src/events/outbox.ts, the in-memory outbox, with the types of
--                     src/events/ports.ts. Cursors has the order of commits of one source and
--                     the position after another, Guards the checks of a batch before anything
--                     is added; the parent has add, the page of pending events, marking as
--                     dispatched or failed, and dead letters. Its positions are those that
--                     Projector compares.
--   DomainStateMachine  src/domain-state-machine: Types has the definition, Callbacks its
--                     validation and the calls of guards and reducers, the parent transitions,
--                     snapshots and the machine, and Analyzer the searches of analyzer.ts over
--                     the graph of transitions.
--   Money             src/money: Types has the values and their validation (money.ts, errors.ts),
--                     Arithmetic arithmetic.ts, Text the decimal strings of money.ts and
--                     parse.ts, and Conversions the transfer object of money.ts, snapshot.ts and
--                     factory.ts.
--   Base              What these share: capacity guards (src/utils and the options of the
--                     stores), JavaScript numbers, strings and maps, results, lists.
--
-- Conventions.
--   * A class is a record of its private fields. A method takes the record and returns its
--     outcome, a value or the error that it throws, and the record after the call, because what
--     a call that throws leaves behind is part of what the code does.
--   * A `Map` is the list of its entries in insertion order (Base/JsMap); the stores depend on
--     that order for eviction and for listings.
--   * A number that the code has validated is a native natural number. A number that a caller
--     passes in and a guard still looks at is a JsNumber: a natural number, a negative one or
--     one that is not an integer. Safe integers end at 2 ^ 53 - 1 where a guard tests it.
--   * The clock and the tokens that a call draws are arguments of that call.
--   * `structuredClone` and `Object.freeze` guard against mutation by a caller. In the model
--     values are not shared, so both are the value itself.
--   * Strings are lists of UTF-16 code units. The JSON text of an address key is kept as the
--     array that it encodes.
--   * What a subclass or an application supplies, like event handlers, conversions of
--     snapshots, projections and the checkpoint port, is a parameter.
--
-- Fuel. Loops are structural recursion on the list that they run over, except for two that run
-- on fuel. In the paging loop of EventStore/Reading each round reads at least one event or is the
-- last one, so one round more than the stream has events is enough. The search of
-- DomainStateMachine/Analyzer takes one state off its queue in each round and pushes each edge
-- at most once, so the number of its start states and of the edges is enough.
--
-- Not modelled.
--   * Promise queues and locks inside the stores: they serialize callers within one process, and
--     each call is one step of the model.
--   * Transactions, abort signals and retrying scopes, which belong to the caller of these parts.
--   * The aggregate root that stores its state, entities, the dispatcher that polls the
--     outbox, the unit of work, the deadline processor, and the command, query and event
--     buses: parts of their own, which the modelled parts do not call.
--   * The tests of src/domain-state-machine on the shape of definitions and snapshots, and its deep
--     copies: whether a value can be copied is a parameter, the copy is the value.
--   * src/money/try-parse.ts, whose functions return the result type of another package, and
--     src/money/format.ts and the scale resolver of factory.ts that rest on Intl.
--   * HTTP and presentation helpers, contract test suites for adapters, deep freezing and deep
--     comparison, and the examples.
pub mod Base
pub mod AggregateAddress
pub mod EventStore
pub mod Idempotency
pub mod Deadlines
pub mod Snapshots
pub mod EventSourced
pub mod IdentityMap
pub mod Checkpoints
pub mod Projector
pub mod Outbox
pub mod DomainStateMachine
pub mod Money
