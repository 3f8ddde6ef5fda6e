-- ===== src/Outbox.antt =====
-- src/events/outbox.ts: the in-memory reference implementation of the outbox. A call gives its
-- outcome and the outbox that it leaves behind; a call of `add` that throws leaves what the events
-- before the refused one have written.
mod Types
mod Cursors
mod Guards
pub mod Linking
pub mod Harvest
mod Tests
pub mod Partial
pub mod Acknowledged
pub mod Cases
pub mod Receipts
pub mod Admission
unfoldable pub use Types.*
unfoldable pub use Cursors.*
unfoldable pub use Guards.*
use ddd_kit_ts.Base.{
  ℕ, ◌+◌, Bool, true, false, Option, none, some, List, [], ◌∷◌, ◌++◌, map, length, take, ltb, leb,
  ◌==◌, if◌then◌else◌, Outcome, ok, throws, ◌>>=◌, get_or, ℕ_discrete,
}
use ddd_kit_ts.Base.Capacity.{over_limit}
use ddd_kit_ts.Base.JsMap
use ddd_kit_ts.Base.JsMap.{JsMap}
use ddd_kit_ts.Base.JsNumber.{JsNumber, assert_optional_limit, assert_positive_integer}
use ddd_kit_ts.Base.JsString.{JsString, JsString-discrete, str_eq}
use ddd_kit_ts.AggregateAddress.{
  AggregateAddress, AddressKey, AddressKey-discrete, encode_aggregate_address,
}
use ddd_kit_ts.Checkpoints.{CommitPosition}

-- `while (size > max)`: drop the oldest entry.
unfoldable pub evict : {V : Type 0} → ℕ → JsMap JsString V → JsMap JsString V
evict max [] = []
evict max (e ∷ m) = let rest = evict max m in if ltb max (JsMap.size (e ∷ m)) then rest else e ∷ m

module _ {P : Type 0} where
  unfoldable pub new :
      (max_delivery_attempts max_retained max_records max_sources : Option JsNumber)
      → Outcome Error (InMemoryOutbox P)
  unfolding assert_positive_integer assert_optional_limit
  new max_delivery_attempts max_retained max_records max_sources = do
    max ←
        assert_positive_integer Error.invalid_option (get_or max_delivery_attempts (JsNumber.int 5))
    retained ←
        assert_positive_integer Error.invalid_option (get_or max_retained (JsNumber.int 10000))
    records_limit ← assert_optional_limit Error.invalid_option max_records
    sources_limit ← assert_optional_limit Error.invalid_option max_sources
    ok (record {
      pending = [];
      dead = [];
      source_cursors = [];
      dispatched_event_ids = [];
      max_delivery_attempts = max;
      max_retained_dispatched_event_ids = retained;
      max_records = records_limit;
      max_sources = sources_limit;
    })

  -- The new receipt is the youngest.
  unfoldable pub remember_dispatched :
      InMemoryOutbox P
      → JsString
      → AggregateAddress
      → EventCommitCandidatePosition
      → InMemoryOutbox P
  unfolding evict JsString-discrete
  remember_dispatched s event_id source position = record s {
    dispatched_event_ids = evict s.max_retained_dispatched_event_ids (
        JsMap.set JsString-discrete event_id (record { source = source; position = position })
          (JsMap.delete JsString-discrete event_id s.dispatched_event_ids));
  }

  -- A dead letter goes back to the pending records as it was committed.
  unfoldable pub requeue : InMemoryOutbox P → JsString → DeadLetterRecord P → InMemoryOutbox P
  unfolding JsString-discrete
  requeue s event_id letter = record s {
    dead = JsMap.delete JsString-discrete event_id s.dead;
    pending =
        JsMap.set JsString-discrete event_id
          (record {
            dispatch_id = letter.dispatch_id;
            event = letter.event;
            source = letter.source;
            position = letter.position;
            attempts = 0;
            last_error = none;
          })
          s.pending;
  }

  -- The record of a candidate: a pending one keeps its id and the state of its delivery.
  abbrev pub tracked :
      Option (TrackedRecord P) → EventCommitCandidate P → Option ℕ → TrackedRecord P
  tracked (some existing) c previous = record existing {
    event = c.event;
    source = c.source;
    position = finalized c.position previous;
  }
  tracked none c previous = record {
    dispatch_id = c.event.event_id;
    event = c.event;
    source = c.source;
    position = finalized c.position previous;
    attempts = 0;
    last_error = none;
  }

  -- The rest of the loop's body, for an event that is not a dead letter.
  unfoldable pub add_record :
      InMemoryOutbox P
      → EventCommitCandidate P
      → Option (TrackedRecord P)
      → Outcome Error (InMemoryOutbox P)
  unfolding stale_head assert_place_at link JsString-discrete AddressKey-discrete
  add_record s c existing =
      let key = encode_aggregate_address c.source in
      let cursor = JsMap.get AddressKey-discrete key s.source_cursors in
      elim (stale_head (position_of existing) cursor c.position.aggregate_version) [
        | some head ↦
            throws (Error.stale_event c.event.event_id c.source c.position.aggregate_version head)
        | none ↦ assert_place_at cursor c >>= λ _.
            let linked = link (position_of existing) cursor c.position c.event.event_id in
            ok (record s {
              source_cursors = write_cursor key linked.1 s.source_cursors;
              pending =
                  JsMap.set JsString-discrete c.event.event_id (tracked existing c linked.0)
                    s.pending;
            })
      ]

  -- The body of the loop of `add`; what it throws it throws before it writes.
  unfoldable pub add_one :
      InMemoryOutbox P → EventCommitCandidate P → Outcome Error (InMemoryOutbox P)
  unfolding assert_same_receipt remember_dispatched requeue add_record JsString-discrete
  add_one s c =
      let id = c.event.event_id in
      elim (JsMap.get JsString-discrete id s.dispatched_event_ids) [
        | some receipt ↦ assert_same_receipt c receipt.source receipt.position false >>= λ _.
            ok (remember_dispatched s id receipt.source receipt.position)
        | none ↦ assert_pending_receipt c (JsMap.get JsString-discrete id s.pending) >>= λ _.
            elim (JsMap.get JsString-discrete id s.dead) [
              | some letter ↦ assert_dead_receipt c (some letter) >>= λ _. ok (requeue s id letter)
              | none ↦ add_record s c (JsMap.get JsString-discrete id s.pending)
            ]
      ]

  unfoldable pub add_all :
      InMemoryOutbox P → List (EventCommitCandidate P) → Outcome Error (Unit {0}) × InMemoryOutbox P
  unfolding add_one
  add_all s [] = (ok tt, s)
  add_all s (c ∷ cs) = elim (add_one s c) [ throws e ↦ (throws e, s) | ok s' ↦ add_all s' cs ]

  unfoldable pub add :
      InMemoryOutbox P → List (EventCommitCandidate P) → Outcome Error (Unit {0}) × InMemoryOutbox P
  unfolding assert_batch add_all
  add s cs = elim (assert_batch s cs) [ throws e ↦ (throws e, s) | ok _ ↦ add_all s cs ]

  abbrev pub visible : TrackedRecord P → OutboxRecord P
  visible r = record {
    dispatch_id = r.dispatch_id;
    event = r.event;
    source = r.source;
    position = r.position;
    attempts = r.attempts;
  }

  unfoldable pub get_pending : InMemoryOutbox P → Option Limit → List (OutboxRecord P)
  get_pending s none = map visible (JsMap.values s.pending)
  get_pending s (some Limit.infinity) = map visible (JsMap.values s.pending)
  get_pending s (some Limit.nan) = []
  get_pending s (some Limit.below_zero) = []
  get_pending s (some (Limit.up_to n)) = map visible (take n (JsMap.values s.pending))

  -- One id of `markDispatched`: a pending record, or else a dead letter, leaves a receipt.
  unfoldable pub mark_dispatched_one : InMemoryOutbox P → JsString → InMemoryOutbox P
  unfolding remember_dispatched JsString-discrete
  mark_dispatched_one s id =
      let s' : InMemoryOutbox P = elim (JsMap.get JsString-discrete id s.pending) [
        | some r ↦ remember_dispatched s id r.source (candidate_position r.position)
        | none ↦ elim (JsMap.get JsString-discrete id s.dead) [
          | some letter ↦
              remember_dispatched s id letter.source (candidate_position letter.position)
          | none ↦ s
        ]
      ] in
      record s' {
        pending = JsMap.delete JsString-discrete id s.pending;
        dead = JsMap.delete JsString-discrete id s.dead;
      }

  unfoldable pub mark_dispatched : InMemoryOutbox P → List JsString → InMemoryOutbox P
  unfolding mark_dispatched_one
  mark_dispatched s [] = s
  mark_dispatched s (id ∷ ids) = mark_dispatched (mark_dispatched_one s id) ids

  abbrev pub letter_of : TrackedRecord P → JsString → DeadLetterRecord P
  letter_of r text = record {
    dispatch_id = r.dispatch_id;
    event = r.event;
    source = r.source;
    position = r.position;
    attempts = r.attempts + 1;
    last_error = text;
  }

  -- `text` is the message of the error, or what `String` makes of another value.
  unfoldable pub mark_failed :
      InMemoryOutbox P
      → JsString
      → (text : JsString) → Option (DeadLetterRecord P) × InMemoryOutbox P
  unfolding JsString-discrete
  mark_failed s id text = elim (JsMap.get JsString-discrete id s.pending) [
    | none ↦ (none, s)
    | some r ↦
        if leb s.max_delivery_attempts (r.attempts + 1)
        then (
          some (letter_of r text),
          record s {
            pending = JsMap.delete JsString-discrete id s.pending;
            dead = JsMap.set JsString-discrete id (letter_of r text) s.dead;
          },
        )
        else (
          none,
          record s {
            pending =
                JsMap.set JsString-discrete id
                  (record r { attempts = r.attempts + 1; last_error = some text }) s.pending;
          },
        )
  ]

  unfoldable pub dead_letters : InMemoryOutbox P → List (DeadLetterRecord P)
  dead_letters s = JsMap.values s.dead
