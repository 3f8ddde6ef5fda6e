-- ===== src/EventStore.antt =====
-- src/repo/in-memory-event-store.ts: the reference implementation of the event-store port of
-- src/repo/event-store.ts. A method gives its outcome and the store that it leaves behind.
pub mod Invariant
pub mod Append
pub mod Reading
mod Tests
use ddd_kit_ts.Base.{
  ℕ, ◌+◌, ◌-◌, Bool, true, false, not, ◌&&◌, ◌||◌, Option, none, some, List, [], ◌∷◌, ◌++◌, min,
  length, take, drop, ltb, leb, ◌==◌, if◌then◌else◌, Outcome, ok, throws, ◌>>=◌, get_or,
}
use ddd_kit_ts.Base.Capacity.{CapacityExceeded, over_limit}
use ddd_kit_ts.Base.JsNumber.{JsNumber, max_safe_integer, assert_optional_limit}
use ddd_kit_ts.Base.JsMap
use ddd_kit_ts.Base.JsMap.{JsMap}
use ddd_kit_ts.AggregateAddress.{
  AggregateAddress, AddressKey, AddressKey-discrete, encode_aggregate_address,
}

pub data Resource : Type 0 where
  stream_records event_records : Resource

-- `ConcurrencyConflictError` carries the address and both versions; `range_error` is the
-- `RangeError` of an option out of range.
pub data Error : Type 0 where
  concurrency_conflict : AggregateAddress → ℕ → ℕ → Error
  capacity_exceeded : CapacityExceeded Resource → Error
  range_error : Error

pub record InMemoryEventStore (Evt : Type 0) : Type 0 where
  pub streams : JsMap AddressKey (List Evt)
  pub max_streams : Option ℕ
  pub max_events : Option ℕ
  pub total_events : ℕ

pub record ReadStreamOptions : Type 0 where
  pub limit : JsNumber
  pub from_version : Option JsNumber
  pub to_version : Option JsNumber

pub record StreamReadResult (Evt : Type 0) : Type 0 where
  pub exists : Bool
  pub last_version : ℕ
  pub events : List Evt

-- `assertStreamPosition`: the position, if it is one.
unfoldable pub assert_stream_position : Option JsNumber → Outcome Error (Option ℕ)
assert_stream_position none = ok none
assert_stream_position (some (JsNumber.int n)) =
    if leb n max_safe_integer then ok (some n) else throws range_error
assert_stream_position (some _) = throws range_error

-- `Number.isSafeInteger(limit) && limit >= 1`
unfoldable pub assert_page_limit : JsNumber → Outcome Error ℕ
assert_page_limit (JsNumber.int n) =
    if leb 1 n && leb n max_safe_integer then ok n else throws range_error
assert_page_limit _ = throws range_error

-- `Array.prototype.slice` at positions that are not negative.
unfoldable pub slice {ℓ} : {A : Type ℓ} → ℕ → ℕ → List A → List A
slice start stop xs = take (stop - start) (drop start xs)

module _ {Evt : Type 0} where
  -- The constructor.
  unfoldable pub new : Option JsNumber → Option JsNumber → Outcome Error (InMemoryEventStore Evt)
  unfolding assert_optional_limit
  new max_streams max_events = do
    streams_limit ← assert_optional_limit range_error max_streams
    events_limit ← assert_optional_limit range_error max_events
    ok (record {
      streams = [];
      max_streams = streams_limit;
      max_events = events_limit;
      total_events = 0;
    })

  -- `this.streams.get(key)`
  abbrev pub stored : InMemoryEventStore Evt → AggregateAddress → Option (List Evt)
  stored s stream = JsMap.get AddressKey-discrete (encode_aggregate_address stream) s.streams

  -- `existing?.length ?? 0`
  abbrev pub stored_version : Option (List Evt) → ℕ
  stored_version none = 0
  stored_version (some events) = length events

  -- The stream limit counts only a stream that is not there yet.
  abbrev pub streams_full :
      InMemoryEventStore Evt → Option (List Evt) → Option (CapacityExceeded Resource)
  streams_full s none = over_limit stream_records s.max_streams (JsMap.size s.streams) 1
  streams_full s (some _) = none

  -- The get-or-create, the pushes and the count at the end of `append`.
  pub write :
      InMemoryEventStore Evt → AddressKey → Option (List Evt) → List Evt → InMemoryEventStore Evt
  write s key existing events = record s {
    streams = JsMap.set AddressKey-discrete key (get_or existing [] ++ events) s.streams;
    total_events = s.total_events + length events;
  }

  unfoldable pub append :
      InMemoryEventStore Evt
      → AggregateAddress
      → List Evt
      → ℕ
      → Outcome Error (Unit {0}) × InMemoryEventStore Evt
  unfolding write
  append s stream events expected_version =
      if length events == 0
      then (ok tt, s)
      else let existing = stored s stream in
        let actual_version = stored_version existing in
        if not (actual_version == expected_version)
        then (throws (concurrency_conflict stream expected_version actual_version), s)
        else elim (streams_full s existing) [
          | some full ↦ (throws (capacity_exceeded full), s)
          | none ↦ elim (over_limit event_records s.max_events s.total_events (length events)) [
            | some full ↦ (throws (capacity_exceeded full), s)
            | none ↦ (ok tt, write s (encode_aggregate_address stream) existing events)
          ]
        ]

  page : Option (List Evt) → ℕ → ℕ → Option ℕ → StreamReadResult Evt
  unfolding slice
  page none limit from_version to_version = record { exists = false; last_version = 0; events = [] }
  page (some events) limit from_version to_version =
      let page_end = min (get_or to_version (length events)) (from_version + limit) in
      record {
        exists = true;
        last_version = length events;
        events = slice from_version page_end events;
      }

  unfoldable pub read_stream :
      InMemoryEventStore Evt
      → AggregateAddress
      → ReadStreamOptions
      → Outcome Error (StreamReadResult Evt)
  unfolding assert_page_limit assert_stream_position page
  read_stream s stream options = do
    limit ← assert_page_limit options.limit
    from_version ← assert_stream_position options.from_version
    to_version ← assert_stream_position options.to_version
    ok (page (stored s stream) limit (get_or from_version 0) to_version)
