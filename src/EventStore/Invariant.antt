-- ===== src/EventStore/Invariant.antt =====
-- What holds of an event store between two calls, and that every call keeps it.
use ddd_kit_ts.Base.{
  ℕ, ◌+◌, ◌<◌, ◌≡◌, ◌≢◌, refl, sym, throws, none, some, List, [], ◌∷◌, ◌++◌, arith, length,
  length-append, ok, ◌⊎◌, inl, inr, Option-cases,
}
use ddd_kit_ts.Base.Capacity.{Within, over_limit, over_limit-Within, Within-over_limit}
use ddd_kit_ts.Base.JsMap
use ddd_kit_ts.Base.JsMap.{JsMap}
use ddd_kit_ts.Base.JsMap.Laws.{set-IsMap, size-set_new, size-set_old}
use ddd_kit_ts.AggregateAddress.{
  AggregateAddress, AddressKey, AddressKey-discrete, encode_aggregate_address,
}
use ddd_kit_ts.EventStore.{
  InMemoryEventStore, concurrency_conflict, event_records, stream_records, stored, stored_version,
  streams_full, write, append,
}

module _ {Evt : Type 0} where
  -- The number of events over all streams.
  abbrev pub sum_lengths : JsMap AddressKey (List Evt) → ℕ
  sum_lengths [] = 0
  sum_lengths (e ∷ m) = length e.1 + sum_lengths m

  abbrev pub AllNonempty : JsMap AddressKey (List Evt) → Type 0
  AllNonempty [] = Unit
  AllNonempty (e ∷ m) = (0 < length e.1) × AllNonempty m

  pub sum_lengths-set :
      (k : AddressKey) (old new : List Evt) (m : JsMap AddressKey (List Evt))
      → JsMap.get AddressKey-discrete k m ≡ some old
      → sum_lengths (JsMap.set AddressKey-discrete k new m) + length old
        ≡ sum_lengths m + length new
  sum_lengths-set k old new [] h = ground arith
  sum_lengths-set k old new (e ∷ m) h = ground (arith, sum_lengths-set k old new m)

  pub sum_lengths-set_new :
      (k : AddressKey) (new : List Evt) (m : JsMap AddressKey (List Evt))
      → JsMap.get AddressKey-discrete k m ≡ none
      → sum_lengths (JsMap.set AddressKey-discrete k new m) ≡ sum_lengths m + length new
  sum_lengths-set_new k new [] h = omega arith
  sum_lengths-set_new k new (e ∷ m) h = ground (arith, sum_lengths-set_new k new m)

  pub AllNonempty-set :
      (k : AddressKey) (new : List Evt) (m : JsMap AddressKey (List Evt))
      → 0 < length new
      → AllNonempty m
      → AllNonempty (JsMap.set AddressKey-discrete k new m)
  AllNonempty-set k new [] p h = (p, tt)
  AllNonempty-set k new (e ∷ m) p h = ground (arith, AllNonempty-set k new m p h.1)

-- One entry for each address, no empty stream, an exact event count, and both limits kept.
pub record IsValid {Evt : Type 0} (s : InMemoryEventStore Evt) : Type 0 where
  pub is_map : JsMap.IsMap AddressKey-discrete s.streams
  pub nonempty : AllNonempty s.streams
  pub counted : s.total_events ≡ sum_lengths s.streams
  pub streams_bounded : Within (JsMap.size s.streams) s.max_streams
  pub events_bounded : Within s.total_events s.max_events

module _ {Evt : Type 0} (s : InMemoryEventStore Evt) (stream : AggregateAddress) where
  abbrev key : AddressKey
  key = encode_aggregate_address stream

  -- What the guards of `append` have checked when it writes.
  pub record Accepted (events : List Evt) (expected : ℕ) : Type 0 where
    pub some_events : 0 < length events
    pub head_matches : stored_version (stored s stream) ≡ expected
    pub streams_room : streams_full s (stored s stream) ≡ none
    pub events_room : over_limit event_records s.max_events s.total_events (length events) ≡ none
    pub written : append s stream events expected ≡ (ok tt, write s key (stored s stream) events)

  -- Every call leaves the store as it was or has passed all guards.
  pub append_cases :
      (events : List Evt) (expected : ℕ)
      → ((append s stream events expected).1 ≡ s) ⊎ Accepted events expected
  unfolding append
  append_cases events expected = grind arith

  -- The same with the outcome: success is an empty batch or a write.
  pub append_ok_cases :
      (events : List Evt) (expected : ℕ)
      → (append s stream events expected).0 ≡ ok tt
      → ((events ≡ []) × ((append s stream events expected).1 ≡ s)) ⊎ Accepted events expected
  unfolding append
  append_ok_cases [] expected h = inl (refl, refl)
  append_ok_cases (e ∷ es) expected h = grind arith

  pub append_empty : (expected : ℕ) → (append s stream [] expected).0 ≡ ok tt
  unfolding append
  append_empty expected = refl

  pub append_conflict :
      (events : List Evt) (expected : ℕ)
      → 0 < length events
      → stored_version (stored s stream) ≢ expected
      → append s stream events expected
        ≡ (throws (concurrency_conflict stream expected (stored_version (stored s stream))), s)
  unfolding append
  append_conflict events expected p ne = ground arith

  streams_full-none :
      (stored s stream ≡ none → Within (JsMap.size s.streams + 1) s.max_streams)
      → streams_full s (stored s stream) ≡ none
  streams_full-none room = elim (Option-cases (stored s stream)) [
    | inl new ↦ rw new (Within-over_limit stream_records s.max_streams _ 1 (room new))
    | inr (old, found) ↦ rw found
  ]

  -- A batch that meets the conditions is written.
  pub append_accepts :
      (e : Evt) (es : List Evt)
      → (stored s stream ≡ none → Within (JsMap.size s.streams + 1) s.max_streams)
      → Within (s.total_events + length (e ∷ es)) s.max_events
      → (append s stream (e ∷ es) (stored_version (stored s stream))).0 ≡ ok tt
  unfolding append
  append_accepts e es streams_room events_room = ground (
    arith,
    streams_full-none streams_room,
    Within-over_limit event_records s.max_events s.total_events (length (e ∷ es)) events_room,
  )

  pub write-IsValid :
      (events : List Evt) (expected : ℕ)
      → IsValid s
      → Accepted events expected
      → IsValid (write s key (stored s stream) events)
  unfolding write
  write-IsValid events expected v a = elim (Option-cases (stored s stream)) [
    | inl new ↦ rw new (record {
      is_map = set-IsMap AddressKey-discrete key events s.streams v.is_map;
      nonempty = AllNonempty-set key events s.streams a.some_events v.nonempty;
      counted = rw v.counted (sym (sum_lengths-set_new key events s.streams new));
      streams_bounded = rw (size-set_new AddressKey-discrete key events s.streams new) (
          over_limit-Within stream_records s.max_streams (JsMap.size s.streams) 1
            (rw new at a.streams_room));
      events_bounded =
          over_limit-Within event_records s.max_events s.total_events (length events) a.events_room;
    })
    | inr (old, found) ↦ rw found (record {
      is_map = set-IsMap AddressKey-discrete key (old ++ events) s.streams v.is_map;
      nonempty =
          AllNonempty-set key (old ++ events) s.streams
            (omega (arith, a.some_events, length-append old events)) v.nonempty;
      counted = omega (
        arith,
        sum_lengths-set key old (old ++ events) s.streams found,
        v.counted,
        length-append old events,
      );
      streams_bounded =
          rw (size-set_old AddressKey-discrete key (old ++ events) old s.streams found)
            v.streams_bounded;
      events_bounded =
          over_limit-Within event_records s.max_events s.total_events (length events) a.events_room;
    })
  ]

  pub append-IsValid :
      (events : List Evt) (expected : ℕ) → IsValid s → IsValid (append s stream events expected).1
  append-IsValid events expected v = elim (append_cases events expected) [
    | inl same ↦ rw same v
    | inr a ↦ rw a.written (write-IsValid events expected v a)
  ]
