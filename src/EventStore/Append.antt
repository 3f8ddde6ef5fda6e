-- ===== src/EventStore/Append.antt =====
-- Appends against an abstract event log: a function from addresses to the events recorded there.
use ddd_kit_ts.Base.{
  ℕ, ◌+◌, ◌<◌, ◌≡◌, ◌≢◌, ◌↔◌, ◌⊎◌, inl, inr, sym, ap, none, some, List, [], ◌∷◌, ◌++◌, arith,
  length, length-append, ok, throws, get_or,
}
use mathlib.Core.List.{append-nil}
use ddd_kit_ts.Base.Capacity.{Within, over_limit-Within}
use ddd_kit_ts.Base.JsMap
use ddd_kit_ts.Base.JsMap.Laws.{get-set_self, get-set_ne}
use ddd_kit_ts.AggregateAddress.{
  AggregateAddress, AddressKey-discrete, encode_aggregate_address, encode_aggregate_address-inj,
}
use ddd_kit_ts.EventStore.{
  InMemoryEventStore, Error, concurrency_conflict, event_records, stream_records, stored,
  stored_version, write, append,
}
use ddd_kit_ts.EventStore.Invariant.{
  append_cases, append_ok_cases, append_conflict, append_accepts, append_empty,
}

module _ {Evt : Type 0} where
  -- The abstract log that a store stands for: an address with no stream has no events.
  abbrev pub log : InMemoryEventStore Evt → AggregateAddress → List Evt
  log s stream = get_or (stored s stream) []

  stored_version-log :
      (s : InMemoryEventStore Evt) (stream : AggregateAddress)
      → stored_version (stored s stream) ≡ length (log s stream)
  stored_version-log s stream = ground arith

module _ {Evt : Type 0} (s : InMemoryEventStore Evt) (stream : AggregateAddress) where
  stored-write :
      (events : List Evt)
      → stored (write s (encode_aggregate_address stream) (stored s stream) events) stream
        ≡ some (log s stream ++ events)
  unfolding write
  stored-write events =
      get-set_self AddressKey-discrete (encode_aggregate_address stream) (log s stream ++ events)
        s.streams

  stored-write_ne :
      (events : List Evt) (other : AggregateAddress)
      → stream ≢ other
      → stored (write s (encode_aggregate_address stream) (stored s stream) events) other
        ≡ stored s other
  unfolding write
  stored-write_ne events other ne =
      get-set_ne AddressKey-discrete (encode_aggregate_address stream)
        (encode_aggregate_address other) (log s stream ++ events) s.streams
        (λ e. ne (encode_aggregate_address-inj stream other e))

  -- A rejected append leaves the store as it was, whatever the error.
  pub append_rejected :
      (events : List Evt) (expected : ℕ) (e : Error)
      → (append s stream events expected).0 ≡ throws e
      → (append s stream events expected).1 ≡ s
  append_rejected events expected e h = elim (append_cases s stream events expected) [
    | inl same ↦ same
    | inr a ↦ cc (a.written, h)
  ]

  -- An append that succeeds adds its events to the end of its stream and touches no other.
  pub append-log :
      (events : List Evt) (expected : ℕ)
      → (append s stream events expected).0 ≡ ok tt
      → (log (append s stream events expected).1 stream ≡ log s stream ++ events)
        × ((other : AggregateAddress)
            → stream ≢ other
            → log (append s stream events expected).1 other ≡ log s other)
  append-log events expected h = elim (append_ok_cases s stream events expected h) [
    | inl (empty, same) ↦ (rw (same, empty) (sym (append-nil (log s stream))), λ other ne. rw same)
    | inr a ↦ (
      rw (a.written, stored-write events),
      λ other ne. rw (a.written, stored-write_ne events other ne),
    )
  ]

  -- An append succeeds exactly when it has no events, or the head is the expected version and
  -- both limits leave room.
  pub append_ok_iff :
      (events : List Evt) (expected : ℕ)
      → ((append s stream events expected).0 ≡ ok tt) ↔ (
          (events ≡ [])
          ⊎ (length (log s stream) ≡ expected)
            × (stored s stream ≡ none → Within (JsMap.size s.streams + 1) s.max_streams)
            × Within (s.total_events + length events) s.max_events)
  append_ok_iff events expected = (only_if, if_room events)
    where
      only_if :
          (append s stream events expected).0 ≡ ok tt
          → (events ≡ [])
            ⊎ (length (log s stream) ≡ expected)
              × (stored s stream ≡ none → Within (JsMap.size s.streams + 1) s.max_streams)
              × Within (s.total_events + length events) s.max_events
      only_if h = elim (append_ok_cases s stream events expected h) [
        | inl (empty, same) ↦ inl empty
        | inr a ↦ inr (
          omega (arith, stored_version-log s stream, a.head_matches),
          λ new. over_limit-Within stream_records s.max_streams _ 1 (rw new at a.streams_room),
          over_limit-Within event_records s.max_events _ _ a.events_room,
        )
      ]

      if_room :
          (es : List Evt)
          → (es ≡ [])
            ⊎ (length (log s stream) ≡ expected)
              × (stored s stream ≡ none → Within (JsMap.size s.streams + 1) s.max_streams)
              × Within (s.total_events + length es) s.max_events
          → (append s stream es expected).0 ≡ ok tt
      if_room [] h = append_empty s stream expected
      if_room (e ∷ es) (inl h) = cc
      if_room (e ∷ es) (inr (head, streams_room, events_room)) =
          rw (← head, ← stored_version-log s stream)
            (append_accepts s stream e es streams_room events_room)

  -- Of two writers that have read the same version, the second is told of the conflict, with the
  -- version that the first has reached, and writes nothing.
  pub stale_append :
      (first second : List Evt) (expected : ℕ)
      → 0 < length first
      → 0 < length second
      → (append s stream first expected).0 ≡ ok tt
      → append (append s stream first expected).1 stream second expected ≡ (
        throws (concurrency_conflict stream expected (expected + length first)),
        (append s stream first expected).1,
      )
  stale_append first second expected p q h = elim (append_ok_cases s stream first expected h) [
    | inl (empty, same) ↦ absurd (omega (arith, ap length empty))
    | inr a ↦
        let s' = (append s stream first expected).1 in
        let head : stored_version (stored s' stream) ≡ expected + length first =
          rw (a.written, stored-write first)
            (omega (
              arith,
              length-append (log s stream) first,
              stored_version-log s stream,
              a.head_matches,
            )) in
        rw (append_conflict s' stream second expected q (omega (arith, head)), head)
  ]
