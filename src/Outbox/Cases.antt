-- ===== src/Outbox/Cases.antt =====
-- What `add` can do to the outbox for one event.
use ddd_kit_ts.Base.{
  ◌≡◌, inl, inr, sym, Option, none, some, false, ok, bind_ok, ok-inj, ok-throws, Option-cases,
}
use ddd_kit_ts.Base.JsMap
use ddd_kit_ts.Base.JsMap.{JsMap}
use ddd_kit_ts.Base.JsString.{JsString-discrete}
use ddd_kit_ts.AggregateAddress.{AddressKey-discrete, encode_aggregate_address}
use ddd_kit_ts.Outbox.{
  EventCommitCandidate, EventSourceCursor, TrackedRecord, DeadLetterRecord, DispatchedEventReceipt,
  InMemoryOutbox, add_one, add_record, remember_dispatched, requeue, stale_head, assert_place_at,
  link, tracked, position_of, write_cursor, assert_same_receipt, assert_pending_receipt,
  assert_dead_receipt,
}

module _ {P : Type 0} (s : InMemoryOutbox P) (c : EventCommitCandidate P) where
  abbrev pub cursor_of : Option EventSourceCursor
  cursor_of = JsMap.get AddressKey-discrete (encode_aggregate_address c.source) s.source_cursors

  -- The outbox with the record of a candidate, linked to its predecessor.
  abbrev pub recorded : Option (TrackedRecord P) → InMemoryOutbox P
  recorded existing =
      let linked = link (position_of existing) cursor_of c.position c.event.event_id in
      record s {
        source_cursors = write_cursor (encode_aggregate_address c.source) linked.1 s.source_cursors;
        pending =
            JsMap.set JsString-discrete c.event.event_id (tracked existing c linked.0) s.pending;
      }

  add_record_ok :
      (existing : Option (TrackedRecord P)) (s' : InMemoryOutbox P)
      → add_record s c existing ≡ ok s'
      → recorded existing ≡ s'
  unfolding add_record
  add_record_ok existing s' h =
      elim (Option-cases
        (stale_head (position_of existing) cursor_of c.position.aggregate_version)) [
          | inr (head, e) ↦ absurd (ok-throws _ (sym (rw (e, add_record) at h)))
          | inl e ↦
              let h' = (rw (e, add_record) at h) in
              let (_, _, final) = bind_ok (assert_place_at cursor_of c) _ s' h' in
              ok-inj (recorded existing) s' final
        ]

  -- The event is acknowledged already; or it is a dead letter; or it gets a record.
  pub data Effect (s' : InMemoryOutbox P) : Type 0 where
    refreshed :
        (receipt : DispatchedEventReceipt)
        → JsMap.get JsString-discrete c.event.event_id s.dispatched_event_ids ≡ some receipt
        → remember_dispatched s c.event.event_id receipt.source receipt.position ≡ s'
        → Effect s'
    requeued :
        (letter : DeadLetterRecord P)
        → JsMap.get JsString-discrete c.event.event_id s.dispatched_event_ids ≡ none
        → JsMap.get JsString-discrete c.event.event_id s.dead ≡ some letter
        → requeue s c.event.event_id letter ≡ s'
        → Effect s'
    written :
        JsMap.get JsString-discrete c.event.event_id s.dispatched_event_ids ≡ none
        → JsMap.get JsString-discrete c.event.event_id s.dead ≡ none
        → recorded (JsMap.get JsString-discrete c.event.event_id s.pending) ≡ s'
        → Effect s'

  pub add_one-Effect : (s' : InMemoryOutbox P) → add_one s c ≡ ok s' → Effect s'
  unfolding add_one
  add_one-Effect s' h =
      elim (Option-cases (JsMap.get JsString-discrete c.event.event_id s.dispatched_event_ids)) [
        | inr (receipt, e) ↦
            let h' = (rw (e, add_one) at h) in
            let (_, _, final) =
              bind_ok (assert_same_receipt c receipt.source receipt.position false) _ s' h' in
            refreshed receipt e (ok-inj _ s' final)
        | inl e ↦
            let h' = (rw (e, add_one) at h) in
            let (_, _, final) =
              bind_ok
                (assert_pending_receipt c (JsMap.get JsString-discrete c.event.event_id s.pending))
                _ s' h' in
            elim (Option-cases (JsMap.get JsString-discrete c.event.event_id s.dead)) [
              | inr (letter, d) ↦
                  let h'' = (rw d at final) in
                  let (_, _, last) = bind_ok (assert_dead_receipt c (some letter)) _ s' h'' in
                  requeued letter e d (ok-inj _ s' last)
              | inl d ↦
                  let h'' = (rw d at final) in
                  written e d
                    (add_record_ok (JsMap.get JsString-discrete c.event.event_id s.pending) s' h'')
            ]
      ]
