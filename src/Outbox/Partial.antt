-- ===== src/Outbox/Partial.antt =====
-- A batch that is refused halfway.
use ddd_kit_ts.Base.{
  ◌≡◌, ◌≢◌, ◌<◌, lt→ltb, refl, ◌∙◌, Option, none, some, [], ◌∷◌, ◌++◌, arith, ok, throws,
}
use ddd_kit_ts.Base.JsMap
use ddd_kit_ts.Base.JsMap.{JsMap}
use ddd_kit_ts.Base.JsMap.Laws.{get-set_ne}
use ddd_kit_ts.AggregateAddress.{AddressKey, AddressKey-discrete, encode_aggregate_address}
use ddd_kit_ts.Checkpoints.{CommitPosition}
use ddd_kit_ts.Outbox.{
  EventCommitCandidate, EventSourceCursor, InMemoryOutbox, Error, add, add_all, add_one, add_record,
  assert_batch, assert_capacity, assert_positions, simulate_one, simulated_cursor, cursor_seen,
  stale_head,
}
use ddd_kit_ts.Outbox.Linking.{Sequel, last_of, link_next}
use ddd_kit_ts.Outbox.Harvest.{
  IsNew, HeadAt, events, added, add_one-IsNew, add_one_next, IsNew-added, events-added,
}
use ddd_kit_ts.Outbox.Admission.{assert_receipts_new, NotIn-nil}

module _ {P : Type 0} (s : InMemoryOutbox P) (a b : EventCommitCandidate P) (u : EventSourceCursor)
    (behind : b.position.aggregate_version < u.aggregate_version) where
  -- The simulation of the cursors passes over an event behind the head of its source.
  simulated-behind : simulated_cursor (some u) b ≡ ok none
  unfolding simulated_cursor
  simulated-behind = ground arith

  -- The loop refuses it.
  add_one-behind :
      IsNew s b.event.event_id
      → JsMap.get AddressKey-discrete (encode_aggregate_address b.source) s.source_cursors ≡ some u
      → add_one s b
        ≡ throws (
            Error.stale_event b.event.event_id b.source b.position.aggregate_version
              u.aggregate_version)
  unfolding add_record stale_head
  add_one-behind new h = add_one-IsNew s b new ∙ rw (h, add_record, lt→ltb _ _ behind) refl

module _ {P : Type 0} where
  assert_positions_partial :
      (s : InMemoryOutbox P) (a b : EventCommitCandidate P) (w : Option CommitPosition)
      (u : EventSourceCursor)
      → HeadAt s (encode_aggregate_address a.source) w
      → Sequel (last_of w) a.position
      → encode_aggregate_address a.source ≢ encode_aggregate_address b.source
      → JsMap.get AddressKey-discrete (encode_aggregate_address b.source) s.source_cursors ≡ some u
      → b.position.aggregate_version < u.aggregate_version
      → assert_positions s [] (a ∷ b ∷ []) ≡ ok tt
  unfolding assert_positions simulate_one cursor_seen
  assert_positions_partial s a b w u head sequel other h behind =
      let ka = encode_aggregate_address a.source in
      let kb = encode_aggregate_address b.source in
      let l = link_next (JsMap.get AddressKey-discrete ka s.source_cursors) w a head sequel in
      let moved : JsMap AddressKey EventSourceCursor =
        JsMap.set AddressKey-discrete ka l.cursor' [] in
      let first : simulate_one s [] a ≡ ok moved = rw (l.simulated, simulate_one) refl in
      let seen : cursor_seen s moved kb ≡ some u =
        rw (get-set_ne AddressKey-discrete ka kb l.cursor' [] other, cursor_seen) h in
      let second : simulate_one s moved b ≡ ok moved =
        rw (seen, simulate_one, simulated-behind s a b u behind) refl in
      rw (first, assert_positions, second) refl

  -- A batch whose second event lies behind the head of its own source throws that this event is
  -- stale, although by then the first event, of another source, has been added.
  pub stale_batch_is_partial :
      (s : InMemoryOutbox P) (a b : EventCommitCandidate P) (w : Option CommitPosition)
      (u : EventSourceCursor)
      → IsNew s a.event.event_id
      → IsNew s b.event.event_id
      → a.event.event_id ≢ b.event.event_id
      → HeadAt s (encode_aggregate_address a.source) w
      → Sequel (last_of w) a.position
      → encode_aggregate_address a.source ≢ encode_aggregate_address b.source
      → JsMap.get AddressKey-discrete (encode_aggregate_address b.source) s.source_cursors ≡ some u
      → b.position.aggregate_version < u.aggregate_version
      → assert_capacity s (a ∷ b ∷ []) ≡ ok tt
      → ((add s (a ∷ b ∷ [])).0
          ≡ throws (
              Error.stale_event b.event.event_id b.source b.position.aggregate_version
                u.aggregate_version))
        × (events (add s (a ∷ b ∷ [])).1 ≡ events s ++ a.event ∷ [])
  unfolding add add_all assert_batch
  stale_batch_is_partial s a b w u new_a new_b ne head sequel other h behind room =
      let ka = encode_aggregate_address a.source in
      let kb = encode_aggregate_address b.source in
      let l = link_next (JsMap.get AddressKey-discrete ka s.source_cursors) w a head sequel in
      let s' = added s a w l.cursor' in
      let receipts =
        assert_receipts_new (a ∷ b ∷ []) s [] (new_a, (new_b, tt)) ((ne, tt), (tt, tt))
          (NotIn-nil (a ∷ b ∷ [])) in
      let passed : assert_batch s (a ∷ b ∷ []) ≡ ok tt =
        rw (receipts, assert_positions_partial s a b w u head sequel other h behind) room in
      let first : add_one s a ≡ ok s' = add_one_next s a w new_a l in
      let second =
        add_one-behind s' a b u behind (IsNew-added s a w l.cursor' b.event.event_id ne new_b)
          (get-set_ne AddressKey-discrete ka kb l.cursor' s.source_cursors other ∙ h) in
      rw (passed, add, first, add_all, second, add_all) (refl, events-added s a w l.cursor' new_a)
