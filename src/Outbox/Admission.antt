-- ===== src/Outbox/Admission.antt =====
-- The guards of a batch, for the next events of one source.
use mathlib.Core.Path.{subst}
use ddd_kit_ts.Base.{
  ◌≡◌, ◌≢◌, refl, sym, ◌∙◌, Option, none, some, List, [], ◌∷◌, ◌++◌, map, arith, ok, All,
}
use ddd_kit_ts.Base.JsMap
use ddd_kit_ts.Base.JsMap.{JsMap}
use ddd_kit_ts.Base.JsMap.Laws.{get-set_ne, get-set_self}
use ddd_kit_ts.Base.JsString.{JsString, JsString-discrete}
use ddd_kit_ts.AggregateAddress.{AddressKey, AddressKey-discrete, encode_aggregate_address}
use ddd_kit_ts.Checkpoints.{CommitPosition}
use ddd_kit_ts.Outbox.{
  EventCommitCandidate, EventSourceCursor, DispatchedEventReceipt, InMemoryOutbox,
  assert_known_receipt, cursor_seen, receipt_in_batch, assert_receipts, simulate_one,
  assert_positions, assert_capacity, assert_batch, add,
}
use ddd_kit_ts.Projector.Chain.{Chain}
use ddd_kit_ts.Outbox.Linking.{
  Sequel, last_of, CursorAt, next_position, last_of-next_position, link_next,
}
use ddd_kit_ts.Outbox.Harvest.{
  IsNew, AllNew, IsDistinct, IsHarvest, HeadAt, add_all_next, positions, events,
}

module _ {P : Type 0} where
  -- Nothing is recorded of an event that is new, so there is nothing that it could contradict.
  assert_known_receipt-IsNew :
      (s : InMemoryOutbox P) (c : EventCommitCandidate P)
      → IsNew s c.event.event_id
      → assert_known_receipt s c ≡ ok tt
  unfolding assert_known_receipt
  assert_known_receipt-IsNew s c (pending, dead, dispatched) =
      ground (arith, pending, dead, dispatched)

  abbrev pub NotIn : JsMap JsString DispatchedEventReceipt → EventCommitCandidate P → Type 0
  NotIn batch c = JsMap.get JsString-discrete c.event.event_id batch ≡ none

  pub NotIn-nil : (cs : List (EventCommitCandidate P)) → All (NotIn []) cs
  NotIn-nil [] = tt
  NotIn-nil (c ∷ cs) = (refl, NotIn-nil cs)

  NotIn-set :
      (batch : JsMap JsString DispatchedEventReceipt) (c : EventCommitCandidate P)
      (r : DispatchedEventReceipt) (cs : List (EventCommitCandidate P))
      → All (λ d. c.event.event_id ≢ d.event.event_id) cs
      → All (NotIn batch) cs
      → All (NotIn (JsMap.set JsString-discrete c.event.event_id r batch)) cs
  NotIn-set batch c r [] ne h = tt
  NotIn-set batch c r (d ∷ cs) ne h = (
    get-set_ne JsString-discrete c.event.event_id d.event.event_id r batch ne.0 ∙ h.0,
    NotIn-set batch c r cs ne.1 h.1,
  )

  pub assert_receipts_new :
      (cs : List (EventCommitCandidate P)) (s : InMemoryOutbox P)
      (batch : JsMap JsString DispatchedEventReceipt)
      → AllNew s cs
      → IsDistinct cs
      → All (NotIn batch) cs
      → assert_receipts s batch cs ≡ ok tt
  unfolding assert_receipts receipt_in_batch
  assert_receipts_new [] s batch new distinct out = refl
  assert_receipts_new (c ∷ cs) s batch (new, news) (ne, distinct) (out, outs) =
      let receipt : DispatchedEventReceipt = record { source = c.source; position = c.position } in
      rw (out, receipt_in_batch, assert_known_receipt-IsNew s c new)
        (assert_receipts_new cs s (JsMap.set JsString-discrete c.event.event_id receipt batch) news
          distinct (NotIn-set batch c receipt cs ne outs))

  -- The simulation accepts the next event of a source, and then sees it at the head.
  pub record Simulated (s : InMemoryOutbox P) (simulated : JsMap AddressKey EventSourceCursor)
      (c : EventCommitCandidate P) (w : Option CommitPosition) : Type 0 where
    pub next : JsMap AddressKey EventSourceCursor
    pub accepted : simulate_one s simulated c ≡ ok next
    pub at_next :
        CursorAt
          (cursor_seen s next (encode_aggregate_address c.source))
          (some (next_position w c.position))

  cursor_seen-set :
      (s : InMemoryOutbox P) (key : AddressKey) (cursor : EventSourceCursor)
      (simulated : JsMap AddressKey EventSourceCursor)
      → cursor_seen s (JsMap.set AddressKey-discrete key cursor simulated) key ≡ some cursor
  unfolding cursor_seen
  cursor_seen-set s key cursor simulated =
      rw (get-set_self AddressKey-discrete key cursor simulated, cursor_seen) refl

  pub simulate_one_next :
      (s : InMemoryOutbox P) (simulated : JsMap AddressKey EventSourceCursor)
      (c : EventCommitCandidate P) (w : Option CommitPosition)
      → CursorAt (cursor_seen s simulated (encode_aggregate_address c.source)) w
      → Sequel (last_of w) c.position
      → Simulated s simulated c w
  unfolding simulate_one
  simulate_one_next s simulated c w at h =
      let key = encode_aggregate_address c.source in
      let l = link_next (cursor_seen s simulated key) w c at h in
      record {
        next = JsMap.set AddressKey-discrete key l.cursor' simulated;
        accepted = rw (l.simulated, simulate_one) refl;
        at_next =
            subst (λ o. CursorAt o (some (next_position w c.position)))
              (sym (cursor_seen-set s key l.cursor' simulated)) l.at_next;
      }

  assert_positions_next :
      (cs : List (EventCommitCandidate P)) (s : InMemoryOutbox P)
      (simulated : JsMap AddressKey EventSourceCursor) (key : AddressKey)
      (w : Option CommitPosition)
      → CursorAt (cursor_seen s simulated key) w
      → IsHarvest key (last_of w) cs
      → assert_positions s simulated cs ≡ ok tt
  unfolding assert_positions
  assert_positions_next [] s simulated key w at harvest = refl
  assert_positions_next (c ∷ cs) s simulated key w at (at_key, sequel, harvest) =
      let one = simulate_one_next s simulated c w (rw at_key at) sequel in
      let next = next_position w c.position in
      rw (one.accepted, assert_positions)
        (assert_positions_next cs s one.next key (some next)
          (subst (λ k. CursorAt (cursor_seen s one.next k) (some next)) at_key one.at_next)
          (subst (λ p. IsHarvest key (some p) cs) (sym (last_of-next_position w c.position))
            harvest))

  assert_batch_next :
      (s : InMemoryOutbox P) (key : AddressKey) (w : Option CommitPosition)
      (cs : List (EventCommitCandidate P))
      → AllNew s cs
      → IsDistinct cs
      → HeadAt s key w
      → IsHarvest key (last_of w) cs
      → assert_capacity s cs ≡ ok tt
      → assert_batch s cs ≡ ok tt
  unfolding assert_batch
  assert_batch_next s key w cs new distinct head harvest room =
      rw
        (
          assert_receipts_new cs s [] new distinct (NotIn-nil cs),
          assert_positions_next cs s [] key w (unfold cursor_seen in head) harvest,
        )
        room

  -- Adding the next events of a source, none of which the outbox knows, succeeds if there is room.
  -- It appends them in their order, and their positions are an unbroken chain, as a projector
  -- demands it, from the last position of the source to the one where it then stands.
  pub harvest_is_chained :
      (s : InMemoryOutbox P) (key : AddressKey) (w : Option CommitPosition)
      (cs : List (EventCommitCandidate P))
      → AllNew s cs
      → IsDistinct cs
      → HeadAt s key w
      → IsHarvest key (last_of w) cs
      → assert_capacity s cs ≡ ok tt
      → (linked : List CommitPosition) × (last : Option CommitPosition) × ((add s cs).0 ≡ ok tt)
        × (positions (add s cs).1 ≡ positions s ++ linked)
        × (events (add s cs).1 ≡ events s ++ map (λ c. c.event) cs)
        × Chain w linked last
        × HeadAt (add s cs).1 key last
  unfolding add
  harvest_is_chained s key w cs new distinct head harvest room =
      let h = add_all_next cs s key w new distinct head harvest in
      let passed = assert_batch_next s key w cs new distinct head harvest room in
      (
        h.linked,
        h.last,
        rw (passed, add) h.succeeded,
        rw (passed, add) h.in_order,
        rw (passed, add) h.same_events,
        h.chained,
        rw (passed, add) h.head_at,
      )
