-- ===== src/Outbox/Guards.antt =====
-- src/events/outbox.ts: the guards of a batch, which `add` passes before it writes.
use ddd_kit_ts.Base.{
  ◌+◌, Bool, true, false, Option, none, some, List, [], ◌∷◌, length, ltb, if◌then◌else◌, Outcome,
  ok, throws, ◌>>=◌,
}
use ddd_kit_ts.Base.Capacity.{over_limit}
use ddd_kit_ts.Base.JsMap
use ddd_kit_ts.Base.JsMap.{JsMap}
use ddd_kit_ts.Base.JsString.{JsString, JsString-discrete}
use ddd_kit_ts.AggregateAddress.{AddressKey, AddressKey-discrete, encode_aggregate_address}
use ddd_kit_ts.Outbox.Types.{
  EventCommitCandidate, TrackedRecord, DeadLetterRecord, EventSourceCursor, DispatchedEventReceipt,
  Resource, Error, candidate_position, assert_same_receipt, assert_place, InMemoryOutbox,
}
use ddd_kit_ts.Outbox.Cursors.{fresh_cursor, with_new_place, write_cursor}

-- `Set.add`
unfoldable pub add_to_set : {K : Type 0} → Discrete K → K → List K → List K
add_to_set dec k [] = k ∷ []
add_to_set dec k (j ∷ js) =
    let rest = add_to_set dec k js in elim (dec j k) [ yes same ↦ j ∷ js | no ne ↦ j ∷ rest ]

module _ {P : Type 0} where
  -- A pending record may move to another aggregate version.
  abbrev pub assert_pending_receipt :
      EventCommitCandidate P → Option (TrackedRecord P) → Outcome Error (Unit {0})
  assert_pending_receipt c none = ok tt
  assert_pending_receipt c (some existing) =
      assert_same_receipt c existing.source (candidate_position existing.position) true

  abbrev pub assert_dead_receipt :
      EventCommitCandidate P → Option (DeadLetterRecord P) → Outcome Error (Unit {0})
  assert_dead_receipt c none = ok tt
  assert_dead_receipt c (some letter) =
      assert_same_receipt c letter.source (candidate_position letter.position) false

  -- `assertBatchEventReceiptIntegrity` for one event: against the batch so far, then the outbox.
  unfoldable pub assert_known_receipt :
      InMemoryOutbox P → EventCommitCandidate P → Outcome Error (Unit {0})
  unfolding assert_same_receipt JsString-discrete
  assert_known_receipt s c =
      let id = c.event.event_id in
      elim (JsMap.get JsString-discrete id s.dispatched_event_ids) [
        | some receipt ↦ assert_same_receipt c receipt.source receipt.position false
        | none ↦ assert_pending_receipt c (JsMap.get JsString-discrete id s.pending) >>= λ _.
            assert_dead_receipt c (JsMap.get JsString-discrete id s.dead)
      ]

  unfoldable pub receipt_in_batch :
      JsMap JsString DispatchedEventReceipt
      → EventCommitCandidate P
      → Outcome Error (JsMap JsString DispatchedEventReceipt)
  unfolding assert_same_receipt JsString-discrete
  receipt_in_batch batch c = elim (JsMap.get JsString-discrete c.event.event_id batch) [
    | some receipt ↦ assert_same_receipt c receipt.source receipt.position false >>= λ _. ok batch
    | none ↦ ok (
        JsMap.set JsString-discrete c.event.event_id
          (record { source = c.source; position = c.position }) batch)
  ]

  unfoldable pub assert_receipts :
      InMemoryOutbox P
      → JsMap JsString DispatchedEventReceipt
      → List (EventCommitCandidate P)
      → Outcome Error (Unit {0})
  unfolding receipt_in_batch assert_known_receipt
  assert_receipts s batch [] = ok tt
  assert_receipts s batch (c ∷ cs) = receipt_in_batch batch c >>= λ batch'.
      assert_known_receipt s c >>= λ _. assert_receipts s batch' cs

  -- The cursor that the simulation writes for a candidate, if it writes one.
  unfoldable pub simulated_cursor :
      Option EventSourceCursor → EventCommitCandidate P → Outcome Error (Option EventSourceCursor)
  unfolding assert_place with_new_place
  simulated_cursor none c = ok (some (fresh_cursor c.position none c.event.event_id))
  simulated_cursor (some u) c =
      if ltb u.aggregate_version c.position.aggregate_version
      then ok (some (fresh_cursor c.position (some u.aggregate_version) c.event.event_id))
      else if ltb c.position.aggregate_version u.aggregate_version
      then ok none
      else assert_place u c >>= λ _. ok (with_new_place u c.position c.event.event_id)

  -- The cursor of a source as the batch has moved it, or else that of the outbox.
  unfoldable pub cursor_seen :
      InMemoryOutbox P → JsMap AddressKey EventSourceCursor → AddressKey → Option EventSourceCursor
  unfolding AddressKey-discrete
  cursor_seen s simulated key = elim (JsMap.get AddressKey-discrete key simulated) [
    | some cursor ↦ some cursor
    | none ↦ JsMap.get AddressKey-discrete key s.source_cursors
  ]

  -- `assertBatchPositionIntegrity`: the cursors as the batch would move them.
  unfoldable pub simulate_one :
      InMemoryOutbox P
      → JsMap AddressKey EventSourceCursor
      → EventCommitCandidate P
      → Outcome Error (JsMap AddressKey EventSourceCursor)
  unfolding simulated_cursor cursor_seen
  simulate_one s simulated c =
      let key = encode_aggregate_address c.source in
      simulated_cursor (cursor_seen s simulated key) c >>= λ cursor.
      ok (write_cursor key cursor simulated)

  unfoldable pub assert_positions :
      InMemoryOutbox P
      → JsMap AddressKey EventSourceCursor
      → List (EventCommitCandidate P)
      → Outcome Error (Unit {0})
  unfolding simulate_one
  assert_positions s simulated [] = ok tt
  assert_positions s simulated (c ∷ cs) =
      simulate_one s simulated c >>= λ simulated'. assert_positions s simulated' cs

  -- The outbox has a record or a receipt of the event.
  unfoldable pub is_known : InMemoryOutbox P → JsString → Bool
  unfolding JsString-discrete
  is_known s id =
      if JsMap.has JsString-discrete id s.pending
      then true
      else if JsMap.has JsString-discrete id s.dead
      then true
      else JsMap.has JsString-discrete id s.dispatched_event_ids

  -- The ids of the batch that would be new records, and the sources that would be new.
  unfoldable pub new_record_ids :
      InMemoryOutbox P → List JsString → List (EventCommitCandidate P) → List JsString
  unfolding is_known add_to_set JsString-discrete
  new_record_ids s ids [] = ids
  new_record_ids s ids (c ∷ cs) =
      new_record_ids s
        (if is_known s c.event.event_id
          then ids
          else add_to_set JsString-discrete c.event.event_id ids)
        cs

  unfoldable pub new_source_keys :
      InMemoryOutbox P → List AddressKey → List (EventCommitCandidate P) → List AddressKey
  unfolding is_known add_to_set AddressKey-discrete
  new_source_keys s keys [] = keys
  new_source_keys s keys (c ∷ cs) =
      let key = encode_aggregate_address c.source in
      new_source_keys s
        (if is_known s c.event.event_id
          then keys
          else if JsMap.has AddressKey-discrete key s.source_cursors
          then keys
          else add_to_set AddressKey-discrete key keys)
        cs

  unfoldable pub assert_capacity :
      InMemoryOutbox P → List (EventCommitCandidate P) → Outcome Error (Unit {0})
  unfolding new_record_ids new_source_keys
  assert_capacity s cs =
      let current = JsMap.size s.pending + JsMap.size s.dead in
      elim (over_limit Resource.records s.max_records current (length (new_record_ids s [] cs))) [
        | some full ↦ throws (Error.capacity_exceeded full)
        | none ↦
            elim (over_limit Resource.sources s.max_sources (JsMap.size s.source_cursors)
              (length (new_source_keys s [] cs))) [
                | some full ↦ throws (Error.capacity_exceeded full)
                | none ↦ ok tt
              ]
      ]

  unfoldable pub assert_batch :
      InMemoryOutbox P → List (EventCommitCandidate P) → Outcome Error (Unit {0})
  unfolding assert_receipts assert_positions assert_capacity
  assert_batch s cs =
      assert_receipts s [] cs >>= λ _. assert_positions s [] cs >>= λ _. assert_capacity s cs
