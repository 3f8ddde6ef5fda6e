-- ===== src/Outbox/Cursors.antt =====
-- src/events/outbox.ts, `add`: the predecessor of a commit, and the cursor of its source.
use ddd_kit_ts.Base.{
  ℕ, Option, none, some, [], ◌∷◌, ltb, ◌==◌, if◌then◌else◌, Outcome, ok, ℕ_discrete,
}
use ddd_kit_ts.Base.JsMap
use ddd_kit_ts.Base.JsMap.{JsMap}
use ddd_kit_ts.Base.JsString.{JsString}
use ddd_kit_ts.AggregateAddress.{AddressKey, AddressKey-discrete}
use ddd_kit_ts.Checkpoints.{CommitPosition}
use ddd_kit_ts.Outbox.Types.{
  EventCommitCandidatePosition, EventCommitCandidate, TrackedRecord, EventSourceCursor, Error,
  cursor_with_event, assert_place,
}

-- The version that a candidate is stale against: that of its own pending record, or else the head of
-- its source.
unfoldable pub stale_head : Option CommitPosition → Option EventSourceCursor → ℕ → Option ℕ
stale_head (some existing) cursor version =
    if ltb version existing.aggregate_version then some existing.aggregate_version else none
stale_head none none version = none
stale_head none (some cursor) version =
    if ltb version cursor.aggregate_version then some cursor.aggregate_version else none

-- A cursor that starts at a commit with one of its events.
abbrev pub fresh_cursor : EventCommitCandidatePosition → Option ℕ → JsString → EventSourceCursor
fresh_cursor position previous event_id = record {
  aggregate_version = position.aggregate_version;
  previous_eventful_aggregate_version = previous;
  commit_size = position.commit_size;
  event_ids_by_sequence = (position.commit_sequence, event_id) ∷ [];
}

-- The cursor with the event, if its place in the commit has no owner yet.
unfoldable pub with_new_place :
    EventSourceCursor → EventCommitCandidatePosition → JsString → Option EventSourceCursor
unfolding ℕ_discrete cursor_with_event
with_new_place cursor position event_id =
    if JsMap.has ℕ_discrete position.commit_sequence cursor.event_ids_by_sequence
    then none
    else some (cursor_with_event cursor position.commit_sequence event_id)

-- The predecessor of a candidate's commit, and the cursor to write, if there is one to write.
unfoldable pub link :
    Option CommitPosition
    → Option EventSourceCursor
    → EventCommitCandidatePosition
    → JsString
    → Option ℕ × Option EventSourceCursor
unfolding with_new_place
link (some existing) none position event_id = (existing.previous_eventful_aggregate_version, none)
link (some existing) (some cursor) position event_id =
    let previous = existing.previous_eventful_aggregate_version in
    if existing.aggregate_version == position.aggregate_version
    then (previous, none)
    else if cursor.aggregate_version == existing.aggregate_version
    then (previous, some (fresh_cursor position previous event_id))
    else if cursor.aggregate_version == position.aggregate_version
    then (previous, with_new_place cursor position event_id)
    else (previous, none)
link none none position event_id = (none, some (fresh_cursor position none event_id))
link none (some cursor) position event_id =
    if cursor.aggregate_version == position.aggregate_version
    then (cursor.previous_eventful_aggregate_version, with_new_place cursor position event_id)
    else (
      some cursor.aggregate_version,
      some (fresh_cursor position (some cursor.aggregate_version) event_id),
    )

abbrev pub write_cursor :
    AddressKey
    → Option EventSourceCursor
    → JsMap AddressKey EventSourceCursor
    → JsMap AddressKey EventSourceCursor
write_cursor key none cursors = cursors
write_cursor key (some cursor) cursors = JsMap.set AddressKey-discrete key cursor cursors

abbrev pub finalized : EventCommitCandidatePosition → Option ℕ → CommitPosition
finalized position previous = record {
  aggregate_version = position.aggregate_version;
  commit_sequence = position.commit_sequence;
  commit_size = position.commit_size;
  previous_eventful_aggregate_version = previous;
}

module _ {P : Type 0} where
  abbrev pub position_of : Option (TrackedRecord P) → Option CommitPosition
  position_of none = none
  position_of (some existing) = some existing.position

  -- The test of a candidate's place where the cursor of its source stands at its version.
  unfoldable pub assert_place_at :
      Option EventSourceCursor → EventCommitCandidate P → Outcome Error (Unit {0})
  unfolding assert_place
  assert_place_at none c = ok tt
  assert_place_at (some cursor) c =
      if cursor.aggregate_version == c.position.aggregate_version
      then assert_place cursor c
      else ok tt
