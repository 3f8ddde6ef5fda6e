-- ===== src/Outbox/Types.antt =====
-- src/events/outbox.ts and src/events/ports.ts: the records of the outbox, its errors, and the
-- tests that an event keeps its source and its place in a commit.
use ddd_kit_ts.Base.{
  ℕ, Bool, not, ◌&&◌, ◌||◌, Option, none, some, ◌==◌, if◌then◌else◌, Outcome, ok, throws, ◌>>=◌,
  ℕ_discrete,
}
use ddd_kit_ts.Base.Capacity.{CapacityExceeded}
use ddd_kit_ts.Base.JsMap
use ddd_kit_ts.Base.JsMap.{JsMap}
use ddd_kit_ts.Base.JsString.{JsString, str_eq}
use ddd_kit_ts.AggregateAddress.{AggregateAddress, AddressKey}
use ddd_kit_ts.Checkpoints.{CommitPosition}

-- `payload` stands for the fields that the outbox only keeps.
pub record OutboxEvent (P : Type 0) : Type 0 where
  pub event_id : JsString
  pub event_type : JsString
  pub payload : P

pub record EventCommitCandidatePosition : Type 0 where
  pub aggregate_version : ℕ
  pub commit_sequence : ℕ
  pub commit_size : ℕ

pub record EventCommitCandidate (P : Type 0) : Type 0 where
  pub event : OutboxEvent P
  pub source : AggregateAddress
  pub position : EventCommitCandidatePosition

pub record TrackedRecord (P : Type 0) : Type 0 where
  pub dispatch_id : JsString
  pub event : OutboxEvent P
  pub source : AggregateAddress
  pub position : CommitPosition
  pub attempts : ℕ
  pub last_error : Option JsString

-- `OutboxRecord`: what a dispatcher sees of a pending record.
pub record OutboxRecord (P : Type 0) : Type 0 where
  pub dispatch_id : JsString
  pub event : OutboxEvent P
  pub source : AggregateAddress
  pub position : CommitPosition
  pub attempts : ℕ

pub record DeadLetterRecord (P : Type 0) : Type 0 where
  pub dispatch_id : JsString
  pub event : OutboxEvent P
  pub source : AggregateAddress
  pub position : CommitPosition
  pub attempts : ℕ
  pub last_error : JsString

pub record EventSourceCursor : Type 0 where
  pub aggregate_version : ℕ
  pub previous_eventful_aggregate_version : Option ℕ
  pub commit_size : ℕ
  pub event_ids_by_sequence : JsMap ℕ JsString

pub record DispatchedEventReceipt : Type 0 where
  pub source : AggregateAddress
  pub position : EventCommitCandidatePosition

pub data Resource : Type 0 where
  records sources : Resource

-- The first five are the `EventHarvestError` of the place that throws it, with the id of the event.
pub data Error : Type 0 where
  source_collision : (event_id : JsString) → (recorded received : AggregateAddress) → Error
  receipt_changed :
      (event_id : JsString) → (recorded received : EventCommitCandidatePosition) → Error
  stale_event : (event_id : JsString) → AggregateAddress → (version head : ℕ) → Error
  commit_size_changed : (event_id : JsString) → (recorded received : ℕ) → Error
  position_owned : (event_id owner : JsString) → Error
  capacity_exceeded : CapacityExceeded Resource → Error
  invalid_option : Error

-- The fields that a finalized position shares with its candidate.
abbrev pub candidate_position : CommitPosition → EventCommitCandidatePosition
candidate_position p = record {
  aggregate_version = p.aggregate_version;
  commit_sequence = p.commit_sequence;
  commit_size = p.commit_size;
}

unfoldable pub assert_same_event_source :
    JsString → (received recorded : AggregateAddress) → Outcome Error (Unit {0})
unfolding str_eq
assert_same_event_source event_id received recorded =
    if str_eq received.aggregate_type recorded.aggregate_type
      && str_eq received.aggregate_id recorded.aggregate_id
    then ok tt
    else throws (Error.source_collision event_id recorded received)

unfoldable pub assert_same_candidate_receipt :
    JsString
    → (received recorded : EventCommitCandidatePosition) → (allow_aggregate_version_refresh : Bool)
    → Outcome Error (Unit {0})
assert_same_candidate_receipt event_id received recorded allow_aggregate_version_refresh =
    let same_version =
      allow_aggregate_version_refresh || received.aggregate_version == recorded.aggregate_version in
    if same_version
      && (received.commit_sequence == recorded.commit_sequence
          && received.commit_size == recorded.commit_size)
    then ok tt
    else throws (Error.receipt_changed event_id recorded received)

-- The two tests of a candidate against what is recorded of its event.
unfoldable pub assert_same_receipt :
    {P : Type 0}
    → EventCommitCandidate P
    → AggregateAddress
    → EventCommitCandidatePosition
    → Bool
    → Outcome Error (Unit {0})
unfolding assert_same_event_source assert_same_candidate_receipt
assert_same_receipt c source position refresh =
    assert_same_event_source c.event.event_id c.source source >>= λ _.
    assert_same_candidate_receipt c.event.event_id c.position position refresh

unfoldable pub cursor_with_event : EventSourceCursor → ℕ → JsString → EventSourceCursor
unfolding ℕ_discrete
cursor_with_event cursor commit_sequence event_id = record cursor {
  event_ids_by_sequence =
      JsMap.set ℕ_discrete commit_sequence event_id cursor.event_ids_by_sequence;
}

-- The commit size of the version, and the owner of the place in it, as both loops over a batch test
-- them once the cursor stands at the version.
unfoldable pub assert_place :
    {P : Type 0} → EventSourceCursor → EventCommitCandidate P → Outcome Error (Unit {0})
unfolding str_eq ℕ_discrete
assert_place cursor c =
    if not (cursor.commit_size == c.position.commit_size)
    then throws
        (Error.commit_size_changed c.event.event_id cursor.commit_size c.position.commit_size)
    else elim (JsMap.get ℕ_discrete c.position.commit_sequence cursor.event_ids_by_sequence) [
      | none ↦ ok tt
      | some owner ↦
          if str_eq owner c.event.event_id
          then ok tt
          else throws (Error.position_owned c.event.event_id owner)
    ]

pub record InMemoryOutbox (P : Type 0) : Type 0 where
  pub pending : JsMap JsString (TrackedRecord P)
  pub dead : JsMap JsString (DeadLetterRecord P)
  pub source_cursors : JsMap AddressKey EventSourceCursor
  pub dispatched_event_ids : JsMap JsString DispatchedEventReceipt
  pub max_delivery_attempts : ℕ
  pub max_retained_dispatched_event_ids : ℕ
  pub max_records : Option ℕ
  pub max_sources : Option ℕ

-- The limit of `getPending`: NaN, a number below zero, a finite number by the least natural number
-- that is not below it, or infinity.
pub data Limit : Type 0 where
  nan below_zero infinity : Limit
  up_to : ℕ → Limit
