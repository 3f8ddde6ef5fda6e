-- ===== src/Checkpoints.antt =====
-- src/projections/in-memory-checkpoint-store.ts: the reference implementation of the checkpoint
-- port of src/projections/ports.ts, without its locks. A JavaScript number of a position is a
-- natural number here, and a copy is an equal value.
pub mod Invariant
pub mod Reading
mod Tests
use ddd_kit_ts.Base.{
  ℕ, ◌+◌, ◌-◌, Bool, true, false, not, Option, none, some, List, [], ◌∷◌, ltb, ◌==◌, if◌then◌else◌,
  Outcome, ok, throws, ◌>>=◌, get_or,
}
use ddd_kit_ts.Base.Capacity.{CapacityExceeded, over_limit}
use ddd_kit_ts.Base.JsMap
use ddd_kit_ts.Base.JsMap.{JsMap}
use ddd_kit_ts.Base.JsNumber.{JsNumber, assert_optional_limit}
use ddd_kit_ts.Base.JsString.{JsString, JsString-discrete}
use ddd_kit_ts.AggregateAddress.{
  AggregateAddress, AddressKey, AddressKey-discrete, encode_aggregate_address,
}

-- `CommitPosition` of src/events/ports.ts; none is `null`.
pub record CommitPosition : Type 0 where
  pub aggregate_version : ℕ
  pub commit_sequence : ℕ
  pub commit_size : ℕ
  pub previous_eventful_aggregate_version : Option ℕ

pub record ProjectionCheckpoint : Type 0 where
  pub position : CommitPosition
  pub last_applied_event_id : JsString

unfoldable pub is_position_after : CommitPosition → CommitPosition → Bool
is_position_after candidate reference =
    if not (candidate.aggregate_version == reference.aggregate_version)
    then ltb reference.aggregate_version candidate.aggregate_version
    else ltb reference.commit_sequence candidate.commit_sequence

pub data Resource : Type 0 where
  checkpoint_records : Resource

pub data Error : Type 0 where
  capacity_exceeded : CapacityExceeded Resource → Error
  invalid_option : Error

pub record InMemoryProjectionCheckpointStore : Type 0 where
  pub checkpoints : JsMap JsString (JsMap AddressKey ProjectionCheckpoint)
  pub max_checkpoints : Option ℕ
  pub checkpoint_count : ℕ

unfoldable pub new : Option JsNumber → Outcome Error InMemoryProjectionCheckpointStore
unfolding assert_optional_limit
new max_checkpoints = do
  limit ← assert_optional_limit invalid_option max_checkpoints
  ok (record { checkpoints = []; max_checkpoints = limit; checkpoint_count = 0 })

-- The map of a projection, empty if there is none.
abbrev pub per_aggregate :
    InMemoryProjectionCheckpointStore → JsString → JsMap AddressKey ProjectionCheckpoint
per_aggregate s projection = get_or (JsMap.get JsString-discrete projection s.checkpoints) []

unfoldable pub load :
    InMemoryProjectionCheckpointStore → JsString → AggregateAddress → Option ProjectionCheckpoint
load s projection a =
    JsMap.get AddressKey-discrete (encode_aggregate_address a) (per_aggregate s projection)

-- The write of one checkpoint, and the count that goes with a new one.
unfoldable pub store_checkpoint :
    InMemoryProjectionCheckpointStore
    → JsString
    → AddressKey
    → ProjectionCheckpoint
    → ℕ
    → InMemoryProjectionCheckpointStore
store_checkpoint s projection key checkpoint count = record s {
  checkpoints =
      JsMap.set JsString-discrete projection
        (JsMap.set AddressKey-discrete key checkpoint (per_aggregate s projection)) s.checkpoints;
  checkpoint_count = count;
}

save_at :
    InMemoryProjectionCheckpointStore
    → JsString
    → AddressKey
    → ProjectionCheckpoint
    → Option ProjectionCheckpoint
    → Outcome Error (Unit {0}) × InMemoryProjectionCheckpointStore
unfolding store_checkpoint
save_at s projection key checkpoint (some old) =
    (ok tt, store_checkpoint s projection key checkpoint s.checkpoint_count)
save_at s projection key checkpoint none =
    elim (over_limit checkpoint_records s.max_checkpoints s.checkpoint_count 1) [
      | some full ↦ (throws (capacity_exceeded full), s)
      | none ↦ (ok tt, store_checkpoint s projection key checkpoint (s.checkpoint_count + 1))
    ]

unfoldable pub save :
    InMemoryProjectionCheckpointStore
    → JsString
    → AggregateAddress
    → ProjectionCheckpoint
    → Outcome Error (Unit {0}) × InMemoryProjectionCheckpointStore
unfolding load save_at
save s projection a checkpoint =
    save_at s projection (encode_aggregate_address a) checkpoint (load s projection a)

unfoldable pub has_reached :
    InMemoryProjectionCheckpointStore → JsString → AggregateAddress → CommitPosition → Bool
unfolding load is_position_after
has_reached s projection a position = elim (load s projection a) [
  | none ↦ false
  | some stored ↦ not (is_position_after position stored.position)
]

-- A projection without a map has nothing to forget.
unfoldable pub reset :
    InMemoryProjectionCheckpointStore → JsString → InMemoryProjectionCheckpointStore
reset s projection = record s {
  checkpoints = JsMap.delete JsString-discrete projection s.checkpoints;
  checkpoint_count = s.checkpoint_count - JsMap.size (per_aggregate s projection);
}
