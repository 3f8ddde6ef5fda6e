-- ===== src/Projector/Planning.antt =====
-- src/projections/projector.ts: the guards on a batch and what it is going to do.
use ddd_kit_ts.Base.{
  get_or, ℕ, ◌+◌, Bool, true, false, not, ◌||◌, Option, none, some, List, [], ◌∷◌, ◌++◌,
  if◌then◌else◌, Outcome, ok, throws, ◌>>=◌,
}
use ddd_kit_ts.Base.JsMap
use ddd_kit_ts.Base.JsMap.{JsMap}
use ddd_kit_ts.Base.JsString.{JsString, str_eq}
use ddd_kit_ts.AggregateAddress.{
  AggregateAddress, AddressKey, AddressKey-discrete, encode_aggregate_address,
}
use ddd_kit_ts.Checkpoints.{CommitPosition, ProjectionCheckpoint, is_position_after}
use ddd_kit_ts.Projector.Positions.{
  ProjectedEvent, CommittedDomainEvent, Cursored, Error, is_valid_position, is_valid_checkpoint,
  is_same_ordered_position, is_same_position_receipt, is_contiguous_position, contradicts,
  PositionKey, PositionKey-discrete, unprojectable, foreign_event, identity_violation,
  receipt_violation, order_violation, gap,
}

-- The checkpoints at the start of the batch, loaded once for each address.
abbrev pub Started : Type 0
Started = JsMap AddressKey (Option ProjectionCheckpoint)

-- The checkpoint of an address in the maps of a batch, none if there is none.
unfoldable pub stored_in : Started → AddressKey → Option ProjectionCheckpoint
stored_in started k = elim (JsMap.get AddressKey-discrete k started) [
  | none ↦ none
  | some stored ↦ stored
]

-- What a batch is going to do: the events to apply, the last checkpoint of each address that
-- advances, in the order in which the addresses first advanced, and the counts.
pub record Plan (P : Type 0) : Type 0 where
  pub watermarks : JsMap AddressKey (Option CommitPosition)
  pub advanced : JsMap AddressKey (AggregateAddress × ProjectionCheckpoint)
  pub to_apply : List (ProjectedEvent P)
  pub applied : ℕ
  pub skipped : ℕ

-- `Set.has` on the positions of a batch.
unfoldable pub contains : PositionKey → List PositionKey → Bool
contains k [] = false
contains k (x ∷ xs) =
    let rest = contains k xs in elim (PositionKey-discrete x k) [ yes same ↦ true | no ne ↦ rest ]

-- The event is not past the watermark of its address.
unfoldable pub is_processed : Option CommitPosition → CommitPosition → Bool
unfolding is_position_after
is_processed none position = false
is_processed (some watermark) position = not (is_position_after position watermark)

-- The position of a stored checkpoint.
abbrev pub watermark_of : Option ProjectionCheckpoint → Option CommitPosition
watermark_of none = none
watermark_of (some stored) = some stored.position

unfoldable pub watermarks_of : Started → JsMap AddressKey (Option CommitPosition)
watermarks_of [] = []
watermarks_of (e ∷ started) = (e.0, watermark_of e.1) ∷ watermarks_of started

module _ {P : Type 0} where
  -- The guards on one envelope, in the order of the source.
  unfoldable pub cursor_of : CommittedDomainEvent P → Outcome Error (Cursored P)
  unfolding is_valid_position contradicts
  cursor_of c = elim c.event.event_id [
    | none ↦ throws (unprojectable none)
    | some id ↦ if str_eq id [] then throws (unprojectable (some id)) else elim c.position [
      | none ↦ throws (unprojectable (some id))
      | some position ↦
          if not (is_valid_position position)
          then throws (unprojectable (some id))
          else elim c.source [
            | none ↦ throws (unprojectable (some id))
            | some a ↦
                if str_eq a.aggregate_id [] || str_eq a.aggregate_type []
                then throws (unprojectable (some id))
                else if contradicts c.event.aggregate_id a.aggregate_id
                    || contradicts c.event.aggregate_type a.aggregate_type
                then throws (foreign_event a)
                else ok
                    (record { event = c.event; event_id = id; position = position; address = a })
          ]
    ]
  ]

  unfoldable pub cursor_all : List (CommittedDomainEvent P) → Outcome Error (List (Cursored P))
  unfolding cursor_of
  cursor_all [] = ok []
  cursor_all (c ∷ cs) = elim (cursor_of c) [
    | throws e ↦ throws e
    | ok x ↦ elim (cursor_all cs) [ throws e ↦ throws e | ok xs ↦ ok (x ∷ xs) ]
  ]

  abbrev pub key_of : Cursored P → AddressKey
  key_of x = encode_aggregate_address x.address

  abbrev pub position_key_of : Cursored P → PositionKey
  position_key_of x = (key_of x, x.position.aggregate_version, x.position.commit_sequence)

  unfoldable pub load_all :
      (AggregateAddress → Option ProjectionCheckpoint)
      → Started
      → List (Cursored P)
      → Outcome Error Started
  unfolding is_valid_checkpoint
  load_all load started [] = ok started
  load_all load started (x ∷ xs) =
      if JsMap.has AddressKey-discrete (key_of x) started
      then load_all load started xs
      else elim (load x.address) [
        | none ↦ load_all load (JsMap.set AddressKey-discrete (key_of x) none started) xs
        | some stored ↦
            if not (is_valid_checkpoint stored)
            then throws (unprojectable (some x.event_id))
            else load_all load (JsMap.set AddressKey-discrete (key_of x) (some stored) started) xs
      ]

  -- One record of the same position against the event and the cursor of an envelope.
  unfoldable pub same_receipt : JsString → CommitPosition → Cursored P → Outcome Error (Unit {0})
  unfolding is_same_position_receipt
  same_receipt recorded_id recorded x =
      if not (str_eq x.event_id recorded_id)
      then throws (identity_violation x.event_id recorded_id)
      else if not (is_same_position_receipt x.position recorded)
      then throws (receipt_violation x.event_id recorded x.position)
      else ok tt

  -- An event at the stored watermark is the event that was applied there.
  unfoldable pub check_stored_one : Started → Cursored P → Outcome Error (Unit {0})
  unfolding stored_in same_receipt is_same_ordered_position
  check_stored_one started x = elim (stored_in started (key_of x)) [
    | none ↦ ok tt
    | some stored ↦
        if is_same_ordered_position x.position stored.position
        then same_receipt stored.last_applied_event_id stored.position x
        else ok tt
  ]

  unfoldable pub check_stored : Started → List (Cursored P) → Outcome Error (Unit {0})
  unfolding check_stored_one
  check_stored started [] = ok tt
  check_stored started (x ∷ xs) = elim (check_stored_one started x) [
    | throws e ↦ throws e
    | ok u ↦ check_stored started xs
  ]

  -- Two events of the batch at one position are the same event.
  unfoldable pub check_batch :
      JsMap PositionKey (JsString × CommitPosition) → List (Cursored P) → Outcome Error (Unit {0})
  unfolding same_receipt
  check_batch seen [] = ok tt
  check_batch seen (x ∷ xs) =
      let rest =
        check_batch
          (JsMap.set PositionKey-discrete (position_key_of x) (x.event_id, x.position) seen) xs in
      elim (JsMap.get PositionKey-discrete (position_key_of x) seen) [
        | none ↦ rest
        | some recorded ↦ elim (same_receipt recorded.0 recorded.1 x) [
          | throws e ↦ throws e
          | ok u ↦ rest
        ]
      ]

  -- Events past the watermark come in order, each position once.
  unfoldable pub check_order :
      Started
      → List PositionKey
      → JsMap AddressKey CommitPosition
      → List (Cursored P)
      → Outcome Error (Unit {0})
  unfolding stored_in is_processed is_position_after
  check_order started seen newest [] = ok tt
  check_order started seen newest (x ∷ xs) =
      if is_processed (watermark_of (stored_in started (key_of x))) x.position
        || contains (position_key_of x) seen
      then check_order started seen newest xs
      else let seen' = position_key_of x ∷ seen in
        elim (JsMap.get AddressKey-discrete (key_of x) newest) [
          | none ↦
              check_order started seen' (JsMap.set AddressKey-discrete (key_of x) x.position newest)
                xs
          | some n ↦
              if is_position_after n x.position
              then throws (order_violation x.event_id n x.position)
              else if is_position_after x.position n
              then check_order started seen'
                  (JsMap.set AddressKey-discrete (key_of x) x.position newest) xs
              else check_order started seen' newest xs
        ]

  -- The watermark of an address in the course of a batch.
  abbrev pub watermark_at : Plan P → AddressKey → Option CommitPosition
  watermark_at plan k = get_or (JsMap.get AddressKey-discrete k plan.watermarks) none

  abbrev pub skip : Plan P → Plan P
  skip plan = record plan { skipped = plan.skipped + 1 }

  abbrev pub advance : Plan P → Cursored P → Plan P
  advance plan x = record {
    watermarks = JsMap.set AddressKey-discrete (key_of x) (some x.position) plan.watermarks;
    advanced =
        JsMap.set AddressKey-discrete (key_of x)
          (x.address, record { position = x.position; last_applied_event_id = x.event_id })
          plan.advanced;
    to_apply = plan.to_apply ++ x.event ∷ [];
    applied = plan.applied + 1;
    skipped = plan.skipped;
  }

  unfoldable pub plan_one : Plan P → Cursored P → Outcome Error (Plan P)
  unfolding is_processed is_contiguous_position
  plan_one plan x =
      if is_processed (watermark_at plan (key_of x)) x.position
      then ok (skip plan)
      else if is_contiguous_position x.position (watermark_at plan (key_of x))
      then ok (advance plan x)
      else throws (gap x.event_id (watermark_at plan (key_of x)) x.position)

  unfoldable pub plan_all : Plan P → List (Cursored P) → Outcome Error (Plan P)
  unfolding plan_one
  plan_all plan [] = ok plan
  plan_all plan (x ∷ xs) = elim (plan_one plan x) [
    | throws e ↦ throws e
    | ok next ↦ plan_all next xs
  ]

  unfoldable pub plan_from : Started → Plan P
  unfolding watermarks_of
  plan_from started = record {
    watermarks = watermarks_of started;
    advanced = [];
    to_apply = [];
    applied = 0;
    skipped = 0;
  }

  -- All guards of a batch, which come before its first effect.
  unfoldable pub plan_batch :
      (AggregateAddress → Option ProjectionCheckpoint)
      → List (CommittedDomainEvent P)
      → Outcome Error (Plan P)
  unfolding cursor_all load_all check_stored check_batch check_order plan_all plan_from
  plan_batch load events = do
    cursored ← cursor_all events
    started ← load_all load [] cursored
    stored_pass ← check_stored started cursored
    batch_pass ← check_batch [] cursored
    order_pass ← check_order started [] [] cursored
    plan_all (plan_from started) cursored
