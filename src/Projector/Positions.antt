-- ===== src/Projector/Positions.antt =====
-- src/projections/projector.ts: the envelopes and errors of the projector, and its tests on positions.
use ddd_kit_ts.Base.{
  ap, ℕ, ◌+◌, Bool, true, false, not, ◌&&◌, Option, none, some, [], ltb, ◌==◌, if◌then◌else◌,
  ℕ_discrete,
}
use ddd_kit_ts.Base.JsString.{JsString, str_eq}
use ddd_kit_ts.AggregateAddress.{AggregateAddress, AddressKey, AddressKey-discrete}
use ddd_kit_ts.Checkpoints.{CommitPosition, ProjectionCheckpoint}

-- `payload` stands for the fields that the projector only passes on.
pub record ProjectedEvent (P : Type 0) : Type 0 where
  pub event_id : Option JsString
  pub aggregate_id : Option JsString
  pub aggregate_type : Option JsString
  pub payload : P

pub record CommittedDomainEvent (P : Type 0) : Type 0 where
  pub event : ProjectedEvent P
  pub source : Option AggregateAddress
  pub position : Option CommitPosition

-- An envelope that has passed the guards.
pub record Cursored (P : Type 0) : Type 0 where
  pub event : ProjectedEvent P
  pub event_id : JsString
  pub position : CommitPosition
  pub address : AggregateAddress

pub data Error : Type 0 where
  unprojectable : (event_id : Option JsString) → Error
  foreign_event : AggregateAddress → Error
  identity_violation : (event_id recorded : JsString) → Error
  receipt_violation : (event_id : JsString) → (recorded given : CommitPosition) → Error
  order_violation : (event_id : JsString) → (newest given : CommitPosition) → Error
  gap :
      (event_id : JsString) → (watermark : Option CommitPosition) → (given : CommitPosition) → Error

-- What the store or the projection throws is passed on.
pub data Thrown (X : Type 0) : Type 0 where
  kit : Error → Thrown X
  outside : X → Thrown X

pub record ProjectionBatchResult : Type 0 where
  pub applied : ℕ
  pub skipped : ℕ

-- The tests of `isValidPosition` that natural numbers can fail.
unfoldable pub is_valid_position : CommitPosition → Bool
is_valid_position p =
    ltb p.commit_sequence p.commit_size && elim p.previous_eventful_aggregate_version [
      | none ↦ true
      | some previous ↦ ltb previous p.aggregate_version
    ]

unfoldable pub is_valid_checkpoint : ProjectionCheckpoint → Bool
unfolding is_valid_position
is_valid_checkpoint c = not (str_eq c.last_applied_event_id []) && is_valid_position c.position

unfoldable pub is_same_ordered_position : CommitPosition → CommitPosition → Bool
is_same_ordered_position l r =
    l.aggregate_version == r.aggregate_version && l.commit_sequence == r.commit_sequence

-- `===` on a number or `null`.
unfoldable pub same_previous : Option ℕ → Option ℕ → Bool
same_previous none none = true
same_previous (some m) (some n) = m == n
same_previous _ _ = false

unfoldable pub is_same_position_receipt : CommitPosition → CommitPosition → Bool
unfolding is_same_ordered_position same_previous
is_same_position_receipt l r =
    is_same_ordered_position l r
    && l.commit_size == r.commit_size
    && same_previous l.previous_eventful_aggregate_version r.previous_eventful_aggregate_version

unfoldable pub is_contiguous_position : CommitPosition → Option CommitPosition → Bool
unfolding same_previous
is_contiguous_position p none =
    ltb p.commit_sequence p.commit_size
    && p.commit_sequence == 0
    && same_previous p.previous_eventful_aggregate_version none
is_contiguous_position p (some w) =
    ltb p.commit_sequence p.commit_size
    && (if p.aggregate_version == w.aggregate_version
        then same_previous p.previous_eventful_aggregate_version
            w.previous_eventful_aggregate_version
          && p.commit_size == w.commit_size
          && p.commit_sequence == w.commit_sequence + 1
        else w.commit_sequence + 1 == w.commit_size
          && p.commit_sequence == 0
          && same_previous p.previous_eventful_aggregate_version (some w.aggregate_version))

-- `event.aggregateId !== undefined && event.aggregateId !== aggregateId`
unfoldable pub contradicts : Option JsString → JsString → Bool
contradicts none own = false
contradicts (some given) own = not (str_eq given own)

-- Address and version and sequence: the key of `addressedPositionKey`.
abbrev pub PositionKey : Type 0
PositionKey = AddressKey × ℕ × ℕ

unfoldable pub PositionKey-discrete : Discrete PositionKey
unfolding AddressKey-discrete ℕ_discrete
PositionKey-discrete (a, v, s) (b, w, t) = elim (AddressKey-discrete a b) [
  | no ne ↦ no (λ e. ne (ap (λ k. k.0) e))
  | yes same ↦ elim (ℕ_discrete v w) [
    | no ne ↦ no (λ e. ne (ap (λ k. k.1) e))
    | yes same' ↦ elim (ℕ_discrete s t) [
      | no ne ↦ no (λ e. ne (ap (λ k. k.2) e))
      | yes same'' ↦ yes (λ i. (same i, same' i, same'' i))
    ]
  ]
]
