-- ===== src/EventSourced/Types.antt =====
-- The state of an event-sourced aggregate and what its subclass supplies.
use ddd_kit_ts.Base.{ℕ, Bool, true, Option, some, List, Outcome}
use ddd_kit_ts.Base.JsString.{JsString}

-- `minted` is membership in the set of events that the kit's factories have frozen; `payload` stands
-- for the fields that the aggregate only passes on.
pub record DomainEvent (P : Type 0) : Type 0 where
  pub event_type : JsString
  pub aggregate_id : Option JsString
  pub aggregate_type : Option JsString
  pub minted : Bool
  pub payload : P

-- What a call can throw: a domain error or a corrupted snapshot of the subclass, an error of the
-- kit, or anything else.
pub data Thrown (D X : Type 0) : Type 0 where
  domain_error : D → Thrown D X
  snapshot_corrupted : X → Thrown D X
  schema_mismatch : (expected actual : ℕ) → Thrown D X
  unminted : (event_type : JsString) → Thrown D X
  misaddressed : (own_id event_type : JsString) → Thrown D X
  foreign_event : (own_id event_type : JsString) → Thrown D X
  missing_handler : (event_type : JsString) → Thrown D X
  unreplayable : (own_id : JsString) → Thrown D X
  other : X → Thrown D X

-- What `loadFromHistory` and `restoreFromSnapshotWithEvents` return: `ok()` or `err(e)`.
pub data Returned (D X : Type 0) : Type 0 where
  done : Returned D X
  failed : Thrown D X → Returned D X

-- `handlers` looks up the own keys of the handler map.
pub record AggregateClass (S N P D X : Type 0) : Type 0 where
  pub aggregate_type : JsString
  pub handlers : JsString → Option (S → DomainEvent P → Outcome (Thrown D X) S)
  pub validate_event : S → DomainEvent P → Outcome (Thrown D X) (Unit {0})
  pub validate_restored_state : S → Outcome (Thrown D X) (Unit {0})
  pub snapshot_schema_version : ℕ
  pub to_snapshot_state : S → Outcome (Thrown D X) N
  pub from_snapshot_state : N → Outcome (Thrown D X) S
  pub migrate_snapshot_state : N → ℕ → Outcome (Thrown D X) N

pub record EventSourcedAggregate (S P : Type 0) : Type 0 where
  pub id : JsString
  pub state : S
  pub version : ℕ
  pub persisted_version : Option ℕ
  pub pending_events : List (DomainEvent P)

-- `adoptMintedEvent({ ...event, aggregateId, aggregateType })`, unless both fields are there.
unfoldable pub stamped :
    {P : Type 0}
    → JsString
    → JsString
    → Option JsString
    → Option JsString
    → DomainEvent P
    → DomainEvent P
stamped own_id own_type (some i) (some t) e = e
stamped own_id own_type i t e = record e {
  aggregate_id = some own_id;
  aggregate_type = some own_type;
  minted = true;
}
