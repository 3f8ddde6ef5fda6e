-- ===== src/EventSourced.antt =====
-- src/aggregate/event-sourced-aggregate.ts and the part of src/aggregate/base-aggregate.ts that it
-- stands on: applying new events, replaying history, and restoring a snapshot with the events after
-- it. What a subclass gives (handlers, hooks, snapshot conversions) is a record of functions, and a
-- frozen or cloned state is an equal value.
pub mod Types
pub mod Replay
pub mod Atomic
pub mod Effects
pub mod SnapshotTail
pub mod Apply
pub mod Applied
mod Tests
unfoldable pub use Types.*
use ddd_kit_ts.Base.{
  ℕ, ◌+◌, ◌||◌, ◌&&◌, Bool, true, false, not, Option, none, some, List, [], ◌∷◌, ◌++◌, ltb, ◌==◌,
  length, if◌then◌else◌, Outcome, ok, throws, ◌>>=◌, get_or,
}
use ddd_kit_ts.Base.JsString.{JsString, str_eq}
use ddd_kit_ts.Snapshots.{AggregateSnapshot}

-- `present !== undefined && present !== own`
unfoldable pub present_but_other : Option JsString → JsString → Bool
present_but_other none own = false
present_but_other (some given) own = not (str_eq given own)

module _ {S N P D X : Type 0} (c : AggregateClass S N P D X) where
  -- The test that `stampNewEventAddress` and `assertReplayedEventBelongsHere` share.
  unfoldable pub is_foreign : EventSourcedAggregate S P → DomainEvent P → Bool
  unfolding present_but_other
  is_foreign a e =
      present_but_other e.aggregate_id a.id || present_but_other e.aggregate_type c.aggregate_type

  unfoldable pub assert_minted_event : DomainEvent P → Outcome (Thrown D X) (Unit {0})
  assert_minted_event e = if e.minted then ok tt else throws (unminted e.event_type)

  -- An event with both fields is itself; else a copy with the aggregate's own address.
  unfoldable pub stamp_new_event_address :
      EventSourcedAggregate S P → DomainEvent P → Outcome (Thrown D X) (DomainEvent P)
  unfolding assert_minted_event is_foreign stamped
  stamp_new_event_address a e = do
    minted ← assert_minted_event e
    if is_foreign a e
        then throws (misaddressed a.id e.event_type)
        else ok (stamped a.id c.aggregate_type e.aggregate_id e.aggregate_type e)

  unfoldable pub assert_replayed_event_belongs_here :
      EventSourcedAggregate S P → DomainEvent P → Outcome (Thrown D X) (Unit {0})
  unfolding is_foreign
  assert_replayed_event_belongs_here a e =
      if is_foreign a e then throws (foreign_event a.id e.event_type) else ok tt

  -- The state that the handler of the event gives.
  unfoldable pub handle : S → DomainEvent P → Outcome (Thrown D X) S
  handle state e = elim (c.handlers e.event_type) [
    | none ↦ throws (missing_handler e.event_type)
    | some handler ↦ handler state e
  ]

  abbrev pub Reply : Type 0 → Type 0
  Reply A = Outcome (Thrown D X) A × EventSourcedAggregate S P

  unfoldable pub dispatch : EventSourcedAggregate S P → DomainEvent P → Reply (Unit {0})
  unfolding handle
  dispatch a e = elim (handle a.state e) [
    | throws x ↦ (throws x, a)
    | ok next ↦ (ok tt, record a { state = next })
  ]

  unfoldable pub add_domain_event : EventSourcedAggregate S P → DomainEvent P → Reply (Unit {0})
  unfolding assert_minted_event
  add_domain_event a e = elim (assert_minted_event e) [
    | throws x ↦ (throws x, a)
    | ok u ↦ (ok tt, record a { pending_events = a.pending_events ++ e ∷ [] })
  ]

  abbrev pub bump_version : EventSourcedAggregate S P → EventSourcedAggregate S P
  bump_version a = record a { version = a.version + 1 }

  bumped : Reply (Unit {0}) → Reply (Unit {0})
  bumped (throws x, a) = (throws x, a)
  bumped (ok u, a) = (ok tt, bump_version a)

  recorded : Reply (Unit {0}) → DomainEvent P → Reply (Unit {0})
  unfolding bumped add_domain_event
  recorded (throws x, a) e = (throws x, a)
  recorded (ok u, a) e = bumped (add_domain_event a e)

  -- The rest of `apply` once the event has been stamped and validated.
  apply_stamped : EventSourcedAggregate S P → DomainEvent P → Reply (Unit {0})
  unfolding dispatch recorded
  apply_stamped a e = recorded (dispatch a e) e

  unfoldable pub apply : EventSourcedAggregate S P → DomainEvent P → Reply (Unit {0})
  unfolding stamp_new_event_address apply_stamped
  apply a e = elim (stamp_new_event_address a e) [
    | throws x ↦ (throws x, a)
    | ok e' ↦ elim (c.validate_event a.state e') [
      | throws x ↦ (throws x, a)
      | ok u ↦ apply_stamped a e'
    ]
  ]

  abbrev pub mark_restored : ℕ → EventSourcedAggregate S P → EventSourcedAggregate S P
  mark_restored version a = record a { version = version; persisted_version = some version }

  -- `assertRestoreTargetHasNoPendingEvents`
  unfoldable pub assert_no_pending_events :
      EventSourcedAggregate S P → Outcome (Thrown D X) (Unit {0})
  assert_no_pending_events a =
      if ltb 0 (length a.pending_events) then throws (unreplayable a.id) else ok tt

  unfoldable pub assert_no_unpersisted_version :
      EventSourcedAggregate S P → Outcome (Thrown D X) (Unit {0})
  assert_no_unpersisted_version a = elim a.persisted_version [
    | some v ↦ ok tt
    | none ↦ if ltb 0 a.version then throws (unreplayable a.id) else ok tt
  ]

  -- The loop over the history, up to the first event that throws.
  unfoldable pub replay : EventSourcedAggregate S P → List (DomainEvent P) → Reply (Unit {0})
  unfolding assert_replayed_event_belongs_here dispatch
  replay a [] = (ok tt, a)
  replay a (e ∷ es) = elim (assert_replayed_event_belongs_here a e) [
    | throws x ↦ (throws x, a)
    | ok u ↦
        let (dispatched, a1) = dispatch a e in
        elim dispatched [ throws x ↦ (throws x, a1) | ok w ↦ replay a1 es ]
  ]

  -- `catch`: a domain error is returned, anything else is thrown again.
  unfoldable pub caught : Thrown D X → Outcome (Thrown D X) (Returned D X)
  caught (domain_error d) = ok (failed (domain_error d))
  caught x = throws x

  -- `catch` around the conversion of a snapshot: a corrupted snapshot is returned as well.
  unfoldable pub caught_snapshot : Thrown D X → Outcome (Thrown D X) (Returned D X)
  caught_snapshot (domain_error d) = ok (failed (domain_error d))
  caught_snapshot (snapshot_corrupted x) = ok (failed (snapshot_corrupted x))
  caught_snapshot x = throws x

  load_checked : EventSourcedAggregate S P → List (DomainEvent P) → Reply (Returned D X)
  unfolding replay caught
  load_checked a [] = (ok done, a)
  load_checked a (e ∷ es) =
      let (replayed, a1) = replay a (e ∷ es) in
      elim replayed [
        | throws x ↦ (caught x, record a1 { state = a.state })
        | ok u ↦ (ok done, mark_restored (a.version + length (e ∷ es)) a1)
      ]

  unfoldable pub load_from_history :
      EventSourcedAggregate S P → List (DomainEvent P) → Reply (Returned D X)
  unfolding assert_no_pending_events assert_no_unpersisted_version load_checked
  load_from_history a history = elim (assert_no_pending_events a) [
    | throws x ↦ (throws x, a)
    | ok u ↦ elim (assert_no_unpersisted_version a) [
      | throws x ↦ (throws x, a)
      | ok w ↦ load_checked a history
    ]
  ]

  unfoldable pub resolve_snapshot_state : AggregateSnapshot N → Outcome (Thrown D X) N
  resolve_snapshot_state snapshot =
      let stored_schema_version = get_or snapshot.schema_version 1 in
      if stored_schema_version == c.snapshot_schema_version
      then ok snapshot.state
      else c.migrate_snapshot_state snapshot.state stored_schema_version

  unfoldable pub restored_state : AggregateSnapshot N → Outcome (Thrown D X) S
  unfolding resolve_snapshot_state
  restored_state snapshot = do
    stored ← resolve_snapshot_state snapshot
    restored ← c.from_snapshot_state stored
    checked ← c.validate_restored_state restored
    ok restored

  -- The restored state and the events after it, rolled back if one throws.
  restore_tail : EventSourcedAggregate S P → ℕ → S → List (DomainEvent P) → Reply (Returned D X)
  unfolding replay caught
  restore_tail a version restored es =
      let (replayed, a1) = replay (record a { state = restored; version = version }) es in
      elim replayed [
        | throws x ↦ (caught x, record a1 { state = a.state; version = a.version })
        | ok u ↦ (ok done, mark_restored (version + length es) a1)
      ]

  unfoldable pub restore_from_snapshot_with_events :
      EventSourcedAggregate S P → AggregateSnapshot N → List (DomainEvent P) → Reply (Returned D X)
  unfolding assert_no_pending_events restored_state caught_snapshot restore_tail
  restore_from_snapshot_with_events a snapshot es = elim (assert_no_pending_events a) [
    | throws x ↦ (throws x, a)
    | ok u ↦ elim (restored_state snapshot) [
      | throws x ↦ (caught_snapshot x, a)
      | ok restored ↦ restore_tail a snapshot.version restored es
    ]
  ]

  -- `now` is the factory's time.
  unfoldable pub create_snapshot :
      EventSourcedAggregate S P → ℕ → Outcome (Thrown D X) (AggregateSnapshot N)
  create_snapshot a now = do
    state ← c.to_snapshot_state a.state
    ok (record {
      state = state;
      version = a.version;
      snapshot_at = now;
      schema_version = some c.snapshot_schema_version;
    })

-- The persistence capability: what a successful commit does to the aggregate.
unfoldable pub acknowledge :
    {S P : Type 0} → EventSourcedAggregate S P → ℕ → EventSourcedAggregate S P
acknowledge a version = record a {
  version = version;
  persisted_version = some version;
  pending_events = [];
}

unfoldable pub discard_pending_events :
    {S P : Type 0} → EventSourcedAggregate S P → EventSourcedAggregate S P
discard_pending_events a = record a { pending_events = [] }
