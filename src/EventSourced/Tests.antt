-- ===== src/EventSourced/Tests.antt =====
-- An account as an event-sourced aggregate, and each theorem at an input where its hypotheses hold.
use ddd_kit_ts.Base.{
  ℕ, ◌+◌, ◌≡◌, ◌≢◌, inl, refl, Option, none, some, true, [], ◌∷◌, arith, ltb, if◌then◌else◌,
  Outcome, ok, throws, ℕ_discrete, ◌-◌,
}
use ddd_kit_ts.Base.JsString.{JsString, str_eq, JsString-discrete}
use ddd_kit_ts.Snapshots.{AggregateSnapshot}
use ddd_kit_ts.EventSourced.{
  AggregateClass, EventSourcedAggregate, DomainEvent, Thrown, domain_error, foreign_event, done,
  apply, load_from_history, restore_from_snapshot_with_events, create_snapshot, acknowledge,
}
use ddd_kit_ts.EventSourced.Applied.{apply_all, applied_events_replay}
use ddd_kit_ts.EventSourced.Apply.{apply_atomic}
use ddd_kit_ts.EventSourced.Atomic.{load_atomic, restore_atomic}
use ddd_kit_ts.EventSourced.Effects.{loaded}
use ddd_kit_ts.EventSourced.SnapshotTail.{snapshot_plus_tail}

program : Unit {0}
unfolding apply load_from_history restore_from_snapshot_with_events create_snapshot acknowledge
    apply_all str_eq JsString-discrete ℕ_discrete
program = tt

abbrev account : JsString
account = b'a' ∷ []

abbrev paid_in : JsString
paid_in = b'i' ∷ []

abbrev paid_out : JsString
paid_out = b'o' ∷ []

-- Paying in adds; paying out more than the balance is a domain error.
unfoldable handlers_of : JsString → Option (ℕ → DomainEvent ℕ → Outcome (Thrown ℕ ℕ) ℕ)
unfolding str_eq JsString-discrete ℕ_discrete
handlers_of t =
    if str_eq t paid_in
    then some (λ s e. ok (s + e.payload))
    else if str_eq t paid_out
    then some (λ s e. if ltb s e.payload then throws (domain_error s) else ok (s - e.payload))
    else none

abbrev c : AggregateClass ℕ ℕ ℕ ℕ ℕ
c = record {
  aggregate_type = account;
  handlers = handlers_of;
  validate_event = λ s e. ok tt;
  validate_restored_state = λ s. ok tt;
  snapshot_schema_version = 1;
  to_snapshot_state = λ s. ok s;
  from_snapshot_state = λ s. ok s;
  migrate_snapshot_state = λ s v. ok s;
}

abbrev fresh : EventSourcedAggregate ℕ ℕ
fresh = record {
  id = b'1' ∷ [];
  state = 0;
  version = 0;
  persisted_version = none;
  pending_events = [];
}

abbrev event : JsString → ℕ → DomainEvent ℕ
event t n = record {
  event_type = t;
  aggregate_id = none;
  aggregate_type = none;
  minted = true;
  payload = n;
}

abbrev foreign : DomainEvent ℕ
foreign = record (event paid_in 3) { aggregate_id = some (b'2' ∷ []) }

load_runs :
    load_from_history c fresh (event paid_in 7 ∷ event paid_out 2 ∷ [])
    ≡ (ok done, record fresh { state = 5; version = 2; persisted_version = some 2 })
unfolding program handlers_of
load_runs = refl

foreign_refused :
    (load_from_history c fresh (event paid_in 7 ∷ foreign ∷ [])).0
    ≡ throws (foreign_event (b'1' ∷ []) paid_in)
unfolding program handlers_of
foreign_refused = refl

load_fails : (load_from_history c fresh (event paid_in 7 ∷ event paid_out 9 ∷ [])).0 ≢ ok done
unfolding program handlers_of
load_fails e = ground arith

load_atomic_example :
    (load_from_history c fresh (event paid_in 7 ∷ event paid_out 9 ∷ [])).1 ≡ fresh
load_atomic_example = load_atomic c fresh (event paid_in 7 ∷ event paid_out 9 ∷ []) load_fails

abbrev snapshot : AggregateSnapshot ℕ
snapshot = record { state = 7; version = 1; snapshot_at = 90; schema_version = some 1 }

restore_fails : (restore_from_snapshot_with_events c fresh snapshot (foreign ∷ [])).0 ≢ ok done
unfolding program handlers_of
restore_fails e = ground arith

restore_atomic_example :
    (restore_from_snapshot_with_events c fresh snapshot (foreign ∷ [])).1 ≡ fresh
restore_atomic_example = restore_atomic c fresh snapshot (foreign ∷ []) restore_fails

apply_fails : (apply c fresh (event paid_out 9)).0 ≢ ok tt
unfolding program handlers_of
apply_fails e = ground arith

apply_atomic_example : (apply c fresh (event paid_out 9)).1 ≡ fresh
apply_atomic_example = apply_atomic c fresh (event paid_out 9) apply_fails

abbrev other_instance : EventSourcedAggregate ℕ ℕ
other_instance = record fresh { state = 99 }

snapshot_plus_tail_example :
    restore_from_snapshot_with_events c other_instance snapshot (event paid_out 2 ∷ [])
    ≡ (ok done, loaded other_instance 5 2)
snapshot_plus_tail_example =
    snapshot_plus_tail c fresh (loaded fresh 7 1) (loaded fresh 5 2) other_instance
      (event paid_in 7 ∷ []) (event paid_out 2 ∷ []) snapshot 90 (refl, inl refl)
      (unfold program handlers_of in refl) (unfold program in refl) refl refl refl refl
      (unfold program handlers_of in refl)

applied_events_replay_example :
    let a' = (apply_all c fresh (event paid_in 7 ∷ event paid_out 2 ∷ [])).1 in
    (load_from_history c fresh a'.pending_events ≡ (ok done, acknowledge a' a'.version))
    × (a'.version ≡ 0 + 2)
applied_events_replay_example =
    applied_events_replay c fresh (apply_all c fresh (event paid_in 7 ∷ event paid_out 2 ∷ [])).1
      (event paid_in 7) (event paid_out 2 ∷ []) (refl, inl refl)
      (unfold program handlers_of in refl)
