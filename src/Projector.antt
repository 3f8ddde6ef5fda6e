-- ===== src/Projector.antt =====
-- src/projections/projector.ts: a batch of committed events against the checkpoints of one
-- projection. The checkpoint port and the projection are parameters: `load` and `save` for the
-- projection's name, and `apply`, which updates the read model. The transaction and the locks
-- around a batch belong to the caller's scope; a batch that throws gives the state at the throw.
mod Positions
mod Planning
pub mod Loaded
pub mod Valid
pub mod Batch
pub mod Own
pub mod Chain
pub mod Redelivery
mod Tests
unfoldable pub use Positions.*
unfoldable pub use Planning.*
use ddd_kit_ts.Base.{
  ap, ◌≡◌, get_or, ℕ, ◌+◌, Bool, true, false, not, ◌&&◌, ◌||◌, Option, none, some, List, [], ◌∷◌,
  ◌++◌, ltb, leb, ◌==◌, if◌then◌else◌, Outcome, ok, throws, ◌>>=◌, ℕ_discrete,
}
use ddd_kit_ts.Base.JsMap
use ddd_kit_ts.Base.JsMap.{JsMap}
use ddd_kit_ts.Base.JsString.{JsString, str_eq}
use ddd_kit_ts.AggregateAddress.{
  AggregateAddress, AddressKey, AddressKey-discrete, encode_aggregate_address,
}
use ddd_kit_ts.Checkpoints.{CommitPosition, ProjectionCheckpoint, is_position_after}

module _ {P C R X : Type 0} (load : C → AggregateAddress → Option ProjectionCheckpoint)
    (save : C → AggregateAddress → ProjectionCheckpoint → Outcome X (Unit {0}) × C)
    (apply : R → ProjectedEvent P → Outcome X (Unit {0}) × R) where
  unfoldable pub apply_all : R → List (ProjectedEvent P) → Outcome X (Unit {0}) × R
  apply_all r [] = (ok tt, r)
  apply_all r (e ∷ es) = elim (apply r e).0 [
    | throws x ↦ (throws x, (apply r e).1)
    | ok u ↦ apply_all (apply r e).1 es
  ]

  unfoldable pub save_all :
      C → JsMap AddressKey (AggregateAddress × ProjectionCheckpoint) → Outcome X (Unit {0}) × C
  save_all c [] = (ok tt, c)
  save_all c (e ∷ es) = elim (save c e.1.0 e.1.1).0 [
    | throws x ↦ (throws x, (save c e.1.0 e.1.1).1)
    | ok u ↦ save_all (save c e.1.0 e.1.1).1 es
  ]

  abbrev pub Reply : Type 0
  Reply = Outcome (Thrown X) ProjectionBatchResult × C × R

  -- The effects of a plan: the read model first, then the checkpoints.
  unfoldable pub run_plan : C → R → Plan P → Reply
  unfolding apply_all save_all
  run_plan c r plan =
      let (applied, r') = apply_all r plan.to_apply in
      let (saved, c') = save_all c plan.advanced in
      elim applied [
        | throws x ↦ (throws (outside x), c, r')
        | ok u ↦ elim saved [
          | throws x ↦ (throws (outside x), c', r')
          | ok w ↦ (ok (record { applied = plan.applied; skipped = plan.skipped }), c', r')
        ]
      ]

  unfoldable pub project : C → R → List (CommittedDomainEvent P) → Reply
  unfolding plan_batch run_plan
  project c r events = elim (plan_batch (load c) events) [
    | throws e ↦ (throws (kit e), c, r)
    | ok plan ↦ run_plan c r plan
  ]
