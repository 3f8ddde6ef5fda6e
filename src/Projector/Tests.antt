-- ===== src/Projector/Tests.antt =====
-- Runs of the projector over the in-memory checkpoint store, and each theorem at an input where its
-- hypotheses hold. The read model is the list of the payloads.
use ddd_kit_ts.Base.{
  ℕ, ◌+◌, ◌≡◌, refl, none, some, Option, List, [], ◌∷◌, ◌++◌, Outcome, ok, ℕ_discrete,
}
use ddd_kit_ts.Base.JsString.{JsString, JsString-discrete, str_eq}
use ddd_kit_ts.AggregateAddress.{AggregateAddress, AddressKey-discrete}
use ddd_kit_ts.Checkpoints.{
  ProjectionCheckpoint, InMemoryProjectionCheckpointStore, Error, load, save,
}
use ddd_kit_ts.Checkpoints.Reading.{load-save}
use ddd_kit_ts.Projector.{
  ProjectedEvent, CommittedDomainEvent, Plan, ProjectionBatchResult, project, apply_all,
  PositionKey-discrete, contains, watermarks_of,
}
use ddd_kit_ts.Projector.Batch.{AppliedChain, projected_in_chain}
use ddd_kit_ts.Projector.Redelivery.{nothing_new, redelivery_is_skipped}

program : Unit {0}
unfolding project load save JsString-discrete AddressKey-discrete ℕ_discrete str_eq
    PositionKey-discrete contains watermarks_of apply_all
program = tt

abbrev totals : JsString
totals = b't' ∷ []

abbrev load_totals :
    InMemoryProjectionCheckpointStore → AggregateAddress → Option ProjectionCheckpoint
load_totals s a = load s totals a

abbrev save_totals :
    InMemoryProjectionCheckpointStore
    → AggregateAddress
    → ProjectionCheckpoint
    → Outcome Error (Unit {0}) × InMemoryProjectionCheckpointStore
save_totals s a ck = save s totals a ck

abbrev apply_payload : List ℕ → ProjectedEvent ℕ → Outcome Error (Unit {0}) × List ℕ
apply_payload r e = (ok tt, r ++ e.payload ∷ [])

abbrev order : AggregateAddress
order = record { aggregate_type = b'o' ∷ []; aggregate_id = b'1' ∷ [] }

abbrev committed : JsString → ℕ → ℕ → ℕ → Option ℕ → CommittedDomainEvent ℕ
committed id version sequence size previous = record {
  event = record {
    event_id = some id;
    aggregate_id = none;
    aggregate_type = none;
    payload = version + sequence;
  };
  source = some order;
  position = some (record {
    aggregate_version = version;
    commit_sequence = sequence;
    commit_size = size;
    previous_eventful_aggregate_version = previous;
  });
}

abbrev first : CommittedDomainEvent ℕ
first = committed (b'a' ∷ []) 1 0 1 none

abbrev second : CommittedDomainEvent ℕ
second = committed (b'b' ∷ []) 3 0 1 (some 1)

abbrev empty : InMemoryProjectionCheckpointStore
empty = record { checkpoints = []; max_checkpoints = none; checkpoint_count = 0 }

abbrev both : ProjectionBatchResult
both = record { applied = 2; skipped = 1 }

-- Two commits of one order and a copy of the first.
batch_runs :
    (project load_totals save_totals apply_payload empty [] (first ∷ second ∷ first ∷ [])).0
    ≡ ok both
unfolding program
batch_runs = refl

projected_in_chain_example :
    let ran =
      project load_totals save_totals apply_payload empty [] (first ∷ second ∷ first ∷ []) in
    (plan : Plan ℕ) × AppliedChain (load_totals empty) (first ∷ second ∷ first ∷ []) plan
    × (apply_all load_totals save_totals apply_payload [] plan.to_apply ≡ (ok tt, ran.2))
    × (2 ≡ plan.applied)
    × (2 + 1 ≡ 3)
projected_in_chain_example =
    projected_in_chain load_totals save_totals apply_payload empty
      (project load_totals save_totals apply_payload empty [] (first ∷ second ∷ first ∷ [])).1 []
      (project load_totals save_totals apply_payload empty [] (first ∷ second ∷ first ∷ [])).2
      (first ∷ second ∷ first ∷ []) both (unfold program in refl)

redelivery_is_skipped_example :
    let ran = project load_totals save_totals apply_payload empty [] (first ∷ []) in
    project load_totals save_totals apply_payload ran.1 ran.2 (first ∷ [])
    ≡ (ok nothing_new, ran.1, ran.2)
redelivery_is_skipped_example =
    redelivery_is_skipped load_totals save_totals apply_payload empty
      (project load_totals save_totals apply_payload empty [] (first ∷ [])).1 []
      (project load_totals save_totals apply_payload empty [] (first ∷ [])).2 first
      (record { applied = 1; skipped = 0 }) (λ s s' a ck h. load-save s s' totals a ck h)
      (unfold program in refl)
