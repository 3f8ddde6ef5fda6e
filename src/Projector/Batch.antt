-- ===== src/Projector/Batch.antt =====
-- What a batch that is projected has done to the read model.
use mathlib.Core.Path.{subst}
use ddd_kit_ts.Base.{
  ◌+◌, ◌≡◌, inl, inr, refl, sym, ap, ◌∙◌, Option, none, some, List, [], ◌∷◌, map, length, arith,
  Outcome, ok, throws, ok-throws, ok-inj, bind_ok, Option-cases, Outcome-cases,
}
use ddd_kit_ts.Base.JsMap
use ddd_kit_ts.Base.JsMap.{JsMap}
use ddd_kit_ts.AggregateAddress.{
  AggregateAddress, AddressKey, AddressKey-discrete, encode_aggregate_address,
}
use ddd_kit_ts.Checkpoints.{CommitPosition, ProjectionCheckpoint}
use ddd_kit_ts.Projector.{
  ProjectedEvent, CommittedDomainEvent, Cursored, outside, ProjectionBatchResult, Plan, Started,
  watermark_of, watermark_at, key_of, cursor_all, load_all, check_stored, check_batch, check_order,
  plan_from, plan_all, plan_batch, apply_all, save_all, run_plan, project,
}
use ddd_kit_ts.Projector.Loaded.{load_all-AllLoaded, load_all-covers, watermark-plan_from}
use ddd_kit_ts.Projector.Chain.{
  Chain, Picked, none_left, pick, leave, positions_at, positions_at_yes, positions_at_no, Progress,
  plan_all-Progress,
}
use ddd_kit_ts.Projector.Valid.{
  IsIncreasing, Chain-IsIncreasing, cursor_all-valid, Picked-valid, positions_at-valid,
}

module _ {P : Type 0} where
  Picked-positions :
      (k : AddressKey) (ys xs : List (Cursored P))
      → Picked ys xs
      → positions_at k xs ≡ []
      → positions_at k ys ≡ []
  Picked-positions k ys xs none_left h = refl
  Picked-positions k (x ∷ ys) (x' ∷ xs) (pick p) h = elim (AddressKey-discrete (key_of x) k) [
    | yes here ↦ absurd (cons_nil (sym (positions_at_yes k x xs here) ∙ h))
    | no ne ↦
        positions_at_no k x ys ne ∙ Picked-positions k ys xs p (sym (positions_at_no k x xs ne) ∙ h)
  ]
    where
      cons_nil : {p : CommitPosition} {ps : List CommitPosition} → p ∷ ps ≡ [] → ⊥
      cons_nil e = ground (arith, e)
  Picked-positions k ys (x ∷ xs) (leave p) h = elim (AddressKey-discrete (key_of x) k) [
    | yes here ↦ absurd (cons_nil (sym (positions_at_yes k x xs here) ∙ h))
    | no ne ↦ Picked-positions k ys xs p (sym (positions_at_no k x xs ne) ∙ h)
  ]
    where
      cons_nil : {p : CommitPosition} {ps : List CommitPosition} → p ∷ ps ≡ [] → ⊥
      cons_nil e = ground (arith, e)

  -- What the guards of a batch have found out.
  pub record Planned (load : AggregateAddress → Option ProjectionCheckpoint)
      (events : List (CommittedDomainEvent P)) (plan : Plan P) : Type 0 where
    pub cursored : List (Cursored P)
    pub started : Started
    pub passed : cursor_all events ≡ ok cursored
    pub loaded : load_all load [] cursored ≡ ok started
    pub planned : plan_all (plan_from started) cursored ≡ ok plan

  pub plan_batch-Planned :
      (load : AggregateAddress → Option ProjectionCheckpoint)
      (events : List (CommittedDomainEvent P)) (plan : Plan P)
      → plan_batch load events ≡ ok plan
      → Planned load events plan
  unfolding plan_batch
  plan_batch-Planned load events plan h =
      let (cursored, passed, h1) = bind_ok (cursor_all events) _ plan h in
      let (started, loaded, h2) = bind_ok (load_all load [] cursored) _ plan h1 in
      let (u, stored_pass, h3) = bind_ok (check_stored started cursored) _ plan h2 in
      let (v, batch_pass, h4) = bind_ok (check_batch [] cursored) _ plan h3 in
      let (w, order_pass, h5) = bind_ok (check_order started [] [] cursored) _ plan h4 in
      record {
        cursored = cursored;
        started = started;
        passed = passed;
        loaded = loaded;
        planned = h5;
      }

  -- What a batch applies: some of its events, in their order, and for each address an unbroken
  -- chain of positions from the store's checkpoint on, each after the one before it.
  pub record AppliedChain (load : AggregateAddress → Option ProjectionCheckpoint)
      (events : List (CommittedDomainEvent P)) (plan : Plan P) : Type 0 where
    pub cursored : List (Cursored P)
    pub passed : cursor_all events ≡ ok cursored
    pub steps : List (Cursored P)
    pub picked : Picked steps cursored
    pub to_apply : plan.to_apply ≡ map (λ x. x.event) steps
    pub applied : plan.applied ≡ length steps
    pub total : plan.applied + plan.skipped ≡ length events
    pub chained :
        (a : AggregateAddress)
        → (w : Option CommitPosition) × Chain
            (watermark_of (load a))
            (positions_at (encode_aggregate_address a) steps)
            w
    pub increasing :
        (a : AggregateAddress)
        → IsIncreasing (watermark_of (load a)) (positions_at (encode_aggregate_address a) steps)

  Chain-from_store :
      (load : AggregateAddress → Option ProjectionCheckpoint)
      (events : List (CommittedDomainEvent P)) (plan : Plan P) (v : Planned load events plan)
      (p : Progress (plan_from v.started) plan v.cursored) (a : AggregateAddress)
      → (w : Option CommitPosition) × Chain
          (watermark_of (load a))
          (positions_at (encode_aggregate_address a) p.steps)
          w
  Chain-from_store load events plan v p a =
      elim (Option-cases (JsMap.get AddressKey-discrete (encode_aggregate_address a) v.started)) [
        | inr (s, at) ↦
            let same : s ≡ load a =
              load_all-AllLoaded load [] v.started v.cursored v.loaded
                (λ b t h. absurd (nothing_yet t h)) a s at in
            let mark : watermark_at (plan_from v.started) (encode_aggregate_address a)
                ≡ watermark_of (load a) =
              watermark-plan_from P v.started (encode_aggregate_address a) s at
              ∙ ap watermark_of same in
            (
              watermark_at plan (encode_aggregate_address a),
              subst
                  (λ w.
                    Chain w (positions_at (encode_aggregate_address a) p.steps)
                      (watermark_at plan (encode_aggregate_address a)))
                  mark (p.chained (encode_aggregate_address a)),
            )
        | inl absent ↦
            let empty : positions_at (encode_aggregate_address a) p.steps ≡ [] =
              Picked-positions (encode_aggregate_address a) p.steps v.cursored p.picked (
                load_all-covers load (encode_aggregate_address a) [] v.started v.cursored v.loaded
                  absent) in
            (
              watermark_of (load a),
              subst (λ ps. Chain (watermark_of (load a)) ps (watermark_of (load a))) (sym empty)
                  Chain.stay,
            )
      ]
    where
      nothing_yet : (t : Option ProjectionCheckpoint) → none ≡ some t → ⊥
      nothing_yet t h = ground (arith, h)

  pub plan_batch-AppliedChain :
      (load : AggregateAddress → Option ProjectionCheckpoint)
      (events : List (CommittedDomainEvent P)) (plan : Plan P)
      → plan_batch load events ≡ ok plan
      → AppliedChain load events plan
  unfolding plan_from
  plan_batch-AppliedChain load events plan h =
      let v : Planned load events plan = plan_batch-Planned load events plan h in
      let p : Progress (plan_from v.started) plan v.cursored =
        plan_all-Progress (plan_from v.started) plan v.cursored v.planned in
      let (valid, n) = cursor_all-valid events v.cursored v.passed in
      record {
        cursored = v.cursored;
        passed = v.passed;
        steps = p.steps;
        picked = p.picked;
        to_apply = p.events;
        applied = omega (arith, p.count);
        total = omega (arith, p.total, n);
        chained = λ a. Chain-from_store load events plan v p a;
        increasing = λ a.
            let (w, chain) = Chain-from_store load events plan v p a in
            Chain-IsIncreasing (watermark_of (load a)) w
              (positions_at (encode_aggregate_address a) p.steps)
              (positions_at-valid (encode_aggregate_address a) p.steps
                (Picked-valid p.steps v.cursored p.picked valid))
              chain;
      }

module _ {P C R X : Type 0} (load : C → AggregateAddress → Option ProjectionCheckpoint)
    (save : C → AggregateAddress → ProjectionCheckpoint → Outcome X (Unit {0}) × C)
    (apply : R → ProjectedEvent P → Outcome X (Unit {0}) × R) where
  run_plan_ok :
      (c c' : C) (r r' : R) (plan : Plan P) (result : ProjectionBatchResult)
      → run_plan load save apply c r plan ≡ (ok result, c', r')
      → (apply_all load save apply r plan.to_apply ≡ (ok tt, r'))
        × (result.applied ≡ plan.applied)
        × (result.skipped ≡ plan.skipped)
  unfolding run_plan
  run_plan_ok c c' r r' plan result h =
      elim (Outcome-cases (apply_all load save apply r plan.to_apply).0) [
        | inr (x, failed) ↦
            let thrown : (run_plan load save apply c r plan).0 ≡ throws (outside x) =
              rw (failed, run_plan) refl in
            absurd (ok-throws (outside x) (sym (ap (λ q. q.0) h) ∙ thrown))
        | inl (u, fine) ↦ elim (Outcome-cases (save_all load save apply c plan.advanced).0) [
          | inr (x, failed) ↦
              let thrown : (run_plan load save apply c r plan).0 ≡ throws (outside x) =
                rw (fine, failed, run_plan) refl in
              absurd (ok-throws (outside x) (sym (ap (λ q. q.0) h) ∙ thrown))
          | inl (w, saved) ↦
              let gave : (run_plan load save apply c r plan).0
                  ≡ ok (record { applied = plan.applied; skipped = plan.skipped }) =
                rw (fine, saved, run_plan) refl in
              let model : (run_plan load save apply c r plan).2
                  ≡ (apply_all load save apply r plan.to_apply).1 =
                rw (fine, saved, run_plan) refl in
              let counts : record { applied = plan.applied; skipped = plan.skipped } ≡ result =
                ok-inj (record { applied = plan.applied; skipped = plan.skipped }) result
                  (sym gave ∙ ap (λ q. q.0) h) in
              let last : (apply_all load save apply r plan.to_apply).1 ≡ r' =
                sym model ∙ ap (λ q. q.2) h in
              (
                λ i. (fine i, last i),
                ap (λ q. q.applied) (sym counts),
                ap (λ q. q.skipped) (sym counts),
              )
        ]
      ]

  -- A batch that is projected updates the read model with some of its events, in their order: for
  -- each address exactly those of an unbroken chain of positions that starts at the stored
  -- checkpoint, each after the one before it, so no event is applied twice and none is left out
  -- between two that are. The two counts of the result add up to the batch.
  pub projected_in_chain :
      (c c' : C) (r r' : R) (events : List (CommittedDomainEvent P))
      (result : ProjectionBatchResult)
      → project load save apply c r events ≡ (ok result, c', r')
      → (plan : Plan P) × AppliedChain (load c) events plan
        × (apply_all load save apply r plan.to_apply ≡ (ok tt, r'))
        × (result.applied ≡ plan.applied)
        × (result.applied + result.skipped ≡ length events)
  unfolding project
  projected_in_chain c c' r r' events result h = elim (Outcome-cases (plan_batch (load c) events)) [
    | inr (e, refused) ↦ absurd (ground arith)
    | inl (plan, planned) ↦
        let run : run_plan load save apply c r plan ≡ (ok result, c', r') =
          sym (rw (planned, project) refl) ∙ h in
        let v : AppliedChain (load c) events plan =
          plan_batch-AppliedChain (load c) events plan planned in
        let (applied, a, s) = run_plan_ok c c' r r' plan result run in
        (plan, v, applied, a, omega (arith, a, s, v.total))
  ]
