-- ===== src/Projector/Redelivery.antt =====
-- One record delivered again, as the outbox does: `toOutboxSink` projects each record by itself.
use mathlib.Core.Path.{subst}
use ddd_kit_ts.Base.{
  ◌≡◌, ◌⊎◌, inl, inr, refl, sym, ap, ◌∙◌, Option, some, [], ◌∷◌, arith, Outcome, ok, ok-throws,
  ok-inj, Outcome-cases,
}
use ddd_kit_ts.AggregateAddress.{AggregateAddress}
use ddd_kit_ts.Checkpoints.{ProjectionCheckpoint}
use ddd_kit_ts.Projector.{
  ProjectedEvent, CommittedDomainEvent, Cursored, ProjectionBatchResult, Plan, Started, key_of,
  cursor_of, cursor_all, plan_from, plan_all, plan_batch, skip, advance, apply_all, save_all,
  run_plan, project,
}
use ddd_kit_ts.Projector.Chain.{plan_one-cases, plan_all-next, plan_all-refused}
use ddd_kit_ts.Projector.Valid.{cursor_all-cons}
use ddd_kit_ts.Projector.Batch.{Planned, plan_batch-Planned}
use ddd_kit_ts.Projector.Own.{checkpoint_of, plan_redelivery}

module _ {P : Type 0} where
  -- The plan of a batch of one record: the record is skipped, or it advances its address.
  plan_one_record :
      (load : AggregateAddress → Option ProjectionCheckpoint) (e : CommittedDomainEvent P)
      (plan : Plan P)
      → plan_batch load (e ∷ []) ≡ ok plan
      → (x : Cursored P) × (started : Started) × (cursor_of e ≡ ok x)
        × ((plan ≡ skip (plan_from started)) ⊎ (plan ≡ advance (plan_from started) x))
  unfolding plan_all cursor_all
  plan_one_record load e plan h =
      let v : Planned load (e ∷ []) plan = plan_batch-Planned load (e ∷ []) plan h in
      let (x, ys, passed, rest, same) = cursor_all-cons e [] v.cursored v.passed in
      let single : x ∷ [] ≡ v.cursored = ap (λ zs. x ∷ zs) (ok-inj [] ys rest) ∙ same in
      let planned : plan_all (plan_from v.started) (x ∷ []) ≡ ok plan =
        ap (plan_all (plan_from v.started)) single ∙ v.planned in
      (
        x,
        v.started,
        passed,
        elim (plan_one-cases (plan_from v.started) x) [
          | inl old ↦ inl (
              ok-inj plan (skip (plan_from v.started)) (
                sym planned
                ∙ plan_all-next (plan_from v.started) (skip (plan_from v.started)) x [] old))
          | inr (inl (new, next)) ↦ inr (
              ok-inj plan (advance (plan_from v.started) x) (
                sym planned
                ∙ plan_all-next (plan_from v.started) (advance (plan_from v.started) x) x [] new))
          | inr (inr (err, broken)) ↦
              absurd (
                ok-throws err
                  (sym planned ∙ plan_all-refused (plan_from v.started) x [] err broken))
        ],
      )

abbrev pub nothing_new : ProjectionBatchResult
nothing_new = record { applied = 0; skipped = 1 }

module _ {P C R X : Type 0} (load : C → AggregateAddress → Option ProjectionCheckpoint)
    (save : C → AggregateAddress → ProjectionCheckpoint → Outcome X (Unit {0}) × C)
    (apply : R → ProjectedEvent P → Outcome X (Unit {0}) × R) where
  run_skip :
      (c : C) (r : R) (started : Started)
      → run_plan load save apply c r (skip (plan_from started)) ≡ (ok nothing_new, c, r)
  unfolding run_plan plan_from apply_all save_all
  run_skip c r started = refl

  -- A run that advances one address has saved its checkpoint.
  run_advance :
      (c c' : C) (r r' : R) (started : Started) (x : Cursored P) (result : ProjectionBatchResult)
      → run_plan load save apply c r (advance (plan_from started) x) ≡ (ok result, c', r')
      → save c x.address (checkpoint_of x) ≡ (ok tt, c')
  unfolding run_plan plan_from apply_all save_all
  run_advance c c' r r' started x result h = elim (Outcome-cases (apply r x.event).0) [
    | inr (y, failed) ↦ absurd (ground arith)
    | inl (u, fine) ↦ elim (Outcome-cases (save c x.address (checkpoint_of x)).0) [
      | inr (y, failed) ↦ absurd (ground arith)
      | inl (w, saved) ↦
          let last : (save c x.address (checkpoint_of x)).1 ≡ c' = ground arith in
          λ i. (saved i, last i)
    ]
  ]

  -- A record that has been projected and is delivered again is skipped, and neither the read model
  -- nor the checkpoints change: for a store that gives back the checkpoint that it has saved.
  pub redelivery_is_skipped :
      (c c' : C) (r r' : R) (e : CommittedDomainEvent P) (result : ProjectionBatchResult)
      → ((s s' : C) (a : AggregateAddress) (ck : ProjectionCheckpoint)
          → save s a ck ≡ (ok tt, s')
          → load s' a ≡ some ck)
      → project load save apply c r (e ∷ []) ≡ (ok result, c', r')
      → project load save apply c' r' (e ∷ []) ≡ (ok nothing_new, c', r')
  unfolding project
  redelivery_is_skipped c c' r r' e result save_load h =
      elim (Outcome-cases (plan_batch (load c) (e ∷ []))) [
        | inr (err, refused) ↦ absurd (ground arith)
        | inl (plan, planned) ↦
            let run : run_plan load save apply c r plan ≡ (ok result, c', r') =
              sym (rw (planned, project) refl) ∙ h in
            let (x, started, passed, which) = plan_one_record (load c) e plan planned in
            elim which [
              | inl old ↦
                  let ends : (ok nothing_new, c, r) ≡ (ok result, c', r') =
                    sym (ap (run_plan load save apply c r) old ∙ run_skip c r started) ∙ run in
                  let cs : c ≡ c' = ap (λ q. q.1) ends in
                  let rs : r ≡ r' = ap (λ q. q.2) ends in
                  subst (λ z. project load save apply z r' (e ∷ []) ≡ (ok nothing_new, z, r')) cs
                    (subst (λ z. project load save apply c z (e ∷ []) ≡ (ok nothing_new, c, z)) rs
                      (h ∙ sym ends))
              | inr new ↦
                  let ran : run_plan load save apply c r (advance (plan_from started) x)
                      ≡ (ok result, c', r') =
                    ap (run_plan load save apply c r) (sym new) ∙ run in
                  let there : load c' x.address ≡ some (checkpoint_of x) =
                    save_load c c' x.address (checkpoint_of x)
                      (run_advance c c' r r' started x result ran) in
                  let again = plan_redelivery (load c') e x passed there in
                  rw (again, project) (run_skip c' r' ((key_of x, some (checkpoint_of x)) ∷ []))
            ]
      ]
