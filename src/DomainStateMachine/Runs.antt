-- ===== src/DomainStateMachine/Runs.antt =====
-- Machines that run: where they can be, and what their snapshots satisfy.
use mathlib.Core.Path.{subst}
use ddd_kit_ts.Base.{
  ◌≡◌, inl, inr, refl, sym, ap, ◌∙◌, Bool, Option, none, some, List, [], ◌∷◌, arith, ok, bind_ok,
  Bool-cases, Outcome-cases, ok-inj, ok-throws,
}
use ddd_kit_ts.DomainStateMachine.{
  DomainMachineInput, RuntimeInput, DomainMachineSnapshot, DomainMachineDefinition,
  DomainStateMachine, validate_definition, validate_snapshot_invariant, create_snapshot,
  create_initial, prepare_snapshot, new, transition, dispatch,
}
use ddd_kit_ts.Base.JsMap
use ddd_kit_ts.Base.JsString.{JsString, JsString-discrete}
use ddd_kit_ts.DomainStateMachine.Analyzer.{
  DomainMachineDefinitionAnalysis, analyze_domain_machine_definition,
}
use ddd_kit_ts.DomainStateMachine.Visited.{In}
use ddd_kit_ts.DomainStateMachine.Reachable.{
  Reach, start, follow, structurally_reachable_exact, dispatch_all, Fired, transition-Fired,
}

module _ {C I O D X : Type 0} (context_copies : C → Bool)
    (input_copies : DomainMachineInput I → Bool) (outputs_copy : List O → Bool) where
  -- A call leaves a machine alone or fires one transition.
  data Dispatched (m m' : DomainStateMachine C I O D X) : Type 0 where
    refused : m ≡ m' → Dispatched m m'
    fired :
        (s : DomainMachineSnapshot C)
        → Fired context_copies input_copies outputs_copy m.definition m.snapshot s
        → record m { snapshot = s } ≡ m'
        → Dispatched m m'

  dispatch-Dispatched :
      (m : DomainStateMachine C I O D X) (input : RuntimeInput I)
      → Dispatched m (dispatch context_copies input_copies outputs_copy m input).1
  unfolding dispatch
  dispatch-Dispatched m input = elim (Bool-cases m.evaluating) [
    | inl busy ↦ refused (ground (arith, busy))
    | inr free ↦
        elim (Outcome-cases
          (transition context_copies input_copies outputs_copy m.definition m.snapshot input)) [
            | inr (e, h) ↦ refused (ground (arith, free, h))
            | inl (outcome, h) ↦
                fired outcome.snapshot
                  (transition-Fired context_copies input_copies outputs_copy m.definition m.snapshot
                    input outcome h)
                  (ground (arith, free, h))
          ]
  ]

  -- The machine runs the definition; its state is one that transitions lead to, and its snapshot
  -- passes the validation of snapshots.
  record Runs (d : DomainMachineDefinition C I O D X) (P : DomainMachineSnapshot C → Type 0)
      (m : DomainStateMachine C I O D X) : Type 0 where
    runs : m.definition ≡ d
    holds : P m.snapshot

  -- What the transitions keep is kept by all calls.
  dispatch_all-Runs :
      (d : DomainMachineDefinition C I O D X) (P : DomainMachineSnapshot C → Type 0)
      → ((s s' : DomainMachineSnapshot C)
          → Fired context_copies input_copies outputs_copy d s s'
          → P s
          → P s')
      → (inputs : List (RuntimeInput I)) (m : DomainStateMachine C I O D X) → Runs d P m
      → Runs d P (dispatch_all context_copies input_copies outputs_copy m inputs)
  unfolding dispatch_all
  dispatch_all-Runs d P keep [] m r = r
  dispatch_all-Runs d P keep (input ∷ inputs) m r =
      dispatch_all-Runs d P keep inputs
        (dispatch context_copies input_copies outputs_copy m input).1
        (elim (dispatch-Dispatched m input) [
          | refused e ↦ subst (Runs d P) e r
          | fired s f e ↦
              let f' =
                subst (λ z. Fired context_copies input_copies outputs_copy z m.snapshot s) r.runs
                  f in
              subst (Runs d P) e (record { runs = r.runs; holds = keep m.snapshot s f' r.holds })
        ])

  create_snapshot-eq :
      (state : JsString) (context : C) (s : DomainMachineSnapshot C)
      → create_snapshot {D = D} {X = X} context_copies input_copies outputs_copy state context
        ≡ ok s
      → s.state ≡ state
  unfolding create_snapshot
  create_snapshot-eq state context s h = ground (arith, h)

  -- What the constructor gives.
  record Started (d : DomainMachineDefinition C I O D X) (m : DomainStateMachine C I O D X)
      : Type 0 where
    valid : validate_definition d ≡ ok tt
    runs : m.definition ≡ d
    invariant : validate_snapshot_invariant d m.snapshot ≡ ok tt

  create_initial-ok :
      (d : DomainMachineDefinition C I O D X) (s : DomainMachineSnapshot C)
      → create_initial context_copies input_copies outputs_copy d ≡ ok s
      → (s.state ≡ d.initial) × (validate_snapshot_invariant d s ≡ ok tt)
  unfolding create_initial
  create_initial-ok d s h = elim (Outcome-cases d.initial_context) [
    | inr (x, e) ↦ absurd (ok-throws _ (sym (rw (e, create_initial) at h)))
    | inl (context, e) ↦
        let (t, made, h1) =
          bind_ok (create_snapshot context_copies input_copies outputs_copy d.initial context) _ s
            (rw (e, create_initial) at h) in
        let (u, fine, h2) = bind_ok (validate_snapshot_invariant d t) _ s h1 in
        let same : t ≡ s = ok-inj t s h2 in
        (
          ap (λ z. z.state) (sym same) ∙ create_snapshot-eq d.initial context t made,
          subst (λ z. validate_snapshot_invariant d z ≡ ok tt) same fine,
        )
  ]

  prepare_snapshot-ok :
      (d : DomainMachineDefinition C I O D X) (given s : DomainMachineSnapshot C)
      → prepare_snapshot context_copies input_copies outputs_copy d given ≡ ok s
      → validate_snapshot_invariant d s ≡ ok tt
  unfolding prepare_snapshot
  prepare_snapshot-ok d given s h =
      elim (Bool-cases (JsMap.has JsString-discrete given.state d.states)) [
        | inr missing ↦ absurd (ok-throws _ (sym (rw (missing, prepare_snapshot) at h)))
        | inl present ↦
            let (t, made, h1) =
              bind_ok
                (create_snapshot context_copies input_copies outputs_copy given.state given.context)
                _ s (rw (present, prepare_snapshot) at h) in
            let (u, fine, h2) = bind_ok (validate_snapshot_invariant d t) _ s h1 in
            subst (λ z. validate_snapshot_invariant d z ≡ ok tt) (ok-inj t s h2) fine
      ]

  -- The machine of a new definition, without a snapshot or with one.
  new-Started :
      (d : DomainMachineDefinition C I O D X) (supplied : Option (DomainMachineSnapshot C))
      (m : DomainStateMachine C I O D X)
      → new context_copies input_copies outputs_copy d supplied ≡ ok m
      → Started d m × (supplied ≡ none → m.snapshot.state ≡ d.initial)
  unfolding new
  new-Started d none m h =
      let (u, valid, h1) = bind_ok (validate_definition d) _ m h in
      let (s, made, h2) =
        bind_ok (create_initial context_copies input_copies outputs_copy d) _ m h1 in
      let same = ok-inj _ m h2 in
      let (at, invariant) = create_initial-ok d s made in
      (
        record {
          valid = valid;
          runs = ap (λ z. z.definition) (sym same);
          invariant = subst (λ z. validate_snapshot_invariant d z.snapshot ≡ ok tt) same invariant;
        },
        λ _. ap (λ z. z.snapshot.state) (sym same) ∙ at,
      )
  new-Started d (some given) m h =
      let (u, valid, h1) = bind_ok (validate_definition d) _ m h in
      let (s, made, h2) =
        bind_ok (prepare_snapshot context_copies input_copies outputs_copy d given) _ m h1 in
      let same = ok-inj _ m h2 in
      (
        record {
          valid = valid;
          runs = ap (λ z. z.definition) (sym same);
          invariant =
              subst (λ z. validate_snapshot_invariant d z.snapshot ≡ ok tt) same
                (prepare_snapshot-ok d given s made);
        },
        λ e. absurd (cc),
      )

  -- A machine that starts in the initial state of its definition is at any time, after any inputs, in
  -- a state that the analysis of the definition lists as structurally reachable.
  pub runs_are_reachable :
      (d : DomainMachineDefinition C I O D X) (m : DomainStateMachine C I O D X)
      (inputs : List (RuntimeInput I))
      → new context_copies input_copies outputs_copy d none ≡ ok m
      → (a : DomainMachineDefinitionAnalysis) × (analyze_domain_machine_definition d ≡ ok (some a))
        × In
            (dispatch_all context_copies input_copies outputs_copy m inputs).snapshot.state
            a.structurally_reachable_states
  runs_are_reachable d m inputs h =
      let (started, at) = new-Started d none m h in
      let (a, analyzed, exact) = structurally_reachable_exact d started.valid in
      let run =
        dispatch_all-Runs d (λ s. Reach d s.state) (λ s s' f r. follow r f.moved) inputs m
          (record { runs = started.runs; holds = rw (at refl) start }) in
      (
        a,
        analyzed,
        (exact (dispatch_all context_copies input_copies outputs_copy m inputs).snapshot.state).1
            run.holds,
      )

  -- The snapshot of a machine, new or resumed from a snapshot, passes the validation of its state and
  -- of its definition after any inputs, so the state is one that the definition has.
  pub snapshots_stay_valid :
      (d : DomainMachineDefinition C I O D X) (supplied : Option (DomainMachineSnapshot C))
      (m : DomainStateMachine C I O D X) (inputs : List (RuntimeInput I))
      → new context_copies input_copies outputs_copy d supplied ≡ ok m
      → validate_snapshot_invariant d
          (dispatch_all context_copies input_copies outputs_copy m inputs).snapshot
        ≡ ok tt
  snapshots_stay_valid d supplied m inputs h =
      let (started, _) = new-Started d supplied m h in
      let run =
        dispatch_all-Runs d (λ s. validate_snapshot_invariant d s ≡ ok tt) (λ s s' f r. f.invariant)
          inputs m (record { runs = started.runs; holds = started.invariant }) in
      run.holds
