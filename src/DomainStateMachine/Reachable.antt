-- ===== src/DomainStateMachine/Reachable.antt =====
-- The analyzer's reachable states, and the states that a machine can reach by running.
use ddd_kit_ts.Base.{
  ◌≡◌, ◌↔◌, inl, inr, refl, sym, ap, Bool, true, Option, none, some, List, [], ◌∷◌, arith, ok,
  bind_ok, Bool-cases, Option-cases, ok-throws, ok-inj, get_or,
}
use ddd_kit_ts.Base.JsMap
use ddd_kit_ts.Base.JsString.{JsString, JsString-discrete}
use ddd_kit_ts.DomainStateMachine.{
  DomainMachineInput, DomainMachineSnapshot, DomainMachineDefinition, DomainStateMachine,
  DomainTransition, DomainStateNode, DomainTransitionOutcome, node_at, validate_definition,
  transition_of, run_guard, run_reduce, next_snapshot, create_snapshot, enforce_guard,
  apply_transition, transition, transition_input, validate_input, RuntimeInput, domain_input,
  other_value, validate_snapshot_invariant, dispatch,
}
use ddd_kit_ts.DomainStateMachine.Analyzer.{
  DomainMachineDefinitionAnalysis, filter_states, has_visited, sorted_states, keys, outgoing,
  incoming, terminal_states, analysis_of, analyze_domain_machine_definition,
}
use ddd_kit_ts.DomainStateMachine.Search.{Walk, here, along, visit_graph_correct}
use ddd_kit_ts.DomainStateMachine.Visited.{In, has_visited_iff}
use ddd_kit_ts.DomainStateMachine.SearchEnds.{visit_graph_total}
use ddd_kit_ts.DomainStateMachine.Edges.{Edge, edge, In-sort_strings, In-keys}
use ddd_kit_ts.DomainStateMachine.Outgoing.{outgoing-Edge}
use ddd_kit_ts.DomainStateMachine.Validation.{initial_node, target_node}
use mathlib.Core.List.{reverse}

In-filter_states :
    (p : JsString → Bool) (s : JsString) (ts : List JsString)
    → In s (filter_states p ts) ↔ (In s ts × (p s ≡ true))
unfolding filter_states
In-filter_states p s [] = ground arith
In-filter_states p s (t ∷ ts) = elim (Bool-cases (p t)) [
  | inl keep ↦ rw (keep, filter_states) (ground (arith, In-filter_states p s ts, keep))
  | inr drop ↦ rw (drop, filter_states) (ground (arith, In-filter_states p s ts, drop))
]

module _ {C I O D X : Type 0} (d : DomainMachineDefinition C I O D X) where
  -- The states to which transitions lead from the initial one, whatever the guards say.
  pub data Reach : JsString → Type 0 where
    start : Reach d.initial
    follow : {x y : JsString} → Reach x → Edge d x y → Reach y

  Reach-Walk : {x : JsString} → Reach x → Walk (outgoing d) d.initial x
  Reach-Walk start = here
  Reach-Walk (follow {x} {y} r e) = along (Reach-Walk r) ((outgoing-Edge d x y).1 e)

  Walk-Reach : {x : JsString} → Walk (outgoing d) d.initial x → Reach x
  Walk-Reach here = start
  Walk-Reach (along {x} {y} w m) = follow (Walk-Reach w) ((outgoing-Edge d x y).0 m)

  -- In a valid definition such a state is there.
  Reach-node :
      {x : JsString}
      → validate_definition d ≡ ok tt
      → Reach x
      → (node : DomainStateNode C I O D X) × (JsMap.get JsString-discrete x d.states ≡ some node)
  Reach-node valid start = initial_node d valid
  Reach-node valid (follow {x} {y} r e) = target_node d x y valid e

  -- The analysis of a valid definition ends, and the states that it lists as structurally reachable
  -- are exactly those to which transitions lead from the initial state.
  pub structurally_reachable_exact :
      validate_definition d ≡ ok tt
      → (a : DomainMachineDefinitionAnalysis) × (analyze_domain_machine_definition d ≡ ok (some a))
        × ((s : JsString) → In s a.structurally_reachable_states ↔ Reach s)
  unfolding analyze_domain_machine_definition
  structurally_reachable_exact valid =
      let (v, found) = visit_graph_total (outgoing d) (d.initial ∷ []) in
      let (w, ends) = visit_graph_total (incoming d) (reverse (terminal_states d)) in
      (
        analysis_of d v w,
        rw (valid, analyze_domain_machine_definition, found, ends) refl,
        λ s.
            let listed = In-filter_states (λ t. has_visited t v) s (sorted_states d) in
            let correct = visit_graph_correct (outgoing d) d.initial v found s in
            (
              λ m. Walk-Reach (correct.0 ((has_visited_iff s v).0 (listed.0 m).1)),
              λ r.
                  let (node, at) = Reach-node valid r in
                  listed.1 (
                    (In-sort_strings s (keys d.states)).1 (In-keys s node d.states at),
                    (has_visited_iff s v).1 (correct.1 (Reach-Walk r)),
                  ),
            ),
      )

module _ {C I O D X : Type 0} (context_copies : C → Bool)
    (input_copies : DomainMachineInput I → Bool) (outputs_copy : List O → Bool) where
  -- Several inputs, one after the other, whether or not they are accepted.
  unfoldable pub dispatch_all :
      DomainStateMachine C I O D X → List (RuntimeInput I) → DomainStateMachine C I O D X
  unfolding dispatch
  dispatch_all m [] = m
  dispatch_all m (input ∷ inputs) =
      dispatch_all (dispatch context_copies input_copies outputs_copy m input).1 inputs

  next_snapshot-state :
      (t : DomainTransition C I O D X) (s : DomainMachineSnapshot C) (context : Option C)
      (s' : DomainMachineSnapshot C)
      → next_snapshot context_copies input_copies outputs_copy t s context ≡ ok s'
      → s'.state ≡ t.target
  unfolding next_snapshot create_snapshot
  next_snapshot-state t s none s' h = ground arith
  next_snapshot-state t s (some context) s' h = ground arith

  -- What a transition that succeeds has done.
  pub record Fired (d : DomainMachineDefinition C I O D X) (s s' : DomainMachineSnapshot C)
      : Type 0 where
    pub moved : Edge d s.state s'.state
    pub invariant : validate_snapshot_invariant d s' ≡ ok tt

  apply_transition-ok :
      (d : DomainMachineDefinition C I O D X) (s : DomainMachineSnapshot C)
      (input : DomainMachineInput I) (t : DomainTransition C I O D X)
      (outcome : DomainTransitionOutcome C O)
      → apply_transition context_copies input_copies outputs_copy d s input t ≡ ok outcome
      → (outcome.snapshot.state ≡ t.target)
        × (validate_snapshot_invariant d outcome.snapshot ≡ ok tt)
  unfolding apply_transition
  apply_transition-ok d s input t outcome h =
      let (result, _, h1) = bind_ok (run_reduce t s input) _ outcome h in
      let (next, e2, h2) =
        bind_ok (next_snapshot context_copies input_copies outputs_copy t s result.0) _ outcome
          h1 in
      let (u, e3, h3) = bind_ok (validate_snapshot_invariant d next) _ outcome h2 in
      elim (Bool-cases (outputs_copy (get_or result.1 []))) [
        | inr refused ↦ absurd (ok-throws _ (sym (rw refused at h3)))
        | inl fine ↦
            let same : next ≡ outcome.snapshot =
              ap (λ o. o.snapshot) (ok-inj _ outcome (rw fine at h3)) in
            rw (← same) (next_snapshot-state t s result.0 next e2, e3)
      ]

  transition_of-some :
      (node : DomainStateNode C I O D X) (ty : JsString) (t : DomainTransition C I O D X)
      → transition_of node ty ≡ some t
      → JsMap.get JsString-discrete ty node.on ≡ some t
  unfolding transition_of
  transition_of-some node ty t h = elim (Bool-cases node.terminal) [
    | inl ends ↦ absurd (ground (arith, ends, h))
    | inr more ↦ rw more at h
  ]

  transition_input-Fired :
      (d : DomainMachineDefinition C I O D X) (s : DomainMachineSnapshot C)
      (input : DomainMachineInput I) (outcome : DomainTransitionOutcome C O)
      → transition_input context_copies input_copies outputs_copy d s input ≡ ok outcome
      → Fired d s outcome.snapshot
  unfolding transition_input
  transition_input-Fired d s input outcome h = elim (Option-cases (node_at d s.state)) [
    | inl missing ↦ absurd (ok-throws _ (sym (rw (missing, transition_input) at h)))
    | inr (node, at) ↦ elim (Option-cases (transition_of node input.input_type)) [
      | inl none_there ↦ absurd (ok-throws _ (sym (rw (at, transition_input, none_there) at h)))
      | inr (t, on) ↦ elim (Bool-cases (input_copies input)) [
        | inr refused ↦ absurd (ok-throws _ (sym (rw (at, transition_input, on, refused) at h)))
        | inl fine ↦
            let h0 = (rw (at, transition_input, on, fine) at h) in
            let (decided, _, h1) = bind_ok (run_guard t s input) _ outcome h0 in
            let (_, _, h2) =
              bind_ok (enforce_guard s.state input.input_type decided) _ outcome h1 in
            let (state, invariant) = apply_transition-ok d s input t outcome h2 in
            record {
              moved =
                  edge input.input_type at (transition_of-some node input.input_type t on)
                    (sym state);
              invariant = invariant;
            }
      ]
    ]
  ]

  pub transition-Fired :
      (d : DomainMachineDefinition C I O D X) (s : DomainMachineSnapshot C) (input : RuntimeInput I)
      (outcome : DomainTransitionOutcome C O)
      → transition context_copies input_copies outputs_copy d s input ≡ ok outcome
      → Fired d s outcome.snapshot
  unfolding transition validate_input
  transition-Fired d s (domain_input input) outcome h = transition_input-Fired d s input outcome h
  transition-Fired d s other_value outcome h = absurd (ok-throws _ (sym h))
