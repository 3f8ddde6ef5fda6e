-- ===== src/DomainStateMachine/Callbacks.antt =====
-- src/domain-state-machine/definition.ts, snapshot.ts and transition.ts: validation of a definition
-- and of a snapshot, and the calls of guards and reducers.
use ddd_kit_ts.Base.{
  Bool, true, false, Option, none, some, List, [], ◌∷◌, if◌then◌else◌, Outcome, ok, throws, ◌>>=◌,
}
use ddd_kit_ts.Base.JsMap
use ddd_kit_ts.Base.JsMap.{JsMap}
use ddd_kit_ts.Base.JsString.{JsString, JsString-discrete}
use ddd_kit_ts.DomainStateMachine.Types.{
  DomainMachineInput, DomainMachineSnapshot, DomainTransitionGuardResult, DomainTransitionResult,
  Verdict, DomainTransition, DomainStateNode, DomainMachineDefinition, Error, decision, rejection,
  not_a_result, reduced, malformed, verdict, not_boolean,
}

-- What a validation callback returned, with the error of a refusal.
unfoldable pub check_verdict :
    {D X : Type 0} → Error D X → Outcome X Verdict → Outcome (Error D X) (Unit {0})
check_verdict e (throws x) = throws (Error.raised x)
check_verdict e (ok not_boolean) = throws Error.verdict_not_boolean
check_verdict e (ok (verdict true)) = ok tt
check_verdict e (ok (verdict false)) = throws e

unfoldable pub check_optional :
    {C D X : Type 0}
    → Error D X
    → Option (DomainMachineSnapshot C → Outcome X Verdict)
    → DomainMachineSnapshot C
    → Outcome (Error D X) (Unit {0})
unfolding check_verdict
check_optional e none s = ok tt
check_optional e (some validate) s = check_verdict e (validate s)

-- `resolveDomainTransitionGuardResult`, with what the guard threw.
unfoldable pub resolve_guard :
    {D X : Type 0}
    → Outcome X (DomainTransitionGuardResult D)
    → Outcome (Error D X) (Bool × Option D)
resolve_guard (throws x) = throws (Error.raised x)
resolve_guard (ok (decision allowed)) = ok (allowed, none)
resolve_guard (ok (rejection e)) = ok (false, some e)
resolve_guard (ok not_a_result) = throws Error.invalid_guard_result

-- `validateDomainTransitionResult` and the reads of its parts, with what the reducer threw.
unfoldable pub read_result :
    {C O D X : Type 0}
    → Outcome X (DomainTransitionResult C O)
    → Outcome (Error D X) (Option C × Option (List O))
read_result (throws x) = throws (Error.raised x)
read_result (ok (reduced context outputs)) = ok (context, outputs)
read_result (ok malformed) = throws Error.invalid_result

module _ {C I O D X : Type 0} where
  abbrev pub node_at :
      DomainMachineDefinition C I O D X → JsString → Option (DomainStateNode C I O D X)
  node_at d state = JsMap.get JsString-discrete state d.states

  -- The transitions of a state: not from a terminal one, and to states that there are.
  unfoldable pub validate_transitions :
      DomainMachineDefinition C I O D X
      → JsString
      → Bool
      → JsMap JsString (DomainTransition C I O D X)
      → Outcome (Error D X) (Unit {0})
  unfolding JsString-discrete
  validate_transitions d state terminal [] = ok tt
  validate_transitions d state true (e ∷ on) = throws (Error.terminal_with_transitions state)
  validate_transitions d state false (e ∷ on) =
      let rest = validate_transitions d state false on in
      if JsMap.has JsString-discrete e.1.target d.states
      then rest
      else throws (Error.unknown_target state e.0 e.1.target)

  unfoldable pub validate_states :
      DomainMachineDefinition C I O D X
      → JsMap JsString (DomainStateNode C I O D X)
      → Outcome (Error D X) (Unit {0})
  unfolding validate_transitions
  validate_states d [] = ok tt
  validate_states d (e ∷ states) =
      let rest = validate_states d states in
      validate_transitions d e.0 e.1.terminal e.1.on >>= λ _. rest

  unfoldable pub validate_definition :
      DomainMachineDefinition C I O D X → Outcome (Error D X) (Unit {0})
  unfolding validate_states JsString-discrete
  validate_definition d =
      if JsMap.has JsString-discrete d.initial d.states
      then validate_states d d.states
      else throws Error.unknown_initial

  unfoldable pub validate_snapshot_invariant :
      DomainMachineDefinition C I O D X → DomainMachineSnapshot C → Outcome (Error D X) (Unit {0})
  unfolding check_optional JsString-discrete
  validate_snapshot_invariant d s = elim (node_at d s.state) [
    | none ↦ throws Error.no_node
    | some node ↦ check_optional (Error.context_violation s.state) node.validate_context s >>= λ _.
        check_optional (Error.snapshot_violation s.state) d.validate_snapshot s
  ]

  -- `getTransition`, and none from a terminal state.
  unfoldable pub transition_of :
      DomainStateNode C I O D X → JsString → Option (DomainTransition C I O D X)
  unfolding JsString-discrete
  transition_of node input_type =
      if node.terminal then none else JsMap.get JsString-discrete input_type node.on

  unfoldable pub run_guard :
      DomainTransition C I O D X
      → DomainMachineSnapshot C
      → DomainMachineInput I
      → Outcome (Error D X) (Bool × Option D)
  unfolding resolve_guard
  run_guard t s input = elim t.guard [
    | none ↦ ok (true, none)
    | some guard ↦ resolve_guard (guard s input)
  ]

  unfoldable pub run_reduce :
      DomainTransition C I O D X
      → DomainMachineSnapshot C
      → DomainMachineInput I
      → Outcome (Error D X) (Option C × Option (List O))
  unfolding read_result
  run_reduce t s input = elim t.reduce [
    | none ↦ ok (none, none)
    | some reduce ↦ read_result (reduce s input)
  ]

-- The guard's decision as `transitionPreparedDomainState` turns it into an error.
unfoldable pub enforce_guard :
    {D X : Type 0} → JsString → JsString → Bool × Option D → Outcome (Error D X) (Unit {0})
enforce_guard from input_type (true, reason) = ok tt
enforce_guard from input_type (false, none) = throws (Error.guard_rejected from input_type)
enforce_guard from input_type (false, some e) = throws (Error.rejected e)
