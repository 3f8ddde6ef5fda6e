-- ===== src/DomainStateMachine.antt =====
-- src/domain-state-machine/domain-state-machine.ts, transition.ts, snapshot.ts and definition.ts. A
-- definition and a snapshot are well typed here, so the tests of their shape pass and a prepared
-- definition is the definition itself; an input may be any value. Callbacks are functions: they neither change what
-- they are given nor call the machine. The three sections' predicates say which contexts, inputs and
-- outputs the deep copy accepts; a copy is an equal value.
mod Types
mod Callbacks
pub mod Analyzer
pub mod Visited
pub mod SearchEnds
pub mod Search
mod Tests
pub mod Agreement
pub mod Runs
pub mod Reachable
pub mod Validation
pub mod Outgoing
pub mod Edges
unfoldable pub use Types.*
unfoldable pub use Callbacks.*
use ddd_kit_ts.Base.{
  Bool, true, false, not, ◌||◌, Option, none, some, List, [], ◌∷◌, if◌then◌else◌, Outcome, ok,
  throws, ◌>>=◌, get_or,
}
use ddd_kit_ts.Base.JsMap
use ddd_kit_ts.Base.JsMap.{JsMap}
use ddd_kit_ts.Base.JsString.{JsString, JsString-discrete}

-- The machine; `evaluating` is set while a call runs its callbacks.
pub record DomainStateMachine (C I O D X : Type 0) : Type 0 where
  pub definition : DomainMachineDefinition C I O D X
  pub snapshot : DomainMachineSnapshot C
  pub evaluating : Bool

module _ {C I O D X : Type 0} (context_copies : C → Bool)
    (input_copies : DomainMachineInput I → Bool) (outputs_copy : List O → Bool) where
  unfoldable pub create_snapshot : JsString → C → Outcome (Error D X) (DomainMachineSnapshot C)
  create_snapshot state context =
      if context_copies context
      then ok (record { state = state; context = context })
      else throws Error.invalid_context

  unfoldable pub create_initial :
      DomainMachineDefinition C I O D X → Outcome (Error D X) (DomainMachineSnapshot C)
  unfolding create_snapshot validate_snapshot_invariant
  create_initial d = elim d.initial_context [
    | throws x ↦ throws (Error.raised x)
    | ok context ↦
        create_snapshot d.initial context >>= λ s. validate_snapshot_invariant d s >>= λ _. ok s
  ]

  unfoldable pub prepare_snapshot :
      DomainMachineDefinition C I O D X
      → DomainMachineSnapshot C
      → Outcome (Error D X) (DomainMachineSnapshot C)
  unfolding create_snapshot validate_snapshot_invariant JsString-discrete
  prepare_snapshot d s =
      if JsMap.has JsString-discrete s.state d.states
      then (create_snapshot s.state s.context >>= λ copy.
          validate_snapshot_invariant d copy >>= λ _. ok copy)
      else throws (Error.unknown_snapshot_state s.state)

  -- `canTransitionPreparedDomainState` of an input that has passed `isDomainMachineInput`.
  unfoldable pub can_transition_input :
      DomainMachineDefinition C I O D X
      → DomainMachineSnapshot C
      → DomainMachineInput I
      → Outcome (Error D X) Bool
  unfolding transition_of run_guard JsString-discrete
  can_transition_input d s input = elim (node_at d s.state) [
    | none ↦ throws Error.no_node
    | some node ↦ elim (transition_of node input.input_type) [
      | none ↦ ok false
      | some t ↦
          if input_copies input
          then (run_guard t s input >>= λ decided. ok decided.0)
          else throws Error.invalid_input
    ]
  ]

  -- `canTransitionPreparedDomainState`
  unfoldable pub can_transition :
      DomainMachineDefinition C I O D X
      → DomainMachineSnapshot C
      → RuntimeInput I
      → Outcome (Error D X) Bool
  unfolding can_transition_input
  can_transition d s (domain_input input) = can_transition_input d s input
  can_transition d s other_value = ok false

  -- `validateDomainMachineInput`, which narrows its argument.
  unfoldable pub validate_input : RuntimeInput I → Outcome (Error D X) (DomainMachineInput I)
  validate_input (domain_input input) = ok input
  validate_input other_value = throws Error.invalid_input

  -- The snapshot after the transition. A context that is left out, or returned as the same
  -- reference, is `none`: it is the one before, which the machine has copied already.
  unfoldable pub next_snapshot :
      DomainTransition C I O D X
      → DomainMachineSnapshot C
      → Option C
      → Outcome (Error D X) (DomainMachineSnapshot C)
  unfolding create_snapshot
  next_snapshot t s none = ok (record { state = t.target; context = s.context })
  next_snapshot t s (some context) = create_snapshot t.target context

  -- The part of `transitionPreparedDomainState` after the guard.
  unfoldable pub apply_transition :
      DomainMachineDefinition C I O D X
      → DomainMachineSnapshot C
      → DomainMachineInput I
      → DomainTransition C I O D X
      → Outcome (Error D X) (DomainTransitionOutcome C O)
  unfolding run_reduce next_snapshot validate_snapshot_invariant
  apply_transition d s input t = run_reduce t s input >>= λ result.
      next_snapshot t s result.0 >>= λ next. validate_snapshot_invariant d next >>= λ _.
      if outputs_copy (get_or result.1 [])
      then ok
          (record { from = s.state; to = t.target; snapshot = next; outputs = get_or result.1 [] })
      else throws Error.invalid_outputs

  -- `transitionPreparedDomainState` of an input that has passed its validation.
  unfoldable pub transition_input :
      DomainMachineDefinition C I O D X
      → DomainMachineSnapshot C
      → DomainMachineInput I
      → Outcome (Error D X) (DomainTransitionOutcome C O)
  unfolding transition_of run_guard enforce_guard apply_transition JsString-discrete
  transition_input d s input = elim (node_at d s.state) [
    | none ↦ throws Error.no_node
    | some node ↦ elim (transition_of node input.input_type) [
      | none ↦ throws (Error.invalid_transition s.state input.input_type)
      | some t ↦
          if input_copies input
          then (run_guard t s input >>= λ decided.
              enforce_guard s.state input.input_type decided >>= λ _. apply_transition d s input t)
          else throws Error.invalid_input
    ]
  ]

  -- `transitionPreparedDomainState`
  unfoldable pub transition :
      DomainMachineDefinition C I O D X
      → DomainMachineSnapshot C
      → RuntimeInput I
      → Outcome (Error D X) (DomainTransitionOutcome C O)
  unfolding validate_input transition_input
  transition d s unknown = validate_input unknown >>= λ input. transition_input d s input

  -- The functions without a machine: each validates the definition and prepares the snapshot first.
  unfoldable pub create_initial_domain_machine_snapshot :
      DomainMachineDefinition C I O D X → Outcome (Error D X) (DomainMachineSnapshot C)
  unfolding validate_definition create_initial
  create_initial_domain_machine_snapshot d = validate_definition d >>= λ _. create_initial d

  unfoldable pub can_transition_domain_state :
      DomainMachineDefinition C I O D X
      → DomainMachineSnapshot C
      → RuntimeInput I
      → Outcome (Error D X) Bool
  unfolding validate_definition prepare_snapshot can_transition
  can_transition_domain_state d s input = validate_definition d >>= λ _.
      prepare_snapshot d s >>= λ prepared. can_transition d prepared input

  unfoldable pub transition_domain_state :
      DomainMachineDefinition C I O D X
      → DomainMachineSnapshot C
      → RuntimeInput I
      → Outcome (Error D X) (DomainTransitionOutcome C O)
  unfolding validate_definition prepare_snapshot transition
  transition_domain_state d s input = validate_definition d >>= λ _.
      prepare_snapshot d s >>= λ prepared. transition d prepared input

  -- The constructor, with a snapshot to resume from or without one.
  unfoldable pub new :
      DomainMachineDefinition C I O D X
      → Option (DomainMachineSnapshot C)
      → Outcome (Error D X) (DomainStateMachine C I O D X)
  unfolding validate_definition create_initial prepare_snapshot
  new d supplied = do
    _ ← validate_definition d
    s ← elim supplied [ none ↦ create_initial d | some s ↦ prepare_snapshot d s ]
    ok (record { definition = d; snapshot = s; evaluating = false })

  unfoldable pub is_terminal : DomainStateMachine C I O D X → Bool
  unfolding JsString-discrete
  is_terminal m = elim (node_at m.definition m.snapshot.state) [
    | none ↦ false
    | some node ↦ node.terminal
  ]

  unfoldable pub can : DomainStateMachine C I O D X → RuntimeInput I → Outcome (Error D X) Bool
  unfolding can_transition
  can m input =
      if m.evaluating then throws Error.reentrant else can_transition m.definition m.snapshot input

  unfoldable pub dispatch :
      DomainStateMachine C I O D X
      → RuntimeInput I
      → Outcome (Error D X) (DomainTransitionOutcome C O) × DomainStateMachine C I O D X
  unfolding transition
  dispatch m input =
      if m.evaluating
      then (throws Error.reentrant, m)
      else elim (transition m.definition m.snapshot input) [
        | throws e ↦ (throws e, m)
        | ok outcome ↦ (ok outcome, record m { snapshot = outcome.snapshot })
      ]
