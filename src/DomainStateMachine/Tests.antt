-- ===== src/DomainStateMachine/Tests.antt =====
-- Runs of a machine for orders, and each theorem at an input where its hypotheses hold.
use ddd_kit_ts.Base.{
  ℕ, ◌+◌, ◌≡◌, ◌↔◌, refl, Bool, true, false, none, some, List, [], ◌∷◌, ltb, ok, throws,
}
use ddd_kit_ts.Base.JsString.{JsString, JsString-discrete}
use ddd_kit_ts.DomainStateMachine.{
  DomainMachineInput, RuntimeInput, domain_input, other_value, Error, DomainMachineDefinition,
  DomainStateMachine, DomainStateNode, decision, reduced, verdict, validate_definition,
  validate_snapshot_invariant, new, can, dispatch,
}
use ddd_kit_ts.DomainStateMachine.Analyzer.{
  DomainMachineDefinitionAnalysis, unreachable_state, analyze_domain_machine_definition,
}
use ddd_kit_ts.DomainStateMachine.Visited.{In}
use ddd_kit_ts.DomainStateMachine.Reachable.{Reach, structurally_reachable_exact, dispatch_all}
use ddd_kit_ts.DomainStateMachine.Runs.{runs_are_reachable, snapshots_stay_valid}
use ddd_kit_ts.DomainStateMachine.Agreement.{Promised, dispatch_agrees_with_can}

abbrev draft : JsString
draft = b'd' ∷ []

abbrev placed : JsString
placed = b'p' ∷ []

abbrev lost : JsString
lost = b'l' ∷ []

abbrev add_line : JsString
add_line = b'a' ∷ []

abbrev place : JsString
place = b's' ∷ []

-- An order counts its lines: it takes up to two, and is placed once it has one. No transition leads
-- to `lost`.
abbrev Definition : Type 0
Definition = DomainMachineDefinition ℕ ℕ ℕ ℕ ℕ

abbrev draft_node : DomainStateNode ℕ ℕ ℕ ℕ ℕ
draft_node = record {
  terminal = false;
  validate_context = some (λ s. ok (verdict (ltb s.context 3)));
  on =
      (
        add_line,
        record {
          target = draft;
          guard = none;
          reduce = some (λ s input. ok (reduced (some (s.context + input.carried)) none));
        },
      )
      ∷ (
        place,
        record {
          target = placed;
          guard = some (λ s input. ok (decision (ltb 0 s.context)));
          reduce = some (λ s input. ok (reduced none (some (s.context ∷ []))));
        },
      )
      ∷ [];
}

abbrev ending_node : DomainStateNode ℕ ℕ ℕ ℕ ℕ
ending_node = record { terminal = true; validate_context = none; on = [] }

abbrev order : Definition
order = record {
  initial = draft;
  initial_context = ok 0;
  validate_snapshot = none;
  states = (draft, draft_node) ∷ (placed, ending_node) ∷ (lost, ending_node) ∷ [];
}

abbrev any_context : ℕ → Bool
any_context n = true

abbrev any_input : DomainMachineInput ℕ → Bool
any_input i = true

abbrev any_outputs : List ℕ → Bool
any_outputs os = true

abbrev at : JsString → ℕ → DomainStateMachine ℕ ℕ ℕ ℕ ℕ
at state context = record {
  definition = order;
  snapshot = record { state = state; context = context };
  evaluating = false;
}

abbrev line : ℕ → RuntimeInput ℕ
line n = domain_input (record { input_type = add_line; carried = n })

abbrev placing : RuntimeInput ℕ
placing = domain_input (record { input_type = place; carried = 0 })

new_run : new any_context any_input any_outputs order none ≡ ok (at draft 0)
unfolding new JsString-discrete
new_run = refl

-- Placing an order without lines is rejected, as are three lines; then one line and placing pass.
dispatch_run :
    dispatch_all any_context any_input any_outputs
      (at draft 0)
      (placing ∷ line 3 ∷ line 1 ∷ placing ∷ line 1 ∷ [])
    ≡ at placed 1
unfolding dispatch_all dispatch JsString-discrete
dispatch_run = refl

-- A value that is no input is answered with no, and refused by an error of its own.
other_value_run :
    (can any_context any_input any_outputs (at draft 0) other_value ≡ ok false)
    × ((dispatch any_context any_input any_outputs (at draft 0) other_value).0
        ≡ throws Error.invalid_input)
unfolding can dispatch
other_value_run = (refl, refl)

analysis_run :
    analyze_domain_machine_definition order
    ≡ ok (
        some (record {
          diagnostics = unreachable_state lost ∷ [];
          transitions =
              record { state = draft; input_type = add_line; target = draft; guarded = false }
              ∷ record { state = draft; input_type = place; target = placed; guarded = true }
              ∷ [];
          structurally_reachable_states = draft ∷ placed ∷ [];
          states_with_terminal_path = draft ∷ lost ∷ placed ∷ [];
        }))
unfolding analyze_domain_machine_definition JsString-discrete
analysis_run = refl

order_valid : validate_definition order ≡ ok tt
unfolding validate_definition JsString-discrete
order_valid = refl

structurally_reachable_exact_example :
    (a : DomainMachineDefinitionAnalysis) × (analyze_domain_machine_definition order ≡ ok (some a))
    × ((s : JsString) → In s a.structurally_reachable_states ↔ Reach order s)
structurally_reachable_exact_example = structurally_reachable_exact order order_valid

runs_are_reachable_example :
    (a : DomainMachineDefinitionAnalysis) × (analyze_domain_machine_definition order ≡ ok (some a))
    × In
        (dispatch_all any_context any_input any_outputs
          (at draft 0)
          (line 1 ∷ placing ∷ [])).snapshot.state
        a.structurally_reachable_states
runs_are_reachable_example =
    runs_are_reachable any_context any_input any_outputs order (at draft 0) (line 1 ∷ placing ∷ [])
      new_run

snapshots_stay_valid_example :
    validate_snapshot_invariant order
      (dispatch_all any_context any_input any_outputs (at draft 0) (line 3 ∷ line 2 ∷ [])).snapshot
    ≡ ok tt
snapshots_stay_valid_example =
    snapshots_stay_valid any_context any_input any_outputs order none (at draft 0)
      (line 3 ∷ line 2 ∷ []) new_run

dispatch_agrees_with_can_example :
    Promised
      (can any_context any_input any_outputs (at draft 0) placing)
      (dispatch any_context any_input any_outputs (at draft 0) placing).0
dispatch_agrees_with_can_example =
    dispatch_agrees_with_can any_context any_input any_outputs (at draft 0) placing
