-- ===== src/DomainStateMachine/Types.antt =====
-- src/domain-state-machine/contracts.ts and errors.ts: definitions, snapshots and errors. `C` is the
-- context, `I` what an input carries besides its type, `O` the outputs, `D` the domain errors that a
-- guard may return, and `X` what a callback may throw.
use ddd_kit_ts.Base.{Bool, Option, List, Outcome}
use ddd_kit_ts.Base.JsMap.{JsMap}
use ddd_kit_ts.Base.JsString.{JsString}

pub record DomainMachineInput (I : Type 0) : Type 0 where
  pub input_type : JsString
  pub carried : I

-- An input at run time: one with an own string `type`, or any other value.
pub data RuntimeInput (I : Type 0) : Type 0 where
  domain_input : DomainMachineInput I → RuntimeInput I
  other_value : RuntimeInput I

pub record DomainMachineSnapshot (C : Type 0) : Type 0 where
  pub state : JsString
  pub context : C

-- What a guard returns: a boolean, a domain error, or something else.
pub data DomainTransitionGuardResult (D : Type 0) : Type 0 where
  decision : Bool → DomainTransitionGuardResult D
  rejection : D → DomainTransitionGuardResult D
  not_a_result : DomainTransitionGuardResult D

-- What a reducer returns: an object with a context and outputs, each of which may be left out, as
-- nothing at all leaves out both; or something else. A context that is the reference that the reducer
-- was given stands as one that is left out, since the code treats both alike.
pub data DomainTransitionResult (C O : Type 0) : Type 0 where
  reduced : Option C → Option (List O) → DomainTransitionResult C O
  malformed : DomainTransitionResult C O

-- What a validation callback returns.
pub data Verdict : Type 0 where
  verdict : Bool → Verdict
  not_boolean : Verdict

pub record DomainTransition (C I O D X : Type 0) : Type 0 where
  pub target : JsString
  pub guard :
      Option
        (DomainMachineSnapshot C → DomainMachineInput I → Outcome X (DomainTransitionGuardResult D))
  pub reduce :
      Option
        (DomainMachineSnapshot C → DomainMachineInput I → Outcome X (DomainTransitionResult C O))

-- `on` has no entry where the source leaves the property out.
pub record DomainStateNode (C I O D X : Type 0) : Type 0 where
  pub terminal : Bool
  pub validate_context : Option (DomainMachineSnapshot C → Outcome X Verdict)
  pub on : JsMap JsString (DomainTransition C I O D X)

pub record DomainMachineDefinition (C I O D X : Type 0) : Type 0 where
  pub initial : JsString
  pub initial_context : Outcome X C
  pub validate_snapshot : Option (DomainMachineSnapshot C → Outcome X Verdict)
  pub states : JsMap JsString (DomainStateNode C I O D X)

pub record DomainTransitionOutcome (C O : Type 0) : Type 0 where
  pub from : JsString
  pub to : JsString
  pub snapshot : DomainMachineSnapshot C
  pub outputs : List O

-- `no_node` is the type error of reading a state that the definition lacks; `rejected` and `raised`
-- pass on what a guard returned and what a callback threw.
pub data Error (D X : Type 0) : Type 0 where
  unknown_initial : Error D X
  terminal_with_transitions : (state : JsString) → Error D X
  unknown_target : (state input_type target : JsString) → Error D X
  invalid_context invalid_input invalid_outputs : Error D X
  unknown_snapshot_state : (state : JsString) → Error D X
  context_violation : (state : JsString) → Error D X
  snapshot_violation : (state : JsString) → Error D X
  verdict_not_boolean : Error D X
  invalid_transition : (state input_type : JsString) → Error D X
  guard_rejected : (state input_type : JsString) → Error D X
  invalid_guard_result invalid_result reentrant no_node : Error D X
  rejected : D → Error D X
  raised : X → Error D X
