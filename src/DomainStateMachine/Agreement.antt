-- ===== src/DomainStateMachine/Agreement.antt =====
-- `can` against `dispatch`.
use ddd_kit_ts.Base.{
  ◌≡◌, inl, inr, refl, Bool, true, false, Option, none, some, List, [], arith, Outcome, ok, throws,
  ◌>>=◌, Bool-cases, Option-cases, Outcome-cases, get_or,
}
use ddd_kit_ts.DomainStateMachine.{
  DomainMachineInput, DomainMachineSnapshot, DomainMachineDefinition, DomainStateMachine,
  DomainTransition, DomainTransitionResult, reduced, malformed, read_result, Verdict, verdict,
  not_boolean, Error, check_verdict, check_optional, validate_snapshot_invariant, node_at,
  transition_of, run_guard, run_reduce, next_snapshot, create_snapshot, enforce_guard,
  apply_transition, transition, transition_input, can_transition, can_transition_input,
  validate_input, RuntimeInput, domain_input, other_value, can, dispatch,
}

-- The errors that say that the input is not accepted in the current state.
abbrev pub is_rejection : {D X : Type 0} → Error D X → Bool
is_rejection (Error.invalid_transition state input_type) = true
is_rejection (Error.guard_rejected state input_type) = true
is_rejection (Error.rejected e) = true
is_rejection Error.unknown_initial = false
is_rejection (Error.terminal_with_transitions state) = false
is_rejection (Error.unknown_target state input_type target) = false
is_rejection Error.invalid_context = false
is_rejection Error.invalid_input = true
is_rejection Error.invalid_outputs = false
is_rejection (Error.unknown_snapshot_state state) = false
is_rejection (Error.context_violation state) = false
is_rejection (Error.snapshot_violation state) = false
is_rejection Error.verdict_not_boolean = false
is_rejection Error.invalid_guard_result = false
is_rejection Error.invalid_result = false
is_rejection Error.reentrant = false
is_rejection Error.no_node = false
is_rejection (Error.raised x) = false

-- Whatever the call throws, it is not a rejection.
abbrev pub Accepted : {D X A : Type 0} → Outcome (Error D X) A → Type 0
Accepted (ok a) = Unit
Accepted (throws e) = is_rejection e ≡ false

-- The call throws a rejection.
abbrev pub Rejected : {D X A : Type 0} → Outcome (Error D X) A → Type 0
Rejected (ok a) = ⊥
Rejected (throws e) = is_rejection e ≡ true

-- What an answer of `can` promises of the call of `dispatch`.
abbrev pub Promised : {D X A : Type 0} → Outcome (Error D X) Bool → Outcome (Error D X) A → Type 0
Promised (ok true) r = Accepted r
Promised (ok false) r = Rejected r
Promised (throws e) r = r ≡ throws e

Accepted-bind :
    {D X A B : Type 0} (r : Outcome (Error D X) A) (f : A → Outcome (Error D X) B)
    → Accepted r
    → ((a : A) → Accepted (f a))
    → Accepted (r >>= f)
Accepted-bind (ok a) f h k = k a
Accepted-bind (throws e) f h k = h

check_optional-Accepted :
    {C D X : Type 0} (e : Error D X)
    (validate : Option (DomainMachineSnapshot C → Outcome X Verdict)) (s : DomainMachineSnapshot C)
    → is_rejection e ≡ false
    → Accepted (check_optional e validate s)
unfolding check_optional check_verdict
check_optional-Accepted e none s h = tt
check_optional-Accepted e (some validate) s h = elim (Outcome-cases (validate s)) [
  | inr (x, r) ↦ rw (r, check_verdict) refl
  | inl (not_boolean, r) ↦ rw (r, check_verdict) refl
  | inl (verdict true, r) ↦ rw (r, check_verdict) tt
  | inl (verdict false, r) ↦ rw (r, check_verdict) h
]

read_result-Accepted :
    {C O X : Type 0} (D : Type 0) (r : Outcome X (DomainTransitionResult C O))
    → Accepted (read_result {D = D} r)
unfolding read_result
read_result-Accepted D (throws x) = refl
read_result-Accepted D (ok (reduced context outputs)) = tt
read_result-Accepted D (ok malformed) = refl

module _ {C I O D X : Type 0} where
  validate_snapshot_invariant-Accepted :
      (d : DomainMachineDefinition C I O D X) (s : DomainMachineSnapshot C)
      → Accepted (validate_snapshot_invariant d s)
  unfolding validate_snapshot_invariant
  validate_snapshot_invariant-Accepted d s = elim (Option-cases (node_at d s.state)) [
    | inl missing ↦ rw (missing, validate_snapshot_invariant) refl
    | inr (node, at) ↦
        rw (at, validate_snapshot_invariant)
          (Accepted-bind (check_optional (Error.context_violation s.state) node.validate_context s)
            _
            (check_optional-Accepted (Error.context_violation s.state) node.validate_context s refl)
            (λ _.
              check_optional-Accepted (Error.snapshot_violation s.state) d.validate_snapshot s
                refl))
  ]

  run_reduce-Accepted :
      (t : DomainTransition C I O D X) (s : DomainMachineSnapshot C) (input : DomainMachineInput I)
      → Accepted (run_reduce t s input)
  unfolding run_reduce
  run_reduce-Accepted t s input = elim (Option-cases t.reduce) [
    | inl missing ↦ rw (missing, run_reduce) tt
    | inr (reduce, r) ↦ rw (r, run_reduce) (read_result-Accepted D (reduce s input))
  ]

module _ {C I O D X : Type 0} (context_copies : C → Bool)
    (input_copies : DomainMachineInput I → Bool) (outputs_copy : List O → Bool) where
  next_snapshot-Accepted :
      (t : DomainTransition C I O D X) (s : DomainMachineSnapshot C) (context : Option C)
      → Accepted (next_snapshot context_copies input_copies outputs_copy t s context)
  unfolding next_snapshot create_snapshot
  next_snapshot-Accepted t s none = tt
  next_snapshot-Accepted t s (some context) = elim (Bool-cases (context_copies context)) [
    | inl fine ↦ rw fine tt
    | inr refused ↦ rw refused refl
  ]

  apply_transition-Accepted :
      (d : DomainMachineDefinition C I O D X) (s : DomainMachineSnapshot C)
      (input : DomainMachineInput I) (t : DomainTransition C I O D X)
      → Accepted (apply_transition context_copies input_copies outputs_copy d s input t)
  unfolding apply_transition
  apply_transition-Accepted d s input t =
      Accepted-bind (run_reduce t s input) _ (run_reduce-Accepted t s input) λ result.
        Accepted-bind (next_snapshot context_copies input_copies outputs_copy t s result.0) _
          (next_snapshot-Accepted t s result.0)
          λ next.
            Accepted-bind (validate_snapshot_invariant d next) _
              (validate_snapshot_invariant-Accepted d next)
              λ _. elim (Bool-cases (outputs_copy (get_or result.1 []))) [
                | inl fine ↦ rw fine tt
                | inr refused ↦ rw refused refl
              ]

  -- After the guard's decision.
  decided-Promised :
      (d : DomainMachineDefinition C I O D X) (s : DomainMachineSnapshot C)
      (input : DomainMachineInput I) (t : DomainTransition C I O D X)
      (r : Outcome (Error D X) (Bool × Option D))
      → Promised (r >>= λ decided. ok decided.0) (
          r >>= λ decided. enforce_guard s.state input.input_type decided >>= λ _.
          apply_transition context_copies input_copies outputs_copy d s input t)
  unfolding enforce_guard
  decided-Promised d s input t (throws e) = refl
  decided-Promised d s input t (ok (true, reason)) = apply_transition-Accepted d s input t
  decided-Promised d s input t (ok (false, none)) = refl
  decided-Promised d s input t (ok (false, some e)) = refl

  transition_input-Promised :
      (d : DomainMachineDefinition C I O D X) (s : DomainMachineSnapshot C)
      (input : DomainMachineInput I)
      → Promised
          (can_transition_input context_copies input_copies outputs_copy d s input)
          (transition_input context_copies input_copies outputs_copy d s input)
  unfolding can_transition_input transition_input
  transition_input-Promised d s input = elim (Option-cases (node_at d s.state)) [
    | inl missing ↦ rw (missing, can_transition_input, transition_input) refl
    | inr (node, at) ↦ elim (Option-cases (transition_of node input.input_type)) [
      | inl none_there ↦ rw (at, can_transition_input, transition_input, none_there) refl
      | inr (t, on) ↦ elim (Bool-cases (input_copies input)) [
        | inr refused ↦ rw (at, can_transition_input, transition_input, on, refused) refl
        | inl fine ↦
            rw (at, can_transition_input, transition_input, on, fine)
              (decided-Promised d s input t (run_guard t s input))
      ]
    ]
  ]

  transition-Promised :
      (d : DomainMachineDefinition C I O D X) (s : DomainMachineSnapshot C) (input : RuntimeInput I)
      → Promised
          (can_transition context_copies input_copies outputs_copy d s input)
          (transition context_copies input_copies outputs_copy d s input)
  unfolding can_transition transition validate_input
  transition-Promised d s (domain_input input) = transition_input-Promised d s input
  transition-Promised d s other_value = refl

  dispatch_free :
      (m : DomainStateMachine C I O D X) (input : RuntimeInput I)
      → m.evaluating ≡ false
      → (dispatch context_copies input_copies outputs_copy m input).0
        ≡ transition context_copies input_copies outputs_copy m.definition m.snapshot input
  unfolding dispatch
  dispatch_free m input free =
      elim (Outcome-cases
        (transition context_copies input_copies outputs_copy m.definition m.snapshot input)) [
          | inl (outcome, h) ↦ ground (arith, free, h)
          | inr (e, h) ↦ ground (arith, free, h)
        ]

  -- If `can` answers no, `dispatch` throws that the input is invalid, that there is no such
  -- transition, or that its guard rejects it; if it answers yes, whatever `dispatch` may throw is none of these; and if it throws,
  -- `dispatch` throws the same.
  pub dispatch_agrees_with_can :
      (m : DomainStateMachine C I O D X) (input : RuntimeInput I)
      → Promised
          (can context_copies input_copies outputs_copy m input)
          (dispatch context_copies input_copies outputs_copy m input).0
  unfolding can
  dispatch_agrees_with_can m input = elim (Bool-cases m.evaluating) [
    | inl busy ↦ unfold dispatch in rw (busy, can, dispatch) refl
    | inr free ↦
        rw (dispatch_free m input free, free, can)
          (transition-Promised m.definition m.snapshot input)
  ]
