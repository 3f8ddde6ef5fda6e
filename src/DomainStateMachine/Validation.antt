-- ===== src/DomainStateMachine/Validation.antt =====
-- What the validation of a definition gives.
use mathlib.Core.Path.{subst}
use ddd_kit_ts.Base.{
  ◌≡◌, inl, inr, sym, Bool, true, false, some, [], ◌∷◌, arith, ok, bind_ok, Bool-cases,
  Option-cases, ok-throws,
}
use ddd_kit_ts.Base.JsMap
use ddd_kit_ts.Base.JsMap.{JsMap}
use ddd_kit_ts.Base.JsString.{JsString, JsString-discrete}
use ddd_kit_ts.DomainStateMachine.{
  DomainTransition, DomainStateNode, DomainMachineDefinition, validate_transitions, validate_states,
  validate_definition,
}
use ddd_kit_ts.DomainStateMachine.Edges.{Edge, edge}

-- A key that a map has is one that it gives a value for.
pub has-some :
    {V : Type 0} (k : JsString) (m : JsMap JsString V)
    → JsMap.has JsString-discrete k m ≡ true
    → (v : V) × (JsMap.get JsString-discrete k m ≡ some v)
has-some k m h = elim (Option-cases (JsMap.get JsString-discrete k m)) [
  | inr found ↦ found
  | inl missing ↦ absurd (ground (arith, missing, h))
]

first_entry :
    {V : Type 0} (k : JsString) (e : JsString × V) (m : JsMap JsString V) (v : V)
    → e.0 ≡ k
    → JsMap.get JsString-discrete k (e ∷ m) ≡ some v
    → e.1 ≡ v
first_entry k e m v h f = ground (arith, h, f)

module _ {C I O D X : Type 0} (d : DomainMachineDefinition C I O D X) where
  validate_transitions-target :
      (state : JsString) (terminal : Bool) (on : JsMap JsString (DomainTransition C I O D X))
      (ty : JsString) (t : DomainTransition C I O D X)
      → validate_transitions d state terminal on ≡ ok tt
      → JsMap.get JsString-discrete ty on ≡ some t
      → JsMap.has JsString-discrete t.target d.states ≡ true
  unfolding validate_transitions
  validate_transitions-target state terminal [] ty t h e = absurd (cc)
  validate_transitions-target state true (f ∷ on) ty t h e = absurd (cc)
  validate_transitions-target state false (f ∷ on) ty t h e =
      elim (Bool-cases (JsMap.has JsString-discrete f.1.target d.states)) [
        | inr missing ↦ absurd (ok-throws _ (sym (rw (missing, validate_transitions) at h)))
        | inl present ↦ elim (JsString-discrete f.0 ty) [
          | yes here ↦
              subst (λ z. JsMap.has JsString-discrete z.target d.states ≡ true)
                (first_entry ty f on t here e) present
          | no ne ↦
              validate_transitions-target state false on ty t
                (rw (present, validate_transitions) at h) (ground arith)
        ]
      ]

  validate_states-node :
      (m : JsMap JsString (DomainStateNode C I O D X)) (s : JsString)
      (node : DomainStateNode C I O D X)
      → validate_states d m ≡ ok tt
      → JsMap.get JsString-discrete s m ≡ some node
      → validate_transitions d s node.terminal node.on ≡ ok tt
  unfolding validate_states
  validate_states-node [] s node h e = absurd (cc)
  validate_states-node (f ∷ m) s node h e =
      let (u, first, rest) =
        bind_ok (validate_transitions d f.0 f.1.terminal f.1.on) (λ _. validate_states d m) tt h in
      elim (JsString-discrete f.0 s) [
        | yes here ↦
            subst (λ z. validate_transitions d z node.terminal node.on ≡ ok tt) here
              (subst (λ n. validate_transitions d f.0 n.terminal n.on ≡ ok tt)
                (first_entry s f m node here e) first)
        | no ne ↦ validate_states-node m s node rest (ground arith)
      ]

  -- The initial state is there.
  pub initial_node :
      validate_definition d ≡ ok tt
      → (node : DomainStateNode C I O D X) × (JsMap.get JsString-discrete d.initial d.states
          ≡ some node)
  unfolding validate_definition
  initial_node h = elim (Bool-cases (JsMap.has JsString-discrete d.initial d.states)) [
    | inl present ↦ has-some d.initial d.states present
    | inr missing ↦ absurd (ok-throws _ (sym (rw (missing, validate_definition) at h)))
  ]

  -- So is the target of every transition.
  pub target_node :
      (x y : JsString)
      → validate_definition d ≡ ok tt
      → Edge d x y
      → (node : DomainStateNode C I O D X) × (JsMap.get JsString-discrete y d.states ≡ some node)
  unfolding validate_definition
  target_node x y h (edge {node} {tr} ty at on target) =
      elim (Bool-cases (JsMap.has JsString-discrete d.initial d.states)) [
        | inr missing ↦ absurd (ok-throws _ (sym (rw (missing, validate_definition) at h)))
        | inl present ↦
            let valid =
              validate_states-node d.states x node (rw (present, validate_definition) at h) at in
            let has_target = validate_transitions-target x node.terminal node.on ty tr valid on in
            has-some y d.states (rw (← target) has_target)
      ]
