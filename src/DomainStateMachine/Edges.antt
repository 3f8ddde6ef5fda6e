-- ===== src/DomainStateMachine/Edges.antt =====
-- The graph that the analyzer builds, against the transitions of the definition.
use mathlib.Core.Path.{subst}
use mathlib.Core.Logic.{⊎_elim}
use ddd_kit_ts.Base.{
  ◌≡◌, ◌⊎◌, ◌↔◌, inl, inr, refl, some, List, [], ◌∷◌, ◌++◌, arith, Bool-cases, Option-cases,
}
use ddd_kit_ts.Base.JsMap
use ddd_kit_ts.Base.JsMap.{JsMap}
use ddd_kit_ts.Base.JsString.{JsString, JsString-discrete}
use ddd_kit_ts.DomainStateMachine.{DomainTransition, DomainStateNode, DomainMachineDefinition}
use ddd_kit_ts.DomainStateMachine.Analyzer.{
  DomainMachineTransitionDescription, insert_string, sort_strings, string_le, keys, describe_inputs,
  describe_states,
}
use ddd_kit_ts.DomainStateMachine.Visited.{In}

-- A transition of the definition leads from the one state to the other.
pub data Edge {C I O D X : Type 0} (d : DomainMachineDefinition C I O D X) (s t : JsString)
    : Type 0 where
  edge :
      {node : DomainStateNode C I O D X} {tr : DomainTransition C I O D X} (input_type : JsString)
      → JsMap.get JsString-discrete s d.states ≡ some node
      → JsMap.get JsString-discrete input_type node.on ≡ some tr
      → tr.target ≡ t
      → Edge d s t

In-insert_string :
    (x s : JsString) (ts : List JsString) → In x (insert_string s ts) ↔ ((s ≡ x) ⊎ In x ts)
unfolding insert_string
In-insert_string x s [] = ground arith
In-insert_string x s (t ∷ ts) = elim (Bool-cases (string_le s t)) [
  | inl front ↦ rw (front, insert_string) (ground arith)
  | inr later ↦ rw (later, insert_string) (ground (arith, In-insert_string x s ts))
]

pub In-sort_strings : (x : JsString) (ts : List JsString) → In x (sort_strings ts) ↔ In x ts
unfolding sort_strings
In-sort_strings x [] = ground arith
In-sort_strings x (t ∷ ts) =
    ground (arith, In-insert_string x t (sort_strings ts), In-sort_strings x ts)

pub In-keys :
    {V : Type 0} (k : JsString) (v : V) (m : JsMap JsString V)
    → JsMap.get JsString-discrete k m ≡ some v
    → In k (keys m)
In-keys k v [] h = absurd (cc)
In-keys k v (e ∷ m) h = elim (JsString-discrete e.0 k) [
  | yes at ↦ inl at
  | no ne ↦ inr (In-keys k v m (ground arith))
]

-- One of the descriptions leads from the one state to the other.
abbrev pub HasEdge : JsString → JsString → List DomainMachineTransitionDescription → Type 0
HasEdge s t [] = ⊥
HasEdge s t (e ∷ es) = ((e.state ≡ s) × (e.target ≡ t)) ⊎ HasEdge s t es

HasEdge-append :
    (s t : JsString) (es fs : List DomainMachineTransitionDescription)
    → HasEdge s t (es ++ fs) ↔ (HasEdge s t es ⊎ HasEdge s t fs)
HasEdge-append s t [] fs = ground arith
HasEdge-append s t (e ∷ es) fs = ground (arith, HasEdge-append s t es fs)

module _ {C I O D X : Type 0} where
  -- Both directions for the input types of one state.
  HasEdge-describe_inputs :
      (s t state : JsString) (on : JsMap JsString (DomainTransition C I O D X))
      (types : List JsString)
      → HasEdge s t (describe_inputs state on types)
      → (state ≡ s)
        × ((input_type : JsString) × (tr : DomainTransition C I O D X) × (JsMap.get
                JsString-discrete input_type on
              ≡ some tr)
            × (tr.target ≡ t))
  unfolding describe_inputs
  HasEdge-describe_inputs s t state on [] h = absurd h
  HasEdge-describe_inputs s t state on (ty ∷ types) h =
      elim (Option-cases (JsMap.get JsString-discrete ty on)) [
        | inl missing ↦
            HasEdge-describe_inputs s t state on types (rw (missing, describe_inputs) at h)
        | inr (tr, e) ↦
            ⊎_elim (λ (here, target). (here, (ty, tr, e, target)))
              (HasEdge-describe_inputs s t state on types) (rw (e, describe_inputs) at h)
      ]

  described_input :
      (state ty : JsString) (on : JsMap JsString (DomainTransition C I O D X))
      (tr : DomainTransition C I O D X) (types : List JsString)
      → In ty types
      → JsMap.get JsString-discrete ty on ≡ some tr
      → HasEdge state tr.target (describe_inputs state on types)
  unfolding describe_inputs
  described_input state ty on tr [] m e = absurd m
  described_input state ty on tr (u ∷ types) (inl at) e =
      let found : JsMap.get JsString-discrete u on ≡ some tr = rw at e in
      rw (found, describe_inputs) (inl (refl, refl))
  described_input state ty on tr (u ∷ types) (inr later) e =
      let rest = described_input state ty on tr types later e in
      elim (Option-cases (JsMap.get JsString-discrete u on)) [
        | inl missing ↦ rw (missing, describe_inputs) rest
        | inr (other, f) ↦ rw (f, describe_inputs) (inr rest)
      ]

  pub HasEdge-describe_states :
      (d : DomainMachineDefinition C I O D X) (s t : JsString) (states : List JsString)
      → HasEdge s t (describe_states d states)
      → Edge d s t
  unfolding describe_states
  HasEdge-describe_states d s t [] h = absurd h
  HasEdge-describe_states d s t (x ∷ states) h =
      elim (Option-cases (JsMap.get JsString-discrete x d.states)) [
        | inl missing ↦ HasEdge-describe_states d s t states (rw (missing, describe_states) at h)
        | inr (node, e) ↦
            let types = sort_strings (keys node.on) in
            ⊎_elim
              (λ here.
                let (at, (ty, tr, f, target)) = HasEdge-describe_inputs s t x node.on types here in
                edge ty (subst (λ z. JsMap.get JsString-discrete z d.states ≡ some node) at e) f
                  target)
              (HasEdge-describe_states d s t states)
              ((HasEdge-append s t (describe_inputs x node.on types) (describe_states d states)).0
                (rw (e, describe_states) at h))
      ]

  pub described_state :
      (d : DomainMachineDefinition C I O D X) (s ty : JsString) (node : DomainStateNode C I O D X)
      (tr : DomainTransition C I O D X) (states : List JsString)
      → In s states
      → JsMap.get JsString-discrete s d.states ≡ some node
      → JsMap.get JsString-discrete ty node.on ≡ some tr
      → HasEdge s tr.target (describe_states d states)
  unfolding describe_states
  described_state d s ty node tr [] m e f = absurd m
  described_state d s ty node tr (x ∷ states) (inl at) e f =
      let types = sort_strings (keys node.on) in
      let found : JsMap.get JsString-discrete x d.states ≡ some node = rw at e in
      let inputs = describe_inputs x node.on types in
      let one =
        described_input x ty node.on tr types
          ((In-sort_strings ty (keys node.on)).1 (In-keys ty tr node.on f)) f in
      rw (found, describe_states)
        ((HasEdge-append s tr.target inputs (describe_states d states)).1
          (inl (subst (λ z. HasEdge z tr.target inputs) at one)))
  described_state d s ty node tr (x ∷ states) (inr later) e f =
      let rest = described_state d s ty node tr states later e f in
      elim (Option-cases (JsMap.get JsString-discrete x d.states)) [
        | inl missing ↦ rw (missing, describe_states) rest
        | inr (other, g) ↦
            rw (g, describe_states)
              ((HasEdge-append s tr.target
                  (describe_inputs x other.on (sort_strings (keys other.on)))
                  (describe_states d states)).1
                (inr rest))
      ]
