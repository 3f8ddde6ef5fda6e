-- ===== src/DomainStateMachine/Outgoing.antt =====
-- The map of outgoing edges that the analyzer fills.
use mathlib.Core.Path.{subst}
use mathlib.Core.Logic.{⊎_elim}
use ddd_kit_ts.Base.{
  ◌≡◌, ◌⊎◌, ◌↔◌, inl, inr, refl, sym, ap, ◌∙◌, none, some, List, [], ◌∷◌, ◌++◌, arith, Option-cases,
  get_or,
}
use ddd_kit_ts.Base.JsMap
use ddd_kit_ts.Base.JsMap.Laws.{get-set_self, get-set_ne}
use ddd_kit_ts.Base.JsString.{JsString, JsString-discrete}
use ddd_kit_ts.DomainStateMachine.{DomainMachineDefinition}
use ddd_kit_ts.DomainStateMachine.Analyzer.{
  Graph, DomainMachineTransitionDescription, keys, edges_of, push_edge, without_edges,
  outgoing_from, sorted_states, transitions_of, outgoing,
}
use ddd_kit_ts.DomainStateMachine.Visited.{In, some-inj}
use ddd_kit_ts.DomainStateMachine.Edges.{
  Edge, edge, HasEdge, HasEdge-describe_states, described_state, In-sort_strings, In-keys,
}

In-append_last : (y t : JsString) (ts : List JsString) → In y (ts ++ t ∷ []) ↔ (In y ts ⊎ (t ≡ y))
In-append_last y t [] = ground arith
In-append_last y t (u ∷ ts) = ground (arith, In-append_last y t ts)

-- The edges of a state, by what its entry is.
edges_of-some :
    (g : Graph) (s : JsString) (ts : List JsString)
    → JsMap.get JsString-discrete s g ≡ some ts
    → edges_of g s ≡ ts
unfolding edges_of
edges_of-some g s ts h = ap (λ o. get_or o []) h

-- What a push does to the entry of a state.
data Pushed (from to : JsString) (g : Graph) (s : JsString) : Type 0 where
  untouched :
      JsMap.get JsString-discrete s (push_edge from to g) ≡ JsMap.get JsString-discrete s g
      → ((from ≡ s) → JsMap.get JsString-discrete s g ≡ none)
      → Pushed from to g s
  extended :
      (ts : List JsString)
      → from ≡ s
      → JsMap.get JsString-discrete s g ≡ some ts
      → JsMap.get JsString-discrete s (push_edge from to g) ≡ some (ts ++ to ∷ [])
      → Pushed from to g s

push_edge-Pushed : (from to : JsString) (g : Graph) (s : JsString) → Pushed from to g s
unfolding push_edge
push_edge-Pushed from to g s = elim (Option-cases (JsMap.get JsString-discrete from g)) [
  | inl missing ↦
      untouched (rw (missing, push_edge) refl)
        (λ e. subst (λ z. JsMap.get JsString-discrete z g ≡ none) e missing)
  | inr (ts, found) ↦ elim (JsString-discrete from s) [
    | no ne ↦
        untouched (rw (found, push_edge) (get-set_ne JsString-discrete from s (ts ++ to ∷ []) g ne))
          (λ e. absurd (ne e))
    | yes e ↦ extended ts e (subst (λ z. JsMap.get JsString-discrete z g ≡ some ts) e found) (
        rw (found, push_edge)
          (subst
            (λ z.
              JsMap.get JsString-discrete z (JsMap.set JsString-discrete from (ts ++ to ∷ []) g)
              ≡ some (ts ++ to ∷ []))
            e (get-set_self JsString-discrete from (ts ++ to ∷ []) g)))
  ]
]

edges_of_same :
    (g h : Graph) (s : JsString)
    → JsMap.get JsString-discrete s g ≡ JsMap.get JsString-discrete s h
    → edges_of g s ≡ edges_of h s
unfolding edges_of
edges_of_same g h s e = ap (λ o. get_or o []) e

outgoing_from_sound :
    (ts : List DomainMachineTransitionDescription) (g : Graph) (x y : JsString)
    → In y (edges_of (outgoing_from g ts) x)
    → In y (edges_of g x) ⊎ HasEdge x y ts
unfolding outgoing_from
outgoing_from_sound [] g x y h = inl h
outgoing_from_sound (t ∷ ts) g x y h =
    elim (outgoing_from_sound ts (push_edge t.state t.target g) x y h) [
      | inr later ↦ inr (inr later)
      | inl m ↦ elim (push_edge-Pushed t.state t.target g x) [
        | untouched same _ ↦
            inl (subst (In y) (edges_of_same (push_edge t.state t.target g) g x same) m)
        | extended us at old new ↦
            ⊎_elim (λ known. inl (subst (In y) (sym (edges_of-some g x us old)) known))
              (λ e. inr (inl (at, e)))
              ((In-append_last y t.target us).0 (
                subst (In y)
                  (edges_of-some (push_edge t.state t.target g) x (us ++ t.target ∷ []) new) m))
      ]
    ]

outgoing_from_complete :
    (ts : List DomainMachineTransitionDescription) (g : Graph) (x y : JsString) (us : List JsString)
    → JsMap.get JsString-discrete x g ≡ some us
    → In y us ⊎ HasEdge x y ts
    → In y (edges_of (outgoing_from g ts) x)
unfolding outgoing_from
outgoing_from_complete [] g x y us h m =
    rw (edges_of-some g x us h) (⊎_elim (λ a. a) (λ b. absurd b) m)
outgoing_from_complete (t ∷ ts) g x y us h m = elim (push_edge-Pushed t.state t.target g x) [
  | untouched same missing ↦
      outgoing_from_complete ts (push_edge t.state t.target g) x y us (same ∙ h) (elim m [
        | inl known ↦ inl known
        | inr (inl (at, e)) ↦ absurd (cc (missing at, h))
        | inr (inr later) ↦ inr later
      ])
  | extended vs at old new ↦
      let same : us ≡ vs = some-inj (sym h ∙ old) in
      outgoing_from_complete ts (push_edge t.state t.target g) x y (vs ++ t.target ∷ []) new
        (elim m [
          | inl known ↦ inl ((In-append_last y t.target vs).1 (inl (subst (In y) same known)))
          | inr (inl (_, e)) ↦ inl ((In-append_last y t.target vs).1 (inr e))
          | inr (inr later) ↦ inr later
        ])
]

without_edges-cases :
    (states : List JsString) (x : JsString)
    → (JsMap.get JsString-discrete x (without_edges states) ≡ none)
      ⊎ (JsMap.get JsString-discrete x (without_edges states) ≡ some [])
unfolding without_edges
without_edges-cases [] x = inl refl
without_edges-cases (s ∷ states) x = ground (arith, without_edges-cases states x)

without_edges-empty :
    (states : List JsString) (x : JsString) → edges_of (without_edges states) x ≡ []
unfolding edges_of
without_edges-empty states x =
    ⊎_elim (ap (λ o. get_or o [])) (ap (λ o. get_or o [])) (without_edges-cases states x)

without_edges-has :
    (states : List JsString) (x : JsString)
    → In x states
    → JsMap.get JsString-discrete x (without_edges states) ≡ some []
unfolding without_edges
without_edges-has [] x m = absurd m
without_edges-has (s ∷ states) x m = ground (arith, without_edges-has states x)

module _ {C I O D X : Type 0} (d : DomainMachineDefinition C I O D X) where
  -- The edges of the graph are the transitions of the definition.
  pub outgoing-Edge : (x y : JsString) → In y (edges_of (outgoing d) x) ↔ Edge d x y
  unfolding outgoing transitions_of
  outgoing-Edge x y = (
    λ m.
        ⊎_elim (λ known. absurd (subst (In y) (without_edges-empty (sorted_states d) x) known))
          (HasEdge-describe_states d x y (sorted_states d))
          (outgoing_from_sound (transitions_of d) (without_edges (sorted_states d)) x y m),
    λ e. elim e [
      | edge {node} {tr} ty at on target ↦
          let states = sorted_states d in
          let known = (In-sort_strings x (keys d.states)).1 (In-keys x node d.states at) in
          outgoing_from_complete (transitions_of d) (without_edges states) x y []
            (without_edges-has states x known)
            (inr (
              subst (λ z. HasEdge x z (transitions_of d)) target
                (described_state d x ty node tr states known at on)))
    ],
  )
