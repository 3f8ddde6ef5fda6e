-- ===== src/DomainStateMachine/SearchEnds.antt =====
-- The fuel of `visitGraph` of src/domain-state-machine/analyzer.ts is enough.
use ddd_kit_ts.Base.{
  ℕ, zero, suc, ◌+◌, ◌≤◌, ◌≡◌, ◌≢◌, inl, inr, refl, sym, true, false, some, List, [], ◌∷◌, length,
  arith, Bool-cases,
}
use ddd_kit_ts.Base.JsString.{JsString, JsString-discrete}
use ddd_kit_ts.DomainStateMachine.Analyzer.{
  Graph, has_visited, edges_of, push_all, visit_loop, edge_count, visit_graph,
}
use ddd_kit_ts.DomainStateMachine.Visited.{has_visited_iff, length-push_all, visit_loop_done}

-- The edges out of states that have not been visited.
edges_left : List JsString → Graph → ℕ
edges_left visited [] = 0
edges_left visited (e ∷ g) =
    let rest = edges_left visited g in
    elim (has_visited e.0 visited) [ true ↦ rest | false ↦ length e.1 + rest ]

has_visited_here : (s t : JsString) (ts : List JsString) → t ≡ s → has_visited s (t ∷ ts) ≡ true
has_visited_here s t ts e = (has_visited_iff s (t ∷ ts)).1 (inl e)

has_visited_ne :
    (s t : JsString) (ts : List JsString) → t ≢ s → has_visited s (t ∷ ts) ≡ has_visited s ts
unfolding has_visited
has_visited_ne s t ts ne = ground (arith, ne)

has_visited_later :
    (s t : JsString) (ts : List JsString) → has_visited s ts ≡ true → has_visited s (t ∷ ts) ≡ true
has_visited_later s t ts h = (has_visited_iff s (t ∷ ts)).1 (inr ((has_visited_iff s ts).0 h))

edges_of_here :
    (s : JsString) (e : JsString × List JsString) (g : Graph) → e.0 ≡ s → edges_of (e ∷ g) s ≡ e.1
unfolding edges_of
edges_of_here s e g h = ground (arith, h)

edges_of_ne :
    (s : JsString) (e : JsString × List JsString) (g : Graph)
    → e.0 ≢ s
    → edges_of (e ∷ g) s ≡ edges_of g s
unfolding edges_of
edges_of_ne s e g h = ground (arith, h)

edges_left-cons :
    (s : JsString) (visited : List JsString) (g : Graph)
    → edges_left (s ∷ visited) g ≤ edges_left visited g
unfolding edges_left
edges_left-cons s visited [] = omega arith
edges_left-cons s visited (e ∷ g) = elim (Bool-cases (has_visited e.0 visited)) [
  | inl old ↦
      rw (has_visited_later e.0 s visited old, edges_left, old) (edges_left-cons s visited g)
  | inr new ↦ elim (Bool-cases (has_visited e.0 (s ∷ visited))) [
    | inl now ↦ rw (now, edges_left, new) (omega (arith, edges_left-cons s visited g))
    | inr still ↦ rw (still, edges_left, new) (omega (arith, edges_left-cons s visited g))
  ]
]

edges_left_visit :
    (s : JsString) (visited : List JsString) (g : Graph)
    → has_visited s visited ≡ false
    → edges_left (s ∷ visited) g + length (edges_of g s) ≤ edges_left visited g
unfolding edges_left
edges_left_visit s visited [] h = unfold edges_of in omega arith
edges_left_visit s visited (e ∷ g) h = elim (JsString-discrete e.0 s) [
  | yes here ↦
      let new : has_visited e.0 visited ≡ false = rw here h in
      let now = has_visited_here e.0 s visited (sym here) in
      rw (edges_of_here s e g here, now, edges_left, new)
        (omega (arith, edges_left-cons s visited g))
  | no ne ↦
      let same = has_visited_ne e.0 s visited (λ p. ne (sym p)) in
      elim (Bool-cases (has_visited e.0 visited)) [
        | inl old ↦
            rw (edges_of_ne s e g ne, same, edges_left, old) (edges_left_visit s visited g h)
        | inr new ↦
            rw (edges_of_ne s e g ne, same, edges_left, new)
              (omega (arith, edges_left_visit s visited g h))
      ]
]

edges_left-nil : (g : Graph) → edges_left [] g ≡ edge_count g
unfolding edges_left edge_count has_visited
edges_left-nil [] = refl
edges_left-nil (e ∷ g) = ground (arith, edges_left-nil g)

visit_loop_ends :
    (fuel : ℕ) (g : Graph) (visited pending : List JsString)
    → length pending + edges_left visited g ≤ fuel
    → (v : List JsString) × (visit_loop fuel g visited pending ≡ some v)
unfolding visit_loop
visit_loop_ends fuel g visited [] h = (visited, visit_loop_done fuel g visited)
visit_loop_ends zero g visited (s ∷ pending) h = absurd (omega arith)
visit_loop_ends (suc fuel) g visited (s ∷ pending) h = elim (Bool-cases (has_visited s visited)) [
  | inl old ↦
      let (v, e) = visit_loop_ends fuel g visited pending (omega arith) in
      (v, rw (old, visit_loop) e)
  | inr new ↦
      let (v, e) =
        visit_loop_ends fuel g (s ∷ visited) (push_all (s ∷ visited) pending (edges_of g s)) (
          omega (
            arith,
            edges_left_visit s visited g new,
            length-push_all (s ∷ visited) pending (edges_of g s),
          )) in
      (v, rw (new, visit_loop) e)
]

-- The search ends within its fuel.
pub visit_graph_total :
    (g : Graph) (starts : List JsString) → (v : List JsString) × (visit_graph g starts ≡ some v)
unfolding visit_graph
visit_graph_total g starts =
    visit_loop_ends (length starts + edge_count g) g [] starts (omega (arith, edges_left-nil g))
