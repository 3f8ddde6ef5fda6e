-- ===== src/DomainStateMachine/Search.antt =====
-- The states that `visitGraph` of src/domain-state-machine/analyzer.ts visits.
use mathlib.Core.Logic.{⊎_elim}
use ddd_kit_ts.Base.{
  ℕ, zero, suc, ◌+◌, ◌≡◌, ◌⊎◌, ◌↔◌, inl, inr, refl, sym, ◌∙◌, some, List, [], ◌∷◌, arith,
  Bool-cases,
}
use ddd_kit_ts.Base.JsString.{JsString}
use ddd_kit_ts.DomainStateMachine.Analyzer.{
  Graph, has_visited, edges_of, push_all, visit_loop, edge_count, visit_graph,
}
use ddd_kit_ts.DomainStateMachine.Visited.{
  In, has_visited_iff, push_all_sound, push_all_complete, push_all-keeps, visit_loop_done, some-inj,
}

-- What holds of the starts and is kept by the edges holds of all that is visited.
visit_loop-sound :
    (P : JsString → Type 0) (g : Graph)
    → ((x y : JsString) → P x → In y (edges_of g x) → P y)
    → (fuel : ℕ) (visited pending v : List JsString) → ((x : JsString) → In x visited → P x)
    → ((x : JsString) → In x pending → P x)
    → visit_loop fuel g visited pending ≡ some v
    → (x : JsString) → In x v
    → P x
unfolding visit_loop
visit_loop-sound P g keep fuel visited [] v known queued h x m =
    known x (rw (some-inj (sym (visit_loop_done fuel g visited) ∙ h)) m)
visit_loop-sound P g keep zero visited (s ∷ pending) v known queued h x m = absurd (cc)
visit_loop-sound P g keep (suc fuel) visited (s ∷ pending) v known queued h x m =
    elim (Bool-cases (has_visited s visited)) [
      | inl old ↦
          visit_loop-sound P g keep fuel visited pending v known (λ y q. queued y (inr q))
            (rw (old, visit_loop) at h) x m
      | inr new ↦
          visit_loop-sound P g keep fuel (s ∷ visited)
            (push_all (s ∷ visited) pending (edges_of g s)) v
            (λ y k. ⊎_elim (λ e. rw (← e) (queued s (inl refl))) (known y) k)
            (λ y q.
              ⊎_elim (λ old. queued y (inr old)) (keep s y (queued s (inl refl)))
                (push_all_sound (s ∷ visited) pending (edges_of g s) y q))
            (rw (new, visit_loop) at h) x m
    ]

-- The visited states contain the starts and are closed under the edges.
record Closed (g : Graph) (visited pending v : List JsString) : Type 0 where
  kept : (x : JsString) → In x visited → In x v
  reached : (x : JsString) → In x pending → In x v
  closed : (x y : JsString) → In x v → In y (edges_of g x) → In y v

-- The states that are visited and those still to visit keep all edges between them.
frontier :
    (g : Graph) (visited pending : List JsString) (s : JsString)
    → ((x y : JsString) → In x visited → In y (edges_of g x) → In y visited ⊎ In y (s ∷ pending))
    → (x y : JsString) → In x (s ∷ visited)
    → In y (edges_of g x)
    → In y (s ∷ visited) ⊎ In y (push_all (s ∷ visited) pending (edges_of g s))
frontier g visited pending s inv x y (inl e) k =
    elim (push_all_complete (s ∷ visited) pending (edges_of g s) y (inr (rw e k))) [
      | inl queued ↦ inr queued
      | inr known ↦ inl ((has_visited_iff y (s ∷ visited)).0 known)
    ]
frontier g visited pending s inv x y (inr old) k = elim (inv x y old k) [
  | inl known ↦ inl (inr known)
  | inr (inl e) ↦ inl (inl e)
  | inr (inr queued) ↦ inr (push_all-keeps (s ∷ visited) pending (edges_of g s) y queued)
]

visit_loop-Closed :
    (fuel : ℕ) (g : Graph) (visited pending v : List JsString)
    → ((x y : JsString) → In x visited → In y (edges_of g x) → In y visited ⊎ In y pending)
    → visit_loop fuel g visited pending ≡ some v
    → Closed g visited pending v
unfolding visit_loop
visit_loop-Closed fuel g visited [] v inv h =
    let e : visited ≡ v = some-inj (sym (visit_loop_done fuel g visited) ∙ h) in
    rw (← e) (record {
      kept = λ x m. m;
      reached = λ x m. absurd m;
      closed = λ x y m k. ⊎_elim (λ a. a) (λ b. absurd b) (inv x y m k);
    })
visit_loop-Closed zero g visited (s ∷ pending) v inv h = absurd (cc)
visit_loop-Closed (suc fuel) g visited (s ∷ pending) v inv h =
    elim (Bool-cases (has_visited s visited)) [
      | inl old ↦
          let here = (has_visited_iff s visited).0 old in
          let c =
            visit_loop-Closed fuel g visited pending v
              (λ x y m k. ground (arith, inv x y m k, here)) (rw (old, visit_loop) at h) in
          record {
            kept = c.kept;
            reached = λ x m. ⊎_elim (λ e. rw (← e) (c.kept s here)) (c.reached x) m;
            closed = c.closed;
          }
      | inr new ↦
          let c =
            visit_loop-Closed fuel g (s ∷ visited) (push_all (s ∷ visited) pending (edges_of g s)) v
              (frontier g visited pending s inv) (rw (new, visit_loop) at h) in
          record {
            kept = λ x m. c.kept x (inr m);
            reached = λ x m.
                ⊎_elim (λ e. c.kept x (inl e))
                  (λ q. c.reached x (push_all-keeps (s ∷ visited) pending (edges_of g s) x q)) m;
            closed = c.closed;
          }
    ]

-- The walks along the edges of a graph.
pub data Walk (g : Graph) (s : JsString) : JsString → Type 0 where
  here : Walk g s s
  along : {x y : JsString} → Walk g s x → In y (edges_of g x) → Walk g s y

visited_of_Walk :
    {g : Graph} {s : JsString} {v : List JsString} {x : JsString}
    → Closed g [] (s ∷ []) v
    → Walk g s x
    → In x v
visited_of_Walk {s} c here = c.reached s (inl refl)
visited_of_Walk c (along {x} {y} w k) = c.closed x y (visited_of_Walk c w) k

-- The search visits exactly the states to which a walk leads.
pub visit_graph_correct :
    (g : Graph) (s : JsString) (v : List JsString)
    → visit_graph g (s ∷ []) ≡ some v
    → (x : JsString) → In x v ↔ Walk g s x
unfolding visit_graph
visit_graph_correct g s v h x = (
  visit_loop-sound (Walk g s) g (λ y z w k. along w k) (1 + edge_count g) [] (s ∷ []) v
      (λ y m. absurd m) (λ y m. ⊎_elim (λ e. rw e here) (λ no. absurd no) m) h x,
  visited_of_Walk (visit_loop-Closed (1 + edge_count g) g [] (s ∷ []) v (λ y z m k. absurd m) h),
)
