-- ===== src/DomainStateMachine/Visited.antt =====
-- The visited and the pending states in `visitGraph` of src/domain-state-machine/analyzer.ts.
use ddd_kit_ts.Base.{
  ℕ, zero, suc, ◌+◌, ◌≤◌, ◌≡◌, ◌⊎◌, ◌↔◌, inl, inr, refl, true, some, List, [], ◌∷◌, length, arith,
  Bool-cases,
}
use ddd_kit_ts.Base.JsString.{JsString}
use ddd_kit_ts.DomainStateMachine.Analyzer.{Graph, has_visited, push_all, visit_loop}

abbrev pub In : JsString → List JsString → Type 0
In s [] = ⊥
In s (t ∷ ts) = (t ≡ s) ⊎ In s ts

pub has_visited_iff : (s : JsString) (ts : List JsString) → (has_visited s ts ≡ true) ↔ In s ts
unfolding has_visited
has_visited_iff s [] = ground arith
has_visited_iff s (t ∷ ts) = ground (arith, has_visited_iff s ts)

pub push_all_sound :
    (visited pending nexts : List JsString) (x : JsString)
    → In x (push_all visited pending nexts)
    → In x pending ⊎ In x nexts
unfolding push_all
push_all_sound visited pending [] x h = inl h
push_all_sound visited pending (n ∷ nexts) x h = elim (Bool-cases (has_visited n visited)) [
  | inl old ↦ ground (arith, push_all_sound visited pending nexts x (rw (old, push_all) at h))
  | inr new ↦ ground (arith, push_all_sound visited (n ∷ pending) nexts x (rw (new, push_all) at h))
]

pub push_all_complete :
    (visited pending nexts : List JsString) (x : JsString)
    → In x pending ⊎ In x nexts
    → In x (push_all visited pending nexts) ⊎ (has_visited x visited ≡ true)
unfolding push_all
push_all_complete visited pending [] x h = ground arith
push_all_complete visited pending (n ∷ nexts) x h = elim (Bool-cases (has_visited n visited)) [
  | inl old ↦ rw (old, push_all) (ground (arith, push_all_complete visited pending nexts x))
  | inr new ↦ rw (new, push_all) (ground (arith, push_all_complete visited (n ∷ pending) nexts x))
]

pub push_all-keeps :
    (visited pending nexts : List JsString) (x : JsString)
    → In x pending
    → In x (push_all visited pending nexts)
unfolding push_all
push_all-keeps visited pending [] x h = h
push_all-keeps visited pending (n ∷ nexts) x h = elim (Bool-cases (has_visited n visited)) [
  | inl old ↦ rw (old, push_all) (push_all-keeps visited pending nexts x h)
  | inr new ↦ rw (new, push_all) (push_all-keeps visited (n ∷ pending) nexts x (inr h))
]

pub length-push_all :
    (visited pending nexts : List JsString)
    → length (push_all visited pending nexts) ≤ length pending + length nexts
unfolding push_all
length-push_all visited pending [] = omega arith
length-push_all visited pending (n ∷ nexts) =
    ground
      (arith, length-push_all visited pending nexts, length-push_all visited (n ∷ pending) nexts)

pub visit_loop_done :
    (fuel : ℕ) (g : Graph) (visited : List JsString) → visit_loop fuel g visited [] ≡ some visited
unfolding visit_loop
visit_loop_done zero g visited = refl
visit_loop_done (suc fuel) g visited = refl

pub some-inj : {A : Type 0} {a b : A} → some a ≡ some b → a ≡ b
some-inj h = cc
