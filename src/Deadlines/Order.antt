-- ===== src/Deadlines/Order.antt =====
-- The page that `due` returns: the earliest of the deadlines that are due, in order.
use mathlib.Core.List.{Perm, filter}
use mathlib.Core.List.Perm
use ddd_kit_ts.Base.{
  ℕ, zero, suc, ◌<◌, ◌≤◌, ◌≡◌, ◌⊎◌, inl, inr, refl, true, false, List, [], ◌∷◌, map, take, arith,
  All, dec_le, ok, Bool-cases,
}
use ddd_kit_ts.Base.JsMap
use ddd_kit_ts.Base.JsNumber.{JsNumber}
use ddd_kit_ts.Deadlines.{
  StoredDeadline, InMemoryDeadlineStore, to_record, due_now, before_or_same, insert_by, sort_by,
  due,
}

module _ {P : Type 0} where
  -- Earlier due, or due at the same time and scheduled no later.
  abbrev pub Before : StoredDeadline P → StoredDeadline P → Type 0
  Before a b = (a.due_at < b.due_at) ⊎ (a.due_at ≡ b.due_at) × (a.sequence ≤ b.sequence)

  -- Each deadline comes before all that follow it.
  abbrev pub IsSorted : List (StoredDeadline P) → Type 0
  IsSorted [] = Unit
  IsSorted (d ∷ ds) = All (Before d) ds × IsSorted ds

  before_or_same-Before : (a b : StoredDeadline P) → before_or_same a b ≡ true → Before a b
  unfolding before_or_same
  before_or_same-Before a b h = ground arith

  not-before_or_same : (a b : StoredDeadline P) → before_or_same a b ≡ false → Before b a
  unfolding before_or_same
  not-before_or_same a b h = ground arith

  Before-trans : (a b c : StoredDeadline P) → Before a b → Before b c → Before a c
  Before-trans a b c h k = ground arith

  All-Before :
      (a b : StoredDeadline P) (ds : List (StoredDeadline P))
      → Before a b
      → All (Before b) ds
      → All (Before a) ds
  All-Before a b [] h k = tt
  All-Before a b (d ∷ ds) h k = (Before-trans a b d h k.0, All-Before a b ds h k.1)

  All-insert_by :
      (a x : StoredDeadline P) (ds : List (StoredDeadline P))
      → Before a x
      → All (Before a) ds
      → All (Before a) (insert_by before_or_same x ds)
  unfolding insert_by
  All-insert_by a x [] h k = (h, tt)
  All-insert_by a x (d ∷ ds) h k = elim (Bool-cases (before_or_same x d)) [
    | inl front ↦ rw front (h, k)
    | inr later ↦ rw later (k.0, All-insert_by a x ds h k.1)
  ]

  insert_by-IsSorted :
      (x : StoredDeadline P) (ds : List (StoredDeadline P))
      → IsSorted ds
      → IsSorted (insert_by before_or_same x ds)
  unfolding insert_by
  insert_by-IsSorted x [] h = (tt, tt)
  insert_by-IsSorted x (d ∷ ds) h = elim (Bool-cases (before_or_same x d)) [
    | inl front ↦
        let b : Before x d = before_or_same-Before x d front in
        rw front ((b, All-Before x d ds b h.0), h)
    | inr later ↦
        rw later
          (All-insert_by d x ds (not-before_or_same x d later) h.0, insert_by-IsSorted x ds h.1)
  ]

  sort_by-IsSorted : (ds : List (StoredDeadline P)) → IsSorted (sort_by before_or_same ds)
  unfolding sort_by
  sort_by-IsSorted [] = tt
  sort_by-IsSorted (d ∷ ds) = insert_by-IsSorted d (sort_by before_or_same ds) (sort_by-IsSorted ds)

  insert_by-perm :
      (x : StoredDeadline P) (ds : List (StoredDeadline P))
      → Perm (insert_by before_or_same x ds) (x ∷ ds)
  unfolding insert_by
  insert_by-perm x [] = Perm.refl (x ∷ [])
  insert_by-perm x (d ∷ ds) = elim (Bool-cases (before_or_same x d)) [
    | inl front ↦ rw front (Perm.refl (x ∷ d ∷ ds))
    | inr later ↦ rw later (Perm.trans (Perm.cons d (insert_by-perm x ds)) (Perm.swap x d ds))
  ]

  sort_by-perm : (ds : List (StoredDeadline P)) → Perm (sort_by before_or_same ds) ds
  unfolding sort_by
  sort_by-perm [] = Perm.refl []
  sort_by-perm (d ∷ ds) =
      Perm.trans (insert_by-perm d (sort_by before_or_same ds)) (Perm.cons d (sort_by-perm ds))

  due_now-filter :
      (now : ℕ) (ds : List (StoredDeadline P))
      → due_now now ds ≡ filter (λ d. dec_le d.due_at now) ds
  unfolding due_now
  due_now-filter now [] = refl
  due_now-filter now (d ∷ ds) = ground (arith, due_now-filter now ds)

  -- A page is the first `limit` of a sorted list of exactly the pending deadlines that are due: no
  -- due deadline is passed over by one that is due later, and none is left out or given twice.
  pub due_page :
      (s : InMemoryDeadlineStore P) (now limit : ℕ)
      → (all : List (StoredDeadline P)) × (due s now (JsNumber.int limit)
          ≡ ok (map to_record (take limit all)))
        × Perm all (filter (λ d. dec_le d.due_at now) (JsMap.values s.pending))
        × IsSorted all
  unfolding due
  due_page s now limit = (
    sort_by before_or_same (due_now now (JsMap.values s.pending)),
    page limit,
    rw (← due_now-filter now (JsMap.values s.pending))
        (sort_by-perm (due_now now (JsMap.values s.pending))),
    sort_by-IsSorted (due_now now (JsMap.values s.pending)),
  )
    where
      page :
          (n : ℕ)
          → due s now (JsNumber.int n)
            ≡ ok (
                map to_record
                  (take n (sort_by before_or_same (due_now now (JsMap.values s.pending)))))
      page zero = refl
      page (suc n) = ground arith
