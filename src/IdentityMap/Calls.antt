-- ===== src/IdentityMap/Calls.antt =====
-- What the calls do to the instance and the tombstone of an address.
use mathlib.Core.Path.{subst}
use ddd_kit_ts.Base.{
  ℕ, ◌≡◌, ◌≢◌, ◌⊎◌, inl, inr, refl, sym, ap, ◌∙◌, Bool, true, false, Option, none, some, List, [],
  ◌∷◌, arith, ok, throws, Option-cases,
}
use ddd_kit_ts.Base.JsString.{JsString, JsString-discrete}
use ddd_kit_ts.IdentityMap.{
  IdentityMap, Error, aggregate_deleted, different_instance, drop_instance, get, is_deleted, put,
  set_existing, set, delete,
}
use ddd_kit_ts.IdentityMap.Lookup.{
  value_at, write, IsOther, value_at-write_self, value_at-write_other, value_at-drop_other,
}

-- The calls that change the map, with what an object carries at the time of the call.
pub data Call (T I : Type 0) : Type 0 where
  set_call : (I → Option ℕ) → T → JsString → I → Call T I
  delete_call : T → JsString → Call T I

-- Whether there is a value.
abbrev pub is_there : {A : Type 0} → Option A → Bool
is_there none = false
is_there (some a) = true

module _ {T I : Type 0} (dec_t : Discrete T) (dec_i : Discrete I) where
  abbrev pub instance_at : T → JsString → IdentityMap T I → Option I
  instance_at t id m = value_at dec_t t id m.stores

  abbrev pub tombstone_at : T → JsString → IdentityMap T I → Option (Unit {0})
  tombstone_at t id m = value_at dec_t t id m.deleted

  pub is_deleted-there :
      (m : IdentityMap T I) (t : T) (id : JsString)
      → is_deleted dec_t dec_i m t id ≡ is_there (tombstone_at t id m)
  unfolding is_deleted value_at
  is_deleted-there m t id = refl

  set_existing-same :
      (pending : I → Option ℕ) (m : IdentityMap T I) (t : T) (id : JsString) (x y : I)
      → y ≡ x
      → set_existing dec_t dec_i pending m t id x (some y)
        ≡ (ok tt, put dec_t dec_i pending m t id x)
  unfolding set_existing
  set_existing-same pending m t id x y same = ground (arith, same)

  pub set_existing-other :
      (pending : I → Option ℕ) (m : IdentityMap T I) (t : T) (id : JsString) (x y : I)
      → y ≢ x
      → set_existing dec_t dec_i pending m t id x (some y) ≡ (throws (different_instance id), m)
  unfolding set_existing
  set_existing-other pending m t id x y other = ground (arith, other)

  pub set_alive :
      (pending : I → Option ℕ) (m : IdentityMap T I) (t : T) (id : JsString) (x : I)
      → tombstone_at t id m ≡ none
      → set dec_t dec_i pending m t id x
        ≡ set_existing dec_t dec_i pending m t id x (instance_at t id m)
  unfolding set get value_at
  set_alive pending m t id x alive =
      let h : is_deleted dec_t dec_i m t id ≡ false = is_deleted-there m t id ∙ ap is_there alive in
      rw (h, set) refl

  pub set_deleted :
      (pending : I → Option ℕ) (m : IdentityMap T I) (t : T) (id : JsString) (x : I) (u : Unit {0})
      → tombstone_at t id m ≡ some u
      → set dec_t dec_i pending m t id x ≡ (throws (aggregate_deleted id), m)
  unfolding set
  set_deleted pending m t id x u there =
      let h : is_deleted dec_t dec_i m t id ≡ true = is_deleted-there m t id ∙ ap is_there there in
      rw (h, set) refl

  -- A registration is refused and changes nothing, or writes the instance at its address, which
  -- was free or held the same instance.
  pub set-cases :
      (pending : I → Option ℕ) (m : IdentityMap T I) (t : T) (id : JsString) (x : I)
      → ((e : Error) × (set dec_t dec_i pending m t id x ≡ (throws e, m)))
        ⊎ ((set dec_t dec_i pending m t id x ≡ (ok tt, put dec_t dec_i pending m t id x))
            × (tombstone_at t id m ≡ none)
            × ((instance_at t id m ≡ none) ⊎ (instance_at t id m ≡ some x)))
  unfolding set_existing
  set-cases pending m t id x = elim (Option-cases (tombstone_at t id m)) [
    | inr (u, there) ↦ inl (aggregate_deleted id, set_deleted pending m t id x u there)
    | inl alive ↦
        let run : set dec_t dec_i pending m t id x
            ≡ set_existing dec_t dec_i pending m t id x (instance_at t id m) =
          set_alive pending m t id x alive in
        elim (Option-cases (instance_at t id m)) [
          | inl free ↦
              inr (run ∙ ap (set_existing dec_t dec_i pending m t id x) free, alive, inl free)
          | inr (y, held) ↦
              let run' = run ∙ ap (set_existing dec_t dec_i pending m t id x) held in
              elim (dec_i y x) [
                | yes same ↦ inr (
                  run' ∙ set_existing-same pending m t id x y same,
                  alive,
                  inr (held ∙ ap some same),
                )
                | no other ↦
                    inl (different_instance id, run' ∙ set_existing-other pending m t id x y other)
              ]
        ]
  ]

  pub same_or_IsOther : (t u : T) (id j : JsString) → ((t ≡ u) × (id ≡ j)) ⊎ IsOther t id u j
  same_or_IsOther t u id j = elim (dec_t t u) [
    | no ne ↦ inr (inl ne)
    | yes e ↦ elim (JsString-discrete id j) [ no ne ↦ inr (inr ne) | yes f ↦ inl (e, f) ]
  ]

  pub put-stores :
      (pending : I → Option ℕ) (m : IdentityMap T I) (t : T) (id : JsString) (x : I)
      → ((put dec_t dec_i pending m t id x).stores ≡ write dec_t t id x m.stores)
        × ((put dec_t dec_i pending m t id x).deleted ≡ m.deleted)
  unfolding put write
  put-stores pending m t id x = (refl, refl)

  pub delete-stores :
      (m : IdentityMap T I) (t : T) (id : JsString)
      → ((delete dec_t dec_i m t id).stores ≡ drop_instance dec_t t id m.stores)
        × ((delete dec_t dec_i m t id).deleted ≡ write dec_t t id tt m.deleted)
  unfolding delete write
  delete-stores m t id = (refl, refl)

  unfoldable pub run : IdentityMap T I → Call T I → IdentityMap T I
  unfolding set delete
  run m (set_call pending t id x) = (set dec_t dec_i pending m t id x).1
  run m (delete_call t id) = delete dec_t dec_i m t id

  unfoldable pub run_all : IdentityMap T I → List (Call T I) → IdentityMap T I
  unfolding run
  run_all m [] = m
  run_all m (c ∷ cs) = run_all (run m c) cs

  -- The address holds the instance and has not been deleted.
  abbrev pub Kept : T → JsString → I → IdentityMap T I → Type 0
  Kept t id x m = (instance_at t id m ≡ some x) × (tombstone_at t id m ≡ none)

  put-Kept :
      (pending : I → Option ℕ) (m : IdentityMap T I) (t u : T) (id j : JsString) (x y : I)
      → Kept t id x m
      → (instance_at u j m ≡ none) ⊎ (instance_at u j m ≡ some y)
      → Kept t id x (put dec_t dec_i pending m u j y)
  put-Kept pending m t u id j x y (held, alive) there =
      let (stores, deleted) = put-stores pending m u j y in
      (
        ap (value_at dec_t t id) stores ∙ elim (same_or_IsOther u t j id) [
          | inr other ↦ value_at-write_other dec_t u t j id y m.stores other ∙ held
          | inl (e, f) ↦
              let before : instance_at u j m ≡ some x = rw (e, f) held in
              let same : y ≡ x = same_instance there before in
              subst (λ v. value_at dec_t v id (write dec_t u j y m.stores) ≡ some x) e
                (subst (λ i. value_at dec_t u i (write dec_t u j y m.stores) ≡ some x) f
                  (value_at-write_self dec_t u j y m.stores ∙ ap some same))
        ],
        ap (value_at dec_t t id) deleted ∙ alive,
      )
    where
      same_instance : {a : Option I} → (a ≡ none) ⊎ (a ≡ some y) → a ≡ some x → y ≡ x
      same_instance (inl free) h = absurd (ground (arith, free, h))
      same_instance (inr it) h = cc (it, h)

  pub run-Kept :
      (m : IdentityMap T I) (t : T) (id : JsString) (x : I) (c : Call T I)
      → c ≢ delete_call t id
      → Kept t id x m
      → Kept t id x (run m c)
  unfolding run
  run-Kept m t id x (set_call pending u j y) ne k = elim (set-cases pending m u j y) [
    | inl (e, refused) ↦ subst (Kept t id x) (sym (ap (λ r. r.1) refused)) k
    | inr (written, alive, there) ↦
        subst (Kept t id x) (sym (ap (λ r. r.1) written)) (put-Kept pending m t u id j x y k there)
  ]
  run-Kept m t id x (delete_call u j) ne (held, alive) =
      let (stores, deleted) = delete-stores m u j in
      elim (same_or_IsOther u t j id) [
        | inl (e, f) ↦ absurd (ne (ap (λ v. delete_call v j) e ∙ ap (delete_call t) f))
        | inr other ↦ (
          ap (value_at dec_t t id) stores
              ∙ value_at-drop_other dec_t u t j id m.stores other
              ∙ held,
          ap (value_at dec_t t id) deleted
              ∙ value_at-write_other dec_t u t j id tt m.deleted other
              ∙ alive,
        )
      ]
