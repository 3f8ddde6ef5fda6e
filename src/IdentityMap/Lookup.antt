-- ===== src/IdentityMap/Lookup.antt =====
-- Looking up one address after a call on the map.
use mathlib.Core.Path.{subst}
use ddd_kit_ts.Base.{
  ◌≡◌, ◌≢◌, ◌⊎◌, inl, inr, refl, ap, ◌∙◌, Option, none, some, [], get_or, Option-cases,
}
use ddd_kit_ts.Base.JsMap
use ddd_kit_ts.Base.JsMap.{JsMap}
use ddd_kit_ts.Base.JsMap.Laws.{
  get-set_self, get-set_ne, get-delete_ne, get-delete_self, set-IsMap, delete-IsMap,
}
use ddd_kit_ts.Base.JsString.{JsString, JsString-discrete}
use ddd_kit_ts.IdentityMap.{store_of, drop_instance}

-- Two addresses that differ in the class or in the id.
abbrev pub IsOther : {T : Type 0} → T → JsString → T → JsString → Type 0
IsOther t id u j = (t ≢ u) ⊎ (id ≢ j)

module _ {T V : Type 0} (dec_t : Discrete T) where
  -- The value under a class and an id.
  unfoldable pub value_at : T → JsString → JsMap T (JsMap JsString V) → Option V
  unfolding store_of
  value_at t id m = JsMap.get JsString-discrete id (store_of dec_t t m)

  -- The write of one value.
  unfoldable pub write : T → JsString → V → JsMap T (JsMap JsString V) → JsMap T (JsMap JsString V)
  unfolding store_of
  write t id v m = JsMap.set dec_t t (JsMap.set JsString-discrete id v (store_of dec_t t m)) m

  -- Each class has one value for an id.
  abbrev pub AllMaps : JsMap T (JsMap JsString V) → Type 0
  AllMaps m = (t : T) → JsMap.IsMap JsString-discrete (store_of dec_t t m)

  store_of-set_self :
      (t : T) (store : JsMap JsString V) (m : JsMap T (JsMap JsString V))
      → store_of dec_t t (JsMap.set dec_t t store m) ≡ store
  unfolding store_of
  store_of-set_self t store m = ap (λ o. get_or o []) (get-set_self dec_t t store m)

  store_of-set_ne :
      (t u : T) (store : JsMap JsString V) (m : JsMap T (JsMap JsString V))
      → t ≢ u
      → store_of dec_t u (JsMap.set dec_t t store m) ≡ store_of dec_t u m
  unfolding store_of
  store_of-set_ne t u store m ne = ap (λ o. get_or o []) (get-set_ne dec_t t u store m ne)

  pub value_at-write_self :
      (t : T) (id : JsString) (v : V) (m : JsMap T (JsMap JsString V))
      → value_at t id (write t id v m) ≡ some v
  unfolding value_at write
  value_at-write_self t id v m =
      ap (JsMap.get JsString-discrete id)
        (store_of-set_self t (JsMap.set JsString-discrete id v (store_of dec_t t m)) m)
      ∙ get-set_self JsString-discrete id v (store_of dec_t t m)

  pub value_at-write_other :
      (t u : T) (id j : JsString) (v : V) (m : JsMap T (JsMap JsString V))
      → IsOther t id u j
      → value_at u j (write t id v m) ≡ value_at u j m
  unfolding value_at write
  value_at-write_other t u id j v m other = elim (dec_t t u) [
    | no ne ↦
        ap (JsMap.get JsString-discrete j)
          (store_of-set_ne t u (JsMap.set JsString-discrete id v (store_of dec_t t m)) m ne)
    | yes same ↦
        subst (λ x. value_at x j (write t id v m) ≡ value_at x j m) same
          (ap (JsMap.get JsString-discrete j)
              (store_of-set_self t (JsMap.set JsString-discrete id v (store_of dec_t t m)) m)
            ∙ get-set_ne JsString-discrete id j v (store_of dec_t t m)
                (λ e. not_other e same other))
  ]
    where
      not_other : id ≡ j → t ≡ u → IsOther t id u j → ⊥
      not_other e same (inl ne) = ne same
      not_other e same (inr ne) = ne e

  -- What deleting an instance leaves of its class.
  store_of-drop_self :
      (t : T) (id : JsString) (m : JsMap T (JsMap JsString V))
      → store_of dec_t t (drop_instance dec_t t id m)
        ≡ JsMap.delete JsString-discrete id (store_of dec_t t m)
  unfolding store_of drop_instance
  store_of-drop_self t id m = elim (Option-cases (JsMap.get dec_t t m)) [
    | inl absent ↦ rw (absent, drop_instance, store_of) (rw absent refl)
    | inr (store, found) ↦
        rw (found, drop_instance, store_of)
          (store_of-set_self t (JsMap.delete JsString-discrete id store) m)
  ]

  store_of-drop_ne :
      (t u : T) (id : JsString) (m : JsMap T (JsMap JsString V))
      → t ≢ u
      → store_of dec_t u (drop_instance dec_t t id m) ≡ store_of dec_t u m
  unfolding drop_instance
  store_of-drop_ne t u id m ne = elim (Option-cases (JsMap.get dec_t t m)) [
    | inl absent ↦ rw (absent, drop_instance) refl
    | inr (store, found) ↦
        rw (found, drop_instance)
          (store_of-set_ne t u (JsMap.delete JsString-discrete id store) m ne)
  ]

  pub value_at-drop_self :
      (t : T) (id : JsString) (m : JsMap T (JsMap JsString V))
      → AllMaps m
      → value_at t id (drop_instance dec_t t id m) ≡ none
  unfolding value_at
  value_at-drop_self t id m v =
      ap (JsMap.get JsString-discrete id) (store_of-drop_self t id m)
      ∙ get-delete_self JsString-discrete id (store_of dec_t t m) (v t)

  pub value_at-drop_other :
      (t u : T) (id j : JsString) (m : JsMap T (JsMap JsString V))
      → IsOther t id u j
      → value_at u j (drop_instance dec_t t id m) ≡ value_at u j m
  unfolding value_at
  value_at-drop_other t u id j m other = elim (dec_t t u) [
    | no ne ↦ ap (JsMap.get JsString-discrete j) (store_of-drop_ne t u id m ne)
    | yes same ↦
        subst (λ x. value_at x j (drop_instance dec_t t id m) ≡ value_at x j m) same
          (ap (JsMap.get JsString-discrete j) (store_of-drop_self t id m)
            ∙ get-delete_ne JsString-discrete id j (store_of dec_t t m)
                (λ e. not_other e same other))
  ]
    where
      not_other : id ≡ j → t ≡ u → IsOther t id u j → ⊥
      not_other e same (inl ne) = ne same
      not_other e same (inr ne) = ne e

  pub AllMaps-write :
      (t : T) (id : JsString) (v : V) (m : JsMap T (JsMap JsString V))
      → AllMaps m
      → AllMaps (write t id v m)
  unfolding write
  AllMaps-write t id v m old u = elim (dec_t t u) [
    | no ne ↦
        rw (store_of-set_ne t u (JsMap.set JsString-discrete id v (store_of dec_t t m)) m ne)
          (old u)
    | yes same ↦
        subst (λ x. JsMap.IsMap JsString-discrete (store_of dec_t x (write t id v m))) same
          (rw (store_of-set_self t (JsMap.set JsString-discrete id v (store_of dec_t t m)) m)
            (set-IsMap JsString-discrete id v (store_of dec_t t m) (old t)))
  ]

  pub AllMaps-drop :
      (t : T) (id : JsString) (m : JsMap T (JsMap JsString V))
      → AllMaps m
      → AllMaps (drop_instance dec_t t id m)
  AllMaps-drop t id m old u = elim (dec_t t u) [
    | no ne ↦ rw (store_of-drop_ne t u id m ne) (old u)
    | yes same ↦
        subst (λ x. JsMap.IsMap JsString-discrete (store_of dec_t x (drop_instance dec_t t id m)))
          same
          (rw (store_of-drop_self t id m)
            (delete-IsMap JsString-discrete id (store_of dec_t t m) (old t)))
  ]
