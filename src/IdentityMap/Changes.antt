-- ===== src/IdentityMap/Changes.antt =====
-- Which instances have recorded events since they were registered.
use mathlib.Core.Path.{subst}
use mathlib.Core.List.{Memᴰ}
use mathlib.Core.List.Memᴰ
use ddd_kit_ts.Base.{
  ℕ, ◌<◌, ◌≡◌, ◌≢◌, inl, inr, refl, sym, ap, ◌∙◌, true, Option, none, some, List, [], ◌∷◌, arith,
  All, ltb, ok, ok-throws, get_or, Option-cases, Bool-cases,
}
use ddd_kit_ts.Base.JsMap
use ddd_kit_ts.Base.JsMap.{JsMap}
use ddd_kit_ts.Base.JsMap.Laws.{get-set_self, get-set_ne}
use ddd_kit_ts.Base.JsString.{JsString, JsString-discrete}
use ddd_kit_ts.IdentityMap.{
  IdentityMap, store_of, register, put, set, delete, grown, grown_all,
  instances_with_new_pending_events,
}
use ddd_kit_ts.IdentityMap.Calls.{Call, set_call, delete_call, instance_at, set-cases, run, run_all}
use ddd_kit_ts.IdentityMap.Final.{run_all-Kept, set_ok-Kept}
use ddd_kit_ts.IdentityMap.Lookup.{value_at}

module _ {T I : Type 0} (dec_t : Discrete T) (dec_i : Discrete I) where
  grown-tail :
      (pending : I → Option ℕ) (registered : JsMap I ℕ) (x y : I) (xs : List I)
      → Memᴰ x (grown dec_t dec_i pending registered xs)
      → Memᴰ x (grown dec_t dec_i pending registered (y ∷ xs))
  unfolding grown
  grown-tail pending registered x y xs h = elim (Option-cases (pending y)) [
    | inl nothing ↦ rw (nothing, grown) h
    | inr (n, carries) ↦ elim (Bool-cases (ltb (get_or (JsMap.get dec_i y registered) 0) n)) [
      | inl more ↦ rw (carries, more, grown) (Memᴰ.tail h)
      | inr same ↦ rw (carries, same, grown) h
    ]
  ]

  grown-head :
      (pending : I → Option ℕ) (registered : JsMap I ℕ) (x : I) (xs : List I) (n : ℕ)
      → pending x ≡ some n
      → get_or (JsMap.get dec_i x registered) 0 < n
      → Memᴰ x (grown dec_t dec_i pending registered (x ∷ xs))
  unfolding grown
  grown-head pending registered x xs n carries lt =
      let more : ltb (get_or (JsMap.get dec_i x registered) 0) n ≡ true = ground (arith, lt) in
      rw (carries, more, grown) (Memᴰ.head refl)

  grown-complete :
      (pending : I → Option ℕ) (registered : JsMap I ℕ) (x : I) (n : ℕ) (xs : List I)
      → Memᴰ x xs
      → pending x ≡ some n
      → get_or (JsMap.get dec_i x registered) 0 < n
      → Memᴰ x (grown dec_t dec_i pending registered xs)
  grown-complete pending registered x n [] m p lt = absurd (Memᴰ.not-nil m)
  grown-complete pending registered x n (y ∷ xs) m p lt = elim (Memᴰ.cases_cons m) [
    | inl e ↦
        subst (λ z. Memᴰ x (grown dec_t dec_i pending registered (z ∷ xs))) e
          (grown-head pending registered x xs n p lt)
    | inr rest ↦
        grown-tail pending registered x y xs (grown-complete pending registered x n xs rest p lt)
  ]

  values-complete :
      {K V : Type 0} (dec : Discrete K) (k : K) (v : V) (m : JsMap K V)
      → JsMap.get dec k m ≡ some v
      → Memᴰ v (JsMap.values m)
  values-complete dec k v [] h = absurd (cc)
  values-complete dec k v (e ∷ m) h = elim (dec e.0 k) [
    | yes here ↦ let it : some e.1 ≡ some v = ground (arith, here, h) in Memᴰ.head (cc (it))
    | no ne ↦
        let rest : JsMap.get dec k m ≡ some v = ground (arith, ne, h) in
        Memᴰ.tail (values-complete dec k v m rest)
  ]

  grown_all-complete :
      (pending : I → Option ℕ) (registered : JsMap I ℕ) (x : I) (n : ℕ)
      (stores : List (JsMap JsString I)) (store : JsMap JsString I)
      → Memᴰ store stores
      → Memᴰ x (JsMap.values store)
      → pending x ≡ some n
      → get_or (JsMap.get dec_i x registered) 0 < n
      → Memᴰ x (grown_all dec_t dec_i pending registered stores)
  unfolding grown_all
  grown_all-complete pending registered x n [] store m h p lt = absurd (Memᴰ.not-nil m)
  grown_all-complete pending registered x n (s ∷ stores) store m h p lt = elim (Memᴰ.cases_cons m) [
    | inl e ↦ Memᴰ.append_left (grown_all dec_t dec_i pending registered stores) (
        grown-complete pending registered x n (JsMap.values s)
          (subst (λ z. Memᴰ x (JsMap.values z)) e h) p lt)
    | inr rest ↦
        Memᴰ.append_right (grown dec_t dec_i pending registered (JsMap.values s))
          (grown_all-complete pending registered x n stores store rest h p lt)
  ]

  -- A count, once captured, is never replaced.
  register_keeps :
      (pending : I → Option ℕ) (x y : I) (n : ℕ) (m : JsMap I ℕ)
      → JsMap.get dec_i x m ≡ some n
      → JsMap.get dec_i x (register dec_t dec_i pending y m) ≡ some n
  unfolding register
  register_keeps pending x y n m h = elim (Option-cases (JsMap.get dec_i y m)) [
    | inr (k, there) ↦ ground (arith, there, h)
    | inl absent ↦ elim (Option-cases (pending y)) [
      | inl nothing ↦ ground (arith, absent, nothing, h)
      | inr (k, carries) ↦
          let ne : y ≢ x = λ e. absurd (ground (arith, absent, h, e)) in
          ground (arith, absent, carries, h, get-set_ne dec_i y x k m ne)
    ]
  ]

  register_new :
      (pending : I → Option ℕ) (x : I) (n : ℕ) (m : JsMap I ℕ)
      → JsMap.get dec_i x m ≡ none
      → pending x ≡ some n
      → JsMap.get dec_i x (register dec_t dec_i pending x m) ≡ some n
  unfolding register
  register_new pending x n m absent carries =
      ground (arith, absent, carries, get-set_self dec_i x n m)

  run_registered :
      (m : IdentityMap T I) (x : I) (n : ℕ) (c : Call T I)
      → JsMap.get dec_i x m.pending_at_registration ≡ some n
      → JsMap.get dec_i x (run dec_t dec_i m c).pending_at_registration ≡ some n
  unfolding run put delete
  run_registered m x n (set_call pending u j y) h = elim (set-cases dec_t dec_i pending m u j y) [
    | inl (e, refused) ↦ ap (λ r. JsMap.get dec_i x r.1.pending_at_registration) refused ∙ h
    | inr (written, alive, there) ↦
        ap (λ r. JsMap.get dec_i x r.1.pending_at_registration) written
        ∙ register_keeps pending x y n m.pending_at_registration h
  ]
  run_registered m x n (delete_call u j) h = h

  run_all_registered :
      (m : IdentityMap T I) (x : I) (n : ℕ) (cs : List (Call T I))
      → JsMap.get dec_i x m.pending_at_registration ≡ some n
      → JsMap.get dec_i x (run_all dec_t dec_i m cs).pending_at_registration ≡ some n
  unfolding run_all
  run_all_registered m x n [] h = h
  run_all_registered m x n (c ∷ cs) h =
      run_all_registered (run dec_t dec_i m c) x n cs (run_registered m x n c h)

  -- An instance that the map holds and that carries more events than its count is reported.
  held_reported :
      (pending : I → Option ℕ) (m : IdentityMap T I) (t : T) (id : JsString) (x : I) (n k : ℕ)
      → instance_at dec_t dec_i t id m ≡ some x
      → JsMap.get dec_i x m.pending_at_registration ≡ some n
      → pending x ≡ some k
      → n < k
      → Memᴰ x (instances_with_new_pending_events dec_t dec_i pending m)
  unfolding instances_with_new_pending_events value_at store_of
  held_reported pending m t id x n k held count carries lt =
      elim (Option-cases (JsMap.get dec_t t m.stores)) [
        | inl absent ↦ absurd (ground (arith, absent, held))
        | inr (store, there) ↦
            let inside : JsMap.get JsString-discrete id store ≡ some x =
              ap (λ o. JsMap.get JsString-discrete id (get_or o [])) (sym there) ∙ held in
            let below : get_or (JsMap.get dec_i x m.pending_at_registration) 0 < k = rw count lt in
            grown_all-complete pending m.pending_at_registration x k (JsMap.values m.stores) store
              (values-complete dec_t t store m.stores there)
              (values-complete JsString-discrete id x store inside) carries below
      ]

  -- An instance that has recorded events since its first registration is reported, whatever has
  -- been registered and deleted in the meantime, as long as it has not been deleted itself.
  pub new_events_are_reported :
      (pending later : I → Option ℕ) (m m' : IdentityMap T I) (t : T) (id : JsString) (x : I)
      (n k : ℕ) (cs : List (Call T I))
      → JsMap.get dec_i x m.pending_at_registration ≡ none
      → pending x ≡ some n
      → set dec_t dec_i pending m t id x ≡ (ok tt, m')
      → All (λ c. c ≢ delete_call t id) cs
      → later x ≡ some k
      → n < k
      → Memᴰ x (instances_with_new_pending_events dec_t dec_i later (run_all dec_t dec_i m' cs))
  unfolding put
  new_events_are_reported pending later m m' t id x n k cs fresh carried h others carries lt =
      let (held, alive) =
        run_all-Kept dec_t dec_i m' t id x cs others
          (set_ok-Kept dec_t dec_i pending m m' t id x h) in
      let count : JsMap.get dec_i x m'.pending_at_registration ≡ some n =
        elim (set-cases dec_t dec_i pending m t id x) [
          | inl (e, refused) ↦ absurd (ok-throws e (ap (λ r. r.0) (sym h ∙ refused)))
          | inr (written, free, there) ↦
              ap (λ r. JsMap.get dec_i x r.1.pending_at_registration) (sym h ∙ written)
              ∙ register_new pending x n m.pending_at_registration fresh carried
        ] in
      held_reported later (run_all dec_t dec_i m' cs) t id x n k held
        (run_all_registered m' x n cs count) carries lt
