-- ===== src/Base/JsMap/Laws.antt =====
-- Laws of `Map`: what a read finds after a write, the number of entries, and the order.
use Prim.Native.Nat.{◌+◌, ◌≤◌}
use mathlib.Core.Path.{◌≡◌, refl, sym, subst, ◌∙◌}
use mathlib.Core.Logic.{◌≢◌, ◌⊎◌, inl, inr}
use mathlib.Core.Option.{none, some}
use mathlib.Core.List.{[], ◌∷◌, ◌++◌}
use native.Mathlib.Omega.{arith}
use ddd_kit_ts.Base.JsMap.{JsMap, size, values, get, set, delete, IsMap}

module _ {ℓ} {K V : Type ℓ} (dec : Discrete K) where
  pub get-set_self : (k : K) (v : V) (m : JsMap K V) → get dec k (set dec k v m) ≡ some v
  get-set_self k v [] = ground arith
  get-set_self k v (e ∷ m) = ground (arith, get-set_self k v m)

  pub get-set_ne :
      (k j : K) (v : V) (m : JsMap K V) → k ≢ j → get dec j (set dec k v m) ≡ get dec j m
  get-set_ne k j v [] h = ground arith
  get-set_ne k j v (e ∷ m) h = ground (arith, get-set_ne k j v m h)

  pub get-delete_ne : (k j : K) (m : JsMap K V) → k ≢ j → get dec j (delete dec k m) ≡ get dec j m
  get-delete_ne k j [] h = refl
  get-delete_ne k j (e ∷ m) h = ground (arith, get-delete_ne k j m h)

  pub get-delete_self : (k : K) (m : JsMap K V) → IsMap dec m → get dec k (delete dec k m) ≡ none
  get-delete_self k [] h = refl
  get-delete_self k (e ∷ m) h = ground (arith, get-delete_self k m h.1)

  pub set-IsMap : (k : K) (v : V) (m : JsMap K V) → IsMap dec m → IsMap dec (set dec k v m)
  set-IsMap k v [] h = (refl, tt)
  set-IsMap k v (e ∷ m) h = ground (arith, set-IsMap k v m h.1, get-set_ne k e.0 v m)

  pub delete-IsMap : (k : K) (m : JsMap K V) → IsMap dec m → IsMap dec (delete dec k m)
  delete-IsMap k [] h = tt
  delete-IsMap k (e ∷ m) h = ground (arith, delete-IsMap k m h.1, get-delete_ne k e.0 m)

  pub size-set_new :
      (k : K) (v : V) (m : JsMap K V) → get dec k m ≡ none → size (set dec k v m) ≡ size m + 1
  size-set_new k v [] h = omega arith
  size-set_new k v (e ∷ m) h = ground (arith, size-set_new k v m)

  pub size-set_old :
      (k : K) (v w : V) (m : JsMap K V) → get dec k m ≡ some w → size (set dec k v m) ≡ size m
  size-set_old k v w [] h = ground arith
  size-set_old k v w (e ∷ m) h = ground (arith, size-set_old k v w m)

  pub size-delete :
      (k : K) (w : V) (m : JsMap K V) → get dec k m ≡ some w → size (delete dec k m) + 1 ≡ size m
  size-delete k w [] h = ground arith
  size-delete k w (e ∷ m) h = ground (arith, size-delete k w m)

  pub delete_absent : (k : K) (m : JsMap K V) → get dec k m ≡ none → delete dec k m ≡ m
  delete_absent k [] h = refl
  delete_absent k (e ∷ m) h = ground (arith, delete_absent k m)

  pub size-delete-le : (k : K) (m : JsMap K V) → size (delete dec k m) ≤ size m
  size-delete-le k [] = omega arith
  size-delete-le k (e ∷ m) = ground (arith, size-delete-le k m)

  -- A new key goes to the end.
  pub set_absent :
      (k : K) (v : V) (m : JsMap K V) → get dec k m ≡ none → set dec k v m ≡ m ++ (k, v) ∷ []
  set_absent k v [] h = refl
  set_absent k v (e ∷ m) h = ground (arith, set_absent k v m)

  -- A value found after a write is the one written or was there before.
  pub get-set_cases :
      (k j : K) (v w : V) (m : JsMap K V)
      → get dec j (set dec k v m) ≡ some w
      → ((k ≡ j) × (v ≡ w)) ⊎ ((k ≢ j) × (get dec j m ≡ some w))
  get-set_cases k j v w m h = elim (dec k j) [
    | no ne ↦ inr (ne, sym (get-set_ne k j v m ne) ∙ h)
    | yes e ↦
        let h' : get dec k (set dec k v m) ≡ some w =
          subst (λ i. get dec i (set dec k v m) ≡ some w) (sym e) h in
        let q : some v ≡ some w = sym (get-set_self k v m) ∙ h' in inl (e, ground arith)
  ]

  -- A value found after a delete was there before, at another key.
  pub get-delete_cases :
      (k j : K) (w : V) (m : JsMap K V)
      → IsMap dec m
      → get dec j (delete dec k m) ≡ some w
      → (k ≢ j) × (get dec j m ≡ some w)
  get-delete_cases k j w m v h = elim (dec k j) [
    | no ne ↦ (ne, sym (get-delete_ne k j m ne) ∙ h)
    | yes e ↦
        let gone : get dec j (delete dec k m) ≡ none =
          subst (λ i. get dec i (delete dec k m) ≡ none) e (get-delete_self k m v) in
        absurd (cc)
  ]

  pub size-set-le : (k : K) (v : V) (m : JsMap K V) → size (set dec k v m) ≤ size m + 1
  size-set-le k v [] = omega arith
  size-set-le k v (e ∷ m) = ground (arith, size-set-le k v m)

  -- So the value of a new key is the last one.
  pub values-set_absent :
      (k : K) (v : V) (m : JsMap K V)
      → get dec k m ≡ none
      → values (set dec k v m) ≡ values m ++ v ∷ []
  values-set_absent k v [] h = refl
  values-set_absent k v (e ∷ m) h = ground (arith, values-set_absent k v m)
