-- ===== src/Base/JsMap.antt =====
-- A JavaScript `Map`: its entries in insertion order. A write to a key that is there keeps its
-- place; a new key goes to the end.
pub mod Laws
use Prim.Native.Nat.{ℕ, suc}
use mathlib.Core.Path.{◌≡◌}
use mathlib.Core.Bool.{Bool, true, false}
use mathlib.Core.Option.{Option, none, some}
use mathlib.Core.List.{List, [], ◌∷◌}
use mathlib.Core.Logic.{ite}

abbrev pub JsMap {ℓ} : Type ℓ → Type ℓ → Type ℓ
JsMap K V = List (K × V)

module _ {ℓ} {K V : Type ℓ} where
  abbrev pub size : JsMap K V → ℕ
  size [] = 0
  size (e ∷ m) = suc (size m)

  abbrev pub values : JsMap K V → List V
  values [] = []
  values (e ∷ m) = e.1 ∷ values m

module _ {ℓ} {K V : Type ℓ} (dec : Discrete K) where
  abbrev pub get : K → JsMap K V → Option V
  get k [] = none
  get k (e ∷ m) = ite (dec e.0 k) (some e.1) (get k m)

  abbrev pub has : K → JsMap K V → Bool
  has k m = elim (get k m) [ none ↦ false | some _ ↦ true ]

  abbrev pub set : K → V → JsMap K V → JsMap K V
  set k v [] = (k, v) ∷ []
  set k v (e ∷ m) = ite (dec e.0 k) ((k, v) ∷ m) (e ∷ set k v m)

  abbrev pub delete : K → JsMap K V → JsMap K V
  delete k [] = []
  delete k (e ∷ m) = ite (dec e.0 k) m (e ∷ delete k m)

  -- No key is listed twice: what `Map` guarantees of its entries.
  abbrev pub IsMap : JsMap K V → Type ℓ
  IsMap [] = Unit
  IsMap (e ∷ m) = (get e.0 m ≡ none) × IsMap m
