-- ===== src/Deadlines/Address.antt =====
-- The map key `${scope}\u0000${key}` of a deadline. `schedule` accepts any
-- string as a scope, also one that holds the separator.
use ddd_kit_ts.Base.{
  ℕ, ◌≡◌, ◌≢◌, ◌↔◌, refl, sym, ap, ◌∙◌, Bool, none, some, [], ◌∷◌, arith, All, ok,
}
use ddd_kit_ts.Base.JsMap
use ddd_kit_ts.Base.JsMap.Laws.{get-set_self, get-delete_self, get-delete_ne}
use ddd_kit_ts.Base.JsString.{JsString, JsString-discrete}
use ddd_kit_ts.Deadlines.{InMemoryDeadlineStore, address, schedule, cancel}
use ddd_kit_ts.Deadlines.Invariant.{IsValid}
use ddd_kit_ts.Deadlines.Preservation.{schedule-IsValid}
use ddd_kit_ts.Deadlines.Delivery.{incarnation, schedule_ok}
use mathlib.Core.List.{append_assoc}

-- The string has no NUL.
abbrev pub IsPlain : JsString → Type 0
IsPlain s = All (λ c. c ≢ 0) s

-- Addresses whose scopes have no NUL share a map key only if scope and key are the same.
pub address_injective :
    (scope scope' key key' : JsString)
    → IsPlain scope
    → IsPlain scope'
    → address scope key ≡ address scope' key'
    → (scope ≡ scope') × (key ≡ key')
address_injective [] [] key key' h h' e = (refl, ground arith)
address_injective [] (c ∷ cs) key key' h h' e = absurd (ground arith)
address_injective (c ∷ cs) [] key key' h h' e = absurd (ground arith)
address_injective (c ∷ cs) (d ∷ ds) key key' h h' e =
    let (a, b) = address_injective cs ds key key' h.1 h'.1 (ground arith) in (ground arith, b)

-- The same scope and key, or scopes of which one is the other with a NUL and a text after it, by
-- which the keys differ the other way round.
pub data Collides : (scope key scope' key' : JsString) → Type 0 where
  same : {scope key : JsString} → Collides scope key scope key
  longer :
      {scope key : JsString} (middle : JsString)
      → Collides scope (address middle key) (address scope middle) key
  shorter :
      {scope key : JsString} (middle : JsString)
      → Collides (address scope middle) key scope (address middle key)

Collides-cons :
    {scope key scope' key' : JsString} (c : ℕ)
    → Collides scope key scope' key'
    → Collides (c ∷ scope) key (c ∷ scope') key'
Collides-cons c same = same
Collides-cons c (longer middle) = longer middle
Collides-cons c (shorter middle) = shorter middle

address-Collides :
    (scope key scope' key' : JsString)
    → address scope key ≡ address scope' key'
    → Collides scope key scope' key'
address-Collides [] key [] key' e = let k : key ≡ key' = ground arith in rw k same
address-Collides [] key (c ∷ cs) key' e =
    let zero_first : c ≡ 0 = ground arith in
    let k : key ≡ address cs key' = ground arith in rw (zero_first, k) (longer cs)
address-Collides (c ∷ cs) key [] key' e =
    let zero_first : c ≡ 0 = ground arith in
    let k : address cs key ≡ key' = ground arith in rw (zero_first, ← k) (shorter cs)
address-Collides (c ∷ cs) key (d ∷ ds) key' e =
    let head : c ≡ d = ground arith in
    rw head (Collides-cons d (address-Collides cs key ds key' (ground arith)))

Collides-address :
    {scope key scope' key' : JsString}
    → Collides scope key scope' key'
    → address scope key ≡ address scope' key'
Collides-address same = refl
Collides-address {scope} (longer {key} middle) = sym (append_assoc scope (0 ∷ middle) (0 ∷ key))
Collides-address {scope' = scope} (shorter {key} middle) = append_assoc scope (0 ∷ middle) (0 ∷ key)

-- In a store that keeps its invariant, after a deadline has been scheduled it is pending under its
-- address, and cancelling any scope and key takes it out exactly if they are its own, or one scope is
-- the other with a NUL and a text after it and the keys differ by that text and a NUL the other way
-- round.
pub cancel_exact :
    {P : Type 0} (cloneable : P → Bool) (s s' : InMemoryDeadlineStore P)
    (scope key scope' key' : JsString) (due_at : ℕ) (payload : P)
    → IsValid s
    → schedule cloneable s scope key due_at payload ≡ (ok tt, s')
    → (JsMap.get JsString-discrete (address scope key) s'.pending
        ≡ some (incarnation s scope key due_at payload))
      × ((JsMap.get JsString-discrete (address scope key) (cancel s' scope' key').pending ≡ none)
          ↔ Collides scope key scope' key')
unfolding cancel
cancel_exact cloneable s s' scope key scope' key' due_at payload v h =
    let written = schedule_ok cloneable s s' scope key due_at payload h in
    let a = address scope key in
    let there : JsMap.get JsString-discrete a s'.pending
        ≡ some (incarnation s scope key due_at payload) =
      ap (λ x. JsMap.get JsString-discrete a x.pending) written
      ∙ get-set_self JsString-discrete a (incarnation s scope key due_at payload) s.pending in
    let v' : IsValid s' =
      rw (← ap (λ r. r.1) h) (schedule-IsValid cloneable s scope key due_at payload v) in
    (
      there,
      (
        (λ gone. elim (JsString-discrete (address scope' key') a) [
          | yes e ↦ address-Collides scope key scope' key' (sym e)
          | no ne ↦
              let kept = get-delete_ne JsString-discrete (address scope' key') a s'.pending ne in
              absurd (cc (gone, kept, there))
        ]),
        (λ c.
            rw (Collides-address c)
              (get-delete_self JsString-discrete (address scope' key') s'.pending v'.pending_map)),
      ),
    )
