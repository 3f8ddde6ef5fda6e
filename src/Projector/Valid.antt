-- ===== src/Projector/Valid.antt =====
-- Valid positions, and that an unbroken chain of them increases.
use mathlib.Core.Path.{subst}
use ddd_kit_ts.Base.{
  ℕ, suc, ◌<◌, ◌≡◌, inl, inr, refl, sym, true, Option, none, some, List, [], ◌∷◌, length, arith, ok,
  ok-inj, Bool-cases, Option-cases, Outcome-cases,
}
use ddd_kit_ts.AggregateAddress.{AddressKey, AddressKey-discrete}
use ddd_kit_ts.Checkpoints.{CommitPosition, is_position_after}
use ddd_kit_ts.Projector.{
  CommittedDomainEvent, Cursored, key_of, is_valid_position, cursor_of, cursor_all,
}
use ddd_kit_ts.Projector.Chain.{
  Follows, same_commit, next_commit, Chain, stay, step, Picked, none_left, pick, leave,
  positions_at, positions_at_yes, positions_at_no,
}

-- The position comes after the watermark, if there is one.
abbrev pub After : Option CommitPosition → CommitPosition → Type 0
After none p = Unit
After (some w) p = is_position_after p w ≡ true

-- Each position comes after the one before it.
abbrev pub IsIncreasing : Option CommitPosition → List CommitPosition → Type 0
IsIncreasing w [] = Unit
IsIncreasing w (p ∷ ps) = After w p × IsIncreasing (some p) ps

abbrev pub AllValid : List CommitPosition → Type 0
AllValid [] = Unit
AllValid (p ∷ ps) = (is_valid_position p ≡ true) × AllValid ps

valid_previous :
    (p : CommitPosition) (n : ℕ)
    → is_valid_position p ≡ true
    → p.previous_eventful_aggregate_version ≡ some n
    → n < p.aggregate_version
unfolding is_valid_position
valid_previous p n v h = ground (arith, v, h)

Follows-After :
    (w : Option CommitPosition) (p : CommitPosition)
    → is_valid_position p ≡ true
    → Follows w p
    → After w p
unfolding is_position_after
Follows-After none p v f = tt
Follows-After (some w) p v (same_commit version sequence size previous) =
    ground (arith, version, sequence)
Follows-After (some w) p v (next_commit complete sequence previous) =
    let lt = valid_previous p w.aggregate_version v previous in ground (arith, lt)

-- In an unbroken chain of valid positions each comes after the one before it, so no position, and
-- none up to the watermark, comes twice.
pub Chain-IsIncreasing :
    (w w' : Option CommitPosition) (ps : List CommitPosition)
    → AllValid ps
    → Chain w ps w'
    → IsIncreasing w ps
Chain-IsIncreasing w w' ps v (stay) = tt
Chain-IsIncreasing w w' (p ∷ ps) v (step next rest) =
    (Follows-After w p v.0 next, Chain-IsIncreasing (some p) w' ps v.1 rest)

module _ {P : Type 0} where
  -- An envelope that passes the guards has a valid position.
  pub cursor_of-valid :
      (c : CommittedDomainEvent P) (x : Cursored P)
      → cursor_of c ≡ ok x
      → is_valid_position x.position ≡ true
  unfolding cursor_of
  cursor_of-valid c x h = elim (Option-cases c.event.event_id) [
    | inl missing ↦ absurd (ground arith)
    | inr (id, there) ↦ elim (Option-cases c.position) [
      | inl nowhere ↦ absurd (ground arith)
      | inr (p, at) ↦ elim (Bool-cases (is_valid_position p)) [
        | inr invalid ↦ absurd (ground arith)
        | inl valid ↦ elim (Option-cases c.source) [
          | inl sourceless ↦ absurd (ground arith)
          | inr (a, from) ↦ ground arith
        ]
      ]
    ]
  ]

  abbrev pub AllCursored : List (Cursored P) → Type 0
  AllCursored [] = Unit
  AllCursored (x ∷ xs) = (is_valid_position x.position ≡ true) × AllCursored xs

  pub cursor_all-cons :
      (c : CommittedDomainEvent P) (cs : List (CommittedDomainEvent P)) (xs : List (Cursored P))
      → cursor_all (c ∷ cs) ≡ ok xs
      → (x : Cursored P) × (ys : List (Cursored P)) × (cursor_of c ≡ ok x)
        × (cursor_all cs ≡ ok ys)
        × (x ∷ ys ≡ xs)
  unfolding cursor_all
  cursor_all-cons c cs xs h = elim (Outcome-cases (cursor_of c)) [
    | inr (e, refused) ↦ absurd (ground arith)
    | inl (x, passed) ↦ elim (Outcome-cases (cursor_all cs)) [
      | inr (e, refused) ↦ absurd (ground arith)
      | inl (ys, rest) ↦ (x, ys, passed, rest, ground arith)
    ]
  ]

  pub cursor_all-valid :
      (cs : List (CommittedDomainEvent P)) (xs : List (Cursored P))
      → cursor_all cs ≡ ok xs
      → AllCursored xs × (length xs ≡ length cs)
  unfolding cursor_all
  cursor_all-valid [] xs h = subst (λ z. AllCursored z × (length z ≡ 0)) (ok-inj [] xs h) (tt, refl)
  cursor_all-valid (c ∷ cs) xs h =
      let (x, ys, passed, rest, e) = cursor_all-cons c cs xs h in
      let (v, n) = cursor_all-valid cs ys rest in
      subst (λ z. AllCursored z × (length z ≡ suc (length cs))) e
        ((cursor_of-valid c x passed, v), omega (arith, n))

  pub Picked-valid : (ys xs : List (Cursored P)) → Picked ys xs → AllCursored xs → AllCursored ys
  Picked-valid ys xs none_left v = tt
  Picked-valid ys (x ∷ xs) (pick p) v = (v.0, Picked-valid _ xs p v.1)
  Picked-valid ys (x ∷ xs) (leave p) v = Picked-valid ys xs p v.1

  pub positions_at-valid :
      (k : AddressKey) (xs : List (Cursored P)) → AllCursored xs → AllValid (positions_at k xs)
  positions_at-valid k [] v = tt
  positions_at-valid k (x ∷ xs) v = elim (AddressKey-discrete (key_of x) k) [
    | yes here ↦
        subst AllValid (sym (positions_at_yes k x xs here)) (v.0, positions_at-valid k xs v.1)
    | no ne ↦ subst AllValid (sym (positions_at_no k x xs ne)) (positions_at-valid k xs v.1)
  ]
