-- ===== src/Idempotency/Fencing.antt =====
-- Calls of a holder whose claim has been superseded.
use ddd_kit_ts.Base.{
  ℕ, ◌+◌, ◌≡◌, ◌≢◌, inl, inr, refl, sym, ◌∙◌, Option, none, some, Bool, List, ap, Option-cases,
  false, [], ◌∷◌, ◌++◌, arith, ok, throws, All,
}
use ddd_kit_ts.Base.Decimal.{decimal, decimal-inj, IsDigit, All-decimal}
use ddd_kit_ts.Base.JsMap
use ddd_kit_ts.Base.JsMap.Laws.{get-set_self, get-set_cases, get-delete_cases}
use ddd_kit_ts.Base.JsString.{JsString, JsString-discrete, str_eq, str_eq_iff}
use ddd_kit_ts.Idempotency.{
  InMemoryIdempotencyStore, Entry, pending, staged, confirmed, token_of, mint, entry_at,
  IdempotencyClaimHandle, claimed, claim_lost, claim, complete, complete_at, renew, renew_at,
  confirm, confirm_at, abandon, abandon_at, Error, completion_without_claim, clear,
}
use ddd_kit_ts.Idempotency.Steps.{Step, kept, updated, added, reclaimed, removed}
use ddd_kit_ts.Idempotency.Calls.{Call, claim_call, run, run_all, run-cases}
use ddd_kit_ts.Idempotency.Invariant.{IsValid, MintedBy, MintedBy-weaken, run-IsValid}
use ddd_kit_ts.Idempotency.Protocol.{Granted, claim-Granted}

-- The digits end at the colon, so two equal tokens have equal digits.
digits_end :
    (xs ys p q : JsString)
    → All IsDigit xs
    → All IsDigit ys
    → xs ++ (b':' ∷ p) ≡ ys ++ (b':' ∷ q)
    → xs ≡ ys
digits_end [] [] p q h k e = refl
digits_end [] (y ∷ ys) p q h k e = absurd (ground arith)
digits_end (x ∷ xs) [] p q h k e = absurd (ground arith)
digits_end (x ∷ xs) (y ∷ ys) p q h k e = ground (arith, digits_end xs ys p q h.1 k.1)

-- A token names the generation that minted it.
pub mint-generation : (g h : ℕ) (p q : JsString) → mint g p ≡ mint h q → g ≡ h
unfolding mint
mint-generation g h p q e =
    decimal-inj g h (digits_end (decimal g) (decimal h) p q (All-decimal g) (All-decimal h) e)

module _ {O : Type 0} (cloneable : O → Bool) (s : InMemoryIdempotencyStore O) where
  complete_at_foreign :
      (now : ℕ) (c : IdempotencyClaimHandle) (o : O) (old : Entry O)
      → str_eq (token_of old) c.token ≡ false
      → complete_at cloneable s now c o old ≡ (throws (claim_lost c.key c.token), s)
  unfolding complete_at
  complete_at_foreign now c o (pending f t e) h = ground arith
  complete_at_foreign now c o (staged f t e x) h = ground arith
  complete_at_foreign now c o (confirmed f t x) h = ground arith

  fenced_at :
      (now : ℕ) (c : IdempotencyClaimHandle) (old : Entry O)
      → str_eq (token_of old) c.token ≡ false
      → (renew_at s now c old ≡ (throws (claim_lost c.key c.token), s))
        × (confirm_at s c old ≡ (ok tt, s))
        × (abandon_at s c old ≡ (ok tt, s))
  unfolding renew_at confirm_at abandon_at
  fenced_at now c (pending f t e) h = ground arith
  fenced_at now c (staged f t e x) h = ground arith
  fenced_at now c (confirmed f t x) h = ground arith

  foreign_token :
      (c : IdempotencyClaimHandle) (old : Entry O)
      → token_of old ≢ c.token
      → str_eq (token_of old) c.token ≡ false
  foreign_token c old ne = ground (arith, str_eq_iff (token_of old) c.token)

  -- A handle whose token is not that of the record can do nothing: completing and renewing throw
  -- that the claim is lost, confirming and abandoning pass, and none changes the store.
  pub foreign_completion_is_fenced :
      (now : ℕ) (c : IdempotencyClaimHandle) (o : O) (old : Entry O)
      → entry_at c.key s ≡ some old
      → token_of old ≢ c.token
      → complete cloneable s (some now) c o ≡ (throws (claim_lost c.key c.token), s)
  unfolding complete
  foreign_completion_is_fenced now c o old found ne =
      rw (found, complete) (complete_at_foreign now c o old (foreign_token c old ne))

  pub foreign_token_is_fenced :
      (now : ℕ) (c : IdempotencyClaimHandle) (old : Entry O)
      → entry_at c.key s ≡ some old
      → token_of old ≢ c.token
      → (renew s (some now) c ≡ (throws (claim_lost c.key c.token), s))
        × (confirm s c ≡ (ok tt, s))
        × (abandon s c ≡ (ok tt, s))
  unfolding renew confirm abandon
  foreign_token_is_fenced now c old found ne =
      let (a, b, d) = fenced_at now c old (foreign_token c old ne) in
      (rw (found, renew) a, rw (found, confirm) b, rw (found, abandon) d)

-- The token was minted by the store and is not that of the key's record, if there is one.
record Superseded {O : Type 0} (key token : JsString) (s : InMemoryIdempotencyStore O)
    : Type 0 where
  past : MintedBy s.token_generation token
  foreign : (e : Entry O) → entry_at key s ≡ some e → token_of e ≢ token

-- The next token is none that was minted before.
fresh_token :
    (generation : ℕ) (part token fresh : JsString)
    → MintedBy generation token
    → fresh ≡ mint (generation + 1) part
    → fresh ≢ token
fresh_token generation part token fresh (n, p, below, minted) e same =
    absurd (omega (arith, mint-generation (generation + 1) n part p (sym e ∙ same ∙ minted)))

module _ {O : Type 0} {j key token : JsString} where
  -- A record with a token that is not the superseded one is written.
  foreign-set :
      (e : Entry O) (m : JsMap.JsMap JsString (Entry O))
      → (j ≡ key → token_of e ≢ token)
      → ((x : Entry O) → JsMap.get JsString-discrete key m ≡ some x → token_of x ≢ token)
      → (x : Entry O) → JsMap.get JsString-discrete key (JsMap.set JsString-discrete j e m) ≡ some x
      → token_of x ≢ token
  foreign-set e m new old x h = elim (get-set_cases JsString-discrete j key e x m h) [
    | inl (here, written) ↦ rw (← written) (new here)
    | inr (ne, before) ↦ old x before
  ]

module _ {O : Type 0} {j key token : JsString} {s s' : InMemoryIdempotencyStore O} where
  Step-Superseded : IsValid s → Superseded key token s → Step j s s' → Superseded key token s'
  Step-Superseded v d (kept g le eq) =
      rw eq (record {
        past = MintedBy-weaken s.token_generation g token le d.past;
        foreign = d.foreign;
      })
  Step-Superseded v d (updated old e found live tok eq) = rw eq (record {
    past = d.past;
    foreign =
        foreign-set e s.entries (λ here. rw tok (d.foreign old (rw (← here) found))) d.foreign;
  })
  Step-Superseded v d (added e part absent room tok eq) = rw eq (record {
    past = MintedBy-weaken s.token_generation (s.token_generation + 1) token (omega arith) d.past;
    foreign =
        foreign-set e s.entries
          (λ here. fresh_token s.token_generation part token (token_of e) d.past tok) d.foreign;
  })
  Step-Superseded v d (reclaimed old e part found live tok eq) = rw eq (record {
    past = MintedBy-weaken s.token_generation (s.token_generation + 1) token (omega arith) d.past;
    foreign =
        foreign-set e s.entries
          (λ here. fresh_token s.token_generation part token (token_of e) d.past tok) d.foreign;
  })
  Step-Superseded v d (removed old found live eq) = rw eq (record {
    past = d.past;
    foreign =
        λ x h. d.foreign x (get-delete_cases JsString-discrete j key x s.entries v.is_map h).1;
  })

module _ {O : Type 0} (cloneable : O → Bool) (key token : JsString) where
  run-Superseded :
      (call : Call O) (s : InMemoryIdempotencyStore O)
      → IsValid s
      → Superseded key token s
      → Superseded key token (run cloneable call s)
  unfolding clear
  run-Superseded call s v d = elim (run-cases cloneable call s) [
    | inl (j, about, step) ↦ Step-Superseded v d step
    | inr cleared ↦ rw cleared (record { past = d.past; foreign = λ e h. absurd (cc) })
  ]

  run_all-Superseded :
      (calls : List (Call O)) (s : InMemoryIdempotencyStore O)
      → IsValid s
      → Superseded key token s
      → Superseded key token (run_all cloneable calls s)
  run_all-Superseded [] s v d = d
  run_all-Superseded (call ∷ calls) s v d =
      run_all-Superseded calls (run cloneable call s) (run-IsValid cloneable call s v)
        (run-Superseded call s v d)

-- What a completion by a superseded holder throws.
abbrev pub lost_completion : {O : Type 0} → IdempotencyClaimHandle → Option (Entry O) → Error
lost_completion c none = completion_without_claim c.key
lost_completion c (some e) = claim_lost c.key c.token

Superseded-is_fenced :
    {O : Type 0} (cloneable : O → Bool) (s : InMemoryIdempotencyStore O)
    (c : IdempotencyClaimHandle) (now : ℕ) (o : O)
    → Superseded c.key c.token s
    → (complete cloneable s (some now) c o ≡ (throws (lost_completion c (entry_at c.key s)), s))
      × (renew s (some now) c ≡ (throws (claim_lost c.key c.token), s))
      × (confirm s c ≡ (ok tt, s))
      × (abandon s c ≡ (ok tt, s))
unfolding complete renew confirm abandon
Superseded-is_fenced cloneable s c now o d = elim (Option-cases (entry_at c.key s)) [
  | inl absent ↦ (
    rw (absent, complete) refl,
    rw (absent, renew) refl,
    rw (absent, confirm) refl,
    rw (absent, abandon) refl,
  )
  | inr (old, found) ↦
      let a = foreign_completion_is_fenced cloneable s now c o old found (d.foreign old found) in
      let (b, e, x) = foreign_token_is_fenced cloneable s now c old found (d.foreign old found) in
      (rw found a, b, e, x)
]

-- In a store that keeps its invariant, a holder whose key was claimed anew is fenced off for good:
-- after any calls of anyone, a completion by it throws that the claim is lost, or that there is no
-- claim if the key has no record any more, a renewal throws that the claim is lost, confirming and abandoning pass, and none
-- changes the store.
pub superseded_claim_is_fenced :
    {O : Type 0} (cloneable : O → Bool) (s s' : InMemoryIdempotencyStore O) (old : Entry O)
    (holder winner : IdempotencyClaimHandle) (f : JsString) (now later : ℕ) (part : Option JsString)
    (o : O) (calls : List (Call O))
    → IsValid s
    → entry_at holder.key s ≡ some old
    → token_of old ≡ holder.token
    → claim cloneable s (some now) part holder.key f ≡ (ok (claimed winner), s')
    → let last = run_all cloneable calls s' in
      (complete cloneable last (some later) holder o
        ≡ (throws (lost_completion holder (entry_at holder.key last)), last))
      × (renew last (some later) holder ≡ (throws (claim_lost holder.key holder.token), last))
      × (confirm last holder ≡ (ok tt, last))
      × (abandon last holder ≡ (ok tt, last))
superseded_claim_is_fenced {O} cloneable s s' old holder winner f now later part o calls v found
      mine h =
    let g : Granted s holder.key f now winner s' =
      claim-Granted cloneable s holder.key f now part winner s' h in
    let past : MintedBy s.token_generation holder.token =
      rw (← mine) (v.minted holder.key old found) in
    let v' : IsValid s' =
      rw (← ap (λ r. r.1) h)
        (run-IsValid cloneable (claim_call (some now) part holder.key f) s v) in
    let new : Entry O = pending f winner.token (now + s.lease_duration_ms) in
    let d : Superseded holder.key holder.token s' = rw g.written (record {
      past =
          MintedBy-weaken s.token_generation (s.token_generation + 1) holder.token (omega arith)
            past;
      foreign = λ e there.
          let written = get-set_self JsString-discrete holder.key new s.entries in
          let same : new ≡ e = cc (written, there) in
          rw (← same)
            (fresh_token s.token_generation g.part holder.token winner.token past g.minted);
    }) in
    Superseded-is_fenced cloneable (run_all cloneable calls s') holder later o
      (run_all-Superseded cloneable holder.key holder.token calls s' v' d)
