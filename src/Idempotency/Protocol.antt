-- ===== src/Idempotency/Protocol.antt =====
-- The protocol of one command: claim, complete, confirm, and the replay of the outcome.
use mathlib.Core.Path.{subst}
use ddd_kit_ts.Base.{
  ℕ, ◌+◌, ◌≡◌, ◌≢◌, inl, inr, refl, sym, ap, ◌∙◌, Option, none, some, Bool, true, List, arith, ok,
  length, ◌==◌, Bool-cases, Option-cases, All,
}
use ddd_kit_ts.Base.JsMap.Laws.{get-set_self}
use ddd_kit_ts.Base.JsString.{JsString, JsString-discrete, str_eq, str_eq_iff}
use ddd_kit_ts.Idempotency.{
  InMemoryIdempotencyStore, Entry, pending, staged, confirmed, mint, entry_at, put_entry,
  IdempotencyClaimHandle, claimed, completed, create_pending, create_pending_with, claim, claim_at,
  claim_existing, complete, complete_at, confirm, confirm_at,
}
use ddd_kit_ts.Idempotency.Calls.{Call, clear_call, run_all}
use ddd_kit_ts.Idempotency.Invariant.{run_all-confirmed}

-- What a granted claim has written.
pub record Granted {O : Type 0} (s : InMemoryIdempotencyStore O) (key fingerprint : JsString)
    (now : ℕ) (c : IdempotencyClaimHandle) (s' : InMemoryIdempotencyStore O) : Type 0 where
  pub part : JsString
  pub own_key : c.key ≡ key
  pub minted : c.token ≡ mint (s.token_generation + 1) part
  pub written :
      s'
      ≡ put_entry key
          (pending fingerprint c.token (now + s.lease_duration_ms))
          (record s { token_generation = s.token_generation + 1 })

module _ {O : Type 0} (s : InMemoryIdempotencyStore O) (key fingerprint : JsString) (now : ℕ) where
  create_pending_with-Granted :
      (p : JsString) (c : IdempotencyClaimHandle) (s' : InMemoryIdempotencyStore O)
      → create_pending_with s p key fingerprint now ≡ (ok (claimed c), s')
      → Granted s key fingerprint now c s'
  unfolding create_pending_with
  create_pending_with-Granted p c s' h = record {
    part = p;
    own_key = ground arith;
    minted = ground arith;
    written = ground arith;
  }

  create_pending-Granted :
      (part : Option JsString) (c : IdempotencyClaimHandle) (s' : InMemoryIdempotencyStore O)
      → create_pending s part key fingerprint now ≡ (ok (claimed c), s')
      → Granted s key fingerprint now c s'
  unfolding create_pending
  create_pending-Granted none c s' h = absurd (cc)
  create_pending-Granted (some p) c s' h = elim (Bool-cases (length p == 0)) [
    | inl empty ↦ absurd (ground arith)
    | inr text ↦ create_pending_with-Granted p c s' (ground arith)
  ]

module _ {O : Type 0} (cloneable : O → Bool) (s : InMemoryIdempotencyStore O) where
  claim_existing-Granted :
      (key fingerprint : JsString) (now : ℕ) (part : Option JsString) (old : Entry O)
      (c : IdempotencyClaimHandle) (s' : InMemoryIdempotencyStore O)
      → claim_existing cloneable s now part key fingerprint old ≡ (ok (claimed c), s')
      → create_pending s part key fingerprint now ≡ (ok (claimed c), s')
  unfolding claim_existing
  claim_existing-Granted key fingerprint now part (pending f t e) c s' h = ground arith
  claim_existing-Granted key fingerprint now part (staged f t e o) c s' h = ground arith
  claim_existing-Granted key fingerprint now part (confirmed f t o) c s' h = ground arith

  claim_at-Granted :
      (key fingerprint : JsString) (now : ℕ) (part : Option JsString) (c : IdempotencyClaimHandle)
      (s' : InMemoryIdempotencyStore O)
      → claim_at cloneable s now part key fingerprint ≡ (ok (claimed c), s')
      → create_pending s part key fingerprint now ≡ (ok (claimed c), s')
  unfolding claim_at
  claim_at-Granted key fingerprint now part c s' h = elim (Option-cases (entry_at key s)) [
    | inl absent ↦ ground arith
    | inr (old, found) ↦ ground (arith, claim_existing-Granted key fingerprint now part old c s')
  ]

  -- A claim that is granted has written a pending record with its newly minted token.
  pub claim-Granted :
      (key fingerprint : JsString) (now : ℕ) (part : Option JsString) (c : IdempotencyClaimHandle)
      (s' : InMemoryIdempotencyStore O)
      → claim cloneable s (some now) part key fingerprint ≡ (ok (claimed c), s')
      → Granted s key fingerprint now c s'
  unfolding claim
  claim-Granted key fingerprint now part c s' h =
      create_pending-Granted s key fingerprint now part c s'
        (claim_at-Granted key fingerprint now part c s' h)

  complete_at_ok :
      (now : ℕ) (c : IdempotencyClaimHandle) (o : O) (f t : JsString) (e : ℕ)
      → (complete_at cloneable s now c o (pending f t e)).0 ≡ ok tt
      → ((complete_at cloneable s now c o (pending f t e)).1
          ≡ put_entry c.key (staged f t (now + s.lease_duration_ms) o) s)
        × (cloneable o ≡ true)
        × (str_eq t c.token ≡ true)
  unfolding complete_at
  complete_at_ok now c o f t e h = ground arith

  -- A completion that succeeds stages a copy of the outcome under the claim's token.
  pub complete_staged :
      (now : ℕ) (c : IdempotencyClaimHandle) (o : O) (f t : JsString) (e : ℕ)
      → entry_at c.key s ≡ some (pending f t e)
      → (complete cloneable s (some now) c o).0 ≡ ok tt
      → (entry_at c.key (complete cloneable s (some now) c o).1
          ≡ some (staged f c.token (now + s.lease_duration_ms) o))
        × (cloneable o ≡ true)
  unfolding complete
  complete_staged now c o f t e found h =
      let e' : complete cloneable s (some now) c o
          ≡ complete_at cloneable s now c o (pending f t e) =
        rw (found, complete) in
      let (written, copies, mine) = complete_at_ok now c o f t e (ap (λ r. r.0) (sym e') ∙ h) in
      let same : t ≡ c.token = (str_eq_iff t c.token).0 mine in
      (rw (e', written, same) (get-set_self JsString-discrete c.key _ s.entries), copies)

  -- A staged record is confirmed by the holder of its token.
  pub confirm_confirmed :
      (c : IdempotencyClaimHandle) (f : JsString) (e : ℕ) (o : O)
      → entry_at c.key s ≡ some (staged f c.token e o)
      → entry_at c.key (confirm s c).1 ≡ some (confirmed f c.token o)
  unfolding confirm confirm_at
  confirm_confirmed c f e o found =
      rw (found, confirm, (str_eq_iff c.token c.token).1 refl)
        (get-set_self JsString-discrete c.key (confirmed f c.token o) s.entries)

  -- A claim of a confirmed key answers from the record and changes nothing.
  pub claim_confirmed :
      (now : ℕ) (part : Option JsString) (key f t : JsString) (o : O)
      → entry_at key s ≡ some (confirmed f t o)
      → cloneable o ≡ true
      → claim cloneable s (some now) part key f ≡ (ok (completed o), s)
  unfolding claim claim_at claim_existing
  claim_confirmed now part key f t o found copies =
      rw (found, claim, claim_at, (str_eq_iff f f).1 refl, copies)

-- At most once. Once the work of a claim has completed and been confirmed, with any calls in
-- between that leave its record as it was, such as calls on other keys and refused claims of its
-- own, and after any calls but `clear`, a claim of the key with the same fingerprint returns the
-- recorded outcome and changes nothing.
pub confirmed_replays :
    {O : Type 0} (cloneable : O → Bool) (s s1 : InMemoryIdempotencyStore O) (key f : JsString)
    (now later at : ℕ) (part part' : Option JsString) (c : IdempotencyClaimHandle) (o : O)
    (others others' calls : List (Call O))
    → claim cloneable s (some now) part key f ≡ (ok (claimed c), s1)
    → entry_at key (run_all cloneable others s1) ≡ entry_at key s1
    → (complete cloneable (run_all cloneable others s1) (some later) c o).0 ≡ ok tt
    → let s2 = (complete cloneable (run_all cloneable others s1) (some later) c o).1 in
      entry_at key (run_all cloneable others' s2) ≡ entry_at key s2
      → All (λ call. call ≢ clear_call) calls
      → let s3 = run_all cloneable calls (confirm (run_all cloneable others' s2) c).1 in
        claim cloneable s3 (some at) part' key f ≡ (ok (completed o), s3)
confirmed_replays {O} cloneable s s1 key f now later at part part' c o others others' calls h alone
      done alone' no_clear =
    let g : Granted s key f now c s1 = claim-Granted cloneable s key f now part c s1 h in
    let before : InMemoryIdempotencyStore O = run_all cloneable others s1 in
    let after : InMemoryIdempotencyStore O = (complete cloneable before (some later) c o).1 in
    let s' : InMemoryIdempotencyStore O = run_all cloneable others' after in
    let granted : entry_at key s1 ≡ some (pending f c.token (now + s.lease_duration_ms)) =
      rw g.written (get-set_self JsString-discrete key _ s.entries) in
    let found : entry_at c.key before ≡ some (pending f c.token (now + s.lease_duration_ms)) =
      rw g.own_key (alone ∙ granted) in
    let (staged_at, copies) =
      complete_staged cloneable before later c o f c.token (now + s.lease_duration_ms) found done in
    let waiting : entry_at c.key s' ≡ some (staged f c.token (later + before.lease_duration_ms) o) =
      subst (λ k. entry_at k s' ≡ entry_at k after) (sym g.own_key) alone' ∙ staged_at in
    let fixed : entry_at key (confirm s' c).1 ≡ some (confirmed f c.token o) =
      subst (λ k. entry_at k (confirm s' c).1 ≡ some (confirmed f c.token o)) g.own_key
        (confirm_confirmed cloneable s' c f _ o waiting) in
    claim_confirmed cloneable _ at part' key f c.token o
      (run_all-confirmed cloneable calls (confirm s' c).1 key f c.token o no_clear fixed) copies
