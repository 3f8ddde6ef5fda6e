-- ===== src/Idempotency/Tests.antt =====
-- Runs of the idempotency store, and each theorem at an input where its hypotheses hold.
use ddd_kit_ts.Base.{
  ℕ, ◌≡◌, refl, none, some, Bool, true, List, [], ◌∷◌, inr, arith, ok, throws, ℕ_discrete,
  if◌then◌else◌,
}
use ddd_kit_ts.Base.Decimal.{decimal}
use ddd_kit_ts.Base.JsNumber.{JsNumber, assert_positive_safe_integer}
use ddd_kit_ts.Base.JsString.{JsString, JsString-discrete, str_eq}
use ddd_kit_ts.Idempotency.{
  InMemoryIdempotencyStore, pending, IdempotencyClaimHandle, claimed, completed, in_flight,
  key_reuse, claim_lost, invalid_option, mint, to_iso_string, new, claim, complete, renew, confirm,
  abandon, entry_at,
}
use ddd_kit_ts.Idempotency.Fencing.{superseded_claim_is_fenced, lost_completion}
use ddd_kit_ts.Idempotency.Exclusion.{granted_lease_excludes}
use ddd_kit_ts.Idempotency.Invariant.{IsValid, run-IsValid}
use ddd_kit_ts.Idempotency.Protocol.{confirmed_replays}
use ddd_kit_ts.Idempotency.Calls.{Call, run, run_all, claim_call, abandon_call, complete_call}

program : Unit {0}
unfolding new claim complete renew confirm abandon mint to_iso_string decimal JsString-discrete
    ℕ_discrete str_eq assert_positive_safe_integer
program = tt

abbrev always : ℕ → Bool
always o = true

abbrev k : JsString
k = b'k' ∷ []

abbrev other_key : JsString
other_key = b'j' ∷ []

abbrev f : JsString
f = b'f' ∷ []

abbrev empty : InMemoryIdempotencyStore ℕ
empty = record {
  entries = [];
  lease_duration_ms = 100;
  renew_after_ms = 50;
  max_entries = some 2;
  token_generation = 0;
}

abbrev first : IdempotencyClaimHandle
first = record {
  key = k;
  token = b'1' ∷ b':' ∷ b'a' ∷ [];
  lease = some (record { expires_at = 110; renew_after_ms = 50 });
}

abbrev second : IdempotencyClaimHandle
second = record {
  key = k;
  token = b'2' ∷ b':' ∷ b'b' ∷ [];
  lease = some (record { expires_at = 310; renew_after_ms = 50 });
}

abbrev held : InMemoryIdempotencyStore ℕ
held = record empty { entries = (k, pending f first.token 110) ∷ []; token_generation = 1 }

new_runs : new (some (JsNumber.int 100)) none (some (JsNumber.int 2)) ≡ ok empty
unfolding program
new_runs = refl

-- The default heartbeat of a lease of one millisecond is refused.
new_too_short : new {O = ℕ} (some (JsNumber.int 1)) none none ≡ throws invalid_option
unfolding program
new_too_short = refl

claim_runs : claim always empty (some 10) (some (b'a' ∷ [])) k f ≡ (ok (claimed first), held)
unfolding program
claim_runs = refl

empty-IsValid : IsValid empty
empty-IsValid = record { is_map = tt; bounded = omega arith; minted = λ j e h. absurd (cc) }

run-IsValid_example : IsValid (run always (claim_call (some 10) (some (b'a' ∷ [])) k f) empty)
run-IsValid_example =
    run-IsValid always (claim_call (some 10) (some (b'a' ∷ [])) k f) empty empty-IsValid

held-IsValid : IsValid held
unfolding program
held-IsValid = run-IsValid always (claim_call (some 10) (some (b'a' ∷ [])) k f) empty empty-IsValid

-- After refused claims of others and the calls of a stranger with another token.
granted_lease_excludes_example :
    let calls : List (Call ℕ) =
      claim_call (some 60) (some (b'b' ∷ [])) k f
      ∷ abandon_call second
      ∷ complete_call (some 65) second 9
      ∷ [] in
    claim always (run_all always calls held) (some 70) (some (b'c' ∷ [])) k other_key ≡ (
      throws (if str_eq f other_key then in_flight k else key_reuse k f other_key),
      run_all always calls held,
    )
granted_lease_excludes_example =
    granted_lease_excludes always empty held k f other_key 10 70 (some (b'a' ∷ []))
      (some (b'c' ∷ [])) first
      (claim_call (some 60) (some (b'b' ∷ [])) k f
        ∷ abandon_call second
        ∷ complete_call (some 65) second 9
        ∷ [])
      (unfold program in refl) (inr (omega arith), (inr (ground arith), (inr (ground arith), tt)))
      (omega arith)

-- The winner has given up before the old holder completes.
superseded_claim_is_fenced_example :
    let last =
      run_all always
        (abandon_call second ∷ [])
        (claim always held (some 210) (some (b'b' ∷ [])) k f).1 in
    (complete always last (some 220) first 7
      ≡ (throws (lost_completion first (entry_at k last)), last))
    × (renew last (some 220) first ≡ (throws (claim_lost k first.token), last))
    × (confirm last first ≡ (ok tt, last))
    × (abandon last first ≡ (ok tt, last))
superseded_claim_is_fenced_example =
    superseded_claim_is_fenced always held (claim always held (some 210) (some (b'b' ∷ [])) k f).1
      (pending f first.token 110) first second f 210 220 (some (b'b' ∷ [])) 7
      (abandon_call second ∷ []) held-IsValid (unfold program in refl) refl (unfold program in refl)

-- A claim that comes again while the first is in flight, and one while it waits to be confirmed.
abbrev again : ℕ → List (Call ℕ)
again now = claim_call (some now) (some (b'e' ∷ [])) k f ∷ []

abbrev afterwards : List (Call ℕ)
afterwards = claim_call (some 500) (some (b'c' ∷ [])) k f ∷ abandon_call first ∷ []

confirmed_replays_example :
    let s2 = (complete always (run_all always (again 15) held) (some 20) first 7).1 in
    let s3 = run_all always afterwards (confirm (run_all always (again 25) s2) first).1 in
    claim always s3 (some 900) (some (b'd' ∷ [])) k f ≡ (ok (completed 7), s3)
confirmed_replays_example =
    confirmed_replays always empty held k f 10 20 900 (some (b'a' ∷ [])) (some (b'd' ∷ [])) first 7
      (again 15) (again 25) afterwards (unfold program in refl) (unfold program in refl)
      (unfold program in refl) (unfold program in refl)
      ((λ e. absurd (cc)), ((λ e. absurd (cc)), tt))
