-- ===== src/Idempotency/Creation.antt =====
-- src/app/in-memory-idempotency-store.ts: the constructor, and the record that a new claim makes.
use ddd_kit_ts.Base.{
  ℕ, ◌+◌, ◌/◌, not, ◌&&◌, Option, none, some, [], leb, ◌==◌, if◌then◌else◌, Outcome, ok, throws,
  ◌>>=◌, get_or, length,
}
use ddd_kit_ts.Base.JsMap
use ddd_kit_ts.Base.JsNumber.{JsNumber, max_safe_integer, assert_optional_limit}
use ddd_kit_ts.Base.JsString.{JsString, JsString-discrete}
use ddd_kit_ts.Idempotency.Types.{
  generation_exhausted, invalid_token_part, Error, to_iso_string, IdempotencyLease,
  IdempotencyClaim, Entry, InMemoryIdempotencyStore, mint, invalid_option, claimed, pending,
}

abbrev pub max_timeout_ms : ℕ
max_timeout_ms = 2147483647

-- The constructor's check of a duration: a positive safe integer up to the timer limit.
unfoldable pub assert_duration : JsNumber → Outcome Error ℕ
assert_duration (JsNumber.int n) =
    if leb 1 n && leb n max_safe_integer && leb n max_timeout_ms
    then ok n
    else throws invalid_option
assert_duration _ = throws invalid_option

-- `options.renewAfterMs ?? Math.floor(this.leaseDurationMs / 2)`
unfoldable pub renew_default : Option JsNumber → ℕ → JsNumber
renew_default none lease = JsNumber.int (lease / 2)
renew_default (some n) lease = n

-- What a method gives back, and the store that it leaves behind.
abbrev pub Reply : Type 0 → Type 0 → Type 0
Reply O A = Outcome Error A × InMemoryIdempotencyStore O

module _ {O : Type 0} where
  unfoldable pub new :
      Option JsNumber
      → Option JsNumber
      → Option JsNumber
      → Outcome Error (InMemoryIdempotencyStore O)
  unfolding assert_optional_limit assert_duration renew_default
  new lease_duration_ms renew_after_ms max_entries = do
    limit ← assert_optional_limit invalid_option max_entries
    lease ← assert_duration (get_or lease_duration_ms (JsNumber.int 30000))
    renew ← assert_duration (renew_default renew_after_ms lease)
    if leb lease renew
        then throws invalid_option
        else ok (record {
          entries = [];
          lease_duration_ms = lease;
          renew_after_ms = renew;
          max_entries = limit;
          token_generation = 0;
        })

  abbrev pub entry_at : JsString → InMemoryIdempotencyStore O → Option (Entry O)
  entry_at key s = JsMap.get JsString-discrete key s.entries

  abbrev pub put_entry :
      JsString → Entry O → InMemoryIdempotencyStore O → InMemoryIdempotencyStore O
  put_entry key e s = record s { entries = JsMap.set JsString-discrete key e s.entries }

  abbrev pub drop_entry : JsString → InMemoryIdempotencyStore O → InMemoryIdempotencyStore O
  drop_entry key s = record s { entries = JsMap.delete JsString-discrete key s.entries }

  -- The private `lease`.
  unfoldable pub lease : InMemoryIdempotencyStore O → ℕ → Outcome Error IdempotencyLease
  unfolding to_iso_string
  lease s expires_at_ms = to_iso_string expires_at_ms >>= λ text.
      ok (record { expires_at = text; renew_after_ms = s.renew_after_ms })

  -- The end of `createPending`, once the token part is a text that is not empty.
  unfoldable pub create_pending_with :
      InMemoryIdempotencyStore O → JsString → JsString → JsString → ℕ → Reply O (IdempotencyClaim O)
  unfolding lease mint
  create_pending_with s token_part key fingerprint now =
      let s' = record s { token_generation = s.token_generation + 1 } in
      let token = mint s'.token_generation token_part in
      let expires_at_ms = now + s.lease_duration_ms in
      if not (leb s'.token_generation max_safe_integer)
      then (throws generation_exhausted, s')
      else elim (lease s expires_at_ms) [
        | throws e ↦ (throws e, s')
        | ok granted ↦ (
          ok (claimed (record { key = key; token = token; lease = some granted })),
          put_entry key (pending fingerprint token expires_at_ms) s',
        )
      ]

  unfoldable pub create_pending :
      InMemoryIdempotencyStore O
      → Option JsString
      → JsString
      → JsString
      → ℕ
      → Reply O (IdempotencyClaim O)
  unfolding create_pending_with
  create_pending s none key fingerprint now = (throws invalid_token_part, s)
  create_pending s (some part) key fingerprint now =
      if length part == 0
      then (throws invalid_token_part, s)
      else create_pending_with s part key fingerprint now
