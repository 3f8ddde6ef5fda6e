-- ===== src/AggregateAddress.antt =====
-- src/aggregate/aggregate-address.ts: the address of an aggregate, and the key under which the
-- in-memory adapters store it.
use ddd_kit_ts.Base.{List, [], ◌∷◌, ◌≡◌, ℕ_discrete, arith}
use ddd_kit_ts.Base.JsString.{JsString}

pub record AggregateAddress : Type 0 where
  pub aggregate_type : JsString
  pub aggregate_id : JsString

-- The text that `JSON.stringify` writes for an array of two strings determines the two strings,
-- so the key is kept as that array.
abbrev pub AddressKey : Type 0
AddressKey = List JsString

unfoldable pub AddressKey-discrete : Discrete AddressKey
unfolding ℕ_discrete
AddressKey-discrete = hlevel ℕ_discrete

abbrev pub encode_aggregate_address : AggregateAddress → AddressKey
encode_aggregate_address a = a.aggregate_type ∷ a.aggregate_id ∷ []

pub encode_aggregate_address-inj :
    (a b : AggregateAddress) → encode_aggregate_address a ≡ encode_aggregate_address b → a ≡ b
encode_aggregate_address-inj a b h = ground arith
