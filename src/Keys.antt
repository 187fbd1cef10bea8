-- ===== src/Keys.antt =====
-- src/mainnet/idempotency/canonical-keys.ts, and `sha256Hex` of canonical-json.ts: the hashes that
-- name a payment attempt.
use Prim.Native.String.{◌++◌}
use x402_worker_template.Prelude.{String, Option, none, some, List, [], ◌∷◌}
use x402_worker_template.Js.{Value, text, object, Fields, end, field, Platform}
use x402_worker_template.Js.Text.{hex_text, to_upper_case}
use x402_worker_template.Canonical.{sort_entries, serialize_canonical_value}

sha256_hex : Platform → String → String
unfolding hex_text
sha256_hex p input = hex_text (p.digest input)

pub record TermsFingerprintInput : Type 0 where
  pub scheme : String
  pub network : String
  pub asset : String
  pub amount : String
  pub pay_to : String
  pub http_method : String
  pub normalized_route : String
  pub normalized_query : List (String × String)

pub record AuthCommitmentInput : Type 0 where
  pub network : String
  pub from : String
  pub authorization_nonce : String
  pub to : String
  pub value : String
  pub valid_after : String
  pub valid_before : String
  pub verifying_contract : String

pub record ResourceIdentityInput : Type 0 where
  pub http_method : String
  pub normalized_route : String
  pub normalized_query : List (String × String)

abbrev text_fields : List (String × String) → Fields → Fields
text_fields [] rest = rest
text_fields ((k, v) ∷ es) rest = field k (text v) (text_fields es rest)

normalize_query : List (String × String) → Value
unfolding sort_entries
normalize_query query = object (text_fields (sort_entries query) end)

abbrev hash_of : Platform → Option String → Option String
hash_of p none = none
hash_of p (some s) = some (sha256_hex p s)

-- `none` would be an error thrown by the serializer.
module _ (p : Platform) where
  pub build_terms_fingerprint : TermsFingerprintInput → Option String
  unfolding normalize_query
  build_terms_fingerprint i = hash_of p (
      serialize_canonical_value p (
        object (
          text_fields
            (("scheme", i.scheme)
              ∷ ("network", i.network)
              ∷ ("asset", i.asset)
              ∷ ("amount", i.amount)
              ∷ ("payTo", i.pay_to)
              ∷ ("httpMethod", to_upper_case i.http_method)
              ∷ ("normalizedRoute", i.normalized_route)
              ∷ [])
            (field "normalizedQuery" (normalize_query i.normalized_query) end))))

  pub build_auth_commitment : AuthCommitmentInput → Option String
  build_auth_commitment i = hash_of p (
      serialize_canonical_value p (
        object (
          text_fields
            (("network", i.network)
              ∷ ("from", i.from)
              ∷ ("authorizationNonce", i.authorization_nonce)
              ∷ ("to", i.to)
              ∷ ("value", i.value)
              ∷ ("validAfter", i.valid_after)
              ∷ ("validBefore", i.valid_before)
              ∷ ("verifyingContract", i.verifying_contract)
              ∷ [])
            end)))

  pub build_resource_identity_hash : ResourceIdentityInput → Option String
  unfolding normalize_query
  build_resource_identity_hash i = hash_of p (
      serialize_canonical_value p (
        object (
          text_fields
            (("httpMethod", to_upper_case i.http_method)
              ∷ ("normalizedRoute", i.normalized_route)
              ∷ [])
            (field "normalizedQuery" (normalize_query i.normalized_query) end))))

pub build_record_key : Platform → String → String → String
build_record_key p payment_identifier terms_fingerprint =
    sha256_hex p (payment_identifier ++ "|" ++ terms_fingerprint)
