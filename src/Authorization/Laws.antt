-- ===== src/Authorization/Laws.antt =====
-- What an accepted authorization guarantees.
use x402_worker_template.Prelude.{
  ◌<◌, true, false, none, ◌≡◌, ◌⊎◌, inl, inr, refl, arith, str_eq_iff, Bool-cases,
}
use x402_worker_template.Js.{Value, object, instance_of, Fields, get, has_key}
use x402_worker_template.Js.Text.{is_hex_of, is_hex_digit, one_or_more, after_0x}
use x402_worker_template.Policy.{PaymentRequirements, mainnet_network, normalize_address}
use x402_worker_template.Authorization.{
  PaymentPayload, Authorization, ok, big_int, is_canonical_non_negative_integer_string,
  authorization_of, shape_error, terms_error, check_authorization, validate_payload,
  validate_eip3009_authorization_structure,
}

-- No asset is named, or the requirement's.
abbrev IsAccepted : PaymentPayload → PaymentRequirements → Type 0
IsAccepted p m =
    (p.accepted_asset ≡ "") ⊎ (normalize_address p.accepted_asset ≡ normalize_address m.asset)

-- The authorization has well-formed fields, pays the required amount to the required address on
-- Base mainnet, and has a window of validity that is not empty.
pub record IsAuthorized (p : PaymentPayload) (m : PaymentRequirements) (a : Authorization)
    : Type 0 where
  pub from : is_hex_of 40 a.from ≡ true
  pub to : is_hex_of 40 a.to ≡ true
  digits : is_canonical_non_negative_integer_string a.value ≡ true
  after_digits : is_canonical_non_negative_integer_string a.valid_after ≡ true
  before_digits : is_canonical_non_negative_integer_string a.valid_before ≡ true
  pub nonce : is_hex_of 64 a.nonce ≡ true
  pub signature : after_0x (one_or_more is_hex_digit) a.signature ≡ true
  window : big_int a.valid_after < big_int a.valid_before
  pub network : m.network ≡ mainnet_network
  pub payee : normalize_address a.to ≡ normalize_address m.pay_to
  pub amount : a.value ≡ m.amount
  asset : IsAccepted p m

-- Where an accepted authorization was read: the `authorization` object of a payload that has no
-- Permit2 authorization.
pub data IsReadFrom (p : PaymentPayload) (a : Authorization) : Type 0 where
  read :
      (payload fields : Fields)
      → p.payload ≡ object payload
      → has_key "permit2Authorization" payload ≡ false
      → get "authorization" payload ≡ object fields
      → a ≡ authorization_of fields payload
      → IsReadFrom p a

shape_error-none :
    (a : Authorization)
    → shape_error a ≡ none
    → (is_hex_of 40 a.from ≡ true)
      × (is_hex_of 40 a.to ≡ true)
      × (is_canonical_non_negative_integer_string a.value ≡ true)
      × (is_canonical_non_negative_integer_string a.valid_after ≡ true)
      × (is_canonical_non_negative_integer_string a.valid_before ≡ true)
      × (is_hex_of 64 a.nonce ≡ true)
      × (after_0x (one_or_more is_hex_digit) a.signature ≡ true)
unfolding shape_error
shape_error-none a h = ground arith

terms_error-none :
    (p : PaymentPayload) (m : PaymentRequirements) (a : Authorization)
    → terms_error p m a ≡ none
    → (big_int a.valid_after < big_int a.valid_before)
      × (m.network ≡ mainnet_network)
      × (normalize_address a.to ≡ normalize_address m.pay_to)
      × (a.value ≡ m.amount)
      × IsAccepted p m
unfolding terms_error
terms_error-none p m a h = ground (
  arith,
  str_eq_iff m.network mainnet_network,
  str_eq_iff (normalize_address a.to) (normalize_address m.pay_to),
  str_eq_iff a.value m.amount,
  str_eq_iff p.accepted_asset "",
  str_eq_iff (normalize_address p.accepted_asset) (normalize_address m.asset),
)

check_authorization-IsAuthorized :
    (p : PaymentPayload) (m : PaymentRequirements) (a b : Authorization)
    → check_authorization p m a ≡ ok b
    → (b ≡ a) × IsAuthorized p m a
unfolding check_authorization
check_authorization-IsAuthorized p m a b h =
    ground (arith, shape_error-none a, terms_error-none p m a)

validate_payload-reads :
    (p : PaymentPayload) (m : PaymentRequirements) (payload : Fields) (v : Value)
    (b : Authorization)
    → p.payload ≡ object payload
    → has_key "permit2Authorization" payload ≡ false
    → get "authorization" payload ≡ v
    → validate_payload p m payload v ≡ ok b
    → IsReadFrom p b × IsAuthorized p m b
unfolding validate_payload
validate_payload-reads p m payload (object fs) b e n g h =
    let (same, good) = check_authorization-IsAuthorized p m (authorization_of fs payload) b h in
    (read payload fs e n g same, rw same good)
validate_payload-reads p m payload v b e n g h = cc

-- An authorization that is accepted was read from the payload's `authorization` object, without a
-- Permit2 authorization beside it; its addresses and its nonce are 0x with 40 and 64 hex digits,
-- its signature is 0x with hex digits, its value and both ends of its window of validity are
-- decimal digits, and the window is not empty; the accepted asset, if there is one, is the
-- requirement's; and it pays the exact amount of the matched requirement to its payee on Base mainnet.
pub validate_eip3009-IsAuthorized :
    (p : PaymentPayload) (m : PaymentRequirements) (a : Authorization)
    → validate_eip3009_authorization_structure p m ≡ ok a
    → IsReadFrom p a × IsAuthorized p m a
unfolding validate_eip3009_authorization_structure
validate_eip3009-IsAuthorized p m a h = by_payload p.payload refl
  where
    by_payload : (v : Value) → p.payload ≡ v → IsReadFrom p a × IsAuthorized p m a
    by_payload (object fs) e = elim (Bool-cases (has_key "permit2Authorization" fs)) [
      | inl k ↦ cc (rw (e, validate_eip3009_authorization_structure, k) at h)
      | inr k ↦
          validate_payload-reads p m fs (get "authorization" fs) a e k refl
            (rw (e, validate_eip3009_authorization_structure, k) at h)
    ]
    by_payload (instance_of fs) e = ground arith
    by_payload _ e = ground arith
