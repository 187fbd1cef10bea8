-- ===== src/Buyer/Guards/Laws.antt =====
-- buyer-guards.ts: what the guards let through.
use x402_worker_template.Prelude.{
  ◌≤◌, ◌<◌, String, Bool, true, false, not, ◌||◌, Option, none, some, List, [], ◌∷◌, ◌≡◌, ◌⊎◌, refl,
  arith, inl, inr, Bool-cases, str_eq, str_eq_iff, if◌then◌else◌,
}
use x402_worker_template.Js.Text.{utf16_length, is_hex_of, trim}
use x402_worker_template.Js.Url.{Url}
use x402_worker_template.Testnet.Config.{base_sepolia}
use x402_worker_template.Buyer.Guards.{
  BuyerGuardConfig, BuyerGuardResult, ok, refused, or_empty, is_blank, validate_private_key_format,
  validate_expected_pay_to_address, query_error, validate_paid_route_path_and_query, ends_with,
  is_local, then_guard, same_origin, validate_remote, validate_parsed, validate_api_url,
  evaluate_buyer_guards,
}

passed : (a b : BuyerGuardResult) → then_guard a b ≡ ok → (a ≡ ok) × (b ≡ ok)
passed ok b h = (refl, h)
passed (refused reason) b h = cc h

checked :
    (b : Bool) (reason : String) (r : BuyerGuardResult)
    → (if not b then refused reason else r) ≡ ok
    → (b ≡ true) × (r ≡ ok)
checked true reason r h = (refl, h)
checked false reason r h = cc h

checked_or :
    (a b : Bool) (reason : String) (r : BuyerGuardResult)
    → (if not a || not b then refused reason else r) ≡ ok
    → ((a ≡ true) × (b ≡ true)) × (r ≡ ok)
checked_or true true reason r h = ((refl, refl), h)
checked_or true false reason r h = cc h
checked_or false b reason r h = cc h

is_same : (a b : String) → str_eq a b ≡ true → a ≡ b
is_same a b h = ground (arith, str_eq_iff a b)

-- The one value of a paid URL.
pub record IsQuery (params : List (String × String)) : Type 0 where
  value : String
  one : params ≡ ("value", value) ∷ []
  trimmed : trim value ≡ value
  not_empty : 0 < utf16_length value
  not_long : utf16_length value ≤ 256

value_of : (key v : String) → query_error ((key, v) ∷ []) ≡ ok → IsQuery ((key, v) ∷ [])
value_of key v h = record {
  value = v;
  one = ground (arith, str_eq_iff key "value");
  trimmed = ground (arith, str_eq_iff v (trim v));
  not_empty = ground arith;
  not_long = ground arith;
}

query_error-IsQuery : (params : List (String × String)) → query_error params ≡ ok → IsQuery params
query_error-IsQuery [] h = cc h
query_error-IsQuery ((key, v) ∷ []) h = value_of key v h
query_error-IsQuery ((key, v) ∷ p ∷ ps) h = cc h

pub record IsPaidRoute (url : Url) : Type 0 where
  pathname : url.pathname ≡ "/v1/example"
  query : IsQuery url.search_params

route-IsPaidRoute : (url : Url) → validate_paid_route_path_and_query url ≡ ok → IsPaidRoute url
unfolding validate_paid_route_path_and_query
route-IsPaidRoute url h = elim (Bool-cases (str_eq url.pathname "/v1/example")) [
  | inl e ↦ record {
    pathname = ground (arith, str_eq_iff url.pathname "/v1/example");
    query = query_error-IsQuery url.search_params (rw e at h);
  }
  | inr e ↦ cc (rw e at h)
]

pub record IsLocal (url : Url) : Type 0 where
  protocol : url.protocol ≡ "http:"
  hostname : (url.hostname ≡ "localhost") ⊎ (url.hostname ≡ "127.0.0.1")
  port : url.port ≡ "8787"

pub record IsRemote (parse_url : String → Option Url) (remote_origin : String) (url : Url)
    : Type 0 where
  configured : Url
  parsed : parse_url remote_origin ≡ some configured
  same : url.origin ≡ configured.origin
  protocol : url.protocol ≡ "https:"
  hostname : ends_with ".workers.dev" url.hostname ≡ true

-- A URL that a payment may be sent to.
pub record IsSafe (parse_url : String → Option Url) (remote_origin : String) (url : Url)
    : Type 0 where
  username : url.username ≡ ""
  password : url.password ≡ ""
  hash : url.hash ≡ ""
  route : IsPaidRoute url
  place : IsLocal url ⊎ IsRemote parse_url remote_origin url

place-IsLocal : (url : Url) → is_local url ≡ true → IsLocal url
place-IsLocal url h = record {
  protocol = ground (arith, str_eq_iff url.protocol "http:");
  hostname =
      ground (arith, str_eq_iff url.hostname "localhost", str_eq_iff url.hostname "127.0.0.1");
  port = ground (arith, str_eq_iff url.port "8787");
}

module _ (parse_url : String → Option Url) where
  same_origin-IsRemote :
      (remote_origin : String) (url : Url) (o : Option Url)
      → parse_url remote_origin ≡ o
      → url.protocol ≡ "https:"
      → same_origin parse_url url o ≡ ok
      → IsRemote parse_url remote_origin url
  same_origin-IsRemote remote_origin url none e s h = cc h
  same_origin-IsRemote remote_origin url (some configured) e s h = record {
    configured = configured;
    parsed = e;
    same = ground (arith, str_eq_iff url.origin configured.origin);
    protocol = s;
    hostname = ground arith;
  }

  validated-IsRemote :
      (url : Url) (remote_origin : String)
      → validate_remote parse_url url remote_origin ≡ ok
      → IsRemote parse_url remote_origin url
  unfolding validate_remote
  validated-IsRemote url remote_origin h = elim (Bool-cases (str_eq remote_origin "")) [
    | inl e ↦ cc (rw e at h)
    | inr e ↦
        let (o, rest) = passed _ _ (rw e at h) in
        let (secure, same) = checked _ _ _ rest in
        same_origin-IsRemote remote_origin url _ refl (is_same url.protocol "https:" secure) same
  ]

  place_of :
      (remote_origin : String) (url : Url)
      → (if is_local url then ok else validate_remote parse_url url remote_origin) ≡ ok
      → IsLocal url ⊎ IsRemote parse_url remote_origin url
  place_of remote_origin url h = elim (Bool-cases (is_local url)) [
    | inl e ↦ inl (place-IsLocal url e)
    | inr e ↦ inr (validated-IsRemote url remote_origin (rw e at h))
  ]

  parsed-IsSafe :
      (remote_origin : String) (url : Url)
      → validate_parsed parse_url remote_origin (some url) ≡ ok
      → IsSafe parse_url remote_origin url
  parsed-IsSafe remote_origin url h =
      let (no_credentials, h1) = checked_or _ _ _ _ h in
      let (no_fragment, h2) = checked _ _ _ h1 in
      let (route, h3) = passed _ _ h2 in
      record {
        username = is_same url.username "" no_credentials.0;
        password = is_same url.password "" no_credentials.1;
        hash = is_same url.hash "" no_fragment;
        route = route-IsPaidRoute url route;
        place = place_of remote_origin url h3;
      }

  api-IsSafe :
      (v expected : Option String)
      → validate_api_url parse_url v expected ≡ ok
      → (url : Url) × (parse_url (trim (or_empty v)) ≡ some url)
        × IsSafe parse_url (trim (or_empty expected)) url
  unfolding validate_api_url
  api-IsSafe v expected h = elim (Bool-cases (is_blank v)) [
    | inl e ↦ cc (rw e at h)
    | inr e ↦ by_url (parse_url (trim (or_empty v))) refl (rw e at h)
  ]
    where
      by_url :
          (o : Option Url)
          → parse_url (trim (or_empty v)) ≡ o
          → validate_parsed parse_url (trim (or_empty expected)) o ≡ ok
          → (url : Url) × (parse_url (trim (or_empty v)) ≡ some url)
            × IsSafe parse_url (trim (or_empty expected)) url
      by_url none e g = cc g
      by_url (some url) e g = (url, e, parsed-IsSafe (trim (or_empty expected)) url g)

-- What the guards promise of a configuration.
pub record IsAllowed (parse_url : String → Option Url) (c : BuyerGuardConfig) : Type 0 where
  url : Url
  parsed : parse_url (trim (or_empty c.api_url)) ≡ some url
  safe : IsSafe parse_url (trim (or_empty c.expected_remote_api_origin)) url
  key : is_hex_of 64 (trim (or_empty c.evm_private_key)) ≡ true
  pay_to : is_hex_of 40 (trim (or_empty c.expected_pay_to_address)) ≡ true
  allowed : c.allow_testnet_payment ≡ true
  network : c.network ≡ base_sepolia

key-is_hex :
    (v : Option String)
    → validate_private_key_format v ≡ ok
    → is_hex_of 64 (trim (or_empty v)) ≡ true
unfolding validate_private_key_format
key-is_hex v h = ground arith

pay_to-is_hex :
    (v : Option String)
    → validate_expected_pay_to_address v ≡ ok
    → is_hex_of 40 (trim (or_empty v)) ≡ true
unfolding validate_expected_pay_to_address
pay_to-is_hex v h = ground arith

pub evaluate_buyer_guards-IsAllowed :
    (parse_url : String → Option Url) (c : BuyerGuardConfig)
    → evaluate_buyer_guards parse_url c ≡ ok
    → IsAllowed parse_url c
unfolding evaluate_buyer_guards
evaluate_buyer_guards-IsAllowed parse_url c h =
    let (o, h1) = passed _ _ h in
    let (api, h2) = passed _ _ h1 in
    let (key, h3) = passed _ _ h2 in
    let (pay_to, h4) = passed _ _ h3 in
    let (allowed, h5) = checked _ _ _ h4 in
    let (network, h6) = checked _ _ _ h5 in
    let (url, parsed, safe) = api-IsSafe parse_url c.api_url c.expected_remote_api_origin api in
    record {
      url = url;
      parsed = parsed;
      safe = safe;
      key = key-is_hex c.evm_private_key key;
      pay_to = pay_to-is_hex c.expected_pay_to_address pay_to;
      allowed = allowed;
      network = is_same c.network base_sepolia network;
    }
