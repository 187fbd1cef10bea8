-- ===== src/Client/Terms/Laws.antt =====
-- mainnet-terms-loader.ts: what terms that were loaded guarantee.
use mathlib.Core.Option.{some_inj}
use x402_worker_template.Prelude.{
  String, [], ◌∷◌, true, Option, none, some, opt_eq, ◌≡◌, ap, arith, inl, inr, str_eq_iff,
  Bool-cases, Option-cases, refl, subst, nat_eq,
}
use x402_worker_template.Js.{Value, text, property}
use x402_worker_template.Policy.{
  mainnet_paid_route, PaymentRequirements, TermsResult, validate_base_mainnet_payment_requirements,
}
use x402_worker_template.Policy.Laws.{IsOffered, validate-IsOffered}
use x402_worker_template.Sdk.{Sdk, PaymentRequired}
use x402_worker_template.Identifier.{validate_required_payment_identifier_declaration}
use x402_worker_template.Client.Web.{Web, Url, param, Answer, thrown, answered}
use x402_worker_template.Client.Terms.{
  mainnet_paid_query_key, MainnetValidatedTerms, ok, url_error, resource_error, terms_of, validated,
  validate_payment_required, with_header, payment_header, validate_answer,
  build_mainnet_paid_route_url, load_and_validate_mainnet_terms,
}

-- The resource is the paid route of the origin, with the query value.
data IsResource (web : Web) (origin query : String) : Value → Type 0 where
  resource :
      (url : String) (u : Url)
      → web.parse_url url ≡ some u
      → u.origin ≡ origin
      → u.pathname ≡ mainnet_paid_route
      → param mainnet_paid_query_key u.search_params ≡ some query
      → IsResource web origin query (text url)

-- Terms that may be paid: the answer was a 402 whose header declares one option, the policy's, for
-- the paid route of the page's own origin with the query value, and requires an identifier.
pub record IsLoaded (x : Sdk) (web : Web) (seller : String) (origin url query : String)
    (t : MainnetValidatedTerms) : Type 0 where
  resource :
      IsResource web origin query (property "url" (property "resource" t.payment_required.json))
  options : t.payment_required.accepts ≡ t.requirement ∷ []
  offered : IsOffered seller t.requirement
  required :
      x.is_payment_identifier_required (property "payment-identifier" t.payment_required.extensions)
      ≡ true
  request_url : t.request_url ≡ url
  query_value : t.query_value ≡ query

opt_eq-true : (o : Option String) (t : String) → opt_eq o t ≡ true → o ≡ some t
opt_eq-true none t h = ground arith
opt_eq-true (some s) t h = ap some ((str_eq_iff s t).0 h)

ok-injective : {s t : MainnetValidatedTerms} → ok s ≡ ok t → s ≡ t
ok-injective e = cc

module _ (x : Sdk) (web : Web) (seller : String) where
  url_error-none :
      (origin query : String) (u : Url)
      → url_error x web seller origin query (some u) ≡ none
      → (u.origin ≡ origin)
        × (u.pathname ≡ mainnet_paid_route)
        × (param mainnet_paid_query_key u.search_params ≡ some query)
  unfolding url_error
  url_error-none origin query u h = ground (
    arith,
    str_eq_iff u.origin origin,
    str_eq_iff u.pathname mainnet_paid_route,
    opt_eq-true (param mainnet_paid_query_key u.search_params) query,
  )

  resource_error-none :
      (origin query : String) (v : Value)
      → resource_error x web seller origin query v ≡ none
      → IsResource web origin query v
  unfolding url_error
  resource_error-none origin query (text url) h = elim (Option-cases (web.parse_url url)) [
    | inl e ↦ cc (rw e at h)
    | inr (u, e) ↦
        let (o, p, q) = url_error-none origin query u (rw e at h) in resource url u e o p q
  ]
  resource_error-none origin query v h = ground arith

  -- Of an option that is the only one and the policy's.
  validated-IsLoaded :
      (required : PaymentRequired) (r : PaymentRequirements) (origin url query : String)
      (t : MainnetValidatedTerms)
      → IsResource web origin query (property "url" (property "resource" required.json))
      → (required.accepts ≡ r ∷ []) × IsOffered seller r
      → validated x web seller required url query (TermsResult.ok r) ≡ ok t
      → IsLoaded x web seller origin url query t
  unfolding validate_required_payment_identifier_declaration
  validated-IsLoaded required r origin url query t found (only, good) h =
      elim (Bool-cases
        (x.is_payment_identifier_required (property "payment-identifier" required.extensions))) [
          | inl e ↦
              let same : terms_of x web seller required r url query ≡ t =
                ok-injective (rw e at h) in
              subst (IsLoaded x web seller origin url query) same (record {
                resource = found;
                options = only;
                offered = good;
                required = e;
                request_url = refl;
                query_value = refl;
              })
          | inr e ↦ cc (rw e at h)
        ]

  validate_payment_required-IsLoaded :
      (required : PaymentRequired) (origin url query : String) (t : MainnetValidatedTerms)
      → validate_payment_required x web seller required origin url query ≡ ok t
      → IsLoaded x web seller origin url query t
  unfolding validate_payment_required
  validate_payment_required-IsLoaded required origin url query t h =
      elim (Option-cases (
        resource_error x web seller origin query
          (property "url" (property "resource" required.json)))) [
            | inl e ↦
                by_result (validate_base_mainnet_payment_requirements required.accepts seller) refl
                  (resource_error-none origin query
                    (property "url" (property "resource" required.json)) e)
                  (rw (e, validate_payment_required) at h)
            | inr (reason, e) ↦ cc (rw (e, validate_payment_required) at h)
          ]
    where
      by_result :
          (v : TermsResult)
          → validate_base_mainnet_payment_requirements required.accepts seller ≡ v
          → IsResource web origin query (property "url" (property "resource" required.json))
          → validated x web seller required url query
              (validate_base_mainnet_payment_requirements required.accepts seller)
            ≡ ok t
          → IsLoaded x web seller origin url query t
      by_result (TermsResult.ok r) e found g =
          validated-IsLoaded required r origin url query t found
            (validate-IsOffered required.accepts seller r e) (rw e at g)
      by_result (TermsResult.bad reason) e found g = cc (rw e at g)

  with_header-IsLoaded :
      (header : Option String) (origin url query : String) (t : MainnetValidatedTerms)
      → with_header x web seller header origin url query ≡ ok t
      → IsLoaded x web seller origin url query t
  with_header-IsLoaded none origin url query t h = cc h
  with_header-IsLoaded (some header) origin url query t h =
      elim (Option-cases (web.decode_payment_required_header header)) [
        | inl e ↦ cc (rw e at h)
        | inr (required, e) ↦
            validate_payment_required-IsLoaded required origin url query t (rw e at h)
      ]

  validate_answer-IsLoaded :
      (a : Answer) (origin url query : String) (t : MainnetValidatedTerms)
      → validate_answer x web seller a origin url query ≡ ok t
      → IsLoaded x web seller origin url query t
  unfolding validate_answer
  validate_answer-IsLoaded (thrown (some m)) origin url query t h = cc h
  validate_answer-IsLoaded (thrown none) origin url query t h = cc h
  validate_answer-IsLoaded (answered status headers) origin url query t h =
      elim (Bool-cases (nat_eq status 200)) [
        | inl e ↦ cc (rw (e, validate_answer) at h)
        | inr e ↦ elim (Bool-cases (nat_eq status 402)) [
          | inl f ↦
              with_header-IsLoaded (payment_header headers) origin url query t
                (rw (e, f, validate_answer) at h)
          | inr f ↦ cc (rw (e, f, validate_answer) at h)
        ]
      ]

  -- Terms that were loaded for an origin and a query value were checked: the declared resource is
  -- the paid route of that origin with that value, the policy's terms are the only option, an identifier
  -- of the payment is required, and the request to pay goes to the paid route's URL.
  pub load_and_validate-IsLoaded :
      (fetch : String → Answer) (origin query : String) (t : MainnetValidatedTerms)
      → load_and_validate_mainnet_terms x web seller fetch origin query ≡ some (ok t)
      → (u : Url) × (url : String) × (web.parse_url origin ≡ some u)
        × (build_mainnet_paid_route_url x web seller origin query ≡ some url)
        × IsLoaded x web seller u.origin url query t
  unfolding load_and_validate_mainnet_terms
  load_and_validate-IsLoaded fetch origin query t h = elim (Option-cases (web.parse_url origin)) [
    | inl e ↦ cc (rw (e, load_and_validate_mainnet_terms) at h)
    | inr (u, e) ↦ elim (Option-cases (build_mainnet_paid_route_url x web seller origin query)) [
      | inl f ↦ cc (rw (e, f, load_and_validate_mainnet_terms) at h)
      | inr (url, f) ↦ (
        u,
        url,
        e,
        f,
        validate_answer-IsLoaded (fetch url) u.origin url query t
            (some_inj.0 (rw (e, f, load_and_validate_mainnet_terms) at h)),
      )
    ]
  ]
