-- ===== src/Testnet/Terms/Laws.antt =====
-- terms-loader.ts: a quote that was loaded can be paid.
use mathlib.Core.Option.{some_inj}
use x402_worker_template.Prelude.{
  String, false, Option, none, some, ◌≡◌, [], ◌∷◌, refl, subst, inl, inr, nat_eq, str_eq,
  Bool-cases, Option-cases,
}
use x402_worker_template.Js.Text.{utf16_length, trim}
use x402_worker_template.Sdk.{PaymentRequired}
use x402_worker_template.Client.Web.{Url, Answer, thrown, answered}
use x402_worker_template.Testnet.Config.{
  ResolvedConfig, is_dead_pay_to_address, build_pay_public_config,
}
use x402_worker_template.Testnet.Policy.{
  PaymentTermsValidationResult, validate_base_sepolia_payment_requirements,
}
use x402_worker_template.Testnet.Quote.{PaymentQuote, ready, assert_quote_ready_for_signing}
use x402_worker_template.Testnet.Quote.Fresh.{create_payment_quote-ready}
use x402_worker_template.Testnet.Terms.{
  Page, LoadOptions, ok, with_terms, with_required, with_header, header_of, validate_answer,
  load_and_validate_payment_terms,
}

ok-injective : {p q : PaymentQuote} → ok p ≡ ok q → p ≡ q
ok-injective e = cc

-- The options of a page with a connected account on the configured chain.
abbrev options_for : ResolvedConfig → String → String → String → String → LoadOptions
options_for c origin account query id = record {
  origin = origin;
  public_config = build_pay_public_config c;
  account = account;
  chain_id = (build_pay_public_config c).chain_id;
  query_value = query;
  quote_id = id;
}

module _ (page : Page) (c : ResolvedConfig) (origin account query id : String) where
  abbrev o : LoadOptions
  o = options_for c origin account query id

  -- The quote may be signed for the account and the chain.
  abbrev CanPay : PaymentQuote → Type 0
  CanPay q = assert_quote_ready_for_signing q o.account o.chain_id o.public_config ≡ ready

  module _ (alive : is_dead_pay_to_address c.pay_to_address ≡ false)
      (connected : str_eq account "" ≡ false) where
    with_required-CanPay :
        (url : String) (required : Option PaymentRequired) (q : PaymentQuote)
        → nat_eq (utf16_length (trim url)) 0 ≡ false
        → with_required page o url required ≡ ok q
        → CanPay q
    unfolding build_pay_public_config
    with_required-CanPay url none q filled h = cc h
    with_required-CanPay url (some required) q filled h =
        by_result (validate_base_sepolia_payment_requirements required.accepts c.pay_to_address)
          refl h
      where
        by_result :
            (v : PaymentTermsValidationResult)
            → validate_base_sepolia_payment_requirements required.accepts c.pay_to_address ≡ v
            → with_terms page o required url v ≡ ok q
            → CanPay q
        by_result (PaymentTermsValidationResult.bad reason) e g = cc g
        by_result (PaymentTermsValidationResult.ok r) e g =
            subst CanPay (ok-injective g) (
              create_payment_quote-ready required r c account url query id e alive connected filled)

    with_header-CanPay :
        (url : String) (h : Option String) (q : PaymentQuote)
        → nat_eq (utf16_length (trim url)) 0 ≡ false
        → with_header page o url h ≡ ok q
        → CanPay q
    with_header-CanPay url none q filled h = cc h
    with_header-CanPay url (some header) q filled h =
        with_required-CanPay url (page.decode_payment_required_header header) q filled h

    validate_answer-CanPay :
        (url : String) (a : Answer) (q : PaymentQuote)
        → nat_eq (utf16_length (trim url)) 0 ≡ false
        → validate_answer page o url a ≡ ok q
        → CanPay q
    unfolding validate_answer
    validate_answer-CanPay url (thrown error) q filled h = cc h
    validate_answer-CanPay url (answered status headers) q filled h =
        elim (Bool-cases (nat_eq status 200)) [
          | inl e ↦ cc (rw (e, validate_answer) at h)
          | inr e ↦ elim (Bool-cases (nat_eq status 402)) [
            | inl f ↦
                with_header-CanPay url (header_of headers) q filled
                  (rw (e, f, validate_answer) at h)
            | inr f ↦ cc (rw (e, f, validate_answer) at h)
          ]
        ]

    -- A quote that a page loads for its own configuration, where the seller is not the placeholder
    -- and an account is connected on the configured chain, may be signed at once for that account
    -- and chain. The hypothesis on the browser is that the text of a URL is not blank.
    pub load_and_validate-ready :
        ((u : Url) → nat_eq (utf16_length (trim (page.write_url u))) 0 ≡ false)
        → (fetch : String → Answer) (q : PaymentQuote)
        → load_and_validate_payment_terms page (options_for c origin account query id) fetch
          ≡ some (ok q)
        → assert_quote_ready_for_signing q account
            (build_pay_public_config c).chain_id
            (build_pay_public_config c)
          ≡ ready
    unfolding load_and_validate_payment_terms
    load_and_validate-ready filled fetch q h =
        elim (Option-cases (page.resolve_url "/v1/example" origin)) [
          | inl e ↦ cc (rw (e, load_and_validate_payment_terms) at h)
          | inr (u, e) ↦
              let used = record u { search_params = ("value", query) ∷ [] } in
              let url = page.write_url used in
              validate_answer-CanPay url (fetch url) q (filled used)
                (some_inj.0 (rw (e, load_and_validate_payment_terms) at h))
        ]
