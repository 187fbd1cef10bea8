-- ===== src/Orchestrator/Handler.antt =====
-- mainnet-payment-orchestrator.ts: the whole handler of the paid route. The checks before the
-- reservation come one after the other, and the first that fails answers.
pub mod Sound
pub mod Tests
use x402_worker_template.Prelude.{
  String, not, Option, none, some, List, [], ◌∷◌, str_eq, if◌then◌else◌,
}
use x402_worker_template.Js.Text.{trim}
use x402_worker_template.Keys.{
  build_terms_fingerprint, build_auth_commitment, build_resource_identity_hash, build_record_key,
}
use x402_worker_template.Policy.{
  mainnet_paid_route, PaymentRequirements, TermsResult, validate_base_mainnet_payment_requirements,
}
use x402_worker_template.Authorization.{
  PaymentPayload, Authorization, StructuralResult, validate_eip3009_authorization_structure,
}
use x402_worker_template.Sdk.{PaymentRequired, Check, valid, invalid}
use x402_worker_template.Identifier.{
  IdentifierResult, validate_payment_identifier_before_reservation,
}
use x402_worker_template.Coordinator.Types.{PrepareAttemptInput}
use x402_worker_template.Orchestrator.Http.{method_not_allowed_response, invalid_query_response}
use x402_worker_template.Orchestrator.Prog.{
  Prog, respond, throw, build_requirements, create_required,
}
use x402_worker_template.Orchestrator.Context.{
  Ctx, is_get, validate_mainnet_example_query, build_payment_error_from_required,
  handle_mainnet_example_unpaid_request,
}
use x402_worker_template.Orchestrator.Attempt.{attempt}

record CanonicalKeys : Type 0 where
  pub terms_fingerprint : String
  pub auth_commitment : String
  pub resource_identity_hash : String

abbrev keys_of : Option String → Option String → Option String → Option CanonicalKeys
keys_of (some t) (some a) (some r) =
    some (record { terms_fingerprint = t; auth_commitment = a; resource_identity_hash = r })
keys_of _ _ _ = none

abbrev reason_or : Option String → String → String
reason_or none d = d
reason_or (some r) d = r

module _ (ctx : Ctx) where
  compute_canonical_keys : PaymentRequirements → Authorization → String → Option CanonicalKeys
  compute_canonical_keys m a value =
      keys_of
        (build_terms_fingerprint ctx.p (record {
          scheme = m.scheme;
          network = m.network;
          asset = m.asset;
          amount = m.amount;
          pay_to = m.pay_to;
          http_method = "GET";
          normalized_route = mainnet_paid_route;
          normalized_query = ("value", value) ∷ [];
        }))
        (build_auth_commitment ctx.p (record {
          network = m.network;
          from = a.from;
          authorization_nonce = a.nonce;
          to = a.to;
          value = a.value;
          valid_after = a.valid_after;
          valid_before = a.valid_before;
          verifying_contract = m.asset;
        }))
        (build_resource_identity_hash ctx.p (record {
          http_method = "GET";
          normalized_route = mainnet_paid_route;
          normalized_query = ("value", value) ∷ [];
        }))

  prepare_input : String → PaymentRequirements → Authorization → CanonicalKeys → PrepareAttemptInput
  prepare_input id m a keys = record {
    payment_identifier = id;
    terms_fingerprint = keys.terms_fingerprint;
    auth_commitment = keys.auth_commitment;
    resource_identity_hash = keys.resource_identity_hash;
    authorization_nonce = a.nonce;
    network = m.network;
    asset = m.asset;
    amount = m.amount;
  }

  reserve : String → String → PaymentRequirements → Authorization → Option CanonicalKeys → Prog
  unfolding prepare_input
  reserve value id m a none = throw
  reserve value id m a (some keys) =
      attempt ctx (build_record_key ctx.p id keys.terms_fingerprint) (prepare_input id m a keys)
        value

  with_authorization : String → String → PaymentRequirements → StructuralResult → Prog
  unfolding reserve compute_canonical_keys
  with_authorization value id m StructuralResult.threw = throw
  with_authorization value id m (StructuralResult.bad reason) =
      build_payment_error_from_required ctx reason
  with_authorization value id m (StructuralResult.ok a) =
      reserve value id m a (compute_canonical_keys m a value)

  with_identifier : String → PaymentPayload → PaymentRequirements → IdentifierResult → Prog
  unfolding with_authorization
  with_identifier value payload m (IdentifierResult.bad reason) =
      build_payment_error_from_required ctx reason
  with_identifier value payload m (IdentifierResult.ok id) =
      with_authorization value id m (validate_eip3009_authorization_structure payload m)

  with_extensions : String → PaymentPayload → PaymentRequired → PaymentRequirements → Check → Prog
  unfolding with_identifier
  with_extensions value payload required m (invalid reason) =
      build_payment_error_from_required ctx (reason_or reason "Extension validation failed.")
  with_extensions value payload required m valid =
      with_identifier value payload m
        (validate_payment_identifier_before_reservation ctx.x required payload)

  with_match : String → PaymentPayload → PaymentRequired → Option PaymentRequirements → Prog
  unfolding with_extensions
  with_match value payload required none =
      build_payment_error_from_required ctx "No matching payment requirements."
  with_match value payload required (some m) =
      with_extensions value payload required m (ctx.x.validate_extensions required payload)

  with_required : String → PaymentPayload → Option PaymentRequired → Prog
  unfolding with_match
  with_required value payload none = throw
  with_required value payload (some required) =
      with_match value payload required (ctx.x.find_matching_requirements required.accepts payload)

  with_terms : String → PaymentPayload → List PaymentRequirements → TermsResult → Prog
  unfolding with_required
  with_terms value payload rs (TermsResult.bad reason) =
      build_payment_error_from_required ctx reason
  with_terms value payload rs (TermsResult.ok r) =
      create_required rs none (with_required value payload)

  with_requirements : String → PaymentPayload → Option (List PaymentRequirements) → Prog
  unfolding with_terms
  with_requirements value payload none = throw
  with_requirements value payload (some rs) =
      with_terms value payload rs (validate_base_mainnet_payment_requirements rs ctx.seller_address)

  with_payload : String → Option PaymentPayload → Prog
  unfolding with_requirements
  with_payload value none = build_payment_error_from_required ctx "Malformed payment payload."
  with_payload value (some payload) = build_requirements (with_requirements value payload)

  abbrev trimmed_header : String
  trimmed_header = elim ctx.payment_signature_header [ none ↦ "" | some h ↦ trim h ]

  paid_query : Option String → Prog
  unfolding with_payload
  paid_query none = respond (invalid_query_response ctx.p)
  paid_query (some value) =
      if str_eq trimmed_header ""
      then handle_mainnet_example_unpaid_request ctx
      else with_payload value (ctx.x.decode_payment_signature_header trimmed_header)

  handle_mainnet_example_paid_request : Prog
  unfolding paid_query
  handle_mainnet_example_paid_request =
      if not (is_get ctx)
      then respond (method_not_allowed_response ctx.p)
      else paid_query (validate_mainnet_example_query ctx.query)

  pub handle_mainnet_example_request : Prog
  unfolding handle_mainnet_example_paid_request
  handle_mainnet_example_request =
      if not (str_eq trimmed_header "")
      then handle_mainnet_example_paid_request
      else handle_mainnet_example_unpaid_request ctx
