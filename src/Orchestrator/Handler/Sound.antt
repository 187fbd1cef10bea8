-- ===== src/Orchestrator/Handler/Sound.antt =====
-- mainnet-payment-orchestrator.ts, the whole handler: its settle calls.
use x402_worker_template.Prelude.{
  String, Option, none, some, List, refl, Bool-cases, inl, inr, str_eq,
}
use x402_worker_template.Policy.{
  PaymentRequirements, TermsResult, ok, bad, validate_base_mainnet_payment_requirements,
}
use x402_worker_template.Authorization.{
  PaymentPayload, Authorization, StructuralResult, validate_eip3009_authorization_structure,
}
use x402_worker_template.Sdk.{PaymentRequired, Check, valid, invalid}
use x402_worker_template.Identifier.{
  IdentifierResult, validate_payment_identifier_before_reservation,
}
use x402_worker_template.Orchestrator.Context.{Ctx, is_get, validate_mainnet_example_query}
use x402_worker_template.Orchestrator.Context.Sound.{
  build_payment_error-IsCalm, handle_unpaid-IsCalm,
}
use x402_worker_template.Orchestrator.Attempt.Sound.{attempt-IsCalm, respond-IsCalm, throw-IsCalm}
use x402_worker_template.Orchestrator.Handler.{
  CanonicalKeys, reserve, compute_canonical_keys, with_authorization, with_identifier,
  with_extensions, with_match, with_required, with_terms, with_requirements, with_payload,
  trimmed_header, paid_query, handle_mainnet_example_paid_request, handle_mainnet_example_request,
}
use x402_worker_template.Orchestrator.Sound.{armed, IsCalm}

module _ (ctx : Ctx) (value : String) where
  reserve-IsCalm :
      (id : String) (m : PaymentRequirements) (a : Authorization) (o : Option CanonicalKeys)
      → IsCalm (reserve ctx value id m a o)
  unfolding reserve
  reserve-IsCalm id m a none = throw-IsCalm
  reserve-IsCalm id m a (some keys) = attempt-IsCalm ctx _ _ value

  with_authorization-IsCalm :
      (id : String) (m : PaymentRequirements) (r : StructuralResult)
      → IsCalm (with_authorization ctx value id m r)
  unfolding with_authorization
  with_authorization-IsCalm id m StructuralResult.threw = throw-IsCalm
  with_authorization-IsCalm id m (StructuralResult.bad reason) =
      build_payment_error-IsCalm ctx reason
  with_authorization-IsCalm id m (StructuralResult.ok a) =
      reserve-IsCalm id m a (compute_canonical_keys ctx m a value)

  with_identifier-IsCalm :
      (payload : PaymentPayload) (m : PaymentRequirements) (r : IdentifierResult)
      → IsCalm (with_identifier ctx value payload m r)
  unfolding with_identifier
  with_identifier-IsCalm payload m (IdentifierResult.bad reason) =
      build_payment_error-IsCalm ctx reason
  with_identifier-IsCalm payload m (IdentifierResult.ok id) =
      with_authorization-IsCalm id m (validate_eip3009_authorization_structure payload m)

  with_extensions-IsCalm :
      (payload : PaymentPayload) (required : PaymentRequired) (m : PaymentRequirements) (c : Check)
      → IsCalm (with_extensions ctx value payload required m c)
  unfolding with_extensions
  with_extensions-IsCalm payload required m (invalid reason) = build_payment_error-IsCalm ctx _
  with_extensions-IsCalm payload required m valid =
      with_identifier-IsCalm payload m
        (validate_payment_identifier_before_reservation ctx.x required payload)

  with_match-IsCalm :
      (payload : PaymentPayload) (required : PaymentRequired) (o : Option PaymentRequirements)
      → IsCalm (with_match ctx value payload required o)
  unfolding with_match
  with_match-IsCalm payload required none = build_payment_error-IsCalm ctx _
  with_match-IsCalm payload required (some m) =
      with_extensions-IsCalm payload required m (ctx.x.validate_extensions required payload)

  with_required-IsCalm :
      (payload : PaymentPayload) (o : Option PaymentRequired)
      → IsCalm (with_required ctx value payload o)
  unfolding with_required
  with_required-IsCalm payload none = throw-IsCalm
  with_required-IsCalm payload (some required) =
      with_match-IsCalm payload required (ctx.x.find_matching_requirements required.accepts payload)

  with_terms-IsCalm :
      (payload : PaymentPayload) (rs : List PaymentRequirements) (t : TermsResult)
      → IsCalm (with_terms ctx value payload rs t)
  unfolding with_terms armed
  with_terms-IsCalm payload rs (bad reason) = build_payment_error-IsCalm ctx reason
  with_terms-IsCalm payload rs (ok r) = record {
    sound = λ o. ((with_required-IsCalm payload o).sound, (with_required-IsCalm payload o).unarmed);
    unarmed = λ key. refl;
  }

  with_requirements-IsCalm :
      (payload : PaymentPayload) (o : Option (List PaymentRequirements))
      → IsCalm (with_requirements ctx value payload o)
  unfolding with_requirements
  with_requirements-IsCalm payload none = throw-IsCalm
  with_requirements-IsCalm payload (some rs) =
      with_terms-IsCalm payload rs
        (validate_base_mainnet_payment_requirements rs ctx.seller_address)

  with_payload-IsCalm : (o : Option PaymentPayload) → IsCalm (with_payload ctx value o)
  unfolding with_payload armed
  with_payload-IsCalm none = build_payment_error-IsCalm ctx _
  with_payload-IsCalm (some payload) = record {
    sound = λ o.
        ((with_requirements-IsCalm payload o).sound, (with_requirements-IsCalm payload o).unarmed);
    unarmed = λ key. refl;
  }

module _ (ctx : Ctx) where
  paid_query-IsCalm : (o : Option String) → IsCalm (paid_query ctx o)
  unfolding paid_query
  paid_query-IsCalm none = respond-IsCalm _
  paid_query-IsCalm (some value) = elim (Bool-cases (str_eq (trimmed_header ctx) "")) [
    | inl e ↦ rw e (handle_unpaid-IsCalm ctx)
    | inr e ↦
        rw e (
          with_payload-IsCalm ctx value
            (ctx.x.decode_payment_signature_header (trimmed_header ctx)))
  ]

  handle_paid-IsCalm : IsCalm (handle_mainnet_example_paid_request ctx)
  unfolding handle_mainnet_example_paid_request
  handle_paid-IsCalm = elim (Bool-cases (is_get ctx)) [
    | inl e ↦ rw e (paid_query-IsCalm (validate_mainnet_example_query ctx.query))
    | inr e ↦ rw e (respond-IsCalm _)
  ]

  -- For every request, under every outcome of the outside calls, the handler asks the facilitator
  -- to settle a payment only as its very next step after the coordinator granted it the settle lease
  -- of that attempt.
  pub handle_mainnet_example_request-IsCalm : IsCalm (handle_mainnet_example_request ctx)
  unfolding handle_mainnet_example_request
  handle_mainnet_example_request-IsCalm = elim (Bool-cases (str_eq (trimmed_header ctx) "")) [
    | inl e ↦ rw e (handle_unpaid-IsCalm ctx)
    | inr e ↦ rw e handle_paid-IsCalm
  ]
