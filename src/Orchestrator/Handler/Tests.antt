-- ===== src/Orchestrator/Handler/Tests.antt =====
-- Two requests handled at once.
use x402_worker_template.Prelude.{◌≤◌, true, some, List, [], ◌∷◌, ◌≡◌, refl}
use x402_worker_template.Js.Text.{to_upper_case, trim, utf16_length}
use x402_worker_template.Receipt.Tests.{platform}
use x402_worker_template.Authorization.Tests.{payload}
use x402_worker_template.Policy.{PaymentRequirements, build_mainnet_example_requirement}
use x402_worker_template.Policy.Tests.{seller}
use x402_worker_template.Sdk.{Sdk, valid}
use x402_worker_template.Coordinator.Types.{CoordinatorRpcRequest}
use x402_worker_template.Coordinator.Tests.{encode, env, key, input}
use x402_worker_template.Coordinator.History.{call, run, step, start, run-start-Inv}
use x402_worker_template.Coordinator.History.Settlement.{call-KeepsRecord}
use x402_worker_template.Orchestrator.Prog.{Prog, throw, build_requirements}
use x402_worker_template.Orchestrator.Context.{
  Ctx, build_mainnet_example_response, is_valid_example_value, validate_mainnet_example_query,
}
use x402_worker_template.Orchestrator.Handler.{
  handle_mainnet_example_request, handle_mainnet_example_paid_request, paid_query, with_payload,
  with_requirements,
}
use x402_worker_template.Orchestrator.Handler.Sound.{handle_mainnet_example_request-IsCalm}
use x402_worker_template.Orchestrator.Sound.{IsCalm}
use x402_worker_template.Orchestrator.System.{
  System, here, builds, dies, arrives, goes_on, called, Reaches, done, more, times,
}
use x402_worker_template.Orchestrator.System.Once.{settles_at_most_once}

abbrev pub sdk : Sdk
sdk = record {
  decode_payment_signature_header = λ h. some payload;
  encode_payment_required_header = λ r. "required";
  encode_payment_response_header = encode;
  find_matching_requirements = λ rs p. some (build_mainnet_example_requirement seller);
  validate_extensions = λ r p. valid;
  is_payment_identifier_required = λ v. true;
  validate_payment_identifier_requirement = λ p required. valid;
  is_valid_payment_id = λ id. true;
  extract_payment_identifier = λ p required. some "payment-1";
}

abbrev request : Ctx
request = record {
  p = platform;
  x = sdk;
  seller_address = seller;
  method = "get";
  query = ("value", "hello") ∷ [];
  payment_signature_header = some " signature ";
  build_response = build_mainnet_example_response;
}

handle_mainnet_example_request-IsCalm_example : IsCalm (handle_mainnet_example_request request)
handle_mainnet_example_request-IsCalm_example = handle_mainnet_example_request-IsCalm request

-- The server's terms come first: the request has a valid method, query and header.
asks_for_terms :
    handle_mainnet_example_request request
    ≡ build_requirements (with_requirements request "hello" payload)
unfolding handle_mainnet_example_request handle_mainnet_example_paid_request paid_query with_payload
    to_upper_case trim validate_mainnet_example_query is_valid_example_value utf16_length
asks_for_terms = refl

abbrev serving : List Prog → System
serving qs = record { coordinator = start; requests = qs; settled = [] }

-- Two requests arrive; the worker of the first dies, the second gets the terms, and a third party
-- reserves the attempt.
abbrev first : Prog
first = handle_mainnet_example_request request

abbrev terms : List PaymentRequirements
terms = build_mainnet_example_requirement seller ∷ []

abbrev prepared : System
prepared = record {
  coordinator = step platform encode (call env (CoordinatorRpcRequest.prepare_attempt input)) start;
  requests = with_requirements request "hello" payload (some terms) ∷ throw ∷ [];
  settled = [];
}

interleaves : Reaches platform encode key (serving []) prepared
interleaves =
    more (arrives request) (λ h. h)
      (more (goes_on dies here) (λ h. h)
        (more (arrives request) (λ h. h)
          (more {t = serving (with_requirements request "hello" payload (some terms) ∷ throw ∷ [])}
            (goes_on (rw asks_for_terms (builds (some terms))) here) (λ h. h)
            (more (called env (CoordinatorRpcRequest.prepare_attempt input))
              (call-KeepsRecord platform encode key env
                (CoordinatorRpcRequest.prepare_attempt input) start (λ h. h))
              done))))

settles_at_most_once_example : times key [] ≤ 1
unfolding run
settles_at_most_once_example =
    settles_at_most_once platform encode key start prepared (run-start-Inv platform encode [])
      interleaves
