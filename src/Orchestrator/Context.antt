-- ===== src/Orchestrator/Context.antt =====
-- mainnet-payment-orchestrator.ts: what one request brings, the query that it must have, and the
-- payment terms that the server quotes for it. The URL of the quoted resource and the HTTP context
-- go to @x402/core alone, and are left out.
pub mod Sound
use x402_worker_template.Prelude.{
  ℕ, String, Bool, true, not, ◌&&◌, Option, none, some, List, [], ◌∷◌, leb, nat_eq, str_eq,
  if◌then◌else◌,
}
use x402_worker_template.Js.{Value, boolean, text, object, end, field, Platform}
use x402_worker_template.Js.Text.{utf16_length, trim, to_upper_case}
use x402_worker_template.Policy.{
  PaymentRequirements, TermsResult, ok, bad, validate_base_mainnet_payment_requirements,
}
use x402_worker_template.Sdk.{Sdk, PaymentRequired}
use x402_worker_template.Orchestrator.Http.{
  method_not_allowed_response, invalid_query_response, payment_required_response,
  policy_error_response,
}
use x402_worker_template.Orchestrator.Prog.{
  Prog, respond, throw, build_requirements, create_required,
}

-- `MainnetOrchestratorContext`: the request, its query parameters as `URL` parses them, and the
-- dependencies. `build_response` is the injected one or `build_mainnet_example_response`.
pub record Ctx : Type 0 where
  pub p : Platform
  pub x : Sdk
  pub seller_address : String
  pub method : String
  pub query : List (String × String)
  pub payment_signature_header : Option String
  pub build_response : String → Option Value

abbrev example_value_max_length : ℕ
example_value_max_length = 256

-- src/routes/example.ts.
unfoldable pub is_valid_example_value : String → Bool
unfolding trim utf16_length
is_valid_example_value raw =
    str_eq raw (trim raw)
    && not (nat_eq (utf16_length raw) 0)
    && leb (utf16_length raw) example_value_max_length

-- One key, `value`, means one pair, and so one value.
unfoldable pub validate_mainnet_example_query : List (String × String) → Option String
validate_mainnet_example_query ((k, v) ∷ []) =
    if str_eq k "value" && is_valid_example_value v then some v else none
validate_mainnet_example_query _ = none

-- src/mainnet/payment.mainnet.ts.
pub build_mainnet_example_response : String → Option Value
build_mainnet_example_response v = some (
    object (
      field "success" (boolean true) (
        field "service" (text "x402 Worker Template") (
          field "input" (object (field "value" (text v) end))
            (field "output" (object (field "value" (text v) end)) end)))))

abbrev pub is_get : Ctx → Bool
is_get ctx = str_eq (to_upper_case ctx.method) "GET"

module _ (ctx : Ctx) where
  -- Requirements outside the policy are an error, and none are quoted.
  quoted_terms :
      List PaymentRequirements
      → Option String
      → (Option PaymentRequired → Prog)
      → TermsResult
      → Prog
  quoted_terms rs error k (bad reason) = k none
  quoted_terms rs error k (ok r) = create_required rs error k

  quoted :
      Option String → (Option PaymentRequired → Prog) → Option (List PaymentRequirements) → Prog
  unfolding quoted_terms
  quoted error k none = k none
  quoted error k (some rs) =
      quoted_terms rs error k (validate_base_mainnet_payment_requirements rs ctx.seller_address)

  build_server_payment_required : Option String → (Option PaymentRequired → Prog) → Prog
  unfolding quoted
  build_server_payment_required error k = build_requirements (quoted error k)

  answer_required : Option PaymentRequired → Prog
  answer_required none = throw
  answer_required (some required) = respond (payment_required_response ctx.p ctx.x required)

  pub build_payment_error_from_required : String → Prog
  unfolding build_server_payment_required answer_required
  build_payment_error_from_required reason =
      build_server_payment_required (some reason) answer_required

  answer_quote_terms : PaymentRequired → TermsResult → Prog
  answer_quote_terms required (bad reason) = respond (policy_error_response ctx.p reason)
  answer_quote_terms required (ok r) = respond (payment_required_response ctx.p ctx.x required)

  answer_quote : Option PaymentRequired → Prog
  unfolding answer_quote_terms
  answer_quote none = throw
  answer_quote (some required) =
      answer_quote_terms required
        (validate_base_mainnet_payment_requirements required.accepts ctx.seller_address)

  unpaid_query : Option String → Prog
  unfolding build_server_payment_required answer_quote
  unpaid_query none = respond (invalid_query_response ctx.p)
  unpaid_query (some v) = build_server_payment_required none answer_quote

  pub handle_mainnet_example_unpaid_request : Prog
  unfolding unpaid_query
  handle_mainnet_example_unpaid_request =
      if not (is_get ctx)
      then respond (method_not_allowed_response ctx.p)
      else unpaid_query (validate_mainnet_example_query ctx.query)
