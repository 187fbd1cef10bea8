-- ===== src/Buyer/Run/Tests.antt =====
-- buyer-run.ts: a payment on the local server whose answer is lost.
use x402_worker_template.Prelude.{none, some, [], ◌∷◌, refl}
use x402_worker_template.Js.{undefined}
use x402_worker_template.Js.Text.{utf16_length, is_hex_of, trim, to_lower_case}
use x402_worker_template.Js.Url.{Url}
use x402_worker_template.Client.Sanitize.{Thrown, plain, thrown}
use x402_worker_template.Policy.Tests.{seller}
use x402_worker_template.Buyer.Guards.Laws.{IsAllowed}
use x402_worker_template.Buyer.Run.{
  Environment, FetchRequest, rejected, call, throws, address, World, config_of, run_buyer_payment,
}
use x402_worker_template.Buyer.Run.Laws.{IsTold, run_buyer_payment-IsTold}

abbrev pub local_url : Url
local_url = record {
  href = "http://localhost:8787/v1/example?value=hello";
  origin = "http://localhost:8787";
  protocol = "http:";
  username = "";
  password = "";
  hostname = "localhost";
  port = "8787";
  pathname = "/v1/example";
  search = "?value=hello";
  hash = "";
  search_params = ("value", "hello") ∷ [];
}

abbrev pub environment : Environment
environment = record {
  api_url = some "http://localhost:8787/v1/example?value=hello";
  evm_private_key = some "0x1111111111111111111111111111111111111111111111111111111111111111";
  expected_pay_to_address = some seller;
  allow_testnet_payment = some "true";
  x402_network = none;
  expected_remote_api_origin = none;
}

abbrev unpaid_request : FetchRequest
unpaid_request = record {
  url = "http://localhost:8787/v1/example?value=hello";
  payment_signature = none;
}

abbrev paid_request : FetchRequest
paid_request = record unpaid_request { payment_signature = some "signature" }

abbrev lost : Thrown
lost = thrown "socket hang up" undefined undefined undefined (plain "")

abbrev world : World
world = record {
  parse_url = λ s. some local_url;
  private_key_to_account = λ key. address "0x00000000000000000000000000000000000000bb";
  wrapped = λ account pay_to url. call unpaid_request (λ a. call paid_request (λ b. throws lost));
  fetch = λ r. rejected lost;
  parse = λ s. none;
  decode_payment_response_header = λ h. none;
}

run_buyer_payment-IsTold_example :
    IsAllowed world.parse_url (config_of environment)
    × IsTold world environment (paid_request ∷ []) (run_buyer_payment world environment).1
unfolding run_buyer_payment utf16_length is_hex_of trim to_lower_case
run_buyer_payment-IsTold_example =
    run_buyer_payment-IsTold world environment unpaid_request (paid_request ∷ []) refl
