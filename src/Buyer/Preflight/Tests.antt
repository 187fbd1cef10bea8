-- ===== src/Buyer/Preflight/Tests.antt =====
-- buyer-preflight.ts: a buyer that can pay, and a token of five decimals.
use x402_worker_template.Prelude.{ℕ, none, some, [], ◌∷◌, ◌≡◌, refl, str_eq, if◌then◌else◌}
use x402_worker_template.Js.{get}
use x402_worker_template.Js.Text.{utf16_length, is_hex_of, trim, to_lower_case, decimal}
use x402_worker_template.Policy.{normalize_address}
use x402_worker_template.Testnet.Policy.{
  matches_base_sepolia_payment_terms, validate_base_sepolia_payment_requirements,
}
use x402_worker_template.Testnet.Quote.Tests.{requirement}
use x402_worker_template.Buyer.Run.{response, read, address}
use x402_worker_template.Buyer.Run.Tests.{local_url, environment}
use x402_worker_template.Buyer.Preflight.{fail, World, gives, run_buyer_preflight}
use x402_worker_template.Buyer.Preflight.Laws.{IsReady, run_buyer_preflight-IsReady}

-- The chain with a token of some decimals and a balance in its units.
abbrev world : ℕ → ℕ → World
world decimals balance = record {
  parse_url = λ s. some local_url;
  fetch = λ r. response (record {
    status = 402;
    body = read "";
    headers = λ name. if str_eq name "payment-required" then some "header" else none;
  });
  decode_payment_required_header = λ h. gives (requirement ∷ []);
  private_key_to_account = λ key. address "0x00000000000000000000000000000000000000bb";
  get_chain_id = gives 84532;
  read_decimals = gives decimals;
  read_balance_of = λ a. gives balance;
  construct_client = λ pay_to. none;
}

run_buyer_preflight-IsReady_example :
    IsReady
      (world 6 1000)
      environment
      (run_buyer_preflight (world 6 1000) environment environment).0
unfolding run_buyer_preflight utf16_length is_hex_of trim to_lower_case decimal
    matches_base_sepolia_payment_terms validate_base_sepolia_payment_requirements get
    normalize_address
run_buyer_preflight-IsReady_example =
    run_buyer_preflight-IsReady (world 6 1000) environment environment refl

-- 0.001 of a token of five decimals is 100 units; the preflight asks for 10,000.
refuses_enough_of_five_decimals :
    (run_buyer_preflight (world 5 9999) environment environment).1.overall ≡ fail
unfolding run_buyer_preflight utf16_length is_hex_of trim to_lower_case decimal
    matches_base_sepolia_payment_terms validate_base_sepolia_payment_requirements get
    normalize_address
refuses_enough_of_five_decimals = refl
