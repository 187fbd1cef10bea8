-- ===== src/Testnet/Executor/Tests.antt =====
-- pay-executor.ts: the payment of a quote.
use x402_worker_template.Prelude.{true, false, none, some}
use x402_worker_template.Js.{boolean, end, field}
use x402_worker_template.Authorization.Tests.{payload}
use x402_worker_template.Testnet.Quote.Tests.{config, buyer, quote}
use x402_worker_template.Testnet.Executor.{
  Wallet, delivered, signed, processed, execute_bound_payment,
}
use x402_worker_template.Testnet.Executor.Laws.{IsBound, execute_bound_payment-IsBound}

abbrev pub wallet : Wallet
wallet = record {
  create_payment_payload = λ r. signed payload;
  encode_payment_signature_header = λ p. "signature";
  fetch = λ r. delivered 200 none (λ name. none);
  process_payment_result =
      λ p headers status. processed false (some (field "success" (boolean true) end));
}

execute_bound_payment-IsBound_example :
    IsBound wallet quote buyer config.chain_id config
      (execute_bound_payment wallet quote buyer config.chain_id config)
execute_bound_payment-IsBound_example =
    execute_bound_payment-IsBound wallet quote buyer config.chain_id config
