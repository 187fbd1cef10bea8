-- ===== src/Client/Executor/Tests.antt =====
-- mainnet-payment-executor.ts: a payment that succeeds.
use x402_worker_template.Prelude.{none}
use x402_worker_template.Policy.Tests.{seller}
use x402_worker_template.Client.Web.{Delivery, delivered}
use x402_worker_template.Client.Executor.{normal, PaidRequest, execute_mainnet_payment_attempt}
use x402_worker_template.Client.Executor.Laws.{IsAttempt, execute-IsAttempt}
use x402_worker_template.Client.Terms.Tests.{web, terms}

-- The server answers 200, with no JSON body.
abbrev pub answer : PaidRequest → Delivery
answer r = delivered 200 none (λ name. none)

execute-IsAttempt_example :
    IsAttempt web terms.request_url "pay_0123456789abcdef" normal answer
      (execute_mainnet_payment_attempt web seller terms normal answer "pay_0123456789abcdef" 0)
execute-IsAttempt_example =
    execute-IsAttempt web seller terms normal answer "pay_0123456789abcdef" 0
