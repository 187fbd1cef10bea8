-- ===== src/Lib.antt =====
-- The paid mainnet route of the x402 worker template, and its client in the browser.
--
-- A buyer calls GET /v1/example with a signed payment. The worker checks the payment, reserves the
-- attempt with the payment coordinator (a Durable Object over one SQL table), has the facilitator
-- verify the payment, stages the response, has the facilitator settle the payment, records the
-- receipt and answers. The coordinator leases the verification and the settlement to one worker
-- each. A repeated request is answered by the state of its record, from the staged response where
-- the payment is fulfilled.
--
-- The page of the buyer loads the terms, signs and submits one payment, and remembers it in the
-- session storage. Where the answer is lost it asks the status route, which shows the state of the
-- coordinator's record, until the outcome is known; it never submits again by itself.
--
-- The files and the code that they model, by the path from the repository's root:
--   Js, Js/Text, Js/Url  what the sources use of JavaScript: values, text, regular expressions, URLs
--   Policy               src/mainnet/payment-policy.mainnet.ts, payment.mainnet.ts
--   Authorization        src/mainnet/idempotency/eip3009-authorization.ts
--   Identifier           src/mainnet/idempotency/payment-identifier*.ts
--   Canonical, Keys      src/mainnet/idempotency/canonical-json.ts, canonical-keys.ts
--   Receipt, Replay      src/mainnet/idempotency/settlement-receipt.ts, replay-response.ts
--   Coordinator          src/mainnet/durable: the rows and requests (Types), the SQL (Table),
--                        the storage (State), prepareAttempt (Prepare), the operations before and
--                        from settlement on (Verify, Settle), getReplay, the status and the cleanup
--                        (Query), handleRpc (Rpc); histories of calls and alarms (History)
--   Orchestrator         src/mainnet/idempotency/mainnet-payment-orchestrator.ts: the responses
--                        (Http), the outside calls (Prog), the terms (Context), the steps from the
--                        reservation on (Attempt), the checks before it (Handler); many requests
--                        over one coordinator (System)
--   Status               src/mainnet/routes/pay-status.ts
--   Client               src/mainnet/browser: mainnet-terms-loader.ts (Terms), mainnet-pay-settlement.ts
--                        (Settlement), mainnet-payment-executor.ts (Executor), payment-id-session.ts
--                        (Session), pay-status-client.ts and pay-status-poller.ts (Poller),
--                        mainnet-pay-state.ts (State), mainnet-pay-controller.ts (Controller; its
--                        calls among each other in Controller/Page); src/browser/sanitize-error.ts
--                        (Sanitize); what the browser and the packages do (Web), parameters
--   Testnet              src/config.ts and pay-public-config.ts (Config), src/payment-policy.ts
--                        (Policy), and of src/browser: pay-quote.ts (Quote), pay-settlement.ts
--                        (Settlement), pay-executor.ts (Executor), terms-loader.ts (Terms),
--                        pay-wallet-state.ts (Wallet), pay-main.ts (Page; its buttons in
--                        Page/Actions, its calls among each other in Page/Steps); the paid
--                        route of the server in Server: src/routes/example.ts, errors.ts,
--                        payment.ts and index.ts
--   Facilitator          src/mainnet: proof-facilitator-errors (Errors), -response-validation
--                        (Responses), -http and -candidate (Http; the reading of a body in
--                        Http/Body), -client (Client), each with .mainnet.ts
--   Buyer                src/buyer-guards.ts (Guards), buyer-diagnostics.ts (Redaction,
--                        Diagnostics), buyer-run.ts (Run), buyer-preflight.ts (Preflight)
--   Logging              src/logging.ts
--   Sdk                  the calls of @x402/core and @x402/extensions, parameters of the model
-- Functions carry the names of the source in snake case. A function of the source that branches
-- after each call is split into one function per step, named after what the step comes after.
--
-- Modelling choices:
--   * A call of the coordinator is atomic: a Durable Object runs its synchronous SQL without
--     interruption, and prepareAttempt awaits only the hash of its input before its first SELECT.
--     Between two calls, other requests may run: each await of the handler is one step of Prog.
--   * An instant is a number of milliseconds, since ISO texts order as their instants do. The clock
--     and the random bytes of a token are arguments of a call (Env), and no bound is put on them.
--   * A table is a list of rows; INSERT fails where the primary key or a unique index is violated,
--     as the schema declares.
--   * SHA-256, JSON.parse and JSON.stringify are parameters (Platform). Theorems that need the
--     texts of receipts to parse back say so.
--   * completeFulfillmentWithRetries runs on its retry limit, 3, so no fuel is assumed.
--   * The key at settle_payment tells which attempt is settled. The call itself does not carry it.
--   * Text is compared by value; toLowerCase and toUpperCase are modelled on ASCII letters, which
--     addresses and HTTP methods consist of.
--   * In the page, what stands before an await and what stands behind it are two events, and every
--     answer is an argument of its event, so that answers come in any order, late ones included. An
--     abort controller is its number; whether a poller sees the abort is part of its passes.
--   * The poller runs on its `maxPolls`, which is the loop's own bound. The time between two lookups
--     is not modelled.
--   * The session storage is what stands under its one key; Date.parse is a parameter.
--   * A body is a finite stream of chunks that ends or fails; the timer that aborts a request to the
--     facilitator is the platform's, which then throws.
--   * The fetch of @x402/fetch is a tree of calls of the fetch that it is given, so that every way
--     of calling it is covered.
-- Not modelled: the transport of a call as JSON over fetch, the parsing of URLs, the markup and the
-- drawing of the pages, the .env files of the command line, the middleware of @x402/hono (a
-- parameter).
pub mod Prelude
pub mod Js
pub mod Receipt
pub mod Sdk
pub mod Identifier
pub mod Canonical
pub mod Keys
pub mod Policy
pub mod Authorization
pub mod Replay
pub mod Coordinator
pub mod Orchestrator
pub mod Status
pub mod Client
pub mod Testnet
pub mod Facilitator
pub mod Buyer
pub mod Logging
