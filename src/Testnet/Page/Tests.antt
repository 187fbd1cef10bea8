-- ===== src/Testnet/Page/Tests.antt =====
-- pay-main.ts: a page that is connected, loads its terms, has them reviewed, and pays once though
-- the button is clicked twice.
use x402_worker_template.Prelude.{
  ◌+◌, ◌≤◌, true, none, some, List, [], ◌∷◌, All, length, str_eq, if◌then◌else◌,
}
use x402_worker_template.Js.{array, cons, nil, text}
use x402_worker_template.Client.Sanitize.{plain}
use x402_worker_template.Testnet.Quote.Tests.{config, buyer}
use x402_worker_template.Testnet.Terms.Tests.{page, answer}
use x402_worker_template.Testnet.Executor.Tests.{wallet}
use x402_worker_template.Testnet.Page.{Deps, configured, new_page}
use x402_worker_template.Testnet.Page.Steps.{
  Event, connect_clicked, review_clicked, sign_clicked, reset_clicked, load_clicked,
  config_answered, provider_answered, returned, terms_answered, payment_answered, perform_all,
}
use x402_worker_template.Testnet.Page.Once.{IsAuthorized, resets, new_page-sends_once}

abbrev deps : Deps
deps = record {
  parse_int = λ base s. if str_eq s "0x14a34" then some 84532 else none;
  to_number = λ s. none;
  terms_page = page;
  invalid_url = plain "Invalid URL";
  origin = "https://pay.example";
}

abbrev accounts : Event
accounts = provider_answered 0 (returned (array (cons (text buyer) nil)))

abbrev clicks : List Event
clicks =
    config_answered (configured config)
    ∷ connect_clicked
    ∷ accounts
    ∷ accounts
    ∷ provider_answered 0 (returned (text "0x14a34"))
    ∷ load_clicked "quote-1"
    ∷ terms_answered 0 answer
    ∷ review_clicked
    ∷ sign_clicked
    ∷ sign_clicked
    ∷ payment_answered 0 (λ c. wallet)
    ∷ sign_clicked
    ∷ reset_clicked
    ∷ []

new_page-sends_once_example :
    All IsAuthorized (perform_all deps clicks (new_page true)).0
    × (length (perform_all deps clicks (new_page true)).0 ≤ 1 + resets clicks)
new_page-sends_once_example = new_page-sends_once deps true clicks
