-- ===== src/Testnet/Page/Steps.antt =====
-- pay-main.ts: the page among the calls that are open: clicks, the provider's events, and answers,
-- in any order. An index names an open call; an answer that does not fit its call is none.
use x402_worker_template.Prelude.{
  ℕ, String, false, Option, none, some, List, [], ◌∷◌, ◌++◌, take_out, if◌then◌else◌,
}
use x402_worker_template.Js.{Value}
use x402_worker_template.Client.Sanitize.{Thrown}
use x402_worker_template.Client.Web.{Answer}
use x402_worker_template.Client.Executor.{PaidRequest}
use x402_worker_template.Testnet.Terms.{load_and_validate_payment_terms}
use x402_worker_template.Testnet.Executor.{Wallet, PaymentExecutionResult, execute_bound_payment}
use x402_worker_template.Testnet.Wallet.{
  PendingWalletAction, connect, switch_network, ExecutionStage,
}
use x402_worker_template.Testnet.Page.{
  Deps, Clients, Payment, Call, requesting_accounts, switching_chain, asking_accounts, asking_chain,
  loading, paying, Page, ConfigAnswer, parse_chain_id, first_account, on_accounts_changed,
  on_chain_changed, end_bootstrap,
}
use x402_worker_template.Testnet.Page.Actions.{
  connect_wallet, click_switch_network, click_load_terms, review_payment, click_sign_and_submit,
  click_reset, end_provider_error, end_load_terms, end_payment,
}

-- The provider's answer to a request.
pub data ProviderAnswer : Type 0 where
  returned : Value → ProviderAnswer
  refused : Thrown → ProviderAnswer

-- The wallet and the network behind a payment are those of its clients.
pub data Event : Type 0 where
  connect_clicked switch_clicked review_clicked sign_clicked reset_clicked : Event
  load_clicked : String → Event
  accounts_changed chain_changed : Value → Event
  config_answered : ConfigAnswer → Event
  provider_answered : ℕ → ProviderAnswer → Event
  terms_answered : ℕ → (String → Answer) → Event
  stage_reported : ℕ → ExecutionStage → Event
  payment_answered : ℕ → (Clients → Wallet) → Event

-- A request that bears a payment, and the payment that it belongs to.
pub record Sent : Type 0 where
  pub payment : Payment
  pub request : PaidRequest

-- `refreshProviderState`, the part up to its first answer. Without a provider it is the end of the
-- action.
unfoldable pub refresh : PendingWalletAction → List Call → Page → Page
refresh a rest w = if w.provider then record w { calls = asking_accounts a ∷ rest } else record w {
  calls = rest;
  state = record w.state { has_provider = false; pending_action = none };
}

abbrev pub set_account : Value → Page → Page
set_account accounts w = record w { state = record w.state { account = first_account accounts } }

-- The answer to a call, which is taken from those that are open.
unfoldable pub answer_provider : Deps → Call → List Call → ProviderAnswer → Page → Page
unfolding refresh first_account parse_chain_id end_provider_error
answer_provider d (loading o) rest a w = w
answer_provider d (paying p) rest a w = w
answer_provider d requesting_accounts rest (returned v) w = refresh connect rest (set_account v w)
answer_provider d switching_chain rest (returned v) w = refresh switch_network rest w
answer_provider d (asking_accounts action) rest (returned v) w = record (set_account v w) {
  calls = asking_chain action ∷ rest;
}
answer_provider d (asking_chain action) rest (returned v) w = record w {
  calls = rest;
  state = record w.state { chain_id = parse_chain_id d v; pending_action = none };
}
answer_provider d call rest (refused error) w = record w {
  calls = rest;
  state = end_provider_error error w.state;
}

unfoldable pub answer_terms : Deps → Call → List Call → (String → Answer) → Page → Page
unfolding end_load_terms
answer_terms d (loading o) rest fetch w = record w {
  calls = rest;
  state = end_load_terms d (load_and_validate_payment_terms d.terms_page o fetch) w.state;
}
answer_terms d call rest fetch w = w

unfoldable pub report_stage : Call → ExecutionStage → Page → Page
report_stage (paying p) stage w = record w {
  state = record w.state { execution_stage = some stage };
}
report_stage call stage w = w

-- A payment that was begun: what it sends, and its result.
unfoldable pub execute : Payment → (Clients → Wallet) → List PaidRequest × PaymentExecutionResult
unfolding execute_bound_payment
execute p wallet =
    execute_bound_payment (wallet p.clients) p.quote p.account p.chain_id p.public_config

unfoldable pub sent_for : Payment → List PaidRequest → List Sent
sent_for p [] = []
sent_for p (r ∷ rs) = record { payment = p; request = r } ∷ sent_for p rs

unfoldable pub answer_payment : Call → List Call → (Clients → Wallet) → Page → List Sent × Page
unfolding execute sent_for end_payment
answer_payment (paying p) rest wallet w =
    let out = execute p wallet in
    (
      sent_for p out.0,
      record w { calls = rest; payment_clients = none; state = end_payment out.1 w.state },
    )
answer_payment call rest wallet w = ([], w)

abbrev pub provider_taken : Deps → ProviderAnswer → Option (Call × List Call) → Page → Page
provider_taken d a none w = w
provider_taken d a (some (call, rest)) w = answer_provider d call rest a w

abbrev pub terms_taken : Deps → (String → Answer) → Option (Call × List Call) → Page → Page
terms_taken d fetch none w = w
terms_taken d fetch (some (call, rest)) w = answer_terms d call rest fetch w

abbrev pub stage_taken : ExecutionStage → Option (Call × List Call) → Page → Page
stage_taken stage none w = w
stage_taken stage (some (call, rest)) w = report_stage call stage w

abbrev pub payment_taken : (Clients → Wallet) → Option (Call × List Call) → Page → List Sent × Page
payment_taken wallet none w = ([], w)
payment_taken wallet (some (call, rest)) w = answer_payment call rest wallet w

abbrev pub answer_config : ConfigAnswer → Page → Page
answer_config a w =
    if w.fetching_config
    then record w { fetching_config = false; state = end_bootstrap a w.state }
    else w

-- One event: the requests that bear a payment and are sent, and the page.
unfoldable pub perform : Deps → Event → Page → List Sent × Page
unfolding answer_provider answer_terms report_stage answer_payment connect_wallet
    click_switch_network review_payment click_sign_and_submit click_reset click_load_terms
    on_accounts_changed on_chain_changed end_bootstrap
perform d connect_clicked w = ([], connect_wallet w)
perform d switch_clicked w = ([], click_switch_network w)
perform d review_clicked w = ([], review_payment w)
perform d sign_clicked w = ([], click_sign_and_submit w)
perform d reset_clicked w = ([], click_reset w)
perform d (load_clicked id) w = ([], click_load_terms d id w)
perform d (accounts_changed v) w = ([], on_accounts_changed v w)
perform d (chain_changed v) w = ([], on_chain_changed d v w)
perform d (config_answered a) w = ([], answer_config a w)
perform d (provider_answered n a) w = ([], provider_taken d a (take_out n w.calls) w)
perform d (terms_answered n fetch) w = ([], terms_taken d fetch (take_out n w.calls) w)
perform d (stage_reported n stage) w = ([], stage_taken stage (take_out n w.calls) w)
perform d (payment_answered n wallet) w = payment_taken wallet (take_out n w.calls) w

-- Events in turn: all requests, and the page in the end.
unfoldable pub perform_all : Deps → List Event → Page → List Sent × Page
unfolding perform
perform_all d [] w = ([], w)
perform_all d (e ∷ es) w =
    let (sent, after) = perform d e w in
    let (later, final) = perform_all d es after in (sent ++ later, final)
