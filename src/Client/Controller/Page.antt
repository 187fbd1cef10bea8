-- ===== src/Client/Controller/Page.antt =====
-- The controller among the calls that are open: clicks, and what the network answers, in any order.
-- An index names an open submission or a running poller.
use x402_worker_template.Prelude.{
  ℕ, suc, ◌-◌, ◌+◌, String, Option, none, some, List, [], ◌∷◌, ◌++◌, leb, nat_eq, take_out,
  if◌then◌else◌,
}
use x402_worker_template.Client.Web.{Answer, Delivery}
use x402_worker_template.Client.Session.{Storage}
use x402_worker_template.Client.Terms.{MainnetValidatedTerms, load_and_validate_mainnet_terms}
use x402_worker_template.Client.Executor.{
  SubmissionMode, PaidRequest, signing_calls, sign, execute_mainnet_payment_attempt,
}
use x402_worker_template.Client.Poller.{PollCall, StatusPollResult, Round, poll_payment_status}
use x402_worker_template.Client.State.{can_load_mainnet_terms, can_submit_mainnet_payment}
use x402_worker_template.Client.Controller.{
  Deps, Controller, new_controller, recover_pending_session_on_load, begin_load, end_load,
  begin_submit, end_submit, reset,
}
use x402_worker_template.Client.Controller.Polling.{handle_poll_call, handle_poll_result}

-- A call of `submitPayment` that waits for its executor.
pub record Submission : Type 0 where
  pub identifier : String
  pub terms : MainnetValidatedTerms
  pub mode : SubmissionMode

-- How many calls of `loadTerms` wait, the submissions that do, and the numbers of the pollers that
-- run.
pub record Page : Type 0 where
  pub controller : Controller
  pub loading : ℕ
  pub submitting : List Submission
  pub polling : List ℕ

-- A click, or an answer. A submission takes a fresh identifier; a session is saved at a time.
pub data Event : Type 0 where
  load_clicked : Event
  load_answered : (String → Answer) → Event
  submit_clicked : SubmissionMode → String → String → Event
  submit_answered : ℕ → (PaidRequest → Delivery) → String → Event
  poll_called : ℕ → PollCall → Event
  poll_ended : ℕ → (ℕ → Round) → Event
  reset_clicked : Event

-- The pollers that run, with the one that a handler started, if it started one.
abbrev pub pollers : Controller → Controller → List ℕ → List ℕ
pollers before after running =
    if leb after.polls before.polls then running else before.polls ∷ running

-- The page when it is opened over a session storage, at a time.
unfoldable pub open_page : Deps → ℕ → Storage → Page
unfolding new_controller recover_pending_session_on_load
open_page d now storage =
    let c = recover_pending_session_on_load d now (new_controller storage) in
    record {
      controller = c;
      loading = 0;
      submitting = [];
      polling = pollers (new_controller storage) c [];
    }

abbrev click_load : Page → Page
click_load w =
    if can_load_mainnet_terms w.controller.state
    then record w { controller = begin_load w.controller; loading = suc w.loading }
    else w

abbrev answer_load : Deps → (String → Answer) → Page → Page
answer_load d fetch w = if nat_eq w.loading 0 then w else record w {
  controller =
      end_load
        (load_and_validate_mainnet_terms d.x d.web d.seller_address fetch d.origin d.query_value)
        w.controller;
  loading = w.loading - 1;
}

abbrev pub submit_terms :
    Deps → SubmissionMode → String → String → Option MainnetValidatedTerms → Page → Page
submit_terms d mode fresh created_at none w = w
submit_terms d mode fresh created_at (some terms) w =
    let (id, c) = begin_submit d fresh created_at w.controller in
    record w {
      controller = c;
      submitting = record { identifier = id; terms = terms; mode = mode } ∷ w.submitting;
    }

abbrev click_submit : Deps → SubmissionMode → String → String → Page → Page
click_submit d mode fresh created_at w =
    if can_submit_mainnet_payment w.controller.state
    then submit_terms d mode fresh created_at w.controller.state.terms w
    else w

-- The executor of a submission that was waiting: what it sends, and the page with its result.
unfoldable pub answer_submission :
    Deps
    → (PaidRequest → Delivery)
    → String
    → Submission
    → List Submission
    → Page
    → List PaidRequest × Page
unfolding end_submit sign execute_mainnet_payment_attempt
answer_submission d fetch created_at s rest w =
    let c = w.controller in
    let out =
      execute_mainnet_payment_attempt d.web d.seller_address s.terms s.mode fetch s.identifier
        c.invocation_count in
    let calls = signing_calls (sign d.web d.seller_address s.terms s.identifier) in
    let signed = record c { invocation_count = c.invocation_count + calls } in
    let after = end_submit d s.identifier created_at out.1 signed in
    (out.0, record w { controller = after; submitting = rest; polling = pollers c after w.polling })

abbrev pub answer_taken :
    Deps
    → (PaidRequest → Delivery)
    → String
    → Option (Submission × List Submission)
    → Page
    → List PaidRequest × Page
answer_taken d fetch created_at none w = ([], w)
answer_taken d fetch created_at (some (s, rest)) w = answer_submission d fetch created_at s rest w

abbrev pub call_taken : PollCall → Option (ℕ × List ℕ) → Page → Page
call_taken call none w = w
call_taken call (some taken) w = record w { controller = handle_poll_call call w.controller }

abbrev pub end_taken : StatusPollResult → Option (ℕ × List ℕ) → Page → Page
end_taken r none w = w
end_taken r (some (k, rest)) w = record w {
  controller = handle_poll_result r w.controller;
  polling = rest;
}

-- One event: the requests that bear a payment and are sent, and the page.
unfoldable pub perform : Deps → Event → Page → List PaidRequest × Page
unfolding answer_submission begin_load end_load begin_submit reset handle_poll_call
    handle_poll_result
perform d load_clicked w = ([], click_load w)
perform d (load_answered fetch) w = ([], answer_load d fetch w)
perform d (submit_clicked mode fresh created_at) w = ([], click_submit d mode fresh created_at w)
perform d (submit_answered n fetch created_at) w =
    answer_taken d fetch created_at (take_out n w.submitting) w
perform d (poll_called n call) w = ([], call_taken call (take_out n w.polling) w)
perform d (poll_ended n rounds) w =
    ([], end_taken (poll_payment_status d.max_polls rounds) (take_out n w.polling) w)
perform d reset_clicked w = ([], record w { controller = reset w.controller })

-- Events in turn: all requests, and the page in the end.
unfoldable pub perform_all : Deps → List Event → Page → List PaidRequest × Page
unfolding perform
perform_all d [] w = ([], w)
perform_all d (e ∷ es) w =
    let (sent, after) = perform d e w in
    let (later, final) = perform_all d es after in (sent ++ later, final)
