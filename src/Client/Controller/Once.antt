-- ===== src/Client/Controller/Once.antt =====
-- mainnet-pay-controller.ts: how many payments the page submits.
use x402_worker_template.Prelude.{
  ℕ, suc, ◌+◌, ◌≤◌, String, true, Option, none, some, List, [], ◌∷◌, ◌≡◌, refl, arith, inl, inr,
  length, length-append, take_out, length-take_out, nat_eq, Bool-cases, if◌then◌else◌,
}
use x402_worker_template.Policy.{mainnet_paid_route}
use x402_worker_template.Client.Web.{Delivery}
use x402_worker_template.Client.Session.{
  PendingMainnetPaymentSession, Storage, read_pending_mainnet_payment_session,
}
use x402_worker_template.Client.Terms.{
  MainnetValidatedTerms, MainnetTermsLoadResult, load_and_validate_mainnet_terms,
}
use x402_worker_template.Client.Executor.{
  SubmissionMode, FailureStatus, PaidRequest, MainnetPaymentExecutionResult, succeeded, failed,
  signing_calls, sign, execute_mainnet_payment_attempt,
}
use x402_worker_template.Client.Executor.Laws.{length-IsAttempt, execute-IsAttempt}
use x402_worker_template.Client.Settlement.{ResultCheck, validate_fulfilled_status_result}
use x402_worker_template.Js.{Fields, get}
use x402_worker_template.Client.Poller.{
  PollCall, on_poll, on_in_progress, StatusPollResult, poll_payment_status,
}
use x402_worker_template.Client.State.{can_load_mainnet_terms, can_submit_mainnet_payment}
use x402_worker_template.Client.Controller.{
  Deps, Controller, new_controller, recover_pending_session_on_load, end_load, begin_submit,
  end_submit, start_status_polling,
}
use x402_worker_template.Client.Controller.Polling.{
  handle_poll_call, handle_fulfilled, handle_poll_result,
}
use x402_worker_template.Client.Controller.Page.{
  Submission, Page, Event, load_clicked, load_answered, submit_clicked, submit_answered,
  poll_called, poll_ended, reset_clicked, submit_terms, answer_taken, call_taken, end_taken,
  answer_submission, open_page, perform, perform_all,
}

-- How many attempts the controller may still start without a reset.
abbrev pub room : Controller → ℕ
room c = if c.state.attempt_started then 0 else 1

pub room-end_load :
    (r : Option MainnetTermsLoadResult) (c : Controller) → room (end_load r c) ≡ room c
unfolding end_load
room-end_load none c = refl
room-end_load (some (MainnetTermsLoadResult.ok t)) c = refl
room-end_load (some (MainnetTermsLoadResult.bad r)) c = refl

pub room-end_submit :
    (d : Deps) (id created_at : String) (r : MainnetPaymentExecutionResult) (c : Controller)
    → room (end_submit d id created_at r c) ≡ room c
unfolding end_submit start_status_polling
room-end_submit d id created_at (succeeded body view n) c = refl
room-end_submit d id created_at (failed FailureStatus.failure r s n) c = refl
room-end_submit d id created_at (failed FailureStatus.potentially_submitted r s n) c = refl

pub room-handle_poll_call :
    (call : PollCall) (c : Controller) → room (handle_poll_call call c) ≡ room c
unfolding handle_poll_call
room-handle_poll_call (on_poll n) c = refl
room-handle_poll_call (on_in_progress s n) c = refl

room-handle_fulfilled :
    (body : Fields) (n : ℕ) (r : ResultCheck) (c : Controller)
    → room (handle_fulfilled body n r c) ≡ room c
room-handle_fulfilled body n (ResultCheck.ok v) c = refl
room-handle_fulfilled body n (ResultCheck.bad r) c = refl

pub room-handle_poll_result :
    (r : StatusPollResult) (c : Controller) → room (handle_poll_result r c) ≡ room c
unfolding handle_poll_result
room-handle_poll_result (StatusPollResult.fulfilled body n) c =
    room-handle_fulfilled body n (validate_fulfilled_status_result (get "result" body)) c
room-handle_poll_result (StatusPollResult.cancelled n) c = refl
room-handle_poll_result (StatusPollResult.failed_definitive body n) c = refl
room-handle_poll_result (StatusPollResult.expired body n) c = refl
room-handle_poll_result (StatusPollResult.uncertain body n) c = refl
room-handle_poll_result (StatusPollResult.malformed body n) c = refl
room-handle_poll_result (StatusPollResult.not_seen_limit n) c = refl

-- A submission starts only where there is room for one, and leaves none.
pub room-can_submit : (c : Controller) → can_submit_mainnet_payment c.state ≡ true → room c ≡ 1
unfolding can_submit_mainnet_payment
room-can_submit c h = ground arith

pub room-begin_submit :
    (d : Deps) (fresh created_at : String) (c : Controller)
    → room (begin_submit d fresh created_at c).1 ≡ 0
unfolding begin_submit
room-begin_submit d fresh created_at c = refl

-- The requests that bear a payment and that may still be sent without a reset.
abbrev spare : Page → ℕ
spare w = length w.submitting + room w.controller

unfoldable pub resets : List Event → ℕ
resets [] = 0
resets (reset_clicked ∷ es) = suc (resets es)
resets (e ∷ es) = resets es

answer_submission-spare :
    (d : Deps) (fetch : PaidRequest → Delivery) (created_at : String) (s : Submission)
    (rest : List Submission) (w : Page)
    → length (answer_submission d fetch created_at s rest w).0
        + spare (answer_submission d fetch created_at s rest w).1
      ≤ suc (length rest + room w.controller)
unfolding answer_submission
answer_submission-spare d fetch created_at s rest w =
    let c = w.controller in
    let calls = signing_calls (sign d.web d.seller_address s.terms s.identifier) in
    let signed = record c { invocation_count = c.invocation_count + calls } in
    let out =
      execute_mainnet_payment_attempt d.web d.seller_address s.terms s.mode fetch s.identifier
        c.invocation_count in
    let one : length out.0 ≤ 1 = length-IsAttempt (
      execute-IsAttempt d.web d.seller_address s.terms s.mode fetch s.identifier
        c.invocation_count) in
    let same : room (end_submit d s.identifier created_at out.1 signed) ≡ room c =
      room-end_submit d s.identifier created_at out.1 signed in
    omega arith

answer_taken-spare :
    (d : Deps) (n : ℕ) (fetch : PaidRequest → Delivery) (created_at : String)
    (o : Option (Submission × List Submission)) (w : Page)
    → take_out n w.submitting ≡ o
    → length (answer_taken d fetch created_at o w).0 + spare (answer_taken d fetch created_at o w).1
      ≤ spare w + 0
unfolding length
answer_taken-spare d n fetch created_at none w e = omega arith
answer_taken-spare d n fetch created_at (some (s, rest)) w e =
    let waiting : length w.submitting ≡ suc (length rest) =
      length-take_out n w.submitting s rest e in
    let bound = answer_submission-spare d fetch created_at s rest w in omega arith

call_taken-spare :
    (call : PollCall) (o : Option (ℕ × List ℕ)) (w : Page)
    → 0 + spare (call_taken call o w) ≤ spare w + 0
call_taken-spare call none w = omega arith
call_taken-spare call (some taken) w =
    let same : room (handle_poll_call call w.controller) ≡ room w.controller =
      room-handle_poll_call call w.controller in
    omega arith

end_taken-spare :
    (r : StatusPollResult) (o : Option (ℕ × List ℕ)) (w : Page)
    → 0 + spare (end_taken r o w) ≤ spare w + 0
end_taken-spare r none w = omega arith
end_taken-spare r (some (k, rest)) w =
    let same : room (handle_poll_result r w.controller) ≡ room w.controller =
      room-handle_poll_result r w.controller in
    omega arith

submit_terms-spare :
    (d : Deps) (mode : SubmissionMode) (fresh created_at : String)
    (t : Option MainnetValidatedTerms) (w : Page)
    → room w.controller ≡ 1
    → 0 + spare (submit_terms d mode fresh created_at t w) ≤ spare w + 0
unfolding length
submit_terms-spare d mode fresh created_at none w h = omega arith
submit_terms-spare d mode fresh created_at (some t) w h =
    let gone : room (begin_submit d fresh created_at w.controller).1 ≡ 0 =
      room-begin_submit d fresh created_at w.controller in
    omega arith

-- What an event sends, and leaves to send, was there before, or is given by a reset.
perform-spare :
    (d : Deps) (e : Event) (w : Page)
    → length (perform d e w).0 + spare (perform d e w).1 ≤ spare w + resets (e ∷ [])
unfolding perform length resets
perform-spare d load_clicked w = elim (Bool-cases (can_load_mainnet_terms w.controller.state)) [
  | inl e ↦ rw e (omega arith)
  | inr e ↦ rw e (omega arith)
]
perform-spare d (load_answered fetch) w = elim (Bool-cases (nat_eq w.loading 0)) [
  | inl e ↦ rw e (omega arith)
  | inr e ↦
      let r =
        load_and_validate_mainnet_terms d.x d.web d.seller_address fetch d.origin d.query_value in
      let same : room (end_load r w.controller) ≡ room w.controller =
        room-end_load r w.controller in
      rw e (omega arith)
]
perform-spare d (submit_clicked mode fresh created_at) w =
    elim (Bool-cases (can_submit_mainnet_payment w.controller.state)) [
      | inl e ↦ rw e (
          submit_terms-spare d mode fresh created_at w.controller.state.terms w
            (room-can_submit w.controller e))
      | inr e ↦ rw e (omega arith)
    ]
perform-spare d (submit_answered n fetch created_at) w =
    answer_taken-spare d n fetch created_at (take_out n w.submitting) w refl
perform-spare d (poll_called n call) w = call_taken-spare call (take_out n w.polling) w
perform-spare d (poll_ended n rounds) w =
    end_taken-spare (poll_payment_status d.max_polls rounds) (take_out n w.polling) w
perform-spare d reset_clicked w = omega arith

pub resets-cons : (e : Event) (es : List Event) → resets (e ∷ es) ≡ resets (e ∷ []) + resets es
unfolding resets
resets-cons reset_clicked es = omega arith
resets-cons load_clicked es = omega arith
resets-cons (load_answered fetch) es = omega arith
resets-cons (submit_clicked mode fresh created_at) es = omega arith
resets-cons (submit_answered n fetch created_at) es = omega arith
resets-cons (poll_called n call) es = omega arith
resets-cons (poll_ended n rounds) es = omega arith

-- The requests that are sent were left to send in the beginning, or are given by a reset.
perform_all-spare :
    (d : Deps) (es : List Event) (w : Page) → length (perform_all d es w).0 ≤ spare w + resets es
unfolding perform_all length resets
perform_all-spare d [] w = omega arith
perform_all-spare d (e ∷ es) w =
    let step = perform-spare d e w in
    let later = perform_all-spare d es (perform d e w).1 in
    let both = length-append (perform d e w).0 (perform_all d es (perform d e w).1).0 in
    omega (arith, resets-cons e es)

pub room-bound : (c : Controller) → room c ≤ 1
room-bound c = ground arith

-- From the moment the page is opened, over any session storage: whatever is clicked and whatever
-- the server and the network answer, in any order and with late answers, the requests that bear a
-- payment are at most one more than the resets.
pub open_page-sends_once :
    (d : Deps) (now : ℕ) (storage : Storage) (es : List Event)
    → length (perform_all d es (open_page d now storage)).0 ≤ 1 + resets es
unfolding open_page length
open_page-sends_once d now storage es =
    let all = perform_all-spare d es (open_page d now storage) in
    let one = room-bound (open_page d now storage).controller in omega arith

-- A page that is opened over a session that it resumes sends no request that bears a payment, but
-- for one at most for each reset: without a reset it only asks for the status.
pub open_page-resumes :
    (d : Deps) (now : ℕ) (storage : Storage) (es : List Event) (s : PendingMainnetPaymentSession)
    → (read_pending_mainnet_payment_session d.platform d.parse_date
        (record {
          now = now;
          expected_route_path = mainnet_paid_route;
          expected_query_value = d.query_value;
        })
        storage).0
      ≡ some s
    → length (perform_all d es (open_page d now storage)).0 ≤ resets es
unfolding open_page recover_pending_session_on_load new_controller start_status_polling length
open_page-resumes d now storage es s h =
    let all = perform_all-spare d es (open_page d now storage) in
    let none_left : room (open_page d now storage).controller ≡ 0 = rw h refl in omega arith
