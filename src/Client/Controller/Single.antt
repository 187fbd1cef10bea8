-- ===== src/Client/Controller/Single.antt =====
-- mainnet-pay-controller.ts: as long as the page is not reset, one call of a payment is open at most.
use x402_worker_template.Prelude.{
  ℕ, suc, ◌+◌, ◌≤◌, ◌∙◌, String, true, false, Option, none, some, List, [], ◌∷◌, ◌≡◌, refl, arith,
  inl, inr, length, take_out, length-take_out, nat_eq, Bool-cases,
}
use x402_worker_template.Client.Web.{Delivery}
use x402_worker_template.Client.Session.{Storage}
use x402_worker_template.Client.Terms.{
  MainnetValidatedTerms, MainnetTermsLoadResult, load_and_validate_mainnet_terms,
}
use x402_worker_template.Client.Executor.{
  SubmissionMode, FailureStatus, PaidRequest, MainnetPaymentExecutionResult, succeeded, failed,
  execute_mainnet_payment_attempt, signing_calls, sign,
}
use x402_worker_template.Client.Poller.{
  PollCall, on_poll, on_in_progress, StatusPollResult, poll_payment_status,
}
use x402_worker_template.Client.State.{can_load_mainnet_terms, can_submit_mainnet_payment}
use x402_worker_template.Client.Controller.{
  Deps, Controller, new_controller, recover_pending_session_on_load, end_load, begin_submit,
  end_submit, start_status_polling,
}
use x402_worker_template.Client.Controller.Polling.{handle_poll_call, handle_poll_result}
use x402_worker_template.Client.Controller.Page.{
  Submission, Page, Event, load_clicked, load_answered, submit_clicked, submit_answered,
  poll_called, poll_ended, reset_clicked, submit_terms, answer_taken, call_taken, end_taken,
  answer_submission, open_page, perform, perform_all, pollers,
}
use x402_worker_template.Client.Controller.Once.{
  room, room-end_load, room-end_submit, room-handle_poll_call, room-handle_poll_result,
  room-can_submit, room-begin_submit, resets, resets-cons,
}

-- The submissions that wait for an answer and the pollers that run.
pub open_calls : Page → ℕ
unfolding length
open_calls w = length w.submitting + length w.polling

-- One call is open or may still be started, at most; a call that is open belongs to an attempt that
-- is not completed.
pub record IsSingle (w : Page) : Type 0 where
  pub one : open_calls w + room w.controller ≤ 1
  pub incomplete : 1 ≤ open_calls w → w.controller.state.attempt_completed ≡ false

-- A submission that ends starts one poller at most.
polls-end_submit :
    (d : Deps) (id created_at : String) (r : MainnetPaymentExecutionResult) (c : Controller)
    (running : List ℕ)
    → length (pollers c (end_submit d id created_at r c) running) ≤ suc (length running)
unfolding length
polls-end_submit d id created_at r c running = ground arith

-- Where it starts one, the attempt is not completed by it.
incomplete-end_submit :
    (d : Deps) (id created_at : String) (r : MainnetPaymentExecutionResult) (c : Controller)
    (running : List ℕ)
    → length running ≡ 0
    → 1 ≤ length (pollers c (end_submit d id created_at r c) running)
    → c.state.attempt_completed ≡ false
    → (end_submit d id created_at r c).state.attempt_completed ≡ false
unfolding end_submit start_status_polling
incomplete-end_submit d id created_at (succeeded body view n) c running z h f = ground arith
incomplete-end_submit d id created_at (failed FailureStatus.failure r s n) c running z h f =
    ground arith
incomplete-end_submit d id created_at (failed FailureStatus.potentially_submitted r s n) c running z
      h f =
    f

incomplete-end_load :
    (r : Option MainnetTermsLoadResult) (c : Controller)
    → (end_load r c).state.attempt_completed ≡ c.state.attempt_completed
unfolding end_load
incomplete-end_load none c = refl
incomplete-end_load (some (MainnetTermsLoadResult.ok t)) c = refl
incomplete-end_load (some (MainnetTermsLoadResult.bad r)) c = refl

incomplete-call :
    (call : PollCall) (c : Controller)
    → (handle_poll_call call c).state.attempt_completed ≡ c.state.attempt_completed
unfolding handle_poll_call
incomplete-call (on_poll n) c = refl
incomplete-call (on_in_progress s n) c = refl

can_submit-incomplete :
    (c : Controller) → can_submit_mainnet_payment c.state ≡ true → c.state.attempt_completed ≡ false
unfolding can_submit_mainnet_payment
can_submit-incomplete c h = ground arith

incomplete-begin_submit :
    (d : Deps) (fresh created_at : String) (c : Controller)
    → (begin_submit d fresh created_at c).1.state.attempt_completed ≡ c.state.attempt_completed
unfolding begin_submit
incomplete-begin_submit d fresh created_at c = ground arith

submit_terms-IsSingle :
    (d : Deps) (mode : SubmissionMode) (fresh created_at : String)
    (t : Option MainnetValidatedTerms) (w : Page)
    → can_submit_mainnet_payment w.controller.state ≡ true
    → IsSingle w
    → IsSingle (submit_terms d mode fresh created_at t w)
unfolding open_calls length
submit_terms-IsSingle d mode fresh created_at none w h i = i
submit_terms-IsSingle d mode fresh created_at (some t) w h i =
    let gone : room (begin_submit d fresh created_at w.controller).1 ≡ 0 =
      room-begin_submit d fresh created_at w.controller in
    let free : room w.controller ≡ 1 = room-can_submit w.controller h in
    let one = i.one in
    record {
      one = omega arith;
      incomplete = λ n.
          incomplete-begin_submit d fresh created_at w.controller
          ∙ can_submit-incomplete w.controller h;
    }

answer_taken-IsSingle :
    (d : Deps) (n : ℕ) (fetch : PaidRequest → Delivery) (created_at : String)
    (o : Option (Submission × List Submission)) (w : Page)
    → take_out n w.submitting ≡ o
    → IsSingle w
    → IsSingle (answer_taken d fetch created_at o w).1
unfolding answer_submission open_calls length
answer_taken-IsSingle d n fetch created_at none w e i = i
answer_taken-IsSingle d n fetch created_at (some (s, rest)) w e i =
    let waiting : length w.submitting ≡ suc (length rest) =
      length-take_out n w.submitting s rest e in
    let c = w.controller in
    let calls = signing_calls (sign d.web d.seller_address s.terms s.identifier) in
    let signed = record c { invocation_count = c.invocation_count + calls } in
    let out =
      execute_mainnet_payment_attempt d.web d.seller_address s.terms s.mode fetch s.identifier
        c.invocation_count in
    let after = end_submit d s.identifier created_at out.1 signed in
    let same : room after ≡ room c = room-end_submit d s.identifier created_at out.1 signed in
    let more : length (pollers c after w.polling) ≤ suc (length w.polling) =
      polls-end_submit d s.identifier created_at out.1 signed w.polling in
    let one = i.one in
    record {
      one = omega arith;
      incomplete = λ h.
          incomplete-end_submit d s.identifier created_at out.1 signed w.polling (omega arith)
            (omega arith) (i.incomplete (omega arith));
    }

call_taken-IsSingle :
    (call : PollCall) (o : Option (ℕ × List ℕ)) (w : Page)
    → IsSingle w
    → IsSingle (call_taken call o w)
unfolding open_calls
call_taken-IsSingle call none w i = i
call_taken-IsSingle call (some taken) w i =
    let same : room (handle_poll_call call w.controller) ≡ room w.controller =
      room-handle_poll_call call w.controller in
    let one = i.one in
    record {
      one = omega arith;
      incomplete = λ h. incomplete-call call w.controller ∙ i.incomplete h;
    }

-- The end of a poller leaves no call open.
end_taken-IsSingle :
    (n : ℕ) (r : StatusPollResult) (o : Option (ℕ × List ℕ)) (w : Page)
    → take_out n w.polling ≡ o
    → IsSingle w
    → IsSingle (end_taken r o w)
unfolding open_calls
end_taken-IsSingle n r none w e i = i
end_taken-IsSingle n r (some (k, rest)) w e i =
    let waiting : length w.polling ≡ suc (length rest) = length-take_out n w.polling k rest e in
    let same : room (handle_poll_result r w.controller) ≡ room w.controller =
      room-handle_poll_result r w.controller in
    let one = i.one in record { one = omega arith; incomplete = λ h. absurd (omega arith) }

perform-IsSingle :
    (d : Deps) (e : Event) (w : Page)
    → resets (e ∷ []) ≡ 0
    → IsSingle w
    → IsSingle (perform d e w).1
unfolding perform resets open_calls
perform-IsSingle d load_clicked w z i =
    elim (Bool-cases (can_load_mainnet_terms w.controller.state)) [
      | inl e ↦ rw e (record { one = i.one; incomplete = i.incomplete })
      | inr e ↦ rw e i
    ]
perform-IsSingle d (load_answered fetch) w z i = elim (Bool-cases (nat_eq w.loading 0)) [
  | inl e ↦ rw e i
  | inr e ↦
      let r =
        load_and_validate_mainnet_terms d.x d.web d.seller_address fetch d.origin d.query_value in
      let same : room (end_load r w.controller) ≡ room w.controller =
        room-end_load r w.controller in
      let one = i.one in
      rw e (record {
        one = omega arith;
        incomplete = λ h. incomplete-end_load r w.controller ∙ i.incomplete h;
      })
]
perform-IsSingle d (submit_clicked mode fresh created_at) w z i =
    elim (Bool-cases (can_submit_mainnet_payment w.controller.state)) [
      | inl e ↦ rw e (submit_terms-IsSingle d mode fresh created_at w.controller.state.terms w e i)
      | inr e ↦ rw e i
    ]
perform-IsSingle d (submit_answered n fetch created_at) w z i =
    answer_taken-IsSingle d n fetch created_at (take_out n w.submitting) w refl i
perform-IsSingle d (poll_called n call) w z i = call_taken-IsSingle call (take_out n w.polling) w i
perform-IsSingle d (poll_ended n rounds) w z i =
    end_taken-IsSingle n (poll_payment_status d.max_polls rounds) (take_out n w.polling) w refl i
perform-IsSingle d reset_clicked w z i = absurd (omega arith)

pub perform_all-IsSingle :
    (d : Deps) (es : List Event) (w : Page)
    → resets es ≡ 0
    → IsSingle w
    → IsSingle (perform_all d es w).1
unfolding perform_all
perform_all-IsSingle d [] w z i = i
perform_all-IsSingle d (e ∷ es) w z i =
    let split = resets-cons e es in
    perform_all-IsSingle d es (perform d e w).1 (omega arith)
      (perform-IsSingle d e w (omega arith) i)

pub open_page-IsSingle :
    (d : Deps) (now : ℕ) (storage : Storage) → IsSingle (open_page d now storage)
unfolding open_page open_calls recover_pending_session_on_load new_controller start_status_polling
    length
open_page-IsSingle d now storage = record { one = ground arith; incomplete = λ h. ground arith }
