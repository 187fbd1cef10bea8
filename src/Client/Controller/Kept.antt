-- ===== src/Client/Controller/Kept.antt =====
-- mainnet-pay-controller.ts: the session storage while the outcome of a payment is open.
use native.Mathlib.Decide.{dec_lt}
use x402_worker_template.Prelude.{
  ℕ, String, true, false, Option, none, some, is_some, List, [], ◌∷◌, ◌≡◌, ◌⊎◌, ◌≤◌, refl, arith,
  inl, inr, take_out, nat_eq, Bool-cases, Option-cases,
}
use x402_worker_template.Js.{Fields, get}
use x402_worker_template.Policy.{mainnet_paid_route}
use x402_worker_template.Client.Web.{Delivery}
use x402_worker_template.Client.Session.{
  PendingMainnetPaymentSession, ReadOptions, Storage, save_pending_mainnet_payment_session,
  read_pending_mainnet_payment_session,
}
use x402_worker_template.Client.Session.Reads.{IsOutcome, read-IsOutcome}
use x402_worker_template.Client.Settlement.{ResultCheck, validate_fulfilled_status_result}
use x402_worker_template.Client.Terms.{
  MainnetValidatedTerms, MainnetTermsLoadResult, load_and_validate_mainnet_terms,
}
use x402_worker_template.Client.Executor.{
  SubmissionMode, FailureStatus, PaidRequest, MainnetPaymentExecutionResult, succeeded, failed,
}
use x402_worker_template.Client.Poller.{
  PollCall, on_poll, on_in_progress, StatusPollResult, poll_payment_status,
}
use x402_worker_template.Client.State.{can_load_mainnet_terms, can_submit_mainnet_payment}
use x402_worker_template.Client.Controller.{
  Deps, Controller, new_controller, recover_pending_session_on_load, begin_load, end_load,
  begin_submit, end_submit, start_status_polling, reset,
}
use x402_worker_template.Client.Controller.Polling.{
  handle_poll_call, handle_fulfilled, handle_poll_result,
}
use x402_worker_template.Client.Controller.Once.{resets}
use x402_worker_template.Client.Controller.Single.{
  IsSingle, open_calls, perform_all-IsSingle, open_page-IsSingle,
}
use x402_worker_template.Client.Controller.Page.{
  Submission, Page, Event, load_clicked, load_answered, submit_clicked, submit_answered,
  poll_called, poll_ended, reset_clicked, submit_terms, answer_taken, call_taken, end_taken,
  answer_submission, open_page, perform, perform_all,
}

-- Where the state says that an attempt has started and is not completed, the storage is not empty; an
-- identifier that waits to be used again is there only where it says that an attempt has started.
pub record IsKept (c : Controller) : Type 0 where
  stored :
      c.state.attempt_started ≡ true → c.state.attempt_completed ≡ false → is_some c.storage ≡ true
  active : is_some c.active_payment_identifier ≡ true → c.state.attempt_started ≡ true

-- A controller with a completed attempt and no identifier to use again.
over :
    (c : Controller)
    → c.state.attempt_completed ≡ true
    → (is_some c.active_payment_identifier ≡ true → c.state.attempt_started ≡ true)
    → IsKept c
over c e a = record { stored = λ s n. ground arith; active = a }

end_load-IsKept :
    (r : Option MainnetTermsLoadResult) (c : Controller) → IsKept c → IsKept (end_load r c)
unfolding end_load
end_load-IsKept none c k = k
end_load-IsKept (some (MainnetTermsLoadResult.ok t)) c k = record {
  stored = k.stored;
  active = k.active;
}
end_load-IsKept (some (MainnetTermsLoadResult.bad r)) c k = record {
  stored = k.stored;
  active = k.active;
}

end_submit-IsKept :
    (d : Deps) (id created_at : String) (r : MainnetPaymentExecutionResult) (c : Controller)
    → IsKept c
    → IsKept (end_submit d id created_at r c)
unfolding end_submit start_status_polling save_pending_mainnet_payment_session
end_submit-IsKept d id created_at (succeeded body view n) c k = over _ refl (λ h. ground arith)
end_submit-IsKept d id created_at (failed FailureStatus.failure r s n) c k =
    over _ refl (λ h. ground arith)
end_submit-IsKept d id created_at (failed FailureStatus.potentially_submitted r s n) c k = record {
  stored = λ s n. refl;
  active = k.active;
}

handle_poll_call-IsKept :
    (call : PollCall) (c : Controller) → IsKept c → IsKept (handle_poll_call call c)
unfolding handle_poll_call
handle_poll_call-IsKept (on_poll n) c k = record { stored = k.stored; active = k.active }
handle_poll_call-IsKept (on_in_progress s n) c k = record { stored = k.stored; active = k.active }

handle_fulfilled-IsKept :
    (body : Fields) (n : ℕ) (r : ResultCheck) (c : Controller)
    → IsKept c
    → IsKept (handle_fulfilled body n r c)
handle_fulfilled-IsKept body n (ResultCheck.ok v) c k = over _ refl (λ h. ground arith)
handle_fulfilled-IsKept body n (ResultCheck.bad r) c k = over _ refl k.active

handle_poll_result-IsKept :
    (r : StatusPollResult) (c : Controller) → IsKept c → IsKept (handle_poll_result r c)
unfolding handle_poll_result
handle_poll_result-IsKept (StatusPollResult.fulfilled body n) c k =
    handle_fulfilled-IsKept body n (validate_fulfilled_status_result (get "result" body)) c k
handle_poll_result-IsKept (StatusPollResult.cancelled n) c k = k
handle_poll_result-IsKept (StatusPollResult.failed_definitive body n) c k = over _ refl k.active
handle_poll_result-IsKept (StatusPollResult.expired body n) c k = over _ refl k.active
handle_poll_result-IsKept (StatusPollResult.uncertain body n) c k = over _ refl k.active
handle_poll_result-IsKept (StatusPollResult.malformed body n) c k = over _ refl k.active
handle_poll_result-IsKept (StatusPollResult.not_seen_limit n) c k = record {
  stored = k.stored;
  active = k.active;
}

reset-IsKept : (c : Controller) → IsKept (reset c)
unfolding reset
reset-IsKept c = record { stored = λ s n. ground arith; active = λ h. ground arith }

-- A submission that may start has no identifier to use again, and so stores its session.
begin_submit-IsKept :
    (d : Deps) (fresh created_at : String) (c : Controller)
    → can_submit_mainnet_payment c.state ≡ true
    → IsKept c
    → IsKept (begin_submit d fresh created_at c).1
unfolding begin_submit can_submit_mainnet_payment save_pending_mainnet_payment_session
begin_submit-IsKept d fresh created_at c can k = record {
  stored = λ s n. elim (Option-cases c.active_payment_identifier) [
    | inl e ↦ rw e refl
    | inr (id, e) ↦
        let waiting : is_some c.active_payment_identifier ≡ true = rw e refl in
        let started : c.state.attempt_started ≡ true = k.active waiting in ground arith
  ];
  active = λ h. refl;
}

submit_terms-IsKept :
    (d : Deps) (mode : SubmissionMode) (fresh created_at : String)
    (t : Option MainnetValidatedTerms) (w : Page)
    → can_submit_mainnet_payment w.controller.state ≡ true
    → IsKept w.controller
    → IsKept (submit_terms d mode fresh created_at t w).controller
submit_terms-IsKept d mode fresh created_at none w can k = k
submit_terms-IsKept d mode fresh created_at (some t) w can k =
    begin_submit-IsKept d fresh created_at w.controller can k

answer_taken-IsKept :
    (d : Deps) (fetch : PaidRequest → Delivery) (created_at : String)
    (o : Option (Submission × List Submission)) (w : Page)
    → IsKept w.controller
    → IsKept (answer_taken d fetch created_at o w).1.controller
unfolding answer_submission
answer_taken-IsKept d fetch created_at none w k = k
answer_taken-IsKept d fetch created_at (some (s, rest)) w k =
    end_submit-IsKept d s.identifier created_at _ _
      (record { stored = k.stored; active = k.active })

call_taken-IsKept :
    (call : PollCall) (o : Option (ℕ × List ℕ)) (w : Page)
    → IsKept w.controller
    → IsKept (call_taken call o w).controller
call_taken-IsKept call none w k = k
call_taken-IsKept call (some taken) w k = handle_poll_call-IsKept call w.controller k

end_taken-IsKept :
    (r : StatusPollResult) (o : Option (ℕ × List ℕ)) (w : Page)
    → IsKept w.controller
    → IsKept (end_taken r o w).controller
end_taken-IsKept r none w k = k
end_taken-IsKept r (some (n, rest)) w k = handle_poll_result-IsKept r w.controller k

perform-IsKept :
    (d : Deps) (e : Event) (w : Page) → IsKept w.controller → IsKept (perform d e w).1.controller
unfolding perform begin_load
perform-IsKept d load_clicked w k = elim (Bool-cases (can_load_mainnet_terms w.controller.state)) [
  | inl e ↦ rw e (record { stored = k.stored; active = k.active })
  | inr e ↦ rw e k
]
perform-IsKept d (load_answered fetch) w k = elim (Bool-cases (nat_eq w.loading 0)) [
  | inl e ↦ rw e k
  | inr e ↦ rw e (
      end_load-IsKept
        (load_and_validate_mainnet_terms d.x d.web d.seller_address fetch d.origin d.query_value)
        w.controller k)
]
perform-IsKept d (submit_clicked mode fresh created_at) w k =
    elim (Bool-cases (can_submit_mainnet_payment w.controller.state)) [
      | inl e ↦ rw e (submit_terms-IsKept d mode fresh created_at w.controller.state.terms w e k)
      | inr e ↦ rw e k
    ]
perform-IsKept d (submit_answered n fetch created_at) w k =
    answer_taken-IsKept d fetch created_at (take_out n w.submitting) w k
perform-IsKept d (poll_called n call) w k = call_taken-IsKept call (take_out n w.polling) w k
perform-IsKept d (poll_ended n rounds) w k =
    end_taken-IsKept (poll_payment_status d.max_polls rounds) (take_out n w.polling) w k
perform-IsKept d reset_clicked w k = reset-IsKept w.controller

perform_all-IsKept :
    (d : Deps) (es : List Event) (w : Page)
    → IsKept w.controller
    → IsKept (perform_all d es w).1.controller
unfolding perform_all
perform_all-IsKept d [] w k = k
perform_all-IsKept d (e ∷ es) w k =
    perform_all-IsKept d es (perform d e w).1 (perform-IsKept d e w k)

open_page-IsKept :
    (d : Deps) (now : ℕ) (storage : Storage) → IsKept (open_page d now storage).controller
unfolding open_page recover_pending_session_on_load new_controller start_status_polling
open_page-IsKept d now storage =
    by_read (read_pending_mainnet_payment_session d.platform d.parse_date options storage)
      (read-IsOutcome d.platform d.parse_date options storage) refl
  where
    options : ReadOptions
    options = record {
      now = now;
      expected_route_path = mainnet_paid_route;
      expected_query_value = d.query_value;
    }

    by_read :
        (out : Option PendingMainnetPaymentSession × Storage)
        → IsOutcome d.platform d.parse_date options storage out
        → read_pending_mainnet_payment_session d.platform d.parse_date options storage ≡ out
        → IsKept (open_page d now storage).controller
    by_read out (IsOutcome.resumed raw s b f) e =
        rw e (record { stored = λ h n. rw e (rw b refl); active = λ h. refl })
    by_read out (IsOutcome.cleared n) e =
        rw e (record { stored = λ h n. ground arith; active = λ h. ground arith })
    by_read out (IsOutcome.empty_text b) e =
        rw e (record { stored = λ h n. ground arith; active = λ h. ground arith })

-- An open call belongs to an attempt that has started and is not completed, whose session is stored.
single-stored :
    (w : Page)
    → IsKept w.controller
    → IsSingle w
    → (open_calls w ≡ 0) ⊎ (is_some w.controller.storage ≡ true)
single-stored w k i = elim (dec_lt 0 (open_calls w)) [
  | no e ↦ inl (omega arith)
  | yes waiting ↦
      let one = i.one in
      let started : w.controller.state.attempt_started ≡ true = ground arith in
      inr (k.stored started (i.incomplete waiting))
]

-- From the moment the page is opened, over any session storage, and whatever is clicked and
-- answered in any order: as long as the page is not reset, the session storage is not empty while a
-- submission waits for its answer or a poller runs. After resets too, it is not empty where the
-- page's state says that an attempt has started and is not completed; and an identifier that waits
-- to be used again is there only where the state says that an attempt has started.
pub open_page-keeps :
    (d : Deps) (now : ℕ) (storage : Storage) (es : List Event)
    → let w = (perform_all d es (open_page d now storage)).1 in
      ((1 ≤ resets es) ⊎ ((open_calls w ≡ 0) ⊎ (is_some w.controller.storage ≡ true)))
      × IsKept w.controller
open_page-keeps d now storage es =
    let kept = perform_all-IsKept d es (open_page d now storage) (open_page-IsKept d now storage) in
    elim (dec_lt 0 (resets es)) [
      | yes e ↦ (inl (omega arith), kept)
      | no e ↦ (
        inr (
            single-stored (perform_all d es (open_page d now storage)).1 kept (
              perform_all-IsSingle d es (open_page d now storage) (omega arith)
                (open_page-IsSingle d now storage))),
        kept,
      )
    ]
