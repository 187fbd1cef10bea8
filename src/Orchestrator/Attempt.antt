-- ===== src/Orchestrator/Attempt.antt =====
-- mainnet-payment-orchestrator.ts: `handleMainnetExamplePaidRequest` from the reservation of the
-- attempt on. Each step is a function of its own, the last one first.
pub mod Sound
use x402_worker_template.Prelude.{
  ℕ, zero, suc, String, Bool, true, false, not, Option, none, some, leb, len, if◌then◌else◌,
}
use x402_worker_template.Js.{Value}
use x402_worker_template.Receipt.{
  StoredSettlementReceipt, SettleResponse, ReceiptResult, validate_settlement_receipt,
  receipt_value,
}
use x402_worker_template.Replay.{FulfilledReplayResult}
use x402_worker_template.Coordinator.Types.{
  PrepareAttemptInput, PrepareAttemptResult, Lease, LeaseAcquireResult, CompletionResult,
  StageResponseResult, CoordinatorRpcRequest,
}
use x402_worker_template.Coordinator.State.{staged_response_max_bytes, allowed_staged_content_type}
use x402_worker_template.Orchestrator.Http.{
  coordinator_unavailable_response, in_progress_response, uncertain_response, conflict_response,
  paid_response, fulfilled_replay_to_http_response,
}
use x402_worker_template.Orchestrator.Prog.{
  VerifyResult, is_valid, is_invalid, SettleResult, CancelReason, handler_failed,
  after_verify_aborted, Prog, respond, throw, rpc, verify_payment, settle_payment, cancel,
  as_prepared, as_leased, as_completion, as_staging, as_failure, as_replayed,
}
use x402_worker_template.Orchestrator.Context.{Ctx, build_payment_error_from_required}

abbrev local_completion_retry_limit : ℕ
local_completion_retry_limit = 3

abbrev or_text : Option String → String → String
or_text none d = d
or_text (some s) d = s

-- An `await` outside any `try`: if it throws, the error leaves the handler.
abbrev or_throw {ℓ} : {A : Type ℓ} → Option A → Prog → Prog
or_throw none k = throw
or_throw (some a) k = k

-- A call of the coordinator whose result is not looked at.
abbrev then_mark : CoordinatorRpcRequest → Prog → Prog
then_mark q k = rpc q λ o. or_throw (as_completion o) k

abbrev then_fail : CoordinatorRpcRequest → Prog → Prog
then_fail q k = rpc q λ o. or_throw (as_failure o) k

-- One round of `completeFulfillmentWithRetries`: a stale answer goes on with the next round.
abbrev after_try : (Option Bool → Prog) → Prog → Option CompletionResult → Prog
after_try k again none = k none
after_try k again (some (CompletionResult.completed key state)) = k (some true)
after_try k again (some (CompletionResult.stale reason)) = again

-- `completeFulfillmentWithRetries`: `none` is an error thrown by one of the calls.
complete_fulfillment_with_retries :
    ℕ → Lease → StoredSettlementReceipt → (Option Bool → Prog) → Prog
complete_fulfillment_with_retries zero l receipt k = k (some false)
complete_fulfillment_with_retries (suc n) l receipt k =
    let again = complete_fulfillment_with_retries n l receipt k in
    rpc (CoordinatorRpcRequest.complete_fulfillment l (receipt_value receipt))
      λ o. after_try k again (as_completion o)

module _ (ctx : Ctx) (record_key : String) where
  -- The payment went through: the buyer gets the response, whatever the coordinator recorded.
  after_completion : Lease → Value → SettleResponse → Option Bool → Prog
  after_completion l body settled (some true) = respond (paid_response ctx.p ctx.x body settled)
  after_completion l body settled _ =
      then_mark (CoordinatorRpcRequest.mark_settle_uncertain l)
        (respond (paid_response ctx.p ctx.x body settled))

  after_settled : Lease → Value → SettleResponse → ReceiptResult → Prog
  unfolding after_completion
  after_settled l body settled (ReceiptResult.bad reason) = cancel after_verify_aborted (
      then_mark (CoordinatorRpcRequest.mark_settle_uncertain l)
        (respond (uncertain_response ctx.p)))
  after_settled l body settled (ReceiptResult.ok receipt) =
      complete_fulfillment_with_retries local_completion_retry_limit l receipt
        (after_completion l body settled)

  after_settle : Lease → Value → Option SettleResult → Prog
  unfolding after_settled
  after_settle l body none =
      then_mark (CoordinatorRpcRequest.mark_settle_uncertain l) (respond (uncertain_response ctx.p))
  after_settle l body (some (SettleResult.failed reason)) = cancel after_verify_aborted (
      then_fail
        (CoordinatorRpcRequest.fail_settle_definitive l (some (or_text reason "settle_failed")))
        (build_payment_error_from_required ctx (or_text reason "Settlement failed.")))
  after_settle l body (some (SettleResult.success v settled)) =
      after_settled l body settled (validate_settlement_receipt v)

  after_settle_lease : Value → Option LeaseAcquireResult → Prog
  unfolding after_settle
  after_settle_lease body none = respond (coordinator_unavailable_response ctx.p)
  after_settle_lease body (some (LeaseAcquireResult.rejected reason)) =
      respond (in_progress_response ctx.p)
  after_settle_lease body (some (LeaseAcquireResult.acquired kind l expires)) =
      settle_payment record_key (after_settle l body)

  -- A failure after verification: the payment is cancelled, the attempt is failed for good.
  fail_post_verify : CancelReason → Lease → String → String → Prog
  fail_post_verify why l category message = cancel why (
      then_fail (CoordinatorRpcRequest.fail_post_verify_definitive l (some category))
        (build_payment_error_from_required ctx message))

  after_stage : Lease → Value → Option StageResponseResult → Prog
  unfolding after_settle_lease fail_post_verify
  after_stage l body none =
      cancel after_verify_aborted (respond (coordinator_unavailable_response ctx.p))
  after_stage l body (some (StageResponseResult.rejected reason)) =
      fail_post_verify after_verify_aborted l "stage_response_failed"
        "Unable to stage paid response."
  after_stage l body (some (StageResponseResult.staged key)) =
      rpc (CoordinatorRpcRequest.acquire_settle_lease record_key none)
        λ o. after_settle_lease body (as_leased o)

  stage_body : Lease → Option Value → Prog
  unfolding after_stage fail_post_verify
  stage_body l none =
      fail_post_verify handler_failed l "response_construction_failed"
        "Unable to construct paid response."
  stage_body l (some body) =
      if not (leb (len (ctx.p.stringify body)) staged_response_max_bytes)
      then fail_post_verify handler_failed l "response_too_large"
          "Paid response exceeds staging limit."
      else rpc
          (CoordinatorRpcRequest.stage_response record_key (ctx.p.stringify body)
            allowed_staged_content_type)
          λ o. after_stage l body (as_staging o)

  after_complete_verify : Lease → String → Option CompletionResult → Prog
  unfolding stage_body
  after_complete_verify l value none = respond (coordinator_unavailable_response ctx.p)
  after_complete_verify l value (some (CompletionResult.stale reason)) =
      respond (uncertain_response ctx.p)
  after_complete_verify l value (some (CompletionResult.completed key state)) =
      stage_body l (ctx.build_response value)

  after_verify : Lease → String → Option VerifyResult → Prog
  unfolding after_complete_verify
  after_verify l value none =
      then_mark (CoordinatorRpcRequest.mark_verify_uncertain l) (respond (uncertain_response ctx.p))
  after_verify l value (some (is_invalid reason)) =
      then_fail
        (CoordinatorRpcRequest.fail_verify_definitive l (some (or_text reason "verify_invalid")))
        (build_payment_error_from_required ctx (or_text reason "Payment verification failed."))
  after_verify l value (some is_valid) =
      rpc (CoordinatorRpcRequest.complete_verify l)
        λ o. after_complete_verify l value (as_completion o)

  after_verify_lease : String → Option LeaseAcquireResult → Prog
  unfolding after_verify
  after_verify_lease value none = respond (coordinator_unavailable_response ctx.p)
  after_verify_lease value (some (LeaseAcquireResult.rejected reason)) =
      respond (in_progress_response ctx.p)
  after_verify_lease value (some (LeaseAcquireResult.acquired kind l expires)) =
      verify_payment (after_verify l value)

  after_replay : Option FulfilledReplayResult → Prog
  after_replay none = throw
  after_replay (some (FulfilledReplayResult.ok r)) = respond (fulfilled_replay_to_http_response r)
  after_replay (some (FulfilledReplayResult.bad reason)) = respond (uncertain_response ctx.p)

  after_prepare : String → Option PrepareAttemptResult → Prog
  unfolding after_verify_lease after_replay
  after_prepare value none = respond (coordinator_unavailable_response ctx.p)
  after_prepare value (some (PrepareAttemptResult.conflict reason)) =
      respond (conflict_response ctx.p reason)
  after_prepare value (some (PrepareAttemptResult.replay key)) =
      rpc (CoordinatorRpcRequest.get_replay key) λ o. after_replay (as_replayed o)
  after_prepare value (some (PrepareAttemptResult.failed key)) =
      build_payment_error_from_required ctx "Payment attempt previously failed."
  after_prepare value (some (PrepareAttemptResult.uncertain key)) =
      respond (uncertain_response ctx.p)
  after_prepare value (some (PrepareAttemptResult.wait key state)) =
      respond (in_progress_response ctx.p)
  after_prepare value (some (PrepareAttemptResult.created key state)) =
      rpc (CoordinatorRpcRequest.acquire_verify_lease record_key none)
        λ o. after_verify_lease value (as_leased o)

  -- From the reservation to the response.
  pub attempt : PrepareAttemptInput → String → Prog
  unfolding after_prepare
  attempt i value =
      rpc (CoordinatorRpcRequest.prepare_attempt i) λ o. after_prepare value (as_prepared o)
