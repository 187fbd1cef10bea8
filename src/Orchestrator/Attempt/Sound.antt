-- ===== src/Orchestrator/Attempt/Sound.antt =====
-- mainnet-payment-orchestrator.ts from the reservation on: the settle calls of its steps.
use x402_worker_template.Prelude.{
  ℕ, ◌≤◌, zero, suc, String, Bool, true, false, Option, none, some, leb, len, refl, ◌≡◌, arith,
  Bool-cases, inl, inr,
}
use x402_worker_template.Js.{Value}
use x402_worker_template.Receipt.{
  StoredSettlementReceipt, SettleResponse, ReceiptResult, ok, bad, validate_settlement_receipt,
}
use x402_worker_template.Replay.{FulfilledReplayResult}
use x402_worker_template.Coordinator.Types.{
  PrepareAttemptInput, PrepareAttemptResult, Lease, LeaseAcquireResult, CompletionResult,
  StageResponseResult, CoordinatorRpcRequest, verify, settle, acquired, rejected,
}
use x402_worker_template.Coordinator.State.{staged_response_max_bytes}
use x402_worker_template.Coordinator.Rpc.{CoordinatorRpcResponse}
use x402_worker_template.Orchestrator.Http.{Response}
use x402_worker_template.Orchestrator.Prog.{
  VerifyResult, is_valid, is_invalid, SettleResult, CancelReason, Prog, respond, throw, rpc, cancel,
  as_completion, as_failure, as_leased, as_staging, as_replayed, as_prepared,
}
use x402_worker_template.Orchestrator.Context.{Ctx}
use x402_worker_template.Orchestrator.Context.Sound.{build_payment_error-IsCalm}
use x402_worker_template.Orchestrator.Attempt.{
  or_throw, after_try, then_mark, then_fail, complete_fulfillment_with_retries, after_completion,
  after_settled, after_settle, local_completion_retry_limit, after_settle_lease, fail_post_verify,
  after_stage, stage_body, after_complete_verify, after_verify, after_verify_lease, after_replay,
  after_prepare, attempt,
}
use x402_worker_template.Orchestrator.Sound.{armed, granted, Fits, IsSound, IsUnarmed, IsCalm}

unarmed-le : (q : Prog) (n : ℕ) (key : String) → IsUnarmed q → armed key q ≤ n
unarmed-le q n key h = by_count (armed key q) (h key)
  where
    by_count : (a : ℕ) → a ≡ 0 → a ≤ n
    by_count a e = omega arith

pub respond-IsCalm : (r : Response) → IsCalm (respond r)
unfolding armed
respond-IsCalm r = record { sound = tt; unarmed = λ key. refl }

pub throw-IsCalm : IsCalm throw
unfolding armed
throw-IsCalm = record { sound = tt; unarmed = λ key. refl }

-- A call whose every continuation is calm.
rpc-IsCalm :
    (q : CoordinatorRpcRequest) (k : Option CoordinatorRpcResponse → Prog)
    → ((o : Option CoordinatorRpcResponse) → IsCalm (k o))
    → IsCalm (rpc q k)
unfolding armed
rpc-IsCalm q k h = record {
  sound = λ o fits. ((h o).sound, λ key. unarmed-le (k o) _ key (h o).unarmed);
  unarmed = λ key. refl;
}

cancel-IsCalm : (why : CancelReason) (k : Prog) → IsCalm k → IsCalm (cancel why k)
unfolding armed
cancel-IsCalm why k h = record { sound = (h.sound, h.unarmed); unarmed = λ key. refl }

or_throw-IsCalm {ℓ} : {A : Type ℓ} → (o : Option A) (k : Prog) → IsCalm k → IsCalm (or_throw o k)
or_throw-IsCalm none k h = throw-IsCalm
or_throw-IsCalm (some a) k h = h

then_mark-IsCalm : (q : CoordinatorRpcRequest) (k : Prog) → IsCalm k → IsCalm (then_mark q k)
then_mark-IsCalm q k h = rpc-IsCalm q _ λ o. or_throw-IsCalm (as_completion o) k h

then_fail-IsCalm : (q : CoordinatorRpcRequest) (k : Prog) → IsCalm k → IsCalm (then_fail q k)
then_fail-IsCalm q k h = rpc-IsCalm q _ λ o. or_throw-IsCalm (as_failure o) k h

after_try-IsCalm :
    (k : Option Bool → Prog) (again : Prog)
    → ((o : Option Bool) → IsCalm (k o))
    → IsCalm again
    → (o : Option CompletionResult) → IsCalm (after_try k again o)
after_try-IsCalm k again h g none = h none
after_try-IsCalm k again h g (some (CompletionResult.completed key state)) = h (some true)
after_try-IsCalm k again h g (some (CompletionResult.stale reason)) = g

complete_fulfillment-IsCalm :
    (n : ℕ) (l : Lease) (receipt : StoredSettlementReceipt) (k : Option Bool → Prog)
    → ((o : Option Bool) → IsCalm (k o))
    → IsCalm (complete_fulfillment_with_retries n l receipt k)
unfolding complete_fulfillment_with_retries
complete_fulfillment-IsCalm zero l receipt k h = h (some false)
complete_fulfillment-IsCalm (suc n) l receipt k h =
    rpc-IsCalm _ _
      λ o. after_try-IsCalm k _ h (complete_fulfillment-IsCalm n l receipt k h) (as_completion o)

module _ (ctx : Ctx) (key : String) where
  after_completion-IsCalm :
      (l : Lease) (body : Value) (settled : SettleResponse) (o : Option Bool)
      → IsCalm (after_completion ctx key l body settled o)
  unfolding after_completion
  after_completion-IsCalm l body settled (some true) = respond-IsCalm _
  after_completion-IsCalm l body settled (some false) = then_mark-IsCalm _ _ (respond-IsCalm _)
  after_completion-IsCalm l body settled none = then_mark-IsCalm _ _ (respond-IsCalm _)

  after_settled-IsCalm :
      (l : Lease) (body : Value) (settled : SettleResponse) (r : ReceiptResult)
      → IsCalm (after_settled ctx key l body settled r)
  unfolding after_settled
  after_settled-IsCalm l body settled (bad reason) =
      cancel-IsCalm _ _ (then_mark-IsCalm _ _ (respond-IsCalm _))
  after_settled-IsCalm l body settled (ok receipt) =
      complete_fulfillment-IsCalm local_completion_retry_limit l receipt
        (after_completion ctx key l body settled) (after_completion-IsCalm l body settled)

  after_settle-IsCalm :
      (l : Lease) (body : Value) (o : Option SettleResult) → IsCalm (after_settle ctx key l body o)
  unfolding after_settle
  after_settle-IsCalm l body none = then_mark-IsCalm _ _ (respond-IsCalm _)
  after_settle-IsCalm l body (some (SettleResult.failed reason)) =
      cancel-IsCalm _ _ (then_fail-IsCalm _ _ (build_payment_error-IsCalm ctx _))
  after_settle-IsCalm l body (some (SettleResult.success v settled)) =
      after_settled-IsCalm l body settled (validate_settlement_receipt v)

  -- The one step after which the payment is settled: the lease was granted for this attempt.
  after_settle_lease-IsSound :
      (body : Value) (o : Option CoordinatorRpcResponse)
      → Fits (CoordinatorRpcRequest.acquire_settle_lease key none) o
      → IsSound (after_settle_lease ctx key body (as_leased o))
        × ((other : String)
            → armed other (after_settle_lease ctx key body (as_leased o)) ≤ granted other o)
  unfolding after_settle_lease armed
  after_settle_lease-IsSound body none fits = (tt, λ other. omega arith)
  after_settle_lease-IsSound body (some (CoordinatorRpcResponse.leased (rejected reason))) fits =
      (tt, λ other. omega arith)
  after_settle_lease-IsSound body (some (CoordinatorRpcResponse.leased (acquired verify l x)))
        (e, same) =
      ground arith
  after_settle_lease-IsSound body (some (CoordinatorRpcResponse.leased (acquired settle l x)))
        (e, same) =
      (
        λ o. ((after_settle-IsCalm l body o).sound, (after_settle-IsCalm l body o).unarmed),
        λ other. rw same (omega arith),
      )
  after_settle_lease-IsSound body _ fits = (tt, λ other. omega arith)

  fail_post_verify-IsCalm :
      (why : CancelReason) (l : Lease) (category message : String)
      → IsCalm (fail_post_verify ctx key why l category message)
  unfolding fail_post_verify
  fail_post_verify-IsCalm why l category message =
      cancel-IsCalm _ _ (then_fail-IsCalm _ _ (build_payment_error-IsCalm ctx message))

  after_stage-IsCalm :
      (l : Lease) (body : Value) (o : Option StageResponseResult)
      → IsCalm (after_stage ctx key l body o)
  unfolding after_stage armed
  after_stage-IsCalm l body none = cancel-IsCalm _ _ (respond-IsCalm _)
  after_stage-IsCalm l body (some (StageResponseResult.rejected reason)) =
      fail_post_verify-IsCalm _ l _ _
  after_stage-IsCalm l body (some (StageResponseResult.staged k)) = record {
    sound = after_settle_lease-IsSound body;
    unarmed = λ other. refl;
  }

  stage_body-IsCalm : (l : Lease) (o : Option Value) → IsCalm (stage_body ctx key l o)
  unfolding stage_body
  stage_body-IsCalm l none = fail_post_verify-IsCalm _ l _ _
  stage_body-IsCalm l (some body) =
      elim (Bool-cases (leb (len (ctx.p.stringify body)) staged_response_max_bytes)) [
        | inl e ↦ rw e (rpc-IsCalm _ _ λ o. after_stage-IsCalm l body (as_staging o))
        | inr e ↦ rw e (fail_post_verify-IsCalm _ l _ _)
      ]

  after_complete_verify-IsCalm :
      (l : Lease) (value : String) (o : Option CompletionResult)
      → IsCalm (after_complete_verify ctx key l value o)
  unfolding after_complete_verify
  after_complete_verify-IsCalm l value none = respond-IsCalm _
  after_complete_verify-IsCalm l value (some (CompletionResult.stale reason)) = respond-IsCalm _
  after_complete_verify-IsCalm l value (some (CompletionResult.completed k state)) =
      stage_body-IsCalm l (ctx.build_response value)

  after_verify-IsCalm :
      (l : Lease) (value : String) (o : Option VerifyResult)
      → IsCalm (after_verify ctx key l value o)
  unfolding after_verify
  after_verify-IsCalm l value none = then_mark-IsCalm _ _ (respond-IsCalm _)
  after_verify-IsCalm l value (some (is_invalid reason)) =
      then_fail-IsCalm _ _ (build_payment_error-IsCalm ctx _)
  after_verify-IsCalm l value (some is_valid) =
      rpc-IsCalm _ _ λ o. after_complete_verify-IsCalm l value (as_completion o)

  after_verify_lease-IsCalm :
      (value : String) (o : Option LeaseAcquireResult) → IsCalm (after_verify_lease ctx key value o)
  unfolding after_verify_lease armed
  after_verify_lease-IsCalm value none = respond-IsCalm _
  after_verify_lease-IsCalm value (some (rejected reason)) = respond-IsCalm _
  after_verify_lease-IsCalm value (some (acquired kind l x)) = record {
    sound = λ o. ((after_verify-IsCalm l value o).sound, (after_verify-IsCalm l value o).unarmed);
    unarmed = λ other. refl;
  }

  after_replay-IsCalm : (o : Option FulfilledReplayResult) → IsCalm (after_replay ctx key o)
  unfolding after_replay
  after_replay-IsCalm none = throw-IsCalm
  after_replay-IsCalm (some (FulfilledReplayResult.ok r)) = respond-IsCalm _
  after_replay-IsCalm (some (FulfilledReplayResult.bad reason)) = respond-IsCalm _

  after_prepare-IsCalm :
      (value : String) (o : Option PrepareAttemptResult) → IsCalm (after_prepare ctx key value o)
  unfolding after_prepare
  after_prepare-IsCalm value none = respond-IsCalm _
  after_prepare-IsCalm value (some (PrepareAttemptResult.conflict reason)) = respond-IsCalm _
  after_prepare-IsCalm value (some (PrepareAttemptResult.replay k)) =
      rpc-IsCalm _ _ λ o. after_replay-IsCalm (as_replayed o)
  after_prepare-IsCalm value (some (PrepareAttemptResult.failed k)) =
      build_payment_error-IsCalm ctx _
  after_prepare-IsCalm value (some (PrepareAttemptResult.uncertain k)) = respond-IsCalm _
  after_prepare-IsCalm value (some (PrepareAttemptResult.wait k state)) = respond-IsCalm _
  after_prepare-IsCalm value (some (PrepareAttemptResult.created k state)) =
      rpc-IsCalm _ _ λ o. after_verify_lease-IsCalm value (as_leased o)

  pub attempt-IsCalm : (i : PrepareAttemptInput) (value : String) → IsCalm (attempt ctx key i value)
  unfolding attempt
  attempt-IsCalm i value = rpc-IsCalm _ _ λ o. after_prepare-IsCalm value (as_prepared o)
