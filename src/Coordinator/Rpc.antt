-- ===== src/Coordinator/Rpc.antt =====
-- PaymentCoordinatorDurableObject.ts, `handleRpc`. No statement but the INSERT of `prepareAttempt`
-- writes a column of a unique index, and that one has its own `catch`, so the outer one has no case.
use x402_worker_template.Prelude.{ℕ, String, Option}
use x402_worker_template.Js.{Platform}
use x402_worker_template.Receipt.{SettleResponse}
use x402_worker_template.Replay.{FulfilledReplayResult}
use x402_worker_template.Coordinator.Types.{
  PrepareAttemptResult, LeaseAcquireResult, CompletionResult, StageResponseResult,
  AuthenticatedFailureResult, PaymentStatusSnapshot, CoordinatorRpcRequest, Env,
}
use x402_worker_template.Coordinator.State.{Coordinator}
use x402_worker_template.Coordinator.Prepare.{prepare_attempt}
use x402_worker_template.Coordinator.Verify.{
  acquire_verify_lease, complete_verify, mark_verify_uncertain, stage_response,
  fail_verify_definitive, fail_post_verify_definitive,
}
use x402_worker_template.Coordinator.Settle.{
  acquire_settle_lease, complete_fulfillment, mark_settle_uncertain, fail_settle_definitive,
}
use x402_worker_template.Coordinator.Query.{
  get_replay, get_status_by_payment_identifier, run_ttl_cleanup,
}

-- `{ ok: true; result }` by the kind of its result, and `{ ok: false; error }`.
pub data CoordinatorRpcResponse : Type 0 where
  prepared : PrepareAttemptResult → CoordinatorRpcResponse
  leased : LeaseAcquireResult → CoordinatorRpcResponse
  completion : CompletionResult → CoordinatorRpcResponse
  staging : StageResponseResult → CoordinatorRpcResponse
  failure : AuthenticatedFailureResult → CoordinatorRpcResponse
  replayed : FulfilledReplayResult → CoordinatorRpcResponse
  status : Option PaymentStatusSnapshot → CoordinatorRpcResponse
  deleted : ℕ → CoordinatorRpcResponse
  error : String → CoordinatorRpcResponse

abbrev answer :
    {A : Type 0}
    → (A → CoordinatorRpcResponse)
    → Coordinator × A
    → Coordinator × CoordinatorRpcResponse
answer f (c, a) = (c, f a)

module _ (p : Platform) (encode : SettleResponse → String) (env : Env) where
  unfoldable pub handle_rpc :
      CoordinatorRpcRequest → Coordinator → Coordinator × CoordinatorRpcResponse
  handle_rpc (CoordinatorRpcRequest.prepare_attempt i) c =
      answer prepared (prepare_attempt p env i c)
  handle_rpc (CoordinatorRpcRequest.acquire_verify_lease key expires) c =
      answer leased (acquire_verify_lease env key expires c)
  handle_rpc (CoordinatorRpcRequest.complete_verify l) c =
      answer completion (complete_verify env l c)
  handle_rpc (CoordinatorRpcRequest.mark_verify_uncertain l) c =
      answer completion (mark_verify_uncertain env l c)
  handle_rpc (CoordinatorRpcRequest.stage_response key body content_type) c =
      answer staging (stage_response p env key body content_type c)
  handle_rpc (CoordinatorRpcRequest.acquire_settle_lease key expires) c =
      answer leased (acquire_settle_lease env key expires c)
  handle_rpc (CoordinatorRpcRequest.complete_fulfillment l receipt) c =
      answer completion (complete_fulfillment p env l receipt c)
  handle_rpc (CoordinatorRpcRequest.mark_settle_uncertain l) c =
      answer completion (mark_settle_uncertain env l c)
  handle_rpc (CoordinatorRpcRequest.fail_verify_definitive l category) c =
      answer failure (fail_verify_definitive env l category c)
  handle_rpc (CoordinatorRpcRequest.fail_post_verify_definitive l category) c =
      answer failure (fail_post_verify_definitive env l category c)
  handle_rpc (CoordinatorRpcRequest.fail_settle_definitive l category) c =
      answer failure (fail_settle_definitive env l category c)
  handle_rpc (CoordinatorRpcRequest.get_replay key) c = (c, replayed (get_replay p encode key c))
  handle_rpc (CoordinatorRpcRequest.get_status_by_payment_identifier id) c =
      (c, status (get_status_by_payment_identifier p env id c))
  handle_rpc (CoordinatorRpcRequest.run_ttl_cleanup now) c =
      answer deleted (run_ttl_cleanup env now c)
  handle_rpc CoordinatorRpcRequest.unknown_method c = (c, error "Unknown coordinator method.")
