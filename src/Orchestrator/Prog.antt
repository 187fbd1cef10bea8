-- ===== src/Orchestrator/Prog.antt =====
-- A request handler as a program: what it does next to the world, and how it goes on with each
-- outcome. Every `await` on the coordinator or the facilitator is one node, so that other requests
-- may run between any two of them.
use x402_worker_template.Prelude.{String, Option, none, some, List}
use x402_worker_template.Js.{Value}
use x402_worker_template.Receipt.{SettleResponse}
use x402_worker_template.Replay.{FulfilledReplayResult}
use x402_worker_template.Policy.{PaymentRequirements}
use x402_worker_template.Sdk.{PaymentRequired}
use x402_worker_template.Coordinator.Types.{
  PrepareAttemptResult, LeaseAcquireResult, CompletionResult, StageResponseResult,
  AuthenticatedFailureResult, CoordinatorRpcRequest,
}
use x402_worker_template.Coordinator.Rpc.{
  CoordinatorRpcResponse, prepared, leased, completion, staging, failure, replayed,
}
use x402_worker_template.Orchestrator.Http.{Response}

-- `verifyPayment`: `{ isValid, invalidReason? }`.
pub data VerifyResult : Type 0 where
  is_valid : VerifyResult
  is_invalid : Option String → VerifyResult

-- `settlePayment`: `{ success, errorReason?, … }`, with the whole object and its typed parts.
pub data SettleResult : Type 0 where
  success : Value → SettleResponse → SettleResult
  failed : Option String → SettleResult

pub data CancelReason : Type 0 where
  handler_failed after_verify_aborted handler_threw : CancelReason

-- An outcome `none` is a thrown error. `throw` is an error that leaves the handler. The record key
-- at `settle_payment` names the attempt whose payment is settled; the call itself does not carry it.
pub data Prog : Type 0 where
  respond : Response → Prog
  throw : Prog
  build_requirements : (Option (List PaymentRequirements) → Prog) → Prog
  create_required :
      List PaymentRequirements → Option String → (Option PaymentRequired → Prog) → Prog
  rpc : CoordinatorRpcRequest → (Option CoordinatorRpcResponse → Prog) → Prog
  verify_payment : (Option VerifyResult → Prog) → Prog
  settle_payment : String → (Option SettleResult → Prog) → Prog
  cancel : CancelReason → Prog → Prog

-- src/mainnet/durable/payment-coordinator-client.ts: `result as T` of a response. `none` is a call
-- that threw: no answer, `{ ok: false }`, or (never, by `handleRpc`) a result of another method.
abbrev pub as_prepared : Option CoordinatorRpcResponse → Option PrepareAttemptResult
as_prepared (some (prepared r)) = some r
as_prepared _ = none

abbrev pub as_leased : Option CoordinatorRpcResponse → Option LeaseAcquireResult
as_leased (some (leased r)) = some r
as_leased _ = none

abbrev pub as_completion : Option CoordinatorRpcResponse → Option CompletionResult
as_completion (some (completion r)) = some r
as_completion _ = none

abbrev pub as_staging : Option CoordinatorRpcResponse → Option StageResponseResult
as_staging (some (staging r)) = some r
as_staging _ = none

abbrev pub as_failure : Option CoordinatorRpcResponse → Option AuthenticatedFailureResult
as_failure (some (failure r)) = some r
as_failure _ = none

abbrev pub as_replayed : Option CoordinatorRpcResponse → Option FulfilledReplayResult
as_replayed (some (replayed r)) = some r
as_replayed _ = none
