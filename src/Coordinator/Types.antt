-- ===== src/Coordinator/Types.antt =====
-- src/mainnet/durable/payment-attempt-types.ts and payment-coordinator-schema.ts: the rows of the
-- table `payment_attempts`, the requests that the coordinator serves and what it answers.
-- An instant is its milliseconds: the texts of `toISOString` order as the instants do.
use x402_worker_template.Prelude.{ℕ, String, Option, List}
use x402_worker_template.Js.{Value}

pub data PaymentAttemptState : Type 0 where
  reserved verifying verified computing settling fulfilled failed_definitive uncertain :
      PaymentAttemptState

pub data OperationKind : Type 0 where
  verify settle : OperationKind

pub record PaymentAttemptRow : Type 0 where
  pub record_key : String
  pub payment_identifier : String
  pub auth_commitment : String
  pub terms_fingerprint : String
  pub resource_identity_hash : String
  pub authorization_nonce : String
  pub network : String
  pub asset : String
  pub amount : String
  pub state : PaymentAttemptState
  pub operation_kind : Option OperationKind
  pub operation_generation : ℕ
  pub operation_token : Option String
  pub operation_started_at : Option ℕ
  pub lease_expires_at : Option String
  pub cached_response_json : Option String
  pub cached_content_type : Option String
  pub settlement_receipt_json : Option String
  pub transaction_hash : Option String
  pub failure_category : Option String
  pub created_at : ℕ
  pub updated_at : ℕ
  pub expires_at : ℕ

pub record PrepareAttemptInput : Type 0 where
  pub payment_identifier : String
  pub terms_fingerprint : String
  pub auth_commitment : String
  pub resource_identity_hash : String
  pub authorization_nonce : String
  pub network : String
  pub asset : String
  pub amount : String

pub data PrepareAttemptResult : Type 0 where
  created : String → PaymentAttemptState → PrepareAttemptResult
  replay : String → PrepareAttemptResult
  wait : String → PaymentAttemptState → PrepareAttemptResult
  conflict : String → PrepareAttemptResult
  failed : String → PrepareAttemptResult
  uncertain : String → PrepareAttemptResult

-- Who holds a lease: the record, and the generation and token that the lease was granted under.
pub record Lease : Type 0 where
  pub record_key : String
  pub operation_generation : ℕ
  pub operation_token : String

pub data LeaseAcquireResult : Type 0 where
  acquired : OperationKind → Lease → Option String → LeaseAcquireResult
  rejected : String → LeaseAcquireResult

pub data CompletionResult : Type 0 where
  completed : String → PaymentAttemptState → CompletionResult
  stale : String → CompletionResult

pub data StageResponseResult : Type 0 where
  staged : String → StageResponseResult
  rejected : String → StageResponseResult

pub data AuthenticatedFailureResult : Type 0 where
  failed : String → AuthenticatedFailureResult
  stale : String → AuthenticatedFailureResult

pub record FulfilledStatusResult : Type 0 where
  pub content_type : String
  pub body : Value

pub record PaymentStatusSnapshot : Type 0 where
  pub state : PaymentAttemptState
  pub updated_at : ℕ
  pub transaction_hash : Option String
  pub expires_at : ℕ
  pub fulfilled_result : Option FulfilledStatusResult

-- What one call takes from its surroundings: the clock, and 32 random bytes.
pub record Env : Type 0 where
  pub now : ℕ
  pub random_bytes : List ℕ

pub data CoordinatorRpcRequest : Type 0 where
  prepare_attempt : PrepareAttemptInput → CoordinatorRpcRequest
  acquire_verify_lease : String → Option String → CoordinatorRpcRequest
  complete_verify : Lease → CoordinatorRpcRequest
  mark_verify_uncertain : Lease → CoordinatorRpcRequest
  stage_response : String → String → String → CoordinatorRpcRequest
  acquire_settle_lease : String → Option String → CoordinatorRpcRequest
  complete_fulfillment : Lease → Value → CoordinatorRpcRequest
  mark_settle_uncertain : Lease → CoordinatorRpcRequest
  fail_verify_definitive : Lease → Option String → CoordinatorRpcRequest
  fail_post_verify_definitive : Lease → Option String → CoordinatorRpcRequest
  fail_settle_definitive : Lease → Option String → CoordinatorRpcRequest
  get_replay : String → CoordinatorRpcRequest
  get_status_by_payment_identifier : String → CoordinatorRpcRequest
  run_ttl_cleanup : Option ℕ → CoordinatorRpcRequest
  unknown_method : CoordinatorRpcRequest
