-- ===== src/Coordinator/Tests.antt =====
-- Histories of the coordinator on concrete calls.
use x402_worker_template.Prelude.{
  ◌≤◌, String, none, some, List, [], ◌∷◌, ◌≡◌, refl, str_eq_refl, ◌+◌, inr, arith,
}
use x402_worker_template.Receipt.{SettleResponse}
use x402_worker_template.Receipt.Tests.{platform}
use x402_worker_template.Keys.{build_record_key}
use x402_worker_template.Coordinator.Types.{
  failed_definitive, PaymentAttemptRow, PrepareAttemptInput, reserved, created, wait, Env,
  CoordinatorRpcRequest,
}
use x402_worker_template.Coordinator.Table.{
  read_row, read_row_by_payment_identifier, read_row_by_auth_commitment, select_first,
}
use x402_worker_template.Coordinator.State.{Coordinator, record_ttl_ms}
use x402_worker_template.Coordinator.Prepare.{prepare_attempt}
use x402_worker_template.Coordinator.Prepare.Repeats.{IsFresh, prepare_attempt-repeats}
use x402_worker_template.Coordinator.Rpc.{handle_rpc}
use x402_worker_template.Coordinator.Invariant.{Inv}
use x402_worker_template.Coordinator.Invariant.Steps.{handle_rpc-Inv}
use x402_worker_template.Coordinator.Transitions.{Moves}
use x402_worker_template.Coordinator.Transitions.Steps.{handle_rpc-Moves}
use x402_worker_template.Coordinator.History.{
  Event, call, alarm, start, run, run-start-Inv, NeverDeleted,
}
use x402_worker_template.Coordinator.History.Settlement.{
  call-KeepsRecord, grants, grants-le-one, terminal_absorbs,
}

abbrev pub encode : SettleResponse → String
encode r = r.transaction

abbrev pub env : Env
env = record { now = 1000; random_bytes = 1 ∷ 2 ∷ [] }

abbrev pub input : PrepareAttemptInput
input = record {
  payment_identifier = "payment-1";
  terms_fingerprint = "terms";
  auth_commitment = "commitment";
  resource_identity_hash = "resource";
  authorization_nonce = "nonce";
  network = "eip155:8453";
  asset = "usdc";
  amount = "1000";
}

abbrev pub key : String
key = build_record_key platform "payment-1" "terms"

abbrev prepare : CoordinatorRpcRequest
prepare = CoordinatorRpcRequest.prepare_attempt input

abbrev verify : CoordinatorRpcRequest
verify = CoordinatorRpcRequest.acquire_verify_lease key none

abbrev settle : CoordinatorRpcRequest
settle = CoordinatorRpcRequest.acquire_settle_lease key none

abbrev history : List Event
history = call env prepare ∷ call env verify ∷ call env settle ∷ call env settle ∷ []

abbrev prepared : Coordinator
prepared = run platform encode (call env prepare ∷ []) start

run-start-Inv_example : Inv platform (run platform encode (call env prepare ∷ alarm env ∷ []) start)
run-start-Inv_example = run-start-Inv platform encode (call env prepare ∷ alarm env ∷ [])

handle_rpc-Inv_example : Inv platform (handle_rpc platform encode env verify prepared).0
handle_rpc-Inv_example =
    handle_rpc-Inv platform encode env verify prepared
      (run-start-Inv platform encode (call env prepare ∷ []))

handle_rpc-Moves_example :
    Moves
      (read_row key prepared.table)
      (read_row key (handle_rpc platform encode env verify prepared).0.table)
handle_rpc-Moves_example = handle_rpc-Moves platform encode env verify key prepared (λ h. h)

keeps : (c : Coordinator) → NeverDeleted platform encode key history c
keeps c = (
  call-KeepsRecord platform encode key env prepare _ (λ h. h),
  (
    call-KeepsRecord platform encode key env verify _ (λ h. h),
    (
      call-KeepsRecord platform encode key env settle _ (λ h. h),
      (call-KeepsRecord platform encode key env settle _ (λ h. h), tt),
    ),
  ),
)

grants-le-one_example : grants platform encode key history prepared ≤ 1
grants-le-one_example =
    grants-le-one platform encode key history prepared
      (run-start-Inv platform encode (call env prepare ∷ [])) (keeps prepared)

-- A payment whose verification has failed for good.
abbrev failed : PaymentAttemptRow
failed = record {
  record_key = key;
  payment_identifier = "payment-1";
  auth_commitment = "commitment";
  terms_fingerprint = "terms";
  resource_identity_hash = "resource";
  authorization_nonce = "nonce";
  network = "eip155:8453";
  asset = "usdc";
  amount = "1000";
  state = failed_definitive;
  operation_kind = none;
  operation_generation = 1;
  operation_token = none;
  operation_started_at = none;
  lease_expires_at = none;
  cached_response_json = none;
  cached_content_type = none;
  settlement_receipt_json = none;
  transaction_hash = none;
  failure_category = some "verify_invalid";
  created_at = 500;
  updated_at = 600;
  expires_at = 500 + record_ttl_ms;
}

abbrev after_failure : Coordinator
after_failure = record { table = failed ∷ []; alarm = none }

after_failure-Inv : Inv platform after_failure
after_failure-Inv = record {
  rows = (
    record {
      columns = (
        record { kind = refl; token = refl },
        omega arith,
        omega arith,
        record { receipt = refl; transaction = refl },
        refl,
      );
      key = refl;
      lifetime = refl;
    },
    tt,
  );
  keys = (tt, tt);
  identifiers = (tt, tt);
  commitments = (tt, tt);
}

failed_found : read_row key after_failure.table ≡ some failed
unfolding read_row select_first
failed_found = rw (str_eq_refl key) refl

terminal_absorbs_example :
    read_row key (run platform encode history after_failure).table ≡ some failed
terminal_absorbs_example =
    terminal_absorbs platform encode key history after_failure failed after_failure-Inv
      (keeps after_failure) failed_found (inr refl)

abbrev empty : Coordinator
empty = record { table = []; alarm = none }

empty-IsFresh : IsFresh platform input empty.table
unfolding read_row read_row_by_payment_identifier read_row_by_auth_commitment select_first
empty-IsFresh = record { key = refl; identifier = refl; commitment = refl }

abbrev later : Env
later = record { now = 2000; random_bytes = [] }

prepare_attempt-repeats_example :
    ((prepare_attempt platform env input empty).1 ≡ created key reserved)
    × (prepare_attempt platform later input (prepare_attempt platform env input empty).0
        ≡ ((prepare_attempt platform env input empty).0, wait key reserved))
prepare_attempt-repeats_example =
    prepare_attempt-repeats platform env input later empty empty-IsFresh
