-- ===== src/Coordinator/Settle.antt =====
-- PaymentCoordinatorDurableObject.ts: the settle lease, fulfilment, and the outcomes of settlement.
pub mod Holder
pub mod Tests
use x402_worker_template.Prelude.{
  ℕ, suc, String, Bool, not, ◌&&◌, ◌||◌, Option, none, some, is_some, opt_eq, str_eq, if◌then◌else◌,
}
use x402_worker_template.Js.{Value, Platform}
use x402_worker_template.Receipt.{
  StoredSettlementReceipt, ok, bad, validate_settlement_receipt, receipt_value,
}
use x402_worker_template.Coordinator.Types.{
  PaymentAttemptState, computing, settling, fulfilled, settle, PaymentAttemptRow, Lease,
  LeaseAcquireResult, acquired, CompletionResult, completed, AuthenticatedFailureResult, Env,
}
use x402_worker_template.Coordinator.Table.{read_row}
use x402_worker_template.Coordinator.State.{
  Coordinator, allowed_staged_content_type, state_eq, holds, run_update, changed_one,
  generate_operation_token,
}
use x402_worker_template.Coordinator.Verify.{mark_uncertain_set, fail_set}

-- `row.cached_response_json` is neither null nor empty, and the content type is the allowed one.
abbrev pub has_text : Option String → Bool
has_text none = Bool.false
has_text (some s) = not (str_eq s "")

abbrev pub has_staged_json : PaymentAttemptRow → Bool
has_staged_json r =
    has_text r.cached_response_json && opt_eq r.cached_content_type allowed_staged_content_type

-- The two last conditions of the settle statements: `IS NOT NULL`, and the content type.
abbrev staged_where : PaymentAttemptRow → Bool
staged_where r =
    is_some r.cached_response_json && opt_eq r.cached_content_type allowed_staged_content_type

abbrev pub acquire_settle_where : String → PaymentAttemptRow → Bool
acquire_settle_where key r = str_eq r.record_key key && state_eq r.state computing && staged_where r

abbrev pub acquire_settle_set : Env → ℕ → Option String → PaymentAttemptRow → PaymentAttemptRow
acquire_settle_set env generation expires r = record r {
  state = settling;
  operation_kind = some settle;
  operation_generation = generation;
  operation_token = some (generate_operation_token env);
  operation_started_at = some env.now;
  lease_expires_at = expires;
  updated_at = env.now;
}

unfoldable pub grant_settle_lease :
    Env → String → Option String → ℕ → Coordinator → Coordinator × LeaseAcquireResult
grant_settle_lease env key expires generation c = (
  run_update (acquire_settle_where key) (acquire_settle_set env generation expires) c,
  if not (changed_one (acquire_settle_where key) c)
      then LeaseAcquireResult.rejected "Settle lease was not acquired."
      else acquired settle
          (record {
            record_key = key;
            operation_generation = generation;
            operation_token = generate_operation_token env;
          })
          expires,
)

unfoldable pub acquire_settle_lease :
    Env → String → Option String → Coordinator → Coordinator × LeaseAcquireResult
acquire_settle_lease env key expires c = elim (read_row key c.table) [
  | none ↦ (c, LeaseAcquireResult.rejected "Record not found.")
  | some r ↦
      if state_eq r.state PaymentAttemptState.uncertain
      then (c, LeaseAcquireResult.rejected "Settle lease cannot be acquired from uncertain.")
      else (if not (state_eq r.state computing)
          then (c, LeaseAcquireResult.rejected "Settle lease requires computing state.")
          else (if not (has_staged_json r)
              then (c, LeaseAcquireResult.rejected "Settle lease requires a staged JSON response.")
              else grant_settle_lease env key expires (suc r.operation_generation) c))
]

abbrev pub complete_fulfillment_where : Lease → PaymentAttemptRow → Bool
complete_fulfillment_where l r =
    holds settle l r
    && (state_eq r.state settling || state_eq r.state PaymentAttemptState.uncertain)
    && staged_where r

abbrev pub complete_fulfillment_set :
    Platform → ℕ → StoredSettlementReceipt → PaymentAttemptRow → PaymentAttemptRow
complete_fulfillment_set p now receipt r = record r {
  state = fulfilled;
  settlement_receipt_json = some (p.stringify (receipt_value receipt));
  transaction_hash = some receipt.transaction;
  lease_expires_at = none;
  operation_kind = none;
  operation_token = none;
  updated_at = now;
}

unfoldable pub fulfill :
    Platform → Env → Lease → StoredSettlementReceipt → Coordinator → Coordinator × CompletionResult
fulfill p env l receipt c = (
  run_update (complete_fulfillment_where l) (complete_fulfillment_set p env.now receipt) c,
  if not (changed_one (complete_fulfillment_where l) c)
      then CompletionResult.stale "Fulfillment completion did not match an active lease."
      else completed l.record_key fulfilled,
)

abbrev pub row_has_staged_json : Option PaymentAttemptRow → Bool
row_has_staged_json none = Bool.false
row_has_staged_json (some r) = has_staged_json r

unfoldable pub complete_fulfillment :
    Platform → Env → Lease → Value → Coordinator → Coordinator × CompletionResult
complete_fulfillment p env l settlement_receipt c =
    elim (validate_settlement_receipt settlement_receipt) [
      | bad reason ↦ (c, CompletionResult.stale reason)
      | ok receipt ↦
          if not (row_has_staged_json (read_row l.record_key c.table))
          then (c, CompletionResult.stale "Fulfillment requires a staged JSON response.")
          else fulfill p env l receipt c
    ]

abbrev pub settling_where : Lease → PaymentAttemptRow → Bool
settling_where l r = holds settle l r && state_eq r.state settling

unfoldable pub mark_settle_uncertain : Env → Lease → Coordinator → Coordinator × CompletionResult
mark_settle_uncertain env l c = (
  run_update (settling_where l) (mark_uncertain_set env.now) c,
  if not (changed_one (settling_where l) c)
      then CompletionResult.stale "Settle uncertainty marker did not match an active lease."
      else completed l.record_key PaymentAttemptState.uncertain,
)

unfoldable pub fail_settle_definitive :
    Env → Lease → Option String → Coordinator → Coordinator × AuthenticatedFailureResult
fail_settle_definitive env l category c = (
  run_update (settling_where l) (fail_set env.now category) c,
  if not (changed_one (settling_where l) c)
      then AuthenticatedFailureResult.stale
          "Settle definitive failure did not match an active settle lease."
      else AuthenticatedFailureResult.failed l.record_key,
)
