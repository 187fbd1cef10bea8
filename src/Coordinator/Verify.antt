-- ===== src/Coordinator/Verify.antt =====
-- PaymentCoordinatorDurableObject.ts: the verify lease, its completion, the staged response, and
-- the definitive failures before settlement. Each statement has its WHERE and its SET by name.
use x402_worker_template.Prelude.{
  ℕ, suc, String, Bool, not, ◌&&◌, ◌||◌, Option, none, some, is_some, leb, len, str_eq,
  if◌then◌else◌,
}
use x402_worker_template.Js.{Platform}
use x402_worker_template.Coordinator.Types.{
  PaymentAttemptState, reserved, verifying, verified, computing, failed_definitive, verify,
  PaymentAttemptRow, Lease, LeaseAcquireResult, acquired, CompletionResult, completed,
  StageResponseResult, staged, AuthenticatedFailureResult, Env,
}
use x402_worker_template.Coordinator.Table.{read_row}
use x402_worker_template.Coordinator.State.{
  Coordinator, staged_response_max_bytes, allowed_staged_content_type, state_eq, holds, run_update,
  changed_one, generate_operation_token,
}

abbrev pub acquire_verify_where : String → PaymentAttemptRow → Bool
acquire_verify_where key r = str_eq r.record_key key && state_eq r.state reserved

abbrev pub acquire_verify_set : Env → ℕ → Option String → PaymentAttemptRow → PaymentAttemptRow
acquire_verify_set env generation expires r = record r {
  state = verifying;
  operation_kind = some verify;
  operation_generation = generation;
  operation_token = some (generate_operation_token env);
  operation_started_at = some env.now;
  lease_expires_at = expires;
  updated_at = env.now;
}

unfoldable pub grant_verify_lease :
    Env → String → Option String → ℕ → Coordinator → Coordinator × LeaseAcquireResult
grant_verify_lease env key expires generation c = (
  run_update (acquire_verify_where key) (acquire_verify_set env generation expires) c,
  if not (changed_one (acquire_verify_where key) c)
      then LeaseAcquireResult.rejected "Verify lease was not acquired."
      else acquired verify
          (record {
            record_key = key;
            operation_generation = generation;
            operation_token = generate_operation_token env;
          })
          expires,
)

unfoldable pub acquire_verify_lease :
    Env → String → Option String → Coordinator → Coordinator × LeaseAcquireResult
acquire_verify_lease env key expires c = elim (read_row key c.table) [
  | none ↦ (c, LeaseAcquireResult.rejected "Record not found.")
  | some r ↦
      if state_eq r.state PaymentAttemptState.uncertain
      then (c, LeaseAcquireResult.rejected "Verify lease cannot be acquired from uncertain.")
      else (if not (state_eq r.state reserved)
          then (c, LeaseAcquireResult.rejected "Verify lease requires reserved state.")
          else grant_verify_lease env key expires (suc r.operation_generation) c)
]

abbrev pub complete_verify_where : Lease → PaymentAttemptRow → Bool
complete_verify_where l r =
    holds verify l r
    && (state_eq r.state verifying || state_eq r.state PaymentAttemptState.uncertain)

abbrev pub complete_verify_set : ℕ → PaymentAttemptRow → PaymentAttemptRow
complete_verify_set now r = record r { state = verified; lease_expires_at = none; updated_at = now }

unfoldable pub complete_verify : Env → Lease → Coordinator → Coordinator × CompletionResult
complete_verify env l c = (
  run_update (complete_verify_where l) (complete_verify_set env.now) c,
  if not (changed_one (complete_verify_where l) c)
      then CompletionResult.stale "Verify completion did not match an active lease."
      else completed l.record_key verified,
)

abbrev pub mark_verify_uncertain_where : Lease → PaymentAttemptRow → Bool
mark_verify_uncertain_where l r = holds verify l r && state_eq r.state verifying

-- The SET of both uncertainty markers.
abbrev pub mark_uncertain_set : ℕ → PaymentAttemptRow → PaymentAttemptRow
mark_uncertain_set now r = record r {
  state = PaymentAttemptState.uncertain;
  lease_expires_at = none;
  updated_at = now;
}

unfoldable pub mark_verify_uncertain : Env → Lease → Coordinator → Coordinator × CompletionResult
mark_verify_uncertain env l c = (
  run_update (mark_verify_uncertain_where l) (mark_uncertain_set env.now) c,
  if not (changed_one (mark_verify_uncertain_where l) c)
      then CompletionResult.stale "Verify uncertainty marker did not match an active lease."
      else completed l.record_key PaymentAttemptState.uncertain,
)

abbrev pub stage_response_where : String → PaymentAttemptRow → Bool
stage_response_where key r = str_eq r.record_key key && state_eq r.state verified

abbrev pub stage_response_set : ℕ → String → String → PaymentAttemptRow → PaymentAttemptRow
stage_response_set now body content_type r = record r {
  state = computing;
  cached_response_json = some body;
  cached_content_type = some content_type;
  updated_at = now;
}

unfoldable pub store_response :
    Env → String → String → String → Coordinator → Coordinator × StageResponseResult
store_response env key body content_type c = (
  run_update (stage_response_where key) (stage_response_set env.now body content_type) c,
  if not (changed_one (stage_response_where key) c)
      then StageResponseResult.rejected "Response staging requires verified state."
      else staged key,
)

unfoldable pub stage_response :
    Platform → Env → String → String → String → Coordinator → Coordinator × StageResponseResult
stage_response p env key body content_type c =
    if not (str_eq content_type allowed_staged_content_type)
    then (c, StageResponseResult.rejected "Only application/json responses may be staged.")
    else (if not (leb (len body) staged_response_max_bytes)
        then (c, StageResponseResult.rejected "Staged response exceeds maximum size.")
        else (if not (is_some (p.parse body))
            then (c, StageResponseResult.rejected "Staged response must be valid UTF-8 JSON.")
            else store_response env key body content_type c))

-- The SET of the three definitive failures.
abbrev pub fail_set : ℕ → Option String → PaymentAttemptRow → PaymentAttemptRow
fail_set now category r = record r {
  state = failed_definitive;
  failure_category = category;
  lease_expires_at = none;
  operation_kind = none;
  operation_token = none;
  updated_at = now;
}

unfoldable pub fail_verify_definitive :
    Env → Lease → Option String → Coordinator → Coordinator × AuthenticatedFailureResult
fail_verify_definitive env l category c = (
  run_update (mark_verify_uncertain_where l) (fail_set env.now category) c,
  if not (changed_one (mark_verify_uncertain_where l) c)
      then AuthenticatedFailureResult.stale
          "Verify definitive failure did not match an active verify lease."
      else AuthenticatedFailureResult.failed l.record_key,
)

abbrev pub fail_post_verify_where : Lease → PaymentAttemptRow → Bool
fail_post_verify_where l r =
    holds verify l r && (state_eq r.state verified || state_eq r.state computing)

unfoldable pub fail_post_verify_definitive :
    Env → Lease → Option String → Coordinator → Coordinator × AuthenticatedFailureResult
fail_post_verify_definitive env l category c = (
  run_update (fail_post_verify_where l) (fail_set env.now category) c,
  if not (changed_one (fail_post_verify_where l) c)
      then AuthenticatedFailureResult.stale
          "Post-verify definitive failure did not match an authenticated verify operation."
      else AuthenticatedFailureResult.failed l.record_key,
)
