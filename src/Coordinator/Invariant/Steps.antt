-- ===== src/Coordinator/Invariant/Steps.antt =====
-- `handleRpc`: the invariant of the storage across every call.
use x402_worker_template.Prelude.{ℕ, suc, String, true, Option, some, ◌≡◌, refl, arith, str_eq_iff}
use x402_worker_template.Js.{Platform, Value}
use x402_worker_template.Receipt.{SettleResponse}
use x402_worker_template.Receipt.Laws.{validate-IsStorable}
use x402_worker_template.Coordinator.Types.{
  computing, PaymentAttemptRow, PrepareAttemptInput, Lease, Env, CoordinatorRpcRequest,
}
use x402_worker_template.Coordinator.Table.{
  read_row, read_row_by_payment_identifier, read_row_by_auth_commitment,
}
use x402_worker_template.Coordinator.Table.Laws.{
  All-update_where_and, All-delete_expired, All-append_one, select_first-none, Distinct-append_one,
  Distinct-delete_expired, read_row_unique,
}
use x402_worker_template.Coordinator.State.{Coordinator, run_update, schedule_next_cleanup_alarm}
use x402_worker_template.Coordinator.Prepare.{new_row, prepare_attempt}
use x402_worker_template.Coordinator.Verify.{
  grant_verify_lease, acquire_verify_lease, stage_response,
}
use x402_worker_template.Coordinator.Settle.{
  has_staged_json, grant_settle_lease, acquire_settle_lease, complete_fulfillment,
}
use x402_worker_template.Coordinator.Query.{run_ttl_cleanup}
use x402_worker_template.Coordinator.Rpc.{handle_rpc}
use x402_worker_template.Coordinator.Cases.{
  AcquireVerify, acquire_verify_cases, AcquireSettle, acquire_settle_cases, Prepare, Prepare-cases,
  Stage, Stage-cases, Complete, Complete-cases,
}
use x402_worker_template.Coordinator.Invariant.{RowInv, Inv}
use x402_worker_template.Coordinator.Invariant.Rows
use x402_worker_template.Coordinator.Invariant.Updates.{
  run_update-keys, run_update-Inv, read_row-RowInv, complete_verify-Inv, mark_verify_uncertain-Inv,
  store_response-Inv, fail_verify_definitive-Inv, fail_post_verify_definitive-Inv, fulfill-Inv,
  mark_settle_uncertain-Inv, fail_settle_definitive-Inv,
}

module _ (p : Platform) (c : Coordinator) (v : Inv p c) where
  granted_second :
      (key : String) (r : PaymentAttemptRow)
      → read_row key c.table ≡ some r
      → r.state ≡ computing
      → suc r.operation_generation ≡ 2
  granted_second key r found state = ground (arith, read_row-RowInv p c v key r found)

  stage_response-Inv :
      (env : Env) (key body content_type : String)
      → Inv p (stage_response p env key body content_type c).0
  stage_response-Inv env key body content_type = elim (Stage-cases p env key body content_type c) [
    | Stage.refused reason e ↦ rw e v
    | Stage.stored json small valid e ↦
        rw (e, json) (store_response-Inv p c v env key body small valid)
  ]

  complete_fulfillment-Inv :
      (env : Env) (l : Lease) (value : Value) → Inv p (complete_fulfillment p env l value c).0
  complete_fulfillment-Inv env l value = elim (Complete-cases p env l value c) [
    | Complete.refused reason e ↦ rw e v
    | Complete.fulfills receipt e f ↦
        rw f (fulfill-Inv p c v env l receipt (validate-IsStorable value receipt e))
  ]

  grant_verify_lease-Inv :
      (env : Env) (key : String) (expires : Option String) (generation : ℕ)
      → generation ≡ 1
      → Inv p (grant_verify_lease env key expires generation c).0
  unfolding grant_verify_lease
  grant_verify_lease-Inv env key expires generation e =
      run_update-Inv p c v _ _
        (record { key = λ r. refl; identifier = λ r. refl; commitment = λ r. refl })
        (λ r h i. rw e (Rows.acquire_verify_set-RowInv p env r i key expires h))

  acquire_verify_lease-Inv :
      (env : Env) (key : String) (expires : Option String)
      → Inv p (acquire_verify_lease env key expires c).0
  acquire_verify_lease-Inv env key expires = elim (acquire_verify_cases env key expires c) [
    | AcquireVerify.refused reason e ↦ rw e v
    | AcquireVerify.granted r found state e ↦ rw e (
        grant_verify_lease-Inv env key expires _
          (ground (arith, read_row-RowInv p c v key r found)))
  ]

  grant_settle_lease-Inv :
      (env : Env) (key : String) (expires : Option String) (r : PaymentAttemptRow)
      → read_row key c.table ≡ some r
      → r.state ≡ computing
      → has_staged_json r ≡ true
      → Inv p (grant_settle_lease env key expires (suc r.operation_generation) c).0
  unfolding grant_settle_lease run_update
  grant_settle_lease-Inv env key expires r found state ready =
      run_update-keys p c v _ _
        (record { key = λ s. refl; identifier = λ s. refl; commitment = λ s. refl })
        (All-update_where_and (RowInv p) (λ s. s.record_key ≡ key → s ≡ r) _ _ c.table
          (λ s h i same.
            let twin : s ≡ r = same (ground (arith, str_eq_iff s.record_key key)) in
            rw (granted_second key r found state)
              (Rows.acquire_settle_set-RowInv p env s i key expires (ground arith) h))
          v.rows (read_row_unique key r c.table v.keys found))

  acquire_settle_lease-Inv :
      (env : Env) (key : String) (expires : Option String)
      → Inv p (acquire_settle_lease env key expires c).0
  acquire_settle_lease-Inv env key expires = elim (acquire_settle_cases env key expires c) [
    | AcquireSettle.refused reason e ↦ rw e v
    | AcquireSettle.granted r found state ready e ↦
        rw e (grant_settle_lease-Inv env key expires r found state ready)
  ]

  new_row-RowInv : (env : Env) (i : PrepareAttemptInput) → RowInv p (new_row p env i)
  unfolding new_row
  new_row-RowInv env i = ground arith

  prepare_attempt-Inv : (env : Env) (i : PrepareAttemptInput) → Inv p (prepare_attempt p env i c).0
  unfolding schedule_next_cleanup_alarm new_row read_row read_row_by_payment_identifier
      read_row_by_auth_commitment
  prepare_attempt-Inv env i = elim (Prepare-cases p env i c) [
    | Prepare.found answer e ↦ rw e v
    | Prepare.inserted a b d e ↦ rw e (record {
      rows = All-append_one (RowInv p) c.table (new_row p env i) v.rows (new_row-RowInv env i);
      keys =
          Distinct-append_one (λ r. r.record_key) c.table _ v.keys
            (select_first-none (λ r. r.record_key) _ c.table a);
      identifiers =
          Distinct-append_one (λ r. r.payment_identifier) c.table _ v.identifiers
            (select_first-none (λ r. r.payment_identifier) _ c.table b);
      commitments =
          Distinct-append_one (λ r. r.auth_commitment) c.table _ v.commitments
            (select_first-none (λ r. r.auth_commitment) _ c.table d);
    })
  ]

  pub run_ttl_cleanup-Inv : (env : Env) (now : Option ℕ) → Inv p (run_ttl_cleanup env now c).0
  unfolding run_ttl_cleanup
  run_ttl_cleanup-Inv env now = record {
    rows = All-delete_expired (RowInv p) _ c.table v.rows;
    keys = Distinct-delete_expired (λ r. r.record_key) _ c.table v.keys;
    identifiers = Distinct-delete_expired (λ r. r.payment_identifier) _ c.table v.identifiers;
    commitments = Distinct-delete_expired (λ r. r.auth_commitment) _ c.table v.commitments;
  }

-- Whatever the request, the clock and the random bytes, a call keeps the invariant.
pub handle_rpc-Inv :
    (p : Platform) (encode : SettleResponse → String) (env : Env) (q : CoordinatorRpcRequest)
    (c : Coordinator)
    → Inv p c
    → Inv p (handle_rpc p encode env q c).0
unfolding handle_rpc
handle_rpc-Inv p encode env (CoordinatorRpcRequest.prepare_attempt i) c v =
    prepare_attempt-Inv p c v env i
handle_rpc-Inv p encode env (CoordinatorRpcRequest.acquire_verify_lease key expires) c v =
    acquire_verify_lease-Inv p c v env key expires
handle_rpc-Inv p encode env (CoordinatorRpcRequest.complete_verify l) c v =
    complete_verify-Inv p c v env l
handle_rpc-Inv p encode env (CoordinatorRpcRequest.mark_verify_uncertain l) c v =
    mark_verify_uncertain-Inv p c v env l
handle_rpc-Inv p encode env (CoordinatorRpcRequest.stage_response key body content_type) c v =
    stage_response-Inv p c v env key body content_type
handle_rpc-Inv p encode env (CoordinatorRpcRequest.acquire_settle_lease key expires) c v =
    acquire_settle_lease-Inv p c v env key expires
handle_rpc-Inv p encode env (CoordinatorRpcRequest.complete_fulfillment l value) c v =
    complete_fulfillment-Inv p c v env l value
handle_rpc-Inv p encode env (CoordinatorRpcRequest.mark_settle_uncertain l) c v =
    mark_settle_uncertain-Inv p c v env l
handle_rpc-Inv p encode env (CoordinatorRpcRequest.fail_verify_definitive l category) c v =
    fail_verify_definitive-Inv p c v env l category
handle_rpc-Inv p encode env (CoordinatorRpcRequest.fail_post_verify_definitive l category) c v =
    fail_post_verify_definitive-Inv p c v env l category
handle_rpc-Inv p encode env (CoordinatorRpcRequest.fail_settle_definitive l category) c v =
    fail_settle_definitive-Inv p c v env l category
handle_rpc-Inv p encode env (CoordinatorRpcRequest.get_replay key) c v = v
handle_rpc-Inv p encode env (CoordinatorRpcRequest.get_status_by_payment_identifier id) c v = v
handle_rpc-Inv p encode env (CoordinatorRpcRequest.run_ttl_cleanup now) c v =
    run_ttl_cleanup-Inv p c v env now
handle_rpc-Inv p encode env CoordinatorRpcRequest.unknown_method c v = v
