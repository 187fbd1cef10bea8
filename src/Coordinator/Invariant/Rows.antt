-- ===== src/Coordinator/Invariant/Rows.antt =====
-- What the states promise of a row, across each UPDATE.
use x402_worker_template.Prelude.{ℕ, String, true, Option, ◌≡◌, arith, is_some, leb, len}
use x402_worker_template.Js.{Platform}
use x402_worker_template.Receipt.{StoredSettlementReceipt}
use x402_worker_template.Receipt.Laws.{IsStorable}
use x402_worker_template.Coordinator.Types.{PaymentAttemptRow, Lease, Env}
use x402_worker_template.Coordinator.State.{
  staged_response_max_bytes, allowed_staged_content_type, holds,
}
use x402_worker_template.Coordinator.Verify.{
  acquire_verify_where, acquire_verify_set, complete_verify_where, complete_verify_set,
  mark_verify_uncertain_where, mark_uncertain_set, stage_response_where, stage_response_set,
  fail_set, fail_post_verify_where,
}
use x402_worker_template.Coordinator.Settle.{
  acquire_settle_where, acquire_settle_set, complete_fulfillment_where, complete_fulfillment_set,
  settling_where, has_text,
}
use x402_worker_template.Coordinator.Invariant.{RowInv}

module _ (p : Platform) (now : ℕ) (r : PaymentAttemptRow) (v : RowInv p r) where
  pub complete_verify_set-RowInv :
      (l : Lease) → complete_verify_where l r ≡ true → RowInv p (complete_verify_set now r)
  unfolding holds
  complete_verify_set-RowInv l h = ground arith

  pub mark_verify_uncertain-RowInv :
      (l : Lease) → mark_verify_uncertain_where l r ≡ true → RowInv p (mark_uncertain_set now r)
  unfolding holds
  mark_verify_uncertain-RowInv l h = ground arith

  pub stage_response_set-RowInv :
      (key body : String)
      → leb (len body) staged_response_max_bytes ≡ true
      → is_some (p.parse body) ≡ true
      → stage_response_where key r ≡ true
      → RowInv p (stage_response_set now body allowed_staged_content_type r)
  stage_response_set-RowInv key body small valid h = ground arith

  pub fail_verify-RowInv :
      (l : Lease) (category : Option String)
      → mark_verify_uncertain_where l r ≡ true
      → RowInv p (fail_set now category r)
  unfolding holds
  fail_verify-RowInv l category h = ground arith

  pub fail_post_verify-RowInv :
      (l : Lease) (category : Option String)
      → fail_post_verify_where l r ≡ true
      → RowInv p (fail_set now category r)
  unfolding holds
  fail_post_verify-RowInv l category h = ground arith

  pub fail_settle-RowInv :
      (l : Lease) (category : Option String)
      → settling_where l r ≡ true
      → RowInv p (fail_set now category r)
  unfolding holds
  fail_settle-RowInv l category h = ground arith

  pub mark_settle_uncertain-RowInv :
      (l : Lease) → settling_where l r ≡ true → RowInv p (mark_uncertain_set now r)
  unfolding holds
  mark_settle_uncertain-RowInv l h = ground arith

  pub complete_fulfillment_set-RowInv :
      (l : Lease) (receipt : StoredSettlementReceipt)
      → IsStorable receipt
      → complete_fulfillment_where l r ≡ true
      → RowInv p (complete_fulfillment_set p now receipt r)
  unfolding holds
  complete_fulfillment_set-RowInv l receipt s h = ground arith

module _ (p : Platform) (env : Env) (r : PaymentAttemptRow) (v : RowInv p r) where
  pub acquire_verify_set-RowInv :
      (key : String) (expires : Option String)
      → acquire_verify_where key r ≡ true
      → RowInv p (acquire_verify_set env 1 expires r)
  acquire_verify_set-RowInv key expires h = ground arith

  pub acquire_settle_set-RowInv :
      (key : String) (expires : Option String)
      → has_text r.cached_response_json ≡ true
      → acquire_settle_where key r ≡ true
      → RowInv p (acquire_settle_set env 2 expires r)
  acquire_settle_set-RowInv key expires t h = ground arith
