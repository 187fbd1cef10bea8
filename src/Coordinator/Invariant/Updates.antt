-- ===== src/Coordinator/Invariant/Updates.antt =====
-- The invariant across the calls that are one UPDATE.
use x402_worker_template.Prelude.{
  String, Bool, true, Option, some, ◌≡◌, refl, is_some, leb, len, All,
}
use x402_worker_template.Js.{Platform}
use x402_worker_template.Receipt.{StoredSettlementReceipt}
use x402_worker_template.Receipt.Laws.{IsStorable}
use x402_worker_template.Coordinator.Types.{PaymentAttemptRow, Lease, Env}
use x402_worker_template.Coordinator.Table.{read_row}
use x402_worker_template.Coordinator.Table.Laws.{
  All-update_where, All-select_first, map-update_where,
}
use x402_worker_template.Coordinator.State.{
  Coordinator, staged_response_max_bytes, allowed_staged_content_type, run_update,
}
use x402_worker_template.Coordinator.Verify.{
  complete_verify, mark_verify_uncertain, store_response, fail_verify_definitive,
  fail_post_verify_definitive,
}
use x402_worker_template.Coordinator.Settle.{fulfill, mark_settle_uncertain, fail_settle_definitive}
use x402_worker_template.Coordinator.Invariant.{RowInv, Inv}
use x402_worker_template.Coordinator.Invariant.Rows

-- A SET that leaves the three unique columns alone.
pub record KeepsKeys (f : PaymentAttemptRow → PaymentAttemptRow) : Type 0 where
  pub key : (r : PaymentAttemptRow) → (f r).record_key ≡ r.record_key
  pub identifier : (r : PaymentAttemptRow) → (f r).payment_identifier ≡ r.payment_identifier
  pub commitment : (r : PaymentAttemptRow) → (f r).auth_commitment ≡ r.auth_commitment

module _ (p : Platform) (c : Coordinator) (v : Inv p c) where
  pub run_update-keys :
      (w : PaymentAttemptRow → Bool) (f : PaymentAttemptRow → PaymentAttemptRow)
      → KeepsKeys f
      → All (RowInv p) (run_update w f c).table
      → Inv p (run_update w f c)
  unfolding run_update
  run_update-keys w f k rows = record {
    rows = rows;
    keys = rw (map-update_where (λ r. r.record_key) w f c.table k.key) v.keys;
    identifiers =
        rw (map-update_where (λ r. r.payment_identifier) w f c.table k.identifier) v.identifiers;
    commitments =
        rw (map-update_where (λ r. r.auth_commitment) w f c.table k.commitment) v.commitments;
  }

  pub run_update-Inv :
      (w : PaymentAttemptRow → Bool) (f : PaymentAttemptRow → PaymentAttemptRow)
      → KeepsKeys f
      → ((r : PaymentAttemptRow) → w r ≡ true → RowInv p r → RowInv p (f r))
      → Inv p (run_update w f c)
  unfolding run_update
  run_update-Inv w f k h = run_update-keys w f k (All-update_where (RowInv p) w f c.table h v.rows)

  -- The row that a key reads has what every row has.
  pub read_row-RowInv :
      (key : String) (r : PaymentAttemptRow) → read_row key c.table ≡ some r → RowInv p r
  unfolding read_row
  read_row-RowInv key r e = All-select_first (RowInv p) _ c.table r v.rows e

  pub complete_verify-Inv : (env : Env) (l : Lease) → Inv p (complete_verify env l c).0
  unfolding complete_verify
  complete_verify-Inv env l =
      run_update-Inv _ _
        (record { key = λ r. refl; identifier = λ r. refl; commitment = λ r. refl })
        (λ r h i. Rows.complete_verify_set-RowInv p env.now r i l h)

  pub mark_verify_uncertain-Inv : (env : Env) (l : Lease) → Inv p (mark_verify_uncertain env l c).0
  unfolding mark_verify_uncertain
  mark_verify_uncertain-Inv env l =
      run_update-Inv _ _
        (record { key = λ r. refl; identifier = λ r. refl; commitment = λ r. refl })
        (λ r h i. Rows.mark_verify_uncertain-RowInv p env.now r i l h)

  pub fail_verify_definitive-Inv :
      (env : Env) (l : Lease) (category : Option String)
      → Inv p (fail_verify_definitive env l category c).0
  unfolding fail_verify_definitive
  fail_verify_definitive-Inv env l category =
      run_update-Inv _ _
        (record { key = λ r. refl; identifier = λ r. refl; commitment = λ r. refl })
        (λ r h i. Rows.fail_verify-RowInv p env.now r i l category h)

  pub fail_post_verify_definitive-Inv :
      (env : Env) (l : Lease) (category : Option String)
      → Inv p (fail_post_verify_definitive env l category c).0
  unfolding fail_post_verify_definitive
  fail_post_verify_definitive-Inv env l category =
      run_update-Inv _ _
        (record { key = λ r. refl; identifier = λ r. refl; commitment = λ r. refl })
        (λ r h i. Rows.fail_post_verify-RowInv p env.now r i l category h)

  pub fail_settle_definitive-Inv :
      (env : Env) (l : Lease) (category : Option String)
      → Inv p (fail_settle_definitive env l category c).0
  unfolding fail_settle_definitive
  fail_settle_definitive-Inv env l category =
      run_update-Inv _ _
        (record { key = λ r. refl; identifier = λ r. refl; commitment = λ r. refl })
        (λ r h i. Rows.fail_settle-RowInv p env.now r i l category h)

  pub mark_settle_uncertain-Inv : (env : Env) (l : Lease) → Inv p (mark_settle_uncertain env l c).0
  unfolding mark_settle_uncertain
  mark_settle_uncertain-Inv env l =
      run_update-Inv _ _
        (record { key = λ r. refl; identifier = λ r. refl; commitment = λ r. refl })
        (λ r h i. Rows.mark_settle_uncertain-RowInv p env.now r i l h)

  pub store_response-Inv :
      (env : Env) (key body : String)
      → leb (len body) staged_response_max_bytes ≡ true
      → is_some (p.parse body) ≡ true
      → Inv p (store_response env key body allowed_staged_content_type c).0
  unfolding store_response
  store_response-Inv env key body small valid =
      run_update-Inv _ _
        (record { key = λ r. refl; identifier = λ r. refl; commitment = λ r. refl })
        (λ r h i. Rows.stage_response_set-RowInv p env.now r i key body small valid h)

  pub fulfill-Inv :
      (env : Env) (l : Lease) (receipt : StoredSettlementReceipt)
      → IsStorable receipt
      → Inv p (fulfill p env l receipt c).0
  unfolding fulfill
  fulfill-Inv env l receipt s =
      run_update-Inv _ _
        (record { key = λ r. refl; identifier = λ r. refl; commitment = λ r. refl })
        (λ r h i. Rows.complete_fulfillment_set-RowInv p env.now r i l receipt s h)
