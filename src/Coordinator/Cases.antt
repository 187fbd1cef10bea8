-- ===== src/Coordinator/Cases.antt =====
-- Each guarded call of the coordinator in two cases: refused with the storage unchanged, or run,
-- with what its guards have established.
use x402_worker_template.Prelude.{
  suc, String, true, false, Option, none, some, [], ◌∷◌, ◌++◌, ◌≡◌, refl, inl, inr, arith, is_some,
  leb, len, str_eq, str_eq_iff, Bool-cases, Option-cases,
}
use x402_worker_template.Js.{Platform, Value}
use x402_worker_template.Receipt.{
  StoredSettlementReceipt, ReceiptResult, validate_settlement_receipt,
}
use x402_worker_template.Keys.{build_record_key}
use x402_worker_template.Coordinator.Types.{
  PaymentAttemptState, reserved, computing, PaymentAttemptRow, PrepareAttemptInput,
  PrepareAttemptResult, created, Lease, LeaseAcquireResult, CompletionResult, StageResponseResult,
  Env,
}
use x402_worker_template.Coordinator.Table.{
  read_row, read_row_by_payment_identifier, read_row_by_auth_commitment,
}
use x402_worker_template.Coordinator.Table.Laws.{
  All-select_first, NotIn-All, select_first-none, insert_row_fresh,
}
use x402_worker_template.Coordinator.State.{
  Coordinator, staged_response_max_bytes, allowed_staged_content_type, schedule_next_cleanup_alarm,
}
use x402_worker_template.Coordinator.Verify.{
  grant_verify_lease, acquire_verify_lease, store_response, stage_response,
}
use x402_worker_template.Coordinator.Settle.{
  has_staged_json, row_has_staged_json, grant_settle_lease, acquire_settle_lease, fulfill,
  complete_fulfillment,
}
use x402_worker_template.Coordinator.Prepare.{
  classify_existing_prepare_row, different_identifier, new_row, insert_attempt, prepare_fresh,
  classify_by_payment_identifier, prepare_attempt,
}

module _ (env : Env) (key : String) (expires : Option String) (c : Coordinator) where
  pub data AcquireVerify (result : Coordinator × LeaseAcquireResult) : Type 0 where
    refused :
        (reason : String) → result ≡ (c, LeaseAcquireResult.rejected reason) → AcquireVerify result
    granted :
        (r : PaymentAttemptRow)
        → read_row key c.table ≡ some r
        → r.state ≡ reserved
        → result ≡ grant_verify_lease env key expires (suc r.operation_generation) c
        → AcquireVerify result

  verify_found :
      (r : PaymentAttemptRow) (s : PaymentAttemptState)
      → r.state ≡ s
      → read_row key c.table ≡ some r
      → AcquireVerify (acquire_verify_lease env key expires c)
  unfolding acquire_verify_lease
  verify_found r reserved e f = granted r f e (rw (f, acquire_verify_lease, e))
  verify_found r PaymentAttemptState.uncertain e f =
      refused "Verify lease cannot be acquired from uncertain." (rw (f, acquire_verify_lease, e))
  verify_found r _ e f =
      refused "Verify lease requires reserved state." (rw (f, acquire_verify_lease, e))

  pub acquire_verify_cases : AcquireVerify (acquire_verify_lease env key expires c)
  unfolding acquire_verify_lease
  acquire_verify_cases = elim (Option-cases (read_row key c.table)) [
    | inl e ↦ refused "Record not found." (rw (e, acquire_verify_lease))
    | inr (r, e) ↦ verify_found r r.state refl e
  ]

  pub data AcquireSettle (result : Coordinator × LeaseAcquireResult) : Type 0 where
    refused :
        (reason : String) → result ≡ (c, LeaseAcquireResult.rejected reason) → AcquireSettle result
    granted :
        (r : PaymentAttemptRow)
        → read_row key c.table ≡ some r
        → r.state ≡ computing
        → has_staged_json r ≡ true
        → result ≡ grant_settle_lease env key expires (suc r.operation_generation) c
        → AcquireSettle result

  settle_found :
      (r : PaymentAttemptRow) (s : PaymentAttemptState)
      → r.state ≡ s
      → read_row key c.table ≡ some r
      → AcquireSettle (acquire_settle_lease env key expires c)
  unfolding acquire_settle_lease
  settle_found r computing e f = elim (Bool-cases (has_staged_json r)) [
    | inl g ↦ granted r f e g (rw (f, acquire_settle_lease, e, g))
    | inr g ↦
        refused "Settle lease requires a staged JSON response." (rw (f, acquire_settle_lease, e, g))
  ]
  settle_found r PaymentAttemptState.uncertain e f =
      refused "Settle lease cannot be acquired from uncertain." (rw (f, acquire_settle_lease, e))
  settle_found r _ e f =
      refused "Settle lease requires computing state." (rw (f, acquire_settle_lease, e))

  pub acquire_settle_cases : AcquireSettle (acquire_settle_lease env key expires c)
  unfolding acquire_settle_lease
  acquire_settle_cases = elim (Option-cases (read_row key c.table)) [
    | inl e ↦ refused "Record not found." (rw (e, acquire_settle_lease))
    | inr (r, e) ↦ settle_found r r.state refl e
  ]

-- The rows of an authorization or an identifier rule an attempt out before the INSERT is reached,
-- so the INSERT violates no unique constraint.
module _ (p : Platform) (env : Env) (i : PrepareAttemptInput) (c : Coordinator) where
  abbrev key_of : String
  key_of = build_record_key p i.payment_identifier i.terms_fingerprint

  pub data Prepare (result : Coordinator × PrepareAttemptResult) : Type 0 where
    found : (answer : PrepareAttemptResult) → result ≡ (c, answer) → Prepare result
    inserted :
        read_row key_of c.table ≡ none
        → read_row_by_payment_identifier i.payment_identifier c.table ≡ none
        → read_row_by_auth_commitment i.auth_commitment c.table ≡ none
        → result ≡ (
          schedule_next_cleanup_alarm (record c { table = c.table ++ new_row p env i ∷ [] }),
          created key_of reserved,
        )
        → Prepare result

  insert_fresh :
      read_row key_of c.table ≡ none
      → read_row_by_payment_identifier i.payment_identifier c.table ≡ none
      → read_row_by_auth_commitment i.auth_commitment c.table ≡ none
      → Prepare (insert_attempt p env i c)
  unfolding insert_attempt new_row
  insert_fresh a b d =
      inserted a b d (rw (insert_row_fresh (new_row p env i) c.table a b d, insert_attempt))

  -- A row found by its authorization alone belongs to another identifier.
  other_identifier :
      (r : PaymentAttemptRow)
      → read_row_by_payment_identifier i.payment_identifier c.table ≡ none
      → read_row_by_auth_commitment i.auth_commitment c.table ≡ some r
      → str_eq r.payment_identifier i.payment_identifier ≡ false
  unfolding read_row_by_payment_identifier read_row_by_auth_commitment
  other_identifier r b e = ground (
    arith,
    str_eq_iff r.payment_identifier i.payment_identifier,
    All-select_first (λ s. ¬ (s.payment_identifier ≡ i.payment_identifier)) _ c.table r
        (NotIn-All (λ s. s.payment_identifier) _ c.table
          (select_first-none (λ s. s.payment_identifier) _ c.table b))
        e,
  )

  prepare_fresh_cases :
      read_row key_of c.table ≡ none
      → read_row_by_payment_identifier i.payment_identifier c.table ≡ none
      → Prepare (prepare_fresh p env i c)
  unfolding prepare_fresh
  prepare_fresh_cases a b =
      elim (Option-cases (read_row_by_auth_commitment i.auth_commitment c.table)) [
        | inl d ↦ rw (d, prepare_fresh) (insert_fresh a b d)
        | inr (r, e) ↦ found different_identifier (rw (e, prepare_fresh, other_identifier r b e))
      ]

  pub Prepare-cases : Prepare (prepare_attempt p env i c)
  unfolding prepare_attempt
  Prepare-cases = elim (Option-cases (read_row key_of c.table)) [
    | inr (r, e) ↦ found (classify_existing_prepare_row r i) (rw (e, prepare_attempt))
    | inl a ↦ elim (Option-cases (read_row_by_payment_identifier i.payment_identifier c.table)) [
      | inr (r, e) ↦ found (classify_by_payment_identifier r i) (rw (a, prepare_attempt, e))
      | inl b ↦ rw (a, prepare_attempt, b) (prepare_fresh_cases a b)
    ]
  ]

module _ (p : Platform) (env : Env) (key body content_type : String) (c : Coordinator) where
  pub data Stage (result : Coordinator × StageResponseResult) : Type 0 where
    refused : (reason : String) → result ≡ (c, StageResponseResult.rejected reason) → Stage result
    stored :
        content_type ≡ allowed_staged_content_type
        → leb (len body) staged_response_max_bytes ≡ true
        → is_some (p.parse body) ≡ true
        → result ≡ store_response env key body content_type c
        → Stage result

  pub Stage-cases : Stage (stage_response p env key body content_type c)
  unfolding stage_response
  Stage-cases = elim (Bool-cases (str_eq content_type allowed_staged_content_type)) [
    | inr e ↦ refused "Only application/json responses may be staged." (rw e)
    | inl e ↦ elim (Bool-cases (leb (len body) staged_response_max_bytes)) [
      | inr f ↦ refused "Staged response exceeds maximum size." (rw (e, f))
      | inl f ↦ elim (Bool-cases (is_some (p.parse body))) [
        | inr g ↦ refused "Staged response must be valid UTF-8 JSON." (rw (e, f, g))
        | inl g ↦ stored ((str_eq_iff content_type _).0 e) f g (rw (e, f, g))
      ]
    ]
  ]

module _ (p : Platform) (env : Env) (l : Lease) (value : Value) (c : Coordinator) where
  pub data Complete (result : Coordinator × CompletionResult) : Type 0 where
    refused : (reason : String) → result ≡ (c, CompletionResult.stale reason) → Complete result
    fulfills :
        (receipt : StoredSettlementReceipt)
        → validate_settlement_receipt value ≡ ReceiptResult.ok receipt
        → result ≡ fulfill p env l receipt c
        → Complete result

  Complete-validated :
      (q : ReceiptResult)
      → validate_settlement_receipt value ≡ q
      → Complete (complete_fulfillment p env l value c)
  unfolding complete_fulfillment
  Complete-validated (ReceiptResult.bad reason) e = refused reason (rw (e, complete_fulfillment))
  Complete-validated (ReceiptResult.ok receipt) e =
      elim (Bool-cases (row_has_staged_json (read_row l.record_key c.table))) [
        | inl f ↦ fulfills receipt e (rw (e, complete_fulfillment, f))
        | inr f ↦
            refused "Fulfillment requires a staged JSON response." (rw (e, complete_fulfillment, f))
      ]

  pub Complete-cases : Complete (complete_fulfillment p env l value c)
  Complete-cases = Complete-validated (validate_settlement_receipt value) refl
