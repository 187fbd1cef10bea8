-- ===== src/Coordinator/Prepare.antt =====
-- PaymentCoordinatorDurableObject.ts, `prepareAttempt`: a payment attempt is created, or found.
pub mod Repeats
use x402_worker_template.Prelude.{
  ◌+◌, String, Bool, not, ◌&&◌, none, some, or_else, str_eq, if◌then◌else◌,
}
use x402_worker_template.Js.{Platform}
use x402_worker_template.Keys.{build_record_key}
use x402_worker_template.Coordinator.Types.{
  PaymentAttemptState, reserved, fulfilled, failed_definitive, PaymentAttemptRow,
  PrepareAttemptInput, PrepareAttemptResult, created, replay, wait, conflict, Env,
}
use x402_worker_template.Coordinator.Table.{
  Table, read_row, read_row_by_payment_identifier, read_row_by_auth_commitment, insert_row,
}
use x402_worker_template.Coordinator.State.{Coordinator, record_ttl_ms, schedule_next_cleanup_alarm}

is_same_attempt_identity : PaymentAttemptRow → PrepareAttemptInput → Bool
is_same_attempt_identity r i =
    str_eq r.payment_identifier i.payment_identifier
    && str_eq r.terms_fingerprint i.terms_fingerprint
    && str_eq r.auth_commitment i.auth_commitment
    && str_eq r.resource_identity_hash i.resource_identity_hash
    && str_eq r.authorization_nonce i.authorization_nonce
    && str_eq r.network i.network
    && str_eq r.asset i.asset
    && str_eq r.amount i.amount

-- Both last returns of the source answer `wait`.
classify_state : PaymentAttemptState → String → PrepareAttemptResult
classify_state fulfilled key = replay key
classify_state failed_definitive key = PrepareAttemptResult.failed key
classify_state PaymentAttemptState.uncertain key = PrepareAttemptResult.uncertain key
classify_state s key = wait key s

abbrev different_terms : PrepareAttemptResult
different_terms = conflict "Payment identifier is bound to different terms."

abbrev different_authorization : PrepareAttemptResult
different_authorization = conflict "Payment identifier is bound to different authorization."

abbrev pub different_identifier : PrepareAttemptResult
different_identifier = conflict "Authorization is bound to a different payment identifier."

pub classify_existing_prepare_row : PaymentAttemptRow → PrepareAttemptInput → PrepareAttemptResult
unfolding is_same_attempt_identity classify_state
classify_existing_prepare_row r i =
    if not (is_same_attempt_identity r i)
    then (if str_eq r.payment_identifier i.payment_identifier
        then (if not (str_eq r.terms_fingerprint i.terms_fingerprint)
            then different_terms
            else different_authorization)
        else different_identifier)
    else classify_state r.state r.record_key

-- The row that the INSERT writes; the columns that it does not name are NULL.
unfoldable pub new_row : Platform → Env → PrepareAttemptInput → PaymentAttemptRow
new_row p env i = record {
  record_key = build_record_key p i.payment_identifier i.terms_fingerprint;
  payment_identifier = i.payment_identifier;
  auth_commitment = i.auth_commitment;
  terms_fingerprint = i.terms_fingerprint;
  resource_identity_hash = i.resource_identity_hash;
  authorization_nonce = i.authorization_nonce;
  network = i.network;
  asset = i.asset;
  amount = i.amount;
  state = reserved;
  operation_kind = none;
  operation_generation = 0;
  operation_token = none;
  operation_started_at = none;
  lease_expires_at = none;
  cached_response_json = none;
  cached_content_type = none;
  settlement_receipt_json = none;
  transaction_hash = none;
  failure_category = none;
  created_at = env.now;
  updated_at = env.now;
  expires_at = env.now + record_ttl_ms;
}

-- The `catch` of the INSERT: a unique constraint was violated.
unfoldable pub classify_violation : String → PrepareAttemptInput → Table → PrepareAttemptResult
classify_violation key i t =
    elim (or_else (read_row key t) (
      or_else (read_row_by_payment_identifier i.payment_identifier t)
        (read_row_by_auth_commitment i.auth_commitment t))) [
          | some r ↦ classify_existing_prepare_row r i
          | none ↦ conflict "Unique constraint violated."
        ]

unfoldable pub insert_attempt :
    Platform → Env → PrepareAttemptInput → Coordinator → Coordinator × PrepareAttemptResult
insert_attempt p env i c = elim (insert_row (new_row p env i) c.table) [
  | some t ↦ (
    schedule_next_cleanup_alarm (record c { table = t }),
    created (build_record_key p i.payment_identifier i.terms_fingerprint) reserved,
  )
  | none ↦ (
    c,
    classify_violation (build_record_key p i.payment_identifier i.terms_fingerprint) i c.table,
  )
]

-- Behind the two lookups by key: the authorization must not belong to another identifier.
unfoldable pub prepare_fresh :
    Platform → Env → PrepareAttemptInput → Coordinator → Coordinator × PrepareAttemptResult
prepare_fresh p env i c = elim (read_row_by_auth_commitment i.auth_commitment c.table) [
  | some r ↦
      if not (str_eq r.payment_identifier i.payment_identifier)
      then (c, different_identifier)
      else insert_attempt p env i c
  | none ↦ insert_attempt p env i c
]

pub classify_by_payment_identifier : PaymentAttemptRow → PrepareAttemptInput → PrepareAttemptResult
classify_by_payment_identifier r i =
    if not (str_eq r.terms_fingerprint i.terms_fingerprint)
    then different_terms
    else (if not (str_eq r.auth_commitment i.auth_commitment)
        then different_authorization
        else classify_existing_prepare_row r i)

unfoldable pub prepare_attempt :
    Platform → Env → PrepareAttemptInput → Coordinator → Coordinator × PrepareAttemptResult
prepare_attempt p env i c =
    elim (read_row (build_record_key p i.payment_identifier i.terms_fingerprint) c.table) [
      | some r ↦ (c, classify_existing_prepare_row r i)
      | none ↦ elim (read_row_by_payment_identifier i.payment_identifier c.table) [
        | some r ↦ (c, classify_by_payment_identifier r i)
        | none ↦ prepare_fresh p env i c
      ]
    ]
