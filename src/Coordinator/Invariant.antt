-- ===== src/Coordinator/Invariant.antt =====
-- What holds of the coordinator's storage between two calls.
pub mod Rows
pub mod Updates
pub mod Steps
use x402_worker_template.Prelude.{
  ℕ, ◌+◌, ◌≤◌, ◌<◌, String, List, true, Option, none, some, ◌≡◌, ◌⊎◌, is_some, leb, len, map, All,
  Distinct,
}
use x402_worker_template.Js.{Platform}
use x402_worker_template.Receipt.{StoredSettlementReceipt, receipt_value}
use x402_worker_template.Receipt.Laws.{IsStorable}
use x402_worker_template.Keys.{build_record_key}
use x402_worker_template.Coordinator.Types.{
  PaymentAttemptState, reserved, verifying, verified, computing, settling, fulfilled,
  failed_definitive, uncertain, OperationKind, verify, settle, PaymentAttemptRow,
}
use x402_worker_template.Coordinator.State.{
  Coordinator, record_ttl_ms, staged_response_max_bytes, allowed_staged_content_type,
}
use x402_worker_template.Coordinator.Settle.{has_text}

-- A lease of the kind is held, or was held last, under the generation.
pub record IsLeased (k : OperationKind) (generation : ℕ) (r : PaymentAttemptRow) : Type 0 where
  pub kind : r.operation_kind ≡ some k
  pub generation_is : r.operation_generation ≡ generation
  pub token : is_some r.operation_token ≡ true

pub record IsReleased (r : PaymentAttemptRow) : Type 0 where
  pub kind : r.operation_kind ≡ none
  pub token : r.operation_token ≡ none

pub record IsUnstaged (r : PaymentAttemptRow) : Type 0 where
  pub body : r.cached_response_json ≡ none

abbrev pub StagedText : Platform → Option String → Type 0
StagedText p none = ⊥
StagedText p (some body) =
    (leb (len body) staged_response_max_bytes ≡ true) × (is_some (p.parse body) ≡ true)

-- A body is staged: JSON within the size limit, under the one content type.
pub record IsStaged (p : Platform) (r : PaymentAttemptRow) : Type 0 where
  pub body : StagedText p r.cached_response_json
  pub content_type : r.cached_content_type ≡ some allowed_staged_content_type

pub record HasNoReceipt (r : PaymentAttemptRow) : Type 0 where
  pub receipt : r.settlement_receipt_json ≡ none
  pub transaction : r.transaction_hash ≡ none

-- The stored receipt is the JSON text of a storable receipt, and its hash is the row's.
pub record HasReceipt (p : Platform) (r : PaymentAttemptRow) : Type 0 where
  pub receipt : StoredSettlementReceipt
  pub storable : IsStorable receipt
  pub json : r.settlement_receipt_json ≡ some (p.stringify (receipt_value receipt))
  pub transaction : r.transaction_hash ≡ some receipt.transaction

abbrev IsClosed : PaymentAttemptRow → Type 0
IsClosed r = r.lease_expires_at ≡ none

-- Settlement is under way: the settle lease was granted over a staged body that is not empty.
abbrev pub IsSettling : Platform → PaymentAttemptRow → Type 0
IsSettling p r = IsLeased settle 2 r × IsStaged p r × (has_text r.cached_response_json ≡ true)

-- What each state promises of the other columns.
abbrev pub StateInv : Platform → PaymentAttemptState → PaymentAttemptRow → Type 0
StateInv p reserved r =
    IsReleased r × (r.operation_generation ≡ 0) × IsUnstaged r × HasNoReceipt r × IsClosed r
StateInv p verifying r = IsLeased verify 1 r × IsUnstaged r × HasNoReceipt r
StateInv p verified r = IsLeased verify 1 r × IsUnstaged r × HasNoReceipt r × IsClosed r
StateInv p computing r = IsLeased verify 1 r × IsStaged p r × HasNoReceipt r × IsClosed r
StateInv p settling r = IsSettling p r × HasNoReceipt r
StateInv p fulfilled r =
    IsReleased r
    × (r.operation_generation ≡ 2)
    × IsStaged p r
    × (has_text r.cached_response_json ≡ true)
    × HasReceipt p r
    × IsClosed r
StateInv p failed_definitive r =
    IsReleased r
    × (0 < r.operation_generation)
    × (r.operation_generation ≤ 2)
    × HasNoReceipt r
    × IsClosed r
StateInv p uncertain r =
    (IsLeased verify 1 r × IsUnstaged r ⊎ IsSettling p r) × HasNoReceipt r × IsClosed r

pub record RowInv (p : Platform) (r : PaymentAttemptRow) : Type 0 where
  pub columns : StateInv p r.state r
  pub key : r.record_key ≡ build_record_key p r.payment_identifier r.terms_fingerprint
  pub lifetime : r.expires_at ≡ r.created_at + record_ttl_ms

abbrev record_keys : Coordinator → List String
record_keys c = map (λ r. r.record_key) c.table

abbrev payment_identifiers : Coordinator → List String
payment_identifiers c = map (λ r. r.payment_identifier) c.table

abbrev auth_commitments : Coordinator → List String
auth_commitments c = map (λ r. r.auth_commitment) c.table

pub record Inv (p : Platform) (c : Coordinator) : Type 0 where
  pub rows : All (RowInv p) c.table
  pub keys : Distinct (record_keys c)
  pub identifiers : Distinct (payment_identifiers c)
  pub commitments : Distinct (auth_commitments c)
