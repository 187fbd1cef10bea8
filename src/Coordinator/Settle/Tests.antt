-- ===== src/Coordinator/Settle/Tests.antt =====
-- A settlement under way is recorded by its holder.
use x402_worker_template.Prelude.{
  String, true, none, some, [], ◌∷◌, ◌≡◌, ◌+◌, refl, inl, str_eq_refl,
}
use x402_worker_template.Receipt.{receipt_value}
use x402_worker_template.Receipt.Tests.{platform, receipt, receipt-IsStorable}
use x402_worker_template.Receipt.Laws.{validate-receipt_value}
use x402_worker_template.Keys.{build_record_key}
use x402_worker_template.Coordinator.Types.{
  settling, settle, fulfilled, PaymentAttemptRow, Lease, Env, completed,
}
use x402_worker_template.Coordinator.Table.{read_row, select_first}
use x402_worker_template.Coordinator.State.{Coordinator, record_ttl_ms, holds}
use x402_worker_template.Coordinator.Settle.{complete_fulfillment}
use x402_worker_template.Coordinator.Settle.Holder.{IsFulfilled, complete_fulfillment-fulfills}
use x402_worker_template.Coordinator.Invariant.{Inv}

abbrev key : String
key = build_record_key platform "payment-1" "terms"

abbrev env : Env
env = record { now = 700; random_bytes = [] }

abbrev lease : Lease
lease = record { record_key = key; operation_generation = 2; operation_token = "token" }

abbrev row : PaymentAttemptRow
row = record {
  record_key = key;
  payment_identifier = "payment-1";
  auth_commitment = "commitment";
  terms_fingerprint = "terms";
  resource_identity_hash = "resource";
  authorization_nonce = "nonce";
  network = "eip155:8453";
  asset = "usdc";
  amount = "1000";
  state = settling;
  operation_kind = some settle;
  operation_generation = 2;
  operation_token = some "token";
  operation_started_at = some 600;
  lease_expires_at = none;
  cached_response_json = some "receipt";
  cached_content_type = some "application/json";
  settlement_receipt_json = none;
  transaction_hash = none;
  failure_category = none;
  created_at = 500;
  updated_at = 600;
  expires_at = 500 + record_ttl_ms;
}

abbrev coordinator : Coordinator
coordinator = record { table = row ∷ []; alarm = none }

coordinator-Inv : Inv platform coordinator
coordinator-Inv = record {
  rows = (
    record {
      columns = (
        (
          record { kind = refl; generation_is = refl; token = refl },
          record { body = (refl, refl); content_type = refl },
          refl,
        ),
        record { receipt = refl; transaction = refl },
      );
      key = refl;
      lifetime = refl;
    },
    tt,
  );
  keys = (tt, tt);
  identifiers = (tt, tt);
  commitments = (tt, tt);
}

found : read_row key coordinator.table ≡ some row
unfolding read_row select_first
found = rw (str_eq_refl key) refl

held : holds settle lease row ≡ true
unfolding holds
held = rw (str_eq_refl key) refl

complete_fulfillment-fulfills_example :
    ((complete_fulfillment platform env lease (receipt_value receipt) coordinator).1
      ≡ completed key fulfilled)
    × (after : PaymentAttemptRow) × (read_row key
          (complete_fulfillment platform env lease (receipt_value receipt) coordinator).0.table
        ≡ some after)
    × IsFulfilled platform 700 receipt row after
complete_fulfillment-fulfills_example =
    complete_fulfillment-fulfills platform env lease (receipt_value receipt) receipt coordinator row
      coordinator-Inv found held (inl refl) (validate-receipt_value receipt receipt-IsStorable)
