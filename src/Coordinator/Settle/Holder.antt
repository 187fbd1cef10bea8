-- ===== src/Coordinator/Settle/Holder.antt =====
-- `completeFulfillment`, called by the holder of the settle lease.
use x402_worker_template.Prelude.{
  ℕ, String, true, Option, none, some, ◌≡◌, ◌⊎◌, inl, inr, refl, subst, arith, is_some, str_eq_iff,
}
use x402_worker_template.Js.{Platform, Value}
use x402_worker_template.Receipt.{
  StoredSettlementReceipt, ReceiptResult, validate_settlement_receipt, receipt_value,
}
use x402_worker_template.Coordinator.Types.{
  settling, uncertain, fulfilled, settle, PaymentAttemptRow, Lease, completed, Env,
}
use x402_worker_template.Coordinator.Table.{read_row}
use x402_worker_template.Coordinator.Table.Laws.{changes-read_row}
use x402_worker_template.Coordinator.Table.Reads.{read_row-update_where}
use x402_worker_template.Coordinator.State.{Coordinator, holds, changed_one, run_update}
use x402_worker_template.Coordinator.Settle.{
  has_text, has_staged_json, staged_where, complete_fulfillment_where, complete_fulfillment_set,
  fulfill, complete_fulfillment,
}
use x402_worker_template.Coordinator.Invariant.{Inv, StateInv, IsSettling}
use x402_worker_template.Coordinator.Invariant.Updates.{read_row-RowInv}

-- The record's settlement is under way, or its outcome is not known.
abbrev IsOpen : PaymentAttemptRow → Type 0
IsOpen r = (r.state ≡ settling) ⊎ (r.state ≡ uncertain)

has_text-is_some : (o : Option String) → has_text o ≡ true → is_some o ≡ true
has_text-is_some none h = cc
has_text-is_some (some s) h = refl

IsSettling-staged :
    (p : Platform) (r : PaymentAttemptRow)
    → IsSettling p r
    → (has_staged_json r ≡ true) × (staged_where r ≡ true)
IsSettling-staged p r (leased, staged, filled) = (
  rw (filled, staged.content_type) refl,
  rw (has_text-is_some r.cached_response_json filled, staged.content_type) refl,
)

module _ (p : Platform) (l : Lease) (c : Coordinator) (r : PaymentAttemptRow) where
  held-IsSettling :
      Inv p c
      → read_row l.record_key c.table ≡ some r
      → holds settle l r ≡ true
      → IsOpen r
      → IsSettling p r
  unfolding holds
  held-IsSettling v e h (inl s) =
      (subst (λ x. StateInv p x r) s (read_row-RowInv p c v l.record_key r e).columns).0
  held-IsSettling v e h (inr s) =
      elim (subst (λ x. StateInv p x r) s (read_row-RowInv p c v l.record_key r e).columns).0 [
        | inr settles ↦ settles
        | inl verifies ↦ ground (arith, verifies.0.kind)
      ]

  where_holds :
      holds settle l r ≡ true
      → IsOpen r
      → staged_where r ≡ true
      → complete_fulfillment_where l r ≡ true
  where_holds h (inl s) g = rw (h, s, g) refl
  where_holds h (inr s) g = rw (h, s, g) refl

  -- The statement touches the one row that the lease names.
  fulfill-fulfills :
      (env : Env) (receipt : StoredSettlementReceipt)
      → Inv p c
      → read_row l.record_key c.table ≡ some r
      → complete_fulfillment_where l r ≡ true
      → ((fulfill p env l receipt c).1 ≡ completed l.record_key fulfilled)
        × (read_row l.record_key (fulfill p env l receipt c).0.table
            ≡ some (complete_fulfillment_set p env.now receipt r))
  unfolding fulfill changed_one run_update holds
  fulfill-fulfills env receipt v e w = (
    rw (changes-read_row (complete_fulfillment_where l) l.record_key c.table pins v.keys, e, w)
        refl,
    rw
        (
          read_row-update_where l.record_key (complete_fulfillment_where l)
              (complete_fulfillment_set p env.now receipt) c.table (λ s. refl),
          e,
          w,
        )
        refl,
  )
    where
      pins :
          (s : PaymentAttemptRow)
          → complete_fulfillment_where l s ≡ true
          → s.record_key ≡ l.record_key
      pins s h = (str_eq_iff s.record_key l.record_key).0 (ground arith)

-- A record that was settled with a receipt, beside the one before: what became of every column that
-- changes, and that the answer to replay and the identity of the attempt stay.
pub record IsFulfilled (p : Platform) (now : ℕ) (receipt : StoredSettlementReceipt)
    (before after : PaymentAttemptRow) : Type 0 where
  state : after.state ≡ fulfilled
  receipt_json : after.settlement_receipt_json ≡ some (p.stringify (receipt_value receipt))
  transaction : after.transaction_hash ≡ some receipt.transaction
  no_expiry : after.lease_expires_at ≡ none
  no_kind : after.operation_kind ≡ none
  no_token : after.operation_token ≡ none
  updated : after.updated_at ≡ now
  body : after.cached_response_json ≡ before.cached_response_json
  content_type : after.cached_content_type ≡ before.cached_content_type
  key : after.record_key ≡ before.record_key
  identifier : after.payment_identifier ≡ before.payment_identifier
  commitment : after.auth_commitment ≡ before.auth_commitment
  expiry : after.expires_at ≡ before.expires_at

set-IsFulfilled :
    (p : Platform) (now : ℕ) (receipt : StoredSettlementReceipt) (r : PaymentAttemptRow)
    → IsFulfilled p now receipt r (complete_fulfillment_set p now receipt r)
set-IsFulfilled p now receipt r = record {
  state = refl;
  receipt_json = refl;
  transaction = refl;
  no_expiry = refl;
  no_kind = refl;
  no_token = refl;
  updated = refl;
  body = refl;
  content_type = refl;
  key = refl;
  identifier = refl;
  commitment = refl;
  expiry = refl;
}

-- Whoever holds the settle lease of a record, as long as the record is settling or uncertain, can
-- record the settlement: a call with the lease and a settle response that passes the receipt check
-- is answered with completion, and leaves the record fulfilled, with that receipt and its
-- transaction, without a lease, and with the staged answer and the identity that it had.
pub complete_fulfillment-fulfills :
    (p : Platform) (env : Env) (l : Lease) (value : Value) (receipt : StoredSettlementReceipt)
    (c : Coordinator) (r : PaymentAttemptRow)
    → Inv p c
    → read_row l.record_key c.table ≡ some r
    → holds settle l r ≡ true
    → IsOpen r
    → validate_settlement_receipt value ≡ ReceiptResult.ok receipt
    → ((complete_fulfillment p env l value c).1 ≡ completed l.record_key fulfilled)
      × (after : PaymentAttemptRow) × (read_row l.record_key
            (complete_fulfillment p env l value c).0.table
          ≡ some after)
      × IsFulfilled p env.now receipt r after
unfolding complete_fulfillment
complete_fulfillment-fulfills p env l value receipt c r v e h o q =
    let staged = IsSettling-staged p r (held-IsSettling p l c r v e h o) in
    let (answer, row) =
      fulfill-fulfills p l c r env receipt v e (where_holds p l c r h o staged.1) in
    rw (runs staged.0) (
      answer,
      complete_fulfillment_set p env.now receipt r,
      row,
      set-IsFulfilled p env.now receipt r,
    )
  where
    runs :
        has_staged_json r ≡ true → complete_fulfillment p env l value c ≡ fulfill p env l receipt c
    runs g = rw (q, complete_fulfillment, e, g) refl
