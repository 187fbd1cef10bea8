-- ===== src/Coordinator/Query/Status.antt =====
-- `getStatusByPaymentIdentifier`: what the snapshot of a record shows.
use x402_worker_template.Prelude.{
  if◌then◌else◌, ℕ, String, Option, none, some, ◌≡◌, true, false, refl, arith, leb, ltb, len,
  str_eq, subst, Bool-cases, Option-cases, inl, inr,
}
use x402_worker_template.Js.{Platform, Value}
use x402_worker_template.Js.Text.{utf16_length}
use x402_worker_template.Js.Text.Units.{utf16_length-len}
use x402_worker_template.Coordinator.Types.{
  PaymentAttemptState, fulfilled, PaymentAttemptRow, FulfilledStatusResult, PaymentStatusSnapshot,
  Env,
}
use x402_worker_template.Coordinator.Table.{read_row_by_payment_identifier}
use x402_worker_template.Coordinator.Table.Laws.{All-select_first}
use x402_worker_template.Coordinator.State.{
  Coordinator, staged_response_max_bytes, allowed_staged_content_type,
}
use x402_worker_template.Coordinator.Settle.{has_text}
use x402_worker_template.Coordinator.Query.{
  status_body, parse_fulfilled_status_result, snapshot_of, get_status_by_payment_identifier,
}
use x402_worker_template.Coordinator.Invariant.{Inv, RowInv, StateInv, StagedText}

-- The record that an identifier shows: it must not have expired.
pub live_row : String → ℕ → Coordinator → Option PaymentAttemptRow
live_row id now c = elim (read_row_by_payment_identifier id c.table) [
  | none ↦ none
  | some r ↦ if leb r.expires_at now then none else some r
]

-- The result that a snapshot shows for the record.
abbrev pub IsResultOf : Platform → PaymentAttemptRow → Option FulfilledStatusResult → Type 0
IsResultOf p r none = ¬ (r.state ≡ fulfilled)
IsResultOf p r (some v) =
    (r.state ≡ fulfilled)
    × (v.content_type ≡ allowed_staged_content_type)
    × ((body : String) × (r.cached_response_json ≡ some body) × (p.parse body ≡ some v.body))

status_body-parses :
    (p : Platform) (body : String)
    → has_text (some body) ≡ true
    → leb (len body) staged_response_max_bytes ≡ true
    → (v : Value) → p.parse body ≡ some v
    → status_body p (some body)
      ≡ some (record { content_type = allowed_staged_content_type; body = v })
status_body-parses p body t small v e = elim (Bool-cases (str_eq body "")) [
  | inl h ↦ cc
  | inr h ↦ rw (h, e, fits) refl
]
  where
    fits : ltb staged_response_max_bytes (utf16_length body) ≡ false
    fits = ground (arith, utf16_length-len body)

module _ (p : Platform) (r : PaymentAttemptRow) where
  fulfilled-IsResultOf :
      (o : Option String)
      → r.state ≡ fulfilled
      → r.cached_response_json ≡ o
      → StagedText p o
      → has_text o ≡ true
      → r.cached_content_type ≡ some allowed_staged_content_type
      → IsResultOf p r (parse_fulfilled_status_result p r)
  unfolding parse_fulfilled_status_result
  fulfilled-IsResultOf none f b s t content = absurd s
  fulfilled-IsResultOf (some body) f b s t content = elim (Option-cases (p.parse body)) [
    | inl e ↦ absurd (cc (s.1, e))
    | inr (v, e) ↦
        rw (f, content, b, status_body-parses p body t s.0 v e) (refl, refl, (body, refl, e))
  ]

  unfulfilled-IsResultOf :
      (s : PaymentAttemptState)
      → r.state ≡ s
      → ¬ (s ≡ fulfilled)
      → IsResultOf p r (parse_fulfilled_status_result p r)
  unfolding parse_fulfilled_status_result
  unfulfilled-IsResultOf fulfilled f n = absurd (n refl)
  unfulfilled-IsResultOf s f n = rw f n

  RowInv-IsResultOf : RowInv p r → IsResultOf p r (parse_fulfilled_status_result p r)
  RowInv-IsResultOf v = by_state r.state refl
    where
      by_state :
          (s : PaymentAttemptState)
          → r.state ≡ s
          → IsResultOf p r (parse_fulfilled_status_result p r)
      by_state fulfilled f =
          let (released, generation, staged, filled, receipt, closed) =
            subst (λ x. StateInv p x r) f v.columns in
          fulfilled-IsResultOf r.cached_response_json f refl staged.body filled staged.content_type
      by_state s f = unfulfilled-IsResultOf s f (ground arith)

-- What the coordinator answers about an identifier: nothing where no live record has it, and else
-- the state, the times, the transaction and the result of that record.
pub record IsSnapshotOf (p : Platform) (r : PaymentAttemptRow) (s : PaymentStatusSnapshot)
    : Type 0 where
  pub state : s.state ≡ r.state
  pub updated : s.updated_at ≡ r.updated_at
  pub transaction : s.transaction_hash ≡ r.transaction_hash
  pub result : IsResultOf p r s.fulfilled_result

abbrev pub Snapshots : Platform → Option PaymentAttemptRow → Option PaymentStatusSnapshot → Type 0
Snapshots p none o = o ≡ none
Snapshots p (some r) o = (s : PaymentStatusSnapshot) × (o ≡ some s) × IsSnapshotOf p r s

pub get_status-Snapshots :
    (p : Platform) (env : Env) (id : String) (c : Coordinator)
    → Inv p c
    → Snapshots p (live_row id env.now c) (get_status_by_payment_identifier p env id c)
unfolding live_row get_status_by_payment_identifier snapshot_of read_row_by_payment_identifier
get_status-Snapshots p env id c v =
    elim (Option-cases (read_row_by_payment_identifier id c.table)) [
      | inl e ↦ rw (e, live_row, get_status_by_payment_identifier) refl
      | inr (r, e) ↦ elim (Bool-cases (leb r.expires_at env.now)) [
        | inl old ↦ rw (e, live_row, get_status_by_payment_identifier, old) refl
        | inr live ↦
            rw (e, live_row, get_status_by_payment_identifier, live)
              (
                snapshot_of p r,
                refl,
                record {
                  state = refl;
                  updated = refl;
                  transaction = refl;
                  result = RowInv-IsResultOf p r (row_by_identifier r e);
                },
              )
      ]
    ]
  where
    row_by_identifier :
        (r : PaymentAttemptRow) → read_row_by_payment_identifier id c.table ≡ some r → RowInv p r
    row_by_identifier r e = All-select_first (RowInv p) _ c.table r v.rows e
