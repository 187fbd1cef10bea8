-- ===== src/Coordinator/Query/Replays.antt =====
-- `getReplay` of a fulfilled record.
use x402_worker_template.Prelude.{
  subst, String, Option, none, some, ◌≡◌, true, refl, str_eq, Bool-cases, inl, inr,
}
use x402_worker_template.Js.{Platform}
use x402_worker_template.Receipt.{
  SettleResponse, ReceiptResult, parse_stored_settlement_receipt, StoredSettlementReceipt,
  receipt_value, stored_receipt_to_settle_response,
}
use x402_worker_template.Receipt.Laws.{IsStorable, parse-stringify_receipt}
use x402_worker_template.Replay.{FulfilledReplay, ok, build_fulfilled_replay_response, replay_of}
use x402_worker_template.Coordinator.Types.{PaymentAttemptRow, fulfilled}
use x402_worker_template.Coordinator.Table.{read_row}
use x402_worker_template.Coordinator.State.{Coordinator, allowed_staged_content_type}
use x402_worker_template.Coordinator.Query.{get_replay}
use x402_worker_template.Coordinator.Settle.{has_text}
use x402_worker_template.Coordinator.Invariant.{Inv, StateInv, StagedText, HasReceipt}
use x402_worker_template.Coordinator.Invariant.Updates.{read_row-RowInv}

-- The JSON text of a stored receipt parses back to its object, and the empty text is no JSON.
pub record ReadsReceipts (p : Platform) : Type 0 where
  pub empty : p.parse "" ≡ none
  pub back :
      (r : StoredSettlementReceipt)
      → IsStorable r
      → p.parse (p.stringify (receipt_value r)) ≡ some (receipt_value r)

-- What a replay takes from the record: its staged body, and the response of its settlement.
pub record IsReplayOf (p : Platform) (encode : SettleResponse → String) (r : PaymentAttemptRow)
    (q : FulfilledReplay) : Type 0 where
  body : r.cached_response_json ≡ some q.body
  content_type : q.content_type ≡ allowed_staged_content_type
  receipt : StoredSettlementReceipt
  stored : r.settlement_receipt_json ≡ some (p.stringify (receipt_value receipt))
  hash : r.transaction_hash ≡ some receipt.transaction
  header : q.payment_response_header ≡ encode (stored_receipt_to_settle_response receipt)

module _ (p : Platform) (encode : SettleResponse → String) where
  replay_text :
      (body : String) (json : Option String) (receipt : StoredSettlementReceipt)
      → has_text (some body) ≡ true
      → StagedText p (some body)
      → parse_stored_settlement_receipt p json ≡ ReceiptResult.ok receipt
      → build_fulfilled_replay_response p encode (some body) (some allowed_staged_content_type) json
        ≡ ok (record {
          body = body;
          content_type = allowed_staged_content_type;
          payment_response_header = encode (stored_receipt_to_settle_response receipt);
        })
  unfolding build_fulfilled_replay_response replay_of
  replay_text body json receipt t staged back = elim (Bool-cases (str_eq body "")) [
    | inl e ↦ cc
    | inr e ↦ rw (e, back, staged.1) refl
  ]

  replay_found :
      (r : PaymentAttemptRow) (o : Option String)
      → ReadsReceipts p
      → r.cached_response_json ≡ o
      → StagedText p o
      → has_text o ≡ true
      → r.cached_content_type ≡ some allowed_staged_content_type
      → HasReceipt p r
      → (q : FulfilledReplay) × (build_fulfilled_replay_response p encode o r.cached_content_type
            r.settlement_receipt_json
          ≡ ok q)
        × IsReplayOf p encode r q
  replay_found r none reads b s t content h = absurd s
  replay_found r (some body) reads b s t content h =
      let back =
        parse-stringify_receipt p h.receipt h.storable reads.empty
          (reads.back h.receipt h.storable) in
      (
        record {
          body = body;
          content_type = allowed_staged_content_type;
          payment_response_header = encode (stored_receipt_to_settle_response h.receipt);
        },
        rw (content, h.json) (replay_text body _ h.receipt t s back),
        record {
          body = b;
          content_type = refl;
          receipt = h.receipt;
          stored = h.json;
          hash = h.transaction;
          header = refl;
        },
      )

  get_replay_fulfilled :
      (key : String) (c : Coordinator) (r : PaymentAttemptRow)
      → read_row key c.table ≡ some r
      → r.state ≡ fulfilled
      → get_replay p encode key c
        ≡ build_fulfilled_replay_response p encode r.cached_response_json r.cached_content_type
            r.settlement_receipt_json
  unfolding get_replay
  get_replay_fulfilled key c r e f = rw (e, get_replay, f) refl

  -- A fulfilled record answers: the replay is the body that was staged before the settlement, and
  -- the header of the receipt of that settlement. Stored receipts must parse back, and the empty
  -- text must not be JSON.
  pub fulfilled-IsReplayOf :
      (key : String) (c : Coordinator) (r : PaymentAttemptRow)
      → ReadsReceipts p
      → Inv p c
      → read_row key c.table ≡ some r
      → r.state ≡ fulfilled
      → (q : FulfilledReplay) × (get_replay p encode key c ≡ ok q) × IsReplayOf p encode r q
  fulfilled-IsReplayOf key c r reads v e f =
      let (released, generation, staged, filled, receipt, closed) =
        subst (λ s. StateInv p s r) f (read_row-RowInv p c v key r e).columns in
      let (q, answer, same) =
        replay_found r r.cached_response_json reads refl staged.body filled staged.content_type
          receipt in
      (q, cc (get_replay_fulfilled key c r e f, answer), same)
