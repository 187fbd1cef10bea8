-- ===== src/Receipt/Laws.antt =====
-- What `validateSettlementReceiptForStorage` accepts, and that a stored receipt reads back.
use x402_worker_template.Prelude.{
  String, true, none, some, ◌≡◌, ap, inl, inr, arith, str_eq, str_eq_iff, Bool-cases,
}
use x402_worker_template.Js.{Value, undefined, text, object, Platform, get}
use x402_worker_template.Js.Text.{is_hex_of}
use x402_worker_template.Receipt.{
  StoredSettlementReceipt, ok, mainnet_network, add_amount, add_payer, check_network,
  check_transaction, validate_settlement_receipt, parse_stored_settlement_receipt, receipt_value,
}

-- A receipt that the store may hold.
pub record IsStorable (r : StoredSettlementReceipt) : Type 0 where
  pub hash : is_hex_of 64 r.transaction ≡ true
  pub mainnet : r.network ≡ mainnet_network

-- The optional properties leave the hash and the network alone.
SameCore : StoredSettlementReceipt → StoredSettlementReceipt → Type 0
SameCore r s = (s.transaction ≡ r.transaction) × (s.network ≡ r.network)

add_amount-SameCore :
    (v : Value) (r s : StoredSettlementReceipt) → add_amount v r ≡ ok s → SameCore r s
unfolding add_amount SameCore
add_amount-SameCore undefined r s h = ground arith
add_amount-SameCore v r s h = ground arith

add_payer-SameCore :
    (v a : Value) (r s : StoredSettlementReceipt) → add_payer v a r ≡ ok s → SameCore r s
unfolding add_payer SameCore
add_payer-SameCore undefined a r s h = add_amount-SameCore a r s h
add_payer-SameCore (text p) a r s h = add_amount-SameCore a (record r { payer = some p }) s h
add_payer-SameCore v a r s h = ground arith

check_network-SameCore :
    (v : Value) (t : String) (p a : Value) (s : StoredSettlementReceipt)
    → check_network v t p a ≡ ok s
    → (s.transaction ≡ t) × (s.network ≡ mainnet_network)
unfolding check_network SameCore
check_network-SameCore (text n) t p a s h = ground (
  arith,
  str_eq_iff n mainnet_network,
  add_payer-SameCore p a (record { transaction = t; network = n; payer = none; amount = none }) s,
)
check_network-SameCore v t p a s h = ground arith

check_transaction-IsStorable :
    (t n p a : Value) (s : StoredSettlementReceipt)
    → check_transaction t n p a ≡ ok s
    → IsStorable s
unfolding check_transaction
check_transaction-IsStorable (text t) n p a s h = ground (arith, check_network-SameCore n t p a s)
check_transaction-IsStorable v n p a s h = ground arith

-- Whatever value is accepted, the receipt kept from it has a 32-byte hash and names Base mainnet.
pub validate-IsStorable :
    (v : Value) (r : StoredSettlementReceipt) → validate_settlement_receipt v ≡ ok r → IsStorable r
unfolding validate_settlement_receipt
validate-IsStorable (object fs) r h = ground (
  arith,
  check_transaction-IsStorable (get "transaction" fs) (get "network" fs) (get "payer" fs)
      (get "amount" fs) r,
)
validate-IsStorable v r h = ground arith

-- A storable receipt, written as an object and validated again, is the same receipt.
pub validate-receipt_value :
    (r : StoredSettlementReceipt)
    → IsStorable r
    → validate_settlement_receipt (receipt_value r) ≡ ok r
unfolding validate_settlement_receipt receipt_value get
validate-receipt_value r s = ground (arith, str_eq_iff r.network mainnet_network)

-- Where the JSON text of the receipt parses back to its object, the stored text reads back as the
-- receipt itself.
pub parse-stringify_receipt :
    (p : Platform) (r : StoredSettlementReceipt)
    → IsStorable r
    → p.parse "" ≡ none
    → p.parse (p.stringify (receipt_value r)) ≡ some (receipt_value r)
    → parse_stored_settlement_receipt p (some (p.stringify (receipt_value r))) ≡ ok r
unfolding parse_stored_settlement_receipt
parse-stringify_receipt p r s nothing back =
    elim (Bool-cases (str_eq (p.stringify (receipt_value r)) "")) [
      | inl e ↦ cc (ap p.parse ((str_eq_iff _ _).0 e))
      | inr e ↦ rw (e, back) (validate-receipt_value r s)
    ]
