-- ===== src/Receipt.antt =====
-- src/mainnet/idempotency/settlement-receipt.ts: the receipt that is stored with a fulfilled
-- payment, and its way back into a settle response.
pub mod Laws
pub mod Tests
use x402_worker_template.Prelude.{
  String, Bool, true, false, not, Option, none, some, str_eq, if◌then◌else◌,
}
use x402_worker_template.Js.{
  Value, undefined, boolean, text, object, Fields, end, field, get, Platform,
}
use x402_worker_template.Js.Text.{is_hex_of}

abbrev pub mainnet_network : String
mainnet_network = "eip155:8453"

-- `success` is the literal `true`.
pub record StoredSettlementReceipt : Type 0 where
  pub transaction : String
  pub network : String
  pub payer : Option String
  pub amount : Option String

pub data ReceiptResult : Type 0 where
  ok : StoredSettlementReceipt → ReceiptResult
  bad : String → ReceiptResult

-- `value.success !== true` as a test.
is_true : Value → Bool
is_true (boolean b) = b
is_true v = false

-- The last two blocks: an optional property must be a string if it is there.
add_amount : Value → StoredSettlementReceipt → ReceiptResult
add_amount undefined r = ok r
add_amount (text a) r = ok (record r { amount = some a })
add_amount v r = bad "Settlement receipt amount must be a string."

add_payer : Value → Value → StoredSettlementReceipt → ReceiptResult
unfolding add_amount
add_payer undefined amount r = add_amount amount r
add_payer (text p) amount r = add_amount amount (record r { payer = some p })
add_payer v amount r = bad "Settlement receipt payer must be a string."

check_network : Value → String → Value → Value → ReceiptResult
unfolding add_payer
check_network (text n) transaction payer amount =
    if not (str_eq n mainnet_network)
    then bad "Settlement receipt network is not Base mainnet."
    else add_payer payer amount
        (record { transaction = transaction; network = n; payer = none; amount = none })
check_network v transaction payer amount = bad "Settlement receipt network is missing."

check_transaction : Value → Value → Value → Value → ReceiptResult
unfolding check_network
check_transaction (text t) network payer amount =
    if not (is_hex_of 64 t)
    then bad "Settlement receipt transaction must be a 32-byte hex hash."
    else check_network network t payer amount
check_transaction v network payer amount = bad "Settlement receipt transaction is missing."

pub validate_settlement_receipt : Value → ReceiptResult
unfolding is_true check_transaction
validate_settlement_receipt (object fs) =
    if not (is_true (get "success" fs))
    then bad "Settlement receipt must report success."
    else check_transaction (get "transaction" fs) (get "network" fs) (get "payer" fs)
        (get "amount" fs)
validate_settlement_receipt v = bad "Settlement receipt must be an object."

abbrev parsed : Option Value → ReceiptResult
parsed none = bad "Settlement receipt JSON is malformed."
parsed (some v) = validate_settlement_receipt v

-- `!json` holds of null and of the empty text.
pub parse_stored_settlement_receipt : Platform → Option String → ReceiptResult
parse_stored_settlement_receipt p none = bad "Settlement receipt is missing."
parse_stored_settlement_receipt p (some json) =
    if str_eq json "" then bad "Settlement receipt is missing." else parsed (p.parse json)

abbrev optional_field : String → Option String → Fields → Fields
optional_field key none rest = rest
optional_field key (some v) rest = field key (text v) rest

-- The object that `JSON.stringify(receipt)` writes out, its properties in the order of assignment.
unfoldable pub receipt_value : StoredSettlementReceipt → Value
receipt_value r = object (
    field "success" (boolean true) (
      field "transaction" (text r.transaction) (
        field "network" (text r.network)
          (optional_field "payer" r.payer (optional_field "amount" r.amount end)))))

-- `if (receipt.payer)`: an empty text is dropped.
abbrev truthy : Option String → Option String
truthy none = none
truthy (some s) = if str_eq s "" then none else some s

pub record SettleResponse : Type 0 where
  pub transaction : String
  pub network : String
  pub payer : Option String
  pub amount : Option String

pub stored_receipt_to_settle_response : StoredSettlementReceipt → SettleResponse
stored_receipt_to_settle_response r = record {
  transaction = r.transaction;
  network = r.network;
  payer = truthy r.payer;
  amount = truthy r.amount;
}
