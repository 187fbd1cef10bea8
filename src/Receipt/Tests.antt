-- ===== src/Receipt/Tests.antt =====
-- Receipts on concrete settle responses.
use x402_worker_template.Prelude.{
  String, [], ◌∷◌, len, none, some, ◌≡◌, refl, str_eq, if◌then◌else◌, true,
}
use x402_worker_template.Js.{Value, text, boolean, object, field, end, Platform, get}
use x402_worker_template.Js.Text.{is_hex_of}
use x402_worker_template.Receipt.{
  StoredSettlementReceipt, ok, bad, mainnet_network, validate_settlement_receipt, receipt_value,
  parse_stored_settlement_receipt,
}
use x402_worker_template.Receipt.Laws.{IsStorable, validate-IsStorable, parse-stringify_receipt}

abbrev pub hash : String
hash = "0x0123456789abcdef0123456789ABCDEF0123456789abcdef0123456789abcdef"

abbrev response : Value
response = object (
    field "success" (boolean true) (
      field "payer" (text "0xbuyer")
        (field "transaction" (text hash) (field "network" (text mainnet_network) end))))

abbrev pub receipt : StoredSettlementReceipt
receipt = record {
  transaction = hash;
  network = mainnet_network;
  payer = some "0xbuyer";
  amount = none;
}

-- JSON of one receipt.
abbrev pub platform : Platform
platform = record {
  digest = λ s. len s ∷ [];
  parse = λ s. if str_eq s "receipt" then some (receipt_value receipt) else none;
  stringify = λ v. "receipt";
}

accepts : validate_settlement_receipt response ≡ ok receipt
unfolding validate_settlement_receipt get is_hex_of
accepts = refl

refuses_another_network :
    validate_settlement_receipt (
      object (
        field "success"
          (boolean true)
          (field "transaction" (text hash) (field "network" (text "eip155:84532") end))))
    ≡ bad "Settlement receipt network is not Base mainnet."
unfolding validate_settlement_receipt get is_hex_of
refuses_another_network = refl

pub receipt-IsStorable : IsStorable receipt
unfolding is_hex_of
receipt-IsStorable = record { hash = refl; mainnet = refl }

validate-IsStorable_example : IsStorable receipt
validate-IsStorable_example = validate-IsStorable response receipt accepts

parse-stringify_receipt_example :
    parse_stored_settlement_receipt platform (some "receipt") ≡ ok receipt
parse-stringify_receipt_example =
    parse-stringify_receipt platform receipt receipt-IsStorable refl refl
