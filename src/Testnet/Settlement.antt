-- ===== src/Testnet/Settlement.antt =====
-- src/browser/pay-settlement.ts: what the testnet page shows of a settlement.
use Prim.Native.String.{◌++◌}
use x402_worker_template.Prelude.{
  String, Bool, true, not, ◌||◌, Option, none, some, str_eq, if◌then◌else◌,
}
use x402_worker_template.Js.{Value, null, text, Fields, get, has_key, is_truthy}
use x402_worker_template.Js.Text.{is_hex_of, shorten}
use x402_worker_template.Policy.{is_text}
use x402_worker_template.Testnet.Config.{base_sepolia}

-- `success` is the literal `true`.
pub record SafeSettlementView : Type 0 where
  pub paid_result : Value
  transaction_ref : Option String
  explorer_url : Option String
  network_verified : Bool

pub data SettlementCheck : Type 0 where
  ok : SafeSettlementView → SettlementCheck
  bad : String → SettlementCheck

abbrev ref_of : Value → Option String
ref_of (text s) = if str_eq s "" then none else some (shorten 14 8 6 s)
ref_of v = none

abbrev explorer_of : Value → Option String
explorer_of (text s) =
    if is_hex_of 64 s then some ("https://sepolia.basescan.org/tx/" ++ s) else none
explorer_of v = none

unfoldable pub validate_settlement_metadata : Option Fields → SettlementCheck
unfolding get has_key shorten is_hex_of
validate_settlement_metadata none = bad "Settlement metadata is missing or invalid."
validate_settlement_metadata (some s) =
    if not (has_key "success" s)
    then bad "Settlement metadata is missing or invalid."
    else (if not (is_truthy (get "success" s))
        then bad "Settlement reported failure."
        else (if not (not (is_truthy (get "network" s)) || is_text (get "network" s) base_sepolia)
            then bad "Settlement network is not Base Sepolia."
            else ok (record {
              paid_result = null;
              transaction_ref = ref_of (get "transaction" s);
              explorer_url = explorer_of (get "transaction" s);
              network_verified = true;
            })))

abbrev pub attach_paid_result : SafeSettlementView → Value → SafeSettlementView
attach_paid_result view result = record view { paid_result = result }
