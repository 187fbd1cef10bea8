-- ===== src/Client/Settlement.antt =====
-- src/mainnet/browser/mainnet-pay-settlement.ts: what the page shows of a settlement, and the
-- result that a fulfilled status carries.
use x402_worker_template.Prelude.{
  String, Bool, true, false, not, ◌||◌, Option, none, some, str_eq, if◌then◌else◌,
}
use x402_worker_template.Js.{
  Value, undefined, null, text, object, instance_of, Fields, get, has_key, is_truthy,
}
use x402_worker_template.Policy.{mainnet_network}
use x402_worker_template.Status.{shorten_transaction_ref}

-- `success` is the literal `true`.
pub record MainnetSafeSettlementView : Type 0 where
  pub paid_result : Value
  pub transaction_reference : Value
  pub network_verified : Bool

pub data SettlementCheck : Type 0 where
  ok : MainnetSafeSettlementView → SettlementCheck
  bad : String → SettlementCheck

abbrev pub is_mainnet : Value → Bool
is_mainnet (text s) = str_eq s mainnet_network
is_mainnet v = false

-- A text or null.
abbrev reference_of : Value → Value
reference_of (text s) = if str_eq s "" then null else text (shorten_transaction_ref s)
reference_of v = null

-- The settle response of the SDK: missing, or an object.
unfoldable pub validate_mainnet_settlement_metadata : Option Fields → SettlementCheck
unfolding get has_key shorten_transaction_ref
validate_mainnet_settlement_metadata none = bad "Settlement metadata is missing or invalid."
validate_mainnet_settlement_metadata (some s) =
    if not (has_key "success" s)
    then bad "Settlement metadata is missing or invalid."
    else (if not (is_truthy (get "success" s))
        then bad "Settlement reported failure."
        else (if not (not (is_truthy (get "network" s)) || is_mainnet (get "network" s))
            then bad "Settlement network is not Base mainnet."
            else ok (record {
              paid_result = null;
              transaction_reference = reference_of (get "transaction" s);
              network_verified = true;
            })))

abbrev pub attach_mainnet_paid_result :
    MainnetSafeSettlementView → Value → MainnetSafeSettlementView
attach_mainnet_paid_result view result = record view { paid_result = result }

pub data ResultCheck : Type 0 where
  ok : Value → ResultCheck
  bad : String → ResultCheck

abbrev body_of : Value → ResultCheck
body_of undefined = bad "Fulfilled status result body is missing."
body_of v = ok v

abbrev checked_type : Value → Value → ResultCheck
checked_type (text s) body =
    if str_eq s "application/json"
    then body_of body
    else bad "Fulfilled status result content type is invalid."
checked_type v body = bad "Fulfilled status result content type is invalid."

unfoldable pub validate_fulfilled_status_result : Value → ResultCheck
unfolding get
validate_fulfilled_status_result (object fs) = checked_type (get "contentType" fs) (get "body" fs)
validate_fulfilled_status_result (instance_of fs) =
    checked_type (get "contentType" fs) (get "body" fs)
validate_fulfilled_status_result v = bad "Fulfilled status result is missing."
