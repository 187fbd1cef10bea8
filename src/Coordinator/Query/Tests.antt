-- ===== src/Coordinator/Query/Tests.antt =====
-- A fulfilled record answers, with a platform that writes receipts as text and reads them back.
use Prim.Native.String.{char_at}
use x402_worker_template.Prelude.{
  String, Char, code, Option, none, some, ◌∷◌, ◌≡◌, ◌<◌, refl, sym, ap, subst, nat_eq, len,
  str_eq_refl, [], if◌then◌else◌, ◌+◌,
}
use x402_worker_template.Js.{Value, text, object, get, Platform}
use x402_worker_template.Receipt.{
  StoredSettlementReceipt, SettleResponse, mainnet_network, receipt_value,
}
use x402_worker_template.Receipt.Tests.{receipt, receipt-IsStorable}
use x402_worker_template.Replay.{FulfilledReplay, ok}
use x402_worker_template.Keys.{build_record_key}
use x402_worker_template.Coordinator.Types.{PaymentAttemptRow, fulfilled, Env}
use x402_worker_template.Coordinator.Table.{read_row, select_first}
use x402_worker_template.Coordinator.State.{Coordinator, record_ttl_ms}
use x402_worker_template.Coordinator.Query.{get_replay, run_ttl_cleanup}
use x402_worker_template.Coordinator.Query.Cleanup.{read_row-run_ttl_cleanup}
use x402_worker_template.Coordinator.Query.Replays.{ReadsReceipts, IsReplayOf, fulfilled-IsReplayOf}
use x402_worker_template.Coordinator.Invariant.{Inv}

abbrev mark : Char
mark = char_at "x" 0

abbrev stop : Char
stop = char_at "." 0

-- A text with a mark before each character, up to a stop.
unfoldable write : String → String → String
write String.[] rest = String.◌∷◌ stop rest
write (String.◌∷◌ c s) rest = String.◌∷◌ mark (String.◌∷◌ c (write s rest))

abbrev starting : Char → Option (String × String) → Option (String × String)
starting c none = none
starting c (some (s, rest)) = some (String.◌∷◌ c s, rest)

unfoldable read : String → Option (String × String)
read String.[] = none
read (String.◌∷◌ a String.[]) = if nat_eq (code a) b'.' then some ("", "") else none
read (String.◌∷◌ a (String.◌∷◌ c s)) =
    let more = read s in if nat_eq (code a) b'.' then some ("", String.◌∷◌ c s) else starting c more

read-write : (s rest : String) → read (write s rest) ≡ some (s, rest)
unfolding read write
read-write String.[] String.[] = refl
read-write String.[] (String.◌∷◌ c s) = refl
read-write (String.◌∷◌ c s) rest = ap (starting c) (read-write s rest)

abbrev write_option : Option String → String → String
write_option none rest = String.◌∷◌ stop rest
write_option (some s) rest = String.◌∷◌ mark (write s rest)

abbrev as_option : Option (String × String) → Option (Option String × String)
as_option none = none
as_option (some (s, rest)) = some (some s, rest)

unfoldable read_option : String → Option (Option String × String)
unfolding read
read_option String.[] = none
read_option (String.◌∷◌ a s) = if nat_eq (code a) b'.' then some (none, s) else as_option (read s)

read_option-write_option :
    (o : Option String) (rest : String) → read_option (write_option o rest) ≡ some (o, rest)
unfolding read_option
read_option-write_option none rest = refl
read_option-write_option (some s) rest = ap as_option (read-write s rest)

abbrev text_of : Value → Option String
text_of (text s) = some s
text_of v = none

abbrev or_empty : Option String → String
or_empty none = ""
or_empty (some s) = s

pub stringify : Value → String
unfolding write
stringify (object fs) =
    write (or_empty (text_of (get "transaction" fs)))
      (write_option (text_of (get "payer" fs)) (write_option (text_of (get "amount" fs)) ""))
stringify v = ""

abbrev with_amount : String → Option String → Option (Option String × String) → Option Value
with_amount t p none = none
with_amount t p (some (a, rest)) =
    some
      (receipt_value (record { transaction = t; network = mainnet_network; payer = p; amount = a }))

abbrev with_payer : String → Option (Option String × String) → Option Value
with_payer t none = none
with_payer t (some (p, rest)) = with_amount t p (read_option rest)

abbrev with_transaction : Option (String × String) → Option Value
with_transaction none = none
with_transaction (some (t, rest)) = with_payer t (read_option rest)

pub parse : String → Option Value
unfolding read
parse s = with_transaction (read s)

abbrev pub platform : Platform
platform = record { digest = λ s. len s ∷ []; parse = parse; stringify = stringify }

parse-written :
    (t : String) (p a : Option String)
    → parse (write t (write_option p (write_option a "")))
      ≡ some (
          receipt_value
            (record { transaction = t; network = mainnet_network; payer = p; amount = a }))
unfolding parse
parse-written t p a =
    rw
      (
        read-write t (write_option p (write_option a "")),
        read_option-write_option p (write_option a ""),
        read_option-write_option a "",
      )
      refl

stringify-receipt_value :
    (r : StoredSettlementReceipt)
    → stringify (receipt_value r)
      ≡ write r.transaction (write_option r.payer (write_option r.amount ""))
unfolding stringify receipt_value get
stringify-receipt_value r = by_options r.payer r.amount refl refl
  where
    by_options :
        (p a : Option String)
        → r.payer ≡ p
        → r.amount ≡ a
        → stringify (receipt_value r)
          ≡ write r.transaction (write_option r.payer (write_option r.amount ""))
    by_options none none e f = rw (e, f) refl
    by_options none (some a) e f = rw (e, f) refl
    by_options (some p) none e f = rw (e, f) refl
    by_options (some p) (some a) e f = rw (e, f) refl

platform-ReadsReceipts : ReadsReceipts platform
unfolding parse
platform-ReadsReceipts = record {
  empty = refl;
  back = λ r s. rw (stringify-receipt_value r) (
      subst
        (λ n.
          parse (write r.transaction (write_option r.payer (write_option r.amount "")))
          ≡ some (receipt_value (record r { network = n })))
        (sym s.mainnet) (parse-written r.transaction r.payer r.amount));
}

abbrev pub key : String
key = build_record_key platform "payment-1" "terms"

abbrev pub body : String
body = "x{x}..."

abbrev pub row : PaymentAttemptRow
row = record {
  record_key = key;
  payment_identifier = "payment-1";
  auth_commitment = "commitment";
  terms_fingerprint = "terms";
  resource_identity_hash = "resource";
  authorization_nonce = "nonce";
  network = "eip155:8453";
  asset = "usdc";
  amount = "1000";
  state = fulfilled;
  operation_kind = none;
  operation_generation = 2;
  operation_token = none;
  operation_started_at = some 500;
  lease_expires_at = none;
  cached_response_json = some body;
  cached_content_type = some "application/json";
  settlement_receipt_json = some (stringify (receipt_value receipt));
  transaction_hash = some receipt.transaction;
  failure_category = none;
  created_at = 500;
  updated_at = 600;
  expires_at = 500 + record_ttl_ms;
}

abbrev pub coordinator : Coordinator
coordinator = record { table = row ∷ []; alarm = none }

pub coordinator-Inv : Inv platform coordinator
unfolding parse read read_option
coordinator-Inv = record {
  rows = (
    record {
      columns = (
        record { kind = refl; token = refl },
        refl,
        record { body = (refl, refl); content_type = refl },
        refl,
        record {
          receipt = receipt;
          storable = receipt-IsStorable;
          json = refl;
          transaction = refl;
        },
        refl,
      );
      key = refl;
      lifetime = refl;
    },
    tt,
  );
  keys = (tt, tt);
  identifiers = (tt, tt);
  commitments = (tt, tt);
}

found : read_row key coordinator.table ≡ some row
unfolding read_row select_first
found = rw (str_eq_refl key) refl

encode : SettleResponse → String
encode r = r.transaction

fulfilled-IsReplayOf_example :
    (q : FulfilledReplay) × (get_replay platform encode key coordinator ≡ ok q)
    × IsReplayOf platform encode row q
fulfilled-IsReplayOf_example =
    fulfilled-IsReplayOf platform encode key coordinator row platform-ReadsReceipts coordinator-Inv
      found refl

abbrev pub env : Env
env = record { now = 700; random_bytes = [] }

read_row-run_ttl_cleanup_example :
    (read_row key (run_ttl_cleanup env none coordinator).0.table ≡ some row
      → (read_row key coordinator.table ≡ some row) × (700 < row.expires_at))
    × ((read_row key coordinator.table ≡ some row) × (700 < row.expires_at)
        → read_row key (run_ttl_cleanup env none coordinator).0.table ≡ some row)
read_row-run_ttl_cleanup_example =
    read_row-run_ttl_cleanup platform env none key coordinator row coordinator-Inv
