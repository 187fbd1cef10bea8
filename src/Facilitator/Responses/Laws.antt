-- ===== src/Facilitator/Responses/Laws.antt =====
-- parseSettleResponseJson against the type SettleResponse.
use x402_worker_template.Prelude.{
  String, Bool, true, false, Option, none, some, ◌≡◌, ◌↔◌, refl, subst,
}
use x402_worker_template.Js.{
  Value, undefined, null, not_finite, boolean, number, text, array, object, instance_of, other,
  Fields, get,
}
use x402_worker_template.Facilitator.Errors.{Result, ok}
use x402_worker_template.Facilitator.Errors.Laws.{ok_inj}
use x402_worker_template.Facilitator.Responses.{
  SettleResponse, is_boolean, is_string, is_plain_object, optional, the_boolean, the_string,
  or_undefined, object_or_undefined, check, settle_rest, settle_of, parse_settle_response_json,
}

-- A property that may be left out, and may be null in place of that.
pub data HoldsText : Value → Option String → Type 0 where
  missing : HoldsText undefined none
  nothing : HoldsText null none
  present : (s : String) → HoldsText (text s) (some s)

pub data HoldsObject : Value → Option Fields → Type 0 where
  missing : HoldsObject undefined none
  nothing : HoldsObject null none
  present : (fs : Fields) → HoldsObject (object fs) (some fs)

pub record IsSettlement (fs : Fields) (r : SettleResponse) : Type 0 where
  success : get "success" fs ≡ boolean r.success
  error_reason : HoldsText (get "errorReason" fs) r.error_reason
  error_message : HoldsText (get "errorMessage" fs) r.error_message
  payer : HoldsText (get "payer" fs) r.payer
  transaction : get "transaction" fs ≡ text r.transaction
  network : get "network" fs ≡ text r.network
  amount : HoldsText (get "amount" fs) r.amount
  extensions : HoldsObject (get "extensions" fs) r.extensions
  extra : HoldsObject (get "extra" fs) r.extra

holds_text : (v : Value) → optional is_string v ≡ true → HoldsText v (or_undefined v)
holds_text undefined h = HoldsText.missing
holds_text null h = HoldsText.nothing
holds_text (text s) h = HoldsText.present s
holds_text not_finite h = cc h
holds_text (boolean b) h = cc h
holds_text (number n) h = cc h
holds_text (array items) h = cc h
holds_text (object fs) h = cc h
holds_text (instance_of fs) h = cc h
holds_text (other s) h = cc h

holds_object :
    (v : Value) → optional is_plain_object v ≡ true → HoldsObject v (object_or_undefined v)
holds_object undefined h = HoldsObject.missing
holds_object null h = HoldsObject.nothing
holds_object (object fs) h = HoldsObject.present fs
holds_object (text s) h = cc h
holds_object not_finite h = cc h
holds_object (boolean b) h = cc h
holds_object (number n) h = cc h
holds_object (array items) h = cc h
holds_object (instance_of fs) h = cc h
holds_object (other s) h = cc h

is_the_boolean : (v : Value) → is_boolean v ≡ true → v ≡ boolean (the_boolean v)
is_the_boolean (boolean b) h = refl
is_the_boolean undefined h = cc h
is_the_boolean null h = cc h
is_the_boolean (object fs) h = cc h
is_the_boolean (text s) h = cc h
is_the_boolean not_finite h = cc h
is_the_boolean (number n) h = cc h
is_the_boolean (array items) h = cc h
is_the_boolean (instance_of fs) h = cc h
is_the_boolean (other s) h = cc h

is_the_string : (v : Value) → is_string v ≡ true → v ≡ text (the_string v)
is_the_string (text s) h = refl
is_the_string (boolean b) h = cc h
is_the_string undefined h = cc h
is_the_string null h = cc h
is_the_string (object fs) h = cc h
is_the_string not_finite h = cc h
is_the_string (number n) h = cc h
is_the_string (array items) h = cc h
is_the_string (instance_of fs) h = cc h
is_the_string (other s) h = cc h

-- A check is passed, or it throws.
passed :
    {A : Type 0}
    → (b : Bool) (m : String) (rest : Result A) (a : A) → check b m rest ≡ ok a
    → (b ≡ true) × (rest ≡ ok a)
passed true m rest a h = (refl, h)
passed false m rest a h = cc h

text_of :
    (v : Value) (o : Option String)
    → HoldsText v o
    → (optional is_string v ≡ true) × (or_undefined v ≡ o)
text_of v o HoldsText.missing = (refl, refl)
text_of v o HoldsText.nothing = (refl, refl)
text_of v o (HoldsText.present s) = (refl, refl)

object_of :
    (v : Value) (o : Option Fields)
    → HoldsObject v o
    → (optional is_plain_object v ≡ true) × (object_or_undefined v ≡ o)
object_of v o HoldsObject.missing = (refl, refl)
object_of v o HoldsObject.nothing = (refl, refl)
object_of v o (HoldsObject.present fs) = (refl, refl)

settle_of-IsSettlement :
    (fs : Fields) (r : SettleResponse) → settle_of fs ≡ ok r → IsSettlement fs r
unfolding settle_of settle_rest
settle_of-IsSettlement fs r h =
    let (c1, h1) = passed _ _ _ r h in
    let (c2, h2) = passed _ _ _ r h1 in
    let (c3, h3) = passed _ _ _ r h2 in
    let (c4, h4) = passed _ _ _ r h3 in
    let (c5, h5) = passed _ _ _ r h4 in
    let (c6, h6) = passed _ _ _ r h5 in
    let (c7, h7) = passed _ _ _ r h6 in
    let (c8, h8) = passed _ _ _ r h7 in
    let (c9, h9) = passed _ _ _ r h8 in
    subst (IsSettlement fs) (ok_inj _ r h9) (record {
      success = is_the_boolean (get "success" fs) c1;
      error_reason = holds_text (get "errorReason" fs) c2;
      error_message = holds_text (get "errorMessage" fs) c3;
      payer = holds_text (get "payer" fs) c4;
      transaction = is_the_string (get "transaction" fs) c5;
      network = is_the_string (get "network" fs) c6;
      amount = holds_text (get "amount" fs) c7;
      extensions = holds_object (get "extensions" fs) c8;
      extra = holds_object (get "extra" fs) c9;
    })

IsSettlement-settle_of :
    (fs : Fields) (r : SettleResponse) → IsSettlement fs r → settle_of fs ≡ ok r
unfolding settle_of settle_rest
IsSettlement-settle_of fs r s =
    let (a1, b1) = text_of (get "errorReason" fs) r.error_reason s.error_reason in
    let (a2, b2) = text_of (get "errorMessage" fs) r.error_message s.error_message in
    let (a3, b3) = text_of (get "payer" fs) r.payer s.payer in
    let (a4, b4) = text_of (get "amount" fs) r.amount s.amount in
    let (a5, b5) = object_of (get "extensions" fs) r.extensions s.extensions in
    let (a6, b6) = object_of (get "extra" fs) r.extra s.extra in
    rw (s.success, s.transaction, s.network, a1, a2, a3, a4, a5, a6, b1, b2, b3, b4, b5, b6) refl

accepted :
    (v : Value) (r : SettleResponse)
    → parse_settle_response_json v ≡ ok r
    → (fs : Fields) × (v ≡ object fs) × IsSettlement fs r
unfolding parse_settle_response_json
accepted (object fs) r h = (fs, refl, settle_of-IsSettlement fs r h)
accepted undefined r h = cc h
accepted null r h = cc h
accepted not_finite r h = cc h
accepted (boolean b) r h = cc h
accepted (number n) r h = cc h
accepted (text s) r h = cc h
accepted (array items) r h = cc h
accepted (instance_of fs) r h = cc h
accepted (other s) r h = cc h

-- A value is taken for a settle response exactly when it is a plain object with a Boolean success,
-- with texts for the transaction and the network, and with what the result says of each optional
-- property: a text, or an object for the extensions and the extra, and nothing for one that is
-- missing or null.
pub parse_settle_response_json-IsSettlement :
    (v : Value) (r : SettleResponse)
    → (parse_settle_response_json v ≡ ok r) ↔ ((fs : Fields) × (v ≡ object fs) × IsSettlement fs r)
unfolding parse_settle_response_json
parse_settle_response_json-IsSettlement v r =
    (accepted v r, λ s. rw s.1 (IsSettlement-settle_of s.0 r s.2))
