-- ===== src/Logging/Laws.antt =====
-- Redaction: what a log line does not tell, and what it does.
use mathlib.Core.List.{Memᴰ}
use x402_worker_template.Prelude.{
  String, true, false, List, [], ◌∷◌, ◌≡◌, refl, ap, ◌∙◌, arith, inl, inr, All, Bool-cases, str_eq,
  str_eq_iff, str_eq_refl,
}
use x402_worker_template.Js.{
  Value, undefined, null, not_finite, boolean, number, text, array, object, instance_of, other,
  Items, nil, cons, Fields, end, field, get, Platform,
}
use x402_worker_template.Logging.{
  LogLevel, should_redact_key, redact_value, redact_items, redact_fields, allowed_log_field_keys,
  keep, pick_fields, safe_log_fields, log_structured, level_name,
}

-- Two values that differ at most in what stands under keys to redact.
mutual
  pub data Same : Value → Value → Type 0 where
    same : (v : Value) → Same v v
    arrays : (a b : Items) → SameItems a b → Same (array a) (array b)
    objects : (fs gs : Fields) → SameFields fs gs → Same (object fs) (object gs)
    instances : (fs gs : Fields) → SameFields fs gs → Same (instance_of fs) (instance_of gs)

  pub data SameItems : Items → Items → Type 0 where
    same_nil : SameItems nil nil
    same_cons :
        (v w : Value) (a b : Items) → Same v w → SameItems a b → SameItems (cons v a) (cons w b)

  pub data SameFields : Fields → Fields → Type 0 where
    same_end : SameFields end end
    hidden :
        (k : String) (v w : Value) (fs gs : Fields)
        → should_redact_key k ≡ true
        → SameFields fs gs
        → SameFields (field k v fs) (field k w gs)
    shown :
        (k : String) (v w : Value) (fs gs : Fields)
        → Same v w
        → SameFields fs gs
        → SameFields (field k v fs) (field k w gs)

mutual
  unfolding redact_value redact_items redact_fields

  redact_value-Same : (v w : Value) → Same v w → redact_value v ≡ redact_value w
  redact_value-Same _ _ (same v) = refl
  redact_value-Same _ _ (arrays a b s) = ap array (redact_items-Same a b s)
  redact_value-Same _ _ (objects fs gs s) = ap object (redact_fields-Same fs gs s)
  redact_value-Same _ _ (instances fs gs s) = ap object (redact_fields-Same fs gs s)

  redact_items-Same : (a b : Items) → SameItems a b → redact_items a ≡ redact_items b
  redact_items-Same _ _ same_nil = refl
  redact_items-Same _ _ (same_cons v w a b s rest) =
      rw (redact_value-Same v w s, redact_items-Same a b rest) refl

  redact_fields-Same : (fs gs : Fields) → SameFields fs gs → redact_fields fs ≡ redact_fields gs
  redact_fields-Same _ _ same_end = refl
  redact_fields-Same _ _ (hidden k v w fs gs h rest) = rw (h, redact_fields-Same fs gs rest) refl
  redact_fields-Same _ _ (shown k v w fs gs s rest) =
      rw (redact_value-Same v w s, redact_fields-Same fs gs rest) refl

keep-Same :
    (k : String) (v w : Value) (fs gs : Fields)
    → Same v w
    → redact_fields fs ≡ redact_fields gs
    → redact_fields (keep k v fs) ≡ redact_fields (keep k w gs)
unfolding redact_value redact_items redact_fields
keep-Same k _ _ fs gs (same undefined) h = h
keep-Same k _ _ fs gs (same null) h = rw h refl
keep-Same k _ _ fs gs (same not_finite) h = rw h refl
keep-Same k _ _ fs gs (same (boolean b)) h = rw h refl
keep-Same k _ _ fs gs (same (number n)) h = rw h refl
keep-Same k _ _ fs gs (same (text s)) h = rw h refl
keep-Same k _ _ fs gs (same (array a)) h = rw h refl
keep-Same k _ _ fs gs (same (object a)) h = rw h refl
keep-Same k _ _ fs gs (same (instance_of a)) h = rw h refl
keep-Same k _ _ fs gs (same (other s)) h = rw h refl
keep-Same k _ _ fs gs (arrays a b s) h = rw (redact_items-Same a b s, h) refl
keep-Same k _ _ fs gs (objects a b s) h = rw (redact_fields-Same a b s, h) refl
keep-Same k _ _ fs gs (instances a b s) h = rw (redact_fields-Same a b s, h) refl

pick-Same :
    (ks : List String) (fs gs : Fields)
    → All (λ k. Same (get k fs) (get k gs)) ks
    → redact_fields (pick_fields ks fs) ≡ redact_fields (pick_fields ks gs)
unfolding pick_fields
pick-Same [] fs gs h = refl
pick-Same (k ∷ ks) fs gs (s, rest) =
    keep-Same k (get k fs) (get k gs) _ _ s (pick-Same ks fs gs rest)

get-keep :
    (k l : String) (v : Value) (fs : Fields)
    → str_eq l k ≡ false
    → get k (redact_fields (keep l v fs)) ≡ get k (redact_fields fs)
unfolding get redact_fields
get-keep k l undefined fs h = refl
get-keep k l null fs h = rw h refl
get-keep k l not_finite fs h = rw h refl
get-keep k l (boolean b) fs h = rw h refl
get-keep k l (number n) fs h = rw h refl
get-keep k l (text s) fs h = rw h refl
get-keep k l (array a) fs h = rw h refl
get-keep k l (object a) fs h = rw h refl
get-keep k l (instance_of a) fs h = rw h refl
get-keep k l (other s) fs h = rw h refl

get-keep_same :
    (k : String) (v : Value) (fs : Fields)
    → should_redact_key k ≡ false
    → (v ≡ undefined → get k (redact_fields fs) ≡ undefined)
    → get k (redact_fields (keep k v fs)) ≡ redact_value v
unfolding get redact_fields redact_value redact_items
get-keep_same k undefined fs p h = h refl
get-keep_same k null fs p h = rw (p, str_eq_refl k) refl
get-keep_same k not_finite fs p h = rw (p, str_eq_refl k) refl
get-keep_same k (boolean b) fs p h = rw (p, str_eq_refl k) refl
get-keep_same k (number n) fs p h = rw (p, str_eq_refl k) refl
get-keep_same k (text s) fs p h = rw (p, str_eq_refl k) refl
get-keep_same k (array a) fs p h = rw (p, str_eq_refl k) refl
get-keep_same k (object a) fs p h = rw (p, str_eq_refl k) refl
get-keep_same k (instance_of a) fs p h = rw (p, str_eq_refl k) refl
get-keep_same k (other s) fs p h = rw (p, str_eq_refl k) refl

pick-undefined :
    (ks : List String) (k : String) (fs : Fields)
    → should_redact_key k ≡ false
    → get k fs ≡ undefined
    → get k (redact_fields (pick_fields ks fs)) ≡ undefined
unfolding pick_fields redact_fields redact_value get
pick-undefined [] k fs p h = refl
pick-undefined (l ∷ ks) k fs p h =
    let rest = pick-undefined ks k fs p h in
    elim (Bool-cases (str_eq l k)) [
      | inl e ↦ let here : l ≡ k = ground (arith, str_eq_iff l k) in rw (here, h) rest
      | inr e ↦ get-keep k l (get l fs) (pick_fields ks fs) e ∙ rest
    ]

pick-get :
    (ks : List String) (k : String) (fs : Fields)
    → Memᴰ k ks
    → should_redact_key k ≡ false
    → get k (redact_fields (pick_fields ks fs)) ≡ redact_value (get k fs)
unfolding pick_fields
pick-get [] k fs m p = elim m [ ]
pick-get (l ∷ ks) k fs (Memᴰ.head e) p =
    rw (← e) (get-keep_same k (get k fs) (pick_fields ks fs) p (pick-undefined ks k fs p))
pick-get (l ∷ ks) k fs (Memᴰ.tail m) p = elim (Bool-cases (str_eq l k)) [
  | inl e ↦
      let here : l ≡ k = ground (arith, str_eq_iff l k) in
      rw here (get-keep_same k (get k fs) (pick_fields ks fs) p (pick-undefined ks k fs p))
  | inr e ↦ get-keep k l (get l fs) (pick_fields ks fs) e ∙ pick-get ks k fs m p
]

-- What holds of the members of a list that satisfy `P`, all of which do, holds of all.
All-member :
    {P Q : String → Type 0} (ks : List String)
    → All P ks
    → ((k : String) → Memᴰ k ks → P k → Q k)
    → All Q ks
All-member [] h f = tt
All-member (k ∷ ks) (p, ps) f =
    (f k (Memᴰ.head refl) p, All-member ks ps (λ l m. f l (Memᴰ.tail m)))

allowed-public : All (λ l. should_redact_key l ≡ false) allowed_log_field_keys
unfolding should_redact_key
allowed-public = (refl, (refl, (refl, (refl, (refl, (refl, (refl, (refl, (refl, tt)))))))))

-- Two records of fields whose allowed fields differ at most in what stands under keys to redact,
-- at any depth, are logged as the same line, whatever their other fields are. Each allowed key is
-- logged with its value, redacted inside.
pub log_structured-hides :
    (p : Platform) (level : LogLevel) (now : String) (fs gs : Fields)
    → All (λ k. Same (get k fs) (get k gs)) allowed_log_field_keys
    → (log_structured p level now fs ≡ log_structured p level now gs)
      × All (λ k. get k (safe_log_fields fs) ≡ redact_value (get k fs)) allowed_log_field_keys
unfolding log_structured safe_log_fields
log_structured-hides p level now fs gs h = (
  ap (λ x. p.stringify (object (field "level" (text (level_name level)) (field "ts" (text now) x))))
      (pick-Same allowed_log_field_keys fs gs h),
  All-member allowed_log_field_keys allowed-public (λ k. pick-get allowed_log_field_keys k fs),
)
