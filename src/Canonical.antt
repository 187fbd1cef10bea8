-- ===== src/Canonical.antt =====
-- src/mainnet/idempotency/canonical-json.ts: JSON text with sorted keys. `none` is a thrown
-- CanonicalJsonError.
use Prim.Native.String.{◌++◌}
use x402_worker_template.Prelude.{
  ℕ, ◌+◌, ◌-◌, ◌/◌, ◌%◌, String, code, Bool, true, false, ◌&&◌, ◌||◌, Option, none, some, List, [],
  ◌∷◌, ltb, nat_eq, if◌then◌else◌,
}
use x402_worker_template.Js.{
  Value, undefined, null, not_finite, boolean, number, text, array, object, instance_of, other,
  Items, nil, cons, Fields, end, field, Platform,
}

-- The UTF-16 code units by which `sort()` compares.
code_units : String → List ℕ
code_units String.[] = []
code_units (String.◌∷◌ c s) =
    let rest = code_units s in
    if ltb (code c) 65536
    then code c ∷ rest
    else (0xD800 + (code c - 65536) / 1024) ∷ (0xDC00 + (code c - 65536) % 1024) ∷ rest

units_before : List ℕ → List ℕ → Bool
units_before [] [] = false
units_before [] (b ∷ bs) = true
units_before (a ∷ r) [] = false
units_before (a ∷ r) (b ∷ bs) = ltb a b || (nat_eq a b && units_before r bs)

-- An entry goes in front of the first one that it sorts before.
insert_entry : String × String → List (String × String) → List (String × String)
unfolding code_units units_before
insert_entry e [] = e ∷ []
insert_entry (k, v) ((j, w) ∷ es) =
    if units_before (code_units k) (code_units j)
    then (k, v) ∷ (j, w) ∷ es
    else (j, w) ∷ insert_entry (k, v) es

-- `Object.keys(value).sort()`, with what belongs to each key.
unfoldable pub sort_entries : List (String × String) → List (String × String)
unfolding insert_entry
sort_entries [] = []
sort_entries (e ∷ es) = insert_entry e (sort_entries es)

abbrev join_values : List (String × String) → String
join_values [] = ""
join_values ((k, v) ∷ []) = v
join_values ((k, v) ∷ es) = v ++ "," ++ join_values es

abbrev join : List String → String
join [] = ""
join (s ∷ []) = s
join (s ∷ ss) = s ++ "," ++ join ss

abbrev map_option : {A B : Type 0} → (A → B) → Option A → Option B
map_option f none = none
map_option f (some a) = some (f a)

abbrev both : {A B C : Type 0} → (A → B → C) → Option A → Option B → Option C
both f (some a) (some b) = some (f a b)
both f _ _ = none

module _ (p : Platform) where
  unfoldable mutual
    pub serialize_canonical_value : Value → Option String
    serialize_canonical_value null = some "null"
    serialize_canonical_value (text s) = some (p.stringify (text s))
    serialize_canonical_value (boolean b) = some (if b then "true" else "false")
    serialize_canonical_value (number n) = some n
    serialize_canonical_value not_finite = none
    serialize_canonical_value (other kind) = none
    serialize_canonical_value undefined = none
    serialize_canonical_value (array items) =
        map_option (λ ss. "[" ++ join ss ++ "]") (serialize_items items)
    serialize_canonical_value (instance_of fs) = none
    serialize_canonical_value (object fs) =
        map_option (λ es. "{" ++ join_values (sort_entries es) ++ "}") (serialize_fields fs)

    pub serialize_items : Items → Option (List String)
    serialize_items nil = some []
    serialize_items (cons v vs) = both (◌∷◌) (serialize_canonical_value v) (serialize_items vs)

    pub serialize_fields : Fields → Option (List (String × String))
    serialize_fields end = some []
    serialize_fields (field k v fs) =
        both (λ s es. (k, p.stringify (text k) ++ ":" ++ s) ∷ es) (serialize_canonical_value v)
          (serialize_fields fs)
