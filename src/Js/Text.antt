-- ===== src/Js/Text.antt =====
-- Text as the sources test it: regular expressions over character classes, lengths, slices.
pub mod Units
use Prim.Native.String.{char_at, ◌++◌}
use x402_worker_template.Prelude.{
  ℕ, zero, suc, ◌+◌, ◌-◌, ◌/◌, ◌%◌, String, Char, code, Bool, true, false, ◌&&◌, ◌||◌, List, [],
  ◌∷◌, leb, ltb, nat_eq, str_eq, if◌then◌else◌,
}

-- `raw.length` counts UTF-16 code units: a character above the basic plane takes two.
unfoldable pub utf16_length : String → ℕ
utf16_length String.[] = 0
utf16_length (String.◌∷◌ c s) = (if ltb (code c) 65536 then 1 else 2) + utf16_length s

-- The class [0-9a-fA-F].
unfoldable pub is_hex_digit : Char → Bool
is_hex_digit c =
    (leb b'0' (code c) && leb (code c) b'9')
    || (leb b'a' (code c) && leb (code c) b'f')
    || (leb b'A' (code c) && leb (code c) b'F')

-- The class \d.
unfoldable pub is_digit : Char → Bool
is_digit c = leb b'0' (code c) && leb (code c) b'9'

-- Every character lies in the class.
all_chars : (Char → Bool) → String → Bool
all_chars p String.[] = true
all_chars p (String.◌∷◌ c s) = p c && all_chars p s

-- /^class{n}$/
pub exactly : ℕ → (Char → Bool) → String → Bool
exactly zero p String.[] = true
exactly zero p (String.◌∷◌ c s) = false
exactly (suc n) p String.[] = false
exactly (suc n) p (String.◌∷◌ c s) = p c && exactly n p s

-- /^class+$/
unfoldable pub one_or_more : (Char → Bool) → String → Bool
unfolding all_chars
one_or_more p String.[] = false
one_or_more p (String.◌∷◌ c s) = p c && all_chars p s

-- /^0x…/: the rest of the text behind the prefix goes to the test.
pub after_0x : (String → Bool) → String → Bool
after_0x rest String.[] = false
after_0x rest (String.◌∷◌ a String.[]) = false
after_0x rest (String.◌∷◌ a (String.◌∷◌ b s)) =
    nat_eq (code a) b'0' && nat_eq (code b) b'x' && rest s

-- /^0x[0-9a-fA-F]{n}$/
unfoldable pub is_hex_of : ℕ → String → Bool
unfolding after_0x exactly is_hex_digit
is_hex_of n = after_0x (exactly n is_hex_digit)

-- One nibble as `toString(16)` writes it.
abbrev nibble : ℕ → Char
nibble n = char_at "0123456789abcdef" n

-- `bytes.map((byte) => byte.toString(16).padStart(2, "0")).join("")`.
unfoldable pub hex_text : List ℕ → String
hex_text [] = ""
hex_text (b ∷ bs) = String.◌∷◌ (nibble (b / 16)) (String.◌∷◌ (nibble (b % 16)) (hex_text bs))

-- The white space and line terminators that `trim` removes.
is_space : Char → Bool
is_space c =
    (leb 9 (code c) && leb (code c) 13)
    || nat_eq (code c) 32
    || nat_eq (code c) 160
    || nat_eq (code c) 0x1680
    || (leb 0x2000 (code c) && leb (code c) 0x200A)
    || nat_eq (code c) 0x2028
    || nat_eq (code c) 0x2029
    || nat_eq (code c) 0x202F
    || nat_eq (code c) 0x205F
    || nat_eq (code c) 0x3000
    || nat_eq (code c) 0xFEFF

trim_start : String → String
unfolding is_space
trim_start String.[] = ""
trim_start (String.◌∷◌ c s) = let rest = trim_start s in if is_space c then rest else String.◌∷◌ c s

trim_end : String → String
unfolding is_space
trim_end String.[] = ""
trim_end (String.◌∷◌ c s) =
    let rest = trim_end s in if is_space c && str_eq rest "" then "" else String.◌∷◌ c rest

-- `raw.trim()`.
unfoldable pub trim : String → String
unfolding trim_start trim_end
trim s = trim_end (trim_start s)

-- `toUpperCase` and `toLowerCase` on ASCII letters; other characters stay.
abbrev upper_char : Char → Char
upper_char c =
    if leb b'a' (code c) && leb (code c) b'z'
    then char_at "ABCDEFGHIJKLMNOPQRSTUVWXYZ" (code c - b'a')
    else c

abbrev lower_char : Char → Char
lower_char c =
    if leb b'A' (code c) && leb (code c) b'Z'
    then char_at "abcdefghijklmnopqrstuvwxyz" (code c - b'A')
    else c

unfoldable pub to_upper_case : String → String
to_upper_case String.[] = ""
to_upper_case (String.◌∷◌ c s) = String.◌∷◌ (upper_char c) (to_upper_case s)

unfoldable pub to_lower_case : String → String
to_lower_case String.[] = ""
to_lower_case (String.◌∷◌ c s) = String.◌∷◌ (lower_char c) (to_lower_case s)

-- `slice(0, n)` and `slice(n)`, counted in characters: the texts that the sources cut are hashes,
-- addresses and identifiers of ASCII characters.
unfoldable pub take_chars : ℕ → String → String
take_chars zero s = ""
take_chars (suc n) String.[] = ""
take_chars (suc n) (String.◌∷◌ c s) = String.◌∷◌ c (take_chars n s)

unfoldable pub drop_chars : ℕ → String → String
drop_chars zero s = s
drop_chars (suc n) String.[] = ""
drop_chars (suc n) (String.◌∷◌ c s) = drop_chars n s

unfoldable pub char_count : String → ℕ
char_count String.[] = 0
char_count (String.◌∷◌ c s) = suc (char_count s)

-- `${value.slice(0, front)}…${value.slice(-back)}`, and a text of at most `longest` units as it is.
unfoldable pub shorten : ℕ → ℕ → ℕ → String → String
unfolding utf16_length take_chars drop_chars char_count
shorten longest front back s =
    if leb (utf16_length s) longest
    then s
    else take_chars front s ++ "…" ++ drop_chars (char_count s - back) s

-- `${n}` of a natural number: as many digits as the fuel allows, and n + 1 is enough.
decimal_from : ℕ → ℕ → String → String
decimal_from zero n acc = acc
decimal_from (suc fuel) n acc =
    let digits = String.◌∷◌ (char_at "0123456789" (n % 10)) acc in
    let rest = decimal_from fuel (n / 10) digits in if ltb n 10 then digits else rest

unfoldable pub decimal : ℕ → String
unfolding decimal_from
decimal n = decimal_from (suc n) n ""
