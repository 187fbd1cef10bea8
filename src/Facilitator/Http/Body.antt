-- ===== src/Facilitator/Http/Body.antt =====
-- proof-facilitator-http.mainnet.ts, readBoundedResponseBody: a body is read in chunks, up to a
-- limit.
pub mod Laws
pub mod Tests
use x402_worker_template.Prelude.{
  ℕ, zero, suc, ◌+◌, String, Bool, true, false, Option, none, some, List, [], ◌∷◌, ◌++◌, leb, ltb,
  str_eq, length, if◌then◌else◌,
}
use x402_worker_template.Facilitator.Errors.{Thrown, oversized_body, Result, ok, threw, throws}

-- A number, as `Number` of a text: NaN or an infinity, below 0, a whole number, or one between
-- `n` and `n + 1`.
pub data Number : Type 0 where
  not_finite negative : Number
  whole above : ℕ → Number

-- `Number` of a text, and the limit in bytes.
pub record Limits : Type 0 where
  pub to_number : String → Number
  pub max_bytes : ℕ

-- What a reader yields: chunks, then the end or an error.
pub data Stream : Type 0 where
  done : Stream
  failed : Thrown → Stream
  chunk : List ℕ → Stream → Stream

-- The header content-length, and the stream of the body if there is one.
pub record ResponseBody : Type 0 where
  pub content_length : Option String
  pub stream : Option Stream

abbrev is_over : Number → ℕ → Bool
is_over not_finite max = true
is_over negative max = true
is_over (whole n) max = ltb max n
is_over (above n) max = leb max n

abbrev declares_too_much : Limits → Option String → Bool
declares_too_much l none = false
declares_too_much l (some s) = if str_eq s "" then false else is_over (l.to_number s) l.max_bytes

-- The loop: the chunks that are read, with their total.
unfoldable pub read_chunks : ℕ → Stream → List (List ℕ) → ℕ → Result (List (List ℕ) × ℕ)
unfolding length
read_chunks max done chunks total = ok (chunks, total)
read_chunks max (failed t) chunks total = threw t
read_chunks max (chunk bytes s) chunks total =
    let sum = total + length bytes in
    let rest = read_chunks max s (chunks ++ (bytes ∷ [])) sum in
    if ltb max sum
    then throws "Facilitator response body exceeds size limit." oversized_body
    else rest

-- `new Uint8Array(n)`, and `output.set(bytes, offset)` where the bytes fit.
unfoldable pub zeros : ℕ → List ℕ
zeros zero = []
zeros (suc n) = 0 ∷ zeros n

unfoldable pub overwrite : List ℕ → List ℕ → List ℕ
overwrite out [] = out
overwrite [] (b ∷ bs) = []
overwrite (o ∷ out) (b ∷ bs) = b ∷ overwrite out bs

unfoldable pub set_at : List ℕ → ℕ → List ℕ → List ℕ
unfolding overwrite
set_at bytes zero out = overwrite out bytes
set_at bytes (suc n) [] = []
set_at bytes (suc n) (o ∷ out) = o ∷ set_at bytes n out

-- The last loop.
unfoldable pub fill : List (List ℕ) → ℕ → List ℕ → List ℕ
unfolding set_at length
fill [] offset out = out
fill (c ∷ cs) offset out = fill cs (offset + length c) (set_at c offset out)

abbrev output_of : Result (List (List ℕ) × ℕ) → Result (List ℕ)
output_of (threw t) = threw t
output_of (ok (chunks, total)) = ok (fill chunks 0 (zeros total))

abbrev read_stream : ℕ → Option Stream → Result (List ℕ)
read_stream max none = ok []
read_stream max (some s) = output_of (read_chunks max s [] 0)

unfoldable pub read_bounded_response_body : Limits → ResponseBody → Result (List ℕ)
unfolding read_chunks fill zeros
read_bounded_response_body l b =
    if declares_too_much l b.content_length
    then throws "Facilitator response body exceeds size limit." oversized_body
    else read_stream l.max_bytes b.stream
