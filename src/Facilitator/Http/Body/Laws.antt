-- ===== src/Facilitator/Http/Body/Laws.antt =====
-- readBoundedResponseBody: the bytes of the chunks, or an error.
use mathlib.Core.List.{append_assoc, append-nil}
use x402_worker_template.Prelude.{
  ℕ, zero, suc, ◌+◌, ◌≤◌, String, Bool, true, false, Option, none, some, List, [], ◌∷◌, ◌++◌, ◌≡◌,
  refl, ap, ◌∙◌, arith, inl, inr, leb, ltb, length, length-append, Bool-cases, if◌then◌else◌,
}
use x402_worker_template.Facilitator.Errors.{Thrown, oversized_body, Result, ok, threw, throws}
use x402_worker_template.Facilitator.Http.Body.{
  Limits, Stream, done, failed, chunk, declares_too_much, read_chunks, zeros, overwrite, set_at,
  fill, output_of, read_bounded_response_body,
}

-- All that a stream yields, and how it ends.
unfoldable pub chunks_of : Stream → List (List ℕ)
chunks_of done = []
chunks_of (failed t) = []
chunks_of (chunk bytes s) = bytes ∷ chunks_of s

unfoldable pub flatten : List (List ℕ) → List ℕ
flatten [] = []
flatten (c ∷ cs) = c ++ flatten cs

unfoldable pub end_of : Stream → Option Thrown
end_of done = none
end_of (failed t) = some t
end_of (chunk bytes s) = end_of s

abbrev pub ended {ℓ} : {A : Type ℓ} → Option Thrown → A → Result A
ended none a = ok a
ended (some t) a = threw t

abbrev pub too_large {ℓ} : {A : Type ℓ} → Result A
too_large = throws "Facilitator response body exceeds size limit." oversized_body

-- What the loop is meant to give, from where it stands.
abbrev read_from : ℕ → Stream → List (List ℕ) → ℕ → Result (List (List ℕ) × ℕ)
read_from max s chunks total =
    let sum = total + length (flatten (chunks_of s)) in
    if leb sum max then ended (end_of s) (chunks ++ chunks_of s, sum) else too_large

read_chunks-read_from :
    (max : ℕ) (s : Stream) (chunks : List (List ℕ)) (total : ℕ)
    → total ≤ max
    → read_chunks max s chunks total ≡ read_from max s chunks total
unfolding read_chunks flatten chunks_of end_of length
read_chunks-read_from max done chunks total h = ground (arith, append-nil chunks)
read_chunks-read_from max (failed t) chunks total h = ground arith
read_chunks-read_from max (chunk bytes s) chunks total h =
    let both : length (bytes ++ flatten (chunks_of s))
        ≡ length bytes + length (flatten (chunks_of s)) =
      length-append bytes (flatten (chunks_of s)) in
    elim (Bool-cases (ltb max (total + length bytes))) [
      | inl over ↦ ground arith
      | inr under ↦
          rw
            (
              under,
              read_chunks-read_from max s (chunks ++ (bytes ∷ [])) (total + length bytes)
                  (ground arith),
            )
            (ground (arith, append_assoc chunks (bytes ∷ []) (chunks_of s)))
    ]

overwrite-zeros : (c : List ℕ) (m n : ℕ) → n ≡ length c + m → overwrite (zeros n) c ≡ c ++ zeros m
unfolding overwrite zeros length
overwrite-zeros [] m n e = ap zeros (omega arith)
overwrite-zeros (b ∷ bs) m zero e = absurd (omega arith)
overwrite-zeros (b ∷ bs) m (suc n) e =
    ap (λ (l : List ℕ). b ∷ l) (overwrite-zeros bs m n (omega arith))

-- The array, where it is written up to an offset.
set_at-zeros :
    (c written : List ℕ) (m n offset : ℕ)
    → offset ≡ length written
    → n ≡ length c + m
    → set_at c offset (written ++ zeros n) ≡ written ++ (c ++ zeros m)
unfolding set_at length
set_at-zeros c [] m n zero e h = overwrite-zeros c m n h
set_at-zeros c [] m n (suc k) e h = absurd (omega arith)
set_at-zeros c (w ∷ ws) m n zero e h = absurd (omega arith)
set_at-zeros c (w ∷ ws) m n (suc k) e h =
    ap (λ (l : List ℕ). w ∷ l) (set_at-zeros c ws m n k (omega arith) h)

fill-flatten :
    (cs : List (List ℕ)) (written : List ℕ) (n offset : ℕ)
    → offset ≡ length written
    → n ≡ length (flatten cs)
    → fill cs offset (written ++ zeros n) ≡ written ++ flatten cs
unfolding fill flatten length zeros
fill-flatten [] written zero offset e h = refl
fill-flatten [] written (suc n) offset e h = absurd (omega arith)
fill-flatten (c ∷ cs) written n offset e h =
    let both : length (c ++ flatten cs) ≡ length c + length (flatten cs) =
      length-append c (flatten cs) in
    let m : ℕ = length (flatten cs) in
    rw (set_at-zeros c written m n offset e (omega arith), ← (append_assoc written c (zeros m)))
      (fill-flatten cs (written ++ c) m (offset + length c) (omega (arith, length-append written c))
          refl
        ∙ append_assoc written c (flatten cs))

-- A body that declares no more than the limit, or nothing, is read to its end if its chunks hold no
-- more bytes than the limit: the result is exactly their bytes, in order, or the error that the
-- stream ends with. Where they hold more, the result is the error of a body that is too large.
pub read_bounded-flatten :
    (l : Limits) (content_length : Option String) (s : Stream)
    → declares_too_much l content_length ≡ false
    → read_bounded_response_body l (record { content_length = content_length; stream = some s }) ≡ (
        if leb (length (flatten (chunks_of s))) l.max_bytes
        then ended (end_of s) (flatten (chunks_of s))
        else too_large)
unfolding read_bounded_response_body
read_bounded-flatten l content_length s h =
    let sum : ℕ = length (flatten (chunks_of s)) in
    let read : read_chunks l.max_bytes s [] 0 ≡ read_from l.max_bytes s [] 0 =
      read_chunks-read_from l.max_bytes s [] 0 (omega arith) in
    let filled : fill (chunks_of s) 0 (zeros sum) ≡ flatten (chunks_of s) =
      fill-flatten (chunks_of s) [] sum 0 refl refl in
    let plain : 0 + length (flatten (chunks_of s)) ≡ length (flatten (chunks_of s)) = omega arith in
    rw (h, read, plain) (by_end (leb sum l.max_bytes) (end_of s) filled)
  where
    by_end :
        (b : Bool) (e : Option Thrown)
        → fill (chunks_of s) 0 (zeros (length (flatten (chunks_of s)))) ≡ flatten (chunks_of s)
        → output_of (if b then ended e (chunks_of s, length (flatten (chunks_of s))) else too_large)
          ≡ (if b then ended e (flatten (chunks_of s)) else too_large)
    by_end true none f = ap ok f
    by_end true (some t) f = refl
    by_end false e f = refl
