-- ===== src/Facilitator/Http/Body/Tests.antt =====
-- readBoundedResponseBody on a body of two chunks.
use x402_worker_template.Prelude.{none, some, [], ◌∷◌, ◌≡◌, refl, length}
use x402_worker_template.Facilitator.Errors.{ok}
use x402_worker_template.Facilitator.Http.Body.{
  Limits, whole, Stream, done, chunk, read_bounded_response_body,
}
use x402_worker_template.Facilitator.Http.Body.Laws.{
  chunks_of, flatten, end_of, read_bounded-flatten,
}

abbrev pub limits : Limits
limits = record { to_number = λ s. whole 5; max_bytes = 5 }

abbrev two_chunks : Stream
two_chunks = chunk (1 ∷ 2 ∷ 3 ∷ []) (chunk (4 ∷ 5 ∷ []) done)

read_bounded-flatten_example :
    read_bounded_response_body limits (record { content_length = none; stream = some two_chunks })
    ≡ ok (1 ∷ 2 ∷ 3 ∷ 4 ∷ 5 ∷ [])
unfolding chunks_of flatten end_of length
read_bounded-flatten_example = read_bounded-flatten limits none two_chunks refl
