-- ===== src/Client/Poller/Laws.antt =====
-- pay-status-poller.ts: when the loop of lookups ends, and with what.
use native.Mathlib.Decide.{dec_lt}
use x402_worker_template.Prelude.{
  ℕ, zero, suc, ◌+◌, ◌≤◌, ◌<◌, String, some, ◌≡◌, arith, inl, inr, subst, Option-cases,
}
use x402_worker_template.Client.Poller.{
  StatusBody, StatusPollResult, not_seen_limit, poll_count, decide_state, Round, decide, poll_loop,
  poll_payment_status,
}
use x402_worker_template.Client.Poller.Decisions.{
  IsDecision, IsUndecided, decide-IsDecision, decide-IsUndecided,
}

-- How the loop over passes `from`, …, `upto - 1` ends: with the first pass that decides, or with
-- none.
pub data Ends (rounds : ℕ → Round) (from upto : ℕ) : StatusPollResult → Type 0 where
  decided :
      (n : ℕ) (r : StatusPollResult)
      → from ≤ n
      → n < upto
      → ((m : ℕ) → from ≤ m → m < n → IsUndecided (rounds m))
      → IsDecision (rounds n) n r
      → Ends rounds from upto r
  undecided :
      ((m : ℕ) → from ≤ m → m < upto → IsUndecided (rounds m))
      → Ends rounds from upto (not_seen_limit upto)

-- From a number on: the number itself, or past it.
from_on : (P : ℕ → Type 0) (from m : ℕ) → P from → (suc from ≤ m → P m) → from ≤ m → P m
from_on P from m h g low = elim (dec_lt from m) [
  | yes above ↦ g above
  | no same ↦ subst P (omega arith) h
]

-- An undecided pass in front changes nothing.
Ends-skip :
    (rounds : ℕ → Round) (from upto : ℕ) (r : StatusPollResult)
    → IsUndecided (rounds from)
    → Ends rounds (suc from) upto r
    → Ends rounds from upto r
Ends-skip rounds from upto r h (decided n q low high before at) =
    decided n r (omega arith) high
      (λ m a b. from_on (λ k. IsUndecided (rounds k)) from m h (λ up. before m up b) a) at
Ends-skip rounds from upto r h (undecided all) =
    undecided (λ m a b. from_on (λ k. IsUndecided (rounds k)) from m h (λ up. all m up b) a)

poll_loop-Ends :
    (left from upto : ℕ) (rounds : ℕ → Round)
    → left + from ≡ upto
    → Ends rounds from upto (poll_loop left from rounds)
unfolding poll_loop
poll_loop-Ends zero from upto rounds e =
    let same : upto ≡ from = omega arith in
    subst (λ n. Ends rounds from upto (not_seen_limit n)) same
      (undecided (λ m a b. absurd (omega arith)))
poll_loop-Ends (suc left) from upto rounds e = elim (Option-cases (decide (rounds from) from)) [
  | inl h ↦
      rw (h, poll_loop)
        (Ends-skip rounds from upto (poll_loop left (suc from) rounds)
          (decide-IsUndecided (rounds from) from h)
          (poll_loop-Ends left (suc from) upto rounds (omega arith)))
  | inr (r, h) ↦
      rw (h, poll_loop)
        (decided from r (omega arith) (omega arith) (λ m a b. absurd (omega arith))
          (decide-IsDecision (rounds from) from r h))
]

-- The loop of at most `max_polls` lookups ends with the first pass that decides: an abort seen at its
-- start, a lookup that does not answer with an object with a text as its state, or the state
-- fulfilled, failed-definitive, expired or uncertain; and with the result of that kind. If none of the passes decides, the result is `not_seen_limit` after all of them.
pub poll_payment_status-Ends :
    (max_polls : ℕ) (rounds : ℕ → Round)
    → Ends rounds 0 max_polls (poll_payment_status max_polls rounds)
unfolding poll_payment_status
poll_payment_status-Ends max_polls rounds =
    poll_loop-Ends max_polls 0 max_polls rounds (omega arith)

decide_state-count :
    (s : String) (body : StatusBody) (n : ℕ) (r : StatusPollResult)
    → decide_state s body n ≡ some r
    → poll_count r ≡ n
unfolding decide_state
decide_state-count s body n r h = ground arith
