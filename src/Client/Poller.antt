-- ===== src/Client/Poller.antt =====
-- pay-status-client.ts and pay-status-poller.ts: one lookup of a payment's status, and the loop of
-- lookups. What the network and the abort signal do is an argument.
pub mod Decisions
pub mod Laws
pub mod Tests
use x402_worker_template.Prelude.{
  ℕ, zero, suc, String, Bool, true, false, ◌||◌, Option, none, some, List, [], ◌∷◌, str_eq,
  if◌then◌else◌,
}
use x402_worker_template.Js.{Value, text, object, instance_of, Fields, get}

-- The body of a status answer, as it was received.
abbrev pub StatusBody : Type 0
StatusBody = Fields

-- `fetch` throws, or there is a response, whose body may not be JSON.
pub data Fetched : Type 0 where
  failed : Fetched
  responded : ℕ → Option Value → Fetched

pub data PaymentStatusFetchResult : Type 0 where
  ok : ℕ → String → StatusBody → PaymentStatusFetchResult
  bad : String → PaymentStatusFetchResult

abbrev bad_shape : PaymentStatusFetchResult
bad_shape = bad "Status response shape is invalid."

-- `isSafePaymentStatusBody`: an object whose state is a text, which is kept beside it.
abbrev with_state : ℕ → StatusBody → Value → PaymentStatusFetchResult
with_state status body (text state) = ok status state body
with_state status body v = bad_shape

fetch_payment_status : Fetched → PaymentStatusFetchResult
fetch_payment_status failed = bad "Status lookup failed."
fetch_payment_status (responded status none) = bad "Status response was not JSON."
fetch_payment_status (responded status (some (object fs))) = with_state status fs (get "state" fs)
fetch_payment_status (responded status (some (instance_of fs))) =
    with_state status fs (get "state" fs)
fetch_payment_status (responded status (some v)) = bad_shape

pub data StatusPollResult : Type 0 where
  fulfilled failed_definitive expired uncertain : StatusBody → ℕ → StatusPollResult
  not_seen_limit cancelled : ℕ → StatusPollResult
  malformed : String → ℕ → StatusPollResult

abbrev poll_count : StatusPollResult → ℕ
poll_count (fulfilled body n) = n
poll_count (failed_definitive body n) = n
poll_count (expired body n) = n
poll_count (uncertain body n) = n
poll_count (not_seen_limit n) = n
poll_count (cancelled n) = n
poll_count (malformed reason n) = n

is_in_progress : String → Bool
is_in_progress s =
    str_eq s "reserved"
    || str_eq s "verifying"
    || str_eq s "verified"
    || str_eq s "computing"
    || str_eq s "settling"

-- The states that end the loop.
unfoldable pub decide_state : String → StatusBody → ℕ → Option StatusPollResult
decide_state s body n =
    if str_eq s "fulfilled"
    then some (fulfilled body n)
    else (if str_eq s "failed-definitive"
        then some (failed_definitive body n)
        else (if str_eq s "expired"
            then some (expired body n)
            else (if str_eq s "uncertain" then some (uncertain body n) else none)))

-- The calls of `onPoll` and `onInProgress` that one lookup leads to.
pub data PollCall : Type 0 where
  on_poll : ℕ → PollCall
  on_in_progress : String → ℕ → PollCall

unfoldable pub calls_of : String → StatusBody → ℕ → List PollCall
unfolding is_in_progress decide_state
calls_of s body n = elim (decide_state s body n) [
  | some r ↦ on_poll n ∷ []
  | none ↦ if is_in_progress s then on_poll n ∷ on_in_progress s n ∷ [] else on_poll n ∷ []
]

-- One pass of the loop, with the count already raised: the calls, and the result if it ends.
poll_round : Fetched → ℕ → List PollCall × Option StatusPollResult
unfolding fetch_payment_status
poll_round f n = elim (fetch_payment_status f) [
  | bad reason ↦ ([], some (malformed reason n))
  | ok status s body ↦ (calls_of s body n, decide_state s body n)
]

-- What a pass meets: whether the signal is aborted at its start, and what its lookup gets.
pub record Round : Type 0 where
  pub aborted : Bool
  pub fetched : Fetched

unfoldable pub decide : Round → ℕ → Option StatusPollResult
unfolding poll_round
decide r n = if r.aborted then some (cancelled n) else (poll_round r.fetched (suc n)).1

-- `left` passes are left, `n` are done. Both exits of the loop answer `not_seen_limit`.
poll_loop : ℕ → ℕ → (ℕ → Round) → StatusPollResult
unfolding decide
poll_loop zero n rounds = not_seen_limit n
poll_loop (suc left) n rounds =
    let more = poll_loop left (suc n) rounds in
    elim (decide (rounds n) n) [ some r ↦ r | none ↦ more ]

unfoldable pub poll_payment_status : ℕ → (ℕ → Round) → StatusPollResult
unfolding poll_loop
poll_payment_status max_polls = poll_loop max_polls 0
