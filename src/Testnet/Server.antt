-- ===== src/Testnet/Server.antt =====
-- src/routes/example.ts, errors.ts, payment.ts and index.ts: the testnet server's answers to GET
-- requests of /v1/example. The request ids and the log lines are not modelled.
pub mod Laws
pub mod Tests
use x402_worker_template.Prelude.{
  ℕ, suc, String, Bool, true, false, not, ◌||◌, Option, none, some, List, [], ◌∷◌, ◌++◌, ltb,
  nat_eq, str_eq, if◌then◌else◌,
}
use x402_worker_template.Js.Text.{utf16_length, trim}
use x402_worker_template.Client.Web.{param}
use x402_worker_template.Orchestrator.Context.{is_valid_example_value}

pub data ErrorCode : Type 0 where
  missing_value invalid_value payment_required payment_invalid : ErrorCode
  payment_settlement_failed internal_error : ErrorCode

pub record ExampleBody : Type 0 where
  pub input : String
  pub normalized_input : String
  pub character_count : ℕ
  pub retrieved_at : String

-- An error with its status, the example, or an answer of the payment's middleware.
pub data Answer : Type 0 where
  error : ℕ → ErrorCode → Answer
  example : ExampleBody → Answer
  of_middleware : ℕ → String → Answer

-- `getAll`.
values_of : String → List (String × String) → List String
values_of key [] = []
values_of key ((k, v) ∷ ps) = let rest = values_of key ps in if str_eq k key then v ∷ rest else rest

-- What `validateExampleQuery` answers, or `none` where it calls the next handler.
abbrev value_error : List String → Option Answer
value_error [] = some (error 400 missing_value)
value_error (v ∷ []) =
    if not (is_valid_example_value v) then some (error 400 invalid_value) else none
value_error (v ∷ w ∷ vs) = some (error 400 invalid_value)

abbrev key_error : List (String × String) → List String → Option Answer
key_error ((k, v) ∷ []) values =
    if not (str_eq k "value") then some (error 400 invalid_value) else value_error values
key_error params values = some (error 400 invalid_value)

unfoldable pub validate_example_query : List (String × String) → Option Answer
unfolding values_of is_valid_example_value
validate_example_query params = key_error params (values_of "value" params)

unfoldable pub build_example_response : String → String → ExampleBody
unfolding trim utf16_length
build_example_response value now =
    let normalized = trim value in
    record {
      input = value;
      normalized_input = normalized;
      character_count = utf16_length normalized;
      retrieved_at = now;
    }

abbrev handler_of : String → Option String → Answer
handler_of now none = error 400 invalid_value
handler_of now (some v) =
    if str_eq v "" || not (is_valid_example_value v)
    then error 400 invalid_value
    else example (build_example_response v now)

unfoldable pub example_handler : String → List (String × String) → Answer
unfolding param is_valid_example_value build_example_response
example_handler now params = handler_of now (param "value" params)

-- A request: its query, the headers that the middleware reads, and the time of the handler.
pub record Request : Type 0 where
  pub params : List (String × String)
  pub payment : Option String
  pub now : String

-- What the middleware of @x402/hono does: it answers, or it calls the handler and makes an answer
-- of the handler's, or it throws.
pub data Verdict : Type 0 where
  answers : Answer → Verdict
  proceeds : (Answer → Answer) → Verdict
  fails : Verdict

pub data Progress : Type 0 where
  not_started running ready : Progress

-- `localInitPromise`, the requests that wait for it, and how often it was started.
pub record Server : Type 0 where
  pub init : Progress
  waiting : List Request
  pub started : ℕ

unfoldable pub new_server : Server
new_server = record { init = not_started; waiting = []; started = 0 }

-- A request that was answered, and whether the payment was looked at and the handler ran.
pub record Served : Type 0 where
  pub request : Request
  pub answer : Answer
  pub gated : Bool
  pub handled : Bool

abbrev unhandled : Request → Answer → Bool → Served
unhandled r a gated = record { request = r; answer = a; gated = gated; handled = false }

-- `app.onError`.
abbrev pub failure : Answer
failure = error 500 internal_error

abbrev passed : Request → Verdict → Served
passed r (answers a) = unhandled r a true
passed r fails = unhandled r failure true
passed r (proceeds f) = record {
  request = r;
  answer = f (example_handler r.now r.params);
  gated = true;
  handled = true;
}

pub data Event : Type 0 where
  arrived : Request → Event
  initialized init_failed : Event

module _ (gate : Request → Verdict) where
  serve_all : List Request → List Served
  unfolding example_handler
  serve_all [] = []
  serve_all (r ∷ rs) = passed r (gate r) ∷ serve_all rs

  fail_all : List Request → List Served
  fail_all [] = []
  fail_all (r ∷ rs) = unhandled r failure false ∷ fail_all rs

  abbrev admit : Request → Progress → Server → List Served × Server
  admit r not_started s =
      ([], record { init = running; waiting = r ∷ s.waiting; started = suc s.started })
  admit r running s = ([], record s { waiting = r ∷ s.waiting })
  admit r ready s = (serve_all (r ∷ []), s)

  abbrev admit_if : Request → Option Answer → Server → List Served × Server
  admit_if r (some a) s = (unhandled r a false ∷ [], s)
  admit_if r none s = admit r s.init s

  abbrev end_init : Event → Progress → Server → List Served × Server
  end_init initialized running s = (serve_all s.waiting, record s { init = ready; waiting = [] })
  end_init init_failed running s =
      (fail_all s.waiting, record s { init = not_started; waiting = [] })
  end_init e p s = ([], s)

  unfoldable pub step : Event → Server → List Served × Server
  unfolding serve_all fail_all validate_example_query
  step (arrived r) s = admit_if r (validate_example_query r.params) s
  step initialized s = end_init initialized s.init s
  step init_failed s = end_init init_failed s.init s

  -- Events in turn: all answers, and the server in the end.
  unfoldable pub run : List Event → Server → List Served × Server
  unfolding step
  run [] s = ([], s)
  run (e ∷ es) s =
      let (now, after) = step e s in let (later, final) = run es after in (now ++ later, final)
