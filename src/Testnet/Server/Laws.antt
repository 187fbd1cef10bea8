-- ===== src/Testnet/Server/Laws.antt =====
-- The testnet server: which answer a request gets, and how often the payment is set up.
use x402_worker_template.Prelude.{
  ℕ, suc, ◌+◌, ◌≤◌, String, Bool, true, false, ◌&&◌, Option, none, some, List, [], ◌∷◌, ◌≡◌, refl,
  ap, subst, arith, inl, inr, All, All-append, Bool-cases, str_eq, str_eq_iff,
}
use x402_worker_template.Js.Text.{utf16_length, trim}
use x402_worker_template.Client.Web.{param}
use x402_worker_template.Orchestrator.Context.{is_valid_example_value}
use x402_worker_template.Testnet.Server.{
  invalid_value, Answer, error, example, values_of, validate_example_query, build_example_response,
  example_handler, Request, Verdict, answers, proceeds, fails, Progress, not_started, running,
  ready, Server, new_server, Served, failure, passed, Event, arrived, initialized, init_failed,
  serve_all, fail_all, admit, admit_if, end_init, step, run,
}

-- One parameter, the value, and a valid one.
pub is_example_query : List (String × String) → Bool
is_example_query ((k, v) ∷ []) = str_eq k "value" && is_valid_example_value v
is_example_query params = false

pub data IsServed (gate : Request → Verdict) (x : Served) : Type 0 where
  invalid :
      is_example_query x.request.params ≡ false
      → x.answer ≡ error 400 invalid_value
      → x.gated ≡ false
      → x.handled ≡ false
      → IsServed gate x
  unavailable :
      is_example_query x.request.params ≡ true
      → x.answer ≡ failure
      → x.gated ≡ false
      → x.handled ≡ false
      → IsServed gate x
  stopped :
      (a : Answer)
      → is_example_query x.request.params ≡ true
      → gate x.request ≡ answers a
      → x.answer ≡ a
      → x.handled ≡ false
      → IsServed gate x
  broken :
      is_example_query x.request.params ≡ true
      → gate x.request ≡ fails
      → x.answer ≡ failure
      → x.handled ≡ false
      → IsServed gate x
  paid :
      (f : Answer → Answer) (v : String)
      → x.request.params ≡ ("value", v) ∷ []
      → gate x.request ≡ proceeds f
      → x.answer ≡ f (example (build_example_response v x.request.now))
      → IsServed gate x

-- A query that is let through.
record IsGood (params : List (String × String)) : Type 0 where
  value : String
  one : params ≡ ("value", value) ∷ []
  valid : is_valid_example_value value ≡ true

valid_query :
    (params : List (String × String)) → validate_example_query params ≡ none → IsGood params
unfolding validate_example_query values_of
valid_query [] h = cc h
valid_query ((k, v) ∷ []) h = record {
  value = v;
  one = ground (arith, str_eq_iff k "value");
  valid = ground arith;
}
valid_query ((k, v) ∷ p ∷ ps) h = cc h

invalid_query :
    (params : List (String × String)) (a : Answer)
    → validate_example_query params ≡ some a
    → (a ≡ error 400 invalid_value) × (is_example_query params ≡ false)
unfolding validate_example_query values_of is_example_query
invalid_query [] a h = ground arith
invalid_query ((k, v) ∷ []) a h = ground arith
invalid_query ((k, v) ∷ p ∷ ps) a h = ground arith

good_query : (params : List (String × String)) → IsGood params → is_example_query params ≡ true
unfolding is_example_query
good_query params g = rw (g.one, g.valid) refl

not_empty : (v : String) → is_valid_example_value v ≡ true → str_eq v "" ≡ false
unfolding is_valid_example_value utf16_length trim
not_empty v h = elim (Bool-cases (str_eq v "")) [
  | inr e ↦ e
  | inl e ↦
      let empty : v ≡ "" = ground (arith, str_eq_iff v "") in
      let valid : is_valid_example_value "" ≡ true =
        subst (λ x. is_valid_example_value x ≡ true) empty h in
      cc valid
]

handled_value :
    (r : Request) (g : IsGood r.params)
    → example_handler r.now r.params ≡ example (build_example_response g.value r.now)
unfolding example_handler param
handled_value r g = rw (g.one, not_empty g.value g.valid, g.valid) refl

passed-IsServed :
    (gate : Request → Verdict) (r : Request) (v : Verdict)
    → gate r ≡ v
    → IsGood r.params
    → IsServed gate (passed r v)
passed-IsServed gate r (answers a) e g = stopped a (good_query r.params g) e refl refl
passed-IsServed gate r fails e g = broken (good_query r.params g) e refl refl
passed-IsServed gate r (proceeds f) e g = paid f g.value g.one e (ap f (handled_value r g))

abbrev IsFine : Request → Type 0
IsFine r = IsGood r.params

-- How often the set-up may have been started, beyond its failures.
abbrev owed : Progress → ℕ
owed not_started = 0
owed p = 1

pub failures : List Event → ℕ
failures [] = 0
failures (init_failed ∷ es) = suc (failures es)
failures (e ∷ es) = failures es

failures-cons : (e : Event) (es : List Event) → failures (e ∷ es) ≡ failures (e ∷ []) + failures es
unfolding failures
failures-cons (arrived r) es = omega arith
failures-cons initialized es = omega arith
failures-cons init_failed es = omega arith

module _ (gate : Request → Verdict) where
  serve_all-IsServed : (rs : List Request) → All IsFine rs → All (IsServed gate) (serve_all gate rs)
  unfolding serve_all
  serve_all-IsServed [] h = tt
  serve_all-IsServed (r ∷ rs) (g, h) = (passed-IsServed gate r _ refl g, serve_all-IsServed rs h)

  fail_all-IsServed : (rs : List Request) → All IsFine rs → All (IsServed gate) (fail_all gate rs)
  unfolding fail_all
  fail_all-IsServed [] h = tt
  fail_all-IsServed (r ∷ rs) (g, h) =
      (unavailable (good_query r.params g) refl refl refl, fail_all-IsServed rs h)

  -- A step answers right, and lets only good requests wait.
  record IsStep (s : Server) (failed : ℕ) (out : List Served × Server) : Type 0 where
    served : All (IsServed gate) out.0
    fine : All IsFine out.1.waiting
    bound : out.1.started + owed s.init ≤ s.started + owed out.1.init + failed

  admit-IsStep :
      (r : Request) (p : Progress) (s : Server)
      → s.init ≡ p
      → IsGood r.params
      → All IsFine s.waiting
      → IsStep s 0 (admit gate r p s)
  unfolding serve_all
  admit-IsStep r not_started s e g w = record {
    served = tt;
    fine = (g, w);
    bound = rw e (omega arith);
  }
  admit-IsStep r running s e g w = record { served = tt; fine = (g, w); bound = omega arith }
  admit-IsStep r ready s e g w = record {
    served = (passed-IsServed gate r _ refl g, tt);
    fine = w;
    bound = omega arith;
  }

  arrived-IsStep :
      (r : Request) (o : Option Answer) (s : Server)
      → validate_example_query r.params ≡ o
      → All IsFine s.waiting
      → IsStep s 0 (admit_if gate r o s)
  arrived-IsStep r (some a) s e w =
      let (same, bad) = invalid_query r.params a e in
      record { served = (invalid bad same refl refl, tt); fine = w; bound = omega arith }
  arrived-IsStep r none s e w = admit-IsStep r s.init s refl (valid_query r.params e) w

  initialized-IsStep :
      (p : Progress) (s : Server)
      → s.init ≡ p
      → All IsFine s.waiting
      → IsStep s 0 (end_init gate initialized p s)
  initialized-IsStep running s e w = record {
    served = serve_all-IsServed s.waiting w;
    fine = tt;
    bound = rw e (omega arith);
  }
  initialized-IsStep not_started s e w = record { served = tt; fine = w; bound = omega arith }
  initialized-IsStep ready s e w = record { served = tt; fine = w; bound = omega arith }

  failed-IsStep :
      (p : Progress) (s : Server)
      → s.init ≡ p
      → All IsFine s.waiting
      → IsStep s 1 (end_init gate init_failed p s)
  failed-IsStep running s e w = record {
    served = fail_all-IsServed s.waiting w;
    fine = tt;
    bound = rw e (omega arith);
  }
  failed-IsStep not_started s e w = record { served = tt; fine = w; bound = omega arith }
  failed-IsStep ready s e w = record { served = tt; fine = w; bound = omega arith }

  step-IsStep :
      (e : Event) (s : Server) → All IsFine s.waiting → IsStep s (failures (e ∷ [])) (step gate e s)
  unfolding step failures
  step-IsStep (arrived r) s w = arrived-IsStep r _ s refl w
  step-IsStep initialized s w = initialized-IsStep s.init s refl w
  step-IsStep init_failed s w = failed-IsStep s.init s refl w

  run-IsServed :
      (es : List Event) (s : Server)
      → All IsFine s.waiting
      → All (IsServed gate) (run gate es s).0
        × ((run gate es s).1.started + owed s.init
            ≤ s.started + owed (run gate es s).1.init + failures es)
  unfolding run failures
  run-IsServed [] s w = (tt, omega arith)
  run-IsServed (e ∷ es) s w =
      let now : IsStep s (failures (e ∷ [])) (step gate e s) = step-IsStep e s w in
      let (later, bound) = run-IsServed es (step gate e s).1 now.fine in
      let first : (step gate e s).1.started + owed s.init
          ≤ s.started + owed (step gate e s).1.init + failures (e ∷ []) =
        now.bound in
      (All-append (IsServed gate) _ _ now.served later, omega (arith, failures-cons e es))

owed-bound : (p : Progress) → owed p ≤ 1
owed-bound not_started = omega arith
owed-bound running = omega arith
owed-bound ready = omega arith

-- Whatever requests arrive and however the set-up of the payment goes: a request with a query other
-- than one valid value is answered 400 INVALID_VALUE, before the payment is looked at. Any other one
-- gets the middleware's answer, or what the middleware makes of the example for its value, or a 500
-- where the set-up or the middleware fails, and then the handler does not run. The set-up is started
-- at most once more than it failed.
pub run-serves :
    (gate : Request → Verdict) (es : List Event)
    → All (IsServed gate) (run gate es new_server).0
      × ((run gate es new_server).1.started ≤ 1 + failures es)
unfolding new_server
run-serves gate es =
    let (all, bound) = run-IsServed gate es new_server tt in
    (all, omega (arith, owed-bound (run gate es new_server).1.init))
