-- ===== src/Testnet/Server/Tests.antt =====
-- A run of the testnet server: a request with no query, two that share a set-up, and one with a
-- padded value.
use x402_worker_template.Prelude.{◌+◌, ◌≤◌, String, none, List, [], ◌∷◌, All}
use x402_worker_template.Testnet.Server.{
  Request, Verdict, proceeds, Event, arrived, initialized, init_failed, new_server, run,
}
use x402_worker_template.Testnet.Server.Laws.{IsServed, failures, run-serves}

abbrev query_request : List (String × String) → Request
query_request params = record { params = params; payment = none; now = "2026-01-01T00:00:00.000Z" }

abbrev good : Request
good = query_request (("value", "hello") ∷ [])

abbrev padded : Request
padded = query_request (("value", " hello") ∷ [])

abbrev free : Request → Verdict
free r = proceeds (λ a. a)

abbrev arrivals : List Event
arrivals =
    arrived (query_request [])
    ∷ arrived good
    ∷ init_failed
    ∷ arrived good
    ∷ arrived good
    ∷ initialized
    ∷ arrived padded
    ∷ arrived good
    ∷ []

run-serves_example :
    All (IsServed free) (run free arrivals new_server).0
    × ((run free arrivals new_server).1.started ≤ 1 + failures arrivals)
run-serves_example = run-serves free arrivals
