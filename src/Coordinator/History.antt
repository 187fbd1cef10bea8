-- ===== src/Coordinator/History.antt =====
-- The coordinator over time: the calls and alarms that it serves, one after the other.
pub mod Settlement
use x402_worker_template.Prelude.{String, true, none, List, [], ◌∷◌, ◌≡◌, is_some}
use x402_worker_template.Js.{Platform}
use x402_worker_template.Receipt.{SettleResponse}
use x402_worker_template.Coordinator.Types.{Env, CoordinatorRpcRequest}
use x402_worker_template.Coordinator.Table.{read_row}
use x402_worker_template.Coordinator.State.{Coordinator, schedule_next_cleanup_alarm}
use x402_worker_template.Coordinator.Query.{on_alarm}
use x402_worker_template.Coordinator.Rpc.{handle_rpc}
use x402_worker_template.Coordinator.Invariant.{Inv}
use x402_worker_template.Coordinator.Invariant.Steps.{handle_rpc-Inv, run_ttl_cleanup-Inv}

pub data Event : Type 0 where
  call : Env → CoordinatorRpcRequest → Event
  alarm : Env → Event

-- The object over an empty table, before its first call.
pub start : Coordinator
start = record { table = []; alarm = none }

module _ (p : Platform) (encode : SettleResponse → String) where
  unfoldable pub step : Event → Coordinator → Coordinator
  step (call env q) c = (handle_rpc p encode env q c).0
  step (alarm env) c = on_alarm env c

  unfoldable pub run : List Event → Coordinator → Coordinator
  run [] c = c
  run (e ∷ es) c = run es (step e c)

  pub step-Inv : (e : Event) (c : Coordinator) → Inv p c → Inv p (step e c)
  unfolding step on_alarm schedule_next_cleanup_alarm
  step-Inv (call env q) c v = handle_rpc-Inv p encode env q c v
  step-Inv (alarm env) c v =
      let w = run_ttl_cleanup-Inv p c v env none in
      record {
        rows = w.rows;
        keys = w.keys;
        identifiers = w.identifiers;
        commitments = w.commitments;
      }

  run-Inv : (es : List Event) (c : Coordinator) → Inv p c → Inv p (run es c)
  unfolding run
  run-Inv [] c v = v
  run-Inv (e ∷ es) c v = run-Inv es (step e c) (step-Inv e c v)

  -- Whatever calls and alarms a new coordinator has served, in whatever order: its three key
  -- columns hold no value twice, and every row has the columns that its state promises.
  pub run-start-Inv : (es : List Event) → Inv p (run es start)
  unfolding start
  run-start-Inv es =
      run-Inv es (record { table = []; alarm = none })
        (record { rows = tt; keys = tt; identifiers = tt; commitments = tt })

  -- The event does not delete the record of the key.
  abbrev KeepsRecord : String → Event → Coordinator → Type 0
  KeepsRecord key e c =
      is_some (read_row key c.table) ≡ true → is_some (read_row key (step e c).table) ≡ true

  -- No event of the history deletes the record of the key.
  abbrev pub NeverDeleted : String → List Event → Coordinator → Type 0
  NeverDeleted key [] c = Unit
  NeverDeleted key (e ∷ es) c = KeepsRecord key e c × NeverDeleted key es (step e c)
