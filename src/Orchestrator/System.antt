-- ===== src/Orchestrator/System.antt =====
-- The deployed service: one coordinator, any number of requests handled at once by workers that
-- share nothing else, and the payments that the facilitator was asked to settle.
pub mod Once
use x402_worker_template.Prelude.{
  String, Option, none, some, List, [], ◌∷◌, ◌≡◌, true, is_some, ℕ, ◌+◌, str_eq, if◌then◌else◌,
}
use x402_worker_template.Js.{Platform}
use x402_worker_template.Receipt.{SettleResponse}
use x402_worker_template.Policy.{PaymentRequirements}
use x402_worker_template.Sdk.{PaymentRequired}
use x402_worker_template.Coordinator.Types.{Env, CoordinatorRpcRequest}
use x402_worker_template.Coordinator.Table.{read_row}
use x402_worker_template.Coordinator.State.{Coordinator}
use x402_worker_template.Coordinator.Rpc.{CoordinatorRpcResponse, handle_rpc}
use x402_worker_template.Coordinator.History.{call, alarm, step}
use x402_worker_template.Orchestrator.Prog.{
  VerifyResult, SettleResult, CancelReason, Prog, throw, build_requirements, create_required, rpc,
  verify_payment, settle_payment, cancel,
}
use x402_worker_template.Orchestrator.Context.{Ctx}
use x402_worker_template.Orchestrator.Handler.{handle_mainnet_example_request}

pub record System : Type 0 where
  pub coordinator : Coordinator
  pub requests : List Prog
  pub settled : List String

-- One request of the list goes on, the others wait.
pub data Replaces (q q' : Prog) : List Prog → List Prog → Type 0 where
  here : {qs : List Prog} → Replaces q q' (q ∷ qs) (q' ∷ qs)
  there : {r : Prog} {qs rs : List Prog} → Replaces q q' qs rs → Replaces q q' (r ∷ qs) (r ∷ rs)

infix 10 ◌⇝◌
-- A step of a request that is not a call of the coordinator and not a settlement: any outcome is
-- possible, and the worker may die.
pub data ◌⇝◌ : Prog → Prog → Type 0 where
  builds :
      {k : Option (List PaymentRequirements) → Prog} (o : Option (List PaymentRequirements))
      → build_requirements k ⇝ k o
  creates :
      {rs : List PaymentRequirements} {error : Option String} {k : Option PaymentRequired → Prog}
      (o : Option PaymentRequired)
      → create_required rs error k ⇝ k o
  verifies : {k : Option VerifyResult → Prog} (o : Option VerifyResult) → verify_payment k ⇝ k o
  cancels : {why : CancelReason} {k : Prog} → cancel why k ⇝ k
  dies : {q : Prog} → q ⇝ throw

module _ (p : Platform) (encode : SettleResponse → String) where
  -- A call may be answered, fail before the coordinator runs it, or lose its answer. Another client
  -- may call the coordinator too.
  pub data SystemStep : System → System → Type 0 where
    arrives :
        {c : Coordinator} {qs : List Prog} {done : List String} (ctx : Ctx)
        → SystemStep
            (record { coordinator = c; requests = qs; settled = done })
            (record {
              coordinator = c;
              requests = handle_mainnet_example_request ctx ∷ qs;
              settled = done;
            })
    goes_on :
        {c : Coordinator} {qs rs : List Prog} {done : List String} {q r : Prog}
        → q ⇝ r
        → Replaces q r qs rs
        → SystemStep
            (record { coordinator = c; requests = qs; settled = done })
            (record { coordinator = c; requests = rs; settled = done })
    answered :
        {c : Coordinator} {qs rs : List Prog} {done : List String} (q : CoordinatorRpcRequest)
        (k : Option CoordinatorRpcResponse → Prog) (env : Env)
        → Replaces (rpc q k) (k (some (handle_rpc p encode env q c).1)) qs rs
        → SystemStep
            (record { coordinator = c; requests = qs; settled = done })
            (record { coordinator = step p encode (call env q) c; requests = rs; settled = done })
    not_sent :
        {c : Coordinator} {qs rs : List Prog} {done : List String} (q : CoordinatorRpcRequest)
        (k : Option CoordinatorRpcResponse → Prog)
        → Replaces (rpc q k) (k none) qs rs
        → SystemStep
            (record { coordinator = c; requests = qs; settled = done })
            (record { coordinator = c; requests = rs; settled = done })
    answer_lost :
        {c : Coordinator} {qs rs : List Prog} {done : List String} (q : CoordinatorRpcRequest)
        (k : Option CoordinatorRpcResponse → Prog) (env : Env)
        → Replaces (rpc q k) (k none) qs rs
        → SystemStep
            (record { coordinator = c; requests = qs; settled = done })
            (record { coordinator = step p encode (call env q) c; requests = rs; settled = done })
    settles :
        {c : Coordinator} {qs rs : List Prog} {done : List String} (key : String)
        (k : Option SettleResult → Prog) (o : Option SettleResult)
        → Replaces (settle_payment key k) (k o) qs rs
        → SystemStep
            (record { coordinator = c; requests = qs; settled = done })
            (record { coordinator = c; requests = rs; settled = key ∷ done })
    called :
        {c : Coordinator} {qs : List Prog} {done : List String} (env : Env)
        (q : CoordinatorRpcRequest)
        → SystemStep
            (record { coordinator = c; requests = qs; settled = done })
            (record { coordinator = step p encode (call env q) c; requests = qs; settled = done })
    alarms :
        {c : Coordinator} {qs : List Prog} {done : List String} (env : Env)
        → SystemStep
            (record { coordinator = c; requests = qs; settled = done })
            (record { coordinator = step p encode (alarm env) c; requests = qs; settled = done })

  -- The step does not delete the record of the key.
  abbrev Keeps : String → System → System → Type 0
  Keeps key s t =
      is_some (read_row key s.coordinator.table) ≡ true
      → is_some (read_row key t.coordinator.table) ≡ true

  -- Any number of steps, none of which deletes the record of the key.
  pub data Reaches (key : String) : System → System → Type 0 where
    done : {s : System} → Reaches key s s
    more : {s t u : System} → SystemStep s t → Keeps key s t → Reaches key t u → Reaches key s u

-- How often the payment of an attempt was submitted.
pub times : String → List String → ℕ
times key [] = 0
times key (x ∷ xs) = (if str_eq x key then 1 else 0) + times key xs
