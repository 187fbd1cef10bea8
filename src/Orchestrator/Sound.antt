-- ===== src/Orchestrator/Sound.antt =====
-- The discipline of a handler: it asks the facilitator to settle an attempt only as its very next
-- step after the coordinator granted it the settle lease of that attempt.
use x402_worker_template.Prelude.{
  ℕ, ◌≤◌, String, Option, none, some, List, ◌≡◌, str_eq, if◌then◌else◌,
}
use x402_worker_template.Policy.{PaymentRequirements}
use x402_worker_template.Sdk.{PaymentRequired}
use x402_worker_template.Coordinator.Types.{settle, acquired, CoordinatorRpcRequest}
use x402_worker_template.Coordinator.Rpc.{CoordinatorRpcResponse, leased}
use x402_worker_template.Coordinator.History.Settlement.{settle_grant}
use x402_worker_template.Orchestrator.Prog.{
  VerifyResult, SettleResult, Prog, respond, throw, build_requirements, create_required, rpc,
  verify_payment, settle_payment, cancel,
}

-- 1 if the next step settles the attempt of the key.
unfoldable pub armed : String → Prog → ℕ
armed key (settle_payment k next) = if str_eq k key then 1 else 0
armed key _ = 0

-- 1 if the answer grants a settle lease for the key; a call that threw grants none.
abbrev pub granted : String → Option CoordinatorRpcResponse → ℕ
granted key none = 0
granted key (some r) = settle_grant key r

-- What an answer to a request has in common with the request: a lease that is granted on a request
-- for a settle lease is of that kind and for that key.
abbrev pub Fits : CoordinatorRpcRequest → Option CoordinatorRpcResponse → Type 0
Fits (CoordinatorRpcRequest.acquire_settle_lease key e) (some (leased (acquired kind l x))) =
    (kind ≡ settle) × (l.record_key ≡ key)
Fits _ _ = Unit

abbrev pub IsUnarmed : Prog → Type 0
IsUnarmed q = (key : String) → armed key q ≡ 0

abbrev pub IsSound : Prog → Type 0
IsSound (respond r) = Unit
IsSound throw = Unit
IsSound (build_requirements k) =
    (o : Option (List PaymentRequirements)) → IsSound (k o) × IsUnarmed (k o)
IsSound (create_required rs error k) =
    (o : Option PaymentRequired) → IsSound (k o) × IsUnarmed (k o)
IsSound (rpc q k) =
    (o : Option CoordinatorRpcResponse)
    → Fits q o
    → IsSound (k o) × ((key : String) → armed key (k o) ≤ granted key o)
IsSound (verify_payment k) = (o : Option VerifyResult) → IsSound (k o) × IsUnarmed (k o)
IsSound (settle_payment key k) = (o : Option SettleResult) → IsSound (k o) × IsUnarmed (k o)
IsSound (cancel why k) = IsSound k × IsUnarmed k

-- A program that keeps the discipline and does not settle as its next step.
pub record IsCalm (q : Prog) : Type 0 where
  pub sound : IsSound q
  pub unarmed : IsUnarmed q
