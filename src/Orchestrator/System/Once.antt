-- ===== src/Orchestrator/System/Once.antt =====
-- mainnet-payment-orchestrator.ts over the coordinator: how often an attempt is settled when requests
-- interleave, fail and lose answers.
use x402_worker_template.Prelude.{
  ℕ, ◌+◌, ◌≤◌, String, Option, none, some, List, [], ◌∷◌, suc, Bool-cases, inl, inr, ◌≡◌, refl,
  arith, All,
}
use x402_worker_template.Js.{Platform}
use x402_worker_template.Receipt.{SettleResponse}
use x402_worker_template.Coordinator.Types.{Env, CoordinatorRpcRequest}
use x402_worker_template.Coordinator.Table.{read_row}
use x402_worker_template.Coordinator.State.{Coordinator, changed_one}
use x402_worker_template.Coordinator.Settle.{grant_settle_lease, acquire_settle_where}
use x402_worker_template.Coordinator.Rpc.{leased, handle_rpc}
use x402_worker_template.Coordinator.Cases.{AcquireSettle, acquire_settle_cases}
use x402_worker_template.Coordinator.Invariant.{Inv}
use x402_worker_template.Coordinator.History.{call, alarm, step, step-Inv}
use x402_worker_template.Coordinator.History.Settlement.{
  budget, Moves-budget, budget-le-one, step-Moves, call_uses_budget,
}
use x402_worker_template.Orchestrator.Prog.{Prog}
use x402_worker_template.Orchestrator.Handler.Sound.{handle_mainnet_example_request-IsCalm}
use x402_worker_template.Orchestrator.Sound.{armed, Fits, IsSound}
use x402_worker_template.Orchestrator.System.{
  System, Replaces, here, there, ◌⇝◌, builds, creates, verifies, cancels, dies, SystemStep, arrives,
  goes_on, answered, not_sent, answer_lost, settles, called, alarms, Keeps, Reaches, done, more,
  times,
}

-- How many requests are about to settle the attempt.
unfoldable armed_all : String → List Prog → ℕ
armed_all key [] = 0
armed_all key (q ∷ qs) = armed key q + armed_all key qs

Replaces-armed :
    {q r : Prog} {qs rs : List Prog} (key : String)
    → Replaces q r qs rs
    → armed_all key rs + armed key q ≡ armed_all key qs + armed key r
unfolding armed_all
Replaces-armed key here = omega arith
Replaces-armed key (there w) = omega (arith, Replaces-armed key w)

Replaces-All :
    {q r : Prog} {qs rs : List Prog}
    → Replaces q r qs rs
    → All IsSound qs
    → IsSound q × (IsSound r → All IsSound rs)
Replaces-All here (h, hs) = (h, λ g. (g, hs))
Replaces-All (there w) (h, hs) = let rest = Replaces-All w hs in (rest.0, λ g. (h, rest.1 g))

⇝-IsSound :
    {q r : Prog} (key : String) → q ⇝ r → IsSound q → IsSound r × (armed key r ≤ armed key q)
unfolding armed
⇝-IsSound key (builds o) h = ((h o).0, omega (arith, (h o).1 key))
⇝-IsSound key (creates o) h = ((h o).0, omega (arith, (h o).1 key))
⇝-IsSound key (verifies o) h = ((h o).0, omega (arith, (h o).1 key))
⇝-IsSound key cancels h = (h.0, omega (arith, h.1 key))
⇝-IsSound key dies h = (tt, omega arith)

none-Fits : (q : CoordinatorRpcRequest) → Fits q none
none-Fits (CoordinatorRpcRequest.acquire_settle_lease key e) = tt
none-Fits _ = tt

module _ (p : Platform) (encode : SettleResponse → String) where
  grant-Fits :
      (env : Env) (key : String) (e : Option String) (generation : ℕ) (c : Coordinator)
      → Fits
          (CoordinatorRpcRequest.acquire_settle_lease key e)
          (some (leased (grant_settle_lease env key e generation c).1))
  unfolding grant_settle_lease
  grant-Fits env key e generation c = elim (Bool-cases (changed_one (acquire_settle_where key) c)) [
    | inl h ↦ rw h (refl, refl)
    | inr h ↦ rw h tt
  ]

  -- The coordinator answers a request for a settle lease with a settle lease of that record.
  handle_rpc-Fits :
      (env : Env) (q : CoordinatorRpcRequest) (c : Coordinator)
      → Fits q (some (handle_rpc p encode env q c).1)
  unfolding handle_rpc
  handle_rpc-Fits env (CoordinatorRpcRequest.acquire_settle_lease key e) c =
      elim (acquire_settle_cases env key e c) [
        | AcquireSettle.refused reason h ↦ rw h tt
        | AcquireSettle.granted s found state ready h ↦
            rw h (grant-Fits env key e (suc s.operation_generation) c)
      ]
  handle_rpc-Fits env _ c = tt

  record IsOnce (key : String) (s : System) : Type 0 where
    inv : Inv p s.coordinator
    sound : All IsSound s.requests
    spent :
        times key s.settled + armed_all key s.requests + budget (read_row key s.coordinator.table)
        ≤ 1

  step-IsOnce :
      (key : String) (s t : System)
      → SystemStep p encode s t
      → Keeps p encode key s t
      → IsOnce key s
      → IsOnce key t
  unfolding armed armed_all times step
  step-IsOnce key s t (arrives ctx) keeps i =
      let calm = handle_mainnet_example_request-IsCalm ctx in
      record {
        inv = i.inv;
        sound = (calm.sound, i.sound);
        spent = omega (arith, i.spent, calm.unarmed key);
      }
  step-IsOnce key s t (goes_on m w) keeps i =
      let at = Replaces-All w i.sound in
      let after = ⇝-IsSound key m at.0 in
      record {
        inv = i.inv;
        sound = at.1 after.0;
        spent = omega (arith, i.spent, Replaces-armed key w, after.1);
      }
  step-IsOnce key s t (answered q k env w) keeps i =
      let at = Replaces-All w i.sound in
      let after =
        at.0 (some (handle_rpc p encode env q s.coordinator).1)
          (handle_rpc-Fits env q s.coordinator) in
      record {
        inv = step-Inv p encode (call env q) s.coordinator i.inv;
        sound = at.1 after.0;
        spent = omega (
          arith,
          i.spent,
          Replaces-armed key w,
          after.1 key,
          call_uses_budget p encode key env q s.coordinator i.inv
              (step-Moves p encode key (call env q) s.coordinator i.inv keeps),
        );
      }
  step-IsOnce key s t (not_sent q k w) keeps i =
      let at = Replaces-All w i.sound in
      let after = at.0 none (none-Fits q) in
      record {
        inv = i.inv;
        sound = at.1 after.0;
        spent = omega (arith, i.spent, Replaces-armed key w, after.1 key);
      }
  step-IsOnce key s t (answer_lost q k env w) keeps i =
      let at = Replaces-All w i.sound in
      let after = at.0 none (none-Fits q) in
      record {
        inv = step-Inv p encode (call env q) s.coordinator i.inv;
        sound = at.1 after.0;
        spent = omega (
          arith,
          i.spent,
          Replaces-armed key w,
          after.1 key,
          Moves-budget (step-Moves p encode key (call env q) s.coordinator i.inv keeps),
        );
      }
  step-IsOnce key s t (settles k' k o w) keeps i =
      let at = Replaces-All w i.sound in
      let after = at.0 o in
      record {
        inv = i.inv;
        sound = at.1 after.0;
        spent = omega (arith, i.spent, Replaces-armed key w, after.1 key);
      }
  step-IsOnce key s t (called env q) keeps i = record {
    inv = step-Inv p encode (call env q) s.coordinator i.inv;
    sound = i.sound;
    spent = omega (
      arith,
      i.spent,
      Moves-budget (step-Moves p encode key (call env q) s.coordinator i.inv keeps),
    );
  }
  step-IsOnce key s t (alarms env) keeps i = record {
    inv = step-Inv p encode (alarm env) s.coordinator i.inv;
    sound = i.sound;
    spent = omega (
      arith,
      i.spent,
      Moves-budget (step-Moves p encode key (alarm env) s.coordinator i.inv keeps),
    );
  }

  Reaches-IsOnce :
      (key : String) (s t : System) → Reaches p encode key s t → IsOnce key s → IsOnce key t
  Reaches-IsOnce key s t done i = i
  Reaches-IsOnce key s u (more m keeps rest) i =
      Reaches-IsOnce key _ u rest (step-IsOnce key s _ m keeps i)

  -- From a coordinator whose table is well formed and a service without requests in progress:
  -- however many requests arrive, however their steps interleave with each other, with alarms and
  -- with other clients of the coordinator, and whichever calls fail, lose their answer or end in a
  -- dead worker, the facilitator is asked at most once to settle the payment of a record key, as
  -- long as no step deletes the record of that key.
  pub settles_at_most_once :
      (key : String) (c : Coordinator) (t : System)
      → Inv p c
      → Reaches p encode key (record { coordinator = c; requests = []; settled = [] }) t
      → times key t.settled ≤ 1
  unfolding armed_all times
  settles_at_most_once key c t v w =
      let i = Reaches-IsOnce key _ t w (record {
        inv = v;
        sound = tt;
        spent = omega (arith, budget-le-one (read_row key c.table));
      }) in
      omega (arith, i.spent)
