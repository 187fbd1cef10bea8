-- ===== src/Coordinator/History/Settlement.antt =====
-- Histories of calls and alarms: terminal states, and how often a settlement is leased.
use x402_worker_template.Prelude.{
  ℕ, suc, ◌+◌, ◌≤◌, String, true, Option, none, some, List, [], ◌∷◌, ◌≡◌, refl, ap, ◌⊎◌, inl, inr,
  arith, is_some, ltb, if◌then◌else◌, str_eq, str_eq_iff, Option-cases, Bool-cases,
}
use x402_worker_template.Js.{Platform}
use x402_worker_template.Receipt.{SettleResponse}
use x402_worker_template.Coordinator.Types.{
  PaymentAttemptRow, PaymentAttemptState, fulfilled, failed_definitive, computing, settle,
  LeaseAcquireResult, Env, CoordinatorRpcRequest,
}
use x402_worker_template.Coordinator.Table.{read_row, delete_expired}
use x402_worker_template.Coordinator.Table.Reads.{read_row-delete_expired, read_row-update_where}
use x402_worker_template.Coordinator.State.{Coordinator, run_update, schedule_next_cleanup_alarm}
use x402_worker_template.Coordinator.Query.{run_ttl_cleanup, on_alarm}
use x402_worker_template.Coordinator.Verify.{grant_verify_lease}
use x402_worker_template.Coordinator.Settle.{
  has_staged_json, acquire_settle_where, acquire_settle_set, grant_settle_lease,
}
use x402_worker_template.Coordinator.Rpc.{CoordinatorRpcResponse, leased, handle_rpc}
use x402_worker_template.Coordinator.Cases.{
  AcquireVerify, acquire_verify_cases, AcquireSettle, acquire_settle_cases,
}
use x402_worker_template.Coordinator.Invariant.{Inv}
use x402_worker_template.Coordinator.Invariant.Updates.{read_row-RowInv}
use x402_worker_template.Coordinator.Transitions.{
  ◌⟶◌, verify_starts, Moves, absent, opened, stays, advances,
}
use x402_worker_template.Coordinator.Transitions.Steps.{IsCleanup, handle_rpc-Moves, read_row-key}
use x402_worker_template.Coordinator.History.{
  Event, call, alarm, step, run, step-Inv, KeepsRecord, NeverDeleted,
}

delete-Moves :
    (key : String) (cutoff : ℕ) (p : Platform) (c : Coordinator)
    → Inv p c
    → (is_some (read_row key c.table) ≡ true
        → is_some (read_row key (delete_expired cutoff c.table)) ≡ true)
    → Moves (read_row key c.table) (read_row key (delete_expired cutoff c.table))
delete-Moves key cutoff p c v keeps =
    elim (Option-cases (read_row key (delete_expired cutoff c.table))) [
      | inr (s, e) ↦ rw (e, read_row-delete_expired key cutoff c.table s v.keys e) (stays s)
      | inl e ↦ elim (Option-cases (read_row key c.table)) [
        | inl f ↦ rw (e, f) absent
        | inr (r, f) ↦ cc (keeps (rw f), e)
      ]
    ]

module _ (p : Platform) (encode : SettleResponse → String) (key : String) where
  pub step-Moves :
      (e : Event) (c : Coordinator)
      → Inv p c
      → KeepsRecord p encode key e c
      → Moves (read_row key c.table) (read_row key (step p encode e c).table)
  unfolding step on_alarm schedule_next_cleanup_alarm handle_rpc run_ttl_cleanup
  step-Moves (alarm env) c v k = delete-Moves key env.now p c v k
  step-Moves (call env (CoordinatorRpcRequest.run_ttl_cleanup now)) c v k =
      delete-Moves key _ p c v k
  step-Moves (call env q) c v k = handle_rpc-Moves p encode env q key c (λ h. h)

Moves-keeps : {o q : Option PaymentAttemptRow} → Moves o q → is_some o ≡ true → is_some q ≡ true
Moves-keeps absent h = h
Moves-keeps (opened r e) h = refl
Moves-keeps (stays r) h = refl
Moves-keeps (advances r s a) h = refl

-- Only the cleanup deletes records.
pub call-KeepsRecord :
    (p : Platform) (encode : SettleResponse → String) (key : String) (env : Env)
    (q : CoordinatorRpcRequest) (c : Coordinator)
    → ¬ IsCleanup q
    → KeepsRecord p encode key (call env q) c
unfolding step
call-KeepsRecord p encode key env q c n = Moves-keeps (handle_rpc-Moves p encode env q key c n)

abbrev IsTerminal : PaymentAttemptState → Type 0
IsTerminal s = (s ≡ fulfilled) ⊎ (s ≡ failed_definitive)

-- No edge leaves a terminal state.
IsTerminal-stuck : {s t : PaymentAttemptState} → s ⟶ t → ¬ IsTerminal s
IsTerminal-stuck verify_starts h = ground arith
IsTerminal-stuck _ h = ground arith

terminal-Moves :
    {o q : Option PaymentAttemptRow} (r : PaymentAttemptRow)
    → Moves o q
    → o ≡ some r
    → IsTerminal r.state
    → q ≡ some r
terminal-Moves r absent e h = e
terminal-Moves r (opened s _) e h = cc
terminal-Moves r (stays s) e h = e
terminal-Moves r (advances s t a) e h = absurd (IsTerminal-stuck a.0 (ground arith))

-- The calls left to lease a settlement under a key: one, until the generation reaches 2.
abbrev pub budget : Option PaymentAttemptRow → ℕ
budget none = 1
budget (some r) = if ltb r.operation_generation 2 then 1 else 0

pub Moves-budget : {o q : Option PaymentAttemptRow} → Moves o q → budget q ≤ budget o
Moves-budget absent = omega arith
Moves-budget (opened r h) = ground arith
Moves-budget (stays r) = omega arith
Moves-budget (advances r s h) = ground arith

-- A response that grants a settle lease for the key.
abbrev pub settle_grant : String → CoordinatorRpcResponse → ℕ
settle_grant key (leased (LeaseAcquireResult.acquired settle l expires)) =
    if str_eq l.record_key key then 1 else 0
settle_grant key _ = 0

pub budget-le-one : (o : Option PaymentAttemptRow) → budget o ≤ 1
budget-le-one none = omega arith
budget-le-one (some r) = ground arith

module _ (p : Platform) (encode : SettleResponse → String) (key : String) where
  event_grants : Event → Coordinator → ℕ
  event_grants (call env q) c = settle_grant key (handle_rpc p encode env q c).1
  event_grants (alarm env) c = 0

  -- How many settle leases a history grants for the key.
  pub grants : List Event → Coordinator → ℕ
  unfolding event_grants
  grants [] c = 0
  grants (e ∷ es) c = event_grants e c + grants es (step p encode e c)

module _ (p : Platform) (encode : SettleResponse → String) (key : String) where
  -- Only the request for a settle lease is answered with one.
  verify_grants_none :
      (env : Env) (k : String) (expires : Option String) (c : Coordinator)
      → settle_grant key
          (handle_rpc p encode env (CoordinatorRpcRequest.acquire_verify_lease k expires) c).1
        ≡ 0
  unfolding handle_rpc grant_verify_lease
  verify_grants_none env k expires c = elim (acquire_verify_cases env k expires c) [
    | AcquireVerify.refused reason e ↦ rw e refl
    | AcquireVerify.granted s found state e ↦ rw e (ground arith)
  ]

  settle_grant-le :
      (env : Env) (k : String) (expires : Option String) (s : PaymentAttemptRow) (c : Coordinator)
      → settle_grant key
          (leased (grant_settle_lease env k expires (suc s.operation_generation) c).1)
        ≤ (if str_eq k key then 1 else 0)
  unfolding grant_settle_lease
  settle_grant-le env k expires s c = ground arith

  -- The lease that is granted raises the generation of its record from 1 to 2.
  granted_second :
      (env : Env) (expires : Option String) (s : PaymentAttemptRow) (c : Coordinator)
      → Inv p c
      → read_row key c.table ≡ some s
      → s.state ≡ computing
      → has_staged_json s ≡ true
      → (budget (read_row key c.table) ≡ 1)
        × (budget (
              read_row key
                (grant_settle_lease env key expires (suc s.operation_generation) c).0.table)
            ≡ 0)
  unfolding grant_settle_lease run_update
  granted_second env expires s c v found state ready = (
    rw found (ground (arith, read_row-RowInv p c v key s found)),
    rw
        (
          read_row-update_where key (acquire_settle_where key)
              (acquire_settle_set env (suc s.operation_generation) expires) c.table (λ r. refl),
          found,
        )
        (ground (
          arith,
          read_row-RowInv p c v key s found,
          str_eq_iff s.record_key key,
          read_row-key key c s found,
        )),
  )

  settle_uses_budget :
      (env : Env) (k : String) (expires : Option String) (c : Coordinator)
      → Inv p c
      → let after =
          handle_rpc p encode env (CoordinatorRpcRequest.acquire_settle_lease k expires) c in
        Moves (read_row key c.table) (read_row key after.0.table)
        → settle_grant key after.1 + budget (read_row key after.0.table)
          ≤ budget (read_row key c.table)
  unfolding handle_rpc
  settle_uses_budget env k expires c v m = elim (acquire_settle_cases env k expires c) [
    | AcquireSettle.refused reason e ↦ rw e (omega arith)
    | AcquireSettle.granted s found state ready e ↦ rw e (elim (Bool-cases (str_eq k key)) [
      | inr other ↦
          omega (arith, rw other at (settle_grant-le env k expires s c), Moves-budget (rw e at m))
      | inl here ↦
          let same = (str_eq_iff k key).0 here in
          let spent = granted_second env expires s c v (cc) state ready in
          omega (
            arith,
            rw here at (settle_grant-le env k expires s c),
            spent.0,
            ap
                (λ x. budget (
                  read_row key
                    (grant_settle_lease env x expires (suc s.operation_generation) c).0.table))
                same,
            spent.1,
          )
    ])
  ]

  pub call_uses_budget :
      (env : Env) (q : CoordinatorRpcRequest) (c : Coordinator)
      → Inv p c
      → Moves (read_row key c.table) (read_row key (handle_rpc p encode env q c).0.table)
      → let after = handle_rpc p encode env q c in
        settle_grant key after.1 + budget (read_row key after.0.table)
        ≤ budget (read_row key c.table)
  unfolding handle_rpc
  call_uses_budget env (CoordinatorRpcRequest.acquire_settle_lease k expires) c v m =
      settle_uses_budget env k expires c v m
  call_uses_budget env (CoordinatorRpcRequest.acquire_verify_lease k expires) c v m =
      omega (arith, verify_grants_none env k expires c, Moves-budget m)
  call_uses_budget env _ c v m = omega (arith, Moves-budget m)

  event_uses_budget :
      (e : Event) (c : Coordinator)
      → Inv p c
      → KeepsRecord p encode key e c
      → event_grants p encode key e c + budget (read_row key (step p encode e c).table)
        ≤ budget (read_row key c.table)
  unfolding step event_grants
  event_uses_budget (call env q) c v k =
      call_uses_budget env q c v (step-Moves p encode key (call env q) c v k)
  event_uses_budget (alarm env) c v k =
      omega (arith, Moves-budget (step-Moves p encode key (alarm env) c v k))

  grants_use_budget :
      (es : List Event) (c : Coordinator)
      → Inv p c
      → NeverDeleted p encode key es c
      → grants p encode key es c ≤ budget (read_row key c.table)
  unfolding grants
  grants_use_budget [] c v n = omega arith
  grants_use_budget (e ∷ es) c v n = omega (
    arith,
    event_uses_budget e c v n.0,
    grants_use_budget es (step p encode e c) (step-Inv p encode e c v) n.1,
  )

  -- However calls and alarms interleave: as long as the record of a key is not deleted, at most one
  -- settle lease is granted for the key.
  pub grants-le-one :
      (es : List Event) (c : Coordinator)
      → Inv p c
      → NeverDeleted p encode key es c
      → grants p encode key es c ≤ 1
  grants-le-one es c v n =
      omega (arith, grants_use_budget es c v n, budget-le-one (read_row key c.table))

  -- A fulfilled or definitively failed record that is not deleted never changes again: no call and
  -- no alarm writes any of its columns.
  pub terminal_absorbs :
      (es : List Event) (c : Coordinator) (r : PaymentAttemptRow)
      → Inv p c
      → NeverDeleted p encode key es c
      → read_row key c.table ≡ some r
      → IsTerminal r.state
      → read_row key (run p encode es c).table ≡ some r
  unfolding run
  terminal_absorbs [] c r v n e h = e
  terminal_absorbs (x ∷ es) c r v n e h =
      terminal_absorbs es (step p encode x c) r (step-Inv p encode x c v) n.1
        (terminal-Moves r (step-Moves p encode key x c v n.0) e h) h
