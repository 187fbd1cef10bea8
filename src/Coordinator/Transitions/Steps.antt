-- ===== src/Coordinator/Transitions/Steps.antt =====
-- `handleRpc`: the edges that each call takes.
use mathlib.Core.Option
use x402_worker_template.Prelude.{
  suc, ◌≤◌, String, Bool, true, Option, none, some, ◌≡◌, refl, inl, inr, arith, Bool-cases, str_eq,
  str_eq_iff, or_else,
}
use x402_worker_template.Js.{Platform, Value}
use x402_worker_template.Receipt.{SettleResponse}
use x402_worker_template.Coordinator.Types.{
  reserved, PaymentAttemptRow, PrepareAttemptInput, Lease, Env, CoordinatorRpcRequest,
}
use x402_worker_template.Coordinator.Table.{read_row}
use x402_worker_template.Coordinator.Table.Laws.{touch, select_first_holds}
use x402_worker_template.Coordinator.Table.Reads.{
  read_row-update_where, read_one, read_row-append_one,
}
use x402_worker_template.Coordinator.State.{Coordinator, run_update, schedule_next_cleanup_alarm}
use x402_worker_template.Coordinator.Prepare.{new_row, prepare_attempt}
use x402_worker_template.Coordinator.Verify.{
  grant_verify_lease, acquire_verify_lease, complete_verify, mark_verify_uncertain, store_response,
  stage_response, fail_verify_definitive, fail_post_verify_definitive, acquire_verify_where,
}
use x402_worker_template.Coordinator.Settle.{
  grant_settle_lease, acquire_settle_lease, fulfill, complete_fulfillment, mark_settle_uncertain,
  fail_settle_definitive, acquire_settle_where,
}
use x402_worker_template.Coordinator.Rpc.{handle_rpc}
use x402_worker_template.Coordinator.Cases.{
  AcquireVerify, acquire_verify_cases, AcquireSettle, acquire_settle_cases, Prepare, Prepare-cases,
  Stage, Stage-cases, Complete, Complete-cases,
}
use x402_worker_template.Coordinator.Transitions
use x402_worker_template.Coordinator.Transitions.{
  Moves, absent, opened, stays, advances, Advances, Moves-refl,
}

-- The row that is read under a key carries the key.
pub read_row-key :
    (key : String) (c : Coordinator) (r : PaymentAttemptRow)
    → read_row key c.table ≡ some r
    → r.record_key ≡ key
unfolding read_row
read_row-key key c r e = (str_eq_iff r.record_key key).0 (select_first_holds _ c.table r e)

module _ (key : String) (c : Coordinator) where
  abbrev MovesTo : Coordinator → Type 0
  MovesTo d = Moves (read_row key c.table) (read_row key d.table)

  run_update-Moves :
      (w : PaymentAttemptRow → Bool) (f : PaymentAttemptRow → PaymentAttemptRow)
      → ((r : PaymentAttemptRow) → (f r).record_key ≡ r.record_key)
      → ((r : PaymentAttemptRow) → read_row key c.table ≡ some r → w r ≡ true → Advances r (f r))
      → MovesTo (run_update w f c)
  unfolding run_update
  run_update-Moves w f k h =
      rw (read_row-update_where key w f c.table k) (go (read_row key c.table) refl)
    where
      go :
          (o : Option PaymentAttemptRow)
          → read_row key c.table ≡ o
          → Moves o (Option.map (touch w f) o)
      go none e = absent
      go (some r) e = elim (Bool-cases (w r)) [
        | inl t ↦ rw t (advances r (f r) (h r e t))
        | inr t ↦ rw t (stays r)
      ]

  -- A row that a WHERE on another key's row passes is that row.
  same_row :
      (k : String) (r s : PaymentAttemptRow)
      → read_row key c.table ≡ some r
      → read_row k c.table ≡ some s
      → str_eq r.record_key k ≡ true
      → r ≡ s
  same_row k r s e f h = cc (read_row-key key c r e, (str_eq_iff _ _).0 h)

  no_sooner :
      (k : String) (r s : PaymentAttemptRow)
      → read_row key c.table ≡ some r
      → read_row k c.table ≡ some s
      → str_eq r.record_key k ≡ true
      → r.operation_generation ≤ suc s.operation_generation
  no_sooner k r s e f h = rw (same_row k r s e f h) (omega arith)

  acquire_verify_lease-Moves :
      (env : Env) (k : String) (expires : Option String)
      → MovesTo (acquire_verify_lease env k expires c).0
  unfolding grant_verify_lease
  acquire_verify_lease-Moves env k expires = elim (acquire_verify_cases env k expires c) [
    | AcquireVerify.refused reason e ↦ rw e (Moves-refl (read_row key c.table))
    | AcquireVerify.granted s found state e ↦ rw e (
        run_update-Moves (acquire_verify_where k) _ (λ r. refl)
          (λ r at h.
            Transitions.acquire_verify-Advances env r k _ expires
              (no_sooner k r s at found (ground arith)) h))
  ]

  acquire_settle_lease-Moves :
      (env : Env) (k : String) (expires : Option String)
      → MovesTo (acquire_settle_lease env k expires c).0
  unfolding grant_settle_lease
  acquire_settle_lease-Moves env k expires = elim (acquire_settle_cases env k expires c) [
    | AcquireSettle.refused reason e ↦ rw e (Moves-refl (read_row key c.table))
    | AcquireSettle.granted s found state ready e ↦ rw e (
        run_update-Moves (acquire_settle_where k) _ (λ r. refl)
          (λ r at h.
            Transitions.acquire_settle-Advances env r k _ expires
              (no_sooner k r s at found (ground arith)) h))
  ]

  stage_response-Moves :
      (p : Platform) (env : Env) (k body content_type : String)
      → MovesTo (stage_response p env k body content_type c).0
  unfolding store_response
  stage_response-Moves p env k body content_type = elim (Stage-cases p env k body content_type c) [
    | Stage.refused reason e ↦ rw e (Moves-refl (read_row key c.table))
    | Stage.stored json small valid e ↦ rw e (
        run_update-Moves _ _ (λ r. refl)
          (λ r at h. Transitions.stage_response-Advances env.now r k body content_type h))
  ]

  complete_fulfillment-Moves :
      (p : Platform) (env : Env) (l : Lease) (value : Value)
      → MovesTo (complete_fulfillment p env l value c).0
  unfolding fulfill
  complete_fulfillment-Moves p env l value = elim (Complete-cases p env l value c) [
    | Complete.refused reason e ↦ rw e (Moves-refl (read_row key c.table))
    | Complete.fulfills receipt e f ↦ rw f (
        run_update-Moves _ _ (λ r. refl)
          (λ r at h. Transitions.complete_fulfillment-Advances env.now r p l receipt h))
  ]

  -- An attempt that is inserted is seen under its own key alone.
  prepare_attempt-Moves :
      (p : Platform) (env : Env) (i : PrepareAttemptInput) → MovesTo (prepare_attempt p env i c).0
  unfolding schedule_next_cleanup_alarm
  prepare_attempt-Moves p env i = elim (Prepare-cases p env i c) [
    | Prepare.found answer e ↦ rw e (Moves-refl (read_row key c.table))
    | Prepare.inserted a b d e ↦
        rw (e, read_row-append_one key c.table (new_row p env i))
          (seen (read_row key c.table) (new_row p env i) (unfold new_row in refl))
  ]
    where
      seen :
          (o : Option PaymentAttemptRow) (r : PaymentAttemptRow)
          → r.state ≡ reserved
          → Moves o (or_else o (read_one key r))
      seen (some s) r h = stays s
      seen none r h = elim (Bool-cases (str_eq r.record_key key)) [
        | inl e ↦ rw e (opened r h)
        | inr e ↦ rw e absent
      ]

abbrev pub IsCleanup : CoordinatorRpcRequest → Type 0
IsCleanup (CoordinatorRpcRequest.run_ttl_cleanup now) = Unit
IsCleanup q = ⊥

-- Any request but the cleanup moves the record under any key by at most one edge of the diagram.
-- Its identity, its amount and its lifetime stay, and its generation does not fall.
pub handle_rpc-Moves :
    (p : Platform) (encode : SettleResponse → String) (env : Env) (q : CoordinatorRpcRequest)
    (key : String) (c : Coordinator)
    → ¬ IsCleanup q
    → Moves (read_row key c.table) (read_row key (handle_rpc p encode env q c).0.table)
unfolding handle_rpc complete_verify mark_verify_uncertain fail_verify_definitive
    fail_post_verify_definitive mark_settle_uncertain fail_settle_definitive
handle_rpc-Moves p encode env (CoordinatorRpcRequest.prepare_attempt i) key c n =
    prepare_attempt-Moves key c p env i
handle_rpc-Moves p encode env (CoordinatorRpcRequest.acquire_verify_lease k expires) key c n =
    acquire_verify_lease-Moves key c env k expires
handle_rpc-Moves p encode env (CoordinatorRpcRequest.complete_verify l) key c n =
    run_update-Moves key c _ _ (λ r. refl)
      (λ r at h. Transitions.complete_verify-Advances env.now r l h)
handle_rpc-Moves p encode env (CoordinatorRpcRequest.mark_verify_uncertain l) key c n =
    run_update-Moves key c _ _ (λ r. refl)
      (λ r at h. Transitions.mark_verify_uncertain-Advances env.now r l h)
handle_rpc-Moves p encode env (CoordinatorRpcRequest.stage_response k body content_type) key c n =
    stage_response-Moves key c p env k body content_type
handle_rpc-Moves p encode env (CoordinatorRpcRequest.acquire_settle_lease k expires) key c n =
    acquire_settle_lease-Moves key c env k expires
handle_rpc-Moves p encode env (CoordinatorRpcRequest.complete_fulfillment l value) key c n =
    complete_fulfillment-Moves key c p env l value
handle_rpc-Moves p encode env (CoordinatorRpcRequest.mark_settle_uncertain l) key c n =
    run_update-Moves key c _ _ (λ r. refl)
      (λ r at h. Transitions.mark_settle_uncertain-Advances env.now r l h)
handle_rpc-Moves p encode env (CoordinatorRpcRequest.fail_verify_definitive l category) key c n =
    run_update-Moves key c _ _ (λ r. refl)
      (λ r at h. Transitions.fail_verify-Advances env.now r l category h)
handle_rpc-Moves p encode env (CoordinatorRpcRequest.fail_post_verify_definitive l category) key c
      n =
    run_update-Moves key c _ _ (λ r. refl)
      (λ r at h. Transitions.fail_post_verify-Advances env.now r l category h)
handle_rpc-Moves p encode env (CoordinatorRpcRequest.fail_settle_definitive l category) key c n =
    run_update-Moves key c _ _ (λ r. refl)
      (λ r at h. Transitions.fail_settle-Advances env.now r l category h)
handle_rpc-Moves p encode env (CoordinatorRpcRequest.get_replay k) key c n =
    Moves-refl (read_row key c.table)
handle_rpc-Moves p encode env (CoordinatorRpcRequest.get_status_by_payment_identifier id) key c n =
    Moves-refl (read_row key c.table)
handle_rpc-Moves p encode env (CoordinatorRpcRequest.run_ttl_cleanup now) key c n = absurd (n tt)
handle_rpc-Moves p encode env CoordinatorRpcRequest.unknown_method key c n =
    Moves-refl (read_row key c.table)
