-- ===== src/Status/Laws.antt =====
-- pay-status.ts: what a status answer shows of the record.
use x402_worker_template.Prelude.{
  String, true, false, Option, none, some, ◌≡◌, ◌≢◌, ◌↔◌, refl, ap, sym, arith, str_eq,
}
use x402_worker_template.Js.{Platform}
use x402_worker_template.Sdk.{Sdk}
use x402_worker_template.Identifier.{validate_payment_identifier_for_lookup}
use x402_worker_template.Coordinator.Types.{
  PaymentAttemptState, fulfilled, failed_definitive, PaymentAttemptRow, PaymentStatusSnapshot, Env,
}
use x402_worker_template.Coordinator.State.{Coordinator}
use x402_worker_template.Coordinator.Query.{get_status_by_payment_identifier}
use x402_worker_template.Coordinator.Query.Status.{
  live_row, IsResultOf, IsSnapshotOf, Snapshots, get_status-Snapshots,
}
use x402_worker_template.Coordinator.Invariant.{Inv}
use x402_worker_template.Status.{
  attempt, StatusAnswer, not_seen_answer, build_state_answer, build_status_body, pay_status_handler,
  pay_status,
}

-- What a status answer shows of a record.
pub record IsPublicViewOf (p : Platform) (r : PaymentAttemptRow) (a : StatusAnswer) : Type 0 where
  pub status : a.status ≡ 200
  pub state : a.body.state ≡ attempt r.state
  pub updated : a.body.updated_at ≡ some r.updated_at
  no_retry : a.body.can_retry ≢ some true
  fresh_terms : (a.body.needs_fresh_terms ≡ some true) ↔ (r.state ≡ failed_definitive)
  pub result : IsResultOf p r a.body.result

-- The answer for the record that the identifier shows, if it shows one.
abbrev pub Shows : Platform → Option PaymentAttemptRow → Option StatusAnswer → Type 0
Shows p none o = o ≡ some not_seen_answer
Shows p (some r) o = (a : StatusAnswer) × (o ≡ some a) × IsPublicViewOf p r a

module _ (p : Platform) (r : PaymentAttemptRow) where
  state-IsPublicViewOf :
      (s : PaymentStatusSnapshot)
      → IsSnapshotOf p r s
      → (t : PaymentAttemptState) → t ≡ r.state
      → IsPublicViewOf p r (build_state_answer t s)
  unfolding build_state_answer
  state-IsPublicViewOf s w fulfilled e = record {
    status = refl;
    state = ap attempt e;
    updated = ap some w.updated;
    no_retry = λ h. ground arith;
    fresh_terms = (λ h. ground arith, λ h. ground arith);
    result = w.result;
  }
  state-IsPublicViewOf s w failed_definitive e = record {
    status = refl;
    state = ap attempt e;
    updated = ap some w.updated;
    no_retry = λ h. ground arith;
    fresh_terms = (λ h. sym e, λ h. refl);
    result = λ h. ground arith;
  }
  state-IsPublicViewOf s w t e = record {
    status = refl;
    state = ap attempt e;
    updated = ap some w.updated;
    no_retry = λ h. ground arith;
    fresh_terms = (λ h. ground arith, λ h. ground arith);
    result = λ h. ground arith;
  }

Snapshots-Shows :
    (p : Platform) (o : Option PaymentAttemptRow) (q : Option PaymentStatusSnapshot)
    → Snapshots p o q
    → Shows p o (some (build_status_body q))
unfolding build_status_body
Snapshots-Shows p none q h = rw h refl
Snapshots-Shows p (some r) q (s, e, w) =
    rw e (build_state_answer s.state s, refl, state-IsPublicViewOf p r s w s.state w.state)

-- For an identifier of the valid form, over a well-formed table: where no unexpired record has the
-- identifier, the route answers 404 and "not_seen"; where one has, it answers 200 with the state
-- and the time of that record, asks for fresh terms exactly if it failed for good, never says that
-- the buyer can retry, and shows the parsed staged body exactly if the record is fulfilled.
pub pay_status-Shows :
    (x : Sdk) (p : Platform) (env : Env) (id : String) (c : Coordinator)
    → Inv p c
    → str_eq id "" ≡ false
    → validate_payment_identifier_for_lookup x id ≡ true
    → Shows p (live_row id env.now c) (pay_status x p env id c)
unfolding pay_status pay_status_handler
pay_status-Shows x p env id c v filled valid =
    rw (filled, valid)
      (Snapshots-Shows p (live_row id env.now c) (get_status_by_payment_identifier p env id c)
        (get_status-Snapshots p env id c v))
