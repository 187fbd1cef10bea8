-- ===== src/Coordinator/Transitions.antt =====
-- The state machine of a payment attempt: which edges the UPDATE statements take, and what no call
-- changes of a record.
pub mod Steps
use x402_worker_template.Prelude.{
  ℕ, ◌≤◌, String, true, Option, none, some, ◌≡◌, arith, ◌||◌, subst, sym,
}
use x402_worker_template.Js.{Platform}
use x402_worker_template.Receipt.{StoredSettlementReceipt}
use x402_worker_template.Coordinator.Types.{
  PaymentAttemptState, reserved, verifying, verified, computing, settling, fulfilled,
  failed_definitive, uncertain, PaymentAttemptRow, Lease, Env,
}
use x402_worker_template.Coordinator.State.{state_eq}
use x402_worker_template.Coordinator.Verify.{
  acquire_verify_where, acquire_verify_set, complete_verify_where, complete_verify_set,
  mark_verify_uncertain_where, mark_uncertain_set, stage_response_where, stage_response_set,
  fail_set, fail_post_verify_where,
}
use x402_worker_template.Coordinator.Settle.{
  acquire_settle_where, acquire_settle_set, complete_fulfillment_where, complete_fulfillment_set,
  settling_where,
}

infix 40 ◌⟶◌
pub data ◌⟶◌ : PaymentAttemptState → PaymentAttemptState → Type 0 where
  verify_starts : reserved ⟶ verifying
  verify_passes : verifying ⟶ verified
  verify_unclear : verifying ⟶ uncertain
  verify_fails : verifying ⟶ failed_definitive
  verify_passes_late : uncertain ⟶ verified
  response_staged : verified ⟶ computing
  response_fails : verified ⟶ failed_definitive
  computing_fails : computing ⟶ failed_definitive
  settle_starts : computing ⟶ settling
  settle_passes : settling ⟶ fulfilled
  settle_unclear : settling ⟶ uncertain
  settle_fails : settling ⟶ failed_definitive
  settle_passes_late : uncertain ⟶ fulfilled

ruleset edges = (
  verify_starts, verify_passes, verify_unclear, verify_fails, verify_passes_late, response_staged,
  response_fails, computing_fails, settle_starts, settle_passes, settle_unclear, settle_fails,
  settle_passes_late,
)

-- What names the attempt and bounds its life is written once; a generation is never taken back.
pub record SameAttempt (r s : PaymentAttemptRow) : Type 0 where
  pub key : s.record_key ≡ r.record_key
  pub identifier : s.payment_identifier ≡ r.payment_identifier
  pub commitment : s.auth_commitment ≡ r.auth_commitment
  pub terms : s.terms_fingerprint ≡ r.terms_fingerprint
  pub amount : s.amount ≡ r.amount
  pub nonce : s.authorization_nonce ≡ r.authorization_nonce
  pub created : s.created_at ≡ r.created_at
  pub expires : s.expires_at ≡ r.expires_at
  pub generation : r.operation_generation ≤ s.operation_generation

abbrev Advances : PaymentAttemptRow → PaymentAttemptRow → Type 0
Advances r s = (r.state ⟶ s.state) × SameAttempt r s

-- What one call may do to the record under a key.
pub data Moves : Option PaymentAttemptRow → Option PaymentAttemptRow → Type 0 where
  absent : Moves none none
  opened : (r : PaymentAttemptRow) → r.state ≡ reserved → Moves none (some r)
  stays : (r : PaymentAttemptRow) → Moves (some r) (some r)
  advances : (r s : PaymentAttemptRow) → Advances r s → Moves (some r) (some s)

Moves-refl : (o : Option PaymentAttemptRow) → Moves o o
Moves-refl none = absent
Moves-refl (some r) = stays r

-- `state_eq` decides equality.
state_eq_sound : (a b : PaymentAttemptState) → state_eq a b ≡ true → a ≡ b
state_eq_sound a b h = ground arith

-- The edges that the WHERE clauses allow.
to_verified :
    (s : PaymentAttemptState) → (state_eq s verifying || state_eq s uncertain) ≡ true → s ⟶ verified
to_verified verifying h = verify_passes
to_verified uncertain h = verify_passes_late
to_verified _ h = cc

to_fulfilled :
    (s : PaymentAttemptState) → (state_eq s settling || state_eq s uncertain) ≡ true → s ⟶ fulfilled
to_fulfilled settling h = settle_passes
to_fulfilled uncertain h = settle_passes_late
to_fulfilled _ h = cc

to_failed_post_verify :
    (s : PaymentAttemptState)
    → (state_eq s verified || state_eq s computing) ≡ true
    → s ⟶ failed_definitive
to_failed_post_verify verified h = response_fails
to_failed_post_verify computing h = computing_fails
to_failed_post_verify _ h = cc

from_state : (a b s : PaymentAttemptState) → state_eq s a ≡ true → a ⟶ b → s ⟶ b
from_state a b s h e = subst (λ x. x ⟶ b) (sym (state_eq_sound s a h)) e

module _ (now : ℕ) (r : PaymentAttemptRow) where
  complete_verify-Advances :
      (l : Lease) → complete_verify_where l r ≡ true → Advances r (complete_verify_set now r)
  complete_verify-Advances l h = (to_verified r.state (ground arith), ground arith)

  mark_verify_uncertain-Advances :
      (l : Lease) → mark_verify_uncertain_where l r ≡ true → Advances r (mark_uncertain_set now r)
  mark_verify_uncertain-Advances l h =
      (from_state verifying uncertain r.state (ground arith) verify_unclear, ground arith)

  stage_response-Advances :
      (key body content_type : String)
      → stage_response_where key r ≡ true
      → Advances r (stage_response_set now body content_type r)
  stage_response-Advances key body content_type h =
      (from_state verified computing r.state (ground arith) response_staged, ground arith)

  fail_verify-Advances :
      (l : Lease) (category : Option String)
      → mark_verify_uncertain_where l r ≡ true
      → Advances r (fail_set now category r)
  fail_verify-Advances l category h =
      (from_state verifying failed_definitive r.state (ground arith) verify_fails, ground arith)

  fail_post_verify-Advances :
      (l : Lease) (category : Option String)
      → fail_post_verify_where l r ≡ true
      → Advances r (fail_set now category r)
  fail_post_verify-Advances l category h =
      (to_failed_post_verify r.state (ground arith), ground arith)

  fail_settle-Advances :
      (l : Lease) (category : Option String)
      → settling_where l r ≡ true
      → Advances r (fail_set now category r)
  fail_settle-Advances l category h =
      (from_state settling failed_definitive r.state (ground arith) settle_fails, ground arith)

  mark_settle_uncertain-Advances :
      (l : Lease) → settling_where l r ≡ true → Advances r (mark_uncertain_set now r)
  mark_settle_uncertain-Advances l h =
      (from_state settling uncertain r.state (ground arith) settle_unclear, ground arith)

  complete_fulfillment-Advances :
      (p : Platform) (l : Lease) (receipt : StoredSettlementReceipt)
      → complete_fulfillment_where l r ≡ true
      → Advances r (complete_fulfillment_set p now receipt r)
  complete_fulfillment-Advances p l receipt h = (to_fulfilled r.state (ground arith), ground arith)

module _ (env : Env) (r : PaymentAttemptRow) where
  acquire_verify-Advances :
      (key : String) (generation : ℕ) (expires : Option String)
      → r.operation_generation ≤ generation
      → acquire_verify_where key r ≡ true
      → Advances r (acquire_verify_set env generation expires r)
  acquire_verify-Advances key generation expires g h =
      (from_state reserved verifying r.state (ground arith) verify_starts, ground arith)

  acquire_settle-Advances :
      (key : String) (generation : ℕ) (expires : Option String)
      → r.operation_generation ≤ generation
      → acquire_settle_where key r ≡ true
      → Advances r (acquire_settle_set env generation expires r)
  acquire_settle-Advances key generation expires g h =
      (from_state computing settling r.state (ground arith) settle_starts, ground arith)
