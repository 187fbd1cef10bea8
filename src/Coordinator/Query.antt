-- ===== src/Coordinator/Query.antt =====
-- PaymentCoordinatorDurableObject.ts: the replay and status lookups, and the TTL cleanup.
pub mod Replays
pub mod Cleanup
pub mod Status
pub mod Tests
use x402_worker_template.Prelude.{
  ℕ, String, not, ◌||◌, Option, none, some, leb, ltb, opt_eq, str_eq, if◌then◌else◌,
}
use x402_worker_template.Js.{Value, Platform}
use x402_worker_template.Js.Text.{utf16_length}
use x402_worker_template.Receipt.{SettleResponse}
use x402_worker_template.Replay.{FulfilledReplayResult, bad, build_fulfilled_replay_response}
use x402_worker_template.Coordinator.Types.{
  fulfilled, PaymentAttemptRow, FulfilledStatusResult, PaymentStatusSnapshot, Env,
}
use x402_worker_template.Coordinator.Table.{
  read_row, read_row_by_payment_identifier, changes, delete_expired,
}
use x402_worker_template.Coordinator.State.{
  Coordinator, staged_response_max_bytes, allowed_staged_content_type, state_eq,
  schedule_next_cleanup_alarm,
}

pub get_replay : Platform → (SettleResponse → String) → String → Coordinator → FulfilledReplayResult
get_replay p encode key c = elim (read_row key c.table) [
  | none ↦ bad "Fulfilled replay is unavailable."
  | some r ↦
      if not (state_eq r.state fulfilled)
      then bad "Fulfilled replay is unavailable."
      else build_fulfilled_replay_response p encode r.cached_response_json r.cached_content_type
          r.settlement_receipt_json
]

abbrev status_result : String → Option Value → Option FulfilledStatusResult
status_result content_type none = none
status_result content_type (some v) = some (record { content_type = content_type; body = v })

-- An empty body counts as missing, and one over the size limit is left out.
abbrev status_body : Platform → Option String → Option FulfilledStatusResult
status_body p none = none
status_body p (some body) =
    if str_eq body "" || ltb staged_response_max_bytes (utf16_length body)
    then none
    else status_result allowed_staged_content_type (p.parse body)

parse_fulfilled_status_result : Platform → PaymentAttemptRow → Option FulfilledStatusResult
parse_fulfilled_status_result p r =
    if not (state_eq r.state fulfilled)
      || not (opt_eq r.cached_content_type allowed_staged_content_type)
    then none
    else status_body p r.cached_response_json

snapshot_of : Platform → PaymentAttemptRow → PaymentStatusSnapshot
snapshot_of p r = record {
  state = r.state;
  updated_at = r.updated_at;
  transaction_hash = r.transaction_hash;
  expires_at = r.expires_at;
  fulfilled_result = parse_fulfilled_status_result p r;
}

pub get_status_by_payment_identifier :
    Platform → Env → String → Coordinator → Option PaymentStatusSnapshot
get_status_by_payment_identifier p env id c = elim (read_row_by_payment_identifier id c.table) [
  | none ↦ none
  | some r ↦ if leb r.expires_at env.now then none else some (snapshot_of p r)
]

abbrev cutoff_of : Env → Option ℕ → ℕ
cutoff_of env none = env.now
cutoff_of env (some now) = now

unfoldable pub run_ttl_cleanup : Env → Option ℕ → Coordinator → Coordinator × ℕ
run_ttl_cleanup env now c = (
  record c { table = delete_expired (cutoff_of env now) c.table },
  changes (λ r. leb r.expires_at (cutoff_of env now)) c.table,
)

-- The alarm handler: clean up, and set the alarm for the next record that expires.
unfoldable pub on_alarm : Env → Coordinator → Coordinator
unfolding run_ttl_cleanup
on_alarm env c = schedule_next_cleanup_alarm (run_ttl_cleanup env none c).0
