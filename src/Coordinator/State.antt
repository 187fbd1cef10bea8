-- ===== src/Coordinator/State.antt =====
-- PaymentCoordinatorDurableObject.ts: the object's storage, the constants of mainnet-config.ts and
-- the tests that its statements share.
use x402_worker_template.Prelude.{
  ℕ, String, Bool, true, false, ◌&&◌, Option, some, nat_eq, opt_eq, or_else, str_eq,
}
use x402_worker_template.Js.Text.{hex_text}
use x402_worker_template.Coordinator.Types.{
  PaymentAttemptState, reserved, verifying, verified, computing, settling, fulfilled,
  failed_definitive, OperationKind, verify, settle, PaymentAttemptRow, Lease, Env,
}
use x402_worker_template.Coordinator.Table.{Table, update_where, changes, min_expires_at}

abbrev pub record_ttl_ms : ℕ
record_ttl_ms = 86_400_000

abbrev pub staged_response_max_bytes : ℕ
staged_response_max_bytes = 8192

abbrev pub allowed_staged_content_type : String
allowed_staged_content_type = "application/json"

-- The SQL storage and the alarm of `ctx.storage`.
pub record Coordinator : Type 0 where
  pub table : Table
  pub alarm : Option ℕ

abbrev pub state_eq : PaymentAttemptState → PaymentAttemptState → Bool
state_eq reserved reserved = true
state_eq verifying verifying = true
state_eq verified verified = true
state_eq computing computing = true
state_eq settling settling = true
state_eq fulfilled fulfilled = true
state_eq failed_definitive failed_definitive = true
state_eq PaymentAttemptState.uncertain PaymentAttemptState.uncertain = true
state_eq _ _ = false

abbrev kind_eq : Option OperationKind → OperationKind → Bool
kind_eq (some verify) verify = true
kind_eq (some settle) settle = true
kind_eq _ _ = false

-- `WHERE record_key = ? AND operation_kind = k AND operation_generation = ? AND operation_token = ?`
unfoldable pub holds : OperationKind → Lease → PaymentAttemptRow → Bool
holds k l r =
    str_eq r.record_key l.record_key
    && kind_eq r.operation_kind k
    && nat_eq r.operation_generation l.operation_generation
    && opt_eq r.operation_token l.operation_token

unfoldable pub run_update :
    (PaymentAttemptRow → Bool) → (PaymentAttemptRow → PaymentAttemptRow) → Coordinator → Coordinator
run_update p f c = record c { table = update_where p f c.table }

-- `sqlChanges(sql) === 1`.
unfoldable pub changed_one : (PaymentAttemptRow → Bool) → Coordinator → Bool
changed_one p c = nat_eq (changes p c.table) 1

pub generate_operation_token : Env → String
unfolding hex_text
generate_operation_token env = hex_text env.random_bytes

-- With no record left the alarm stays as it is.
unfoldable pub schedule_next_cleanup_alarm : Coordinator → Coordinator
schedule_next_cleanup_alarm c = record c { alarm = or_else (min_expires_at c.table) c.alarm }
