-- ===== src/Coordinator/Query/Cleanup.antt =====
-- `runTtlCleanup`: which records it deletes.
use x402_worker_template.Prelude.{
  ℕ, ◌<◌, String, Option, some, [], ◌∷◌, ◌≡◌, inl, inr, arith, str_eq, Bool-cases,
}
use x402_worker_template.Js.{Platform}
use x402_worker_template.Coordinator.Types.{PaymentAttemptRow, Env}
use x402_worker_template.Coordinator.Table.{Table, read_row, delete_expired}
use x402_worker_template.Coordinator.Table.Reads.{read_row-delete_expired}
use x402_worker_template.Coordinator.State.{Coordinator}
use x402_worker_template.Coordinator.Query.{cutoff_of, run_ttl_cleanup}
use x402_worker_template.Coordinator.Invariant.{Inv}

read_row-kept :
    (key : String) (cutoff : ℕ) (t : Table) (r : PaymentAttemptRow)
    → read_row key t ≡ some r
    → cutoff < r.expires_at
    → read_row key (delete_expired cutoff t) ≡ some r
unfolding read_row delete_expired
read_row-kept key cutoff [] r h e = h
read_row-kept key cutoff (s ∷ t) r h e = elim (Bool-cases (str_eq s.record_key key)) [
  | inl f ↦ ground (arith, f)
  | inr f ↦ ground (arith, f, read_row-kept key cutoff t r)
]

read_row-unexpired :
    (key : String) (cutoff : ℕ) (t : Table) (r : PaymentAttemptRow)
    → read_row key (delete_expired cutoff t) ≡ some r
    → cutoff < r.expires_at
unfolding read_row delete_expired
read_row-unexpired key cutoff [] r h = ground arith
read_row-unexpired key cutoff (s ∷ t) r h = ground (arith, read_row-unexpired key cutoff t r)

-- In a well-formed table, a lookup by key after the cleanup finds a record if and only if it found
-- that record before and the record expires after the cutoff: the time that the request names, or
-- the clock's if it names none.
pub read_row-run_ttl_cleanup :
    (p : Platform) (env : Env) (now : Option ℕ) (key : String) (c : Coordinator)
    (r : PaymentAttemptRow)
    → Inv p c
    → (read_row key (run_ttl_cleanup env now c).0.table ≡ some r
        → (read_row key c.table ≡ some r) × (cutoff_of env now < r.expires_at))
      × ((read_row key c.table ≡ some r) × (cutoff_of env now < r.expires_at)
          → read_row key (run_ttl_cleanup env now c).0.table ≡ some r)
unfolding run_ttl_cleanup
read_row-run_ttl_cleanup p env now key c r v = (
  λ h. (
    read_row-delete_expired key (cutoff_of env now) c.table r v.keys h,
    read_row-unexpired key (cutoff_of env now) c.table r h,
  ),
  λ h. read_row-kept key (cutoff_of env now) c.table r h.0 h.1,
)
