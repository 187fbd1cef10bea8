-- ===== src/Coordinator/Table.antt =====
-- The SQL that PaymentCoordinatorDurableObject.ts runs on `payment_attempts`: its selects, updates,
-- inserts and deletes as functions on the list of rows, the oldest row first.
pub mod Laws
pub mod Reads
use x402_worker_template.Prelude.{
  ℕ, suc, String, Bool, ◌||◌, Option, none, some, List, [], ◌∷◌, ◌++◌, is_some, leb, str_eq,
  if◌then◌else◌,
}
use x402_worker_template.Coordinator.Types.{PaymentAttemptRow}

abbrev pub Table : Type 0
Table = List PaymentAttemptRow

-- `SELECT * … WHERE p LIMIT 1`, the first row that the cursor yields.
unfoldable pub select_first : (PaymentAttemptRow → Bool) → Table → Option PaymentAttemptRow
select_first p [] = none
select_first p (r ∷ t) = if p r then some r else select_first p t

unfoldable pub read_row : String → Table → Option PaymentAttemptRow
unfolding select_first
read_row key = select_first λ r. str_eq r.record_key key

unfoldable pub read_row_by_payment_identifier : String → Table → Option PaymentAttemptRow
unfolding select_first
read_row_by_payment_identifier id = select_first λ r. str_eq r.payment_identifier id

unfoldable pub read_row_by_auth_commitment : String → Table → Option PaymentAttemptRow
unfolding select_first
read_row_by_auth_commitment auth = select_first λ r. str_eq r.auth_commitment auth

-- `UPDATE … SET f WHERE p`, and the `SELECT changes()` behind it.
pub update_where :
    (PaymentAttemptRow → Bool) → (PaymentAttemptRow → PaymentAttemptRow) → Table → Table
update_where p f [] = []
update_where p f (r ∷ t) = (if p r then f r else r) ∷ update_where p f t

pub changes : (PaymentAttemptRow → Bool) → Table → ℕ
changes p [] = 0
changes p (r ∷ t) = let rest = changes p t in if p r then suc rest else rest

-- `INSERT`, `none` where the primary key or a unique index is violated.
pub insert_row : PaymentAttemptRow → Table → Option Table
unfolding read_row read_row_by_payment_identifier read_row_by_auth_commitment
insert_row r t =
    if is_some (read_row r.record_key t)
      || is_some (read_row_by_payment_identifier r.payment_identifier t)
      || is_some (read_row_by_auth_commitment r.auth_commitment t)
    then none
    else some (t ++ r ∷ [])

-- `DELETE … WHERE expires_at <= cutoff`.
unfoldable pub delete_expired : ℕ → Table → Table
delete_expired cutoff [] = []
delete_expired cutoff (r ∷ t) =
    let rest = delete_expired cutoff t in if leb r.expires_at cutoff then rest else r ∷ rest

abbrev earlier : ℕ → Option ℕ → Option ℕ
earlier a none = some a
earlier a (some b) = if leb a b then some a else some b

-- `SELECT MIN(expires_at)`, `none` for the NULL of an empty table.
pub min_expires_at : Table → Option ℕ
min_expires_at [] = none
min_expires_at (r ∷ t) = earlier r.expires_at (min_expires_at t)
