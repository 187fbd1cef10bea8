-- ===== src/Coordinator/Table/Reads.antt =====
-- What a lookup by key sees after a statement.
use mathlib.Core.Option
use x402_worker_template.Prelude.{
  ℕ, String, Bool, Option, none, some, [], ◌∷◌, ◌++◌, map, ◌≡◌, refl, subst, inl, inr, arith,
  str_eq, str_eq_iff, Bool-cases, if◌then◌else◌, Distinct, NotIn, or_else,
}
use x402_worker_template.Coordinator.Types.{PaymentAttemptRow}
use x402_worker_template.Coordinator.Table.{Table, read_row, update_where, delete_expired}
use x402_worker_template.Coordinator.Table.Laws.{
  touch, select_first-update_where, NotIn-delete_expired,
}

-- An update that keeps the key is seen as the touched row.
pub read_row-update_where :
    (key : String) (p : PaymentAttemptRow → Bool) (f : PaymentAttemptRow → PaymentAttemptRow)
    (t : Table)
    → ((r : PaymentAttemptRow) → (f r).record_key ≡ r.record_key)
    → read_row key (update_where p f t) ≡ Option.map (touch p f) (read_row key t)
unfolding read_row
read_row-update_where key p f t h = select_first-update_where _ p f t (λ r. rw (h r))

abbrev pub read_one : String → PaymentAttemptRow → Option PaymentAttemptRow
read_one key r = if str_eq r.record_key key then some r else none

-- A row at the end is seen where no earlier row has its key.
pub read_row-append_one :
    (key : String) (t : Table) (r : PaymentAttemptRow)
    → read_row key (t ++ r ∷ []) ≡ or_else (read_row key t) (read_one key r)
unfolding read_row
read_row-append_one key [] r = refl
read_row-append_one key (s ∷ t) r = ground (arith, read_row-append_one key t r)

read_row_absent :
    (key : String) (t : Table) → NotIn key (map (λ s. s.record_key) t) → read_row key t ≡ none
unfolding read_row
read_row_absent key [] n = refl
read_row_absent key (r ∷ t) n = ground (arith, str_eq_iff r.record_key key, read_row_absent key t)

-- A row that is still found after the cleanup is the row that was found before.
pub read_row-delete_expired :
    (key : String) (cutoff : ℕ) (t : Table) (s : PaymentAttemptRow)
    → Distinct (map (λ r. r.record_key) t)
    → read_row key (delete_expired cutoff t) ≡ some s
    → read_row key t ≡ some s
unfolding read_row delete_expired
read_row-delete_expired key cutoff [] s d h = h
read_row-delete_expired key cutoff (r ∷ t) s d h = elim (Bool-cases (str_eq r.record_key key)) [
  | inl e ↦
      let away =
        subst (λ q. NotIn q (map (λ x. x.record_key) t)) ((str_eq_iff r.record_key key).0 e) d.0 in
      ground (
        arith,
        e,
        read_row_absent key (delete_expired cutoff t)
            (NotIn-delete_expired (λ x. x.record_key) cutoff key t away),
      )
  | inr e ↦ ground (arith, e, read_row-delete_expired key cutoff t s d.1)
]
