-- ===== src/Coordinator/Table/Laws.antt =====
-- What the statements keep: predicates on every row, distinct keys, and the row of a key.
use mathlib.Core.Option
use x402_worker_template.Prelude.{
  ℕ, String, Bool, true, Option, none, some, [], ◌∷◌, ◌++◌, map, ◌≡◌, refl, sym, subst, inl, inr,
  arith, Bool-cases, str_eq, str_eq_iff, if◌then◌else◌, All, NotIn, Distinct,
}
use x402_worker_template.Coordinator.Types.{PaymentAttemptRow}
use x402_worker_template.Coordinator.Table.{
  Table, select_first, read_row, read_row_by_payment_identifier, read_row_by_auth_commitment,
  update_where, changes, insert_row, delete_expired,
}

-- What an update makes of one row.
abbrev pub touch :
    (PaymentAttemptRow → Bool)
    → (PaymentAttemptRow → PaymentAttemptRow)
    → PaymentAttemptRow
    → PaymentAttemptRow
touch p f r = if p r then f r else r

module _ (P : PaymentAttemptRow → Type 0) where
  pub All-update_where :
      (p : PaymentAttemptRow → Bool) (f : PaymentAttemptRow → PaymentAttemptRow) (t : Table)
      → ((r : PaymentAttemptRow) → p r ≡ true → P r → P (f r))
      → All P t
      → All P (update_where p f t)
  unfolding update_where
  All-update_where p f [] h a = tt
  All-update_where p f (r ∷ t) h a = ground (arith, h r, All-update_where p f t h a.1)

  pub All-delete_expired : (cutoff : ℕ) (t : Table) → All P t → All P (delete_expired cutoff t)
  unfolding delete_expired
  All-delete_expired cutoff [] a = tt
  All-delete_expired cutoff (r ∷ t) a = ground (arith, All-delete_expired cutoff t a.1)

  pub All-append_one : (t : Table) (r : PaymentAttemptRow) → All P t → P r → All P (t ++ r ∷ [])
  All-append_one [] r a h = (h, tt)
  All-append_one (s ∷ t) r a h = (a.0, All-append_one t r a.1 h)

  pub All-select_first :
      (p : PaymentAttemptRow → Bool) (t : Table) (r : PaymentAttemptRow)
      → All P t
      → select_first p t ≡ some r
      → P r
  unfolding select_first
  All-select_first p [] r a h = cc
  All-select_first p (s ∷ t) r a h = elim (Bool-cases (p s)) [
    | inl e ↦ subst P (ground arith) a.0
    | inr e ↦ All-select_first p t r a.1 (ground arith)
  ]

-- An update keeps a predicate that it keeps on the rows with a second one.
pub All-update_where_and :
    (P Q : PaymentAttemptRow → Type 0) (p : PaymentAttemptRow → Bool)
    (f : PaymentAttemptRow → PaymentAttemptRow) (t : Table)
    → ((r : PaymentAttemptRow) → p r ≡ true → P r → Q r → P (f r))
    → All P t
    → All Q t
    → All P (update_where p f t)
unfolding update_where
All-update_where_and P Q p f [] h a b = tt
All-update_where_and P Q p f (r ∷ t) h a b =
    ground (arith, h r, All-update_where_and P Q p f t h a.1 b.1)

-- The row that a select finds passes its test.
pub select_first_holds :
    (p : PaymentAttemptRow → Bool) (t : Table) (r : PaymentAttemptRow)
    → select_first p t ≡ some r
    → p r ≡ true
unfolding select_first
select_first_holds p [] r h = cc
select_first_holds p (s ∷ t) r h = ground (arith, select_first_holds p t r)

-- Where a select finds nothing by a key column, no row has the key.
module _ (g : PaymentAttemptRow → String) where
  pub select_first-none :
      (k : String) (t : Table) → select_first (λ r. str_eq (g r) k) t ≡ none → NotIn k (map g t)
  unfolding select_first
  select_first-none k [] h = tt
  select_first-none k (r ∷ t) h = ground (arith, str_eq_iff (g r) k, select_first-none k t)

  pub NotIn-All : (k : String) (t : Table) → NotIn k (map g t) → All (λ r. ¬ (g r ≡ k)) t
  NotIn-All k [] n = tt
  NotIn-All k (r ∷ t) n = (n.0, NotIn-All k t n.1)

  pub map-update_where :
      (p : PaymentAttemptRow → Bool) (f : PaymentAttemptRow → PaymentAttemptRow) (t : Table)
      → ((r : PaymentAttemptRow) → g (f r) ≡ g r)
      → map g (update_where p f t) ≡ map g t
  unfolding update_where
  map-update_where p f [] h = refl
  map-update_where p f (r ∷ t) h = ground (arith, h r, map-update_where p f t h)

  NotIn-append_one :
      (k : String) (t : Table) (r : PaymentAttemptRow)
      → NotIn k (map g t)
      → ¬ (g r ≡ k)
      → NotIn k (map g (t ++ r ∷ []))
  NotIn-append_one k [] r a h = (h, tt)
  NotIn-append_one k (s ∷ t) r a h = (a.0, NotIn-append_one k t r a.1 h)

  pub Distinct-append_one :
      (t : Table) (r : PaymentAttemptRow)
      → Distinct (map g t)
      → NotIn (g r) (map g t)
      → Distinct (map g (t ++ r ∷ []))
  Distinct-append_one [] r d n = (tt, tt)
  Distinct-append_one (s ∷ t) r d n =
      (NotIn-append_one (g s) t r d.0 (λ e. n.0 (sym e)), Distinct-append_one t r d.1 n.1)

  pub NotIn-delete_expired :
      (cutoff : ℕ) (k : String) (t : Table)
      → NotIn k (map g t)
      → NotIn k (map g (delete_expired cutoff t))
  unfolding delete_expired
  NotIn-delete_expired cutoff k [] n = tt
  NotIn-delete_expired cutoff k (r ∷ t) n = ground (arith, NotIn-delete_expired cutoff k t n.1)

  pub Distinct-delete_expired :
      (cutoff : ℕ) (t : Table) → Distinct (map g t) → Distinct (map g (delete_expired cutoff t))
  unfolding delete_expired
  Distinct-delete_expired cutoff [] d = tt
  Distinct-delete_expired cutoff (r ∷ t) d =
      ground (arith, NotIn-delete_expired cutoff (g r) t d.0, Distinct-delete_expired cutoff t d.1)

-- A statement whose WHERE pins the record key touches no row where the key is absent.
changes_absent :
    (p : PaymentAttemptRow → Bool) (k : String) (t : Table)
    → ((r : PaymentAttemptRow) → p r ≡ true → r.record_key ≡ k)
    → NotIn k (map (λ r. r.record_key) t)
    → changes p t ≡ 0
unfolding changes
changes_absent p k [] h n = refl
changes_absent p k (r ∷ t) h n = ground (arith, h r, changes_absent p k t h n.1)

abbrev row_changes : (PaymentAttemptRow → Bool) → Option PaymentAttemptRow → ℕ
row_changes p none = 0
row_changes p (some r) = if p r then 1 else 0

-- With distinct record keys it changes one row exactly where the row of the key passes the test.
pub changes-read_row :
    (p : PaymentAttemptRow → Bool) (k : String) (t : Table)
    → ((r : PaymentAttemptRow) → p r ≡ true → r.record_key ≡ k)
    → Distinct (map (λ r. r.record_key) t)
    → changes p t ≡ row_changes p (read_row k t)
unfolding changes read_row
changes-read_row p k [] h d = refl
changes-read_row p k (r ∷ t) h d = elim (Bool-cases (str_eq r.record_key k)) [
  | inl e ↦
      let away =
        subst (λ q. NotIn q (map (λ s. s.record_key) t)) ((str_eq_iff r.record_key k).0 e) d.0 in
      ground (arith, e, changes_absent p k t h away)
  | inr e ↦ ground (arith, e, str_eq_iff r.record_key k, h r, changes-read_row p k t h d.1)
]

-- Reading by a key that the update keeps gives the touched row.
pub select_first-update_where :
    (q p : PaymentAttemptRow → Bool) (f : PaymentAttemptRow → PaymentAttemptRow) (t : Table)
    → ((r : PaymentAttemptRow) → q (f r) ≡ q r)
    → select_first q (update_where p f t) ≡ Option.map (touch p f) (select_first q t)
unfolding select_first update_where
select_first-update_where q p f [] h = refl
select_first-update_where q p f (r ∷ t) h = ground (arith, h r, select_first-update_where q p f t h)

-- Distinct keys leave no other row under the key of the row that was read.
absent_unread :
    (k : String) (r : PaymentAttemptRow) (t : Table)
    → NotIn k (map (λ s. s.record_key) t)
    → All (λ s. s.record_key ≡ k → s ≡ r) t
absent_unread k r [] n = tt
absent_unread k r (s ∷ t) n = (λ e. absurd (n.0 e), absent_unread k r t n.1)

pub read_row_unique :
    (k : String) (r : PaymentAttemptRow) (t : Table)
    → Distinct (map (λ s. s.record_key) t)
    → read_row k t ≡ some r
    → All (λ s. s.record_key ≡ k → s ≡ r) t
unfolding read_row
read_row_unique k r [] d h = tt
read_row_unique k r (s ∷ t) d h = elim (Bool-cases (str_eq s.record_key k)) [
  | inl e ↦ (
    λ same. ground arith,
    absent_unread k r t
        (subst (λ q. NotIn q (map (λ s. s.record_key) t)) ((str_eq_iff s.record_key k).0 e) d.0),
  )
  | inr e ↦
      (λ same. cc (e, (str_eq_iff s.record_key k).1 same), read_row_unique k r t d.1 (rw e at h))
]

-- An INSERT whose three unique keys are all absent goes through, at the end of the table.
pub insert_row_fresh :
    (r : PaymentAttemptRow) (t : Table)
    → read_row r.record_key t ≡ none
    → read_row_by_payment_identifier r.payment_identifier t ≡ none
    → read_row_by_auth_commitment r.auth_commitment t ≡ none
    → insert_row r t ≡ some (t ++ r ∷ [])
unfolding insert_row
insert_row_fresh r t a b d = rw (a, b, d)
