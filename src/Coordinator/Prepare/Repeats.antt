-- ===== src/Coordinator/Prepare/Repeats.antt =====
-- `prepareAttempt`, called with the same input again.
use x402_worker_template.Prelude.{String, none, some, ◌≡◌, ◌∷◌, ◌++◌, [], refl, str_eq_refl}
use x402_worker_template.Js.{Platform}
use x402_worker_template.Keys.{build_record_key}
use x402_worker_template.Coordinator.Types.{reserved, PrepareAttemptInput, created, wait, Env}
use x402_worker_template.Coordinator.Table.{
  Table, read_row, read_row_by_payment_identifier, read_row_by_auth_commitment,
}
use x402_worker_template.Coordinator.Table.Laws.{insert_row_fresh}
use x402_worker_template.Coordinator.Table.Reads.{read_row-append_one}
use x402_worker_template.Coordinator.State.{Coordinator, schedule_next_cleanup_alarm}
use x402_worker_template.Coordinator.Prepare.{
  is_same_attempt_identity, classify_state, classify_existing_prepare_row, new_row, insert_attempt,
  prepare_fresh, prepare_attempt,
}

-- No record has the key, the identifier or the authorization of the input.
pub record IsFresh (p : Platform) (i : PrepareAttemptInput) (t : Table) : Type 0 where
  pub key : read_row (build_record_key p i.payment_identifier i.terms_fingerprint) t ≡ none
  pub identifier : read_row_by_payment_identifier i.payment_identifier t ≡ none
  pub commitment : read_row_by_auth_commitment i.auth_commitment t ≡ none

module _ (p : Platform) (env : Env) (i : PrepareAttemptInput) where
  abbrev key_of : String
  key_of = build_record_key p i.payment_identifier i.terms_fingerprint

  abbrev reserved_in : Coordinator → Coordinator
  reserved_in c = schedule_next_cleanup_alarm (record c { table = c.table ++ new_row p env i ∷ [] })

  prepare_attempt-fresh :
      (c : Coordinator)
      → IsFresh p i c.table
      → prepare_attempt p env i c ≡ (reserved_in c, created key_of reserved)
  unfolding prepare_attempt prepare_fresh insert_attempt new_row
  prepare_attempt-fresh c f =
      rw
        (
          f.key,
          prepare_attempt,
          f.identifier,
          prepare_fresh,
          f.commitment,
          insert_attempt,
          insert_row_fresh (new_row p env i) c.table f.key f.identifier f.commitment,
        )
        refl

  classify-new_row : classify_existing_prepare_row (new_row p env i) i ≡ wait key_of reserved
  unfolding classify_existing_prepare_row is_same_attempt_identity classify_state new_row
  classify-new_row =
      rw
        (
          str_eq_refl i.payment_identifier,
          str_eq_refl i.terms_fingerprint,
          str_eq_refl i.auth_commitment,
          str_eq_refl i.resource_identity_hash,
          str_eq_refl i.authorization_nonce,
          str_eq_refl i.network,
          str_eq_refl i.asset,
          str_eq_refl i.amount,
        )
        refl

  found-new_row :
      (c : Coordinator)
      → IsFresh p i c.table
      → read_row key_of (reserved_in c).table ≡ some (new_row p env i)
  unfolding schedule_next_cleanup_alarm new_row
  found-new_row c f =
      rw (read_row-append_one key_of c.table (new_row p env i), f.key, str_eq_refl key_of) refl

  prepare_attempt-again :
      (again : Env) (c : Coordinator)
      → IsFresh p i c.table
      → prepare_attempt p again i (reserved_in c) ≡ (reserved_in c, wait key_of reserved)
  unfolding prepare_attempt
  prepare_attempt-again again c f = rw (found-new_row c f, prepare_attempt, classify-new_row) refl

  -- Where no record has the key, the identifier or the authorization of a request, the request
  -- reserves a record and is told so; the same request sent next, whatever the clock then says,
  -- changes nothing and is told to wait.
  pub prepare_attempt-repeats :
      (again : Env) (c : Coordinator)
      → IsFresh p i c.table
      → ((prepare_attempt p env i c).1 ≡ created key_of reserved)
        × (prepare_attempt p again i (prepare_attempt p env i c).0
            ≡ ((prepare_attempt p env i c).0, wait key_of reserved))
  prepare_attempt-repeats again c f =
      rw (prepare_attempt-fresh c f) (refl, prepare_attempt-again again c f)
