-- ===== src/Postgres/Projections/Batch.antt =====
-- From ResolveBatch to the store.
use deterministic_identity_r.Prelude.{
  ◌≡◌, refl, sym, ap, subst, ◌∙◌, true, false, none, some, List, ok,
}
use deterministic_identity_r.Prelude.Int.{pos}
use deterministic_identity_r.Prelude.Text.{Text}
use deterministic_identity_r.Prelude.Text.Case.{Unicode}
use deterministic_identity_r.Prelude.Dict.{lookup}
use deterministic_identity_r.Prelude.Sort.{Sorter}
use deterministic_identity_r.Reconcile.Model.{PhysicalEvent, IdentityProjection, BatchResult}
use deterministic_identity_r.Reconcile.Policy.{Policy}
use deterministic_identity_r.Reconcile.Platform.{Platform}
use deterministic_identity_r.Reconcile.Resolve.{resolve_batch}
use deterministic_identity_r.Reconcile.Resolve.Returned.{
  IsNonneg, resolve_batch-IsNonneg, resolve_batch-subject,
}
use deterministic_identity_r.Postgres.Tables.{Server, answered, Database}
use deterministic_identity_r.Postgres.Projections.{
  compare_and_set_projection, load_projection, projection_has_nul,
}
use deterministic_identity_r.Postgres.Projections.CompareAndSet.{
  set_row, CanGrow, compare_and_set_projection-answered,
}
use deterministic_identity_r.Postgres.Projections.Progress.{reads_back, as_stored}

module _ ⦃v : Server⦄ where
  set_first :
      (q : IdentityProjection) (db : Database)
      → IsNonneg q.freshness
      → projection_has_nul q ≡ false
      → lookup q.subject_id db.canonical_state ≡ none
      → compare_and_set_projection answered (pos 0) q db ≡ (set_row q db (pos 0), ok true)
  set_first q db (sequence, number) clean absent =
      compare_and_set_projection-answered (pos 0) q db refl sequence number
        (subst CanGrow (sym absent) tt)
      ∙ rw (clean, absent) refl

module _ ⦃v : Server⦄ ⦃p : Platform⦄ ⦃s : Sorter⦄ ⦃u : Unicode⦄ (policy : Policy) where
  -- Each projection that ResolveBatch returns can be stored, if no text of it has U+0000: where
  -- its subject has no row yet and the statement is answered, CompareAndSetProjection with the
  -- expected version 0 inserts it and returns true, and LoadProjection then gives it back with
  -- every field as it was, but for its version, which is 0, and its times, which are as the server
  -- keeps them.
  pub resolve_batch-stored :
      (events : List PhysicalEvent) (r : BatchResult) (k : Text) (q : IdentityProjection)
      (db : Database)
      → resolve_batch events policy ≡ ok r
      → lookup k r.projections ≡ some q
      → projection_has_nul q ≡ false
      → lookup k db.canonical_state ≡ none
      → ((compare_and_set_projection answered (pos 0) q db).1 ≡ ok true)
        × (load_projection answered k (compare_and_set_projection answered (pos 0) q db).0
            ≡ ok (as_stored (pos 0) q))
  resolve_batch-stored events r k q db h found clean absent =
      let is_subject : q.subject_id ≡ k = resolve_batch-subject policy events r k q h found in
      let set =
        set_first q db (resolve_batch-IsNonneg policy events r k q h found) clean
          (ap (λ n. lookup n db.canonical_state) is_subject ∙ absent) in
      (ap (λ x. x.1) set, rw (set, sym is_subject) (reads_back q (pos 0) db clean))
