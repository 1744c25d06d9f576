-- ===== src/Postgres/Projections/Guards.antt =====
-- The row comparisons of the statements of postgres.go, and FreshnessTuple.Compare.
use deterministic_identity_r.Prelude.{◌≡◌, arith, Ordering}
use deterministic_identity_r.Prelude.Int.{compare_ℤ, compare_ℤ-IsComparison}
use deterministic_identity_r.Prelude.Text.{Text, compare_text}
use deterministic_identity_r.Prelude.Comparison.{
  is_lt, then_by, IsComparison, then_by-IsComparison, pull_back-IsComparison,
}
use deterministic_identity_r.Reconcile.Clock.{compare_time}
use deterministic_identity_r.Reconcile.Model.{FreshnessTuple}
use deterministic_identity_r.Reconcile.Freshness.{
  compare_freshness, compare_freshness-eq-lexicographic,
}
use deterministic_identity_r.Postgres.Tables.{
  Server, Revision, any_column_less, row_less, revision_of,
}

module _ ⦃v : Server⦄ where
  -- The order of revisions under the collation of the database.
  abbrev pub compare_revision : Revision → Revision → Ordering
  compare_revision a b = then_by (compare_ℤ a.sequence b.sequence) (
      then_by (compare_ℤ a.modification.wall b.modification.wall)
        (then_by (compare_ℤ a.number b.number) (v.collate a.key b.key)))

  pub compare_revision-IsComparison : IsComparison compare_revision
  compare_revision-IsComparison =
      then_by-IsComparison (pull_back-IsComparison (λ r. r.sequence) compare_ℤ-IsComparison) (
        then_by-IsComparison
          (pull_back-IsComparison (λ r. r.modification.wall) compare_ℤ-IsComparison)
          (then_by-IsComparison (pull_back-IsComparison (λ r. r.number) compare_ℤ-IsComparison)
            (pull_back-IsComparison (λ r. r.key) v.collate-IsComparison)))

  pub row_less-eq : (a b : Revision) → row_less a b ≡ is_lt (compare_revision a b)
  unfolding row_less compare_ℤ
  row_less-eq a b = ground arith

  -- The disjunction of compareAndSetProjectionSQL and upsertCanonicalFactSQL decides the same as
  -- the row comparison of updateProjectionSQL.
  pub any_column_less-eq-row_less : (a b : Revision) → any_column_less a b ≡ row_less a b
  unfolding any_column_less row_less
  any_column_less-eq-row_less a b = ground arith

  -- On freshness tuples whose modification instants the column keeps as they are, and under a
  -- collation that compares bytes, the row comparison of the store is FreshnessTuple.Compare.
  pub row_less-eq-compare_freshness :
      (f g : FreshnessTuple)
      → ((s t : Text) → v.collate s t ≡ compare_text s t)
      → (v.stored_time f.modification_time).wall ≡ f.modification_time.wall
      → (v.stored_time g.modification_time).wall ≡ g.modification_time.wall
      → row_less (revision_of f) (revision_of g) ≡ is_lt (compare_freshness f g)
  unfolding revision_of compare_time
  row_less-eq-compare_freshness f g bytes hf hg = rw (
    row_less-eq (revision_of f) (revision_of g),
    compare_freshness-eq-lexicographic f g,
    hf,
    hg,
    bytes f.physical_event_key g.physical_event_key,
  )
