-- ===== src/Postgres/Facts/Answered.antt =====
-- What an answered call of UpsertCanonicalFact without error does to the row of its fact key.
use deterministic_identity_r.Prelude.{
  ◌≡◌, inl, inr, refl, ap, ◌∙◌, Bool, false, Option, none, some, ok, arith, Option-cases,
  Bool-cases, if◌then◌else◌,
}
use deterministic_identity_r.Prelude.Text.{Text, text_eq, text_eq_refl}
use deterministic_identity_r.Prelude.Dict.{lookup, insert, lookup-insert}
use deterministic_identity_r.Reconcile.Model.{CanonicalFact}
use deterministic_identity_r.Postgres.Tables.{
  Server, answered, FactRow, Database, Revision, any_column_less,
}
use deterministic_identity_r.Postgres.Statements.{query_row}
use deterministic_identity_r.Postgres.Facts.{
  fact_revision, fact_row, revised, write_fact, upsert_onto_fact, upsert_fact,
  upsert_canonical_fact,
}
use deterministic_identity_r.Postgres.Projections.Guards.{
  any_column_less-eq-row_less, row_less-eq, compare_revision-IsComparison,
}
use deterministic_identity_r.Prelude.Comparison.{cmp_refl}

module _ ⦃v : Server⦄ where
  -- The row is no older than the revision.
  abbrev pub NoOlder : Revision → FactRow → Type 0
  NoOlder f r = any_column_less (fact_revision r) f ≡ false

  answered-absent :
      (b : Bool) (fact : CanonicalFact) (db db' : Database)
      → lookup fact.fact_key db.canonical_facts ≡ none
      → upsert_canonical_fact answered fact db ≡ (db', ok b)
      → db'.canonical_facts ≡ insert fact.fact_key (fact_row fact) db.canonical_facts
  unfolding upsert_canonical_fact query_row upsert_fact upsert_onto_fact write_fact
  answered-absent b fact db db' absent h = ground (arith, absent)

  answered-over :
      (b : Bool) (fact : CanonicalFact) (db db' : Database) (stored : FactRow)
      → lookup fact.fact_key db.canonical_facts ≡ some stored
      → upsert_canonical_fact answered fact db ≡ (db', ok b)
      → db'.canonical_facts ≡ (
          if any_column_less (fact_revision stored) (fact_revision (fact_row fact))
          then insert fact.fact_key (revised stored (fact_row fact)) db.canonical_facts
          else db.canonical_facts)
  unfolding upsert_canonical_fact query_row upsert_fact upsert_onto_fact write_fact
  answered-over b fact db db' stored there h = ground (arith, there)

  -- The row of a fact key after the fact has been upserted on what was there.
  abbrev pub put_fact : CanonicalFact → Option FactRow → FactRow
  put_fact fact none = fact_row fact
  put_fact fact (some stored) =
      if any_column_less (fact_revision stored) (fact_revision (fact_row fact))
      then revised stored (fact_row fact)
      else stored

  lookup-put :
      (key k : Text) (row : FactRow) (db db' : Database)
      → db'.canonical_facts ≡ insert key row db.canonical_facts
      → lookup k db'.canonical_facts
        ≡ (if text_eq key k then some row else lookup k db.canonical_facts)
  lookup-put key k row db db' e = ap (lookup k) e ∙ lookup-insert key k row db.canonical_facts

  put_fact-over :
      (fact : CanonicalFact) (db db' : Database) (stored : FactRow)
      → lookup fact.fact_key db.canonical_facts ≡ some stored
      → db'.canonical_facts ≡ (
          if any_column_less (fact_revision stored) (fact_revision (fact_row fact))
          then insert fact.fact_key (revised stored (fact_row fact)) db.canonical_facts
          else db.canonical_facts)
      → lookup fact.fact_key db'.canonical_facts ≡ some (put_fact fact (some stored))
  put_fact-over fact db db' stored there e =
      elim (Bool-cases (any_column_less (fact_revision stored) (fact_revision (fact_row fact)))) [
        | inl less ↦ rw less (
            lookup-put fact.fact_key fact.fact_key (revised stored (fact_row fact)) db db'
              (rw less at e)
            ∙ rw (text_eq_refl fact.fact_key) refl)
        | inr kept ↦ rw kept (ap (lookup fact.fact_key) (rw kept at e) ∙ there)
      ]

  -- The row under the fact's key.
  pub answered-row :
      (b : Bool) (fact : CanonicalFact) (db db' : Database)
      → upsert_canonical_fact answered fact db ≡ (db', ok b)
      → lookup fact.fact_key db'.canonical_facts
        ≡ some (put_fact fact (lookup fact.fact_key db.canonical_facts))
  answered-row b fact db db' h = elim (Option-cases (lookup fact.fact_key db.canonical_facts)) [
    | inl absent ↦ rw absent (
        lookup-put fact.fact_key fact.fact_key (fact_row fact) db db'
          (answered-absent b fact db db' absent h)
        ∙ rw (text_eq_refl fact.fact_key) refl)
    | inr (stored, there) ↦
        rw there
          (put_fact-over fact db db' stored there (answered-over b fact db db' stored there h))
  ]

  -- The rows under other keys.
  pub answered-others :
      (b : Bool) (fact : CanonicalFact) (db db' : Database) (k : Text)
      → upsert_canonical_fact answered fact db ≡ (db', ok b)
      → text_eq fact.fact_key k ≡ false
      → lookup k db'.canonical_facts ≡ lookup k db.canonical_facts
  answered-others b fact db db' k h apart =
      elim (Option-cases (lookup fact.fact_key db.canonical_facts)) [
        | inl absent ↦
            lookup-put fact.fact_key k (fact_row fact) db db'
              (answered-absent b fact db db' absent h)
            ∙ rw apart refl
        | inr (stored, there) ↦ ground (
          arith,
          answered-over b fact db db' stored there h,
          lookup-insert fact.fact_key k (revised stored (fact_row fact)) db.canonical_facts,
        )
      ]

  any_column_less_refl : (a : Revision) → any_column_less a a ≡ false
  any_column_less_refl a =
      rw
        (any_column_less-eq-row_less a a, row_less-eq a a, cmp_refl compare_revision-IsComparison a)
        refl

  -- The row put is no older than the fact.
  pub put_fact-NoOlder :
      (fact : CanonicalFact) (o : Option FactRow)
      → NoOlder (fact_revision (fact_row fact)) (put_fact fact o)
  put_fact-NoOlder fact none = any_column_less_refl (fact_revision (fact_row fact))
  put_fact-NoOlder fact (some stored) =
      elim (Bool-cases (any_column_less (fact_revision stored) (fact_revision (fact_row fact)))) [
        | inl less ↦ rw less (any_column_less_refl (fact_revision (fact_row fact)))
        | inr kept ↦ rw kept kept
      ]
