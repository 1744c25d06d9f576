-- ===== src/Postgres/Facts/Freshest.antt =====
-- The table of facts keeps the freshest revision of each fact.
use deterministic_identity_r.Prelude.{
  ◌≡◌, ◌⊎◌, inl, inr, refl, ap, ◌∙◌, Bool, true, none, some, ok, arith, Option-cases, Bool-cases,
}
use deterministic_identity_r.Prelude.Text.{Text, text_eq, text_eq→≡}
use deterministic_identity_r.Prelude.Dict.{lookup, insert, lookup-insert}
use deterministic_identity_r.Prelude.Comparison.{lt}
use deterministic_identity_r.Reconcile.Model.{CanonicalFact}
use deterministic_identity_r.Postgres.Tables.{
  Server, Delivery, answered, refused, lost, FactRow, Database, Revision, any_column_less,
}
use deterministic_identity_r.Postgres.Statements.{query_row}
use deterministic_identity_r.Postgres.Facts.{
  fact_revision, fact_row, revised, write_fact, upsert_onto_fact, upsert_fact,
  upsert_canonical_fact,
}
use deterministic_identity_r.Postgres.Facts.Answered.{
  NoOlder, put_fact, answered-row, put_fact-NoOlder,
}
use deterministic_identity_r.Postgres.Projections.Guards.{
  any_column_less-eq-row_less, row_less-eq, compare_revision, compare_revision-IsComparison,
}

module _ ⦃v : Server⦄ where
  -- The second row has a newer revision of the same slot.
  abbrev pub IsRevision : FactRow → FactRow → Type 0
  IsRevision r r' =
      (r'.subject_id ≡ r.subject_id)
      × (r'.event_type ≡ r.event_type)
      × (r'.source_scope ≡ r.source_scope)
      × (r'.effective_time ≡ r.effective_time)
      × (compare_revision (fact_revision r) (fact_revision r') ≡ lt)

  abbrev pub KeepsFacts : Database → Database → Type 0
  KeepsFacts db db' =
      (k : Text) (r : FactRow)
      → lookup k db.canonical_facts ≡ some r
      → (r' : FactRow) × (lookup k db'.canonical_facts ≡ some r') × ((r' ≡ r) ⊎ IsRevision r r')

  older_revision : (a b : Revision) → any_column_less a b ≡ true → compare_revision a b ≡ lt
  older_revision a b h = ground (arith, any_column_less-eq-row_less a b, row_less-eq a b)

  upsert-absent :
      (d : Delivery) (fact : CanonicalFact) (db : Database)
      → lookup fact.fact_key db.canonical_facts ≡ none
      → ((upsert_canonical_fact d fact db).0.canonical_facts ≡ db.canonical_facts)
        ⊎ ((upsert_canonical_fact d fact db).0.canonical_facts
            ≡ insert fact.fact_key (fact_row fact) db.canonical_facts)
  unfolding upsert_canonical_fact query_row upsert_fact upsert_onto_fact write_fact
  upsert-absent answered fact db absent = ground (arith, absent)
  upsert-absent refused fact db absent = ground (arith, absent)
  upsert-absent lost fact db absent = ground (arith, absent)

  upsert-over :
      (d : Delivery) (fact : CanonicalFact) (db : Database) (stored : FactRow)
      → lookup fact.fact_key db.canonical_facts ≡ some stored
      → ((upsert_canonical_fact d fact db).0.canonical_facts ≡ db.canonical_facts)
        ⊎ (((upsert_canonical_fact d fact db).0.canonical_facts
              ≡ insert fact.fact_key (revised stored (fact_row fact)) db.canonical_facts)
            × (any_column_less (fact_revision stored) (fact_revision (fact_row fact)) ≡ true))
  unfolding upsert_canonical_fact query_row upsert_fact upsert_onto_fact write_fact
  upsert-over answered fact db stored found = ground (arith, found)
  upsert-over refused fact db stored found = ground (arith, found)
  upsert-over lost fact db stored found = ground (arith, found)

  put_fact-KeepsFacts :
      (key : Text) (row : FactRow) (db db' : Database)
      → db'.canonical_facts ≡ insert key row db.canonical_facts
      → ((r : FactRow) → lookup key db.canonical_facts ≡ some r → IsRevision r row)
      → KeepsFacts db db'
  put_fact-KeepsFacts key row db db' e newer k r found = elim (Bool-cases (text_eq key k)) [
    | inl t ↦ (
      row,
      rw e (rw (lookup-insert key k row db.canonical_facts, t) refl),
      inr (newer r (ap (λ s. lookup s db.canonical_facts) (text_eq→≡ key k t) ∙ found)),
    )
    | inr f ↦ (r, rw e (rw (lookup-insert key k row db.canonical_facts, f) found), inl refl)
  ]

  same-KeepsFacts :
      (db db' : Database) → db'.canonical_facts ≡ db.canonical_facts → KeepsFacts db db'
  same-KeepsFacts db db' e k r found = (r, ap (lookup k) e ∙ found, inl refl)

  revised-IsRevision :
      (stored row r : FactRow)
      → r ≡ stored
      → any_column_less (fact_revision stored) (fact_revision row) ≡ true
      → IsRevision r (revised stored row)
  revised-IsRevision stored row r e h = rw e (refl, refl, refl, refl, older_revision _ _ h)

  -- UpsertCanonicalFact keeps every stored fact as it was, or replaces it by a newer revision with
  -- the same subject, type, scope and effective time, whatever becomes of the statement.
  pub upsert_canonical_fact-KeepsFacts :
      (d : Delivery) (fact : CanonicalFact) (db : Database)
      → KeepsFacts db (upsert_canonical_fact d fact db).0
  upsert_canonical_fact-KeepsFacts d fact db =
      let db' = (upsert_canonical_fact d fact db).0 in
      elim (Option-cases (lookup fact.fact_key db.canonical_facts)) [
        | inl absent ↦ elim (upsert-absent d fact db absent) [
          | inl same ↦ same-KeepsFacts db db' same
          | inr e ↦
              put_fact-KeepsFacts fact.fact_key (fact_row fact) db db' e
                (λ r found. absurd (ground (arith, absent)))
        ]
        | inr (stored, there) ↦ elim (upsert-over d fact db stored there) [
          | inl same ↦ same-KeepsFacts db db' same
          | inr (e, less) ↦
              put_fact-KeepsFacts fact.fact_key (revised stored (fact_row fact)) db db' e
                (λ r found. revised-IsRevision stored (fact_row fact) r (cc (found, there)) less)
        ]
      ]

  -- The calls of UpsertCanonicalFact that any writers make, in the order the server runs them.
  pub data Upserts : Database → Database → Type 0 where
    done : {db : Database} → Upserts db db
    upsert :
        {db db' : Database} (d : Delivery) (fact : CanonicalFact)
        → Upserts (upsert_canonical_fact d fact db).0 db'
        → Upserts db db'

  NoOlder-IsRevision :
      (f : Revision) (r r' : FactRow) → (r' ≡ r) ⊎ IsRevision r r' → NoOlder f r → NoOlder f r'
  NoOlder-IsRevision f r r' (inl same) h = rw same h
  NoOlder-IsRevision f r r' (inr (_, _, _, _, newer)) h = ground (
    arith,
    any_column_less-eq-row_less (fact_revision r) f,
    row_less-eq (fact_revision r) f,
    any_column_less-eq-row_less (fact_revision r') f,
    row_less-eq (fact_revision r') f,
    compare_revision-IsComparison.trans (fact_revision r) (fact_revision r') f,
  )

  NoOlder-Upserts :
      {db db' : Database}
      → Upserts db db'
      → (f : Revision) (k : Text) (r : FactRow) → lookup k db.canonical_facts ≡ some r
      → NoOlder f r
      → (r' : FactRow) × (lookup k db'.canonical_facts ≡ some r') × NoOlder f r'
  NoOlder-Upserts done f k r found h = (r, found, h)
  NoOlder-Upserts {db} (upsert d fact rest) f k r found h =
      let (r', found', change) = upsert_canonical_fact-KeepsFacts d fact db k r found in
      NoOlder-Upserts rest f k r' found' (NoOlder-IsRevision f r r' change h)

  -- Once UpsertCanonicalFact has returned without an error, the stored row of the fact key is no
  -- older than the fact, and stays so whatever calls any writers make after it.
  pub upsert_canonical_fact-freshest :
      (b : Bool) (fact : CanonicalFact) (db db' db'' : Database)
      → upsert_canonical_fact answered fact db ≡ (db', ok b)
      → Upserts db' db''
      → (r : FactRow) × (lookup fact.fact_key db''.canonical_facts ≡ some r)
        × NoOlder (fact_revision (fact_row fact)) r
  upsert_canonical_fact-freshest b fact db db' db'' h run =
      let r = put_fact fact (lookup fact.fact_key db.canonical_facts) in
      NoOlder-Upserts run (fact_revision (fact_row fact)) fact.fact_key r
        (answered-row b fact db db' h) (put_fact-NoOlder fact _)
