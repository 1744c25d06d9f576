-- ===== src/Postgres/Projections/History.antt =====
-- Runs of CompareAndSetProjection by any writers, on any delivery: what a stored row becomes.
use deterministic_identity_r.Prelude.{
  ◌≡◌, subst, sym, ◌⊎◌, inl, inr, refl, true, none, some, arith, Bool-cases,
}
use deterministic_identity_r.Prelude.Int.{ℤ, pos, ◌+ℤ◌, ◌<ℤ◌, +ℤ_parts}
use deterministic_identity_r.Prelude.Text.{Text, text_eq, text_eq→≡}
use deterministic_identity_r.Prelude.Dict.{Dict, lookup, insert, lookup-insert}
use deterministic_identity_r.Prelude.Comparison.{lt}
use deterministic_identity_r.Reconcile.Model.{IdentityProjection}
use deterministic_identity_r.Postgres.Tables.{
  Server, Delivery, StateRow, Database, row_less, revision_of,
}
use deterministic_identity_r.Postgres.Projections.{
  row_revision, state_row, compare_and_set_projection,
}
use deterministic_identity_r.Postgres.Projections.Preserved.{
  Written, first, next, compare_and_set_projection-keeps,
}
use deterministic_identity_r.Postgres.Projections.Guards.{
  row_less-eq, compare_revision, compare_revision-IsComparison,
}

module _ ⦃v : Server⦄ where
  -- The second row has a greater version and a newer revision.
  abbrev pub IsNewer : StateRow → StateRow → Type 0
  IsNewer r r' =
      (r.row_version <ℤ r'.row_version) × (compare_revision (row_revision r) (row_revision r') ≡ lt)

  -- Every row is still there, as it was or newer.
  abbrev pub IsLater : Database → Database → Type 0
  IsLater db db' =
      (s : Text) (r : StateRow)
      → lookup s db.canonical_state ≡ some r
      → (r' : StateRow) × (lookup s db'.canonical_state ≡ some r') × ((r' ≡ r) ⊎ IsNewer r r')

  pub IsLater-refl : (db : Database) → IsLater db db
  IsLater-refl db s r h = (r, h, inl refl)

  IsNewer-or_same :
      (a b c : StateRow) → (b ≡ a) ⊎ IsNewer a b → (c ≡ b) ⊎ IsNewer b c → (c ≡ a) ⊎ IsNewer a c
  IsNewer-or_same a b c (inl h) k = subst (λ x. (c ≡ x) ⊎ IsNewer x c) h k
  IsNewer-or_same a b c (inr h) (inl k) = inr (subst (λ x. IsNewer a x) (sym k) h)
  IsNewer-or_same a b c (inr (h, i)) (inr (k, j)) = inr (
    ground arith,
    compare_revision-IsComparison.trans (row_revision a) (row_revision b) (row_revision c) i j,
  )

  pub IsLater-trans : (a b c : Database) → IsLater a b → IsLater b c → IsLater a c
  IsLater-trans a b c h k s r e =
      let (r1, e1, d1) = h s r e in
      let (r2, e2, d2) = k s r1 e1 in (r2, e2, IsNewer-or_same r r1 r2 d1 d2)

  set_absent :
      (id : Text) (row : StateRow) (db : Database)
      → lookup id db.canonical_state ≡ none
      → IsLater db (record db { canonical_state = insert id row db.canonical_state })
  set_absent id row db h s r e =
      (r, ground (arith, lookup-insert id s row db.canonical_state, text_eq→≡ id s), inl refl)

  one_row :
      (id s : Text) (old r : StateRow) (m : Dict StateRow)
      → id ≡ s
      → lookup id m ≡ some old
      → lookup s m ≡ some r
      → old ≡ r
  one_row id s old r m same h e = cc

  set_newer :
      (id : Text) (old row : StateRow) (db : Database)
      → lookup id db.canonical_state ≡ some old
      → IsNewer old row
      → IsLater db (record db { canonical_state = insert id row db.canonical_state })
  set_newer id old row db h n s r e = elim (Bool-cases (text_eq id s)) [
    | inl t ↦ (
      row,
      rw (lookup-insert id s row db.canonical_state, t) refl,
      inr (
          subst (λ x. IsNewer x row) (one_row id s old r db.canonical_state (text_eq→≡ id s t) h e)
            n),
    )
    | inr f ↦ (r, rw (lookup-insert id s row db.canonical_state, f) e, inl refl)
  ]

  next_version :
      (old : StateRow) (p : IdentityProjection)
      → old.row_version <ℤ (state_row (old.row_version +ℤ pos 1) p).row_version
  unfolding state_row
  next_version old p = ground (arith, +ℤ_parts old.row_version (pos 1))

  next_revision :
      (old : StateRow) (p : IdentityProjection)
      → row_less (row_revision old) (revision_of p.freshness) ≡ true
      → compare_revision (row_revision old) (row_revision (state_row (old.row_version +ℤ pos 1) p))
        ≡ lt
  unfolding state_row revision_of
  next_revision old p h = ground (arith, row_less-eq (row_revision old) (revision_of p.freshness))

  Written-IsLater :
      (p : IdentityProjection) (db : Database) (row : StateRow)
      → Written p db row
      → IsLater db (record db { canonical_state = insert p.subject_id row db.canonical_state })
  Written-IsLater p db (_) (first absent allowed) =
      set_absent p.subject_id (state_row (pos 0) p) db absent
  Written-IsLater p db (_) (next old stored newer grows allowed) =
      set_newer p.subject_id old (state_row (old.row_version +ℤ pos 1) p) db stored
        (next_version old p, next_revision old p newer)

  -- CompareAndSetProjection keeps every stored row of every subject as it was, or gives the row
  -- a greater version and a newer revision, whatever becomes of the statement.
  pub compare_and_set_projection-IsLater :
      (d : Delivery) (expected : ℤ) (p : IdentityProjection) (db : Database)
      → IsLater db (compare_and_set_projection d expected p db).0
  compare_and_set_projection-IsLater d expected p db =
      compare_and_set_projection-keeps (IsLater db) p db (IsLater-refl db) (Written-IsLater p db) d
        expected

  -- The calls of CompareAndSetProjection that any writers make, in the order the server runs them.
  pub data Writes : Database → Database → Type 0 where
    idle : {db : Database} → Writes db db
    write :
        {db db' : Database} (d : Delivery) (expected : ℤ) (p : IdentityProjection)
        → Writes (compare_and_set_projection d expected p db).0 db'
        → Writes db db'

  -- Along any run of CompareAndSetProjection, whatever becomes of its statements, a stored row is
  -- never lost: at the end it is as it was, or it has a greater version and a newer revision.
  pub Writes-IsLater : {db db' : Database} → Writes db db' → IsLater db db'
  Writes-IsLater {db} idle = IsLater-refl db
  Writes-IsLater {db} {db'} (write d e p rest) =
      IsLater-trans db (compare_and_set_projection d e p db).0 db'
        (compare_and_set_projection-IsLater d e p db) (Writes-IsLater rest)
