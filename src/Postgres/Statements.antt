-- ===== src/Postgres/Statements.antt =====
-- How postgres.go runs one statement: the server computes an outcome, and the delivery decides
-- what the table keeps of it and what the caller sees.
use deterministic_identity_r.Prelude.{
  Bool, false, ◌||◌, ◌==◌, if◌then◌else◌, Option, Result, ok, err, [], ◌∷◌,
}
use deterministic_identity_r.Prelude.Text.{Text}
use deterministic_identity_r.Prelude.Dict.{Dict}
use deterministic_identity_r.Postgres.Tables.{
  Database, StoreError, statement_failed, text_refused, Delivery, answered, refused, lost,
}

-- The row that a statement returns, if any, with the database after it. A statement that fails
-- changes nothing.
abbrev pub Outcome : Type 0 → Type 0
Outcome A = Result StoreError (Option A × Database)

-- TEXT and JSONB cannot hold U+0000, so that a statement with such an argument fails.
unfoldable pub has_nul : Text → Bool
has_nul [] = false
has_nul (c ∷ s) = c == 0 || has_nul s

unfoldable pub any_nul : Dict Text → Bool
any_nul [] = false
any_nul ((k, s) ∷ rest) = has_nul k || has_nul s || any_nul rest

-- A statement, by whether an argument has U+0000.
abbrev pub bound : {A : Type 0} → Bool → Outcome A → Outcome A
bound has_one outcome = if has_one then err text_refused else outcome

-- `db.QueryRowContext(...).Scan(...)`; `none` is sql.ErrNoRows.
unfoldable pub query_row :
    {A : Type 0} → Delivery → Outcome A → Database → Database × Result StoreError (Option A)
query_row answered (ok (row, db)) old = (db, ok row)
query_row answered (err e) old = (old, err e)
query_row refused outcome old = (old, err statement_failed)
query_row lost (ok (row, db)) old = (db, err statement_failed)
query_row lost (err e) old = (old, err statement_failed)
