-- ===== src/Lib.antt =====
-- Deterministic identity reconciliation: the engine, its durable store and its SCIM adapter.
--
-- The program takes events of source systems, turns each into a canonical fact
-- (pkg/reconcile/canonicalize.go), removes duplicates and older revisions, decides what to do with
-- each fact (pkg/reconcile/policy.go), folds the accepted ones into one projection per subject
-- (ResolveBatch of pkg/reconcile/resolve.go), and makes a target system agree with a projection
-- (Converge of the same file). pkg/store/postgres/postgres.go keeps events, facts and projections,
-- and pkg/adapter/scim/scim.go is a target for SCIM Users.
--
-- Which module is about which part:
--   Reconcile/Clock           times, durations and normalizeTime of canonicalize.go
--   Reconcile/Model           the types of pkg/reconcile/model.go
--   Reconcile/Freshness       FreshnessTuple.Compare of model.go
--   Reconcile/Policy          policy.go: DefaultPolicy, Validate, Evaluate
--   Reconcile/Platform        what canonicalize.go takes from the standard library
--   Reconcile/Canonicalize    canonicalize.go: Canonicalize, validEventType, makeFactKey and, in
--                             Attributes, attributesFromPayload and scalarString
--   Reconcile/Projection      applyFact and the projection loop of resolve.go
--   Reconcile/Resolve         ResolveBatch, a function for each of its loops
--   Reconcile/Converge        StateEquivalent, stringMapsEqual and Converge
--   Postgres/Tables           the rows of schema/postgres.sql, the server's comparisons
--   Postgres/Statements       how a statement is delivered and what the caller sees
--   Postgres/Physical         InsertPhysicalEvent with its SQL
--   Postgres/Facts            UpsertCanonicalFact with its SQL
--   Postgres/Projections      CompareAndSetProjection and LoadProjection with their SQL
--   Postgres/Locked           WithLockedProjection
--   Scim/Names                attribute names and escapeFilterValue of pkg/adapter/scim/scim.go
--   Scim/Config               New and its checks
--   Scim/Responses            responseAttribute, resourceID, resourceVersion, scimActive,
--                             managedValues and the checks of find
--   Scim/Desired              managedDesiredValues, StateEquivalent, create, patch and the request
--                             that Apply makes
--   Scim/Service              find, Observe and Apply over a service
--   Scim/Web                  the HTTP client, resourceURL and userURL
--   Scim/Http                 request, and the service that it makes
--   Command                   what cmd/converge/main.go does with a stored projection
--   Command/Invocation        its flags, environment and configuration, up to the report
--   ReconcileCommand          cmd/reconcile/main.go
-- The children of these modules hold the proofs. Prelude has what they share, Examples the tests.
--
-- Functions keep the names of the source in lower case with underscores. A (value, error) return
-- is a Result with one error constructor for each return of an error. Maps are association lists,
-- and a loop that ranges over a map goes through its list. Strings that canonicalization has
-- checked are enumerations, so `validEventType` is a parser here; a text is a list of code points,
-- whose order is the order of bytes of its UTF-8 encoding.
--
-- Parameters, for code that is not in the repository: the text of a time and of a float, the
-- digest of an envelope (SHA-256 of its JSON), Unicode case tables, sort.Slice (any function that
-- rearranges its input into order), the target system behind a TargetAdapter, the parsing, escaping
-- and printing of URLs (net/url), JSON, Client.Do of net/http, package flag, files, the environment
-- and the current time, sql.Open, and PostgreSQL's rounding of times and collation of texts. Where
-- a theorem needs more of them, such as no collision of digests within a batch, it is a hypothesis.
--
-- Bounds: instants and int64 fields are integers without a bound; Time.Sub saturates and
-- BIGINT row versions overflow as they do in the source, and a statement with U+0000 in a TEXT or
-- JSONB argument fails, as PostgreSQL has it. A response body is cut off at 4 MiB. All
-- loops are structural recursion on a list, so no fuel is needed.
--
-- Not modelled: the text of error messages and what is read of a refused response for it, contexts,
-- deadlines and cancellation, the writing of the reports to the output, and postgres.New, which
-- refuses a nil connection. The row lock of SELECT ... FOR UPDATE is PostgreSQL's: a statement that
-- waits on it is one that has not happened yet.
pub mod Prelude
pub mod Reconcile
pub mod Postgres
pub mod Scim
pub mod Command
pub mod ReconcileCommand
mod Examples
