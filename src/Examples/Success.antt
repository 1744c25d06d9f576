-- ===== src/Examples/Success.antt =====
-- The batch of two events, and the command on a file of it.
use mathlib.Core.List.{Perm}
use deterministic_identity_r.Prelude.{◌≡◌, ◌↔◌, none, some, List, [], ◌∷◌, map, ok}
use deterministic_identity_r.Prelude.Text.{text}
use deterministic_identity_r.Reconcile.Model.{CanonicalFact, BatchResult}
use deterministic_identity_r.Reconcile.Policy.{validate}
use deterministic_identity_r.Reconcile.Canonicalize.{canonicalize}
use deterministic_identity_r.Reconcile.Canonicalize.Facts.{Accepted}
use deterministic_identity_r.Reconcile.Canonicalize.Checks.{canonicalize-ok_iff}
use deterministic_identity_r.Reconcile.Resolve.{resolve_batch}
use deterministic_identity_r.Reconcile.Resolve.Totality.{KeysAgree}
use deterministic_identity_r.Reconcile.Resolve.Verdicts.{verdict}
use deterministic_identity_r.Reconcile.Resolve.Success.{resolve_batch-ok_iff}
use deterministic_identity_r.ReconcileCommand.{Given, Host, ended, main}
use deterministic_identity_r.ReconcileCommand.Output.{Prints, main-ok_iff}
use deterministic_identity_r.Examples.{ascii, sorting, platform, policy, utc, hired, left}
use deterministic_identity_r.Examples.Engine.{hired_fact}
use deterministic_identity_r.Reconcile.Resolve.Coverage.{facts_of, resolve_batch-covers}
use deterministic_identity_r.Examples.Batch.{batch_result, batch_runs}

canonicalize-ok_iff_example :
    (canonicalize hired policy.now ≡ ok hired_fact) ↔ Accepted hired policy.now hired_fact
canonicalize-ok_iff_example = canonicalize-ok_iff hired policy.now hired_fact

resolve_batch-ok_iff_example :
    ((r : BatchResult) × (resolve_batch (hired ∷ left ∷ []) policy ≡ ok r)) ↔ (
      (validate policy ≡ ok tt)
      × (fs : List CanonicalFact) × (map (verdict policy) (hired ∷ left ∷ []) ≡ map ok fs)
      × KeysAgree fs)
resolve_batch-ok_iff_example = resolve_batch-ok_iff policy (hired ∷ left ∷ [])

-- Every file is a document of the two events.
abbrev host : Host
host = record {
  read_file = λ path. some [];
  decode_events = λ content. some (hired ∷ left ∷ [], []);
  decode_next = λ rest. ended;
  current_time = utc 1000;
  parse_time = λ t. none;
  encode = λ r. some (text "done");
}

abbrev no_flags : Given
no_flags = record { input = none; now = none }

main-ok_iff_example : (main host no_flags ≡ ok (text "done")) ↔ Prints host no_flags (text "done")
main-ok_iff_example = main-ok_iff host no_flags (text "done")

resolve_batch-covers_example :
    (fs : List CanonicalFact) × (map (verdict policy) (hired ∷ left ∷ []) ≡ map ok fs)
    × Perm (facts_of batch_result.decisions) fs
resolve_batch-covers_example =
    resolve_batch-covers policy (hired ∷ left ∷ []) batch_result batch_runs
