-- ===== src/Command/Preview.antt =====
-- What a preview promises of the run that applies.
use deterministic_identity_r.Prelude.{
  ◌≡◌, ◌≢◌, ◌↔◌, refl, true, false, Option, none, some, List, Result, ok, err, arith, Bool-cases,
  inl, inr,
}
use deterministic_identity_r.Prelude.Text.{Text}
use deterministic_identity_r.Reconcile.Model.{IdentityProjection, DesiredState, ObservedState}
use deterministic_identity_r.Reconcile.Converge.{
  TargetAdapter, converge, equivalent, after_observe, after_apply,
}
use deterministic_identity_r.Postgres.Tables.{Database, StoreError}
use deterministic_identity_r.Postgres.Projections.{load_projection}
use deterministic_identity_r.Postgres.Locked.{Transaction, commit, run_callback}
use deterministic_identity_r.Command.{
  Report, ProcessError, act, preview_report, applied_report, process, run, not_allowed,
  nothing_to_do, report_of,
}

module _ {S E : Type 0} (a : TargetAdapter S E) (subject : Text) (allowed : List Text) where
  updated_differs :
      (d : DesiredState) (o : ObservedState) (t : S) (v : Result E (Unit {0}) × S)
      → applied_report a subject allowed d (after_apply d o v)
        ≢ (ok (report_of a subject allowed true d nothing_to_do), t)
  updated_differs d o t (ok _, s) e = ground arith
  updated_differs d o t (err x, s) e = ground arith

  reports_agree :
      (d : DesiredState) (t : S) (v : Result E ObservedState × S)
      → (preview_report a subject allowed d v
          ≡ (ok (report_of a subject allowed false d nothing_to_do), t))
        ↔ (applied_report a subject allowed d (after_observe a d v)
            ≡ (ok (report_of a subject allowed true d nothing_to_do), t))
  reports_agree d t (err e, s) = ground arith
  reports_agree d t (ok o, s) = elim (Bool-cases (equivalent a o d)) [
    | inl same ↦ rw same (ground arith)
    | inr differs ↦
        rw differs (λ e. absurd (ground arith), λ e. absurd (updated_differs d o t (a.apply d s) e))
  ]

  acts_agree :
      (d : DesiredState) (s t : S) (n : Option Text)
      → (act a subject allowed false d n s
          ≡ (ok (report_of a subject allowed false d nothing_to_do), t))
        ↔ (act a subject allowed true d n s
            ≡ (ok (report_of a subject allowed true d nothing_to_do), t))
  unfolding converge
  acts_agree d s t none = reports_agree d t (a.observe d.subject_id s)
  acts_agree d s t (some key) = ground arith

  report_keeps :
      (d : DesiredState) (v : Result E ObservedState × S) (s : S)
      → v.1 ≡ s
      → (preview_report a subject allowed d v).1 ≡ s
  report_keeps d (ok o, t) s h = h
  report_keeps d (err e, t) s h = h

  preview_keeps :
      (d : DesiredState) (s : S) (n : Option Text)
      → (a.observe d.subject_id s).1 ≡ s
      → (act a subject allowed false d n s).1 ≡ s
  preview_keeps d s (some key) pure = refl
  preview_keeps d s none pure = report_keeps d (a.observe d.subject_id s) s pure

  commit_keeps : (s : S) (r : Result (ProcessError E) Report × S) → r.1 ≡ s → (commit true r).1 ≡ s
  commit_keeps s (ok x, t) h = h
  commit_keeps s (err x, t) h = h

  callback_keeps :
      (s : S) (r : Result StoreError IdentityProjection)
      → ((id : Text) (t : S) → (a.observe id t).1 ≡ t)
      → (run_callback true (process a subject allowed false) r s).1 ≡ s
  unfolding process
  callback_keeps s (err e) pure = refl
  callback_keeps s (ok d) pure =
      commit_keeps s (process a subject allowed false d s)
        (preview_keeps d s (not_allowed allowed d.attributes) (pure d.subject_id s))

  -- Where reading the target changes nothing, a preview leaves it as it is, whatever becomes of the
  -- statements.
  pub run-preview :
      (x : Transaction) (db : Database) (s : S)
      → ((id : Text) (t : S) → (a.observe id t).1 ≡ t)
      → (run a subject allowed false x db s).1 ≡ s
  unfolding run
  run-preview x db s pure = callback_keeps s (load_projection x.loads subject db) pure

  -- On one projection, a preview finds nothing to do exactly if the run that applies does nothing,
  -- and both leave the target in the same state then.
  pub process-agrees :
      (d : DesiredState) (s t : S)
      → (process a subject allowed false d s
          ≡ (ok (report_of a subject allowed false d nothing_to_do), t))
        ↔ (process a subject allowed true d s
            ≡ (ok (report_of a subject allowed true d nothing_to_do), t))
  unfolding process
  process-agrees d s t = acts_agree d s t (not_allowed allowed d.attributes)
