-- ===== src/Reconcile/Resolve/Returned.antt =====
-- What the projections of ResolveBatch are made of.
use mathlib.Core.Logic.Or
use mathlib.Core.List.{Mem, mem-cons, mem-cons_self, mem-cons_of_mem, not-mem-nil}
use mathlib.Core.List.Perm
use mathlib.Core.Bool.{Bool-set}
use deterministic_identity_r.Prelude.{
  ◌≡◌, refl, sym, ap, subst, ◌∙◌, inl, inr, true, Bool-cases, Option, none, some, List, [], ◌∷◌,
  map, ok, arith,
}
use deterministic_identity_r.Prelude.Int.{pos, leb_ℤ}
use deterministic_identity_r.Prelude.Text.{Text, text_eq}
use deterministic_identity_r.Prelude.Text.Case.{Unicode}
use deterministic_identity_r.Prelude.Dict.{lookup}
use deterministic_identity_r.Prelude.Sort.{Sorter}
use deterministic_identity_r.Reconcile.Model.{
  PhysicalEvent, CanonicalFact, IdentityProjection, FreshnessTuple, BatchResult,
}
use deterministic_identity_r.Reconcile.Policy.{Policy}
use deterministic_identity_r.Reconcile.Platform.{Platform}
use deterministic_identity_r.Reconcile.Canonicalize.{canonicalize}
use deterministic_identity_r.Reconcile.Canonicalize.Facts.{canonicalize-IsCanonical}
use deterministic_identity_r.Reconcile.Projection.{apply_fact, or_new, project}
use deterministic_identity_r.Reconcile.Projection.Invariant.{
  fold_subject, lookup-project, project-IsCoherent,
}
use deterministic_identity_r.Reconcile.Resolve.{
  resolve_batch, finish, accepted_facts, fact_less, decision_less,
}
use deterministic_identity_r.Reconcile.Resolve.Finish.{Concerns, mem_of_accepted}
use deterministic_identity_r.Reconcile.Resolve.Verdicts.{verdict}
use deterministic_identity_r.Reconcile.Resolve.Runs.{unsorted, resolve_batch-Resolved}
use deterministic_identity_r.Reconcile.Resolve.Permutation.{unsorted-Concerns}

-- The sequence and the revision number are not negative.
abbrev pub IsNonneg : FreshnessTuple → Type 0
IsNonneg f = (leb_ℤ (pos 0) f.source_sequence ≡ true) × (leb_ℤ (pos 0) f.revision_number ≡ true)

IsNonneg-prop : (f : FreshnessTuple) → IsProp (IsNonneg f)
IsNonneg-prop f = hlevel Bool-set

freshness-apply_fact :
    (p : IdentityProjection) (f : CanonicalFact) → (apply_fact p f).freshness ≡ f.freshness
unfolding apply_fact
freshness-apply_fact p f = refl

abbrev NonnegIn : Option IdentityProjection → Type 0
NonnegIn none = Unit {0}
NonnegIn (some p) = IsNonneg p.freshness

fold_subject-NonnegIn :
    (k : Text) (fs : List CanonicalFact) (o : Option IdentityProjection)
    → NonnegIn o
    → ((f : CanonicalFact) → Mem f fs → IsNonneg f.freshness)
    → NonnegIn (fold_subject k fs o)
fold_subject-NonnegIn k [] o h all = h
fold_subject-NonnegIn k (f ∷ fs) o h all =
    let rest = λ (g : CanonicalFact) (m : Mem g fs). all g (mem-cons_of_mem f m) in
    elim (Bool-cases (text_eq f.subject_id k)) [
      | inl same ↦ rw same (
          fold_subject-NonnegIn k fs (some (apply_fact (or_new k o) f))
            (subst IsNonneg (sym (freshness-apply_fact (or_new k o) f)) (all f mem-cons_self)) rest)
      | inr apart ↦ rw apart (fold_subject-NonnegIn k fs o h rest)
    ]

project-IsNonneg :
    (k : Text) (fs : List CanonicalFact) (p : IdentityProjection)
    → lookup k (project fs []) ≡ some p
    → ((f : CanonicalFact) → Mem f fs → IsNonneg f.freshness)
    → IsNonneg p.freshness
unfolding lookup
project-IsNonneg k fs p found all =
    subst NonnegIn (sym (lookup-project k fs []) ∙ found) (fold_subject-NonnegIn k fs none tt all)

module _ ⦃p : Platform⦄ ⦃s : Sorter⦄ ⦃u : Unicode⦄ (policy : Policy) where
  canonical-IsNonneg :
      (event : PhysicalEvent) (f : CanonicalFact)
      → canonicalize event policy.now ≡ ok f
      → IsNonneg f.freshness
  canonical-IsNonneg event f h =
      let c = canonicalize-IsCanonical event policy.now {fact = f} h in
      (ground (arith, c.sequence_nonneg), ground (arith, c.revision_nonneg))

  verdicts-IsNonneg :
      (events : List PhysicalEvent) (fs : List CanonicalFact)
      → map (verdict policy) events ≡ map ok fs
      → (f : CanonicalFact) → Mem f fs
      → IsNonneg f.freshness
  verdicts-IsNonneg [] [] h f m = absurd (not-mem-nil m)
  verdicts-IsNonneg [] (g ∷ fs) h f m = cc
  verdicts-IsNonneg (event ∷ events) [] h f m = cc
  verdicts-IsNonneg (event ∷ events) (g ∷ fs) h f m =
      let first : canonicalize event policy.now ≡ ok g = cc in
      Or.elim (IsNonneg-prop f.freshness) (mem-cons.0 m)
        (λ same. rw same (canonical-IsNonneg event g first))
        (λ t. verdicts-IsNonneg events fs (cc) f t)

  finish-IsNonneg :
      (fs : List CanonicalFact) (ds : _) (k : Text) (q : IdentityProjection)
      → Concerns fs ds
      → ((f : CanonicalFact) → Mem f fs → IsNonneg f.freshness)
      → lookup k (finish ds).projections ≡ some q
      → IsNonneg q.freshness
  unfolding finish
  finish-IsNonneg fs ds k q about all found =
      project-IsNonneg k (s.sort_slice fact_less (accepted_facts (s.sort_slice decision_less ds))) q
        found
        λ f m. all f (
          mem_of_accepted fs (s.sort_slice decision_less ds)
            (λ d n. about d ((Perm.mem_iff (s.sort_slice-perm decision_less ds)).0 n)) f
            ((Perm.mem_iff (s.sort_slice-perm fact_less _)).0 m))

  -- The projections that ResolveBatch returns carry sequences and revision numbers that are not
  -- negative.
  pub resolve_batch-IsNonneg :
      (events : List PhysicalEvent) (r : BatchResult) (k : Text) (q : IdentityProjection)
      → resolve_batch events policy ≡ ok r
      → lookup k r.projections ≡ some q
      → IsNonneg q.freshness
  resolve_batch-IsNonneg events r k q h found =
      let run = resolve_batch-Resolved policy events {r = r} h in
      let fs = run.delivered in
      finish-IsNonneg fs (unsorted policy run.collected.facts run.admitted.repeats) k q
        (unsorted-Concerns policy fs run.collected run.admitted)
        (verdicts-IsNonneg events fs run.verdicts)
        (ap (λ x. lookup k x.projections) run.finished ∙ found)

  finish-subject :
      (ds : _) (k : Text) (q : IdentityProjection)
      → lookup k (finish ds).projections ≡ some q
      → q.subject_id ≡ k
  unfolding finish
  finish-subject ds k q found = (project-IsCoherent k _ q found).0.subject_id

  -- A projection is filed under its subject.
  pub resolve_batch-subject :
      (events : List PhysicalEvent) (r : BatchResult) (k : Text) (q : IdentityProjection)
      → resolve_batch events policy ≡ ok r
      → lookup k r.projections ≡ some q
      → q.subject_id ≡ k
  resolve_batch-subject events r k q h found =
      let run = resolve_batch-Resolved policy events {r = r} h in
      finish-subject (unsorted policy run.collected.facts run.admitted.repeats) k q
        (ap (λ x. lookup k x.projections) run.finished ∙ found)
