-- ===== src/Examples/Batch.antt =====
-- A batch of two events, a hire and a leave of one subject.
use mathlib.Core.Logic.Or
use mathlib.Core.List.{Mem, mem-cons, mem-cons_self, not-mem-nil, Perm}
use mathlib.Core.List.Perm
use native.Mathlib.Nat.{ℕ_set}
use deterministic_identity_r.Prelude.{
  ◌≡◌, ◌↔◌, refl, sym, ◌∙◌, true, none, some, List, [], ◌∷◌, map, ok, arith,
}
use deterministic_identity_r.Prelude.Int.{◌-ℤ◌, ◌+ℤ◌}
use deterministic_identity_r.Prelude.Text.{
  Text, text, text_eq, trim_space, join, compare_text, text_ltb,
}
use deterministic_identity_r.Prelude.Text.Case.{to_lower}
use deterministic_identity_r.Prelude.Dict.{lookup, insert}
use deterministic_identity_r.Prelude.Sort.Insertion.{insertion_sort, place}
use deterministic_identity_r.Reconcile.Clock.{
  normalize_time, is_zero, before, after, add, negate, sub,
}
use deterministic_identity_r.Reconcile.Model.{
  PhysicalEvent, CanonicalFact, IdentityProjection, BatchResult, leave, lifecycle, unset,
  event_type_name, source_scope_name, entries, is_hire, process_now, accepted,
}
use deterministic_identity_r.Reconcile.Freshness.{compare_freshness}
use deterministic_identity_r.Reconcile.Policy.{validate, evaluate, decide_fact, is_pre_cutoff}
use deterministic_identity_r.Reconcile.Canonicalize.{
  canonicalize, build_fact, hash_envelope, make_fact_key, parse_event_type, parse_source_scope,
}
use deterministic_identity_r.Reconcile.Canonicalize.Attributes.{
  attributes_from_payload, attributes_from_values, attribute_values, collect_attributes,
}
use deterministic_identity_r.Reconcile.Projection.{project, apply_fact, or_new}
use deterministic_identity_r.Reconcile.Projection.Invariant.{
  lookup-project, fold_subject, project-IsCoherent, IsCoherent, subject_state,
}
use deterministic_identity_r.Reconcile.Resolve.{
  resolution, resolve_batch, collect, admit, decide_all, decide, is_winner, winners_of, finish,
  group_facts, select_winners, freshest, decision_less, fact_less, accepted_facts,
}
use deterministic_identity_r.Reconcile.Resolve.Dominance.{
  is_winner_iff, KeysTell, CarryKeys, Dominates,
}
use deterministic_identity_r.Reconcile.Resolve.FirstLoop.{CanonicalFact-set}
use deterministic_identity_r.Reconcile.Resolve.Sorting.{decision_key}
use deterministic_identity_r.Reconcile.Resolve.Permutation.{resolve_batch-perm, NoCollision}
use deterministic_identity_r.Examples.{ascii, sorting, platform, policy, hired, left}
use deterministic_identity_r.Examples.Engine.{hired_fact, hired_canonical, fact_of, key_of}

abbrev pub left_fact : CanonicalFact
left_fact = fact_of (text "e2") (key_of leave lifecycle 900) leave lifecycle 900 2

pub left_canonical : canonicalize left policy.now ≡ ok left_fact
unfolding canonicalize build_fact hash_envelope make_fact_key parse_event_type parse_source_scope
    text_eq trim_space join to_lower normalize_time is_zero event_type_name source_scope_name
    entries attributes_from_payload attributes_from_values attribute_values collect_attributes
    lookup
left_canonical = refl

abbrev pub both : List CanonicalFact
both = hired_fact ∷ left_fact ∷ []

-- What the projection of the subject is in the end.
abbrev pub on_leave_projection : IdentityProjection
on_leave_projection = apply_fact (apply_fact (or_new (text "u") none) hired_fact) left_fact

abbrev pub batch_result : BatchResult
batch_result = record {
  decisions =
      resolution hired_fact process_now accepted ∷ resolution left_fact process_now accepted ∷ [];
  projections = project both [];
}

pub batch_runs : resolve_batch (hired ∷ left ∷ []) policy ≡ ok batch_result
unfolding resolve_batch collect admit decide_all decide validate is_zero lookup insert text_eq
    winners_of group_facts select_winners is_winner evaluate decide_fact is_pre_cutoff before after
    add negate sub ◌-ℤ◌ ◌+ℤ◌ finish insertion_sort place decision_less accepted_facts fact_less
    text_ltb compare_text freshest compare_freshness normalize_time is_hire source_scope_name
    event_type_name
batch_runs = rw (hired_canonical, left_canonical) refl

of_two :
    {P : Type 0}
    → IsProp P
    → (d : PhysicalEvent) (a : CanonicalFact) → Mem d (hired ∷ left ∷ [])
    → canonicalize d policy.now ≡ ok a
    → (a ≡ hired_fact → P)
    → (a ≡ left_fact → P)
    → P
of_two prop d a m h first second =
    Or.elim prop (mem-cons.0 m) (λ e. first (cc hired_canonical))
      (λ t.
        Or.elim prop (mem-cons.0 t) (λ e. second (cc left_canonical)) (λ n. absurd (not-mem-nil n)))

two-NoCollision : NoCollision policy (hired ∷ left ∷ [])
two-NoCollision d e a b md me hd he key hash fact_key =
    of_two (CanonicalFact-set a b) d a md hd
      (λ x. of_two (CanonicalFact-set a b) e b me he (λ y. x ∙ sym y) (λ y. absurd (ground arith)))
      (λ x. of_two (CanonicalFact-set a b) e b me he (λ y. absurd (ground arith)) (λ y. x ∙ sym y))

resolve_batch-perm_example :
    (t : BatchResult) × (resolve_batch (left ∷ hired ∷ []) policy ≡ ok t)
    × Perm batch_result.decisions t.decisions
    × (map decision_key batch_result.decisions ≡ map decision_key t.decisions)
    × (batch_result.projections ≡ t.projections)
resolve_batch-perm_example =
    resolve_batch-perm policy (hired ∷ left ∷ []) (left ∷ hired ∷ []) {r = batch_result}
      (Perm.swap left hired []) two-NoCollision batch_runs

pub of_both :
    {P : Type 0} {x y : CanonicalFact}
    → IsProp P
    → (a : CanonicalFact) → Mem a (x ∷ y ∷ [])
    → (a ≡ x → P)
    → (a ≡ y → P)
    → P
of_both prop a m first second =
    Or.elim prop (mem-cons.0 m) first
      (λ t. Or.elim prop (mem-cons.0 t) second (λ n. absurd (not-mem-nil n)))

pub both-KeysTell : KeysTell both
both-KeysTell a b ma mb key =
    of_both (CanonicalFact-set a b) a ma
      (λ x. of_both (CanonicalFact-set a b) b mb (λ y. x ∙ sym y) (λ y. absurd (ground arith)))
      (λ x. of_both (CanonicalFact-set a b) b mb (λ y. absurd (ground arith)) (λ y. x ∙ sym y))

texts-prop : (s t : Text) → IsProp (s ≡ t)
texts-prop s t = hlevel ℕ_set

both-CarryKeys : CarryKeys both
both-CarryKeys f m =
    of_both (texts-prop f.freshness.physical_event_key f.event_key) f m (λ x. rw x refl)
      (λ x. rw x refl)

is_winner_iff_example : (is_winner (winners_of both) hired_fact ≡ true) ↔ Dominates both hired_fact
is_winner_iff_example = is_winner_iff both both-KeysTell both-CarryKeys hired_fact mem-cons_self

lookup-project_example :
    lookup (text "u") (project both []) ≡ fold_subject (text "u") both (lookup (text "u") [])
lookup-project_example = lookup-project (text "u") both []

pub projected : lookup (text "u") (project both []) ≡ some on_leave_projection
unfolding lookup project insert text_eq
projected = refl

project-IsCoherent_example :
    IsCoherent (text "u") on_leave_projection
    × (on_leave_projection.lifecycle_state ≡ subject_state (text "u") both unset)
project-IsCoherent_example = project-IsCoherent (text "u") both on_leave_projection projected
