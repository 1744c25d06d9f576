-- ===== src/Examples/Selection.antt =====
-- Two revisions of a hire, upserted with the newer one first.
use mathlib.Core.List.{Mem, mem-cons_self, mem-cons_of_mem}
use mathlib.Core.List.Perm
use deterministic_identity_r.Postgres.Statements.{has_nul, any_nul}
use deterministic_identity_r.Postgres.Facts.{fact_has_nul}
use deterministic_identity_r.Prelude.{
  ◌≡◌, refl, sym, subst, Bool-cases, inl, inr, ◌∙◌, true, false, none, some, List, [], ◌∷◌, ok,
  arith,
}
use deterministic_identity_r.Prelude.Int.{compare_ℤ}
use deterministic_identity_r.Prelude.Text.{text, text_eq, trim_space, join}
use deterministic_identity_r.Prelude.Text.Case.{to_lower}
use deterministic_identity_r.Prelude.Dict.{lookup, insert, has_key}
use deterministic_identity_r.Reconcile.Clock.{normalize_time, is_zero, compare_time}
use deterministic_identity_r.Reconcile.Model.{
  PhysicalEvent, CanonicalFact, hire, hire_snapshot, source_scope_name, event_type_name, entries,
}
use deterministic_identity_r.Reconcile.Freshness.{compare_freshness}
use deterministic_identity_r.Reconcile.Canonicalize.{
  canonicalize, build_fact, hash_envelope, make_fact_key, parse_event_type, parse_source_scope,
}
use deterministic_identity_r.Reconcile.Canonicalize.Attributes.{
  attributes_from_payload, attributes_from_values, attribute_values, collect_attributes,
}
use deterministic_identity_r.Reconcile.Resolve.FirstLoop.{CanonicalFact-set}
use deterministic_identity_r.Reconcile.Canonicalize.Facts.{canonicalize-IsCanonical}
use deterministic_identity_r.Reconcile.Resolve.{
  is_winner, winners_of, group_facts, select_winners, freshest,
}
use deterministic_identity_r.Reconcile.Resolve.Dominance.{KeysTell}
use deterministic_identity_r.Postgres.Tables.{answered, Database, any_column_less}
use deterministic_identity_r.Postgres.Statements.{query_row}
use deterministic_identity_r.Postgres.Physical.{physical_row}
use deterministic_identity_r.Postgres.Facts.{
  fact_allowed, fact_row, write_fact, upsert_onto_fact, upsert_fact, slot_taken,
  upsert_canonical_fact,
}
use deterministic_identity_r.Postgres.Facts.Winners.{IsStorable}
use deterministic_identity_r.Postgres.Facts.Selection.{upserts-winner_row}
use deterministic_identity_r.Examples.{
  ascii, sorting, platform, platform-IsFaithfulFormat, policy, event_of, hired,
}
use deterministic_identity_r.Examples.Engine.{fact_of, key_of, hired_fact, hired_canonical}
use deterministic_identity_r.Examples.Batch.{of_both}
use deterministic_identity_r.Examples.Store.{server, empty}

abbrev again : PhysicalEvent
again = event_of (text "e2") (text "hire") (text "hire_snapshot") 800 2

abbrev again_fact : CanonicalFact
again_fact = fact_of (text "e2") (key_of hire hire_snapshot 800) hire hire_snapshot 800 2

again_canonical : canonicalize again policy.now ≡ ok again_fact
unfolding canonicalize build_fact hash_envelope make_fact_key parse_event_type parse_source_scope
    text_eq trim_space join to_lower normalize_time is_zero event_type_name source_scope_name
    entries attributes_from_payload attributes_from_values attribute_values collect_attributes
    lookup
again_canonical = refl

abbrev revisions : List CanonicalFact
revisions = hired_fact ∷ again_fact ∷ []

abbrev delivered : Database
delivered = record empty {
  physical_events =
      (text "e1", physical_row hired_fact) ∷ (text "e2", physical_row again_fact) ∷ [];
}

abbrev with_again : Database
with_again = record delivered { canonical_facts = (again_fact.fact_key, fact_row again_fact) ∷ [] }

newer_first : upsert_canonical_fact answered again_fact delivered ≡ (with_again, ok true)
unfolding upsert_canonical_fact query_row upsert_fact upsert_onto_fact write_fact slot_taken
    fact_allowed fact_row lookup insert has_key text_eq source_scope_name event_type_name
    any_column_less fact_has_nul has_nul any_nul
newer_first = refl

older_after : upsert_canonical_fact answered hired_fact with_again ≡ (with_again, ok false)
unfolding upsert_canonical_fact query_row upsert_fact upsert_onto_fact write_fact slot_taken
    fact_allowed fact_row lookup insert has_key text_eq source_scope_name event_type_name
    any_column_less fact_has_nul has_nul any_nul
older_after = refl

revisions-KeysTell : KeysTell revisions
revisions-KeysTell a b ma mb key =
    of_both (CanonicalFact-set a b) a ma
      (λ x. of_both (CanonicalFact-set a b) b mb (λ y. x ∙ sym y) (λ y. absurd (ground arith)))
      (λ x. of_both (CanonicalFact-set a b) b mb (λ y. absurd (ground arith)) (λ y. x ∙ sym y))

canonicalize-IsStorable :
    (event : PhysicalEvent) (f : CanonicalFact)
    → canonicalize event policy.now ≡ ok f
    → IsStorable platform-IsFaithfulFormat (λ s t. refl) f
canonicalize-IsStorable event f h = record {
  canonical = canonicalize-IsCanonical event policy.now h;
  in_range = tt;
  kept = refl;
}

revisions-IsStorable :
    (f : CanonicalFact) → Mem f revisions → IsStorable platform-IsFaithfulFormat (λ s t. refl) f
unfolding text_eq
revisions-IsStorable f m = elim (Bool-cases (text_eq f.event_key (text "e1"))) [
  | inl h ↦
      subst (IsStorable platform-IsFaithfulFormat (λ s t. refl))
        (sym (of_both (CanonicalFact-set f hired_fact) f m (λ x. x) (λ x. absurd (ground arith))))
        (canonicalize-IsStorable hired hired_fact hired_canonical)
  | inr h ↦
      subst (IsStorable platform-IsFaithfulFormat (λ s t. refl))
        (sym (of_both (CanonicalFact-set f again_fact) f m (λ x. absurd (ground arith)) (λ x. x)))
        (canonicalize-IsStorable again again_fact again_canonical)
]

again_wins : is_winner (winners_of revisions) again_fact ≡ true
unfolding is_winner winners_of group_facts select_winners freshest compare_freshness compare_time
    compare_ℤ lookup insert text_eq source_scope_name event_type_name
again_wins = refl

no_fact : lookup again_fact.fact_key delivered.canonical_facts ≡ none
unfolding lookup
no_fact = refl

upserts-winner_row_example :
    lookup again_fact.fact_key with_again.canonical_facts ≡ some (fact_row again_fact)
upserts-winner_row_example =
    upserts-winner_row platform-IsFaithfulFormat (λ s t. refl) revisions
      (again_fact ∷ hired_fact ∷ []) again_fact delivered with_again
      (Perm.swap again_fact hired_fact []) revisions-KeysTell revisions-IsStorable
      (mem-cons_of_mem hired_fact mem-cons_self) no_fact
      (true, with_again, newer_first, (false, with_again, older_after, refl)) again_wins
