-- ===== src/Reconcile/Freshness.antt =====
-- FreshnessTuple.Compare of model.go and the order that it decides.
use deterministic_identity_r.Prelude.{◌≡◌, if◌then◌else◌, arith, Ordering}
use deterministic_identity_r.Prelude.Int.{ltb_ℤ, compare_ℤ, compare_ℤ-IsComparison, compare_ℤ-eq}
use deterministic_identity_r.Prelude.Text.{compare_text, compare_text-IsComparison, compare_text-eq}
use deterministic_identity_r.Prelude.Comparison.{
  lt, eq, gt, then_by, IsComparison, then_by-IsComparison, pull_back-IsComparison,
}
use deterministic_identity_r.Reconcile.Clock.{
  before, after, compare_time, compare_time-IsComparison, before-compare_time, after-compare_time,
}
use deterministic_identity_r.Reconcile.Model.{FreshnessTuple}

-- FreshnessTuple.Compare: the sequence first, then the modification time, the revision number and
-- the key of the physical event.
unfoldable pub compare_freshness : FreshnessTuple → FreshnessTuple → Ordering
compare_freshness f other =
    if ltb_ℤ f.source_sequence other.source_sequence
    then lt
    else if ltb_ℤ other.source_sequence f.source_sequence
    then gt
    else if before f.modification_time other.modification_time
    then lt
    else if after f.modification_time other.modification_time
    then gt
    else if ltb_ℤ f.revision_number other.revision_number
    then lt
    else if ltb_ℤ other.revision_number f.revision_number
    then gt
    else compare_text f.physical_event_key other.physical_event_key

-- The lexicographic order of docs/specification.md, section 4.
abbrev pub by_sequence : FreshnessTuple → FreshnessTuple → Ordering
by_sequence f g = compare_ℤ f.source_sequence g.source_sequence

abbrev pub by_modification : FreshnessTuple → FreshnessTuple → Ordering
by_modification f g = compare_time f.modification_time g.modification_time

abbrev pub by_revision : FreshnessTuple → FreshnessTuple → Ordering
by_revision f g = compare_ℤ f.revision_number g.revision_number

abbrev pub by_event_key : FreshnessTuple → FreshnessTuple → Ordering
by_event_key f g = compare_text f.physical_event_key g.physical_event_key

abbrev pub lexicographic : FreshnessTuple → FreshnessTuple → Ordering
lexicographic f g =
    then_by (by_sequence f g)
      (then_by (by_modification f g) (then_by (by_revision f g) (by_event_key f g)))

-- The early returns compute the lexicographic composition of four comparisons.
pub compare_freshness-eq-lexicographic :
    (f g : FreshnessTuple) → compare_freshness f g ≡ lexicographic f g
unfolding compare_freshness compare_ℤ
compare_freshness-eq-lexicographic f g = ground (
  arith,
  before-compare_time f.modification_time g.modification_time,
  after-compare_time f.modification_time g.modification_time,
)

lexicographic-IsComparison : IsComparison lexicographic
lexicographic-IsComparison =
    then_by-IsComparison
      (pull_back-IsComparison (λ (f : FreshnessTuple). f.source_sequence) compare_ℤ-IsComparison)
      (then_by-IsComparison
        (pull_back-IsComparison (λ (f : FreshnessTuple). f.modification_time)
          compare_time-IsComparison)
        (then_by-IsComparison
          (pull_back-IsComparison (λ (f : FreshnessTuple). f.revision_number)
            compare_ℤ-IsComparison)
          (pull_back-IsComparison (λ (f : FreshnessTuple). f.physical_event_key)
            compare_text-IsComparison)))

-- The comparison is a total preorder: swapping the operands flips the result, operands that
-- compare equal compare alike with every third, and `lt` is transitive.
pub compare_freshness-IsComparison : IsComparison compare_freshness
compare_freshness-IsComparison = record {
  flips = λ a b. simp compare_freshness-eq-lexicographic (lexicographic-IsComparison.flips a b);
  same = λ a b c. simp compare_freshness-eq-lexicographic (lexicographic-IsComparison.same a b c);
  trans = λ a b c. simp compare_freshness-eq-lexicographic (lexicographic-IsComparison.trans a b c);
}

-- Tuples that compare equal have the same sequence, the same modification instant, the same
-- revision number and the same event key.
pub compare_freshness-eq :
    (f g : FreshnessTuple)
    → compare_freshness f g ≡ eq
    → (f.source_sequence ≡ g.source_sequence)
      × (f.modification_time.wall ≡ g.modification_time.wall)
      × (f.revision_number ≡ g.revision_number)
      × (f.physical_event_key ≡ g.physical_event_key)
unfolding compare_time
compare_freshness-eq f g h = ground (
  arith,
  compare_freshness-eq-lexicographic f g,
  compare_ℤ-eq f.source_sequence g.source_sequence,
  compare_ℤ-eq f.modification_time.wall g.modification_time.wall,
  compare_ℤ-eq f.revision_number g.revision_number,
  compare_text-eq f.physical_event_key g.physical_event_key,
)
