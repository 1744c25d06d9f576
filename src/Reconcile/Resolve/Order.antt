-- ===== src/Reconcile/Resolve/Order.antt =====
-- The two `less` functions of ResolveBatch are strict weak orders, and say when they tell their
-- arguments apart.
use deterministic_identity_r.Prelude.{◌≡◌, refl, Bool, false, not, if◌then◌else◌, arith, Ordering}
use deterministic_identity_r.Prelude.Text.{
  Text, text_eq, text_ltb, compare_text, compare_text-IsComparison, compare_text-eq,
  text_eq-compare_text,
}
use deterministic_identity_r.Prelude.Comparison.{
  is_lt, then_by, IsComparison, IsStrictWeak, then_by-IsComparison, pull_back-IsComparison,
  is_lt-IsStrictWeak,
}
use deterministic_identity_r.Reconcile.Clock.{
  compare_time, compare_time-IsComparison, before-compare_time, after-compare_time,
}
use deterministic_identity_r.Reconcile.Model.{CanonicalFact, EventResolution, event_type_name}
use deterministic_identity_r.Reconcile.Freshness.{
  compare_freshness, compare_freshness-IsComparison, compare_freshness-eq,
}
use deterministic_identity_r.Reconcile.Resolve.{decision_less, fact_less}

compare_key : Text × Text → Text × Text → Ordering
compare_key a b = then_by (compare_text a.0 b.0) (compare_text a.1 b.1)

-- The `less` of the decisions, on the keys that it reads.
unfoldable pub key_less : Text × Text → Text × Text → Bool
key_less a b = if not (text_eq a.0 b.0) then text_ltb a.0 b.0 else text_ltb a.1 b.1

compare_fact : CanonicalFact → CanonicalFact → Ordering
compare_fact a b = then_by (compare_time a.effective_time b.effective_time) (
    then_by (compare_freshness a.freshness b.freshness) (
      then_by (compare_text (event_type_name a.event_type) (event_type_name b.event_type))
        (compare_text a.event_key b.event_key)))

compare_key-IsComparison : IsComparison compare_key
unfolding compare_key
compare_key-IsComparison =
    then_by-IsComparison
      (pull_back-IsComparison (λ (k : Text × Text). k.0) compare_text-IsComparison)
      (pull_back-IsComparison (λ (k : Text × Text). k.1) compare_text-IsComparison)

compare_fact-IsComparison : IsComparison compare_fact
unfolding compare_fact
compare_fact-IsComparison =
    then_by-IsComparison
      (pull_back-IsComparison (λ (f : CanonicalFact). f.effective_time) compare_time-IsComparison)
      (then_by-IsComparison
        (pull_back-IsComparison (λ (f : CanonicalFact). f.freshness) compare_freshness-IsComparison)
        (then_by-IsComparison
          (pull_back-IsComparison (λ (f : CanonicalFact). event_type_name f.event_type)
            compare_text-IsComparison)
          (pull_back-IsComparison (λ (f : CanonicalFact). f.event_key) compare_text-IsComparison)))

key_less-lt : (a b : Text × Text) → key_less a b ≡ is_lt (compare_key a b)
unfolding key_less compare_key text_ltb
key_less-lt a b = ground (arith, text_eq-compare_text a.0 b.0)

-- The decisions are compared by these keys.
pub decision_less-key_less :
    (a b : EventResolution)
    → decision_less a b ≡ key_less (a.event_key, a.fact_key) (b.event_key, b.fact_key)
unfolding decision_less key_less
decision_less-key_less a b = refl

fact_less-lt : (a b : CanonicalFact) → fact_less a b ≡ is_lt (compare_fact a b)
unfolding fact_less compare_fact text_ltb
fact_less-lt a b = ground (
  arith,
  before-compare_time a.effective_time b.effective_time,
  after-compare_time a.effective_time b.effective_time,
  text_eq-compare_text (event_type_name a.event_type) (event_type_name b.event_type),
)

pub key_less-IsStrictWeak : IsStrictWeak key_less
key_less-IsStrictWeak =
    let o = is_lt-IsStrictWeak compare_key-IsComparison in
    record {
      asym = λ a b. simp key_less-lt (o.asym a b);
      neg_trans = λ a b c. simp key_less-lt (o.neg_trans a b c);
    }

pub decision_less-IsStrictWeak : IsStrictWeak decision_less
decision_less-IsStrictWeak =
    let o = key_less-IsStrictWeak in
    record {
      asym = λ a b.
          simp decision_less-key_less (o.asym (a.event_key, a.fact_key) (b.event_key, b.fact_key));
      neg_trans = λ a b c. simp decision_less-key_less (
          o.neg_trans (a.event_key, a.fact_key) (b.event_key, b.fact_key)
            (c.event_key, c.fact_key));
    }

pub fact_less-IsStrictWeak : IsStrictWeak fact_less
fact_less-IsStrictWeak =
    let o = is_lt-IsStrictWeak compare_fact-IsComparison in
    record {
      asym = λ a b. simp fact_less-lt (o.asym a b);
      neg_trans = λ a b c. simp fact_less-lt (o.neg_trans a b c);
    }

-- Facts that the order does not tell apart have one freshness in every part that it compares.
pub fact_less-neither :
    (a b : CanonicalFact)
    → fact_less a b ≡ false
    → fact_less b a ≡ false
    → a.freshness.physical_event_key ≡ b.freshness.physical_event_key
unfolding compare_fact
fact_less-neither a b h k =
    (compare_freshness-eq a.freshness b.freshness
      (ground (arith, fact_less-lt a b, fact_less-lt b a, compare_fact-IsComparison.flips a b))).3

pub key_less-neither : (a b : Text × Text) → key_less a b ≡ false → key_less b a ≡ false → a ≡ b
unfolding compare_key
key_less-neither a b h k =
    let o = compare_key-IsComparison in
    let first =
      compare_text-eq a.0 b.0 (ground (arith, key_less-lt a b, key_less-lt b a, o.flips a b)) in
    let second =
      compare_text-eq a.1 b.1 (ground (arith, key_less-lt a b, key_less-lt b a, o.flips a b)) in
    cc (first, second)
