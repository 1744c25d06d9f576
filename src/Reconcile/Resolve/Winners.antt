-- ===== src/Reconcile/Resolve/Winners.antt =====
-- The grouping and the winner loops pick, for each fact key, the freshest fact.
use mathlib.Core.Logic.Or
use mathlib.Core.Bool.{Bool-set}
use mathlib.Core.List.{
  append-nil, append_assoc, Mem, Mem-prop, mem-cons, mem-cons_self, mem-cons_of_mem, not-mem-nil,
}
use deterministic_identity_r.Prelude.{
  ◌≡◌, refl, ◌∙◌, false, if◌then◌else◌, Option, none, some, List, [], ◌∷◌, ◌++◌, arith, Bool-cases,
  inl, inr,
}
use deterministic_identity_r.Prelude.Comparison.{is_gt}
use deterministic_identity_r.Prelude.Text.{Text, text_eq, text_eq_iff}
use deterministic_identity_r.Prelude.Dict.{
  Dict, lookup, insert, IsUnique, lookup-insert, insert-IsUnique, has_key-lookup, or_else,
}
use deterministic_identity_r.Reconcile.Model.{CanonicalFact}
use deterministic_identity_r.Reconcile.Freshness.{compare_freshness, compare_freshness-IsComparison}
use deterministic_identity_r.Reconcile.Resolve.{
  Group, append_to, group_facts, freshest, select_winners, winners_of,
}

-- The facts with a key, in order.
abbrev pub with_key : Text → List CanonicalFact → List CanonicalFact
with_key k [] = []
with_key k (f ∷ fs) = let rest = with_key k fs in if text_eq f.fact_key k then f ∷ rest else rest

abbrev append_all : Option Group → List CanonicalFact → Option Group
append_all o [] = o
append_all o (f ∷ fs) = append_all (some (append_to o f)) fs

abbrev pub first_group : List CanonicalFact → Option Group
first_group [] = none
first_group (f ∷ fs) = some (f, fs)

abbrev pub best : Option Group → Option CanonicalFact
best none = none
best (some (first, rest)) = some (freshest first rest)

append_all-some :
    (f : CanonicalFact) (fs gs : List CanonicalFact)
    → append_all (some (f, fs)) gs ≡ some (f, fs ++ gs)
append_all-some f fs [] = simp append-nil
append_all-some f fs (g ∷ gs) = append_all-some f (fs ++ (g ∷ [])) gs ∙ simp append_assoc

append_all-none : (gs : List CanonicalFact) → append_all none gs ≡ first_group gs
append_all-none [] = refl
append_all-none (g ∷ gs) = append_all-some g [] gs

lookup-group_facts :
    (k : Text) (facts : List CanonicalFact) (grouped : Dict Group)
    → lookup k (group_facts facts grouped) ≡ append_all (lookup k grouped) (with_key k facts)
unfolding group_facts
lookup-group_facts k [] grouped = refl
lookup-group_facts k (f ∷ fs) grouped =
    let next = insert f.fact_key (append_to (lookup f.fact_key grouped) f) grouped in
    elim (Bool-cases (text_eq f.fact_key k)) [
      | inl e ↦ ground (
        arith,
        lookup-group_facts k fs next,
        text_eq_iff f.fact_key k,
        lookup-insert f.fact_key k (append_to (lookup f.fact_key grouped) f) grouped,
      )
      | inr e ↦ ground (
        arith,
        lookup-group_facts k fs next,
        lookup-insert f.fact_key k (append_to (lookup f.fact_key grouped) f) grouped,
      )
    ]

group_facts-IsUnique :
    (facts : List CanonicalFact) (grouped : Dict Group)
    → IsUnique grouped
    → IsUnique (group_facts facts grouped)
unfolding group_facts
group_facts-IsUnique [] grouped u = u
group_facts-IsUnique (f ∷ fs) grouped u =
    group_facts-IsUnique fs _
      (insert-IsUnique f.fact_key (append_to (lookup f.fact_key grouped) f) grouped u)

lookup-select_winners :
    (k : Text) (grouped : Dict Group) (winners : Dict CanonicalFact)
    → IsUnique grouped
    → lookup k (select_winners grouped winners)
      ≡ or_else (best (lookup k grouped)) (lookup k winners)
unfolding select_winners lookup
lookup-select_winners k [] winners u = refl
lookup-select_winners k ((j, (first, rest)) ∷ grouped) winners u = ground (
  arith,
  lookup-select_winners k grouped (insert j (freshest first rest) winners) u.1,
  lookup-insert j k (freshest first rest) winners,
  text_eq_iff j k,
  has_key-lookup j grouped,
)

lookup_nil_group : (k : Text) → ◌≡◌ {A = Option Group} (lookup k []) none
unfolding lookup
lookup_nil_group k = refl

lookup_nil : (k : Text) → ◌≡◌ {A = Option CanonicalFact} (lookup k []) none
unfolding lookup
lookup_nil k = refl

-- The winner of a fact key is the freshest of the facts with that key.
pub lookup-winners_of :
    (k : Text) (facts : List CanonicalFact)
    → lookup k (winners_of facts) ≡ best (first_group (with_key k facts))
unfolding winners_of
lookup-winners_of k facts = ground (
  arith,
  lookup-select_winners k (group_facts facts []) [] (group_facts-IsUnique facts [] tt),
  lookup-group_facts k facts [],
  lookup_nil_group k,
  append_all-none (with_key k facts),
  lookup_nil k,
)

-- One fact is not fresher than another.
abbrev pub NotFresher : CanonicalFact → CanonicalFact → Type 0
NotFresher f g = is_gt (compare_freshness f.freshness g.freshness) ≡ false

NotFresher-trans : (f g h : CanonicalFact) → NotFresher f g → NotFresher g h → NotFresher f h
NotFresher-trans f g h p q =
    let o = compare_freshness-IsComparison in
    let a = f.freshness in
    let b = g.freshness in
    let c = h.freshness in
    ground (
      arith,
      o.flips a b,
      o.flips b c,
      o.flips a c,
      o.same a b c,
      o.same b c a,
      o.trans a b c,
      o.same b a c,
      o.same c b a,
    )

NotFresher-refl : (f : CanonicalFact) → NotFresher f f
NotFresher-refl f = ground (arith, compare_freshness-IsComparison.flips f.freshness f.freshness)

abbrev fresher : CanonicalFact → CanonicalFact → CanonicalFact
fresher c w = if is_gt (compare_freshness c.freshness w.freshness) then c else w

fresher-ge_left : (c w : CanonicalFact) → NotFresher c (fresher c w)
fresher-ge_left c w = elim (Bool-cases (is_gt (compare_freshness c.freshness w.freshness))) [
  | inl h ↦ rw h (NotFresher-refl c)
  | inr h ↦ rw h h
]

fresher-ge_right : (c w : CanonicalFact) → NotFresher w (fresher c w)
fresher-ge_right c w = elim (Bool-cases (is_gt (compare_freshness c.freshness w.freshness))) [
  | inl h ↦ rw h (ground (arith, compare_freshness-IsComparison.flips w.freshness c.freshness))
  | inr h ↦ rw h (NotFresher-refl w)
]

mem-fresher :
    (c w : CanonicalFact) (rest : List CanonicalFact) (f : CanonicalFact)
    → Mem f (fresher c w ∷ rest)
    → Mem f (w ∷ c ∷ rest)
mem-fresher c w rest f = elim (Bool-cases (is_gt (compare_freshness c.freshness w.freshness))) [
  | inl h ↦ rw h (λ m. mem-cons_of_mem w m)
  | inr h ↦ rw h (λ m.
      Or.elim Mem-prop (mem-cons.0 m) (λ e. rw e mem-cons_self)
        (λ t. mem-cons_of_mem w (mem-cons_of_mem c t)))
]

freshest-ge-start :
    (winner : CanonicalFact) (rest : List CanonicalFact) → NotFresher winner (freshest winner rest)
unfolding freshest
freshest-ge-start w [] = NotFresher-refl w
freshest-ge-start w (c ∷ rest) =
    NotFresher-trans w (fresher c w) (freshest (fresher c w) rest) (fresher-ge_right c w)
      (freshest-ge-start (fresher c w) rest)

freshest-ge-rest :
    (winner : CanonicalFact) (rest : List CanonicalFact) (f : CanonicalFact)
    → Mem f rest
    → NotFresher f (freshest winner rest)
unfolding freshest
freshest-ge-rest w [] f m = absurd (not-mem-nil m)
freshest-ge-rest w (c ∷ rest) f m =
    Or.elim (Bool-set _ _) (mem-cons.0 m)
      (λ e. rw e (
        NotFresher-trans c (fresher c w) (freshest (fresher c w) rest) (fresher-ge_left c w)
          (freshest-ge-start (fresher c w) rest)))
      (λ t. freshest-ge-rest (fresher c w) rest f t)

-- No candidate is fresher than the winner.
pub freshest-ge :
    (first : CanonicalFact) (rest : List CanonicalFact) (f : CanonicalFact)
    → Mem f (first ∷ rest)
    → NotFresher f (freshest first rest)
freshest-ge first rest f m =
    Or.elim (Bool-set _ _) (mem-cons.0 m) (λ e. rw e (freshest-ge-start first rest))
      (λ t. freshest-ge-rest first rest f t)

-- The winner is a candidate.
pub freshest-mem :
    (first : CanonicalFact) (rest : List CanonicalFact) → Mem (freshest first rest) (first ∷ rest)
unfolding freshest
freshest-mem w [] = mem-cons_self
freshest-mem w (c ∷ rest) =
    mem-fresher c w rest (freshest (fresher c w) rest) (freshest-mem (fresher c w) rest)
