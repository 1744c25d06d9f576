-- ===== src/Reconcile/Resolve/Dominance.antt =====
-- A fact wins its group exactly if no fact of the group is fresher.
use mathlib.Core.Logic.Or
use mathlib.Core.Bool.{Bool-set}
use mathlib.Core.List.{Mem, Mem-prop, mem-cons, mem-cons_self, mem-cons_of_mem, not-mem-nil}
use deterministic_identity_r.Prelude.{
  ◌≡◌, ◌↔◌, refl, sym, ap, ◌∙◌, true, some, List, [], ◌∷◌, arith, Bool-cases, inl, inr,
}
use deterministic_identity_r.Prelude.Text.{Text, text_eq, text_eq_iff}
use deterministic_identity_r.Prelude.Dict.{lookup}
use deterministic_identity_r.Reconcile.Model.{CanonicalFact}
use deterministic_identity_r.Reconcile.Freshness.{
  compare_freshness-IsComparison, compare_freshness-eq,
}
use deterministic_identity_r.Reconcile.Resolve.{freshest, winners_of, is_winner}
use deterministic_identity_r.Reconcile.Resolve.Winners.{
  with_key, best, first_group, lookup-winners_of, NotFresher, freshest-ge, freshest-mem,
}

-- Facts of the list with one event key are one fact.
abbrev pub KeysTell : List CanonicalFact → Type 0
KeysTell l = (a b : CanonicalFact) → Mem a l → Mem b l → a.event_key ≡ b.event_key → a ≡ b

-- The freshness tuples of the list carry the event keys.
abbrev pub CarryKeys : List CanonicalFact → Type 0
CarryKeys l = (f : CanonicalFact) → Mem f l → f.freshness.physical_event_key ≡ f.event_key

-- No fact of the list with the same fact key is fresher.
abbrev pub Dominates : List CanonicalFact → CanonicalFact → Type 0
Dominates l f = (g : CanonicalFact) → Mem g l → g.fact_key ≡ f.fact_key → NotFresher g f

mem_of_with_key :
    (k : Text) (l : List CanonicalFact) (f : CanonicalFact) → Mem f (with_key k l) → Mem f l
mem_of_with_key k [] f m = m
mem_of_with_key k (g ∷ l) f m = elim (Bool-cases (text_eq g.fact_key k)) [
  | inl h ↦
      Or.elim Mem-prop (mem-cons.0 (rw h at m)) (λ e. rw e mem-cons_self)
        (λ t. mem-cons_of_mem g (mem_of_with_key k l f t))
  | inr h ↦ mem-cons_of_mem g (mem_of_with_key k l f (rw h at m))
]

fact_key-with_key :
    (k : Text) (l : List CanonicalFact) (f : CanonicalFact)
    → Mem f (with_key k l)
    → text_eq f.fact_key k ≡ true
fact_key-with_key k [] f m = absurd (not-mem-nil m)
fact_key-with_key k (g ∷ l) f m = elim (Bool-cases (text_eq g.fact_key k)) [
  | inl h ↦
      Or.elim (Bool-set _ _) (mem-cons.0 (rw h at m)) (λ e. rw e h) (λ t. fact_key-with_key k l f t)
  | inr h ↦ fact_key-with_key k l f (rw h at m)
]

mem-with_key :
    (k : Text) (l : List CanonicalFact) (f : CanonicalFact)
    → Mem f l
    → f.fact_key ≡ k
    → Mem f (with_key k l)
mem-with_key k [] f m e = m
mem-with_key k (g ∷ l) f m e = elim (Bool-cases (text_eq g.fact_key k)) [
  | inl h ↦ rw h (
      Or.elim Mem-prop (mem-cons.0 m) (λ d. rw d mem-cons_self)
        (λ t. mem-cons_of_mem g (mem-with_key k l f t e)))
  | inr h ↦ rw h (
      Or.elim Mem-prop (mem-cons.0 m)
        (λ d.
          absurd
            (ground (arith, text_eq_iff g.fact_key k, ap (λ (x : CanonicalFact). x.fact_key) d)))
        (λ t. mem-with_key k l f t e))
]

-- What the winner of a fact key is: a fact of the list with that key that none of them exceeds.
pub record IsWinner (facts : List CanonicalFact) (k : Text) (w : CanonicalFact) : Type 0 where
  pub found : lookup k (winners_of facts) ≡ some w
  pub member : Mem w facts
  pub same_key : w.fact_key ≡ k
  pub freshest_of : (g : CanonicalFact) → Mem g facts → g.fact_key ≡ k → NotFresher g w

IsWinner-of_group :
    (facts : List CanonicalFact) (k : Text) (l : List CanonicalFact)
    → with_key k facts ≡ l
    → (f : CanonicalFact) → Mem f l
    → (w : CanonicalFact) × IsWinner facts k w
IsWinner-of_group facts k [] e f m = absurd (not-mem-nil m)
IsWinner-of_group facts k (first ∷ rest) e f m =
    let w = freshest first rest in
    let inside : Mem w (with_key k facts) = rw e (freshest-mem first rest) in
    (
      w,
      record {
        found = lookup-winners_of k facts ∙ ap (λ l. best (first_group l)) e;
        member = mem_of_with_key k facts w inside;
        same_key = (text_eq_iff w.fact_key k).0 (fact_key-with_key k facts w inside);
        freshest_of = λ g n d. freshest-ge first rest g (rw e at (mem-with_key k facts g n d));
      },
    )

-- Every fact of the list has a winner of its key.
pub IsWinner-of_mem :
    (facts : List CanonicalFact) (f : CanonicalFact)
    → Mem f facts
    → (w : CanonicalFact) × IsWinner facts f.fact_key w
IsWinner-of_mem facts f m =
    IsWinner-of_group facts f.fact_key _ refl f (mem-with_key f.fact_key facts f m refl)

equally_fresh :
    (f w : CanonicalFact)
    → NotFresher f w
    → NotFresher w f
    → f.freshness.physical_event_key ≡ w.freshness.physical_event_key
equally_fresh f w p q =
    (compare_freshness-eq f.freshness w.freshness
      (ground (arith, compare_freshness-IsComparison.flips f.freshness w.freshness))).3

module _ (facts : List CanonicalFact) (tell : KeysTell facts) (carry : CarryKeys facts) where
  -- Where the facts of a batch have distinct event keys and their freshness tuples carry these, a
  -- fact is the winner of its group exactly if no fact with its fact key is fresher.
  pub is_winner_iff :
      (f : CanonicalFact)
      → Mem f facts
      → (is_winner (winners_of facts) f ≡ true) ↔ Dominates facts f
  unfolding is_winner
  is_winner_iff f m =
      let (w, won) = IsWinner-of_mem facts f m in
      (
        λ h g n d.
            let same : f ≡ w =
              tell f w m won.member ((text_eq_iff f.event_key w.event_key).0 (rw won.found at h)) in
            rw same (won.freshest_of g n d),
        λ top. rw won.found (
            (text_eq_iff f.event_key w.event_key).1 (
              sym (carry f m)
              ∙ equally_fresh f w (won.freshest_of f m refl) (top w won.member won.same_key)
              ∙ carry w won.member)),
      )
