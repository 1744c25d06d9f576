-- ===== src/Reconcile/Resolve/Coverage.antt =====
-- Each event of a batch gets one decision.
use mathlib.Core.List.{Perm, map-append, perm_append_comm}
use mathlib.Core.List.Perm
use deterministic_identity_r.Prelude.{
  ◌≡◌, refl, ap, subst, ◌∙◌, Bool, true, false, List, [], ◌∷◌, ◌++◌, map, ok,
}
use deterministic_identity_r.Prelude.Text.Case.{Unicode}
use deterministic_identity_r.Prelude.Sort.{Sorter}
use deterministic_identity_r.Reconcile.Model.{
  PhysicalEvent, CanonicalFact, EventResolution, BatchResult,
}
use deterministic_identity_r.Reconcile.Policy.{Policy}
use deterministic_identity_r.Reconcile.Platform.{Platform}
use deterministic_identity_r.Reconcile.Resolve.{
  resolve_batch, finish, decision_less, winners_of, is_winner,
}
use deterministic_identity_r.Reconcile.Resolve.FirstLoop.{duplicate}
use deterministic_identity_r.Reconcile.Resolve.Decided.{decision}
use deterministic_identity_r.Reconcile.Resolve.Verdicts.{verdict}
use deterministic_identity_r.Reconcile.Resolve.Runs.{unsorted, resolve_batch-Resolved}

abbrev pub facts_of : List EventResolution → List CanonicalFact
facts_of decisions = map (λ d. d.fact) decisions

facts-duplicate : (l : List CanonicalFact) → facts_of (map duplicate l) ≡ l
facts-duplicate [] = refl
facts-duplicate (f ∷ l) = ap (λ rest. f ∷ rest) (facts-duplicate l)

fact-decision :
    (policy : Policy) (wins : Bool) (f : CanonicalFact) → (decision policy wins f).fact ≡ f
fact-decision policy true f = refl
fact-decision policy false f = refl

facts-decision :
    (policy : Policy) (wins : CanonicalFact → Bool) (l : List CanonicalFact)
    → facts_of (map (λ f. decision policy (wins f) f) l) ≡ l
facts-decision policy wins [] = refl
facts-decision policy wins (f ∷ l) =
    ap (λ g. g ∷ facts_of (map (λ h. decision policy (wins h) h) l))
      (fact-decision policy (wins f) f)
    ∙ ap (λ rest. f ∷ rest) (facts-decision policy wins l)

facts-unsorted :
    (policy : Policy) (facts repeats : List CanonicalFact)
    → facts_of (unsorted policy facts repeats) ≡ repeats ++ facts
facts-unsorted policy facts repeats =
    map-append (λ (d : EventResolution). d.fact) (map duplicate repeats) _
    ∙ ap (λ l. l ++ facts_of (map (λ f. decision policy (is_winner (winners_of facts) f) f) facts))
        (facts-duplicate repeats)
    ∙ ap (λ l. repeats ++ l) (facts-decision policy (is_winner (winners_of facts)) facts)

module _ ⦃p : Platform⦄ ⦃s : Sorter⦄ ⦃u : Unicode⦄ (policy : Policy) where
  finish-facts : (ds : List EventResolution) → Perm (facts_of (finish ds).decisions) (facts_of ds)
  unfolding finish
  finish-facts ds = Perm.map (λ d. d.fact) (s.sort_slice-perm decision_less ds)

  -- ResolveBatch makes one decision for each event that it is given, duplicates included: the facts
  -- of its decisions are the facts that the events became, each as often as it was delivered, up
  -- to order.
  pub resolve_batch-covers :
      (events : List PhysicalEvent) (r : BatchResult)
      → resolve_batch events policy ≡ ok r
      → (fs : List CanonicalFact) × (map (verdict policy) events ≡ map ok fs)
        × Perm (facts_of r.decisions) fs
  resolve_batch-covers events r h =
      let run = resolve_batch-Resolved policy events {r = r} h in
      let facts = run.collected.facts in
      let repeats = run.admitted.repeats in
      (
        run.delivered,
        run.verdicts,
        subst (λ (x : BatchResult). Perm (facts_of x.decisions) run.delivered) run.finished
            (Perm.trans (finish-facts (unsorted policy facts repeats)) (
              rw (facts-unsorted policy facts repeats)
                (Perm.trans (perm_append_comm repeats facts) run.admitted.split))),
      )
