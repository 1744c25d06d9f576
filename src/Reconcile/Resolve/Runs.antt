-- ===== src/Reconcile/Resolve/Runs.antt =====
-- A run of ResolveBatch that ends well, in parts.
use deterministic_identity_r.Prelude.{◌≡◌, List, [], ◌++◌, map, Result, ok, ◌>>=◌, >>=-eq-ok}
use deterministic_identity_r.Prelude.Text.Case.{Unicode}
use deterministic_identity_r.Prelude.Sort.{Sorter}
use deterministic_identity_r.Reconcile.Model.{
  PhysicalEvent, CanonicalFact, EventResolution, BatchResult, Error,
}
use deterministic_identity_r.Reconcile.Policy.{Policy, validate}
use deterministic_identity_r.Reconcile.Platform.{Platform}
use deterministic_identity_r.Reconcile.Resolve.{
  Collected, nothing, collect, winners_of, is_winner, decide_all, finish, resolve_batch,
}
use deterministic_identity_r.Reconcile.Resolve.FirstLoop.{
  admit_all, duplicate, Admitted, Admitted-nothing,
}
use deterministic_identity_r.Reconcile.Resolve.Deliveries.{admit_all-Admitted}
use deterministic_identity_r.Reconcile.Resolve.Decided.{decision, decide_all-map}
use deterministic_identity_r.Reconcile.Resolve.Verdicts.{
  verdict, collect-admit_all, admit_all-collect,
}

-- The decisions before sorting.
abbrev pub unsorted : Policy → List CanonicalFact → List CanonicalFact → List EventResolution
unsorted policy facts repeats =
    map duplicate repeats ++ map (λ f. decision policy (is_winner (winners_of facts) f) f) facts

module _ ⦃p : Platform⦄ ⦃s : Sorter⦄ ⦃u : Unicode⦄ (policy : Policy) where
  -- The parts of a run of ResolveBatch that ends well.
  pub record Resolved (events : List PhysicalEvent) (r : BatchResult) : Type 0 where
    pub sound : validate policy ≡ ok tt
    pub delivered : List CanonicalFact
    pub verdicts : map (verdict policy) events ≡ map ok delivered
    pub collected : Collected
    pub admitted : Admitted delivered collected
    pub finished : finish (unsorted policy collected.facts admitted.repeats) ≡ r

  pub resolved_of :
      (events : List PhysicalEvent) (fs : List CanonicalFact) (c : Collected)
      → validate policy ≡ ok tt
      → map (verdict policy) events ≡ map ok fs
      → admit_all fs nothing ≡ ok c
      → (inv : Admitted fs c)
      → resolve_batch events policy ≡ ok (finish (unsorted policy c.facts inv.repeats))
  unfolding resolve_batch
  resolved_of events fs c sound vs e inv = rw (
    sound,
    admit_all-collect policy events fs nothing vs,
    e,
    decide_all-map policy sound (winners_of c.facts) c.facts,
    inv.decisions,
  )

  after_collection : Collected → Result Error BatchResult
  after_collection c = decide_all policy (winners_of c.facts) c.facts >>= λ decided.
      ok (finish (c.decisions ++ decided))

  after_validation : List PhysicalEvent → Result Error BatchResult
  after_validation events = collect policy events nothing >>= after_collection

  pub resolve_batch-Resolved :
      (events : List PhysicalEvent) {r : BatchResult}
      → resolve_batch events policy ≡ ok r
      → Resolved events r
  unfolding resolve_batch after_validation after_collection
  resolve_batch-Resolved events {r} h =
      let (t, sound, k) = >>=-eq-ok (validate policy) (λ _. after_validation events) h in
      let (c, e, l) = >>=-eq-ok (collect policy events nothing) (after_collection) k in
      let (fs, vs, a) = collect-admit_all policy events nothing {c' = c} e in
      let inv = admit_all-Admitted fs [] nothing {c' = c} Admitted-nothing a in
      record {
        sound = sound;
        delivered = fs;
        verdicts = vs;
        collected = c;
        admitted = inv;
        finished = cc (resolved_of events fs c sound vs a inv, h);
      }
