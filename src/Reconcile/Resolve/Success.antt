-- ===== src/Reconcile/Resolve/Success.antt =====
-- When ResolveBatch returns a result.
use deterministic_identity_r.Prelude.{◌≡◌, ◌↔◌, ap, List, [], map, ok, arith}
use deterministic_identity_r.Prelude.Text.Case.{Unicode}
use deterministic_identity_r.Prelude.Dict.{lookup}
use deterministic_identity_r.Prelude.Sort.{Sorter}
use deterministic_identity_r.Reconcile.Model.{PhysicalEvent, CanonicalFact, BatchResult}
use deterministic_identity_r.Reconcile.Policy.{Policy, validate}
use deterministic_identity_r.Reconcile.Platform.{Platform}
use deterministic_identity_r.Reconcile.Resolve.{Collected, nothing, finish, resolve_batch}
use deterministic_identity_r.Reconcile.Resolve.FirstLoop.{Admitted, Admitted-nothing}
use deterministic_identity_r.Reconcile.Resolve.Deliveries.{admit_all-Admitted, record_of}
use deterministic_identity_r.Reconcile.Resolve.Totality.{KeysAgree, admit_all-ok}
use deterministic_identity_r.Reconcile.Resolve.Verdicts.{verdict}
use deterministic_identity_r.Reconcile.Resolve.Runs.{unsorted, resolved_of, resolve_batch-Resolved}

-- What the first loop lets through agrees.
Admitted-KeysAgree : (fs : List CanonicalFact) (c : Collected) → Admitted fs c → KeysAgree fs
Admitted-KeysAgree fs c inv a b ma mb key =
    let (g, seen_a, same_a) = record_of fs c inv a ma in
    let (h, seen_b, same_b) = record_of fs c inv b mb in
    let one : g ≡ h = ground (arith, ap (λ k. lookup k c.seen) key) in (cc, cc)

module _ ⦃p : Platform⦄ ⦃s : Sorter⦄ ⦃u : Unicode⦄ (policy : Policy) where
  -- ResolveBatch returns a result exactly if its policy is valid, each event of the batch becomes
  -- a fact, and the facts with one event key agree in payload hash and fact key.
  pub resolve_batch-ok_iff :
      (events : List PhysicalEvent)
      → ((r : BatchResult) × (resolve_batch events policy ≡ ok r)) ↔ (
          (validate policy ≡ ok tt)
          × (fs : List CanonicalFact) × (map (verdict policy) events ≡ map ok fs)
          × KeysAgree fs)
  resolve_batch-ok_iff events = (
    λ (r, h).
        let run = resolve_batch-Resolved policy events h in
        (
          run.sound,
          run.delivered,
          run.verdicts,
          Admitted-KeysAgree run.delivered run.collected run.admitted,
        ),
    λ (sound, fs, vs, agree).
        let (c, e) = admit_all-ok fs agree in
        let inv = admit_all-Admitted fs [] nothing {c' = c} Admitted-nothing e in
        (
          finish (unsorted policy c.facts inv.repeats),
          resolved_of policy events fs c sound vs e inv,
        ),
  )
