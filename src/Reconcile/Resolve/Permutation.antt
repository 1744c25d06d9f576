-- ===== src/Reconcile/Resolve/Permutation.antt =====
-- ResolveBatch does not depend on the order of delivery.
use mathlib.Core.Logic.Or
use mathlib.Core.List.{
  Mem, Mem-prop, mem-cons, mem-cons_of_mem, mem-cons_self, mem-append, mem-append_right,
  not-mem-nil, Perm,
}
use mathlib.Core.List.Perm
use deterministic_identity_r.Prelude.{◌≡◌, subst, List, [], ◌∷◌, map, arith, ok}
use deterministic_identity_r.Prelude.Text.Case.{Unicode}
use deterministic_identity_r.Prelude.Dict.{Dict}
use deterministic_identity_r.Prelude.Sort.{Sorter}
use deterministic_identity_r.Reconcile.Model.{
  PhysicalEvent, CanonicalFact, EventResolution, BatchResult,
}
use deterministic_identity_r.Reconcile.Policy.{Policy}
use deterministic_identity_r.Reconcile.Platform.{Platform}
use deterministic_identity_r.Reconcile.Canonicalize.{canonicalize}
use deterministic_identity_r.Reconcile.Resolve.{
  Collected, nothing, winners_of, is_winner, finish, resolve_batch,
}
use deterministic_identity_r.Reconcile.Resolve.Dominance.{KeysTell, CarryKeys}
use deterministic_identity_r.Reconcile.Resolve.FirstLoop.{
  duplicate, Admitted, Admitted-nothing, CanonicalFact-set,
}
use deterministic_identity_r.Reconcile.Resolve.Deliveries.{
  admit_all-Admitted, HashesTell, KeysTell-of_HashesTell, kept-perm, repeats-perm, mem_of_kept,
  KeysTell-kept, KeysTell-of_perm,
}
use deterministic_identity_r.Reconcile.Resolve.Totality.{admit_all-ok, KeysAgree-of_KeysTell}
use deterministic_identity_r.Reconcile.Resolve.Decided.{decision, decisions-perm}
use deterministic_identity_r.Reconcile.Resolve.Runs.{
  unsorted, Resolved, resolved_of, resolve_batch-Resolved,
}
use deterministic_identity_r.Reconcile.Resolve.Sorting.{decision_key}
use deterministic_identity_r.Reconcile.Resolve.Finish.{Concerns, finish-perm}
use deterministic_identity_r.Reconcile.Resolve.Verdicts.{
  verdict, map_ok_of_perm, verdicts-CarryKeys,
}

mem-map_decision :
    (policy : Policy) (winners : Dict CanonicalFact) (l : List CanonicalFact) (d : EventResolution)
    → Mem d (map (λ f. decision policy (is_winner winners f) f) l)
    → Mem d.fact l
mem-map_decision policy winners [] d m = absurd (not-mem-nil m)
mem-map_decision policy winners (f ∷ l) d m =
    Or.elim Mem-prop (mem-cons.0 m)
      (λ e. rw e (subst (λ g. Mem g (f ∷ l)) (ground arith) mem-cons_self))
      (λ t. mem-cons_of_mem f (mem-map_decision policy winners l d t))

mem-map_duplicate :
    (l : List CanonicalFact) (d : EventResolution) → Mem d (map duplicate l) → Mem d.fact l
mem-map_duplicate [] d m = absurd (not-mem-nil m)
mem-map_duplicate (f ∷ l) d m =
    Or.elim Mem-prop (mem-cons.0 m) (λ e. rw e mem-cons_self)
      (λ t. mem-cons_of_mem f (mem-map_duplicate l d t))

module _ ⦃p : Platform⦄ ⦃s : Sorter⦄ ⦃u : Unicode⦄ (policy : Policy) where
  -- No two events of the batch become different facts with one event key, one payload hash and
  -- one fact key.
  abbrev pub NoCollision : List PhysicalEvent → Type 0
  NoCollision events =
      (d e : PhysicalEvent) (a b : CanonicalFact)
      → Mem d events
      → Mem e events
      → canonicalize d policy.now ≡ ok a
      → canonicalize e policy.now ≡ ok b
      → a.event_key ≡ b.event_key
      → a.payload_hash ≡ b.payload_hash
      → a.fact_key ≡ b.fact_key
      → a ≡ b

  event_of :
      {P : Type 0}
      → IsProp P
      → (events : List PhysicalEvent) (fs : List CanonicalFact)
      → map (verdict policy) events ≡ map ok fs
      → (f : CanonicalFact) → Mem f fs
      → ((e : PhysicalEvent) → Mem e events → canonicalize e policy.now ≡ ok f → P)
      → P
  event_of prop [] [] h f m k = absurd (not-mem-nil m)
  event_of prop [] (g ∷ fs) h f m k = cc
  event_of prop (e ∷ events) [] h f m k = cc
  event_of prop (e ∷ events) (g ∷ fs) h f m k =
      let first : canonicalize e policy.now ≡ ok g = cc in
      Or.elim prop (mem-cons.0 m) (λ same. k e mem-cons_self (rw same first))
        (λ t. event_of prop events fs (cc) f t (λ x n. k x (mem-cons_of_mem e n)))

  HashesTell-of_NoCollision :
      (events : List PhysicalEvent) (fs : List CanonicalFact)
      → map (verdict policy) events ≡ map ok fs
      → NoCollision events
      → HashesTell fs
  HashesTell-of_NoCollision events fs vs clean a b ma mb ek hash key =
      event_of (CanonicalFact-set a b) events fs vs a ma λ d md vd.
        event_of (CanonicalFact-set a b) events fs vs b mb
          λ e me ve. clean d e a b md me vd ve ek hash key

  unsorted-perm :
      (fs gs : List CanonicalFact) (c d : Collected) (p : Perm fs gs)
      → KeysTell fs
      → CarryKeys fs
      → (left : Admitted fs c) (right : Admitted gs d)
      → Perm (unsorted policy c.facts left.repeats) (unsorted policy d.facts right.repeats)
  unsorted-perm fs gs c d p tell carry left right =
      Perm.append (Perm.map duplicate (repeats-perm fs gs c d p tell left right)) (
        decisions-perm c.facts d.facts (kept-perm fs gs c d p tell left right)
          (KeysTell-kept fs c left tell) (λ f m. carry f (mem_of_kept fs c left f m)) policy)

  pub unsorted-Concerns :
      (fs : List CanonicalFact) (c : Collected) (inv : Admitted fs c)
      → Concerns fs (unsorted policy c.facts inv.repeats)
  unsorted-Concerns fs c inv d m =
      Or.elim Mem-prop (mem-append.0 m)
        (λ t.
          (Perm.mem_iff inv.split).0 (mem-append_right c.facts (mem-map_duplicate inv.repeats d t)))
        (λ t.
          mem_of_kept fs c inv d.fact (mem-map_decision policy (winners_of c.facts) c.facts d t))

  -- The run on the rearranged batch.
  rearranged_run :
      (events rearranged : List PhysicalEvent) {r : BatchResult} (run : Resolved policy events r)
      (gs : List CanonicalFact)
      → map (verdict policy) rearranged ≡ map ok gs
      → Perm run.delivered gs
      → KeysTell run.delivered
      → (t : BatchResult) × (resolve_batch rearranged policy ≡ ok t)
        × Perm r.decisions t.decisions
        × (map decision_key r.decisions ≡ map decision_key t.decisions)
        × (r.projections ≡ t.projections)
  rearranged_run events rearranged {r} run gs ws p tell =
      let fs = run.delivered in
      let carry = verdicts-CarryKeys policy events fs run.verdicts in
      let (d, e) = admit_all-ok gs (KeysAgree-of_KeysTell (KeysTell-of_perm p tell)) in
      let inv = admit_all-Admitted gs [] nothing {c' = d} Admitted-nothing e in
      let t = finish (unsorted policy d.facts inv.repeats) in
      let same =
        subst
          (λ (x : BatchResult).
            Perm x.decisions t.decisions
            × (map decision_key x.decisions ≡ map decision_key t.decisions)
            × (x.projections ≡ t.projections))
          run.finished
          (finish-perm fs _ (unsorted policy d.facts inv.repeats) tell carry
            (unsorted-Concerns fs run.collected run.admitted)
            (unsorted-perm fs gs run.collected d p tell carry run.admitted inv)) in
      (t, resolved_of policy rearranged gs d run.sound ws e inv, same.0, same.1, same.2)

  -- A batch that goes through in one order of delivery goes through in every other, with the same
  -- decisions, whose event keys and fact keys come in the same order, and with the same
  -- projections, whatever sort.Slice does among elements that its comparison does not tell apart,
  -- if no two events collide in event key, payload hash and fact key.
  pub resolve_batch-perm :
      (events rearranged : List PhysicalEvent) {r : BatchResult}
      → Perm events rearranged
      → NoCollision events
      → resolve_batch events policy ≡ ok r
      → (t : BatchResult) × (resolve_batch rearranged policy ≡ ok t)
        × Perm r.decisions t.decisions
        × (map decision_key r.decisions ≡ map decision_key t.decisions)
        × (r.projections ≡ t.projections)
  resolve_batch-perm events rearranged {r} q clean h =
      let run = resolve_batch-Resolved policy events {r = r} h in
      let (gs, ws, p) =
        map_ok_of_perm run.delivered (map (verdict policy) rearranged)
          (rw run.verdicts at (Perm.map (verdict policy) q)) in
      rearranged_run events rearranged run gs ws p (
        KeysTell-of_HashesTell run.delivered run.collected run.admitted
          (HashesTell-of_NoCollision events run.delivered run.verdicts clean))
