-- ===== src/Reconcile/Resolve/Deliveries.antt =====
-- Which facts the first loop keeps, and that the order of delivery does not matter to it.
use mathlib.Core.List.{
  append-nil, append_assoc, Mem, mem-append_left, Perm, perm_ext_iff_of_Nodup, perm-append_left_iff,
}
use mathlib.Core.List.Perm
use deterministic_identity_r.Prelude.{
  ◌≡◌, refl, ap, subst, Option, none, some, List, [], ◌∷◌, ◌++◌, arith, ok, >>=-eq-ok,
}
use deterministic_identity_r.Prelude.Dict.{lookup}
use deterministic_identity_r.Reconcile.Model.{CanonicalFact}
use deterministic_identity_r.Reconcile.Resolve.{Collected, admit}
use deterministic_identity_r.Reconcile.Resolve.Dominance.{KeysTell}
use deterministic_identity_r.Reconcile.Resolve.FirstLoop.{
  admit_all, Agrees, Admitted, admit-Admitted,
}

pub admit_all-Admitted :
    (fs done : List CanonicalFact) (c : Collected) {c' : Collected}
    → Admitted done c
    → admit_all fs c ≡ ok c'
    → Admitted (done ++ fs) c'
unfolding admit_all
admit_all-Admitted [] done c {c'} inv h =
    rw (append-nil done) (subst (Admitted done) (ground arith) inv)
admit_all-Admitted (f ∷ fs) done c {c'} inv h =
    let (d, e, k) = >>=-eq-ok (admit f c) (λ c'. admit_all fs c') h in
    let rest =
      admit_all-Admitted fs (done ++ (f ∷ [])) d {c' = c'} (admit-Admitted done c f inv e) k in
    rw (append_assoc done (f ∷ []) fs) at rest

-- Facts with one event key, one hash and one fact key are one fact.
abbrev pub HashesTell : List CanonicalFact → Type 0
HashesTell l =
    (a b : CanonicalFact)
    → Mem a l
    → Mem b l
    → a.event_key ≡ b.event_key
    → a.payload_hash ≡ b.payload_hash
    → a.fact_key ≡ b.fact_key
    → a ≡ b

module _ (fs : List CanonicalFact) (c : Collected) (inv : Admitted fs c) where
  recorded :
      (f : CanonicalFact) (o : Option CanonicalFact)
      → lookup f.event_key c.seen ≡ o
      → Agrees o f
      → (g : CanonicalFact) × (lookup f.event_key c.seen ≡ some g) × Agrees (some g) f
  recorded f none e a = absurd a
  recorded f (some g) e a = (g, e, a)

  -- The recorded fact of a delivery.
  pub record_of :
      (f : CanonicalFact)
      → Mem f fs
      → (g : CanonicalFact) × (lookup f.event_key c.seen ≡ some g) × Agrees (some g) f
  record_of f m = recorded f _ refl (inv.covered f m)

  pub mem_of_kept : (f : CanonicalFact) → Mem f c.facts → Mem f fs
  mem_of_kept f m = (Perm.mem_iff inv.split).0 (mem-append_left inv.repeats m)

  -- A batch that goes through has one fact for each event key.
  pub KeysTell-of_HashesTell : HashesTell fs → KeysTell fs
  KeysTell-of_HashesTell tell a b ma mb e =
      let (g, seen_a, same_a) = record_of a ma in
      let (h, seen_b, same_b) = record_of b mb in
      let one : g ≡ h = ground (arith, ap (λ k. lookup k c.seen) e) in tell a b ma mb e (cc) (cc)

  module _ (tell : KeysTell fs) where
    -- Every delivered fact is kept once.
    pub kept_of_mem : (f : CanonicalFact) → Mem f fs → Mem f c.facts
    kept_of_mem f m =
        let (g, seen, same) = record_of f m in
        let kept = (inv.found f.event_key g seen).0 in
        subst (λ x. Mem x c.facts) (tell g f (mem_of_kept g kept) m same.0) kept

    pub KeysTell-kept : KeysTell c.facts
    KeysTell-kept a b ma mb e = tell a b (mem_of_kept a ma) (mem_of_kept b mb) e

pub KeysTell-of_perm : {fs gs : List CanonicalFact} → Perm fs gs → KeysTell fs → KeysTell gs
KeysTell-of_perm p tell a b ma mb e = tell a b ((Perm.mem_iff p).1 ma) ((Perm.mem_iff p).1 mb) e

-- Two rearrangements of a batch keep the same facts and drop the same repeats.
module _ (fs gs : List CanonicalFact) (c d : Collected) (p : Perm fs gs) (tell : KeysTell fs)
    (left : Admitted fs c) (right : Admitted gs d) where
  pub kept-perm : Perm c.facts d.facts
  kept-perm = (perm_ext_iff_of_Nodup left.distinct right.distinct).1 λ f. (
    λ m.
        kept_of_mem gs d right (KeysTell-of_perm p tell) f
          ((Perm.mem_iff p).0 (mem_of_kept fs c left f m)),
    λ m. kept_of_mem fs c left tell f ((Perm.mem_iff p).1 (mem_of_kept gs d right f m)),
  )

  pub repeats-perm : Perm left.repeats right.repeats
  repeats-perm = (perm-append_left_iff c.facts).0 (
      Perm.trans left.split (
        Perm.trans p (
          Perm.trans (Perm.symm right.split)
            (Perm.append_right right.repeats (Perm.symm kept-perm)))))
