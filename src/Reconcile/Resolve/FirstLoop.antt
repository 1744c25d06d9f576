-- ===== src/Reconcile/Resolve/FirstLoop.antt =====
-- The first loop of ResolveBatch: it splits the facts into first deliveries and duplicates.
use native.Mathlib.Nat.{ℕ_set}
use mathlib.Core.Logic.Or
use mathlib.Core.List.{
  append_assoc, Mem, mem-cons, mem-cons_self, mem-append, not-mem-nil, Perm, perm_append_singleton,
  Nodup, Nodup-nil, Nodup-cons, map-append, mem-append_left, mem-append_right,
}
use mathlib.Core.List.Perm
use deterministic_identity_r.Prelude.{
  ◌≡◌, refl, subst, Option, none, some, List, [], ◌∷◌, ◌++◌, map, arith, Bool-cases, Option-cases,
  inl, inr, Result, ok, ◌>>=◌,
}
use deterministic_identity_r.Prelude.Text.{Text, text_eq, text_eq_iff, text_eq_refl}
use deterministic_identity_r.Prelude.Dict.{lookup, insert, lookup-insert}
use deterministic_identity_r.Reconcile.Model.{
  CanonicalFact, EventResolution, skip, duplicate_delivery, Error, Fields,
}
use deterministic_identity_r.Reconcile.Resolve.{Collected, nothing, resolution, admit, admit_seen}

Fields-set : IsSet Fields
Fields-set = hlevel ℕ_set

pub CanonicalFact-set : IsSet CanonicalFact
CanonicalFact-set = hlevel (ℕ_set, Fields-set)

-- The loop over facts alone.
unfoldable pub admit_all : List CanonicalFact → Collected → Result Error Collected
admit_all [] c = ok c
admit_all (f ∷ fs) c = admit f c >>= λ c'. admit_all fs c'

abbrev pub duplicate : CanonicalFact → EventResolution
duplicate f = resolution f skip duplicate_delivery

-- A fact of the same content is recorded.
abbrev pub Agrees : Option CanonicalFact → CanonicalFact → Type 0
Agrees none f = ⊥
Agrees (some g) f =
    (g.event_key ≡ f.event_key) × (g.payload_hash ≡ f.payload_hash) × (g.fact_key ≡ f.fact_key)

Agrees-prop : (o : Option CanonicalFact) (f : CanonicalFact) → IsProp (Agrees o f)
Agrees-prop none f = hlevel
Agrees-prop (some g) f = hlevel ℕ_set

-- The loop's invariant: `done` are the facts that it has gone over.
pub record Admitted (done : List CanonicalFact) (c : Collected) : Type 0 where
  pub repeats : List CanonicalFact
  pub decisions : c.decisions ≡ map duplicate repeats
  pub split : Perm (c.facts ++ repeats) done
  pub found :
      (k : Text) (f : CanonicalFact) → lookup k c.seen ≡ some f → Mem f c.facts × (f.event_key ≡ k)
  pub kept : (f : CanonicalFact) → Mem f c.facts → lookup f.event_key c.seen ≡ some f
  pub covered : (f : CanonicalFact) → Mem f done → Agrees (lookup f.event_key c.seen) f
  pub distinct : Nodup c.facts

option_path-prop : (o p : Option CanonicalFact) → IsProp (o ≡ p)
option_path-prop = hlevel CanonicalFact-set

pub Admitted-nothing : Admitted [] nothing
unfolding lookup
Admitted-nothing = record {
  repeats = [];
  decisions = refl;
  split = Perm.rfl;
  found = λ k f h. absurd (ground arith);
  kept = λ f m. absurd (not-mem-nil m);
  covered = λ f m. absurd (not-mem-nil m);
  distinct = Nodup-nil;
}

Nodup-snoc : {A : Type 0} (l : List A) (a : A) → Nodup l → ¬ Mem a l → Nodup (l ++ (a ∷ []))
Nodup-snoc l a n h = Perm.nodup (Perm.symm (perm_append_singleton a l)) (Nodup-cons.1 (h, n))

-- A member of a list with one more element.
mem_snoc :
    {A : Type 0} {P : Type 0}
    → IsProp P
    → (l : List A) (a b : A) → Mem b (l ++ (a ∷ []))
    → (Mem b l → P)
    → (b ≡ a → P)
    → P
mem_snoc {P = P} prop l a b m old new =
    Or.elim prop ((mem-append {s = l} {t = a ∷ []}).0 m) old
      (λ t. Or.elim prop ((mem-cons {b = a} {l = []}).0 t) new (λ n. absurd (not-mem-nil n)))

Agrees-insert :
    (f g : CanonicalFact) (c : Collected)
    → lookup f.event_key c.seen ≡ none
    → Agrees (lookup g.event_key c.seen) g
    → Agrees (lookup g.event_key (insert f.event_key f c.seen)) g
Agrees-insert f g c unseen a = elim (Bool-cases (text_eq f.event_key g.event_key)) [
  | inl e ↦ absurd (rw (← (text_eq_iff f.event_key g.event_key).0 e, unseen) at a)
  | inr e ↦ rw (lookup-insert f.event_key g.event_key f c.seen, e) a
]

module _ (done : List CanonicalFact) (c : Collected) (f : CanonicalFact)
    (inv : Admitted done c) where
  -- A first delivery.
  admit_first :
      lookup f.event_key c.seen ≡ none
      → Admitted
          (done ++ (f ∷ []))
          (record c { facts = c.facts ++ (f ∷ []); seen = insert f.event_key f c.seen })
  admit_first unseen = record {
    repeats = inv.repeats;
    decisions = inv.decisions;
    split =
        Perm.trans (Perm.append_right inv.repeats (perm_append_singleton f c.facts))
          (Perm.trans (Perm.cons f inv.split) (Perm.symm (perm_append_singleton f done)));
    found = found_first;
    kept = kept_first;
    covered = covered_first;
    distinct = Nodup-snoc c.facts f inv.distinct (λ m. absurd (ground (arith, inv.kept f m)));
  }
    where
      found_first :
          (k : Text) (g : CanonicalFact)
          → lookup k (insert f.event_key f c.seen) ≡ some g
          → Mem g (c.facts ++ (f ∷ [])) × (g.event_key ≡ k)
      found_first k g h = elim (Bool-cases (text_eq f.event_key k)) [
        | inl e ↦
            let same : f ≡ g = ground (arith, lookup-insert f.event_key k f c.seen) in
            rw (← same) ((mem-append_right c.facts mem-cons_self), (text_eq_iff f.event_key k).0 e)
        | inr e ↦
            let (m, d) = inv.found k g (ground (arith, lookup-insert f.event_key k f c.seen)) in
            (mem-append_left _ m, d)
      ]

      kept_first :
          (g : CanonicalFact)
          → Mem g (c.facts ++ (f ∷ []))
          → lookup g.event_key (insert f.event_key f c.seen) ≡ some g
      kept_first g m =
          mem_snoc (option_path-prop _ _) c.facts f g m
            (λ t. ground (
              arith,
              inv.kept g t,
              lookup-insert f.event_key g.event_key f c.seen,
              text_eq_iff f.event_key g.event_key,
            ))
            (λ e. rw e (
              ground
                (arith, lookup-insert f.event_key f.event_key f c.seen, text_eq_refl f.event_key)))

      covered_first :
          (g : CanonicalFact)
          → Mem g (done ++ (f ∷ []))
          → Agrees (lookup g.event_key (insert f.event_key f c.seen)) g
      covered_first g m =
          mem_snoc (Agrees-prop _ g) done f g m (λ t. Agrees-insert f g c unseen (inv.covered g t))
            (λ e.
              rw (e, lookup-insert f.event_key f.event_key f c.seen, text_eq_refl f.event_key)
                (refl, refl, refl))

  -- A delivery of a fact that has been seen.
  admit_repeat :
      (g : CanonicalFact)
      → lookup f.event_key c.seen ≡ some g
      → g.payload_hash ≡ f.payload_hash
      → g.fact_key ≡ f.fact_key
      → Admitted (done ++ (f ∷ [])) (record c { decisions = c.decisions ++ (duplicate f ∷ []) })
  admit_repeat g seen hash key = record {
    repeats = inv.repeats ++ (f ∷ []);
    decisions = rw (inv.decisions, map-append);
    split = rw (← append_assoc c.facts inv.repeats (f ∷ [])) (Perm.append_right (f ∷ []) inv.split);
    found = inv.found;
    kept = inv.kept;
    covered = λ h m.
        mem_snoc (Agrees-prop _ h) done f h m (inv.covered h)
          (λ e. rw (e, seen) ((inv.found f.event_key g seen).1, hash, key));
    distinct = inv.distinct;
  }

  same_content :
      (g : CanonicalFact) (c' : Collected)
      → admit_seen (some g) f c ≡ ok c'
      → (g.payload_hash ≡ f.payload_hash)
        × (g.fact_key ≡ f.fact_key)
        × (record c { decisions = c.decisions ++ (duplicate f ∷ []) } ≡ c')
  same_content g c' h =
      ground (arith, text_eq_iff g.payload_hash f.payload_hash, text_eq_iff g.fact_key f.fact_key)

  -- The loop's body keeps the invariant.
  pub admit-Admitted : {c' : Collected} → admit f c ≡ ok c' → Admitted (done ++ (f ∷ [])) c'
  unfolding admit
  admit-Admitted {c'} h = elim (Option-cases (lookup f.event_key c.seen)) [
    | inl unseen ↦ subst (Admitted (done ++ (f ∷ []))) (ground arith) (admit_first unseen)
    | inr (g, seen) ↦
        let same = same_content g c' (rw seen at h) in
        subst (Admitted (done ++ (f ∷ []))) same.2 (admit_repeat g seen same.0 same.1)
  ]
