-- ===== src/Reconcile/Resolve/Verdicts.antt =====
-- The verdicts of Canonicalize on the events of a batch, and the first loop through them.
use native.Mathlib.Nat.{ℕ_set}
use mathlib.Core.Path.{fun_ext}
use mathlib.Core.Logic.Or
use mathlib.Core.Bool.{Bool-set, false≢true}
use mathlib.Core.List.{Mem, mem-cons, mem-cons_self, mem-cons_of_mem, not-mem-nil, Perm, filter_map}
use mathlib.Core.List.Perm
use deterministic_identity_r.Prelude.{
  ◌≡◌, refl, ap, Bool, true, false, Option, none, some, List, [], ◌∷◌, map, Result, ok, err, ◌>>=◌,
  >>=-eq-ok,
}
use deterministic_identity_r.Prelude.Text.{Text}
use deterministic_identity_r.Prelude.Text.Case.{Unicode}
use deterministic_identity_r.Prelude.Sort.{Sorter}
use deterministic_identity_r.Reconcile.Model.{PhysicalEvent, CanonicalFact, Error}
use deterministic_identity_r.Reconcile.Policy.{Policy}
use deterministic_identity_r.Reconcile.Platform.{Platform}
use deterministic_identity_r.Reconcile.Canonicalize.{canonicalize}
use deterministic_identity_r.Reconcile.Canonicalize.Facts.{canonicalize-IsCanonical}
use deterministic_identity_r.Reconcile.Resolve.{Collected, admit, collect, or_canonicalize_failed}
use deterministic_identity_r.Reconcile.Resolve.Dominance.{CarryKeys}
use deterministic_identity_r.Reconcile.Resolve.FirstLoop.{admit_all}

Text-set : IsSet Text
Text-set = hlevel ℕ_set

abbrev fact_of : Result Error CanonicalFact → Option CanonicalFact
fact_of (ok f) = some f
fact_of (err e) = none

abbrev is_ok : Result Error CanonicalFact → Bool
is_ok (ok f) = true
is_ok (err e) = false

facts_of : List (Result Error CanonicalFact) → List CanonicalFact
facts_of = filter_map fact_of

facts_of-map_ok : (fs : List CanonicalFact) → facts_of (map ok fs) ≡ fs
unfolding facts_of filter_map
facts_of-map_ok [] = refl
facts_of-map_ok (f ∷ fs) = ap (◌∷◌ f) (facts_of-map_ok fs)

map_ok-facts_of :
    (rs : List (Result Error CanonicalFact))
    → ((r : Result Error CanonicalFact) → Mem r rs → is_ok r ≡ true)
    → rs ≡ map ok (facts_of rs)
unfolding facts_of filter_map
map_ok-facts_of [] h = refl
map_ok-facts_of (ok f ∷ rs) h =
    ap (◌∷◌ (ok f)) (map_ok-facts_of rs (λ r m. h r (mem-cons_of_mem _ m)))
map_ok-facts_of (err e ∷ rs) h = absurd (false≢true (h (err e) mem-cons_self))

is_ok-map_ok :
    (fs : List CanonicalFact) (r : Result Error CanonicalFact) → Mem r (map ok fs) → is_ok r ≡ true
is_ok-map_ok [] r m = absurd (not-mem-nil m)
is_ok-map_ok (f ∷ fs) r m =
    Or.elim (Bool-set _ _) (mem-cons.0 m) (λ e. rw e refl) (λ t. is_ok-map_ok fs r t)

-- What is a rearrangement of results without error is one itself.
pub map_ok_of_perm :
    (fs : List CanonicalFact) (rs : List (Result Error CanonicalFact))
    → Perm (map ok fs) rs
    → (gs : List CanonicalFact) × (rs ≡ map ok gs) × Perm fs gs
unfolding facts_of
map_ok_of_perm fs rs p = (
  facts_of rs,
  map_ok-facts_of rs (λ r m. is_ok-map_ok fs r ((Perm.mem_iff p).1 m)),
  rw facts_of-map_ok at (Perm.filter_map fact_of p),
)

module _ ⦃p : Platform⦄ ⦃s : Sorter⦄ ⦃u : Unicode⦄ (policy : Policy) where
  abbrev pub verdict : PhysicalEvent → Result Error CanonicalFact
  verdict event = canonicalize event policy.now

  -- A run of the first loop that ends well has canonicalized every event, and admitted the facts.
  pub collect-admit_all :
      (events : List PhysicalEvent) (c : Collected) {c' : Collected}
      → collect policy events c ≡ ok c'
      → (fs : List CanonicalFact) × (map verdict events ≡ map ok fs) × (admit_all fs c ≡ ok c')
  unfolding collect admit_all
  collect-admit_all [] c h = ([], refl, h)
  collect-admit_all (event ∷ events) c {c'} h =
      let (f, e, k) =
        >>=-eq-ok (or_canonicalize_failed event (canonicalize event policy.now))
          (λ fact. admit fact c >>= λ d. collect policy events d) h in
      let (d, a, l) = >>=-eq-ok (admit f c) (λ d. collect policy events d) k in
      let (fs, vs, rest) = collect-admit_all events d {c' = c'} l in
      (f ∷ fs, cc (verdict_of (canonicalize event policy.now) f event e, vs), cc (a, rest))
    where
      verdict_of :
          (r : Result Error CanonicalFact) (f : CanonicalFact) (event : PhysicalEvent)
          → or_canonicalize_failed event r ≡ ok f
          → r ≡ ok f
      verdict_of (ok g) f event e = e
      verdict_of (err x) f event e = cc

  -- The other way round.
  pub admit_all-collect :
      (events : List PhysicalEvent) (fs : List CanonicalFact) (c : Collected)
      → map verdict events ≡ map ok fs
      → collect policy events c ≡ admit_all fs c
  unfolding collect admit_all
  admit_all-collect [] [] c h = refl
  admit_all-collect [] (f ∷ fs) c h = cc
  admit_all-collect (event ∷ events) [] c h = cc
  admit_all-collect (event ∷ events) (f ∷ fs) c h =
      let first : canonicalize event policy.now ≡ ok f = cc in
      rw first (
        ap (λ (g : Collected → Result Error Collected). admit f c >>= g)
          (fun_ext (λ d. admit_all-collect events fs d (cc))))

  -- The facts of a batch carry their event keys in their freshness tuples.
  pub verdicts-CarryKeys :
      (events : List PhysicalEvent) (fs : List CanonicalFact)
      → map verdict events ≡ map ok fs
      → CarryKeys fs
  verdicts-CarryKeys [] [] h f m = absurd (not-mem-nil m)
  verdicts-CarryKeys [] (g ∷ fs) h f m = cc
  verdicts-CarryKeys (event ∷ events) [] h f m = cc
  verdicts-CarryKeys (event ∷ events) (g ∷ fs) h f m =
      let first : canonicalize event policy.now ≡ ok g = cc in
      Or.elim (Text-set _ _) (mem-cons.0 m)
        (λ e.
          rw e ((canonicalize-IsCanonical event policy.now {fact = g} first).physical_event_key))
        (λ t. verdicts-CarryKeys events fs (cc) f t)
