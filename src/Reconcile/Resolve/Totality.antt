-- ===== src/Reconcile/Resolve/Totality.antt =====
-- The first loop goes through a batch in which facts with one event key agree.
use mathlib.Core.List.{append_assoc, Mem, mem-cons_self, mem-append_left, mem-append_right}
use deterministic_identity_r.Prelude.{
  ◌≡◌, refl, ap, Option, none, some, List, [], ◌∷◌, ◌++◌, arith, ok,
}
use deterministic_identity_r.Prelude.Text.{text_eq_refl}
use deterministic_identity_r.Prelude.Dict.{lookup}
use deterministic_identity_r.Reconcile.Model.{CanonicalFact}
use deterministic_identity_r.Reconcile.Resolve.{Collected, nothing, admit, admit_seen}
use deterministic_identity_r.Reconcile.Resolve.Dominance.{KeysTell}
use deterministic_identity_r.Reconcile.Resolve.FirstLoop.{
  admit_all, duplicate, Admitted, Admitted-nothing, admit-Admitted,
}
use deterministic_identity_r.Reconcile.Resolve.Deliveries.{mem_of_kept}

-- Facts with one event key have one payload hash and one fact key.
abbrev pub KeysAgree : List CanonicalFact → Type 0
KeysAgree l =
    (a b : CanonicalFact)
    → Mem a l
    → Mem b l
    → a.event_key ≡ b.event_key
    → (a.payload_hash ≡ b.payload_hash) × (a.fact_key ≡ b.fact_key)

pub KeysAgree-of_KeysTell : {l : List CanonicalFact} → KeysTell l → KeysAgree l
KeysAgree-of_KeysTell tell a b ma mb key =
    let same = tell a b ma mb key in
    (ap (λ (x : CanonicalFact). x.payload_hash) same, ap (λ (x : CanonicalFact). x.fact_key) same)

admit_seen_total :
    (o : Option CanonicalFact) (f : CanonicalFact) (c : Collected)
    → ((g : CanonicalFact)
        → o ≡ some g
        → (g.payload_hash ≡ f.payload_hash) × (g.fact_key ≡ f.fact_key))
    → (c' : Collected) × (admit_seen o f c ≡ ok c')
admit_seen_total none f c same = (_, refl)
admit_seen_total (some g) f c same = (
  record c { decisions = c.decisions ++ (duplicate f ∷ []) },
  ground (
    arith,
    (same g refl).0,
    (same g refl).1,
    text_eq_refl f.payload_hash,
    text_eq_refl f.fact_key,
  ),
)

admit_all_total :
    (all rest done : List CanonicalFact) (c : Collected)
    → KeysAgree all
    → Admitted done c
    → ((x : CanonicalFact) → Mem x (done ++ rest) → Mem x all)
    → (c' : Collected) × (admit_all rest c ≡ ok c')
unfolding admit_all admit
admit_all_total all [] done c tell inv inside = (c, refl)
admit_all_total all (f ∷ rest) done c tell inv inside =
    let at_f : Mem f all = inside f (mem-append_right done mem-cons_self) in
    let (d, e) = admit_seen_total (lookup f.event_key c.seen) f c (λ g seen.
      let (kept, key) = inv.found f.event_key g seen in
      tell g f (inside g (mem-append_left (f ∷ rest) (mem_of_kept done c inv g kept))) at_f key) in
    let (c', k) =
      admit_all_total all rest (done ++ (f ∷ [])) d tell (admit-Admitted done c f inv e)
        (λ x m. inside x (rw append_assoc at m)) in
    (c', rw e k)

-- A batch in which facts with one event key agree raises no conflict.
pub admit_all-ok :
    (fs : List CanonicalFact) → KeysAgree fs → (c : Collected) × (admit_all fs nothing ≡ ok c)
admit_all-ok fs tell = admit_all_total fs fs [] nothing tell Admitted-nothing (λ x m. m)
