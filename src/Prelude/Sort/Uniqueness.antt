-- ===== src/Prelude/Sort/Uniqueness.antt =====
-- A list has one rearrangement in order, if the order tells its elements apart.
use mathlib.Core.Path.{◌≡◌, ap₂}
use mathlib.Core.Logic.{inl, inr}
use mathlib.Core.Bool.{Bool, false, Bool-set}
use mathlib.Core.List.{
  List, [], ◌∷◌, Pairwise, Perm, Mem, forall_mem-cons, mem-cons_self, mem-cons_of_mem,
}
use mathlib.Core.List.Perm
use mathlib.Core.List.Pairwise
use deterministic_identity_r.Prelude.Tests.{Bool-cases}
use deterministic_identity_r.Prelude.Comparison.{IsStrictWeak}
use deterministic_identity_r.Prelude.Sort.Defs.{IsSorted, Sorter}

-- Elements of the list that the order does not tell apart are equal.
abbrev pub TellsApart : {A : Type 0} → (A → A → Bool) → List A → Type 0
TellsApart {A} less l = (a b : A) → Mem a l → Mem b l → less a b ≡ false → less b a ≡ false → a ≡ b

module _ {A : Type 0} {less : A → A → Bool} (o : IsStrictWeak less) where
  irrefl : (a : A) → less a a ≡ false
  irrefl a = elim (Bool-cases (less a a)) [ inl h ↦ o.asym a a h | inr h ↦ h ]

  head_lowest :
      {b : A} {l : List A} → IsSorted less (b ∷ l) → (a : A) → Mem a (b ∷ l) → less a b ≡ false
  head_lowest {b} (Pairwise.cons below s) =
      (forall_mem-cons {p = λ c. less c b ≡ false} (λ c. Bool-set _ _)).1 (irrefl b, below)

  pub IsSorted-eq_of_perm :
      {l r : List A} → TellsApart less l → IsSorted less l → IsSorted less r → Perm l r → l ≡ r
  IsSorted-eq_of_perm {l = []} _ _ _ p = Perm.nil-eq p
  IsSorted-eq_of_perm {l = a ∷ l} {r = []} _ _ _ p = Perm.eq-nil p
  IsSorted-eq_of_perm {l = a ∷ l} {r = b ∷ r} t sl sr p =
      let in_left = (Perm.mem_iff p).1 mem-cons_self in
      let in_right = (Perm.mem_iff p).0 mem-cons_self in
      let heads =
        t a b mem-cons_self in_left (head_lowest sr a in_right) (head_lowest sl b in_left) in
      let tails = Perm.cons_inv (Perm.trans p (Perm.symm (Perm.cons' heads Perm.rfl))) in
      ap₂ ◌∷◌ heads (
        IsSorted-eq_of_perm {l = l}
          (λ c d mc md. t c d (mem-cons_of_mem _ mc) (mem-cons_of_mem _ md)) (Pairwise.of_cons sl)
          (Pairwise.of_cons sr) tails)

-- Sorting forgets the order of its input.
pub sort_slice_of_perm :
    (s : Sorter) {A : Type 0} {less : A → A → Bool}
    → IsStrictWeak less
    → {l r : List A} → TellsApart less l
    → Perm l r
    → s.sort_slice less l ≡ s.sort_slice less r
sort_slice_of_perm s {less = less} o {l} {r} t p =
    IsSorted-eq_of_perm o
      (λ a b ma mb.
        t a b ((Perm.mem_iff (s.sort_slice-perm less l)).0 ma)
          ((Perm.mem_iff (s.sort_slice-perm less l)).0 mb))
      (s.sort_slice-IsSorted less o l) (s.sort_slice-IsSorted less o r)
      (Perm.trans (s.sort_slice-perm less l) (Perm.trans p (Perm.symm (s.sort_slice-perm less r))))
