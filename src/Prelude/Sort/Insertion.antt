-- ===== src/Prelude/Sort/Insertion.antt =====
-- Insertion sort, which is what sort.Slice runs on at most twelve elements.
use mathlib.Core.Path.{◌≡◌}
use mathlib.Core.Logic.{inl, inr}
use mathlib.Core.Bool.{Bool, false, Bool-set}
use mathlib.Core.List.{List, [], ◌∷◌, Pairwise, Perm, Mem, forall_mem-cons, Pairwise-singleton}
use mathlib.Core.List.Perm
use deterministic_identity_r.Prelude.Tests.{if◌then◌else◌, Bool-cases}
use deterministic_identity_r.Prelude.Comparison.{IsStrictWeak}
use deterministic_identity_r.Prelude.Sort.Defs.{IsSorted, Sorter}

module _ {A : Type 0} (less : A → A → Bool) where
  -- Past every element that is not above the new one.
  unfoldable pub place : A → List A → List A
  place x [] = x ∷ []
  place x (y ∷ ys) = if less x y then x ∷ y ∷ ys else y ∷ place x ys

  unfoldable pub insertion_sort : List A → List A
  unfolding place
  insertion_sort [] = []
  insertion_sort (x ∷ xs) = place x (insertion_sort xs)

  place-perm : (x : A) (l : List A) → Perm (place x l) (x ∷ l)
  unfolding place
  place-perm x [] = Perm.rfl
  place-perm x (y ∷ ys) = elim (Bool-cases (less x y)) [
    | inl h ↦ rw h Perm.rfl
    | inr h ↦ rw h (Perm.trans (Perm.cons y (place-perm x ys)) (Perm.swap x y ys))
  ]

  pub insertion_sort-perm : (l : List A) → Perm (insertion_sort l) l
  unfolding insertion_sort
  insertion_sort-perm [] = Perm.rfl
  insertion_sort-perm (x ∷ xs) =
      Perm.trans (place-perm x (insertion_sort xs)) (Perm.cons x (insertion_sort-perm xs))

  module _ (o : IsStrictWeak less) where
    all_above :
        {a b : A} {l : List A}
        → less b a ≡ false
        → ((c : A) → Mem c l → less c b ≡ false)
        → (c : A) → Mem c (b ∷ l)
        → less c a ≡ false
    all_above {a} {b} h k =
        (forall_mem-cons {p = λ c. less c a ≡ false} (λ c. Bool-set _ _)).1
          (h, λ c m. o.neg_trans c b a (k c m) h)

    place-IsSorted : (x : A) {l : List A} → IsSorted less l → IsSorted less (place x l)
    unfolding place
    place-IsSorted x Pairwise.nil = Pairwise-singleton _ x
    place-IsSorted x (Pairwise.cons {a = y} {l = ys} below s) = elim (Bool-cases (less x y)) [
      | inl h ↦ rw h (Pairwise.cons (all_above (o.asym x y h) below) (Pairwise.cons below s))
      | inr h ↦ rw h (
          Pairwise.cons
            (λ c m.
              (forall_mem-cons {p = λ c. less c y ≡ false} (λ c. Bool-set _ _)).1 (h, below) c
                ((Perm.mem_iff (place-perm x ys)).0 m))
            (place-IsSorted x s))
    ]

    pub insertion_sort-IsSorted : (l : List A) → IsSorted less (insertion_sort l)
    unfolding insertion_sort
    insertion_sort-IsSorted [] = Pairwise.nil
    insertion_sort-IsSorted (x ∷ xs) = place-IsSorted x (insertion_sort-IsSorted xs)

abbrev pub insertion_sorter : Sorter
insertion_sorter = record {
  sort_slice = insertion_sort;
  sort_slice-perm = insertion_sort-perm;
  sort_slice-IsSorted = insertion_sort-IsSorted;
}
