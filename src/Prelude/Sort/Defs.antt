-- ===== src/Prelude/Sort/Defs.antt =====
-- sort.Slice as its documentation gives it: some rearrangement that is in order. It need not keep
-- elements in place that the comparison does not tell apart.
use mathlib.Core.Path.{◌≡◌}
use mathlib.Core.Bool.{Bool, false}
use mathlib.Core.List.{List, Pairwise, Perm}
use deterministic_identity_r.Prelude.Comparison.{IsStrictWeak}

-- No element is below one before it.
abbrev pub IsSorted : {A : Type 0} → (A → A → Bool) → List A → Type 0
IsSorted less = Pairwise (λ a b. less b a ≡ false)

pub record Sorter : Type 1 where
  pub sort_slice : {A : Type 0} → (A → A → Bool) → List A → List A
  pub sort_slice-perm : {A : Type 0} (less : A → A → Bool) (l : List A) → Perm (sort_slice less l) l
  pub sort_slice-IsSorted :
      {A : Type 0} (less : A → A → Bool)
      → IsStrictWeak less
      → (l : List A) → IsSorted less (sort_slice less l)
