-- ===== src/Reconcile/Resolve/Sorting.antt =====
-- The order of the decisions.
use mathlib.Core.List.{Perm}
use mathlib.Core.List.Perm
use mathlib.Core.List.Pairwise
use mathlib.Core.Bool.{Bool-set}
use deterministic_identity_r.Prelude.{◌≡◌, false, List, map}
use deterministic_identity_r.Prelude.Text.{Text}
use deterministic_identity_r.Prelude.Sort.{Sorter, IsSorted}
use deterministic_identity_r.Prelude.Sort.Uniqueness.{IsSorted-eq_of_perm}
use deterministic_identity_r.Reconcile.Model.{EventResolution}
use deterministic_identity_r.Reconcile.Resolve.{decision_less}
use deterministic_identity_r.Reconcile.Resolve.Order.{
  decision_less-IsStrictWeak, key_less, key_less-IsStrictWeak, key_less-neither,
}

-- What the order of decisions goes by.
abbrev pub decision_key : EventResolution → Text × Text
decision_key d = (d.event_key, d.fact_key)

IsSorted-keys :
    (l : List EventResolution) → IsSorted decision_less l → IsSorted key_less (map decision_key l)
unfolding key_less decision_less
IsSorted-keys l s =
    Pairwise.map' {S = λ a b. key_less b a ≡ false} decision_key (λ a b. Bool-set _ _) s

-- Two sorted rearrangements have the same keys in the same order.
pub keys_of_perm :
    (s : Sorter) {ds es : List EventResolution}
    → Perm (s.sort_slice decision_less ds) (s.sort_slice decision_less es)
    → map decision_key (s.sort_slice decision_less ds)
      ≡ map decision_key (s.sort_slice decision_less es)
keys_of_perm s {ds} {es} p =
    IsSorted-eq_of_perm key_less-IsStrictWeak (λ a b _ _ h k. key_less-neither a b h k)
      (IsSorted-keys _ (s.sort_slice-IsSorted decision_less decision_less-IsStrictWeak ds))
      (IsSorted-keys _ (s.sort_slice-IsSorted decision_less decision_less-IsStrictWeak es))
      (Perm.map decision_key p)
