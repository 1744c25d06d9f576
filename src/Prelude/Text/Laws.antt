-- ===== src/Prelude/Text/Laws.antt =====
-- The order of texts is a total order, and `text_eq` decides equality.
use mathlib.Core.Path.{◌≡◌, refl}
use mathlib.Core.Logic.{◌↔◌, ◌≢◌}
use mathlib.Core.Bool.{true, false}
use mathlib.Core.List.{[], ◌∷◌}
use native.Mathlib.Omega.{arith}
use deterministic_identity_r.Prelude.Comparison.{eq, flip, lt, is_eq, IsComparison}
use deterministic_identity_r.Prelude.Text.Defs.{Text, compare_text, text_eq}

compare_text-flip : (s t : Text) → compare_text t s ≡ flip (compare_text s t)
unfolding compare_text
compare_text-flip [] [] = refl
compare_text-flip [] (d ∷ t) = refl
compare_text-flip (c ∷ s) [] = refl
compare_text-flip (c ∷ s) (d ∷ t) = ground (arith, compare_text-flip s t)

pub compare_text-eq : (s t : Text) → compare_text s t ≡ eq → s ≡ t
unfolding compare_text
compare_text-eq [] [] h = refl
compare_text-eq [] (d ∷ t) h = cc
compare_text-eq (c ∷ s) [] h = cc
compare_text-eq (c ∷ s) (d ∷ t) h = ground (arith, compare_text-eq s t)

compare_text_trans :
    (s t u : Text) → compare_text s t ≡ lt → compare_text t u ≡ lt → compare_text s u ≡ lt
unfolding compare_text
compare_text_trans [] [] u h k = cc
compare_text_trans [] (d ∷ t) [] h k = cc
compare_text_trans [] (d ∷ t) (e ∷ u) h k = refl
compare_text_trans (c ∷ s) [] u h k = cc
compare_text_trans (c ∷ s) (d ∷ t) [] h k = cc
compare_text_trans (c ∷ s) (d ∷ t) (e ∷ u) h k = ground (arith, compare_text_trans s t u)

pub compare_text-IsComparison : IsComparison compare_text
compare_text-IsComparison = record {
  flips = compare_text-flip;
  same = λ s t u h. rw (compare_text-eq s t h) refl;
  trans = compare_text_trans;
}

pub text_eq_refl : (s : Text) → text_eq s s ≡ true
unfolding text_eq
text_eq_refl [] = refl
text_eq_refl (c ∷ s) = ground (arith, text_eq_refl s)

pub text_eq→≡ : (s t : Text) → text_eq s t ≡ true → s ≡ t
unfolding text_eq
text_eq→≡ [] [] h = refl
text_eq→≡ [] (d ∷ t) h = cc
text_eq→≡ (c ∷ s) [] h = cc
text_eq→≡ (c ∷ s) (d ∷ t) h = ground (arith, text_eq→≡ s t)

pub text_eq_iff : (s t : Text) → (text_eq s t ≡ true) ↔ (s ≡ t)
text_eq_iff s t = (text_eq→≡ s t, λ e. rw e (text_eq_refl t))

pub text_eq-false : (s t : Text) → s ≢ t → text_eq s t ≡ false
text_eq-false s t h = ground (arith, text_eq_iff s t)

pub text_eq-compare_text : (s t : Text) → text_eq s t ≡ is_eq (compare_text s t)
unfolding text_eq compare_text
text_eq-compare_text [] [] = refl
text_eq-compare_text [] (d ∷ t) = refl
text_eq-compare_text (c ∷ s) [] = refl
text_eq-compare_text (c ∷ s) (d ∷ t) = ground (arith, text_eq-compare_text s t)
