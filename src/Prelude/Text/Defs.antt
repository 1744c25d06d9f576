-- ===== src/Prelude/Text/Defs.antt =====
-- Texts, their order and their equality: strings.Compare, `<` and `==` of Go.
use Prim.Native.Nat.{ℕ, compare}
use mathlib.Core.Bool.{Bool, true, false, ◌&&◌}
use mathlib.Core.List.{List, [], ◌∷◌}
use deterministic_identity_r.Prelude.Tests.{◌==◌}
use deterministic_identity_r.Prelude.Comparison.{Ordering, lt, eq, gt, is_lt, then_by}

abbrev pub Text : Type 0
Text = List ℕ

unfoldable pub compare_text : Text → Text → Ordering
compare_text [] [] = eq
compare_text [] (d ∷ t) = lt
compare_text (c ∷ s) [] = gt
compare_text (c ∷ s) (d ∷ t) = then_by (compare c d) (compare_text s t)

unfoldable pub text_ltb : Text → Text → Bool
unfolding compare_text
text_ltb s t = is_lt (compare_text s t)

unfoldable pub text_eq : Text → Text → Bool
text_eq [] [] = true
text_eq [] (d ∷ t) = false
text_eq (c ∷ s) [] = false
text_eq (c ∷ s) (d ∷ t) = c == d && text_eq s t
