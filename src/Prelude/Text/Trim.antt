-- ===== src/Prelude/Text/Trim.antt =====
-- strings.TrimSpace leaves a trimmed text as it is.
use mathlib.Core.Path.{◌≡◌, refl, ap, ◌∙◌}
use mathlib.Core.Logic.{inl, inr}
use mathlib.Core.Bool.{false}
use mathlib.Core.List.{[], ◌∷◌}
use Prim.Native.Nat.{ℕ}
use deterministic_identity_r.Prelude.Tests.{Bool-cases}
use native.Mathlib.Omega.{arith}
use deterministic_identity_r.Prelude.Text.{Text, is_space, trim_left, trim_right, trim_space, keep}

trim_right-keep : (c : ℕ) (s : Text) → trim_right s ≡ s → trim_right (keep c s) ≡ keep c s
unfolding trim_right keep
trim_right-keep c [] h = ground arith
trim_right-keep c (d ∷ s) h = ap (keep c) h

trim_right_twice : (s : Text) → trim_right (trim_right s) ≡ trim_right s
unfolding trim_right
trim_right_twice [] = refl
trim_right_twice (c ∷ s) = trim_right-keep c (trim_right s) (trim_right_twice s)

-- A text that does not start with a space.
data StartsClean : Text → Type 0 where
  nothing : StartsClean []
  clean : (c : ℕ) (s : Text) → is_space c ≡ false → StartsClean (c ∷ s)

trim_left-StartsClean : (s : Text) → StartsClean (trim_left s)
unfolding trim_left
trim_left-StartsClean [] = nothing
trim_left-StartsClean (c ∷ s) = elim (Bool-cases (is_space c)) [
  | inl space ↦ rw space (trim_left-StartsClean s)
  | inr other ↦ rw other (clean c s other)
]

trim_left-trim_right : (s : Text) → StartsClean s → trim_left (trim_right s) ≡ trim_right s
unfolding trim_left trim_right keep
trim_left-trim_right (_) nothing = refl
trim_left-trim_right (_) (clean c s other) = ground arith

pub trim_space_twice : (s : Text) → trim_space (trim_space s) ≡ trim_space s
unfolding trim_space
trim_space_twice s =
    ap trim_right (trim_left-trim_right (trim_left s) (trim_left-StartsClean s))
    ∙ trim_right_twice (trim_left s)
