-- ===== src/Prelude/Text/Case.antt =====
-- Letter case. The map on ASCII is written out; above it the tables of package unicode are a
-- parameter.
use Prim.Native.Nat.{ℕ, ◌+◌}
use mathlib.Core.Bool.{Bool, ◌&&◌}
use mathlib.Core.List.{map}
use deterministic_identity_r.Prelude.Tests.{leb, ltb, if◌then◌else◌}
use deterministic_identity_r.Prelude.Text.Defs.{Text, text_eq}

-- The tables of package unicode for code points from 128 up: `lower` is unicode.ToLower, `fold`
-- a representative of the orbit under unicode.SimpleFold, an ASCII letter in lower case if the
-- orbit has one.
pub record Unicode : Type 0 where
  pub lower : ℕ → ℕ
  pub fold : ℕ → ℕ

unfoldable pub lower_ascii : ℕ → ℕ
lower_ascii c = if leb b'A' c && leb c b'Z' then c + 32 else c

module _ ⦃u : Unicode⦄ where
  unfoldable pub lower_rune : ℕ → ℕ
  unfolding lower_ascii
  lower_rune c = if ltb c 128 then lower_ascii c else u.lower c

  unfoldable pub fold_rune : ℕ → ℕ
  unfolding lower_ascii
  fold_rune c = if ltb c 128 then lower_ascii c else u.fold c

  -- strings.ToLower
  unfoldable pub to_lower : Text → Text
  unfolding lower_rune
  to_lower s = map lower_rune s

  -- strings.EqualFold
  unfoldable pub equal_fold : Text → Text → Bool
  unfolding fold_rune text_eq
  equal_fold s t = text_eq (map fold_rune s) (map fold_rune t)
