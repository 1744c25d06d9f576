-- ===== src/Prelude/Text.antt =====
-- The strings of the program as lists of code points. Go compares bytes; on valid UTF-8, which is
-- what JSON decoding and PostgreSQL text give, the order of the bytes is that of the code points.
mod Laws
pub mod Case
pub mod Trim
pub use Laws.*
pub use Prim.Native.String.{String}
use Prim.Native.Char.{code}
use Prim.Native.Nat.{ℕ, compare}
use mathlib.Core.Bool.{Bool, true, false, ◌&&◌, ◌||◌}
use mathlib.Core.List.{List, [], ◌∷◌, ◌++◌}
use deterministic_identity_r.Prelude.Tests.{◌==◌, leb, if◌then◌else◌}
pub use Defs.{Text}
unfoldable pub use Defs.{compare_text, text_eq, text_ltb}
mod Defs

-- A literal.
abbrev pub text : String → Text
text String.[] = []
text (String.◌∷◌ c s) = code c ∷ text s

-- strings.Join(parts, separator)
unfoldable pub join : List Text → Text → Text
join [] separator = []
join (part ∷ []) separator = part
join (part ∷ next ∷ parts) separator = part ++ (separator ++ join (next ∷ parts) separator)

abbrev pub first_prefixed : ℕ → List Text → List Text
first_prefixed c [] = (c ∷ []) ∷ []
first_prefixed c (part ∷ parts) = (c ∷ part) ∷ parts

-- strings.Split(s, separator) with a separator of one ASCII character
unfoldable pub split : ℕ → Text → List Text
split separator [] = [] ∷ []
split separator (c ∷ s) =
    let parts = split separator s in if c == separator then [] ∷ parts else first_prefixed c parts

-- unicode.IsSpace: the white space of Latin-1 and the property White_Space above it.
unfoldable pub is_space : ℕ → Bool
is_space c =
    (leb 9 c && leb c 13)
    || (c == 32)
    || (c == 0x85)
    || (c == 0xa0)
    || (c == 0x1680)
    || (leb 0x2000 c && leb c 0x200a)
    || (c == 0x2028)
    || (c == 0x2029)
    || (c == 0x202f)
    || (c == 0x205f)
    || (c == 0x3000)

unfoldable pub trim_left : Text → Text
unfolding is_space
trim_left [] = []
trim_left (c ∷ s) = if is_space c then trim_left s else c ∷ s

-- A character in front of what is left of the rest: a space goes if nothing is left.
unfoldable pub keep : ℕ → Text → Text
unfolding is_space
keep c [] = if is_space c then [] else c ∷ []
keep c (d ∷ s) = c ∷ d ∷ s

unfoldable pub trim_right : Text → Text
unfolding keep
trim_right [] = []
trim_right (c ∷ s) = keep c (trim_right s)

-- strings.TrimSpace
unfoldable pub trim_space : Text → Text
unfolding trim_left trim_right
trim_space s = trim_right (trim_left s)
