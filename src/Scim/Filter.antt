-- ===== src/Scim/Filter.antt =====
-- The value of a SCIM filter is read as what it was before escaping.
use deterministic_identity_r.Prelude.{
  ◌≡◌, refl, ℕ, Bool, true, false, ◌==◌, if◌then◌else◌, Option, none, some, [], ◌∷◌, ◌++◌, arith,
}
use deterministic_identity_r.Prelude.Text.{Text}
use deterministic_identity_r.Scim.Names.{replace_all, backslash, quote, escape_filter_value}

-- A character before what is read of the rest.
abbrev pub before_rest : ℕ → Option (Text × Text) → Option (Text × Text)
before_rest c none = none
before_rest c (some (s, rest)) = some (c ∷ s, rest)

-- How a filter parser reads a quoted value: a backslash takes the next character as it is, and
-- the first other quote ends the value. The flag says that a backslash stands before the text.
unfoldable pub read_value : Bool → Text → Option (Text × Text)
read_value escaped [] = none
read_value true (c ∷ s) = before_rest c (read_value false s)
read_value false (c ∷ s) =
    let plain = read_value false s in
    let after_backslash = read_value true s in
    if c == backslash
    then after_backslash
    else if c == quote
    then some ([], s)
    else before_rest c plain

-- The escaped value ends at the quote after it, whatever characters it has, and is read as the
-- value that was escaped: no subject can change the filter around it.
pub read_value-escape_filter_value :
    (value rest : Text)
    → read_value false (escape_filter_value value ++ (quote ∷ rest)) ≡ some (value, rest)
unfolding escape_filter_value replace_all read_value
read_value-escape_filter_value [] rest = refl
read_value-escape_filter_value (c ∷ value) rest =
    ground (arith, read_value-escape_filter_value value rest)
