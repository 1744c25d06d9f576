-- ===== src/Prelude/Dict/Defs.antt =====
-- Reading and writing a map.
use mathlib.Core.Bool.{Bool, true, false}
use mathlib.Core.Option.{Option, none, some}
use mathlib.Core.List.{List, [], ◌∷◌}
use deterministic_identity_r.Prelude.Tests.{if◌then◌else◌}
use deterministic_identity_r.Prelude.Text.{Text, text_eq}

abbrev pub Dict {ℓ} : Type ℓ → Type ℓ
Dict V = List (Text × V)

module _ {ℓ} {V : Type ℓ} where
  -- `v, ok := m[k]`
  unfoldable pub lookup : Text → Dict V → Option V
  unfolding text_eq
  lookup k [] = none
  lookup k ((j, v) ∷ m) = if text_eq j k then some v else lookup k m

  -- `m[k] = v`
  unfoldable pub insert : Text → V → Dict V → Dict V
  unfolding text_eq
  insert k v [] = (k, v) ∷ []
  insert k v ((j, w) ∷ m) = if text_eq j k then (j, v) ∷ m else (j, w) ∷ insert k v m

  -- `_, ok := m[k]`
  unfoldable pub has_key : Text → Dict V → Bool
  unfolding text_eq
  has_key k [] = false
  has_key k ((j, v) ∷ m) = if text_eq j k then true else has_key k m

  unfoldable pub keys : Dict V → List Text
  keys [] = []
  keys ((k, v) ∷ m) = k ∷ keys m

  -- `for k, v := range m { n[k] = v }`
  unfoldable pub insert_all : Dict V → Dict V → Dict V
  unfolding insert
  insert_all [] n = n
  insert_all ((k, v) ∷ m) n = insert_all m (insert k v n)
