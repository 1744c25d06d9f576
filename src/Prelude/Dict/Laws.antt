-- ===== src/Prelude/Dict/Laws.antt =====
-- What reading a map after a write gives.
use mathlib.Core.Path.{◌≡◌, refl}
use mathlib.Core.Bool.{Bool, true, false}
use mathlib.Core.Option.{Option, none, some}
use mathlib.Core.List.{[], ◌∷◌}
use native.Mathlib.Omega.{arith}
use deterministic_identity_r.Prelude.Tests.{if◌then◌else◌}
use deterministic_identity_r.Prelude.Text.{Text, text_eq, text_eq_iff}
use deterministic_identity_r.Prelude.Dict.Defs.{Dict, lookup, insert, has_key, insert_all}

-- An option as a first choice.
abbrev pub or_else {ℓ} : {A : Type ℓ} → Option A → Option A → Option A
or_else none d = d
or_else (some a) d = some a

abbrev pub is_some {ℓ} : {A : Type ℓ} → Option A → Bool
is_some none = false
is_some (some a) = true

-- No key is bound twice.
abbrev pub IsUnique {ℓ} : {V : Type ℓ} → Dict V → Type 0
IsUnique [] = Unit {0}
IsUnique ((k, v) ∷ m) = (has_key k m ≡ false) × IsUnique m

module _ {ℓ} {V : Type ℓ} where
  pub lookup-insert :
      (k j : Text) (v : V) (m : Dict V)
      → lookup j (insert k v m) ≡ (if text_eq k j then some v else lookup j m)
  unfolding lookup insert
  lookup-insert k j v [] = refl
  lookup-insert k j v ((i, w) ∷ m) =
      ground (arith, text_eq_iff k j, text_eq_iff i k, text_eq_iff i j, lookup-insert k j v m)

  pub has_key-lookup : (k : Text) (m : Dict V) → has_key k m ≡ is_some (lookup k m)
  unfolding lookup has_key
  has_key-lookup k [] = refl
  has_key-lookup k ((j, v) ∷ m) = ground (arith, has_key-lookup k m)

  pub has_key-insert :
      (k j : Text) (v : V) (m : Dict V)
      → has_key j (insert k v m) ≡ (if text_eq k j then true else has_key j m)
  unfolding has_key insert
  has_key-insert k j v [] = refl
  has_key-insert k j v ((i, w) ∷ m) =
      ground (arith, text_eq_iff k j, text_eq_iff i k, text_eq_iff i j, has_key-insert k j v m)

  pub insert-IsUnique : (k : Text) (v : V) (m : Dict V) → IsUnique m → IsUnique (insert k v m)
  unfolding insert
  insert-IsUnique k v [] h = (unfold has_key in refl, tt)
  insert-IsUnique k v ((i, w) ∷ m) h =
      ground
        (arith, text_eq_iff i k, text_eq_iff k i, has_key-insert k i v m, insert-IsUnique k v m)

  -- A later map wins over an earlier one.
  pub lookup-insert_all :
      (j : Text) (m n : Dict V)
      → IsUnique m
      → lookup j (insert_all m n) ≡ or_else (lookup j m) (lookup j n)
  unfolding lookup insert_all
  lookup-insert_all j [] n h = refl
  lookup-insert_all j ((k, v) ∷ m) n h = ground (
    arith,
    lookup-insert_all j m (insert k v n) h.1,
    lookup-insert k j v n,
    text_eq_iff k j,
    has_key-lookup k m,
  )
