-- ===== src/Prelude/Dict/Entries.antt =====
-- One Go map in two orders of iteration: the same values at the same keys.
use mathlib.Core.Path.{◌≡◌}
use mathlib.Core.Logic.{inl, inr}
use mathlib.Core.Logic.Or
use mathlib.Core.Bool.{true, Bool-set}
use mathlib.Core.List.{
  [], ◌∷◌, Mem, Perm, Nodup, Nodup-nil, Nodup-cons, mem-cons, mem-cons_self, mem-cons_of_mem,
  not-mem-nil, perm_ext_iff_of_Nodup,
}
use native.Mathlib.Omega.{arith}
use deterministic_identity_r.Prelude.Tests.{Bool-cases}
use deterministic_identity_r.Prelude.Text.{Text, text_eq, text_eq_iff}
use deterministic_identity_r.Prelude.Dict.Defs.{Dict, lookup, has_key, keys}
use deterministic_identity_r.Prelude.Dict.Laws.{IsUnique, has_key-lookup}

-- The same map, whatever the order of its entries.
abbrev pub SameMap {ℓ} : {V : Type ℓ} → Dict V → Dict V → Type ℓ
SameMap m n = (k : Text) → lookup k m ≡ lookup k n

module _ {ℓ} {V : Type ℓ} where
  pub mem_of_has_key : (k : Text) (m : Dict V) → has_key k m ≡ true → Mem k (keys m)
  unfolding has_key keys
  mem_of_has_key k [] h = cc
  mem_of_has_key k ((j, v) ∷ m) h = elim (Bool-cases (text_eq j k)) [
    | inl e ↦ rw ((text_eq_iff j k).0 e) mem-cons_self
    | inr e ↦ mem-cons_of_mem _ (mem_of_has_key k m (ground arith))
  ]

  pub has_key_of_mem : (k : Text) (m : Dict V) → Mem k (keys m) → has_key k m ≡ true
  unfolding has_key keys
  has_key_of_mem k [] h = absurd (not-mem-nil h)
  has_key_of_mem k ((j, v) ∷ m) h =
      Or.elim (Bool-set _ _) (mem-cons.0 h) (λ e. ground (arith, text_eq_iff j k))
        (λ t. ground (arith, has_key_of_mem k m t))

  IsUnique-Nodup : (m : Dict V) → IsUnique m → Nodup (keys m)
  unfolding keys
  IsUnique-Nodup [] u = Nodup-nil
  IsUnique-Nodup ((k, v) ∷ m) u =
      Nodup-cons.1 (λ h. cc (has_key_of_mem k m h, u.0), IsUnique-Nodup m u.1)

  pub keys-perm : (m n : Dict V) → IsUnique m → IsUnique n → SameMap m n → Perm (keys m) (keys n)
  keys-perm m n u w h = (perm_ext_iff_of_Nodup (IsUnique-Nodup m u) (IsUnique-Nodup n w)).1 λ k. (
    λ x.
        mem_of_has_key k n (cc (has_key_of_mem k m x, has_key-lookup k m, has_key-lookup k n, h k)),
    λ x.
        mem_of_has_key k m (cc (has_key_of_mem k n x, has_key-lookup k m, has_key-lookup k n, h k)),
  )
