-- ===== src/Prelude/Comparison.antt =====
-- Three-way comparisons, their laws, and lexicographic composition. Go's -1, 0 and 1 are `lt`,
-- `eq` and `gt`.
use mathlib.Core.Path.{◌≡◌}
use mathlib.Core.Bool.{Bool, true, false}
use native.Mathlib.Omega.{arith}
pub use Prim.Native.Nat.{Ordering}
pub use Prim.Native.Nat.Ordering.{lt, eq, gt}

abbrev pub is_lt : Ordering → Bool
is_lt lt = true
is_lt eq = false
is_lt gt = false

abbrev pub is_eq : Ordering → Bool
is_eq lt = false
is_eq eq = true
is_eq gt = false

abbrev pub is_gt : Ordering → Bool
is_gt lt = false
is_gt eq = false
is_gt gt = true

abbrev pub flip : Ordering → Ordering
flip lt = gt
flip eq = eq
flip gt = lt

-- The second comparison breaks the ties of the first.
abbrev pub then_by : Ordering → Ordering → Ordering
then_by lt o = lt
then_by eq o = o
then_by gt o = gt

-- A three-way comparison of a total preorder.
pub record IsComparison {ℓ} {A : Type ℓ} (cmp : A → A → Ordering) : Type ℓ where
  pub flips : (a b : A) → cmp b a ≡ flip (cmp a b)
  pub same : (a b c : A) → cmp a b ≡ eq → cmp a c ≡ cmp b c
  pub trans : (a b c : A) → cmp a b ≡ lt → cmp b c ≡ lt → cmp a c ≡ lt

-- What sorting asks of a `less`: no two elements are below one another, and if a is not below b
-- and b not below c, then a is not below c.
pub record IsStrictWeak {ℓ} {A : Type ℓ} (less : A → A → Bool) : Type ℓ where
  pub asym : (a b : A) → less a b ≡ true → less b a ≡ false
  pub neg_trans : (a b c : A) → less a b ≡ false → less b c ≡ false → less a c ≡ false

module _ {ℓ} {A : Type ℓ} {cmp : A → A → Ordering} (o : IsComparison cmp) where
  pub is_lt-IsStrictWeak : IsStrictWeak (λ a b. is_lt (cmp a b))
  is_lt-IsStrictWeak = record {
    asym = λ a b h. ground (arith, o.flips a b);
    neg_trans = λ a b c h k.
        ground
          (arith, o.flips a b, o.flips b c, o.flips a c, o.same a b c, o.same c b a, o.trans c b a);
  }

  pub cmp_refl : (a : A) → cmp a a ≡ eq
  cmp_refl a = ground (arith, o.flips a a)

-- Comparison by a key.
pub pull_back-IsComparison {ℓ κ} :
    {A : Type ℓ} {B : Type κ} {cmp : B → B → Ordering} (f : A → B)
    → IsComparison cmp
    → IsComparison (λ (a b : A). cmp (f a) (f b))
pull_back-IsComparison f o = record {
  flips = λ a b. o.flips (f a) (f b);
  same = λ a b c. o.same (f a) (f b) (f c);
  trans = λ a b c. o.trans (f a) (f b) (f c);
}

-- Lexicographic composition of two comparisons is one.
pub then_by-IsComparison {ℓ} :
    {A : Type ℓ} {first second : A → A → Ordering}
    → IsComparison first
    → IsComparison second
    → IsComparison (λ a b. then_by (first a b) (second a b))
then_by-IsComparison o p = record {
  flips = λ a b. ground (arith, o.flips a b, p.flips a b);
  same = λ a b c h. ground (arith, o.same a b c, p.same a b c);
  trans = λ a b c h k. ground (
    arith,
    o.flips a b,
    o.flips b c,
    o.flips a c,
    o.same a b c,
    o.same b c a,
    o.same c b a,
    o.trans a b c,
    p.trans a b c,
  );
}
