-- ===== src/Reconcile/Converge/Equality.antt =====
-- stringMapsEqual decides equality of maps, and StateEquivalent that of what a target shows.
use deterministic_identity_r.Prelude.{
  suc, ◌≡◌, ◌↔◌, ◌⊎◌, refl, sym, ap, ◌∙◌, true, false, if◌then◌else◌, Option, none, some, [], ◌∷◌,
  arith, Bool-cases, inl, inr,
}
use deterministic_identity_r.Prelude.Text.{Text, text_eq, text_eq_iff, text_eq_refl}
use deterministic_identity_r.Prelude.Dict.{Dict, lookup, has_key, IsUnique, SameMap, has_key-lookup}
use deterministic_identity_r.Reconcile.Model.{ObservedState, DesiredState}
use deterministic_identity_r.Reconcile.Converge.{
  length, is_value, all_entries_in, string_maps_equal, state_equivalent,
}

-- The map less a key.
without : Text → Dict Text → Dict Text
without k [] = []
without k ((j, v) ∷ m) = let rest = without k m in if text_eq j k then rest else (j, v) ∷ rest

lookup-without :
    (k j : Text) (m : Dict Text)
    → lookup j (without k m) ≡ (if text_eq k j then none else lookup j m)
unfolding lookup without
lookup-without k j [] = ground arith
lookup-without k j ((i, v) ∷ m) =
    ground (arith, lookup-without k j m, text_eq_iff i k, text_eq_iff i j, text_eq_iff k j)

has_key-without :
    (k j : Text) (m : Dict Text) → has_key j m ≡ false → has_key j (without k m) ≡ false
unfolding has_key without
has_key-without k j [] h = refl
has_key-without k j ((i, v) ∷ m) h = ground (arith, has_key-without k j m)

without-IsUnique : (k : Text) (m : Dict Text) → IsUnique m → IsUnique (without k m)
unfolding without
without-IsUnique k [] u = tt
without-IsUnique k ((i, v) ∷ m) u = elim (Bool-cases (text_eq i k)) [
  | inl e ↦ rw e (without-IsUnique k m u.1)
  | inr e ↦ rw e (has_key-without k i m u.0, without-IsUnique k m u.1)
]

without_absent : (k : Text) (m : Dict Text) → has_key k m ≡ false → without k m ≡ m
unfolding has_key without
without_absent k [] h = refl
without_absent k ((i, v) ∷ m) h = ground (arith, without_absent k m)

length-without :
    (k : Text) (m : Dict Text)
    → IsUnique m
    → has_key k m ≡ true
    → suc (length (without k m)) ≡ length m
unfolding has_key without
length-without k [] u h = cc
length-without k ((i, v) ∷ m) u h = elim (Bool-cases (text_eq i k)) [
  | inl e ↦ rw (e, without_absent k m (rw ((text_eq_iff i k).0 e) at u.0))
  | inr e ↦ ground (arith, length-without k m u.1)
]

all_entries_in-without :
    (k : Text) (l r : Dict Text)
    → has_key k l ≡ false
    → all_entries_in l r ≡ true
    → all_entries_in l (without k r) ≡ true
unfolding has_key all_entries_in
all_entries_in-without k [] r h e = refl
all_entries_in-without k ((j, v) ∷ l) r h e =
    ground
      (arith, all_entries_in-without k l r, lookup-without k j r, text_eq_iff k j, text_eq_iff j k)

lookup_of_is_value : (o : Option Text) (v : Text) → is_value o v ≡ true → o ≡ some v
lookup_of_is_value none v h = cc
lookup_of_is_value (some w) v h = ap some ((text_eq_iff w v).0 h)

SameMap-of_all_entries_in :
    (l r : Dict Text)
    → IsUnique l
    → IsUnique r
    → length l ≡ length r
    → all_entries_in l r ≡ true
    → SameMap l r
unfolding all_entries_in lookup
SameMap-of_all_entries_in [] [] u w n h k = refl
SameMap-of_all_entries_in [] (x ∷ r) u w n h k = absurd (omega arith)
SameMap-of_all_entries_in ((j, v) ∷ l) r u w n h k =
    let found : lookup j r ≡ some v = lookup_of_is_value (lookup j r) v (ground arith) in
    let rest =
      SameMap-of_all_entries_in l (without j r) u.1 (without-IsUnique j r w)
        (omega (arith, length-without j r w (rw (has_key-lookup j r, found) refl)))
        (all_entries_in-without j l r u.0 (ground arith)) k in
    ground (arith, found, rest, lookup-without j k r, text_eq_iff j k)

all_entries_in_of_lookup :
    (l r : Dict Text)
    → IsUnique l
    → ((k : Text) (v : Text) → lookup k l ≡ some v → lookup k r ≡ some v)
    → all_entries_in l r ≡ true
unfolding all_entries_in lookup
all_entries_in_of_lookup [] r u h = refl
all_entries_in_of_lookup ((j, v) ∷ l) r u h = ground (
  arith,
  h j v (rw (text_eq_refl j) refl),
  text_eq_refl v,
  all_entries_in_of_lookup l r u.1
      (λ k w e. h k w (ground (arith, text_eq_iff j k, has_key-lookup j l, e))),
)

lookup_first : (j v : Text) (l : Dict Text) → lookup j ((j, v) ∷ l) ≡ some v
unfolding lookup
lookup_first j v l = rw (text_eq_refl j) refl

lookup_rest :
    (j v : Text) (l r : Dict Text) (k : Text)
    → has_key j l ≡ false
    → lookup k ((j, v) ∷ l) ≡ lookup k r
    → lookup k l ≡ lookup k (without j r)
unfolding lookup
lookup_rest j v l r k absent e =
    ground (arith, lookup-without j k r, text_eq_iff j k, has_key-lookup j l, lookup-none k l)
  where
    lookup-none : (k : Text) (l : Dict Text) → has_key k l ≡ false → lookup k l ≡ none
    lookup-none k l h = ground (arith, has_key-lookup k l)

length_of_SameMap : (l r : Dict Text) → IsUnique l → IsUnique r → SameMap l r → length l ≡ length r
length_of_SameMap [] [] u w h = refl
length_of_SameMap [] ((j, v) ∷ r) u w h =
    absurd (ground (arith, lookup_first j v r, h j, lookup_empty j))
  where
    lookup_empty : (j : Text) → ◌≡◌ {A = Option Text} (lookup j []) none
    lookup_empty j = unfold lookup in refl
length_of_SameMap ((j, v) ∷ l) r u w h =
    let at_j : lookup j r ≡ some v = sym (h j) ∙ lookup_first j v l in
    let present : has_key j r ≡ true = rw (has_key-lookup j r, at_j) refl in
    let rest : length l ≡ length (without j r) =
      length_of_SameMap l (without j r) u.1 (without-IsUnique j r w)
        (λ k. lookup_rest j v l r k u.0 (h k)) in
    omega (arith, length-without j r w present)

-- stringMapsEqual holds exactly of maps with the same values at the same keys, whatever the order
-- of iteration.
pub string_maps_equal_iff :
    (left right : Dict Text)
    → IsUnique left
    → IsUnique right
    → (string_maps_equal left right ≡ true) ↔ SameMap left right
unfolding string_maps_equal
string_maps_equal_iff left right u w = (
  λ h. SameMap-of_all_entries_in left right u w (ground arith) (ground arith),
  λ h. ground (
    arith,
    length_of_SameMap left right u w h,
    all_entries_in_of_lookup left right u (λ k v e. sym (h k) ∙ e),
  ),
)

-- Where two accounts look alike: both absent, or both present with the same enabled flag and the
-- same attributes.
abbrev pub LooksAlike : ObservedState → DesiredState → Type 0
LooksAlike o d =
    ((o.exists ≡ false) × (d.exists ≡ false))
    ⊎ ((o.exists ≡ true)
        × (d.exists ≡ true)
        × (o.enabled ≡ d.enabled)
        × SameMap o.attributes d.attributes)

alike_of :
    (o : ObservedState) (d : DesiredState)
    → (string_maps_equal o.attributes d.attributes ≡ true) ↔ SameMap o.attributes d.attributes
    → state_equivalent o d ≡ true
    → LooksAlike o d
unfolding state_equivalent
alike_of o d maps h = elim (Bool-cases d.exists) [
  | inl e ↦ inr (ground arith, e, ground arith, maps.0 (ground arith))
  | inr e ↦ inl (ground arith, e)
]

of_alike :
    (o : ObservedState) (d : DesiredState)
    → (string_maps_equal o.attributes d.attributes ≡ true) ↔ SameMap o.attributes d.attributes
    → LooksAlike o d
    → state_equivalent o d ≡ true
unfolding state_equivalent
of_alike o d maps (inl (a, b)) = ground arith
of_alike o d maps (inr (a, b, c, e)) = let same = maps.1 e in ground arith

-- StateEquivalent decides whether the target looks as desired.
pub state_equivalent_iff :
    (o : ObservedState) (d : DesiredState)
    → IsUnique o.attributes
    → IsUnique d.attributes
    → (state_equivalent o d ≡ true) ↔ LooksAlike o d
state_equivalent_iff o d u w =
    let maps = string_maps_equal_iff o.attributes d.attributes u w in
    (λ h. alike_of o d maps h, λ h. of_alike o d maps h)
