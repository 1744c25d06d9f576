-- ===== src/Scim/Responses/Order.antt =====
-- The order in which Go ranges over a decoded resource does not show in what the adapter reads.
use native.Mathlib.Nat.{ℕ_set}
use mathlib.Core.Path.{fun_ext}
use mathlib.Core.Logic.{∥∥₁_elim}
use mathlib.Core.List.{Perm, Permᴰ}
use deterministic_identity_r.Prelude.{
  ◌≡◌, refl, ap, ◌∙◌, Option, none, some, [], ◌∷◌, Result, ◌>>=◌, arith,
}
use deterministic_identity_r.Prelude.Text.{Text, text}
use deterministic_identity_r.Prelude.Text.Case.{Unicode}
use deterministic_identity_r.Prelude.Dict.{Dict}
use deterministic_identity_r.Reconcile.Model.{Value}
use deterministic_identity_r.Scim.Responses.{
  Resource, ScimError, response_attribute_from, response_attribute, resource_id, resource_version,
  scim_active, managed_values, put_scalar, scalar_string, observed_of,
}

found-set : IsSet (Result ScimError (Option Value))
found-set = hlevel ℕ_set

module _ ⦃u : Unicode⦄ where
  abbrev Agree : Text → Resource → Resource → Type 0
  Agree attribute l m =
      (found : Option Value)
      → response_attribute_from l attribute found ≡ response_attribute_from m attribute found

  cons-Agree :
      (attribute : Text) (entry : Text × Value) (l m : Resource)
      → Agree attribute l m
      → Agree attribute (entry ∷ l) (entry ∷ m)
  unfolding response_attribute_from
  cons-Agree attribute (key, v) l m h none = ground (arith, h none, h (some v))
  cons-Agree attribute (key, v) l m h (some w) = ground (arith, h (some w))

  swap-Agree :
      (attribute : Text) (x y : Text × Value) (l : Resource)
      → Agree attribute (x ∷ y ∷ l) (y ∷ x ∷ l)
  unfolding response_attribute_from
  swap-Agree attribute (j, v) (k, w) l none = ground (arith)
  swap-Agree attribute (j, v) (k, w) l (some z) = ground (arith)

  Agree-of_permᴰ : (attribute : Text) {l m : Resource} → Permᴰ l m → Agree attribute l m
  Agree-of_permᴰ attribute Permᴰ.nil found = refl
  Agree-of_permᴰ attribute (Permᴰ.cons {a = a} {l₁ = l} {l₂ = m} e p) found =
      cons-Agree attribute a l m (Agree-of_permᴰ attribute p) found
      ∙ ap (λ x. response_attribute_from (x ∷ m) attribute found) e
  Agree-of_permᴰ attribute (Permᴰ.swap {a = a} {b = b} {a' = c} {l = l} e f) found =
      swap-Agree attribute a b l found
      ∙ ap (λ x. response_attribute_from (x ∷ a ∷ l) attribute found) f
      ∙ ap (λ x. response_attribute_from (c ∷ x ∷ l) attribute found) e
  Agree-of_permᴰ attribute (Permᴰ.trans p q) found =
      Agree-of_permᴰ attribute p found ∙ Agree-of_permᴰ attribute q found

  -- responseAttribute finds the same value, or fails in the same way, in every order of the
  -- entries of a resource.
  pub response_attribute-perm :
      (attribute : Text) {l m : Resource}
      → Perm l m
      → response_attribute l attribute ≡ response_attribute m attribute
  unfolding response_attribute
  response_attribute-perm attribute p =
      ∥∥₁_elim p (found-set _ _) (λ d. Agree-of_permᴰ attribute d none)

  managed_values-perm :
      (managed values : Dict Text) {l m : Resource}
      → Perm l m
      → managed_values managed l values ≡ managed_values managed m values
  unfolding managed_values
  managed_values-perm [] values p = refl
  managed_values-perm ((key, attribute) ∷ managed) values {l} {m} p =
      rw (response_attribute-perm attribute p) (
        ap
          (λ (g : Option Value → Result ScimError (Dict Text)).
            response_attribute m attribute >>= g)
          (fun_ext λ candidate.
            managed_values-perm managed (put_scalar attribute (scalar_string candidate) values) p))

  -- What Observe makes of a resource, its id and its version do not depend on the order of its
  -- entries, in which Go ranges over them at random: the result is the same, and so is the error.
  pub observed_of-perm :
      (managed : Dict Text) (l m : Resource)
      → Perm l m
      → (observed_of managed (some l) ≡ observed_of managed (some m))
        × (resource_id l ≡ resource_id m)
        × (resource_version l ≡ resource_version m)
  unfolding observed_of scim_active resource_id resource_version
  observed_of-perm managed l m p = (
    rw (response_attribute-perm (text "active") p, managed_values-perm managed [] p) refl,
    rw (response_attribute-perm (text "id") p) refl,
    rw (response_attribute-perm (text "meta") p) refl,
  )
