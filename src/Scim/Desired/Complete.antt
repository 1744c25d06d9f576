-- ===== src/Scim/Desired/Complete.antt =====
-- A patch says all that the desired state says of the managed attributes.
use mathlib.Core.List.{Mem, mem-cons_self, mem-cons_of_mem}
use deterministic_identity_r.Prelude.{
  ◌≡◌, refl, sym, ap, subst, ◌∙◌, inl, inr, false, Bool, none, some, List, [], ◌∷◌, ok, ok_inj,
  >>=-eq-ok, refuse_if-eq-ok, Bool-cases, Option-cases, arith,
}
use deterministic_identity_r.Prelude.Text.{Text, text_eq, text_eq_refl, text_eq→≡}
use deterministic_identity_r.Prelude.Text.Case.{Unicode, to_lower}
use deterministic_identity_r.Prelude.Dict.{Dict, lookup, insert, lookup-insert}
use deterministic_identity_r.Reconcile.Model.{string}
use deterministic_identity_r.Scim.Config.{Adapter}
use deterministic_identity_r.Scim.Config.Managed.{AllManaged}
use deterministic_identity_r.Scim.Desired.{
  Operation, patch_user, desired_values, managed_desired_values, replacements, patch,
}
use deterministic_identity_r.Scim.Desired.Leftovers.{patch_operations}

abbrev pub replace_by : Text → Text → Operation
replace_by k v = record { path = k; value = string v }

mem_of_lookup :
    (k v : Text) (values : Dict Text)
    → lookup k values ≡ some v
    → Mem (replace_by k v) (replacements values)
unfolding replacements lookup
mem_of_lookup k v [] h = absurd (ground (arith))
mem_of_lookup k v ((j, w) ∷ values) h = elim (Bool-cases (text_eq j k)) [
  | inl same ↦
      let is_value : w ≡ v = ground (arith) in
      let is_key : j ≡ k = text_eq→≡ j k same in
      subst (λ o. Mem o (replace_by j w ∷ replacements values))
        (ap (λ n. replace_by n w) is_key ∙ ap (replace_by k) is_value) mem-cons_self
  | inr apart ↦ mem-cons_of_mem _ (mem_of_lookup k v values (rw (lookup, apart) at h))
]

module _ ⦃u : Unicode⦄ where
  -- Each managed attribute is filed under its lower case.
  abbrev pub Filed : Dict Text → Type 0
  Filed managed = (n c : Text) → lookup n managed ≡ some c → n ≡ to_lower c

  module _ (managed : Dict Text) (filed : Filed managed) where
    -- What has been taken over stays.
    desired_values-keeps :
        (attributes seen values result : Dict Text) (c v previous : Text)
        → lookup c values ≡ some v
        → lookup (to_lower c) seen ≡ some previous
        → desired_values managed attributes seen values ≡ ok result
        → lookup c result ≡ some v
    unfolding desired_values
    desired_values-keeps [] seen values result c v previous here met e =
        ap (lookup c) (sym (ok_inj (ok values) values result refl e)) ∙ here
    desired_values-keeps ((j, w) ∷ attributes) seen values result c v previous here met e =
        elim (Option-cases (lookup (to_lower j) managed)) [
          | inl unmanaged ↦
              desired_values-keeps attributes seen values result c v previous here met
                (rw (desired_values, unmanaged) at e)
          | inr (d, is_managed) ↦ elim (Option-cases (lookup (to_lower j) seen)) [
            | inr (twice, again) ↦
                absurd (ground (arith, rw (desired_values, is_managed, again) at e))
            | inl unseen ↦
                let others : text_eq (to_lower j) (to_lower c) ≡ false =
                  other_name (to_lower j) (to_lower c) seen previous unseen met in
                let apart : text_eq d c ≡ false = other_attribute j d c is_managed others in
                desired_values-keeps attributes (insert (to_lower j) j seen) (insert d w values)
                  result c v previous (ground (arith, lookup-insert d c w values))
                  (ground (arith, lookup-insert (to_lower j) (to_lower c) j seen))
                  (rw (desired_values, is_managed, unseen) at e)
          ]
        ]
      where
        other_name :
            (m n : Text) (seen : Dict Text) (previous : Text)
            → lookup m seen ≡ none
            → lookup n seen ≡ some previous
            → text_eq m n ≡ false
        other_name m n seen previous unseen met = elim (Bool-cases (text_eq m n)) [
          | inl same ↦ absurd (ground (arith, ap (λ x. lookup x seen) (text_eq→≡ m n same)))
          | inr apart ↦ apart
        ]

        other_attribute :
            (j d c : Text)
            → lookup (to_lower j) managed ≡ some d
            → text_eq (to_lower j) (to_lower c) ≡ false
            → text_eq d c ≡ false
        other_attribute j d c is_managed others = elim (Bool-cases (text_eq d c)) [
          | inl same ↦ absurd (
              ground (
                arith,
                filed (to_lower j) d is_managed ∙ ap to_lower (text_eq→≡ d c same),
                text_eq_refl (to_lower c),
              ))
          | inr apart ↦ apart
        ]

    -- An attribute that is managed is taken over under its managed spelling.
    desired_values-finds :
        (attributes seen values result : Dict Text) (k v c : Text)
        → lookup k attributes ≡ some v
        → lookup (to_lower k) managed ≡ some c
        → desired_values managed attributes seen values ≡ ok result
        → lookup c result ≡ some v
    unfolding desired_values lookup
    desired_values-finds [] seen values result k v c here is_managed e = absurd (ground (arith))
    desired_values-finds ((j, w) ∷ attributes) seen values result k v c here is_managed e =
        elim (Bool-cases (text_eq j k)) [
          | inl same ↦
              desired_values-head attributes seen values result j v c
                (subst (λ n. lookup (to_lower n) managed ≡ some c) (sym (text_eq→≡ j k same))
                  is_managed)
                (subst (λ x. desired_values managed ((j, x) ∷ attributes) seen values ≡ ok result)
                  (ground (arith)) e)
          | inr apart ↦
              desired_values-tail attributes seen values result j w
                (λ s vs e'.
                  desired_values-finds attributes s vs result k v c (rw (lookup, apart) at here)
                    is_managed e')
                e
        ]
      where
        desired_values-head :
            (attributes seen values result : Dict Text) (j v c : Text)
            → lookup (to_lower j) managed ≡ some c
            → desired_values managed ((j, v) ∷ attributes) seen values ≡ ok result
            → lookup c result ≡ some v
        desired_values-head attributes seen values result j v c is_managed e =
            elim (Option-cases (lookup (to_lower j) seen)) [
              | inr (twice, again) ↦
                  absurd (ground (arith, rw (desired_values, is_managed, again) at e))
              | inl unseen ↦
                  desired_values-keeps attributes (insert (to_lower j) j seen) (insert c v values)
                    result c v j (lookup-insert c c v values ∙ rw (text_eq_refl c) refl)
                    (lookup-insert (to_lower j) (to_lower c) j seen
                      ∙ rw (← filed (to_lower j) c is_managed, text_eq_refl (to_lower j)) refl)
                    (rw (desired_values, is_managed, unseen) at e)
            ]

        -- Whatever becomes of the first entry, the loop goes on to the others.
        desired_values-tail :
            {P : Type 0} (attributes seen values result : Dict Text) (j w : Text)
            → ((s vs : Dict Text) → desired_values managed attributes s vs ≡ ok result → P)
            → desired_values managed ((j, w) ∷ attributes) seen values ≡ ok result
            → P
        desired_values-tail attributes seen values result j w next e =
            elim (Option-cases (lookup (to_lower j) managed)) [
              | inl unmanaged ↦ next seen values (rw (desired_values, unmanaged) at e)
              | inr (d, is_managed) ↦ elim (Option-cases (lookup (to_lower j) seen)) [
                | inr (twice, again) ↦
                    absurd (ground (arith, rw (desired_values, is_managed, again) at e))
                | inl unseen ↦
                    next (insert (to_lower j) j seen) (insert d w values)
                      (rw (desired_values, is_managed, unseen) at e)
              ]
            ]

  -- Where each managed attribute is filed under its lower case, as New files it, a patch replaces
  -- each managed attribute of the desired state, under its managed spelling, by the desired value.
  pub patch-complete :
      (a : Adapter) (id version : Text) (enabled : Bool) (attributes : Dict Text)
      (operations : List Operation) (k v c : Text)
      → AllManaged a.subject_attribute a.managed_attributes
      → patch a id enabled attributes version ≡ ok (patch_user id operations version)
      → lookup k attributes ≡ some v
      → lookup (to_lower k) a.managed_attributes ≡ some c
      → Mem (replace_by c v) operations
  unfolding patch managed_desired_values
  patch-complete a id version enabled attributes operations k v c all patched here is_managed =
      let (named, e1) = refuse_if-eq-ok (text_eq id []) _ _ patched in
      let (values, wanted, e2) = >>=-eq-ok (managed_desired_values a attributes) _ e1 in
      let found =
        desired_values-finds a.managed_attributes (λ n d h. (all n d h).lowered) attributes [] []
          values k v c here is_managed wanted in
      rw (patch_operations a id version enabled attributes values operations wanted patched)
        (mem-cons_of_mem _ (mem_of_lookup c v values found))
