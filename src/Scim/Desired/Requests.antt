-- ===== src/Scim/Desired/Requests.antt =====
-- What the requests of the adapter do to the identity that they are for.
use deterministic_identity_r.Prelude.{
  ◌≡◌, ◌≢◌, refl, sym, ap, subst, ◌∙◌, inl, inr, Bool, true, false, Option, none, some, [], ◌∷◌,
  map, Result, ok, >>=-eq-ok, ok_inj, Option-cases, Bool-cases, arith,
}
use deterministic_identity_r.Prelude.Text.{Text, text, text_eq, text_eq_refl, text_eq→≡}
use deterministic_identity_r.Prelude.Text.Case.{
  Unicode, fold_rune, to_lower, equal_fold, lower_rune, lower_ascii,
}
use deterministic_identity_r.Prelude.Dict.{Dict, lookup, insert, lookup-insert}
use deterministic_identity_r.Reconcile.Model.{bool, string, DesiredState}
use deterministic_identity_r.Scim.Names.{unsafe_subject_attribute, adapter_owns_attribute}
use deterministic_identity_r.Scim.Config.{Adapter, delete}
use deterministic_identity_r.Scim.Config.Managed.{AllManaged}
use deterministic_identity_r.Scim.Responses.{Resource, ScimError}
use deterministic_identity_r.Scim.Desired.{
  desired_values, managed_desired_values, set_all, new_user, create, patch, request_of, post_user,
  delete_user,
}

not_both : (b : Bool) → b ≡ true → b ≢ false
not_both b h k = cc

lookup-set_all :
    (k : Text) (m : Dict Text) (user : Resource)
    → lookup k m ≡ none
    → lookup k (set_all m user) ≡ lookup k user
unfolding set_all lookup
lookup-set_all k [] user h = refl
lookup-set_all k ((j, v) ∷ m) user h =
    ground (arith, lookup-set_all k m (insert j (string v) user), lookup-insert j k (string v) user)

-- The keys of the map are attributes that are managed.
abbrev KeysManaged : Dict Text → Dict Text → Type 0
KeysManaged managed values =
    (k v : Text) → lookup k values ≡ some v → (n : Text) × (lookup n managed ≡ some k)

insert-KeysManaged :
    (managed values : Dict Text) (n k v : Text)
    → lookup n managed ≡ some k
    → KeysManaged managed values
    → KeysManaged managed (insert k v values)
insert-KeysManaged managed values n k v here all j w found = elim (Bool-cases (text_eq k j)) [
  | inl same ↦ (n, here ∙ ap some (text_eq→≡ k j same))
  | inr apart ↦ all j w (ground (arith, lookup-insert k j v values))
]

module _ ⦃u : Unicode⦄ where
  err_not_ok : (error : ScimError) (x : Dict Text) → Result.err error ≢ ok x
  err_not_ok error x e = cc

  desired_values-KeysManaged :
      (managed attributes seen values result : Dict Text)
      → KeysManaged managed values
      → desired_values managed attributes seen values ≡ ok result
      → KeysManaged managed result
  unfolding desired_values
  desired_values-KeysManaged managed [] seen values result all e =
      subst (KeysManaged managed) (ok_inj (ok values) values result refl e) all
  desired_values-KeysManaged managed ((attribute, value) ∷ attributes) seen values result all e =
      elim (Option-cases (lookup (to_lower attribute) managed)) [
        | inl absent ↦
            desired_values-KeysManaged managed attributes seen values result all
              (rw (desired_values, absent) at e)
        | inr (canonical, here) ↦ elim (Option-cases (lookup (to_lower attribute) seen)) [
          | inl unseen ↦
              desired_values-KeysManaged managed attributes
                (insert (to_lower attribute) attribute seen) (insert canonical value values) result
                (insert-KeysManaged managed values (to_lower attribute) canonical value here all)
                (rw (desired_values, here, unseen) at e)
          | inr (previous, twice) ↦
              absurd (err_not_ok _ result (rw (desired_values, here, twice) at e))
        ]
      ]

  equal_fold_refl : (s : Text) → equal_fold s s ≡ true
  unfolding equal_fold
  equal_fold_refl s = text_eq_refl (map fold_rune s)

  -- The adapter deletes a user only in delete mode, and only for an identity that should not exist.
  pub request_of-delete :
      (a : Adapter) (d : DesiredState) (r : Option Resource) (id version : Text)
      → request_of a d r ≡ ok (some (delete_user id version))
      → (a.deprovision_mode ≡ delete) × (d.exists ≡ false)
  unfolding request_of create patch
  request_of-delete a d none id version e = absurd (ground (arith))
  request_of-delete a d (some resource) id version e = ground arith

  free_of :
      (a : Adapter) (k : Text) (values : Dict Text)
      → KeysManaged a.managed_attributes values
      → ((n : Text) → lookup n a.managed_attributes ≢ some k)
      → lookup k values ≡ none
  free_of a k values all apart = elim (Option-cases (lookup k values)) [
    | inl absent ↦ absent
    | inr (v, here) ↦ let (n, there) = all k v here in absurd (apart n there)
  ]

  active_owned : adapter_owns_attribute (text "active") ≡ true
  unfolding adapter_owns_attribute to_lower lower_rune lower_ascii text_eq
  active_owned = refl

  active_unsafe : unsafe_subject_attribute (text "active") ≡ true
  unfolding unsafe_subject_attribute to_lower lower_rune lower_ascii text_eq
  active_unsafe = refl

  subject_not_active :
      (subject : Text)
      → unsafe_subject_attribute subject ≡ false
      → text_eq subject (text "active") ≡ false
  subject_not_active subject safe = elim (Bool-cases (text_eq subject (text "active"))) [
    | inl same ↦
        absurd (ground (arith, ap unsafe_subject_attribute (text_eq→≡ _ _ same), active_unsafe))
    | inr apart ↦ apart
  ]

  new_user-subject :
      (a : Adapter) (d : DesiredState)
      → lookup a.subject_attribute (new_user a d) ≡ some (string d.subject_id)
  new_user-subject a d =
      rw (lookup-insert a.subject_attribute a.subject_attribute, text_eq_refl a.subject_attribute)
        refl

  new_user-active :
      (a : Adapter) (d : DesiredState)
      → unsafe_subject_attribute a.subject_attribute ≡ false
      → lookup (text "active") (new_user a d) ≡ some (bool d.enabled)
  new_user-active a d safe =
      rw
        (
          lookup-insert a.subject_attribute (text "active"),
          subject_not_active a.subject_attribute safe,
        )
        (unfold lookup text_eq in refl)

  post_user_inj : (x y : Resource) → post_user x ≡ post_user y → x ≡ y
  post_user_inj x y e = cc

  -- The user that an adapter creates has the subject under the subject attribute, where the next
  -- search looks for it, and the desired flag under `active`, whatever the managed attributes are,
  -- if these are managed as New admits them and the subject attribute is not the protocol's.
  pub create-bound :
      (a : Adapter) (d : DesiredState) (user : Resource)
      → AllManaged a.subject_attribute a.managed_attributes
      → unsafe_subject_attribute a.subject_attribute ≡ false
      → create a d ≡ ok (post_user user)
      → (lookup a.subject_attribute user ≡ some (string d.subject_id))
        × (lookup (text "active") user ≡ some (bool d.enabled))
  unfolding create managed_desired_values
  create-bound a d user managed safe e =
      let (values, ev, eu) = >>=-eq-ok (managed_desired_values a d.attributes) _ e in
      let keys =
        desired_values-KeysManaged a.managed_attributes d.attributes [] [] values
          (λ k v h. absurd (unfold lookup in cc)) ev in
      let user_is = post_user_inj _ user (ok_inj _ _ (post_user user) refl eu) in
      let no_subject = free_of a a.subject_attribute values keys (λ n here.
        not_both (equal_fold a.subject_attribute a.subject_attribute)
          (equal_fold_refl a.subject_attribute) (managed n a.subject_attribute here).not_subject) in
      let no_active = free_of a (text "active") values keys (λ n here.
        not_both (adapter_owns_attribute (text "active")) active_owned
          (managed n (text "active") here).not_owned) in
      (
        sym (ap (lookup a.subject_attribute) user_is)
            ∙ lookup-set_all a.subject_attribute values (new_user a d) no_subject
            ∙ new_user-subject a d,
        sym (ap (lookup (text "active")) user_is)
            ∙ lookup-set_all (text "active") values (new_user a d) no_active
            ∙ new_user-active a d safe,
      )
