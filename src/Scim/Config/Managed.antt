-- ===== src/Scim/Config/Managed.antt =====
-- What a configured adapter manages.
use deterministic_identity_r.Prelude.{
  ◌≡◌, ◌≢◌, ◌&&◌, ◌||◌, subst, inl, inr, Bool-cases, refl, true, false, not, Option, some, List, [],
  ◌∷◌, ok, refuse_if-eq-ok, >>=-eq-ok, ok_inj, arith,
}
use deterministic_identity_r.Prelude.Text.{Text, text, text_eq, text_eq→≡, trim_space}
use deterministic_identity_r.Prelude.Text.Case.{Unicode, to_lower, equal_fold}
use deterministic_identity_r.Prelude.Dict.{
  Dict, lookup, insert, has_key, lookup-insert, IsUnique, insert-IsUnique,
}
use deterministic_identity_r.Scim.Names.{
  valid_attribute_name, adapter_owns_attribute, unsafe_subject_attribute,
}
use deterministic_identity_r.Scim.Config.{
  Config, Adapter, Url, absolute, or_default, parse_mode, add_managed, new,
}

module _ ⦃u : Unicode⦄ where
  -- An attribute that the adapter may write: filed under its lower case, valid, and neither the
  -- subject attribute nor one that the adapter or the protocol owns.
  pub record IsManaged (subject key attribute : Text) : Type 0 where
    pub lowered : key ≡ to_lower attribute
    pub valid : valid_attribute_name attribute ≡ true
    pub not_subject : equal_fold attribute subject ≡ false
    pub not_owned : adapter_owns_attribute attribute ≡ false

  abbrev pub AllManaged : Text → Dict Text → Type 0
  AllManaged subject managed =
      (key attribute : Text) → lookup key managed ≡ some attribute → IsManaged subject key attribute

  insert-AllManaged :
      (subject attribute : Text) (managed : Dict Text)
      → IsManaged subject (to_lower attribute) attribute
      → AllManaged subject managed
      → AllManaged subject (insert (to_lower attribute) attribute managed)
  insert-AllManaged subject attribute managed new_one all key other found =
      elim (Bool-cases (text_eq (to_lower attribute) key)) [
        | inl same ↦
            let is_new : attribute ≡ other =
              ground (arith, lookup-insert (to_lower attribute) key attribute managed) in
            subst (λ k. IsManaged subject k other) (text_eq→≡ (to_lower attribute) key same)
              (subst (λ x. IsManaged subject (to_lower attribute) x) is_new new_one)
        | inr apart ↦
            all key other (ground (arith, lookup-insert (to_lower attribute) key attribute managed))
      ]

  add_managed-AllManaged :
      (subject : Text) (names : List Text) (managed result : Dict Text)
      → AllManaged subject managed × IsUnique managed
      → add_managed subject names managed ≡ ok result
      → AllManaged subject result × IsUnique result
  unfolding add_managed
  add_managed-AllManaged subject [] managed result h e =
      subst (λ m. AllManaged subject m × IsUnique m) (ok_inj (ok managed) managed result refl e) h
  add_managed-AllManaged subject (name ∷ names) managed result (all, unique) e =
      let attribute = trim_space name in
      let (valid, e1) = refuse_if-eq-ok (not (valid_attribute_name attribute)) _ _ e in
      let (other, e2) = refuse_if-eq-ok (equal_fold attribute subject) _ _ e1 in
      let (free, e3) = refuse_if-eq-ok (adapter_owns_attribute attribute) _ _ e2 in
      let (fresh, e4) = refuse_if-eq-ok (has_key (to_lower attribute) managed) _ _ e3 in
      add_managed-AllManaged subject names (insert (to_lower attribute) attribute managed) result
        (
          insert-AllManaged subject attribute managed
              (record {
                lowered = refl;
                valid = ground (arith, valid);
                not_subject = other;
                not_owned = free;
              })
              all,
          insert-IsUnique (to_lower attribute) attribute managed unique,
        )
        e4

  nothing_in : (k x : Text) → lookup k [] ≢ some x
  unfolding lookup
  nothing_in k x h = cc

  abbrev pub Sound : Adapter → Type 0
  Sound a =
      (valid_attribute_name a.subject_attribute ≡ true)
      × (unsafe_subject_attribute a.subject_attribute ≡ false)
      × AllManaged a.subject_attribute a.managed_attributes
      × IsUnique a.managed_attributes

  -- What New has checked of the names of an adapter that it accepts.
  pub record Checked (config : Config) (a : Adapter) : Type 0 where
    pub valid : valid_attribute_name a.subject_attribute ≡ true
    pub safe : unsafe_subject_attribute a.subject_attribute ≡ false
    pub managed :
        add_managed a.subject_attribute config.managed_attributes [] ≡ ok a.managed_attributes

  pub new-Checked :
      (parse_url : Text → Option Url) (config : Config) (a : Adapter)
      → new parse_url config ≡ ok a
      → Checked config a
  unfolding new
  new-Checked parse_url config a e =
      let subject = or_default (trim_space config.subject_attribute) (text "externalId") in
      let (parsed, ep, e1) = >>=-eq-ok (absolute (parse_url (trim_space config.base_url))) _ e in
      let (http, e2) =
        refuse_if-eq-ok
          (not (text_eq parsed.scheme (text "http")) && not (text_eq parsed.scheme (text "https")))
          _ _ e1 in
      let (plain, e3) =
        refuse_if-eq-ok (not (text_eq parsed.raw_query []) || not (text_eq parsed.fragment [])) _ _
          e2 in
      let (valid, e4) = refuse_if-eq-ok (not (valid_attribute_name subject)) _ _ e3 in
      let (safe, e5) = refuse_if-eq-ok (unsafe_subject_attribute subject) _ _ e4 in
      let (mode, em, e6) = >>=-eq-ok (parse_mode config.deprovision_mode) _ e5 in
      let (managed, ed, e7) = >>=-eq-ok (add_managed subject config.managed_attributes []) _ e6 in
      subst (Checked config) (ok_inj _ _ a refl e7)
        (record { valid = ground (arith, valid); safe = safe; managed = ed })

  -- An adapter that New accepts looks subjects up by a valid attribute that the protocol does not
  -- own, and manages valid attributes only, each once up to letter case, none of which is the
  -- subject attribute or one that the adapter owns.
  pub new-AllManaged :
      (parse_url : Text → Option Url) (config : Config) (a : Adapter)
      → new parse_url config ≡ ok a
      → Sound a
  new-AllManaged parse_url config a e =
      let checked = new-Checked parse_url config a e in
      let (all, unique) =
        add_managed-AllManaged a.subject_attribute config.managed_attributes [] a.managed_attributes
          (λ k x h. absurd (nothing_in k x h), tt) checked.managed in
      (checked.valid, checked.safe, all, unique)
