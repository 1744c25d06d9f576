-- ===== src/Command/Invocation/Ownership.antt =====
-- What a run may write is what its adapter manages.
use deterministic_identity_r.Prelude.{
  ◌≡◌, refl, sym, ap, subst, ◌∙◌, inl, inr, true, false, not, none, some, List, [], ◌∷◌, map,
  Result, ok, err, ok_inj, refuse_if-eq-ok, Bool-cases, arith,
}
use deterministic_identity_r.Prelude.Text.{
  Text, text_eq, text_eq_refl, text_eq→≡, trim_space, split,
}
use deterministic_identity_r.Prelude.Text.Trim.{trim_space_twice}
use deterministic_identity_r.Prelude.Text.Case.{Unicode, to_lower, equal_fold}
use deterministic_identity_r.Prelude.Dict.{
  Dict, lookup, insert, has_key, lookup-insert, has_key-lookup,
}
use deterministic_identity_r.Scim.Names.{valid_attribute_name, adapter_owns_attribute}
use deterministic_identity_r.Scim.Config.{Adapter, add_managed}
use deterministic_identity_r.Reconcile.Model.{IdentityProjection}
use deterministic_identity_r.Postgres.Tables.{Database}
use deterministic_identity_r.Postgres.Projections.{load_projection}
use deterministic_identity_r.Postgres.Locked.{Transaction}
use deterministic_identity_r.Scim.Config.Managed.{new-Checked}
use deterministic_identity_r.Scim.Service.{Service, scim_target}
use deterministic_identity_r.Command.{Report, member, not_allowed}
use deterministic_identity_r.Command.Invocation.Parts.{run_allowed, reported_ok, configure-parts}
use deterministic_identity_r.Command.Invocation.{
  Flags, Environment, CommandError, managed_names, config_of, configure, run_configured,
  run_command,
}

member-map-trim :
    (k : Text) (parts : List Text) → member k (map trim_space parts) ≡ true → trim_space k ≡ k
member-map-trim k [] h = absurd (ground (arith))
member-map-trim k (part ∷ parts) h = elim (Bool-cases (text_eq k (trim_space part))) [
  | inl same ↦
      let is_part = text_eq→≡ k (trim_space part) same in
      ap trim_space is_part ∙ trim_space_twice part ∙ sym is_part
  | inr apart ↦ member-map-trim k parts (ground (arith, apart))
]

-- A name of the flag has no space around it.
managed_names-trimmed :
    (k managed : Text) → member k (managed_names managed) ≡ true → trim_space k ≡ k
unfolding managed_names
managed_names-trimmed k managed h = elim (Bool-cases (text_eq (trim_space managed) [])) [
  | inl blank ↦ absurd (ground (arith))
  | inr given ↦ member-map-trim k (split b',' managed) (rw given at h)
]

-- What is not refused is a name of the list.
not_allowed-member :
    (allowed : List Text) (attributes : Dict Text) (k v : Text)
    → not_allowed allowed attributes ≡ none
    → lookup k attributes ≡ some v
    → member k allowed ≡ true
unfolding not_allowed lookup
not_allowed-member allowed [] k v h found = absurd (ground (arith))
not_allowed-member allowed ((j, w) ∷ attributes) k v h found =
    elim (Bool-cases (member j allowed)) [
      | inl here ↦ elim (Bool-cases (text_eq j k)) [
        | inl same ↦ subst (λ n. member n allowed ≡ true) (text_eq→≡ j k same) here
        | inr apart ↦
            not_allowed-member allowed attributes k v (ground (arith, here))
              (rw (lookup, apart) at found)
      ]
      | inr away ↦ absurd (ground (arith, away))
    ]

module _ ⦃u : Unicode⦄ where
  add_managed-step :
      (subject name : Text) (names : List Text) (managed result : Dict Text)
      → add_managed subject (name ∷ names) managed ≡ ok result
      → (has_key (to_lower (trim_space name)) managed ≡ false)
        × (add_managed subject names (insert (to_lower (trim_space name)) (trim_space name) managed)
            ≡ ok result)
  unfolding add_managed
  add_managed-step subject name names managed result e =
      let attribute = trim_space name in
      let (_, e1) = refuse_if-eq-ok (not (valid_attribute_name attribute)) _ _ e in
      let (_, e2) = refuse_if-eq-ok (equal_fold attribute subject) _ _ e1 in
      let (_, e3) = refuse_if-eq-ok (adapter_owns_attribute attribute) _ _ e2 in
      refuse_if-eq-ok (has_key (to_lower attribute) managed) _ _ e3

  -- A later name does not replace an earlier one.
  add_managed-keeps :
      (subject : Text) (names : List Text) (managed result : Dict Text) (n x : Text)
      → lookup n managed ≡ some x
      → add_managed subject names managed ≡ ok result
      → lookup n result ≡ some x
  unfolding add_managed
  add_managed-keeps subject [] managed result n x here e =
      ap (lookup n) (sym (ok_inj (ok managed) managed result refl e)) ∙ here
  add_managed-keeps subject (name ∷ names) managed result n x here e =
      let (fresh, rest) = add_managed-step subject name names managed result e in
      let key = to_lower (trim_space name) in
      add_managed-keeps subject names (insert key (trim_space name) managed) result n x
        (elim (Bool-cases (text_eq key n)) [
          | inl same ↦ absurd (
              ground (
                arith,
                has_key-lookup key managed,
                ap (λ j. lookup j managed) (text_eq→≡ key n same),
              ))
          | inr apart ↦ ground (arith, lookup-insert key n (trim_space name) managed)
        ])
        rest

  -- Each trimmed name is filed under its lower case.
  add_managed-member :
      (subject k : Text) (names : List Text) (managed result : Dict Text)
      → trim_space k ≡ k
      → member k names ≡ true
      → add_managed subject names managed ≡ ok result
      → lookup (to_lower k) result ≡ some k
  add_managed-member subject k [] managed result trimmed h e = absurd (ground (arith))
  add_managed-member subject k (name ∷ names) managed result trimmed h e =
      let (fresh, rest) = add_managed-step subject name names managed result e in
      let grown = insert (to_lower (trim_space name)) (trim_space name) managed in
      elim (Bool-cases (text_eq k name)) [
        | inl same ↦
            let is_name : trim_space name ≡ k =
              ap trim_space (sym (text_eq→≡ k name same)) ∙ trimmed in
            add_managed-keeps subject names grown result (to_lower k) k
              (subst (λ n. lookup (to_lower k) (insert (to_lower n) n managed) ≡ some k)
                (sym is_name)
                (lookup-insert (to_lower k) (to_lower k) k managed
                  ∙ rw (text_eq_refl (to_lower k)) refl))
              rest
        | inr apart ↦
            add_managed-member subject k names grown result trimmed (ground (arith, apart)) rest
      ]

module _ ⦃u : Unicode⦄ (env : Environment) where
  -- The projection that a run has read, and the adapter that it has used.
  pub record Owned (arguments : List Text) (x : Transaction) (db : Database) : Type 0 where
    pub flags : Flags
    pub adapter : Adapter
    pub projection : IdentityProjection
    pub configures : configure env arguments ≡ ok (flags, adapter)
    pub loads : load_projection x.loads flags.subject db ≡ ok projection
    pub owns :
        (k v : Text)
        → lookup k projection.attributes ≡ some v
        → lookup (to_lower k) adapter.managed_attributes ≡ some k

  Owned-of_configure :
      {S : Type 0} (service : Adapter → Service S) (arguments : List Text)
      (c : Result CommandError (Flags × Adapter)) (x : Transaction) (db : Database) (s t : S)
      (r : Report)
      → configure env arguments ≡ c
      → run_configured env service c x db s ≡ (ok r, t)
      → Owned arguments x db
  Owned-of_configure service arguments (err error) x db s t r configures e = absurd (ground (arith))
  Owned-of_configure service arguments (ok (flags, a)) x db s t r configures e =
      let names = managed_names flags.managed in
      let (d, loads, all) =
        run_allowed (scim_target (service a) a) flags.subject names flags.apply x db s t r
          (reported_ok _ r t e) in
      let (_, made) = configure-parts env arguments flags a configures in
      record {
        flags = flags;
        adapter = a;
        projection = d;
        configures = configures;
        loads = loads;
        owns = λ k v here.
            let named = not_allowed-member names d.attributes k v all here in
            add_managed-member a.subject_attribute k names [] a.managed_attributes
              (managed_names-trimmed k flags.managed named) named
              (new-Checked env.parse_url (config_of env flags) a made).managed;
      }

  -- When the command reports success, the arguments have configured an adapter, the subject has a
  -- stored projection, and each attribute of it is one that the adapter manages in this spelling,
  -- so that a run leaves none of them out.
  pub run_command-Owned :
      {S : Type 0} (service : Adapter → Service S) (arguments : List Text) (x : Transaction)
      (db : Database) (s t : S) (r : Report)
      → run_command env service arguments x db s ≡ (ok r, t)
      → Owned arguments x db
  unfolding run_command
  run_command-Owned service arguments x db s t r e =
      Owned-of_configure service arguments (configure env arguments) x db s t r refl e
