-- ===== src/Postgres/Facts/Winners.antt =====
-- The table of facts selects the winners of ResolveBatch.
use mathlib.Core.List.{Mem, mem-cons_self, mem-cons_of_mem}
use deterministic_identity_r.Prelude.{
  ◌≡◌, refl, sym, ap, ◌∙◌, Bool, Option, none, some, List, [], ◌∷◌, ok, arith, Bool-cases,
  if◌then◌else◌, inl, inr,
}
use deterministic_identity_r.Prelude.Int.{ℤ}
use deterministic_identity_r.Prelude.Comparison.{is_gt}
use deterministic_identity_r.Prelude.Text.{Text, text_eq, text_eq→≡, compare_text}
use deterministic_identity_r.Prelude.Dict.{lookup}
use deterministic_identity_r.Prelude.Sort.{Sorter}
use deterministic_identity_r.Prelude.Text.Case.{Unicode}
use deterministic_identity_r.Reconcile.Model.{CanonicalFact}
use deterministic_identity_r.Reconcile.Freshness.{compare_freshness, compare_freshness-IsComparison}
use deterministic_identity_r.Reconcile.Platform.{Platform}
use deterministic_identity_r.Reconcile.Canonicalize.Keys.{IsFaithfulFormat, make_fact_key_inj}
use deterministic_identity_r.Reconcile.Canonicalize.Facts.{IsCanonical}
use deterministic_identity_r.Reconcile.Resolve.{freshest, winners_of}
use deterministic_identity_r.Reconcile.Resolve.Winners.{
  with_key, best, first_group, lookup-winners_of,
}
use deterministic_identity_r.Postgres.Tables.{
  Server, answered, FactRow, Database, any_column_less, revision_of,
}
use deterministic_identity_r.Postgres.Facts.{
  fact_revision, fact_row, revised, upsert_canonical_fact,
}
use deterministic_identity_r.Postgres.Facts.Answered.{put_fact, answered-row, answered-others}
use deterministic_identity_r.Postgres.Projections.Guards.{
  any_column_less-eq-row_less, row_less-eq-compare_freshness,
}

module _ ⦃v : Server⦄ where
  -- UpsertCanonicalFact is called for each fact in turn, and no call returns an error.
  abbrev pub UpsertsAll : List CanonicalFact → Database → Database → Type 0
  UpsertsAll [] db db' = db ≡ db'
  UpsertsAll (f ∷ fs) db db'' =
      (b : Bool) × (db' : Database) × (upsert_canonical_fact answered f db ≡ (db', ok b))
      × UpsertsAll fs db' db''

  -- The row of a fact key that has a winner.
  abbrev pub row_of : Option CanonicalFact → Option FactRow
  row_of none = none
  row_of (some f) = some (fact_row f)

module _ ⦃v : Server⦄ ⦃p : Platform⦄ ⦃s : Sorter⦄ ⦃u : Unicode⦄ {InRange : ℤ → Type 0}
    (faithful : IsFaithfulFormat p InRange)
    (bytes : (s t : Text) → v.collate s t ≡ compare_text s t) where
  -- A fact of Canonicalize whose effective time the fact key can tell, and whose modification
  -- instant the column keeps.
  pub record IsStorable (f : CanonicalFact) : Type 0 where
    pub canonical : IsCanonical f
    pub in_range : InRange f.effective_time.wall
    pub kept : (v.stored_time f.modification_time).wall ≡ f.modification_time.wall

  abbrev fresher : CanonicalFact → CanonicalFact → CanonicalFact
  fresher c w = if is_gt (compare_freshness c.freshness w.freshness) then c else w

  revision-eq :
      (f : CanonicalFact) → IsStorable f → fact_revision (fact_row f) ≡ revision_of f.freshness
  unfolding fact_row revision_of
  revision-eq f s = let c = s.canonical in rw (c.freshness_time, c.physical_event_key) refl

  kept_freshness :
      (f : CanonicalFact)
      → IsStorable f
      → (v.stored_time f.freshness.modification_time).wall ≡ f.freshness.modification_time.wall
  kept_freshness f s = rw s.canonical.freshness_time s.kept

  less-eq-fresher :
      (w c : CanonicalFact)
      → IsStorable w
      → IsStorable c
      → any_column_less (fact_revision (fact_row w)) (fact_revision (fact_row c))
        ≡ is_gt (compare_freshness c.freshness w.freshness)
  less-eq-fresher w c sw sc =
      rw
        (
          revision-eq w sw,
          revision-eq c sc,
          any_column_less-eq-row_less (revision_of w.freshness) (revision_of c.freshness),
          row_less-eq-compare_freshness w.freshness c.freshness bytes (kept_freshness w sw)
              (kept_freshness c sc),
        )
        (ground (arith, compare_freshness-IsComparison.flips w.freshness c.freshness))

  revised-eq :
      (w c : CanonicalFact)
      → IsStorable w
      → IsStorable c
      → w.fact_key ≡ c.fact_key
      → revised (fact_row w) (fact_row c) ≡ fact_row c
  unfolding fact_row
  revised-eq w c sw sc same =
      let (subject, scope, kind, wall) =
        make_fact_key_inj faithful w.subject_id c.subject_id w.source_scope c.source_scope
          w.event_type c.event_type w.effective_time c.effective_time sw.in_range sc.in_range
          sw.canonical.effective_utc sc.canonical.effective_utc
          (sym sw.canonical.fact_key ∙ same ∙ sc.canonical.fact_key) in
      let zone = sw.canonical.effective_utc ∙ sym sc.canonical.effective_utc in
      let time : w.effective_time ≡ c.effective_time = cc (wall, zone) in
      rw (subject, scope, kind, time) refl

  put_fact-fresher :
      (w c : CanonicalFact)
      → IsStorable w
      → IsStorable c
      → w.fact_key ≡ c.fact_key
      → put_fact c (some (fact_row w)) ≡ fact_row (fresher c w)
  put_fact-fresher w c sw sc same =
      elim (Bool-cases (is_gt (compare_freshness c.freshness w.freshness))) [
        | inl h ↦ rw (less-eq-fresher w c sw sc, h) (revised-eq w c sw sc same)
        | inr h ↦ rw (less-eq-fresher w c sw sc, h) refl
      ]

  module _ (facts : List CanonicalFact)
      (storable : (f : CanonicalFact) → Mem f facts → IsStorable f) where
    abbrev Inside : List CanonicalFact → Type 0
    Inside fs = (f : CanonicalFact) → Mem f fs → Mem f facts

    one_of : (P : CanonicalFact → Type 0) (c w : CanonicalFact) → P c → P w → P (fresher c w)
    one_of P c w pc pw = elim (Bool-cases (is_gt (compare_freshness c.freshness w.freshness))) [
      | inl h ↦ rw h pc
      | inr h ↦ rw h pw
    ]

    upsert-winner :
        (c : CanonicalFact) (k : Text) (w : CanonicalFact) (b : Bool) (db db' : Database)
        → Mem c facts
        → Mem w facts
        → c.fact_key ≡ k
        → w.fact_key ≡ k
        → lookup k db.canonical_facts ≡ some (fact_row w)
        → upsert_canonical_fact answered c db ≡ (db', ok b)
        → lookup k db'.canonical_facts ≡ some (fact_row (fresher c w))
    upsert-winner c k w b db db' mc mw same is_key row called =
        ap (λ n. lookup n db'.canonical_facts) (sym same)
        ∙ answered-row b c db db' called
        ∙ ap (λ o. some (put_fact c o)) (ap (λ n. lookup n db.canonical_facts) same ∙ row)
        ∙ ap some (put_fact-fresher w c (storable w mw) (storable c mc) (is_key ∙ sym same))

    upserts-winner :
        (fs : List CanonicalFact) (k : Text) (w : CanonicalFact) (db db' : Database)
        → Inside fs
        → Mem w facts
        → w.fact_key ≡ k
        → lookup k db.canonical_facts ≡ some (fact_row w)
        → UpsertsAll fs db db'
        → lookup k db'.canonical_facts ≡ some (fact_row (freshest w (with_key k fs)))
    unfolding freshest
    upserts-winner [] k w db db' inside m is_key row run = rw run at row
    upserts-winner (c ∷ fs) k w db db'' inside m is_key row (b, db', called, run) =
        elim (Bool-cases (text_eq c.fact_key k)) [
          | inl is_c ↦
              let same : c.fact_key ≡ k = text_eq→≡ c.fact_key k is_c in
              rw is_c (
                upserts-winner fs k (fresher c w) db' db'' (λ f n. inside f (mem-cons_of_mem c n))
                  (one_of (λ f. Mem f facts) c w (inside c mem-cons_self) m)
                  (one_of (λ f. f.fact_key ≡ k) c w same is_key)
                  (upsert-winner c k w b db db' (inside c mem-cons_self) m same is_key row called)
                  run)
          | inr apart ↦ rw apart (
              upserts-winner fs k w db' db'' (λ f n. inside f (mem-cons_of_mem c n)) m is_key
                (answered-others b c db db' k called apart ∙ row) run)
        ]

    upserts-first :
        (fs : List CanonicalFact) (k : Text) (db db' : Database)
        → Inside fs
        → lookup k db.canonical_facts ≡ none
        → UpsertsAll fs db db'
        → lookup k db'.canonical_facts ≡ row_of (best (first_group (with_key k fs)))
    upserts-first [] k db db' inside absent run = rw run at absent
    upserts-first (c ∷ fs) k db db'' inside absent (b, db', called, run) =
        let later : Inside fs = λ f n. inside f (mem-cons_of_mem c n) in
        elim (Bool-cases (text_eq c.fact_key k)) [
          | inl is_c ↦
              let same : c.fact_key ≡ k = text_eq→≡ c.fact_key k is_c in
              rw is_c (
                upserts-winner fs k c db' db'' later (inside c mem-cons_self) same
                  (ap (λ n. lookup n db'.canonical_facts) (sym same)
                    ∙ answered-row b c db db' called
                    ∙ ap (λ o. some (put_fact c o))
                        (ap (λ n. lookup n db.canonical_facts) same ∙ absent))
                  run)
          | inr apart ↦ rw apart (
              upserts-first fs k db' db'' later (answered-others b c db db' k called apart ∙ absent)
                run)
        ]

    -- Where a fact key has no row yet, and each fact of a batch has been upserted without an
    -- error, in any order that the batch may have, the row of the key is that of the winner which
    -- ResolveBatch selects for it, and there is none if no fact has the key. The facts come from
    -- Canonicalize, their times are such as the columns keep and the fact keys can tell, and the
    -- collation compares bytes.
    pub upserts-winners_of :
        (k : Text) (db db' : Database)
        → lookup k db.canonical_facts ≡ none
        → UpsertsAll facts db db'
        → lookup k db'.canonical_facts ≡ row_of (lookup k (winners_of facts))
    upserts-winners_of k db db' absent run =
        upserts-first facts k db db' (λ f m. m) absent run
        ∙ ap row_of (sym (lookup-winners_of k facts))
