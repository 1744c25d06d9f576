-- ===== src/Postgres/Facts/Selection.antt =====
-- The table of facts holds what ResolveBatch selects, whatever the order of the calls.
use mathlib.Core.List.{Mem, Perm}
use mathlib.Core.List.Perm
use deterministic_identity_r.Prelude.{◌≡◌, sym, ap, ◌∙◌, true, none, some, List}
use deterministic_identity_r.Prelude.Text.{Text, text_eq_iff, compare_text}
use deterministic_identity_r.Prelude.Int.{ℤ}
use deterministic_identity_r.Prelude.Text.Case.{Unicode}
use deterministic_identity_r.Prelude.Sort.{Sorter}
use deterministic_identity_r.Prelude.Dict.{lookup}
use deterministic_identity_r.Reconcile.Model.{CanonicalFact}
use deterministic_identity_r.Reconcile.Platform.{Platform}
use deterministic_identity_r.Reconcile.Canonicalize.Keys.{IsFaithfulFormat}
use deterministic_identity_r.Reconcile.Resolve.{winners_of, is_winner}
use deterministic_identity_r.Reconcile.Resolve.Dominance.{KeysTell, IsWinner-of_mem}
use deterministic_identity_r.Reconcile.Resolve.Decided.{is_winner_of_perm}
use deterministic_identity_r.Reconcile.Resolve.Deliveries.{KeysTell-of_perm}
use deterministic_identity_r.Postgres.Tables.{Server, Database}
use deterministic_identity_r.Postgres.Facts.{fact_row}
use deterministic_identity_r.Postgres.Facts.Winners.{
  UpsertsAll, row_of, IsStorable, upserts-winners_of,
}

found_winner :
    (facts : List CanonicalFact) (f : CanonicalFact)
    → KeysTell facts
    → Mem f facts
    → is_winner (winners_of facts) f ≡ true
    → lookup f.fact_key (winners_of facts) ≡ some f
unfolding is_winner
found_winner facts f tell m wins =
    let (w, won) = IsWinner-of_mem facts f m in
    let same : f ≡ w =
      tell f w m won.member ((text_eq_iff f.event_key w.event_key).0 (rw won.found at wins)) in
    won.found ∙ ap some (sym same)

module _ ⦃v : Server⦄ ⦃p : Platform⦄ ⦃s : Sorter⦄ ⦃u : Unicode⦄ {InRange : ℤ → Type 0}
    (faithful : IsFaithfulFormat p InRange)
    (bytes : (s t : Text) → v.collate s t ≡ compare_text s t) where
  -- A fact that ResolveBatch selects as the winner of its fact key is the one that the table has
  -- once every fact of the batch has been upserted without an error, in whatever order. The batch
  -- has distinct event keys and facts of Canonicalize, whose times are such as the columns keep and
  -- the fact keys can tell, the collation compares bytes, and the fact key had no row before.
  pub upserts-winner_row :
      (facts order : List CanonicalFact) (f : CanonicalFact) (db db' : Database)
      → Perm facts order
      → KeysTell facts
      → ((g : CanonicalFact) → Mem g facts → IsStorable faithful bytes g)
      → Mem f facts
      → lookup f.fact_key db.canonical_facts ≡ none
      → UpsertsAll order db db'
      → is_winner (winners_of facts) f ≡ true
      → lookup f.fact_key db'.canonical_facts ≡ some (fact_row f)
  upserts-winner_row facts order f db db' perm tell storable m absent run wins =
      let wins_too =
        sym (
          is_winner_of_perm facts order perm tell
            (λ g n. (storable g n).canonical.physical_event_key) f m)
        ∙ wins in
      let found =
        found_winner order f (KeysTell-of_perm perm tell) ((Perm.mem_iff perm).0 m) wins_too in
      upserts-winners_of faithful bytes order (λ g n. storable g ((Perm.mem_iff perm).1 n))
        f.fact_key db db' absent run
      ∙ ap row_of found
