-- ===== src/Reconcile/Resolve.antt =====
-- ResolveBatch of resolve.go, loop by loop.
pub mod Order
pub mod Winners
pub mod Dominance
pub mod FirstLoop
pub mod Deliveries
pub mod Totality
pub mod Decided
pub mod Finish
pub mod Verdicts
pub mod Runs
pub mod Sorting
pub mod Permutation
pub mod Success
pub mod Returned
pub mod Coverage
use deterministic_identity_r.Prelude.{
  Bool, true, false, not, ◌&&◌, ◌||◌, if◌then◌else◌, Option, none, some, List, [], ◌∷◌, ◌++◌,
  Result, ok, err, ◌>>=◌, ◌>>◌,
}
use deterministic_identity_r.Prelude.Comparison.{Ordering, lt, eq, gt, is_lt, is_gt}
use deterministic_identity_r.Prelude.Text.{Text, text_eq, text_ltb}
use deterministic_identity_r.Prelude.Text.Case.{Unicode}
use deterministic_identity_r.Prelude.Dict.{Dict, lookup, insert}
use deterministic_identity_r.Prelude.Sort.{Sorter}
use deterministic_identity_r.Reconcile.Clock.{before, after}
use deterministic_identity_r.Reconcile.Model.{
  PhysicalEvent, CanonicalFact, event_type_name, DecisionAction, process_now, schedule, skip, no_op,
  ReasonCode, duplicate_delivery, duplicate_or_older, EventResolution, BatchResult, Error,
  canonicalize_failed, event_key_reused, evaluate_failed,
}
use deterministic_identity_r.Reconcile.Freshness.{compare_freshness}
use deterministic_identity_r.Reconcile.Policy.{Policy, validate, evaluate}
use deterministic_identity_r.Reconcile.Platform.{Platform}
use deterministic_identity_r.Reconcile.Canonicalize.{canonicalize}
use deterministic_identity_r.Reconcile.Projection.{project}

-- The variables of the first loop.
pub record Collected : Type 0 where
  pub facts : List CanonicalFact
  pub decisions : List EventResolution
  pub seen : Dict CanonicalFact

abbrev pub nothing : Collected
nothing = record { facts = []; decisions = []; seen = [] }

abbrev pub resolution : CanonicalFact → DecisionAction → ReasonCode → EventResolution
resolution fact action reason = record {
  event_key = fact.event_key;
  fact_key = fact.fact_key;
  action = action;
  reason = reason;
  fact = fact;
}

-- A fact whose event key has been seen is a duplicate delivery, or an error if it differs; another
-- is kept.
abbrev pub admit_seen : Option CanonicalFact → CanonicalFact → Collected → Result Error Collected
admit_seen (some previous) fact c =
    if not (text_eq previous.payload_hash fact.payload_hash)
      || not (text_eq previous.fact_key fact.fact_key)
    then err (event_key_reused fact.event_key)
    else ok (record c { decisions = c.decisions ++ (resolution fact skip duplicate_delivery ∷ []) })
admit_seen none fact c =
    ok (record c { facts = c.facts ++ (fact ∷ []); seen = insert fact.event_key fact c.seen })

unfoldable pub admit : CanonicalFact → Collected → Result Error Collected
admit fact c = admit_seen (lookup fact.event_key c.seen) fact c

-- A group of facts with one fact key, which is never empty: its first fact and the others.
abbrev pub Group : Type 0
Group = CanonicalFact × List CanonicalFact

abbrev pub append_to : Option Group → CanonicalFact → Group
append_to none fact = (fact, [])
append_to (some (first, rest)) fact = (first, rest ++ (fact ∷ []))

-- `grouped[fact.FactKey] = append(grouped[fact.FactKey], fact)` for each fact
unfoldable pub group_facts : List CanonicalFact → Dict Group → Dict Group
group_facts [] grouped = grouped
group_facts (fact ∷ facts) grouped =
    group_facts facts (insert fact.fact_key (append_to (lookup fact.fact_key grouped) fact) grouped)

-- The loop that looks for the freshest candidate.
unfoldable pub freshest : CanonicalFact → List CanonicalFact → CanonicalFact
freshest winner [] = winner
freshest winner (candidate ∷ rest) =
    freshest
      (if is_gt (compare_freshness candidate.freshness winner.freshness) then candidate else winner)
      rest

unfoldable pub select_winners : Dict Group → Dict CanonicalFact → Dict CanonicalFact
select_winners [] winners = winners
select_winners ((fact_key, (first, rest)) ∷ grouped) winners =
    select_winners grouped (insert fact_key (freshest first rest) winners)

unfoldable pub winners_of : List CanonicalFact → Dict CanonicalFact
winners_of facts = select_winners (group_facts facts []) []

-- `fact.EventKey == winners[fact.FactKey].EventKey`; a missing winner is the zero fact.
abbrev pub has_event_key : Text → Option CanonicalFact → Bool
has_event_key event_key none = text_eq event_key []
has_event_key event_key (some winner) = text_eq event_key winner.event_key

unfoldable pub is_winner : Dict CanonicalFact → CanonicalFact → Bool
is_winner winners fact = has_event_key fact.event_key (lookup fact.fact_key winners)

abbrev pub decision_of :
    CanonicalFact → Result Error (DecisionAction × ReasonCode) → Result Error EventResolution
decision_of fact (err e) = err (evaluate_failed fact.event_key e)
decision_of fact (ok (action, reason)) = ok (resolution fact action reason)

unfoldable pub decide : Policy → Dict CanonicalFact → CanonicalFact → Result Error EventResolution
decide policy winners fact =
    if not (is_winner winners fact)
    then ok (resolution fact skip duplicate_or_older)
    else decision_of fact (evaluate policy fact)

unfoldable pub decide_all :
    Policy → Dict CanonicalFact → List CanonicalFact → Result Error (List EventResolution)
decide_all policy winners [] = ok []
decide_all policy winners (fact ∷ facts) = do
  decision ← decide policy winners fact
  decisions ← decide_all policy winners facts
  ok (decision ∷ decisions)

-- The `less` of the decisions.
unfoldable pub decision_less : EventResolution → EventResolution → Bool
decision_less left right =
    if not (text_eq left.event_key right.event_key)
    then text_ltb left.event_key right.event_key
    else text_ltb left.fact_key right.fact_key

abbrev pub is_process_now : DecisionAction → Bool
is_process_now process_now = true
is_process_now _ = false

unfoldable pub accepted_facts : List EventResolution → List CanonicalFact
accepted_facts [] = []
accepted_facts (decision ∷ decisions) =
    let rest = accepted_facts decisions in
    if is_process_now decision.action then decision.fact ∷ rest else rest

-- The `less` of the accepted facts.
unfoldable pub fact_less : CanonicalFact → CanonicalFact → Bool
fact_less left right =
    if before left.effective_time right.effective_time
    then true
    else if after left.effective_time right.effective_time
    then false
    else elim (compare_freshness left.freshness right.freshness) [
      | lt ↦ true
      | gt ↦ false
      | eq ↦
          if not (text_eq (event_type_name left.event_type) (event_type_name right.event_type))
          then text_ltb (event_type_name left.event_type) (event_type_name right.event_type)
          else text_ltb left.event_key right.event_key
    ]

abbrev pub or_canonicalize_failed :
    PhysicalEvent → Result Error CanonicalFact → Result Error CanonicalFact
or_canonicalize_failed event (ok fact) = ok fact
or_canonicalize_failed event (err e) = err (canonicalize_failed event.event_key e)

module _ ⦃s : Sorter⦄ where
  -- The last loops: the sorted decisions, and the projections of the facts to process, in order.
  unfoldable pub finish : List EventResolution → BatchResult
  finish unsorted =
      let decisions = s.sort_slice decision_less unsorted in
      record {
        decisions = decisions;
        projections = project (s.sort_slice fact_less (accepted_facts decisions)) [];
      }

module _ ⦃p : Platform⦄ ⦃s : Sorter⦄ ⦃u : Unicode⦄ where
  -- The first loop.
  unfoldable pub collect : Policy → List PhysicalEvent → Collected → Result Error Collected
  collect policy [] c = ok c
  collect policy (event ∷ events) c =
      or_canonicalize_failed event (canonicalize event policy.now) >>= λ fact.
      admit fact c >>= λ c'. collect policy events c'

  unfoldable pub resolve_batch : List PhysicalEvent → Policy → Result Error BatchResult
  resolve_batch events policy = do
    validate policy
    collected ← collect policy events nothing
    decided ← decide_all policy (winners_of collected.facts) collected.facts
    ok (finish (collected.decisions ++ decided))
