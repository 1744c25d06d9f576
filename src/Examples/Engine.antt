-- ===== src/Examples/Engine.antt =====
-- Canonicalization on the events of the examples.
use deterministic_identity_r.Prelude.{◌↔◌, arith, ◌≡◌, ℕ, ◌+◌, ◌++◌, refl, some, none, [], ◌∷◌, ok}
use deterministic_identity_r.Prelude.Int.{pos, ◌<ℤ◌}
use deterministic_identity_r.Prelude.Comparison.{eq}
use deterministic_identity_r.Prelude.Dict.{lookup, IsUnique, SameMap, has_key}
use deterministic_identity_r.Prelude.Text.{
  Text, text, text_eq, text_eq→≡, compare_text, trim_space, join,
}
use deterministic_identity_r.Prelude.Text.Case.{to_lower}
use deterministic_identity_r.Reconcile.Clock.{before, after, max_duration, normalize_time, is_zero}
use deterministic_identity_r.Reconcile.Model.{
  FreshnessTuple, object, string, field, CanonicalFact, Fields, end, hire, hire_snapshot,
  event_type_name, source_scope_name, entries, EventType, SourceScope,
}
use deterministic_identity_r.Reconcile.Canonicalize.{
  canonicalize, build_fact, hash_envelope, make_fact_key, parse_event_type, parse_source_scope,
}
use deterministic_identity_r.Reconcile.Canonicalize.Attributes.{
  attributes_from_payload, attributes_from_values, attribute_values, collect_attributes,
}
use deterministic_identity_r.Reconcile.Policy.{evaluate, validate}
use deterministic_identity_r.Reconcile.Model.{process_now, ReasonCode}
use deterministic_identity_r.Reconcile.Policy.Decisions.{
  InScope, EndsLate, IsTimely, evaluate-process_now_iff,
}
use deterministic_identity_r.Reconcile.Freshness.{
  compare_freshness, lexicographic, compare_freshness-eq-lexicographic,
}
use deterministic_identity_r.Reconcile.Canonicalize.Facts.{rezone, canonicalize-rezone}
use deterministic_identity_r.Reconcile.Canonicalize.Keys.{make_fact_key_inj}
use deterministic_identity_r.Reconcile.Canonicalize.AttributeOrder.{attributes_from_payload-SameMap}
use deterministic_identity_r.Examples.{
  platform-IsFaithfulFormat, ascii, sorting, platform, utc, policy, hired,
}

abbrev pub fact_of : Text → Text → EventType → SourceScope → ℕ → ℕ → CanonicalFact
fact_of key fact_key event_type scope effective sequence = record {
  fact_key = fact_key;
  event_key = key;
  subject_id = text "u";
  event_type = event_type;
  source_scope = scope;
  effective_time = utc effective;
  end_time = none;
  modification_time = utc 900;
  received_at = utc 1000;
  freshness = record {
    source_sequence = pos sequence;
    modification_time = utc 900;
    revision_number = pos 0;
    physical_event_key = key;
  };
  payload_hash = (sequence + 32) ∷ [];
  payload = end;
  attributes = [];
}

abbrev pub key_of : EventType → SourceScope → ℕ → Text
key_of event_type scope effective =
    text "u"
    ++ (0x1f ∷ source_scope_name scope)
    ++ (0x1f ∷ event_type_name event_type)
    ++ (0x1f ∷ (effective + 32) ∷ [])

abbrev pub hired_fact : CanonicalFact
hired_fact = fact_of (text "e1") (key_of hire hire_snapshot 800) hire hire_snapshot 800 1

pub hired_canonical : canonicalize hired policy.now ≡ ok hired_fact
unfolding canonicalize build_fact hash_envelope make_fact_key parse_event_type parse_source_scope
    text_eq trim_space join to_lower normalize_time is_zero event_type_name source_scope_name
    entries attributes_from_payload attributes_from_values attribute_values collect_attributes
    lookup
hired_canonical = refl

abbrev earlier_tuple : FreshnessTuple
earlier_tuple = hired_fact.freshness

abbrev elsewhere_tuple : FreshnessTuple
elsewhere_tuple = record earlier_tuple {
  modification_time = record { wall = pos 900; zone = pos 3600 };
}

abbrev later_tuple : FreshnessTuple
later_tuple = record earlier_tuple { revision_number = pos 3 }

compare_freshness-eq-lexicographic_example :
    compare_freshness later_tuple earlier_tuple ≡ lexicographic later_tuple earlier_tuple
compare_freshness-eq-lexicographic_example =
    compare_freshness-eq-lexicographic later_tuple earlier_tuple

same_instant : compare_freshness earlier_tuple elsewhere_tuple ≡ eq
unfolding compare_freshness before after compare_text
same_instant = refl

policy-valid : validate policy ≡ ok tt
unfolding validate is_zero
policy-valid = refl

hire_window-small : policy.hire_window <ℤ max_duration
hire_window-small = ground arith

evaluate-process_now_iff_example :
    ((r : ReasonCode) × (evaluate policy hired_fact ≡ ok (process_now, r)))
    ↔ (InScope hired_fact × EndsLate policy hired_fact.end_time × IsTimely policy hired_fact)
evaluate-process_now_iff_example =
    evaluate-process_now_iff policy hired_fact hire_window-small policy-valid

canonicalize-rezone_example :
    canonicalize (rezone (pos 3600) (pos 60) (pos 0) hired) policy.now
    ≡ canonicalize hired policy.now
canonicalize-rezone_example = canonicalize-rezone (pos 3600) (pos 60) (pos 0) hired policy.now

make_fact_key_inj_example :
    (text "u" ≡ text "u") × (hire_snapshot ≡ hire_snapshot) × (hire ≡ hire) × (pos 800 ≡ pos 800)
make_fact_key_inj_example =
    make_fact_key_inj platform-IsFaithfulFormat (text "u") (text "u") hire_snapshot hire_snapshot
      hire hire (utc 800) (utc 800) tt tt refl refl refl

abbrev site_first : Fields
site_first = field (text "site") (string (text "x")) (field (text "team") (string (text "y")) end)

abbrev team_first : Fields
team_first = field (text "team") (string (text "y")) (field (text "site") (string (text "x")) end)

abbrev with_attributes : Fields → Fields
with_attributes m = field (text "attributes") (object m) end

found_attributes :
    (m : Fields) → lookup (text "attributes") (entries (with_attributes m)) ≡ some (object m)
unfolding lookup entries text_eq
found_attributes m = refl

site_first-IsUnique : IsUnique (entries site_first)
unfolding entries has_key text_eq
site_first-IsUnique = (refl, (refl, tt))

team_first-IsUnique : IsUnique (entries team_first)
unfolding entries has_key text_eq
team_first-IsUnique = (refl, (refl, tt))

same_attributes : SameMap (entries site_first) (entries team_first)
unfolding lookup entries
same_attributes k = ground (arith, text_eq→≡ (text "site") k, text_eq→≡ (text "team") k)

attributes_from_payload-SameMap_example :
    attributes_from_payload (with_attributes site_first)
    ≡ attributes_from_payload (with_attributes team_first)
attributes_from_payload-SameMap_example =
    attributes_from_payload-SameMap (with_attributes site_first) (with_attributes team_first)
      site_first team_first (found_attributes site_first) (found_attributes team_first)
      site_first-IsUnique team_first-IsUnique same_attributes
