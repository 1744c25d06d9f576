-- ===== src/Reconcile/Converge.antt =====
-- StateEquivalent, stringMapsEqual and Converge of resolve.go. The target system is a state that
-- the adapter's calls read and change.
pub mod Equality
use deterministic_identity_r.Prelude.{
  ℕ, suc, Bool, true, false, not, ◌&&◌, ◌==◌, if◌then◌else◌, Option, none, some, List, [], ◌∷◌,
  Result, ok, err,
}
use deterministic_identity_r.Prelude.Text.{Text, text_eq}
use deterministic_identity_r.Prelude.Dict.{Dict, lookup}
use deterministic_identity_r.Reconcile.Model.{
  ObservedState, DesiredState, ConvergenceResult, unchanged, updated,
}

abbrev pub length {ℓ} : {A : Type ℓ} → List A → ℕ
length [] = 0
length (x ∷ xs) = suc (length xs)

abbrev pub bool_eq : Bool → Bool → Bool
bool_eq true b = b
bool_eq false b = not b

abbrev pub is_value : Option Text → Text → Bool
is_value none v = false
is_value (some w) v = text_eq w v

-- The loop of stringMapsEqual: each entry of the first map is an entry of the second.
unfoldable pub all_entries_in : Dict Text → Dict Text → Bool
all_entries_in [] right = true
all_entries_in ((k, v) ∷ left) right = is_value (lookup k right) v && all_entries_in left right

unfoldable pub string_maps_equal : Dict Text → Dict Text → Bool
string_maps_equal left right =
    if not (length left == length right) then false else all_entries_in left right

unfoldable pub state_equivalent : ObservedState → DesiredState → Bool
state_equivalent observed desired =
    if not (bool_eq observed.exists desired.exists)
    then false
    else if not desired.exists
    then true
    else if not (bool_eq observed.enabled desired.enabled)
    then false
    else string_maps_equal observed.attributes desired.attributes

-- TargetAdapter over a target in a state of type S, with errors of type E. The comparator is there
-- if the adapter implements TargetStateComparator.
pub record TargetAdapter (S E : Type 0) : Type 0 where
  pub observe : Text → S → Result E ObservedState × S
  pub apply : DesiredState → S → Result E (Unit {0}) × S
  pub comparator : Option (ObservedState → DesiredState → Bool)

pub data ConvergeError (E : Type 0) : Type 0 where
  adapter_required : ConvergeError E
  observe_failed : Text → E → ConvergeError E
  apply_failed : Text → E → ConvergeError E

abbrev pub result : ObservedState → Bool → ConvergenceResult
result observed true = record { action = updated; observed = observed }
result observed false = record { action = unchanged; observed = observed }

module _ {S E : Type 0} where
  -- The adapter's own comparison wins over the default.
  abbrev pub equivalent : TargetAdapter S E → ObservedState → DesiredState → Bool
  equivalent a observed desired = elim a.comparator [
    | none ↦ state_equivalent observed desired
    | some compare ↦ compare observed desired
  ]

  abbrev pub after_apply :
      DesiredState
      → ObservedState
      → Result E (Unit {0}) × S
      → Result (ConvergeError E) ConvergenceResult × S
  after_apply desired observed (ok _, s) = (ok (result observed true), s)
  after_apply desired observed (err e, s) = (err (apply_failed desired.subject_id e), s)

  abbrev pub after_observe :
      TargetAdapter S E
      → DesiredState
      → Result E ObservedState × S
      → Result (ConvergeError E) ConvergenceResult × S
  after_observe a desired (err e, s) = (err (observe_failed desired.subject_id e), s)
  after_observe a desired (ok observed, s) =
      if equivalent a observed desired
      then (ok (result observed false), s)
      else after_apply desired observed (a.apply desired s)

  unfoldable pub converge :
      Option (TargetAdapter S E) → DesiredState → S → Result (ConvergeError E) ConvergenceResult × S
  converge none desired s = (err adapter_required, s)
  converge (some a) desired s = after_observe a desired (a.observe desired.subject_id s)
