-- ===== src/Examples.antt =====
-- Concrete parameters and inputs, on which the tests run and the results are applied.
mod Engine
mod Batch
mod Targets
mod Store
mod Tables
mod Scim
mod Command
mod Http
mod Success
mod Invocation
mod Leftovers
mod Versions
mod Pipeline
mod Selection
use deterministic_identity_r.Prelude.{
  ◌≡◌, ℕ, ◌+◌, Bool, true, false, Option, none, some, List, [], ◌∷◌, refl, arith, Ordering,
}
use deterministic_identity_r.Prelude.Int.{ℤ, pos, negsuc}
use deterministic_identity_r.Prelude.Text.{Text, text, compare_text, compare_text-IsComparison}
use deterministic_identity_r.Prelude.Text.Case.{Unicode}
use deterministic_identity_r.Prelude.Sort.{Sorter}
use deterministic_identity_r.Prelude.Sort.Insertion.{insertion_sorter}
use deterministic_identity_r.Reconcile.Clock.{Time}
use deterministic_identity_r.Reconcile.Model.{PhysicalEvent, Fields, end}
use deterministic_identity_r.Reconcile.Platform.{Platform, HashEnvelope}
use deterministic_identity_r.Reconcile.Policy.{Policy}
use deterministic_identity_r.Reconcile.Canonicalize.Keys.{IsFaithfulFormat, contains}

-- Texts of ASCII only.
instance abbrev pub ascii : Unicode
ascii = record { lower = λ c. c; fold = λ c. c }

instance abbrev pub sorting : Sorter
sorting = insertion_sorter

-- An instant written as one character, after a minus sign if it is negative.
abbrev pub write_instant : ℤ → Text
write_instant (pos n) = (n + 32) ∷ []
write_instant (negsuc n) = 45 ∷ (n + 32) ∷ []

-- A digest by the sequence alone.
instance abbrev pub platform : Platform
platform = record {
  format_time = λ t. write_instant t.wall;
  format_float = λ bits. bits ∷ [];
  digest = λ e. some (write_instant e.source_sequence);
}

abbrev pub AnyInstant : ℤ → Type 0
AnyInstant n = Unit {0}

write_instant_inj : (m n : ℤ) → write_instant m ≡ write_instant n → m ≡ n
write_instant_inj m n e = ground arith

write_instant-plain : (n : ℤ) → contains 0x1f (write_instant n) ≡ false
write_instant-plain (pos n) = ground arith
write_instant-plain (negsuc n) = ground arith

pub platform-IsFaithfulFormat : IsFaithfulFormat platform AnyInstant
platform-IsFaithfulFormat = record {
  plain = λ t. write_instant-plain t.wall;
  injective = λ t u _ _ _ _ e. write_instant_inj t.wall u.wall e;
}

abbrev pub utc : ℕ → Time
utc n = record { wall = pos n; zone = pos 0 }

abbrev pub policy : Policy
policy = record {
  now = utc 1000;
  cutoff_time = none;
  retroactive_window = pos 48;
  hire_window = pos 72;
  past_end_grace = pos 72;
}

-- An event of the subject "u", by key, type, scope, effective time and sequence.
abbrev pub event_of : Text → Text → Text → ℕ → ℕ → PhysicalEvent
event_of key event_type scope effective sequence = record {
  event_key = key;
  subject_id = text "u";
  event_type = event_type;
  source_scope = scope;
  effective_time = utc effective;
  end_time = none;
  modification_time = utc 900;
  source_sequence = pos sequence;
  revision_number = pos 0;
  payload = none;
}

abbrev pub hired : PhysicalEvent
hired = event_of (text " e1 ") (text "HIRE") (text "hire_snapshot") 800 1

abbrev pub left : PhysicalEvent
left = event_of (text "e2") (text "leave") (text "lifecycle") 900 2
