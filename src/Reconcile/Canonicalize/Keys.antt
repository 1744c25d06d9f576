-- ===== src/Reconcile/Canonicalize/Keys.antt =====
-- makeFactKey: the fact key stands for the subject, the scope, the type and the effective time.
use mathlib.Core.List.{append_assoc}
use deterministic_identity_r.Prelude.{
  ℕ, ◌≡◌, refl, ap, ◌∙◌, sym, Bool, true, false, ◌||◌, ◌==◌, some, [], ◌∷◌, ◌++◌, arith,
}
use deterministic_identity_r.Prelude.Int.{ℤ, pos}
use deterministic_identity_r.Prelude.Text.{Text, text_eq, join}
use deterministic_identity_r.Reconcile.Clock.{Time}
use deterministic_identity_r.Reconcile.Model.{
  EventType, hire, rehire, data_update, leave, return_from_leave, conversion, transfer, termination,
  event_type_name, SourceScope, hire_snapshot, lifecycle, source_scope_name,
}
use deterministic_identity_r.Reconcile.Platform.{Platform}
use deterministic_identity_r.Reconcile.Canonicalize.{
  make_fact_key, unit_separator, parse_event_type, parse_source_scope,
}

-- The text has the character.
abbrev pub contains : ℕ → Text → Bool
contains c [] = false
contains c (d ∷ s) = c == d || contains c s

contains-append : (c : ℕ) (s t : Text) → contains c (s ++ (c ∷ t)) ≡ true
contains-append c [] t = ground arith
contains-append c (d ∷ s) t = ground (arith, contains-append c s t)

-- Where the last parts have no separator, they and what stands before them can be told from the
-- whole.
split_last :
    (c : ℕ) (a b s t : Text)
    → contains c s ≡ false
    → contains c t ≡ false
    → a ++ (c ∷ s) ≡ b ++ (c ∷ t)
    → (a ≡ b) × (s ≡ t)
split_last c [] [] s t hs ht e = ground arith
split_last c [] (y ∷ b) s t hs ht e = ground (arith, contains-append c b t)
split_last c (x ∷ a) [] s t hs ht e = ground (arith, contains-append c a s)
split_last c (x ∷ a) (y ∷ b) s t hs ht e = ground (arith, split_last c a b s t)

-- Reading a printed event type gives it back.
pub parse_event_type-event_type_name :
    (t : EventType) → parse_event_type (event_type_name t) ≡ some t
unfolding parse_event_type event_type_name text_eq
parse_event_type-event_type_name hire = refl
parse_event_type-event_type_name rehire = refl
parse_event_type-event_type_name data_update = refl
parse_event_type-event_type_name leave = refl
parse_event_type-event_type_name return_from_leave = refl
parse_event_type-event_type_name conversion = refl
parse_event_type-event_type_name transfer = refl
parse_event_type-event_type_name termination = refl

pub parse_source_scope-source_scope_name :
    (c : SourceScope) → parse_source_scope (source_scope_name c) ≡ some c
unfolding parse_source_scope source_scope_name text_eq
parse_source_scope-source_scope_name hire_snapshot = refl
parse_source_scope-source_scope_name lifecycle = refl

pub event_type_name_inj : (t u : EventType) → event_type_name t ≡ event_type_name u → t ≡ u
event_type_name_inj t u e =
    cc (
      ap parse_event_type e,
      parse_event_type-event_type_name t,
      parse_event_type-event_type_name u,
    )

pub source_scope_name_inj : (c d : SourceScope) → source_scope_name c ≡ source_scope_name d → c ≡ d
source_scope_name_inj c d e = cc (
  ap parse_source_scope e,
  parse_source_scope-source_scope_name c,
  parse_source_scope-source_scope_name d,
)

event_type_name-plain : (t : EventType) → contains 0x1f (event_type_name t) ≡ false
unfolding event_type_name
event_type_name-plain hire = refl
event_type_name-plain rehire = refl
event_type_name-plain data_update = refl
event_type_name-plain leave = refl
event_type_name-plain return_from_leave = refl
event_type_name-plain conversion = refl
event_type_name-plain transfer = refl
event_type_name-plain termination = refl

source_scope_name-plain : (c : SourceScope) → contains 0x1f (source_scope_name c) ≡ false
unfolding source_scope_name
source_scope_name-plain hire_snapshot = refl
source_scope_name-plain lifecycle = refl

-- What RFC3339Nano does with times in UTC: the text has no unit separator, and tells the instants
-- of the years that it can write from one another.
pub record IsFaithfulFormat (p : Platform) (InRange : ℤ → Type 0) : Type 0 where
  pub plain : (t : Time) → contains 0x1f (p.format_time t) ≡ false
  pub injective :
      (t u : Time)
      → InRange t.wall
      → InRange u.wall
      → t.zone ≡ pos 0
      → u.zone ≡ pos 0
      → p.format_time t ≡ p.format_time u
      → t.wall ≡ u.wall

module _ ⦃p : Platform⦄ {InRange : ℤ → Type 0} (faithful : IsFaithfulFormat p InRange) where
  left_nested :
      (a c t e : Text)
      → join (a ∷ c ∷ t ∷ e ∷ []) unit_separator ≡ ((a ++ (0x1f ∷ c)) ++ (0x1f ∷ t)) ++ (0x1f ∷ e)
  unfolding join
  left_nested a c t e = simp append_assoc

  -- Facts have one fact key only if they have the same subject, scope, type and effective instant,
  -- whatever characters the subjects have, for effective times in UTC of the range that RFC3339
  -- writes faithfully.
  pub make_fact_key_inj :
      (a b : Text) (c d : SourceScope) (t u : EventType) (x y : Time)
      → InRange x.wall
      → InRange y.wall
      → x.zone ≡ pos 0
      → y.zone ≡ pos 0
      → make_fact_key a c t x ≡ make_fact_key b d u y
      → (a ≡ b) × (c ≡ d) × (t ≡ u) × (x.wall ≡ y.wall)
  unfolding make_fact_key
  make_fact_key_inj a b c d t u x y hx hy ux uy e =
      let whole = sym (left_nested a _ _ _) ∙ e ∙ left_nested b _ _ _ in
      let (rest, times) = split_last 0x1f _ _ _ _ (faithful.plain x) (faithful.plain y) whole in
      let (front, types) =
        split_last 0x1f _ _ _ _ (event_type_name-plain t) (event_type_name-plain u) rest in
      let (subjects, scopes) =
        split_last 0x1f _ _ _ _ (source_scope_name-plain c) (source_scope_name-plain d) front in
      (
        subjects,
        source_scope_name_inj c d scopes,
        event_type_name_inj t u types,
        faithful.injective x y hx hy ux uy times,
      )
