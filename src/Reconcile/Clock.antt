-- ===== src/Reconcile/Clock.antt =====
-- time.Time and time.Duration, as far as pkg/reconcile uses them, and normalizeTime of
-- canonicalize.go. An instant is a number of nanoseconds since year 1; a time carries the offset
-- of its zone too. Monotonic clock readings are left out: Before, After and Sub read them only
-- where both operands have one, and here one operand is always a normalized time.
use deterministic_identity_r.Prelude.{◌-◌, ◌≡◌, Bool, if◌then◌else◌, arith, Ordering}
use deterministic_identity_r.Prelude.Int.{
  ℤ, pos, negsuc, ◌+ℤ◌, ◌-ℤ◌, ltb_ℤ, eq_ℤ, compare_ℤ, compare_ℤ-IsComparison,
}
use deterministic_identity_r.Prelude.Comparison.{IsComparison, is_lt, is_gt, pull_back-IsComparison}
use Prim.Native.Nat.{◌^◌}

pub record Time : Type 0 where
  pub wall : ℤ
  pub zone : ℤ

-- An int64 number of nanoseconds.
abbrev pub Duration : Type 0
Duration = ℤ

abbrev pub zero_time : Time
zero_time = record { wall = pos 0; zone = pos 0 }

unfoldable pub is_zero : Time → Bool
is_zero t = eq_ℤ t.wall (pos 0)

unfoldable pub before : Time → Time → Bool
before t u = ltb_ℤ t.wall u.wall

unfoldable pub after : Time → Time → Bool
after t u = ltb_ℤ u.wall t.wall

unfoldable pub add : Time → Duration → Time
add t d = record t { wall = t.wall +ℤ d }

abbrev pub max_duration : Duration
max_duration = pos (2 ^ 63 - 1)

abbrev pub min_duration : Duration
min_duration = negsuc (2 ^ 63 - 1)

-- Time.Sub stops at the ends of int64.
unfoldable pub sub : Time → Time → Duration
sub t u =
    let d = t.wall -ℤ u.wall in
    if ltb_ℤ max_duration d then max_duration else if ltb_ℤ d min_duration then min_duration else d

unfoldable pub negate : Duration → Duration
negate d = pos 0 -ℤ d

-- normalizeTime: the instant in UTC.
unfoldable pub normalize_time : Time → Time
unfolding is_zero
normalize_time value = if is_zero value then zero_time else record value { zone = pos 0 }

-- The comparison that `before` and `after` make.
unfoldable pub compare_time : Time → Time → Ordering
compare_time t u = compare_ℤ t.wall u.wall

pub compare_time-IsComparison : IsComparison compare_time
unfolding compare_time
compare_time-IsComparison = pull_back-IsComparison (λ (t : Time). t.wall) compare_ℤ-IsComparison

pub before-compare_time : (t u : Time) → before t u ≡ is_lt (compare_time t u)
unfolding before compare_time compare_ℤ
before-compare_time t u = ground arith

pub after-compare_time : (t u : Time) → after t u ≡ is_gt (compare_time t u)
unfolding after compare_time compare_ℤ
after-compare_time t u = ground arith

-- Normalizing keeps the instant and forgets the zone.
pub wall-normalize_time : (t : Time) → (normalize_time t).wall ≡ t.wall
unfolding normalize_time
wall-normalize_time t = ground arith

pub zone-normalize_time : (t : Time) → (normalize_time t).zone ≡ pos 0
unfolding normalize_time
zone-normalize_time t = ground arith

pub normalize_time_of_wall : (t u : Time) → t.wall ≡ u.wall → normalize_time t ≡ normalize_time u
unfolding normalize_time
normalize_time_of_wall t u h = ground arith
