-- ===== src/Reconcile/Policy.antt =====
-- policy.go: the decision policy.
pub mod Decisions
use deterministic_identity_r.Prelude.{
  Bool, true, false, not, ◌&&◌, if◌then◌else◌, Option, none, some, Result, ok, err, ◌>>=◌, ◌>>◌, ℕ,
  refuse_if, ◌*◌, ◌++◌,
}
use deterministic_identity_r.Prelude.Text.{Text, text}
use deterministic_identity_r.Prelude.Int.{pos, ltb_ℤ, leb_ℤ}
use deterministic_identity_r.Reconcile.Clock.{
  Time, Duration, is_zero, before, after, add, sub, negate, normalize_time,
}
use deterministic_identity_r.Reconcile.Model.{
  CanonicalFact, DecisionAction, process_now, schedule, skip, no_op, ReasonCode, accepted,
  accepted_retroactive, scheduled_future_hire, future_lifecycle, pre_cutoff, past_end_time,
  scope_mismatch, SourceScope, hire_snapshot, lifecycle, is_hire, Error, policy_now_required,
  retroactive_window_negative, hire_window_negative, past_end_grace_negative,
}

pub record Policy : Type 0 where
  pub now : Time
  pub cutoff_time : Option Time
  pub retroactive_window : Duration
  pub hire_window : Duration
  pub past_end_grace : Duration

-- A number of hours, in nanoseconds.
abbrev pub hours : ℕ
hours = 3600 * 1000000000

unfoldable pub default_policy : Time → Policy
unfolding normalize_time
default_policy now = record {
  now = normalize_time now;
  cutoff_time = none;
  retroactive_window = pos (48 * hours);
  hire_window = pos (72 * hours);
  past_end_grace = pos (72 * hours);
}

-- Policy.String, with time.RFC3339 and Duration.String as parameters.
unfoldable pub policy_string : (Time → Text) → (Duration → Text) → Policy → Text
policy_string rfc3339 duration_string p =
    text "now="
    ++ rfc3339 p.now
    ++ text " hire_window="
    ++ duration_string p.hire_window
    ++ text " retroactive_window="
    ++ duration_string p.retroactive_window
    ++ text " past_end_grace="
    ++ duration_string p.past_end_grace

unfoldable pub validate : Policy → Result Error (Unit {0})
unfolding is_zero
validate p = do
  refuse_if (is_zero p.now) policy_now_required
  refuse_if (ltb_ℤ p.retroactive_window (pos 0)) retroactive_window_negative
  refuse_if (ltb_ℤ p.hire_window (pos 0)) hire_window_negative
  refuse_if (ltb_ℤ p.past_end_grace (pos 0)) past_end_grace_negative
  ok tt

abbrev pub is_hire_snapshot : SourceScope → Bool
is_hire_snapshot hire_snapshot = true
is_hire_snapshot lifecycle = false

-- A time that may be missing is before another.
abbrev pub is_some_before : Option Time → Time → Bool
is_some_before none u = false
is_some_before (some t) u = before t u

-- `p.CutoffTime != nil && fact.EffectiveTime.Before(normalizeTime(*p.CutoffTime))`
unfoldable pub is_pre_cutoff : Option Time → Time → Bool
unfolding before normalize_time
is_pre_cutoff none effective = false
is_pre_cutoff (some cutoff) effective = before effective (normalize_time cutoff)

-- Evaluate behind its validation.
unfoldable pub decide_fact : Policy → CanonicalFact → DecisionAction × ReasonCode
decide_fact p fact =
    if is_hire_snapshot fact.source_scope && not (is_hire fact.event_type)
    then (no_op, scope_mismatch)
    else if not (is_hire_snapshot fact.source_scope) && is_hire fact.event_type
    then (no_op, scope_mismatch)
    else if is_some_before fact.end_time (add p.now (negate p.past_end_grace))
    then (skip, past_end_time)
    else if is_pre_cutoff p.cutoff_time fact.effective_time
    then (if before fact.modification_time (add p.now (negate p.retroactive_window))
        then (skip, pre_cutoff)
        else (process_now, accepted_retroactive))
    else if after fact.effective_time p.now
    then (if not (is_hire fact.event_type)
        then (skip, future_lifecycle)
        else if leb_ℤ (sub fact.effective_time p.now) p.hire_window
        then (process_now, accepted)
        else (schedule, scheduled_future_hire))
    else (process_now, accepted)

unfoldable pub evaluate : Policy → CanonicalFact → Result Error (DecisionAction × ReasonCode)
unfolding validate decide_fact
evaluate p fact = do validate p; ok (decide_fact p fact)
