-- ===== src/Reconcile/Policy/Decisions.antt =====
-- Which facts Policy.Evaluate applies and which it schedules, by the instants on one time line
-- (docs/specification.md, section 5).
use deterministic_identity_r.Prelude.{◌≡◌, ◌↔◌, ◌⊎◌, true, false, Option, none, some, arith, ok}
use deterministic_identity_r.Prelude.Int.{pos, ◌+ℤ◌, ◌-ℤ◌, ◌≤ℤ◌, ◌<ℤ◌, leb_ℤ, +ℤ_parts}
use deterministic_identity_r.Reconcile.Clock.{
  Time, Duration, before, after, add, sub, negate, normalize_time, wall-normalize_time,
  max_duration,
}
use deterministic_identity_r.Reconcile.Model.{
  CanonicalFact, ReasonCode, process_now, schedule, is_hire,
}
use deterministic_identity_r.Reconcile.Policy.{
  Policy, is_hire_snapshot, is_some_before, is_pre_cutoff, decide_fact, evaluate, validate,
}

before_shifted :
    (t now : Time) (d : Duration)
    → (before t (add now (negate d)) ≡ true) ↔ (t.wall +ℤ d <ℤ now.wall)
unfolding before add negate ◌+ℤ◌ ◌-ℤ◌
before_shifted t now d = ground arith

before_instant : (t u : Time) → (before t u ≡ true) ↔ (t.wall <ℤ u.wall)
unfolding before
before_instant t u = ground arith

after_instant : (t u : Time) → (after t u ≡ true) ↔ (u.wall <ℤ t.wall)
unfolding after
after_instant t u = ground arith

-- Where the window is below the largest duration, the saturation of Sub does not show.
sub_within :
    (t u : Time) (d : Duration)
    → d <ℤ max_duration
    → pos 0 ≤ℤ d
    → (leb_ℤ (sub t u) d ≡ true) ↔ (t.wall ≤ℤ u.wall +ℤ d)
unfolding sub ◌+ℤ◌ ◌-ℤ◌
sub_within t u d h k = ground arith

-- The scope is the one that the event type belongs to.
abbrev pub InScope : CanonicalFact → Type 0
InScope f = is_hire_snapshot f.source_scope ≡ is_hire f.event_type

-- The end time, if any, is at most the grace period ago.
abbrev pub EndsLate : Policy → Option Time → Type 0
EndsLate p none = Unit {0}
EndsLate p (some e) = p.now.wall ≤ℤ e.wall +ℤ p.past_end_grace

-- The fact takes effect before a cutoff that the policy sets.
abbrev pub BeforeCutoff : Option Time → Time → Type 0
BeforeCutoff none t = ⊥
BeforeCutoff (some c) t = t.wall <ℤ c.wall

abbrev pub NotBeforeCutoff : Option Time → Time → Type 0
NotBeforeCutoff none t = Unit {0}
NotBeforeCutoff (some c) t = c.wall ≤ℤ t.wall

EndsLate-iff :
    (p : Policy) (e : Option Time)
    → (is_some_before e (add p.now (negate p.past_end_grace)) ≡ false) ↔ EndsLate p e
EndsLate-iff p none = ground arith
EndsLate-iff p (some e) = ground (arith, before_shifted e p.now p.past_end_grace)

BeforeCutoff-iff : (c : Option Time) (t : Time) → (is_pre_cutoff c t ≡ true) ↔ BeforeCutoff c t
unfolding is_pre_cutoff
BeforeCutoff-iff none t = ground arith
BeforeCutoff-iff (some c) t =
    ground (arith, before_instant t (normalize_time c), wall-normalize_time c)

NotBeforeCutoff-iff :
    (c : Option Time) (t : Time) → (is_pre_cutoff c t ≡ false) ↔ NotBeforeCutoff c t
unfolding is_pre_cutoff
NotBeforeCutoff-iff none t = ground arith
NotBeforeCutoff-iff (some c) t =
    ground (arith, before_instant t (normalize_time c), wall-normalize_time c)

module _ (p : Policy) (f : CanonicalFact) where
  -- A fact before the cutoff is applied if it was modified within the retroactive window, another
  -- if it is due, or is a hire that takes effect within the hire window.
  abbrev pub IsTimely : Type 0
  IsTimely =
      (BeforeCutoff p.cutoff_time f.effective_time
        × (p.now.wall ≤ℤ f.modification_time.wall +ℤ p.retroactive_window))
      ⊎ (NotBeforeCutoff p.cutoff_time f.effective_time
          × ((f.effective_time.wall ≤ℤ p.now.wall)
              ⊎ ((is_hire f.event_type ≡ true)
                  × (f.effective_time.wall ≤ℤ p.now.wall +ℤ p.hire_window))))

  module _ (small : p.hire_window <ℤ max_duration) (sound : validate p ≡ ok tt) where
    window_nonneg : pos 0 ≤ℤ p.hire_window
    unfolding validate
    window_nonneg = ground arith

    action_process_now :
        ((decide_fact p f).0 ≡ process_now) ↔ (InScope f × EndsLate p f.end_time × IsTimely)
    unfolding decide_fact
    action_process_now = ground (
      arith,
      EndsLate-iff p f.end_time,
      BeforeCutoff-iff p.cutoff_time f.effective_time,
      NotBeforeCutoff-iff p.cutoff_time f.effective_time,
      before_shifted f.modification_time p.now p.retroactive_window,
      after_instant f.effective_time p.now,
      sub_within f.effective_time p.now p.hire_window small window_nonneg,
    )

    action_schedule : ((decide_fact p f).0 ≡ schedule) ↔ (
        InScope f
        × EndsLate p f.end_time
        × NotBeforeCutoff p.cutoff_time f.effective_time
        × (is_hire f.event_type ≡ true)
        × (p.now.wall +ℤ p.hire_window <ℤ f.effective_time.wall))
    unfolding decide_fact
    action_schedule = ground (
      arith,
      EndsLate-iff p f.end_time,
      BeforeCutoff-iff p.cutoff_time f.effective_time,
      NotBeforeCutoff-iff p.cutoff_time f.effective_time,
      after_instant f.effective_time p.now,
      sub_within f.effective_time p.now p.hire_window small window_nonneg,
      +ℤ_parts p.now.wall p.hire_window,
      window_nonneg,
    )

    evaluate-decide_fact : evaluate p f ≡ ok (decide_fact p f)
    unfolding evaluate
    evaluate-decide_fact = rw sound

    -- Under a valid policy whose hire window is below the largest duration, a fact is applied
    -- exactly if its scope is that of its event type, its end time is at most the grace period
    -- ago, and it is timely: before the cutoff and modified within the retroactive window, or not
    -- before the cutoff and either due or a hire within the hire window.
    pub evaluate-process_now_iff :
        ((r : ReasonCode) × (evaluate p f ≡ ok (process_now, r)))
        ↔ (InScope f × EndsLate p f.end_time × IsTimely)
    evaluate-process_now_iff = (
      λ (r, h). action_process_now.0 (ground (arith, evaluate-decide_fact)),
      λ h. ((decide_fact p f).1, ground (arith, evaluate-decide_fact, action_process_now.1 h)),
    )

    -- Under such a policy a fact is scheduled exactly if it is a hire from the hire snapshot whose
    -- end time is at most the grace period ago, is not before the cutoff, and takes effect after
    -- the hire window.
    pub evaluate-schedule_iff : ((r : ReasonCode) × (evaluate p f ≡ ok (schedule, r))) ↔ (
        InScope f
        × EndsLate p f.end_time
        × NotBeforeCutoff p.cutoff_time f.effective_time
        × (is_hire f.event_type ≡ true)
        × (p.now.wall +ℤ p.hire_window <ℤ f.effective_time.wall))
    evaluate-schedule_iff = (
      λ (r, h). action_schedule.0 (ground (arith, evaluate-decide_fact)),
      λ h. ((decide_fact p f).1, ground (arith, evaluate-decide_fact, action_schedule.1 h)),
    )
