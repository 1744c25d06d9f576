-- ===== src/ReconcileCommand/Output.antt =====
-- When cmd/reconcile prints a result, and which.
use deterministic_identity_r.Prelude.{
  ℕ, ◌≡◌, ◌↔◌, refl, ap, ◌∙◌, Option, none, some, List, [], ◌∷◌, Result, ok, err, ◌>>=◌, >>=-eq-ok,
  ◌*◌,
}
use deterministic_identity_r.Prelude.Int.{pos}
use deterministic_identity_r.Prelude.Text.{Text, text, text_eq}
use deterministic_identity_r.Prelude.Text.Case.{Unicode}
use deterministic_identity_r.Prelude.Sort.{Sorter}
use deterministic_identity_r.Reconcile.Clock.{Time, normalize_time}
use deterministic_identity_r.Reconcile.Model.{PhysicalEvent, BatchResult, Error}
use deterministic_identity_r.Reconcile.Policy.{Policy, default_policy}
use deterministic_identity_r.Reconcile.Platform.{Platform}
use deterministic_identity_r.Reconcile.Resolve.{resolve_batch}
use deterministic_identity_r.ReconcileCommand.{
  Given, options_of, Host, NextDocument, ended, another, malformed, MainError, read_events,
  evaluation_time, main, or_fail, at_end, resolved, or_default, read_failed, decode_failed,
  now_invalid, encode_failed,
}

-- The policy of the reference framework: windows of 48 and 72 hours, and no cutoff.
abbrev pub reference_policy : Time → Policy
reference_policy now = record {
  now = normalize_time now;
  cutoff_time = none;
  retroactive_window = pos (48 * (3600 * 1000000000));
  hire_window = pos (72 * (3600 * 1000000000));
  past_end_grace = pos (72 * (3600 * 1000000000));
}

-- The path of the events.
abbrev pub given_path : Option Text → Text
given_path none = text "examples/events.json"
given_path (some path) = path

-- The time of evaluation: the one that -now says, or the current one without a -now or with an
-- empty one.
abbrev pub IsNow : Host → Option Text → Time → Type 0
IsNow host none now = host.current_time ≡ now
IsNow host (some []) now = host.current_time ≡ now
IsNow host (some (c ∷ t)) now = host.parse_time (c ∷ t) ≡ some now

or_fail-eq-ok :
    {A : Type 0} (o : Option A) (e : MainError) (a : A) → or_fail o e ≡ ok a → o ≡ some a
or_fail-eq-ok none e a h = cc
or_fail-eq-ok (some b) e a h = cc

at_end-eq-ok :
    (next : NextDocument) (events found : List PhysicalEvent)
    → at_end next found ≡ ok events
    → (next ≡ ended) × (found ≡ events)
at_end-eq-ok ended events found h = (refl, cc)
at_end-eq-ok another events found h = cc
at_end-eq-ok malformed events found h = cc

resolved-eq-ok : (r : Result Error BatchResult) (b : BatchResult) → resolved r ≡ ok b → r ≡ ok b
resolved-eq-ok (ok c) b h = cc
resolved-eq-ok (err e) b h = cc

-- The file holds a document of these events, and nothing behind it.
pub record IsFileOf (host : Host) (path : Text) (events : List PhysicalEvent) : Type 0 where
  pub content : List ℕ
  pub rest : List ℕ
  pub read : host.read_file path ≡ some content
  pub decoded : host.decode_events content ≡ some (events, rest)
  pub finished : host.decode_next rest ≡ ended

module _ (host : Host) where
  read_events-ok :
      (path : Text) (events : List PhysicalEvent)
      → read_events host path ≡ ok events
      → IsFileOf host path events
  unfolding read_events
  read_events-ok path events h =
      let (content, read, k) =
        >>=-eq-ok (or_fail (host.read_file path) read_failed)
          (λ content. or_fail (host.decode_events content) decode_failed >>= λ (found, rest).
            at_end (host.decode_next rest) found)
          h in
      let ((found, rest), decoded, l) =
        >>=-eq-ok (or_fail (host.decode_events content) decode_failed)
          (λ (found, rest). at_end (host.decode_next rest) found) k in
      let (finished, same) = at_end-eq-ok (host.decode_next rest) events found l in
      record {
        content = content;
        rest = rest;
        read = or_fail-eq-ok _ read_failed content read;
        decoded =
            or_fail-eq-ok _ decode_failed (found, rest) decoded ∙ ap (λ es. some (es, rest)) same;
        finished = finished;
      }

  ok-read_events :
      (path : Text) (events : List PhysicalEvent)
      → IsFileOf host path events
      → read_events host path ≡ ok events
  unfolding read_events
  ok-read_events path events f = rw (f.read, f.decoded, f.finished) refl

  time_iff :
      (given : Option Text) (now : Time)
      → (evaluation_time host (or_default given []) ≡ ok now) ↔ IsNow host given now
  unfolding evaluation_time text_eq
  time_iff none now = (λ h. cc, λ h. rw h refl)
  time_iff (some []) now = (λ h. cc, λ h. rw h refl)
  time_iff (some (c ∷ t)) now =
      (λ h. or_fail-eq-ok (host.parse_time (c ∷ t)) now_invalid now h, λ h. rw h refl)

  path_of : (given : Given) → (options_of given).input ≡ given_path given.input
  unfolding options_of
  path_of given = path_or_default given.input
    where
      path_or_default :
          (o : Option Text) → or_default o (text "examples/events.json") ≡ given_path o
      path_or_default none = refl
      path_or_default (some path) = refl

  now_of : (given : Given) → (options_of given).now ≡ or_default given.now []
  unfolding options_of
  now_of given = refl

  module _ ⦃p : Platform⦄ ⦃s : Sorter⦄ ⦃u : Unicode⦄ where
    -- A run that prints this text.
    pub record Prints (given : Given) (out : Text) : Type 0 where
      pub events : List PhysicalEvent
      pub now : Time
      pub result : BatchResult
      pub file : IsFileOf host (given_path given.input) events
      pub time : IsNow host given.now now
      pub resolves : resolve_batch events (reference_policy now) ≡ ok result
      pub encoded : host.encode result ≡ some out

    policy_of : (now : Time) → default_policy now ≡ reference_policy now
    unfolding default_policy
    policy_of now = refl

    output : Time → List PhysicalEvent → Result MainError Text
    output now events = resolved (resolve_batch events (default_policy now)) >>= λ result.
        or_fail (host.encode result) encode_failed

    main-Prints : (given : Given) (out : Text) → main host given ≡ ok out → Prints given out
    unfolding main output
    main-Prints given out h =
        let options = options_of given in
        let (events, read, k) =
          >>=-eq-ok (read_events host options.input)
            (λ events. evaluation_time host options.now >>= λ now. output now events) h in
        let (now, timed, l) =
          >>=-eq-ok (evaluation_time host options.now) (λ now. output now events) k in
        let (result, resolves, e) =
          >>=-eq-ok (resolved (resolve_batch events (default_policy now)))
            (λ result. or_fail (host.encode result) encode_failed) l in
        record {
          events = events;
          now = now;
          result = result;
          file = read_events-ok (given_path given.input) events (rw (path_of given) at read);
          time = (time_iff given.now now).0 (rw (now_of given) at timed);
          resolves =
              rw (policy_of now) at
                (resolved-eq-ok (resolve_batch events (default_policy now)) result resolves);
          encoded = or_fail-eq-ok (host.encode result) encode_failed out e;
        }

    -- The command prints a text exactly if the file of -input, or of the default path, holds one
    -- document of events and nothing behind it, -now is a time or missing, ResolveBatch returns a
    -- result for these events under the reference policy at that time, or at the current one, and
    -- the text is the encoding of this result.
    pub main-ok_iff : (given : Given) (out : Text) → (main host given ≡ ok out) ↔ Prints given out
    unfolding main
    main-ok_iff given out = (
      main-Prints given out,
      λ r.
          rw
            (
              path_of given,
              ok-read_events (given_path given.input) r.events r.file,
              now_of given,
              (time_iff given.now r.now).1 r.time,
              policy_of r.now,
              r.resolves,
              r.encoded,
            )
            refl,
    )
