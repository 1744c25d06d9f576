-- ===== src/ReconcileCommand.antt =====
-- cmd/reconcile/main.go: a file of events, resolved under the default policy.
pub mod Output
use deterministic_identity_r.Prelude.{
  ℕ, ◌≡◌, Bool, true, false, if◌then◌else◌, Option, none, some, List, [], Result, ok, err, ◌>>=◌,
}
use deterministic_identity_r.Prelude.Text.{Text, text, text_eq}
use deterministic_identity_r.Prelude.Text.Case.{Unicode}
use deterministic_identity_r.Prelude.Sort.{Sorter}
use deterministic_identity_r.Reconcile.Clock.{Time}
use deterministic_identity_r.Reconcile.Model.{PhysicalEvent, BatchResult, Error}
use deterministic_identity_r.Reconcile.Policy.{default_policy}
use deterministic_identity_r.Reconcile.Platform.{Platform}
use deterministic_identity_r.Reconcile.Resolve.{resolve_batch}

-- What flag.Parse finds of -input and -now.
pub record Given : Type 0 where
  pub input : Option Text
  pub now : Option Text

-- The values of -input and -now.
pub record Options : Type 0 where
  pub input : Text
  pub now : Text

abbrev pub or_default : Option Text → Text → Text
or_default none value = value
or_default (some given) value = given

-- The flags with their defaults.
unfoldable pub options_of : Given → Options
options_of given = record {
  input = or_default given.input (text "examples/events.json");
  now = or_default given.now [];
}

-- What Decoder.Decode finds behind the first document: io.EOF, another document, or neither.
pub data NextDocument : Type 0 where
  ended another malformed : NextDocument

-- What the command takes from packages os, encoding/json and time: os.ReadFile, the first and the
-- second call of Decode, where the first leaves the input that it has not read, the current time,
-- time.Parse with RFC3339Nano, and the indented encoding of a result.
pub record Host : Type 0 where
  pub read_file : Text → Option (List ℕ)
  pub decode_events : List ℕ → Option (List PhysicalEvent × List ℕ)
  pub decode_next : List ℕ → NextDocument
  pub current_time : Time
  pub parse_time : Text → Option Time
  pub encode : BatchResult → Option Text

pub data MainError : Type 0 where
  read_failed decode_failed several_documents now_invalid encode_failed : MainError
  resolve_failed : Error → MainError

abbrev pub or_fail : {A : Type 0} → Option A → MainError → Result MainError A
or_fail none e = err e
or_fail (some a) e = ok a

-- The second call of Decode must find the end.
abbrev pub at_end : NextDocument → List PhysicalEvent → Result MainError (List PhysicalEvent)
at_end ended events = ok events
at_end another events = err several_documents
at_end malformed events = err decode_failed

abbrev pub resolved : Result Error BatchResult → Result MainError BatchResult
resolved (err e) = err (resolve_failed e)
resolved (ok r) = ok r

module _ (host : Host) where
  unfoldable pub read_events : Text → Result MainError (List PhysicalEvent)
  read_events path = do
    content ← or_fail (host.read_file path) read_failed
    (events, rest) ← or_fail (host.decode_events content) decode_failed
    at_end (host.decode_next rest) events

  unfoldable pub evaluation_time : Text → Result MainError Time
  evaluation_time now =
      if text_eq now [] then ok host.current_time else or_fail (host.parse_time now) now_invalid

  module _ ⦃p : Platform⦄ ⦃s : Sorter⦄ ⦃u : Unicode⦄ where
    -- main: the printed result.
    unfoldable pub main : Given → Result MainError Text
    unfolding options_of
    main given = do
      let options = options_of given
      events ← read_events options.input
      now ← evaluation_time options.now
      result ← resolved (resolve_batch events (default_policy now))
      or_fail (host.encode result) encode_failed
