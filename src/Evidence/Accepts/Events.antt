-- ===== src/Evidence/Accepts/Events.antt =====
-- The events that the orchestrator appends, as the validator reads them.
use liderahenk_test_platform.Base.{
  ℕ, ◌+◌, ◌<◌, String, ◌<>◌, ◌≡◌, refl, true, List, [], ◌∷◌, ◌++◌, map, arith, eq_iff, contains,
  All,
}
use liderahenk_test_platform.Base.Text.{decimal}
use liderahenk_test_platform.Json.{Value, str, obj, Fields, get, value_eq}
use liderahenk_test_platform.Result.{ok}
use liderahenk_test_platform.Artifacts.{RunManifest, Verdict, event_json}
use liderahenk_test_platform.Evidence.Contract.{
  in_set, require_fields, parsed, lines, load_json, load_lines, load_events, event_phases,
}
use liderahenk_test_platform.Evidence.{event_errors, events_errors, last_of}

abbrev pub statuses : List String
statuses = "pass" ∷ "fail" ∷ []

-- An event that `write_artifacts` can append in the run `run_id`.
pub data IsEvent (run_id : String) : Fields → Type 0 where
  event :
      (m : RunManifest) (v : Verdict) (attempt : ℕ) (phase : String)
      → m.run_id ≡ run_id
      → 0 < attempt
      → contains event_phases phase ≡ true
      → contains statuses v.evaluation.status ≡ true
      → IsEvent run_id (event_json m v attempt phase)

load_lines-parsed : (i : ℕ) (fs : List Fields) → load_lines i (map parsed (map obj fs)) ≡ (fs, [])
unfolding load_lines load_json
load_lines-parsed i [] = refl
load_lines-parsed i (f ∷ fs) = rw (load_lines-parsed (i + 1) fs)

pub load_events-parsed :
    (f : Fields) (fs : List Fields)
    → load_events (lines (map parsed (map obj (f ∷ fs)))) ≡ (f ∷ fs, [])
unfolding load_events
load_events-parsed f fs = load_lines-parsed 1 (f ∷ fs)

module _ (repr : Value → String) where
  event_errors-IsEvent :
      (run_id label : String) {ev : Fields}
      → IsEvent run_id ev
      → event_errors repr (str run_id) label ev ≡ ok []
  unfolding event_errors require_fields in_set value_eq
  event_errors-IsEvent run_id label (event m v attempt phase same pos_attempt p q) =
      ground (arith, eq_iff m.run_id run_id)

  pub events_errors-IsEvent :
      (run_id : String) (i : ℕ) (fs : List Fields)
      → All (IsEvent run_id) fs
      → events_errors repr (str run_id) i fs ≡ ok []
  unfolding events_errors
  events_errors-IsEvent run_id i [] h = refl
  events_errors-IsEvent run_id i (f ∷ fs) h = rw (
    event_errors-IsEvent run_id ("registration-events.jsonl:" <> decimal i) h.0,
    events_errors-IsEvent run_id (i + 1) fs h.1,
  )

pub last_of-append :
    (k : String) (fs : List Fields) (f : Fields) → last_of k (fs ++ (f ∷ [])) ≡ get k f
unfolding last_of
last_of-append k [] f = refl
last_of-append k (g ∷ []) f = refl
last_of-append k (g ∷ g' ∷ fs) f = last_of-append k (g' ∷ fs) f
