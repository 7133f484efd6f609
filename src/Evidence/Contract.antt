-- ===== src/Evidence/Contract.antt =====
-- The contract's lists, the helpers that collect messages, and the loaders.
use liderahenk_test_platform.Base.{
  ℕ, ◌+◌, String, ◌<>◌, Bool, true, false, not, Option, none, some, List, [], ◌∷◌, ◌++◌, contains,
}
use liderahenk_test_platform.Base.Text.{decimal}
use liderahenk_test_platform.Json.{Value, str, arr, obj, Fields, has}
use liderahenk_test_platform.Result.{Result, ok, err}

abbrev pub required_artifacts : List String
required_artifacts =
    "run-manifest.json" ∷ "registration-verdict.json" ∷ "registration-events.jsonl"
    ∷ "failure-summary.json" ∷ []

abbrev pub run_manifest_required_fields : List String
run_manifest_required_fields =
    "schemaVersion" ∷ "runId" ∷ "runtimeProfile" ∷ "expectedAgents" ∷ "startedAt" ∷ "timeoutSeconds"
    ∷ "backoff" ∷ []

abbrev pub registration_verdict_required_fields : List String
registration_verdict_required_fields =
    "schemaVersion" ∷ "runId" ∷ "status" ∷ "runtimeProfile" ∷ "expectedAgents" ∷ "checks"
    ∷ "taxonomy" ∷ "surfaces" ∷ "perAgent" ∷ "capturedAt" ∷ []

abbrev pub failure_summary_required_fields : List String
failure_summary_required_fields =
    "schemaVersion" ∷ "runId" ∷ "status" ∷ "capturedAt" ∷ "failedChecks" ∷ "taxonomy" ∷ []

abbrev pub registration_event_required_fields : List String
registration_event_required_fields =
    "runId" ∷ "attempt" ∷ "phase" ∷ "status" ∷ "failedChecks" ∷ "taxonomy" ∷ "capturedAt" ∷ []

abbrev pub event_phases : List String
event_phases = "settle" ∷ "timeout" ∷ "steady-state" ∷ []

abbrev pub registration_states : List String
registration_states =
    "ldap_entry_ready" ∷ "xmpp_identity_ready" ∷ "register_sent" ∷ "register_accepted"
    ∷ "c_agent_ready" ∷ "domain_ready" ∷ []

-- The messages so far, or an exception.
abbrev pub Errors : Type 0
Errors = Result (List String)

infixr 10 ◌<+>◌
abbrev pub ◌<+>◌ : Errors → Errors → Errors
ok xs <+> ok ys = ok (xs ++ ys)
ok xs <+> err e = err e
err e <+> _ = err e

-- `if test: errors.append(message)`
abbrev pub when : Bool → String → List String
when true message = message ∷ []
when false message = []

-- `v in {…}`, or in the keys of a set: the hash of `v` is taken first
unfoldable pub in_set : Value → List String → Result Bool
in_set (arr _) names = err "unhashable type: 'list'"
in_set (obj _) names = err "unhashable type: 'dict'"
in_set (str s) names = ok (contains names s)
in_set _ names = ok false

-- `_require_fields`
unfoldable pub require_fields : Option Fields → List String → String → List String
require_fields none names label = []
require_fields (some r) [] label = []
require_fields (some r) (name ∷ names) label =
    when (not (has name r)) (label <> (": missing field " <> name))
    ++ require_fields (some r) names label

-- A file: missing, no JSON (with the parser's message), or data.
pub data File : Type 0 where
  missing : File
  broken : String → File
  parsed : Value → File

-- `_load_json`
unfoldable pub load_json : String → File → Option Fields × List String
load_json label missing = (none, [])
load_json label (broken e) = (none, (label <> (": invalid json (" <> (e <> ")"))) ∷ [])
load_json label (parsed (obj r)) = (some r, [])
load_json label (parsed v) = (none, (label <> ": expected object payload") ∷ [])

-- The log of events: missing, or its lines.
pub data Log : Type 0 where
  no_log : Log
  lines : List File → Log

-- A line is never missing.
unfoldable pub load_lines : ℕ → List File → List Fields × List String
load_lines index [] = ([], [])
load_lines index (line ∷ r) =
    let (event, errors) = load_json ("registration-events.jsonl:" <> decimal index) line in
    let (events, more) = load_lines (index + 1) r in
    (elim event [ none ↦ events | some ev ↦ ev ∷ events ], errors ++ more)

-- `_load_events`
unfoldable pub load_events : Log → List Fields × List String
load_events no_log = ([], [])
load_events (lines []) = ([], "registration-events.jsonl: no events captured" ∷ [])
load_events (lines (line ∷ r)) = load_lines 1 (line ∷ r)
