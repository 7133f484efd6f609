-- ===== src/PolicyRoundtrip/Run.antt =====
-- `run_policy_roundtrip_check` of platform_runtime/readiness/policy_roundtrip.py: the stages of its
-- `try`, and the cleanup after their end. The names of the three resources are in the API's calls;
-- of the check's details, the stage and the cleanup are kept.
pub mod Ends
pub mod Deletes
pub mod Cleans
use liderahenk_test_platform.Base.{
  ℕ, ◌+◌, String, ◌≡◌, ◌≢◌, refl, sym, ap, ◌∙◌, Bool, true, false, ◌&&◌, Option, none, some, List,
  [], ◌∷◌, map, ◌==◌, eqb, eqb_iff, eq_iff, arith, if◌then◌else◌,
}
use liderahenk_test_platform.Json.{ℤ, Value, null, Fields, get, has}
use liderahenk_test_platform.Result.{Result, ok, err, on_result}
use liderahenk_test_platform.PolicyRoundtrip.{
  Entries, find_first_agent, ApiError, http, other, Answer, answer, raised, Operation, Api, Created,
  create_computer_group_with_reconciliation, Attempt, attempt_of, Cleanup, cleaned, operations_of,
  cleanup_roundtrip_artifacts,
}

-- The locals `group`, `profile` and `policy`.
pub record Made : Type 0 where
  pub group : Option Fields
  pub profile : Option Fields
  pub policy : Option Fields

-- How the `try` ended: without an agent, with an exception at a stage, or with the status of the
-- execution.
pub data Ended : Type 0 where
  no_agent : Ended
  failed_at : String → ApiError → Ended
  executed : ℕ → Ended

abbrev pub nothing : Made
nothing = record { group = none; profile = none; policy = none }

pub record Report : Type 0 where
  pub passed : Bool
  pub ended : Ended
  pub cleanup : Option Cleanup

-- `group.get("distinguishedName") if isinstance(group, dict) else None`
abbrev pub group_dn : Made → Value
group_dn made = elim made.group [ none ↦ null | some g ↦ get "distinguishedName" g ]

-- `policy["id"]` and `group["distinguishedName"]` raise where the key is missing.
abbrev missing_key : Fields → Fields → Option String
missing_key group policy =
    if has "id" policy
    then (if has "distinguishedName" group then none else some "'distinguishedName'")
    else some "'id'"

module _ (repr : Value → String) (int_of : Value → Result ℤ) (e : Api) (group_name : String) where
  after_execution : Made → Answer ℕ → Ended × Made
  after_execution made (answer status) = (executed status, made)
  after_execution made (raised x) = (failed_at "execute_policy" x, made)

  execution : Made → Fields → Fields → e.World → Option String → Ended × Made × e.World
  unfolding after_execution
  execution made group policy w (some key) = (failed_at "execute_policy" (other key), made, w)
  execution made group policy w none =
      let (a, w') = e.execute_policy (get "id" policy) (get "distinguishedName" group) w in
      let (ended, m) = after_execution made a in (ended, m, w')

  after_policy : Fields → Fields → Answer Fields → e.World → Ended × Made × e.World
  unfolding execution
  after_policy group profile (raised x) w = (
    failed_at "create_policy" x,
    record { group = some group; profile = some profile; policy = none },
    w,
  )
  after_policy group profile (answer policy) w =
      execution (record { group = some group; profile = some profile; policy = some policy }) group
        policy w (missing_key group policy)

  after_profile : Fields → Answer Fields → e.World → Ended × Made × e.World
  unfolding after_policy
  after_profile group (raised x) w = (
    failed_at "create_script_profile" x,
    record { group = some group; profile = none; policy = none },
    w,
  )
  after_profile group (answer profile) w =
      let (a, w') = e.create_policy profile w in after_policy group profile a w'

  after_group : Answer Created → e.World → Ended × Made × e.World
  unfolding after_profile
  after_group (raised x) w = (failed_at "create_computer_group" x, nothing, w)
  after_group (answer (group, reconciliation)) w =
      let (a, w') = e.create_script_profile w in after_profile group a w'

  -- `if not entry`
  abbrev pub with_agent : Option Fields → Ended × Made × e.World → e.World → Ended × Made × e.World
  with_agent none next w = (no_agent, nothing, w)
  with_agent (some agent) next w = next

  after_tree : Answer Entries → e.World → Ended × Made × e.World
  unfolding after_group find_first_agent create_computer_group_with_reconciliation
  after_tree (raised x) w = (failed_at "get_computer_tree" x, nothing, w)
  after_tree (answer tree) w =
      let (a, w') = create_computer_group_with_reconciliation repr e group_name w in
      with_agent (find_first_agent tree) (after_group a w') w

  -- The `try`, up to the cleanup.
  unfoldable pub stages : e.World → Ended × Made × e.World
  unfolding after_tree
  stages w = let (a, w') = e.get_computer_tree w in after_tree a w'

  abbrev pub required : Cleanup → Option Cleanup
  required c = if c.status == "not_required" then none else some c

  report_of : Ended → Cleanup → Report
  report_of no_agent c = record { passed = false; ended = no_agent; cleanup = none }
  report_of (failed_at stage x) c = record {
    passed = false;
    ended = failed_at stage x;
    cleanup = required c;
  }
  report_of (executed status) c = record {
    passed = eqb status 200 && c.status == "completed";
    ended = executed status;
    cleanup = some c;
  }

  -- The end of the check: without an agent there is no cleanup. An exception of the cleanup comes
  -- before any deletion; after an execution it leads to the same cleanup again, and leaves it too.
  unfoldable pub finish : Ended → Made → e.World → Result Report × e.World
  unfolding report_of cleanup_roundtrip_artifacts
  finish no_agent made w = (ok (record { passed = false; ended = no_agent; cleanup = none }), w)
  finish ended made w =
      let (c, w') =
        cleanup_roundtrip_artifacts repr int_of e made.policy made.profile (group_dn made) w in
      (on_result c (λ cleanup. ok (report_of ended cleanup)) (λ message. err message), w')

  unfoldable pub run_policy_roundtrip_check : e.World → Result Report × e.World
  unfolding stages finish
  run_policy_roundtrip_check w = let (ended, made, w') = stages w in finish ended made w'
