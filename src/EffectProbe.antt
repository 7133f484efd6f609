-- ===== src/EffectProbe.antt =====
-- The effect probe: `_run_policy_effect_probe_check` of platform_runtime/readiness/__init__.py. Up to
-- the execution of the policy its calls are those of the policy round trip. The command history and
-- the sleep before it are parameters, and of the details the evidence and the cleanup are kept.
pub mod Passes
use liderahenk_test_platform.Base.{
  ℕ, zero, suc, ◌+◌, String, Bool, true, false, ◌&&◌, Option, none, some, eqb, if◌then◌else◌,
}
use liderahenk_test_platform.Json.{
  ℤ, Value, null, bool, num, str, arr, obj, Items, nil, cons, Fields, get, is_dict, is_zero, truthy,
}
use liderahenk_test_platform.Result.{Result, ok, err, on_result}
use liderahenk_test_platform.PolicyRoundtrip.{
  Entries, find_first_agent, ApiError, Answer, answer, raised, Api, Cleanup,
  cleanup_roundtrip_artifacts,
}
use liderahenk_test_platform.PolicyRoundtrip.Run.{
  Made, Ended, no_agent, failed_at, executed, group_dn, stages,
}

-- `commandHistoryCount`, or the text of the exception, where the history was read.
pub data History : Type 0 where
  not_read : History
  counted : ℕ → History
  unreadable : ApiError → History
  not_iterable : History

pub data Effect : Type 0 where
  not_authenticated : Effect
  without_agent : Effect
  raised_at : ApiError → Cleanup → Effect
  observed : (status : ℕ) → History → Cleanup → Effect

pub record Probe : Type 0 where
  pub passed : Bool
  pub effect : Effect

-- `commandHistoryAvailable`
abbrev pub is_available : History → Bool
is_available (counted zero) = false
is_available (counted (suc n)) = true
is_available _ = false

abbrev count_dicts : Items → ℕ
count_dicts nil = 0
count_dicts (cons v vs) = let rest = count_dicts vs in if is_dict v then rest + 1 else rest

-- `[cmd for cmd in (history or []) if isinstance(cmd, dict)]`: the keys of an object and the
-- characters of a text are no `dict`.
unfoldable pub history_of : Answer Value → History
history_of (raised x) = unreadable x
history_of (answer (arr vs)) = counted (count_dicts vs)
history_of (answer (num n)) = if is_zero n then counted 0 else not_iterable
history_of (answer (bool b)) = if b then not_iterable else counted 0
history_of (answer null) = counted 0
history_of (answer (str s)) = counted 0
history_of (answer (obj r)) = counted 0

-- `entry.get("distinguishedName", "")` of the agent that is found in the tree
unfoldable pub agent_dn : Answer Entries → Value
unfolding find_first_agent
agent_dn (raised x) = null
agent_dn (answer tree) = elim (find_first_agent tree) [
  | none ↦ null
  | some f ↦ get "distinguishedName" f
]

module _ (repr : Value → String) (int_of : Value → Result ℤ) (e : Api) (group_name : String)
    (get_command_history : Value → e.World → Answer Value × e.World)
    (sleep : e.World → e.World) where
  -- The history, where the execution answered with 200 and the agent has a name.
  unfoldable pub observe : ℕ → Value → e.World → History × e.World
  unfolding history_of
  observe status dn w =
      let (a, v) = get_command_history dn (sleep w) in
      if eqb status 200 && truthy dn then (history_of a, v) else (not_read, w)

  abbrev pub clean : Made → e.World → Result Cleanup × e.World
  clean made w =
      cleanup_roundtrip_artifacts repr int_of e made.policy made.profile (group_dn made) w

  abbrev pub raised_probe : ApiError → Cleanup → Probe
  raised_probe x c = record { passed = false; effect = raised_at x c }

  abbrev pub observed_probe : ℕ → History → Cleanup → Probe
  observed_probe status h c = record { passed = eqb status 200; effect = observed status h c }

  -- From the end of the calls: an exception of the cleanup leaves, as it does in the round trip.
  unfoldable pub probe_end : Ended → Value → Made → e.World → Result Probe × e.World
  unfolding observe cleanup_roundtrip_artifacts
  probe_end no_agent dn made w = (ok (record { passed = false; effect = without_agent }), w)
  probe_end (failed_at stage x) dn made w =
      let (c, v) = clean made w in
      (on_result c (λ cleanup. ok (raised_probe x cleanup)) (λ message. err message), v)
  probe_end (executed status) dn made w =
      let (h, u) = observe status dn w in
      let (c, v) = clean made u in
      (on_result c (λ cleanup. ok (observed_probe status h cleanup)) (λ message. err message), v)

  unfoldable pub run_policy_effect_probe_check : Bool → e.World → Result Probe × e.World
  unfolding stages probe_end agent_dn
  run_policy_effect_probe_check false w =
      (ok (record { passed = false; effect = not_authenticated }), w)
  run_policy_effect_probe_check true w =
      let (ended, made, v) = stages repr int_of e group_name w in
      probe_end ended (agent_dn ((e.get_computer_tree w).0)) made v
