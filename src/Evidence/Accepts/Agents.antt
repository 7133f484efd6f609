-- ===== src/Evidence/Accepts/Agents.antt =====
-- The states of the agents, as the validator reads them.
use liderahenk_test_platform.Base.{
  ℕ, ◌+◌, String, ◌≡◌, refl, Bool, true, false, ◌&&◌, List, [], ◌∷◌, map, arith, last_or,
}
use liderahenk_test_platform.Base.Sorted.{sorted_keys}
use liderahenk_test_platform.Json.{Value, str, Fields, from_items, get}
use liderahenk_test_platform.Result.{ok, err}
use liderahenk_test_platform.Snapshot.{Snapshot}
use liderahenk_test_platform.Verdict.{Flags, names_of, state_flags, agent_state, per_agent_state}
use liderahenk_test_platform.Artifacts.{flags_json, agent_json, agents_json}
use liderahenk_test_platform.Evidence.Contract.{Errors}
use liderahenk_test_platform.Evidence.States.{
  missing_states, unexpected_states, state_value_errors, highest_errors, state_map_errors,
  per_agent_errors, per_agent_from, validate_per_agent_states,
}

-- The six flags in the order of the code.
abbrev six : Bool → Bool → Bool → Bool → Bool → Bool → Flags
six ldap xmpp sent accepted c_agent domain =
    ("ldap_entry_ready", ldap)
    ∷ ("xmpp_identity_ready", xmpp)
    ∷ ("register_sent", sent)
    ∷ ("register_accepted", accepted)
    ∷ ("c_agent_ready", c_agent)
    ∷ ("domain_ready", domain)
    ∷ []

-- A test at both Booleans.
abbrev both : (Bool → Bool) → Bool
both p = p true && p false

both_sound : (p : Bool → Bool) → both p ≡ true → (b : Bool) → p b ≡ true
both_sound p h true = ground arith
both_sound p h false = ground arith

abbrev finds_nothing : Errors → Bool
finds_nothing (ok []) = true
finds_nothing _ = false

ok_nil : (e : Errors) → finds_nothing e ≡ true → e ≡ ok []
ok_nil (ok []) h = refl
ok_nil (ok (x ∷ xs)) h = cc
ok_nil (err e) h = cc

module _ (repr : Value → String) (label : String) where
  abbrev passes : Bool → Bool → Bool → Bool → Bool → Bool → Bool
  passes a b c d e f = finds_nothing (
      highest_errors repr label (str (last_or "missing" (names_of true (six a b c d e f))))
        (flags_json (six a b c d e f)))

  abbrev passes_5 : Bool → Bool → Bool → Bool → Bool → Bool
  passes_5 a b c d e = both (passes a b c d e)

  abbrev passes_4 : Bool → Bool → Bool → Bool → Bool
  passes_4 a b c d = both (passes_5 a b c d)

  abbrev passes_3 : Bool → Bool → Bool → Bool
  passes_3 a b c = both (passes_4 a b c)

  abbrev passes_2 : Bool → Bool → Bool
  passes_2 a b = both (passes_3 a b)

  abbrev passes_1 : Bool → Bool
  passes_1 a = both (passes_2 a)

  -- All 64 cases, by evaluation.
  passes_all : both passes_1 ≡ true
  unfolding highest_errors names_of
  passes_all = refl

  highest_six :
      (a b c d e f : Bool)
      → highest_errors repr label
          (str (last_or "missing" (names_of true (six a b c d e f))))
          (flags_json (six a b c d e f))
        ≡ ok []
  highest_six a b c d e f =
      let at_2 = both_sound (passes_2 a) (both_sound passes_1 passes_all a) b in
      let at_4 = both_sound (passes_4 a b c) (both_sound (passes_3 a b) at_2 c) d in
      ok_nil
        (highest_errors repr label (str (last_or "missing" (names_of true (six a b c d e f))))
          (flags_json (six a b c d e f)))
        (both_sound (passes a b c d e) (both_sound (passes_5 a b c d) at_4 e) f)

  state_map_six :
      (entry : Fields) (a b c d e f : Bool)
      → get "highestState" entry ≡ str (last_or "missing" (names_of true (six a b c d e f)))
      → state_map_errors repr label entry (flags_json (six a b c d e f)) ≡ ok []
  unfolding state_map_errors missing_states unexpected_states state_value_errors sorted_keys
  state_map_six entry a b c d e f h = rw (h, highest_six a b c d e f)

  agent_errors-agent_state :
      (s : Snapshot) (id : String)
      → per_agent_errors repr label (agent_json (agent_state s id)) ≡ ok []
  unfolding per_agent_errors agent_state state_flags
  agent_errors-agent_state s id = rw (state_map_six _ _ _ _ _ _ _ refl)

module _ (repr : Value → String) (s : Snapshot) where
  per_agent_from-agents :
      (i : ℕ) (ids : List String)
      → per_agent_from repr i (from_items (agents_json (map (agent_state s) ids))) ≡ ok []
  unfolding per_agent_from
  per_agent_from-agents i [] = refl
  per_agent_from-agents i (id ∷ ids) =
      rw (agent_errors-agent_state repr _ s id, per_agent_from-agents (i + 1) ids)

  pub validate-per_agent_state :
      validate_per_agent_states repr (from_items (agents_json (per_agent_state s))) ≡ ok []
  unfolding validate_per_agent_states per_agent_state
  validate-per_agent_state = per_agent_from-agents 1 _
