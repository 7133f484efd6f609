-- ===== src/Evidence/States.antt =====
-- `_validate_per_agent_states` of platform_runtime/registration_evidence.py.
use liderahenk_test_platform.Base.{
  ℕ, ◌+◌, String, ◌<>◌, Bool, false, not, ◌&&◌, List, [], ◌∷◌, ◌++◌, ◌==◌, select, contains, is_nil,
}
use liderahenk_test_platform.Base.Text.{decimal}
use liderahenk_test_platform.Base.Sorted.{sorted_keys}
use liderahenk_test_platform.Json.{
  Value, bool, str, obj, Fields, end, field, has, get, is_bool, texts,
}
use liderahenk_test_platform.Result.{ok, ◌>>=◌}
use liderahenk_test_platform.Evidence.Contract.{Errors, ◌<+>◌, when, in_set, registration_states}

abbrev keys : Fields → List String
keys end = []
keys (field k _ r) = k ∷ keys r

unfoldable pub missing_states : Fields → List String
missing_states states = select (λ name. not (has name states)) registration_states

unfoldable pub unexpected_states : Fields → List String
unexpected_states states =
    sorted_keys (select (λ name. not (contains registration_states name)) (keys states))

-- `for state_name, state_value in state_map.items()`
unfoldable pub state_value_errors : String → Fields → List String
state_value_errors label end = []
state_value_errors label (field name v r) =
    when (not (is_bool v)) (label <> (": state " <> (name <> " must be boolean")))
    ++ state_value_errors label r

-- `v is True`
abbrev is_true : Value → Bool
is_true (bool b) = b
is_true _ = false

abbrev is_text : Value → String → Bool
is_text (str s) t = s == t
is_text _ t = false

module _ (repr : Value → String) where
  abbrev list_text : List String → String
  list_text xs = repr (texts xs)

  -- The two tests of the highest state. Only a text is ever in the set.
  unfoldable pub highest_errors : String → Value → Fields → Errors
  highest_errors label (str s) states = ok (
      when (not (s == "missing") && not (contains registration_states s)) (
        label
        <> (": highestState must be one of " <> (list_text registration_states <> " or 'missing'")))
      ++ when (contains registration_states s && not (is_true (get s states)))
          (label <> (": highestState " <> (s <> " is not marked true"))))
  highest_errors label v states = do
    known ← in_set v registration_states
    ok (
        when (not known) (
          label
          <> (": highestState must be one of "
              <> (list_text registration_states <> " or 'missing'"))))

  unfoldable pub state_map_errors : String → Fields → Fields → Errors
  state_map_errors label entry states =
      ok (
        when (not (is_nil (missing_states states)))
          (label <> (": missing states " <> list_text (missing_states states)))
        ++ (when (not (is_nil (unexpected_states states)))
              (label <> (": unexpected states " <> list_text (unexpected_states states)))
            ++ state_value_errors label states))
      <+> highest_errors label (get "highestState" entry) states

  -- One agent, under its label.
  unfoldable pub per_agent_errors : String → Value → Errors
  per_agent_errors label (obj entry) =
      ok (when (not (has "agentId" entry)) (label <> ": missing field agentId"))
      <+> elim (get "states" entry) [
        | obj states ↦ state_map_errors label entry states
        | _ ↦ ok ((label <> ": states must be an object") ∷ [])
      ]
  per_agent_errors label v = ok ((label <> ": expected object payload") ∷ [])

  unfoldable pub per_agent_from : ℕ → List Value → Errors
  per_agent_from index [] = ok []
  per_agent_from index (entry ∷ r) =
      per_agent_errors ("registration-verdict.json: perAgent[" <> (decimal index <> "]")) entry
      <+> per_agent_from (index + 1) r

  unfoldable pub validate_per_agent_states : List Value → Errors
  validate_per_agent_states entries = per_agent_from 1 entries
