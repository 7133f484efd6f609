-- ===== src/Scenario/Active.antt =====
-- `resolve_active_scenarios` of platform_runtime/scenario_runner.py. The two environment variables
-- and the list of available scenarios are arguments.
use liderahenk_test_platform.Base.{
  String, ◌<>◌, ◌≡◌, refl, not, ◌&&◌, Option, none, some, List, [], ◌∷◌, map, ◌==◌, eqb, code,
  is_nil, select, contains, arith, Bool-cases, inl, inr, if◌then◌else◌,
}
use liderahenk_test_platform.Base.Text.{strip, is_empty}
use liderahenk_test_platform.Base.Sorted.{from_keys, IsNodup, contains-from_keys, from_keys-IsNodup}

-- A character before the first part.
abbrev onto_first : String → List String → List String
onto_first c [] = c ∷ []
onto_first c (x ∷ xs) = (c <> x) ∷ xs

-- `text.split(",")`
unfoldable pub split_commas : String → List String
split_commas String.[] = "" ∷ []
split_commas (String.◌∷◌ c s) =
    let rest = split_commas s in
    if eqb (code c) 44 then "" ∷ rest else onto_first (String.◌∷◌ c "") rest

-- `env.get(name, "")`
abbrev pub or_blank : Option String → String
or_blank none = ""
or_blank (some s) = s

-- The names of PLATFORM_SCENARIO_PACKS.
unfoldable pub explicit_names : Option String → List String
unfolding split_commas strip
explicit_names packs = select (λ s. not (is_empty s)) (map strip (split_commas (or_blank packs)))

abbrev pub session_name : Option String → String
session_name session = "session-" <> strip (or_blank session)

-- The scenario of SESSION_PACK, if it is one.
unfoldable pub default_names : List String → Option String → List String
unfolding strip
default_names available session =
    if not (is_empty (strip (or_blank session))) && contains available (session_name session)
    then session_name session ∷ []
    else []

unfoldable pub resolve_active_scenarios : List String → Option String → Option String → List String
unfolding explicit_names default_names from_keys
resolve_active_scenarios available packs session =
    if is_nil (explicit_names packs)
    then default_names available session
    else from_keys (explicit_names packs)

default-IsNodup :
    (available : List String) (session : Option String) → IsNodup (default_names available session)
unfolding default_names
default-IsNodup available session =
    elim (Bool-cases
      (not (is_empty (strip (or_blank session))) && contains available (session_name session))) [
        | inl e ↦ rw e (refl, tt)
        | inr e ↦ rw e tt
      ]

contains-default :
    (available : List String) (session : Option String) (a : String)
    → contains (default_names available session) a ≡ (
        not (is_empty (strip (or_blank session)))
        && contains available (session_name session)
        && a == session_name session)
unfolding default_names
contains-default available session a =
    elim (Bool-cases
      (not (is_empty (strip (or_blank session))) && contains available (session_name session))) [
        | inl e ↦ rw e (ground arith)
        | inr e ↦ rw e (ground arith)
      ]

-- No scenario is active twice. With names in PLATFORM_SCENARIO_PACKS, the active scenarios are those;
-- without, the only one that may be active is that of SESSION_PACK, and it is if it is named and
-- available.
pub resolve_active_scenarios_lem :
    (available : List String) (packs session : Option String) (a : String)
    → IsNodup (resolve_active_scenarios available packs session)
      × (contains (resolve_active_scenarios available packs session) a ≡ (
          if is_nil (explicit_names packs)
          then not (is_empty (strip (or_blank session)))
            && contains available (session_name session)
            && a == session_name session
          else contains (explicit_names packs) a))
unfolding resolve_active_scenarios
resolve_active_scenarios_lem available packs session a =
    elim (Bool-cases (is_nil (explicit_names packs))) [
      | inl e ↦ rw e (default-IsNodup available session, contains-default available session a)
      | inr e ↦
          rw e
            (from_keys-IsNodup (explicit_names packs), contains-from_keys (explicit_names packs) a)
    ]
