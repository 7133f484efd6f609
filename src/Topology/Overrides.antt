-- ===== src/Topology/Overrides.antt =====
-- The overrides of a topology, target by target: which rules decide an entry, and what they give.
use liderahenk_test_platform.Base.{
  String, ◌≡◌, ◌≢◌, refl, sym, ap, ◌∙◌, Bool, true, false, Option, none, some, List, [], ◌∷◌, ◌==◌,
  eq_iff, ◌⊎◌, Bool-cases, inl, inr, if◌then◌else◌,
}
use mathlib.Core.Bool.{false≢true}
use liderahenk_test_platform.Base.Text.{strip, is_empty}
use liderahenk_test_platform.Json.{ℤ, Value, str, num, int_ltb}
use liderahenk_test_platform.Result.{
  Result, ok, err, Returns, Returns-chain, Returns-map, Returns-if,
}
use liderahenk_test_platform.Topology.{
  Target, target_of, Rule, ProfileFile, Topology, same_target, int_override, override_value,
  override_by, apply_rules, selected, targeted, resolve_topology_profile,
}
use liderahenk_test_platform.Topology.Targets.{name_of, same_target→name, same_target-name_of}

is_empty→eq : (s : String) → is_empty s ≡ true → s ≡ ""
is_empty→eq String.[] h = refl
is_empty→eq (String.◌∷◌ c s) h = absurd (false≢true h)

module _ (repr : Value → String) (int_of : String → Option ℤ) (env : String → Option String) where
  -- What a rule makes of the text of its variable.
  pub data Parsed : Rule → String → Value → Type 0 where
    number :
        {rule : Rule} {raw : String} {n : ℤ}
        → rule.is_int ≡ true
        → int_of raw ≡ some n
        → int_ltb n rule.minimum ≡ false
        → Parsed rule raw (num n)
    text :
        {rule : Rule} {raw : String}
        → rule.is_int ≡ false
        → strip raw ≢ ""
        → Parsed rule raw (str (strip raw))

  -- An entry from its seed: each variable that is set is parsed, and the last one of a rule that
  -- names the entry decides.
  pub data Settles (x : Target) : List Rule → Value → Value → Type 0 where
    settled : {v : Value} → Settles x [] v v
    unset :
        {rule : Rule} {r : List Rule} {v u : Value}
        → env rule.env_name ≡ none
        → Settles x r v u
        → Settles x (rule ∷ r) v u
    elsewhere :
        {rule : Rule} {r : List Rule} {raw : String} {v w u : Value}
        → env rule.env_name ≡ some raw
        → Parsed rule raw w
        → rule.target ≢ name_of x
        → Settles x r v u
        → Settles x (rule ∷ r) v u
    overridden :
        {rule : Rule} {r : List Rule} {raw : String} {v w u : Value}
        → env rule.env_name ≡ some raw
        → Parsed rule raw w
        → rule.target ≡ name_of x
        → Settles x r w u
        → Settles x (rule ∷ r) v u

  int_override-Parsed :
      (rule : Rule) (raw : String)
      → rule.is_int ≡ true
      → Returns (Parsed rule raw) (int_override repr int_of rule.env_name raw rule.minimum)
  unfolding int_override
  int_override-Parsed rule raw t = by_number (int_of raw) refl
    where
      by_number :
          (o : Option ℤ)
          → int_of raw ≡ o
          → Returns (Parsed rule raw) (int_override repr int_of rule.env_name raw rule.minimum)
      by_number none e = rw (int_override, e) tt
      by_number (some n) e =
          rw (int_override, e)
            (Returns-if (Parsed rule raw) (int_ltb n rule.minimum) _ _ (λ less. tt) (number t e))

  override_value-Parsed :
      (rule : Rule) (raw : String) → Returns (Parsed rule raw) (override_value repr int_of rule raw)
  unfolding override_value
  override_value-Parsed rule raw =
      Returns-if (Parsed rule raw) rule.is_int _ _ (int_override-Parsed rule raw) (λ f.
        Returns-if (Parsed rule raw) (is_empty (strip raw)) _ _ (λ blank. tt)
          (λ named. text f (λ e. false≢true (sym named ∙ ap is_empty e))))

  -- A rule turns the entries before it into those from which the rules after it start.
  override_by-Settles :
      (rule : Rule) (o : Option String) (values : Target → Value)
      → env rule.env_name ≡ o
      → Returns
          (λ next.
            (x : Target) (r : List Rule) (u : Value)
            → Settles x r (next x) u
            → Settles x (rule ∷ r) (values x) u)
          (override_by repr int_of env rule o values)
  unfolding override_by
  override_by-Settles rule none values e = λ x r u s. unset e s
  override_by-Settles rule (some raw) values e =
      Returns-chain (Parsed rule raw) _ (override_value repr int_of rule raw) _
        (override_value-Parsed rule raw)
        (λ v parsed x r u s. by_target parsed x r u (same_target (target_of rule.target) x) refl s)
    where
      by_target :
          {v : Value}
          → Parsed rule raw v
          → (x : Target) (r : List Rule) (u : Value) (b : Bool)
          → same_target (target_of rule.target) x ≡ b
          → Settles x r (if b then v else values x) u
          → Settles x (rule ∷ r) (values x) u
      by_target parsed x r u true same s =
          overridden e parsed (same_target→name rule.target x same) s
      by_target parsed x r u false other s =
          elsewhere e parsed
            (λ named.
              false≢true
                (sym other ∙ ap (λ t. same_target (target_of t) x) named ∙ same_target-name_of x))
            s

  apply_rules-Settles :
      (rules : List Rule) (values : Target → Value)
      → Returns
          (λ next. (x : Target) → Settles x rules (values x) (next x))
          (apply_rules repr int_of env rules values)
  unfolding apply_rules
  apply_rules-Settles [] values = λ x. settled
  apply_rules-Settles (rule ∷ r) values =
      Returns-chain _ _ (override_by repr int_of env rule (env rule.env_name) values) _
        (override_by-Settles rule (env rule.env_name) values refl)
        (λ next before.
          Returns-map _ _ (apply_rules repr int_of env r next) (apply_rules-Settles r next)
            (λ last after x. before x r (last x) (after x)))

  -- The variable `TOPOLOGY_PROFILE`, or the default of the runtime profile if it is missing or empty.
  abbrev pub IsSelected : Result String → String → Type 0
  IsSelected default name =
      ((env "TOPOLOGY_PROFILE" ≡ some name) × (name ≢ ""))
      ⊎ (((env "TOPOLOGY_PROFILE" ≡ none) ⊎ (env "TOPOLOGY_PROFILE" ≡ some ""))
          × (default ≡ ok name))

  selected-IsSelected :
      (o : Option String) (default : Result String)
      → env "TOPOLOGY_PROFILE" ≡ o
      → Returns (IsSelected default) (selected repr int_of env o default)
  selected-IsSelected none (ok name) e = inr (inl e, refl)
  selected-IsSelected none (err x) e = tt
  selected-IsSelected (some name) default e =
      Returns-if (IsSelected default) (is_empty name) _ _
        (λ blank. by_default default (e ∙ ap some (is_empty→eq name blank)))
        (λ named. inl (e, λ q. false≢true (sym named ∙ ap is_empty q)))
    where
      by_default :
          (default : Result String)
          → env "TOPOLOGY_PROFILE" ≡ some ""
          → Returns (IsSelected default) default
      by_default (ok name) q = inr (inr q, refl)
      by_default (err x) q = tt

  targeted-file :
      (runtime_profile name : String) (o : Option ProfileFile)
      → Returns
          (λ file. (o ≡ some file) × (file.runtime_profile ≡ runtime_profile))
          (targeted repr int_of env runtime_profile name o)
  unfolding targeted
  targeted-file runtime_profile name none = tt
  targeted-file runtime_profile name (some file) =
      elim (Bool-cases (file.runtime_profile == runtime_profile)) [
        | inl e ↦ rw e (refl, (eq_iff file.runtime_profile runtime_profile).0 e)
        | inr e ↦ rw e tt
      ]

  -- What a topology has of the environment, the files and the contract.
  pub record IsResolved (default : Result String) (read : String → Option ProfileFile)
      (rules : List Rule) (runtime_profile : String) (expected : ℤ) (t : Topology) : Type 0 where
    pub selected_name : String
    pub file : ProfileFile
    pub selects : IsSelected default selected_name
    pub found : read selected_name ≡ some file
    pub targets : file.runtime_profile ≡ runtime_profile
    pub name : t.name ≡ file.name
    pub runtime : t.runtime_profile ≡ runtime_profile
    pub endpoints : t.managed_endpoint_count ≡ expected
    pub values : (x : Target) → Settles x rules (file.seeds x) (t.values x)

  -- A topology that resolves is that of the selected profile file, which is for the runtime profile.
  -- Each variable of a rule that is set is a number from its minimum on, or a text that is not blank,
  -- and each entry is what the last rule that names it makes of its variable, or else its seed.
  pub resolve_topology_profile_lem :
      (defaults : String → Result String) (read : String → Option ProfileFile) (rules : List Rule)
      (runtime_profile : String) (expected : ℤ)
      → Returns
          (IsResolved (defaults runtime_profile) read rules runtime_profile expected)
          (resolve_topology_profile repr int_of env defaults read rules runtime_profile expected)
  unfolding resolve_topology_profile
  resolve_topology_profile_lem defaults read rules runtime_profile expected =
      let default : Result String = defaults runtime_profile in
      let Q : Topology → Type 0 = IsResolved default read rules runtime_profile expected in
      Returns-chain (IsSelected default) Q
        (selected repr int_of env (env "TOPOLOGY_PROFILE") default) _
        (selected-IsSelected (env "TOPOLOGY_PROFILE") default refl)
        (λ (name : String) chosen.
          Returns-chain
            (λ (file : ProfileFile).
              (read name ≡ some file) × (file.runtime_profile ≡ runtime_profile))
            Q (targeted repr int_of env runtime_profile name (read name)) _
            (targeted-file runtime_profile name (read name))
            (λ (file : ProfileFile) p.
              Returns-chain
                (λ (values : Target → Value).
                  (x : Target) → Settles x rules (file.seeds x) (values x))
                Q (apply_rules repr int_of env rules file.seeds) _
                (apply_rules-Settles rules file.seeds)
                (λ values settles. record {
                  selected_name = name;
                  file = file;
                  selects = chosen;
                  found = p.0;
                  targets = p.1;
                  name = refl;
                  runtime = refl;
                  endpoints = refl;
                  values = settles;
                })))
