-- ===== src/Tests/Topologies.antt =====
-- A topology with overrides.
use liderahenk_test_platform.Base.{
  String, ◌≡◌, refl, true, false, Option, none, some, List, [], ◌∷◌, ◌==◌, if◌then◌else◌,
}
use liderahenk_test_platform.Base.Text.{lstrip, rstrip}
use liderahenk_test_platform.Json.{ℤ, pos, nat, num, str}
use liderahenk_test_platform.Result.{ok, Returns}
use liderahenk_test_platform.Topology.{
  operators, policy_pack, Rule, ProfileFile, resolve_topology_profile,
}
use liderahenk_test_platform.Topology.Overrides.{IsResolved, resolve_topology_profile_lem}
use liderahenk_test_platform.Tests.Data.{plain}

abbrev digits : String → Option ℤ
digits s = if s == "3" then some (pos 3) else none

abbrev env : String → Option String
env name =
    if name == "OPERATOR_COUNT"
    then some "3"
    else if name == "POLICY_PACK"
    then some " strict "
    else none

abbrev rules : List Rule
rules =
    record {
      env_name = "OPERATOR_COUNT";
      target = "operators.count";
      is_int = true;
      minimum = pos 1;
    }
    ∷ record { env_name = "POLICY_PACK"; target = "policy_pack"; is_int = false; minimum = pos 1 }
    ∷ []

abbrev dev_fast : ProfileFile
dev_fast = record { name = "dev-fast"; runtime_profile = "dev-fast"; seeds = λ x. nat 1 }

abbrev profiles : String → Option ProfileFile
profiles name = if name == "dev-fast" then some dev_fast else none

resolve_topology_profile_lem_example :
    Returns
      (IsResolved plain digits env (ok "dev-fast") profiles rules "dev-fast" (pos 2))
      (resolve_topology_profile plain digits env (λ p. ok p) profiles rules "dev-fast" (pos 2))
resolve_topology_profile_lem_example =
    resolve_topology_profile_lem plain digits env (λ p. ok p) profiles rules "dev-fast" (pos 2)

-- Both rules are applied.
overrides_applied :
    Returns
      (λ t. (t.values operators ≡ num (pos 3)) × (t.values policy_pack ≡ str "strict"))
      (resolve_topology_profile plain digits env (λ p. ok p) profiles rules "dev-fast" (pos 2))
unfolding resolve_topology_profile rstrip lstrip
overrides_applied = (refl, refl)
