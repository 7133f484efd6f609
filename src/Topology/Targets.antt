-- ===== src/Topology/Targets.antt =====
-- The names of the entries, against the chain of tests in `target_of`.
use liderahenk_test_platform.Base.{
  ℕ, String, ◌≡◌, refl, sym, ap, ◌∙◌, Bool, true, false, Option, none, some, ◌==◌, eqb, eqb_iff,
  eq_iff, if◌then◌else◌,
}
use mathlib.Core.Bool.{false≢true}
use liderahenk_test_platform.Topology.{
  Target, operators, directory_users, user_groups, endpoint_groups, policy_pack, session_pack,
  bind_mode, index, target_of, same_target,
}

-- The `target` of a rule that overrides the entry.
abbrev pub name_of : Target → String
name_of operators = "operators.count"
name_of directory_users = "directory_users.count"
name_of user_groups = "user_groups.count"
name_of endpoint_groups = "endpoint_groups.count"
name_of policy_pack = "policy_pack"
name_of session_pack = "session_pack"
name_of bind_mode = "ldap_bind_mode"

abbrev target_at : ℕ → Target
target_at n =
    if eqb n 0
    then operators
    else if eqb n 1
    then directory_users
    else if eqb n 2
    then user_groups
    else if eqb n 3
    then endpoint_groups
    else if eqb n 4
    then policy_pack
    else if eqb n 5
    then session_pack
    else bind_mode

target_at-index : (x : Target) → target_at (index x) ≡ x
target_at-index operators = refl
target_at-index directory_users = refl
target_at-index user_groups = refl
target_at-index endpoint_groups = refl
target_at-index policy_pack = refl
target_at-index session_pack = refl
target_at-index bind_mode = refl

same_target→eq : (y x : Target) → same_target (some y) x ≡ true → y ≡ x
same_target→eq y x h =
    sym (target_at-index y)
    ∙ ap target_at (sym ((eqb_iff (index x) (index y)).0 h))
    ∙ target_at-index x

-- One test of the chain.
rung :
    (b : Bool) (t : String) (y x : Target) (rest : Option Target)
    → (b ≡ true → t ≡ name_of y)
    → (same_target rest x ≡ true → t ≡ name_of x)
    → same_target (if b then some y else rest) x ≡ true
    → t ≡ name_of x
rung true t y x rest named next h = named refl ∙ ap name_of (same_target→eq y x h)
rung false t y x rest named next h = next h

tried :
    (t : String) (y x : Target) (rest : Option Target)
    → (same_target rest x ≡ true → t ≡ name_of x)
    → same_target (if t == name_of y then some y else rest) x ≡ true
    → t ≡ name_of x
tried t y x rest next = rung (t == name_of y) t y x rest (λ e. (eq_iff t (name_of y)).0 e) next

pub same_target→name :
    (t : String) (x : Target) → same_target (target_of t) x ≡ true → t ≡ name_of x
unfolding target_of
same_target→name t x = tried t operators x _ (
    tried t directory_users x _ (
      tried t user_groups x _ (
        tried t endpoint_groups x _ (
          tried t policy_pack x _
            (tried t session_pack x _ (tried t bind_mode x none (λ h. absurd (false≢true h))))))))

pub same_target-name_of : (x : Target) → same_target (target_of (name_of x)) x ≡ true
unfolding target_of
same_target-name_of operators = refl
same_target-name_of directory_users = refl
same_target-name_of user_groups = refl
same_target-name_of endpoint_groups = refl
same_target-name_of policy_pack = refl
same_target-name_of session_pack = refl
same_target-name_of bind_mode = refl
