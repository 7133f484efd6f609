-- ===== src/Tests/Roundtrip.antt =====
-- The parts of the policy round trip at concrete inputs.
use liderahenk_test_platform.Base.{ℕ, ◌+◌, ◌≡◌, refl, ◌↔◌, true, some, List, [], ◌∷◌, map}
use liderahenk_test_platform.Json.{ℤ, pos, Value, str, num, Fields, fields}
use liderahenk_test_platform.Result.{Result, ok, err}
use liderahenk_test_platform.PolicyRoundtrip.{
  Entries, none_left, then_more, entry, is_named, find_in, find_group_entry, http, other, Answer,
  answer, raised, Operation, delete_policy, delete_profile, delete_group, Api, attempt_of, cleaned,
  create_computer_group_with_reconciliation,
}
use liderahenk_test_platform.PolicyRoundtrip.Search.{
  Lies, find_group_entry-Lies, create_computer_group_reconciled,
}
use liderahenk_test_platform.PolicyRoundtrip.Deletions.{all_deleted, after_all, cleaned_lem}
use liderahenk_test_platform.PolicyRoundtrip.{operations_of}
use liderahenk_test_platform.PolicyRoundtrip.Run.{
  Made, executed, group_dn, stages, finish, run_policy_roundtrip_check,
}
use liderahenk_test_platform.PolicyRoundtrip.Run.Ends.{
  IsComplete, run_policy_roundtrip_check_passes,
}
use liderahenk_test_platform.PolicyRoundtrip.Run.Deletes.{Deletes}
use liderahenk_test_platform.PolicyRoundtrip.Run.Cleans.{Makes, run_policy_roundtrip_check_cleans}
use liderahenk_test_platform.Tests.Data.{plain}

abbrev pub group_fields : Fields
group_fields =
    fields
      (("name", str "rt-group-1") ∷ ("distinguishedName", str "cn=rt-group-1,ou=AgentGroups") ∷ [])

abbrev groups : Entries
groups =
    then_more
      (entry (fields (("name", str "AgentGroups") ∷ []))
        (then_more (entry group_fields none_left none_left) none_left) none_left)
      none_left

abbrev agents : Entries
agents = then_more (entry (fields (("type", str "AHENK") ∷ [])) none_left none_left) none_left

-- The creation of a group answers 417 although the group is there then, and profiles stay. The
-- world counts the calls.
abbrev pub stubborn_answer : Operation → Answer (Unit {0})
stubborn_answer (delete_profile id n) = raised (other "refused")
stubborn_answer op = answer tt

abbrev stubborn : Api
stubborn = record {
  World = ℕ;
  get_computer_tree = λ w. (answer agents, w + 1);
  create_script_profile = λ w. (answer (fields (("id", num (pos 8)) ∷ [])), w + 1);
  create_policy = λ profile w. (answer (fields (("id", num (pos 7)) ∷ [])), w + 1);
  execute_policy = λ id dn w. (answer 200, w + 1);
  create_computer_group = λ name w. (raised (http 417 "Expectation Failed"), w + 1);
  get_computer_group_tree = λ w. (answer groups, w + 1);
  delete = λ op w. (stubborn_answer op, w + 1);
}

find_group_entry-Lies_example :
    ((f : Fields) × (find_group_entry plain "rt-group-1" groups ≡ some f))
    ↔ ((f : Fields) × Lies f groups × (is_named plain "rt-group-1" f ≡ true))
find_group_entry-Lies_example = find_group_entry-Lies plain "rt-group-1" groups refl

create_computer_group_reconciled_example :
    (tree : Entries) × ((stubborn.create_computer_group "rt-group-1" 0).0
      ≡ raised (http 417 "Expectation Failed"))
    × ((stubborn.get_computer_group_tree (stubborn.create_computer_group "rt-group-1" 0).1).0
        ≡ answer tree)
    × Lies group_fields tree
    × (is_named plain "rt-group-1" group_fields ≡ true)
unfolding create_computer_group_with_reconciliation find_group_entry find_in
create_computer_group_reconciled_example =
    create_computer_group_reconciled plain stubborn "rt-group-1" 0 group_fields 417
      "Expectation Failed" refl

abbrev pub as_number : Value → Result ℤ
as_number (num n) = ok n
as_number v = err "no number"

abbrev three : List Operation
three = delete_profile "8" (pos 8) ∷ delete_group (str "cn=rt-group-1,ou=AgentGroups") ∷ []

cleaned_lem_example :
    ((cleaned plain as_number stubborn (delete_policy "7" (pos 7) ∷ three) 0).1
      ≡ after_all plain as_number stubborn (delete_policy "7" (pos 7) ∷ three) 0)
    × ((cleaned plain as_number stubborn (delete_policy "7" (pos 7) ∷ three) 0).0.attempted
        ≡ map attempt_of (delete_policy "7" (pos 7) ∷ three))
    × (((cleaned plain as_number stubborn (delete_policy "7" (pos 7) ∷ three) 0).0.status
          ≡ "completed")
        ↔ (all_deleted plain as_number stubborn (delete_policy "7" (pos 7) ∷ three) 0 ≡ true))
cleaned_lem_example = cleaned_lem plain as_number stubborn (delete_policy "7" (pos 7)) three 0

-- An API that does everything, with these answers to the deletions.
abbrev reaching : (Operation → Answer (Unit {0})) → Api
reaching answered = record {
  World = ℕ;
  get_computer_tree = λ w. (answer agents, w + 1);
  create_script_profile = λ w. (answer (fields (("id", num (pos 8)) ∷ [])), w + 1);
  create_policy = λ profile w. (answer (fields (("id", num (pos 7)) ∷ [])), w + 1);
  execute_policy = λ id dn w. (answer 200, w + 1);
  create_computer_group = λ name w. (answer group_fields, w + 1);
  get_computer_group_tree = λ w. (answer groups, w + 1);
  delete = λ op w. (answered op, w + 1);
}

abbrev obliging : Api
obliging = reaching (λ op. answer tt)

run_policy_roundtrip_check_passes_example :
    IsComplete plain as_number obliging "rt-group-1"
      (stages plain as_number obliging "rt-group-1" 0).1
    × ((stages plain as_number obliging "rt-group-1" 0).0 ≡ executed 200)
    × ((ops : List Operation) × (operations_of plain as_number
            (stages plain as_number obliging "rt-group-1" 0).1.policy
            (stages plain as_number obliging "rt-group-1" 0).1.profile
            (group_dn (stages plain as_number obliging "rt-group-1" 0).1)
          ≡ ok ops)
        × ((cleaned plain as_number obliging ops
              (stages plain as_number obliging "rt-group-1" 0).2).0.status
            ≡ "completed"))
unfolding run_policy_roundtrip_check stages finish
run_policy_roundtrip_check_passes_example =
    run_policy_roundtrip_check_passes plain as_number obliging "rt-group-1" 0 _ (λ h. cc) refl refl

-- The policy, the profile, of which the deletion fails, and the group.
run_policy_roundtrip_check_cleans_example :
    (made : Made) × (v : ℕ) × (ops : List Operation) × Makes plain as_number
      (reaching stubborn_answer)
      "rt-group-1"
      0
      made
      v
    × Deletes plain as_number made ops
    × ((run_policy_roundtrip_check plain as_number (reaching stubborn_answer) "rt-group-1" 0).1
        ≡ after_all plain as_number (reaching stubborn_answer) ops v)
unfolding run_policy_roundtrip_check stages finish
run_policy_roundtrip_check_cleans_example =
    run_policy_roundtrip_check_cleans plain as_number (reaching stubborn_answer) "rt-group-1" 0 _
      (λ h. cc) refl

three_deletions :
    (run_policy_roundtrip_check plain as_number (reaching stubborn_answer) "rt-group-1" 0).1 ≡ 8
unfolding run_policy_roundtrip_check stages finish
three_deletions = refl
