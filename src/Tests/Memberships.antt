-- ===== src/Tests/Memberships.antt =====
-- The snapshot of the user groups.
use liderahenk_test_platform.Base.{◌≡◌, refl, true, List, [], ◌∷◌}
use liderahenk_test_platform.Json.{null, str, obj, arr, Items, items, Fields, fields, nat, texts}
use liderahenk_test_platform.Result.{ok}
use liderahenk_test_platform.Membership.{
  dicts, summarize_user_group_tree, run_membership_snapshot_contract_check,
}
use liderahenk_test_platform.Membership.Visits.{Lists}
use liderahenk_test_platform.Membership.Totals.{IsTotal, summarize_user_group_tree_lem}

-- A root with two groups below it, of which one counts its members and the other lists them.
abbrev counted_group : Fields
counted_group = fields (
    ("distinguishedName", str "cn=b") ∷ ("memberCount", nat 2) ∷ ("members", texts ("u" ∷ [])) ∷ [])

abbrev listed_group : Fields
listed_group =
    fields (("distinguishedName", str "cn=c") ∷ ("members", texts ("u" ∷ "v" ∷ "w" ∷ [])) ∷ [])

abbrev groups : Items
groups = items (
    str "no group"
    ∷ obj (
        fields (
          ("distinguishedName", str "cn=a")
          ∷ ("childEntries", arr (items (obj counted_group ∷ null ∷ [])))
          ∷ ("children", arr (items (obj listed_group ∷ [])))
          ∷ []))
    ∷ [])

groups_counted :
    ((summarize_user_group_tree groups).node_count ≡ 3)
    × ((summarize_user_group_tree groups).declared_member_count ≡ 5)
    × ((summarize_user_group_tree groups).member_source_keys ≡ "memberCount" ∷ "members" ∷ [])
    × ((summarize_user_group_tree groups).sample_group_dns ≡ "cn=a" ∷ "cn=b" ∷ "cn=c" ∷ [])
unfolding summarize_user_group_tree
groups_counted = (refl, refl, refl, refl)

groups_collected : (run_membership_snapshot_contract_check true (ok groups)).status ≡ "pass"
unfolding run_membership_snapshot_contract_check
groups_collected = refl

summarize_user_group_tree_lem_example :
    (vs : List Fields) × Lists (dicts groups) vs × IsTotal (summarize_user_group_tree groups) vs
summarize_user_group_tree_lem_example = summarize_user_group_tree_lem groups
