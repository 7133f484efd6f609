-- ===== src/PolicySnapshot.antt =====
-- The snapshot of the active policies: `_collect_policy_snapshot` and its check in
-- platform_runtime/readiness/__init__.py. `repr` is what `str` prints of a list or an object.
pub mod Collected
use liderahenk_test_platform.Base.{ℕ, zero, suc, String, Bool, List, [], ◌∷◌, length, if◌then◌else◌}
use liderahenk_test_platform.Result.{Result, ok, err, ◌>>=◌, on_result}
use liderahenk_test_platform.Access.{as_mapping, get_or}
use liderahenk_test_platform.Checks.{Check, build_check}
use liderahenk_test_platform.Json.{
  Value, str, arr, obj, from_items, Fields, fields, get, texts, nat, value_eq,
}
use liderahenk_test_platform.Identity.{text_of}
use liderahenk_test_platform.Membership.{snapshot_actual}

-- `xs[:n]`
abbrev pub take {ℓ} : {A : Type ℓ} → ℕ → List A → List A
take zero xs = []
take (suc n) [] = []
take (suc n) (x ∷ xs) = x ∷ take n xs

-- `policies if isinstance(policies, list) else []`
abbrev pub policies_of : Value → List Value
policies_of (arr vs) = from_items vs
policies_of _ = []

abbrev policy_fields : Value → List (String × Value) → Fields
policy_fields status more =
    fields (("status", status) ∷ ("captureMode", str "active_policy_list") ∷ more)

module _ (repr : Value → String) where
  -- `[str(p.get("label", "")) for p in policies]`
  unfoldable pub labels : List Value → Result (List String)
  unfolding as_mapping
  labels [] = ok []
  labels (p ∷ r) = do
    fs ← as_mapping p
    rest ← labels r
    ok (text_of repr (get_or "label" (str "") fs) ∷ rest)

  -- What follows an answer of `get_active_policies`.
  unfoldable pub policy_summary : Value → Result Fields
  unfolding labels
  policy_summary policies = labels (take 5 (policies_of policies)) >>= λ names. ok (
      fields (
        ("activePolicyCount", nat (length (policies_of policies)))
        ∷ ("sampleLabels", texts names)
        ∷ []))

  -- From whether the login gave a token, and what `get_active_policies` answers then.
  unfoldable pub collect_policy_snapshot : Bool → Result Value → Fields
  unfolding policy_summary
  collect_policy_snapshot authenticated policies =
      if authenticated
      then on_result (policies >>= policy_summary)
          (λ summary. policy_fields (str "collected") (("summary", obj summary) ∷ []))
          (λ e. policy_fields (str "collection_failed") (("error", str e) ∷ []))
      else policy_fields (str "auth_unavailable") (
          ("note", str "liderapi authentication is required before collecting policy snapshot.")
          ∷ [])

  unfoldable pub run_policy_snapshot_contract_check : Bool → Result Value → Check
  unfolding collect_policy_snapshot build_check value_eq
  run_policy_snapshot_contract_check authenticated policies =
      let snapshot = collect_policy_snapshot authenticated policies in
      build_check "policy_snapshot_contract" "scenario"
        "Runtime can collect a concrete policy snapshot from the active-policies API"
        (value_eq (get "status" snapshot) (str "collected"))
        (snapshot_actual ("activePolicyCount" ∷ []) snapshot)
        (obj (fields (("status", str "collected") ∷ []))) (obj snapshot)
