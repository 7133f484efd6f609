-- ===== src/PolicySnapshot/Collected.antt =====
-- When the snapshot of the active policies is collected.
use liderahenk_test_platform.Base.{
  String, ◌≡◌, refl, sym, ap, ◌∙◌, ◌⊎◌, inl, inr, Bool, true, false, List, [], ◌∷◌, all,
}
use liderahenk_test_platform.Result.{Result, ok, err, ◌>>=◌}
use liderahenk_test_platform.Checks.{passes}
use liderahenk_test_platform.Json.{Value, null, bool, num, str, arr, obj, is_dict}
use liderahenk_test_platform.PolicySnapshot.{
  take, policies_of, labels, run_policy_snapshot_contract_check,
}

abbrev is_ok {ℓ} : {A : Type ℓ} → Result A → Bool
is_ok (ok a) = true
is_ok (err e) = false

is_ok-bind {ℓ κ} :
    {A : Type ℓ} {B : Type κ} (m : Result A) (f : A → B) → is_ok (m >>= λ a. ok (f a)) ≡ is_ok m
is_ok-bind (ok a) f = refl
is_ok-bind (err e) f = refl

answers {ℓ} : {A : Type ℓ} (m : Result A) → ((a : A) × (m ≡ ok a)) ⊎ ((e : String) × (m ≡ err e))
answers (ok a) = inl (a, refl)
answers (err e) = inr (e, refl)

module _ (repr : Value → String) where
  labels-ok : (ps : List Value) → is_ok (labels repr ps) ≡ all is_dict ps
  unfolding labels
  labels-ok [] = refl
  labels-ok (obj r ∷ ps) = is_ok-bind (labels repr ps) _ ∙ labels-ok ps
  labels-ok (null ∷ ps) = refl
  labels-ok (bool b ∷ ps) = refl
  labels-ok (num n ∷ ps) = refl
  labels-ok (str s ∷ ps) = refl
  labels-ok (arr vs ∷ ps) = refl

  -- The check passes exactly when the login gave a token, the API answers, and each of the first
  -- five policies is an object.
  run_policy_snapshot_contract_check_ok :
      (policies : Value)
      → passes (run_policy_snapshot_contract_check repr true (ok policies))
        ≡ all is_dict (take 5 (policies_of policies))
  unfolding run_policy_snapshot_contract_check
  run_policy_snapshot_contract_check_ok policies =
      let first = take 5 (policies_of policies) in
      elim (answers (labels repr first)) [
        | inl (names, e) ↦ rw e (ap is_ok (sym e) ∙ labels-ok first)
        | inr (message, e) ↦ rw e (ap is_ok (sym e) ∙ labels-ok first)
      ]
