-- ===== src/Baseline/Protect.antt =====
-- A baseline that was captured against later captures.
use mathlib.Core.Path.{subst}
use liderahenk_test_platform.Base.{String, ◌≡◌, sym, ap, true, false, ◌⊎◌, inr}
use liderahenk_test_platform.Json.{ℤ, Value}
use liderahenk_test_platform.Result.{Result, ok}
use liderahenk_test_platform.Baseline.{Contract, Store, Dir}
use liderahenk_test_platform.Baseline.Validate.Messages.{is_ok}
use liderahenk_test_platform.Baseline.Capture.{
  Environ, Capture, env_or, source_of, is_complete, capture_golden_baseline,
}
use liderahenk_test_platform.Baseline.Complete.{IsStore, registry, Platform, final-is_complete}
use liderahenk_test_platform.Baseline.RoundTrip.{IsAnswered, context, context-IsClean, performed}
use liderahenk_test_platform.Baseline.Frame.{capture_golden_baseline_refuses}

module _ (S : Store) (repr : Value → String) (int_of : String → Result ℤ) (c : Contract) where
  -- After a permitted capture for which the platform answers every call, another capture without
  -- force, whatever it asks for and whatever the platform would answer, raises and leaves every file
  -- of the directory as the first one left it. JSON that is written is taken to be read back.
  pub capture_golden_baseline_protects :
      (k : Capture S.Blob) (p : Platform S.Blob) (e : Environ) (ldap mysql : ℤ) (d : Dir S)
      (again : Capture S.Blob)
      → IsStore S
      → IsAnswered S repr int_of c k p e ldap mysql
      → k.confirm_stock_source ≡ true
      → (k.force ≡ true) ⊎ (is_complete S (d "manifest.json") ≡ ok false)
      → again.force ≡ false
      → (is_ok
            (capture_golden_baseline S repr int_of
              (registry c)
              again
              ((capture_golden_baseline S repr int_of (registry c) k d).1)).0
          ≡ false)
        × ((capture_golden_baseline S repr int_of
              (registry c)
              again
              ((capture_golden_baseline S repr int_of (registry c) k d).1)).1
            ≡ (capture_golden_baseline S repr int_of (registry c) k d).1)
  capture_golden_baseline_protects k p e ldap mysql d again s a yes_stock over unforced =
      let found =
        final-is_complete S repr c k.now p (env_or c.baseline_name_env "stock-liderahenk" e)
          (source_of S repr int_of (registry c) k.source_label e)
          (context S repr int_of c k p e ldap mysql d) d s
          (context-IsClean S repr int_of c k p e ldap mysql d) in
      let left = ap (λ r. r.1) (performed S repr int_of c k p e ldap mysql d a yes_stock over) in
      capture_golden_baseline_refuses S repr int_of (registry c) again
        ((capture_golden_baseline S repr int_of (registry c) k d).1)
        (inr
          (unforced, subst (λ dir. is_complete S (dir "manifest.json") ≡ ok true) (sym left) found))
