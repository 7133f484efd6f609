-- ===== src/Verdict/Failures.antt =====
-- How a verdict's status, failed checks and taxonomy hang together.
use liderahenk_test_platform.Base.{
  String, ◌≡◌, ◌≢◌, refl, ap, ◌∙◌, ◌⊎◌, Bool, true, false, ◌&&◌, List, [], ◌∷◌, is_nil, is_nil→nil,
  arith, Bool-cases, inl, inr, if◌then◌else◌,
}
use liderahenk_test_platform.Snapshot.{Snapshot}
use liderahenk_test_platform.Verdict.{
  Flags, names_of, all_set, TaxonomyEntry, checks_of, taxonomy_of, Evaluation, evaluate_snapshot,
}

pub is_nil-names_of : (flags : Flags) → is_nil (names_of false flags) ≡ all_set flags
unfolding names_of
is_nil-names_of [] = refl
is_nil-names_of ((name, true) ∷ r) = is_nil-names_of r
is_nil-names_of ((name, false) ∷ r) = refl

pub is_nil-taxonomy_of :
    (timed_out : Bool) (errors failed : List String)
    → is_nil (taxonomy_of timed_out errors failed) ≡ (is_nil errors && is_nil failed)
unfolding taxonomy_of
is_nil-taxonomy_of timed_out [] [] = ground arith
is_nil-taxonomy_of timed_out [] (f ∷ r) = ground arith
is_nil-taxonomy_of timed_out (e ∷ es) failed = refl

module _ (s : Snapshot) (timed_out : Bool) (errors : List String) where
  abbrev result : Evaluation
  result = evaluate_snapshot s timed_out errors

  pub is_nil-taxonomy : is_nil result.taxonomy ≡ (is_nil errors && all_set (checks_of s))
  unfolding evaluate_snapshot
  is_nil-taxonomy = rw (is_nil-taxonomy_of, is_nil-names_of)

  pub is_nil-failed : is_nil result.failed_checks ≡ all_set (checks_of s)
  unfolding evaluate_snapshot
  is_nil-failed = is_nil-names_of (checks_of s)

  pub status_lem :
      result.status ≡ (if is_nil errors && all_set (checks_of s) then "pass" else "fail")
  unfolding evaluate_snapshot
  status_lem = rw (is_nil-taxonomy_of, is_nil-names_of) (ground arith)

  -- Either the status is `pass`, every check passed, and no failure is listed, or it is `fail` and
  -- a failure is listed.
  pub evaluate_snapshot_consistent :
      ((result.status ≡ "pass")
        × (all_set result.checks ≡ true)
        × (result.failed_checks ≡ [])
        × (result.taxonomy ≡ []))
      ⊎ ((result.status ≡ "fail") × (result.taxonomy ≢ []))
  evaluate_snapshot_consistent = elim (Bool-cases (is_nil errors && all_set (checks_of s))) [
    | inl e ↦ inl (
      status_lem ∙ ap (λ b. if b then "pass" else "fail") e,
      unfold evaluate_snapshot in ground arith,
      is_nil→nil _ (is_nil-failed ∙ ground arith),
      is_nil→nil _ (is_nil-taxonomy ∙ e),
    )
    | inr e ↦ inr (
      status_lem ∙ ap (λ b. if b then "pass" else "fail") e,
      λ none_listed.
          ground (arith, is_nil-taxonomy, ap (λ (l : List TaxonomyEntry). is_nil l) none_listed),
    )
  ]
