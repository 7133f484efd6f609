-- ===== src/Baseline/Diff/Agreement.antt =====
-- When a comparison passes.
use mathlib.Core.Path.{subst}
use liderahenk_test_platform.Base.{
  ℕ, zero, suc, ◌+◌, String, ◌<>◌, ◌≡◌, refl, sym, ap, ◌∙◌, ◌↔◌, Bool, true, ◌&&◌, Option, none,
  some, List, [], ◌∷◌, ◌++◌, arith, eq_iff, ltb, if◌then◌else◌, Bool-cases, inl, inr, same_texts,
  same_texts→eq, same_texts_refl,
}
use liderahenk_test_platform.Json.{Value, str, obj, Fields, end, field, get, texts, value_eq}
use liderahenk_test_platform.Result.{Result, ok, err, ◌>>=◌}
use liderahenk_test_platform.Access.{as_mapping, get_or}
use liderahenk_test_platform.Baseline.{Contract}
use liderahenk_test_platform.Baseline.Diff.{
  Details, Diff, Surfaces, VerdictSource, artifact, artifact_invalid, artifact_missing,
  live_evaluated, BaselineDiff, diff_of, config_diffs, list_diff, surface_diffs, source_diffs,
  list_diff_details, blocking_of, order_of, diff_payload, build_baseline_diff_payload, surfaces_of,
  summarize_diffs,
}
use liderahenk_test_platform.Baseline.Diff.Tallies.{occurrences, count_in-summary}

-- Every field of the baseline is in the live configuration, with an equal value.
abbrev pub SameFields : Fields → Fields → Type 0
SameFields end live = Unit
SameFields (field k v r) live = (value_eq v (get k live) ≡ true) × SameFields r live

pub record Agrees (b l : Surfaces) (verdict_status : Value) : Type 0 where
  pub dns : b.dns ≡ l.dns
  pub config : SameFields b.config l.config
  pub total :
      value_eq (get "totalComputerNumber" b.dashboard) (get "totalComputerNumber" l.dashboard)
      ≡ true
  pub online :
      value_eq
        (get "totalOnlineComputerNumber" b.dashboard)
        (get "totalOnlineComputerNumber" l.dashboard)
      ≡ true
  pub agents : b.agents ≡ l.agents
  pub tree : b.tree ≡ l.tree
  pub verdict : value_eq (str "pass") verdict_status ≡ true

value_eq-texts : (xs ys : List String) → value_eq (texts xs) (texts ys) ≡ same_texts xs ys
unfolding value_eq
value_eq-texts [] [] = refl
value_eq-texts [] (y ∷ ys) = refl
value_eq-texts (x ∷ xs) [] = refl
value_eq-texts (x ∷ xs) (y ∷ ys) = ground (arith, value_eq-texts xs ys)

-- The differences of severity "error".
abbrev errors : List Diff → ℕ
errors ds = occurrences "error" ds

errors-append : (xs ys : List Diff) → errors (xs ++ ys) ≡ errors xs + errors ys
errors-append [] ys = omega arith
errors-append (x ∷ xs) ys = omega (arith, errors-append xs ys)

errors-diff_of :
    (code surface message : String) (b l : Value) (details : Option Details)
    → errors (diff_of code surface message b l details) ≡ (if value_eq b l then 0 else 1)
unfolding diff_of
errors-diff_of code surface message b l details = elim (Bool-cases (value_eq b l)) [
  | inl e ↦ rw e
  | inr e ↦ rw e
]

errors-list_diff :
    (code surface message : String) (b l : List String)
    → errors (list_diff code surface message b l) ≡ (if same_texts b l then 0 else 1)
unfolding list_diff
errors-list_diff code surface message b l =
    rw (← value_eq-texts b l)
      (errors-diff_of code surface message (texts b) (texts l) (some (list_diff_details b l)))

errors-source_diffs : (s : VerdictSource) → errors (source_diffs s) ≡ 0
unfolding source_diffs
errors-source_diffs artifact = refl
errors-source_diffs artifact_invalid = refl
errors-source_diffs artifact_missing = refl
errors-source_diffs live_evaluated = refl

abbrev same_fields : Fields → Fields → Bool
same_fields end live = true
same_fields (field k v r) live = value_eq v (get k live) && same_fields r live

errors-config_diffs : (b l : Fields) → (errors (config_diffs b l) ≡ 0) ↔ (same_fields b l ≡ true)
unfolding config_diffs
errors-config_diffs end l = (λ h. refl, λ h. refl)
errors-config_diffs (field k v r) l =
    let head =
      errors-diff_of ("config_field:" <> k) "config"
        ("Runtime config field " <> (k <> " differs from the golden baseline.")) v (get k l) none in
    let split =
      errors-append
        (diff_of ("config_field:" <> k) "config"
          ("Runtime config field " <> (k <> " differs from the golden baseline.")) v (get k l) none)
        (config_diffs r l) in
    (
      λ h. ground (arith, head, split, (errors-config_diffs r l).0),
      λ h. ground (arith, head, split, (errors-config_diffs r l).1),
    )

same_fields_iff : (b l : Fields) → (same_fields b l ≡ true) ↔ SameFields b l
same_fields_iff end l = (λ h. tt, λ h. refl)
same_fields_iff (field k v r) l = (
  λ h. (ground arith, (same_fields_iff r l).0 (ground arith)),
  λ h. ground (arith, (same_fields_iff r l).1 h.1),
)

-- One for each surface that differs.
abbrev off : Bool → ℕ
off same = if same then 0 else 1

errors-surface_diffs :
    (b l : Surfaces) (v : Value)
    → errors (surface_diffs b l v)
      ≡ off (same_texts b.dns l.dns)
        + (errors (config_diffs b.config l.config)
            + (off (
                  value_eq
                    (get "totalComputerNumber" b.dashboard)
                    (get "totalComputerNumber" l.dashboard))
                + (off (
                      value_eq
                        (get "totalOnlineComputerNumber" b.dashboard)
                        (get "totalOnlineComputerNumber" l.dashboard))
                    + (off (same_texts b.agents l.agents)
                        + (off (same_texts b.tree l.tree) + off (value_eq (str "pass") v))))))
unfolding surface_diffs
errors-surface_diffs b l v = simp (errors-append, errors-list_diff, errors-diff_of)

surface_diffs-Agrees :
    (b l : Surfaces) (v : Value) → (errors (surface_diffs b l v) ≡ 0) ↔ Agrees b l v
surface_diffs-Agrees b l v = (
  λ h.
      (let total = errors-surface_diffs b l v in
        record {
          dns = same_texts→eq b.dns l.dns (ground (arith, total));
          config =
              (same_fields_iff b.config l.config).0
                ((errors-config_diffs b.config l.config).0 (ground (arith, total)));
          total = ground (arith, total);
          online = ground (arith, total);
          agents = same_texts→eq b.agents l.agents (ground (arith, total));
          tree = same_texts→eq b.tree l.tree (ground (arith, total));
          verdict = ground (arith, total);
        }),
  λ h. rw (
    errors-surface_diffs b l v,
    h.dns,
    h.agents,
    h.tree,
    same_texts_refl l.dns,
    same_texts_refl l.agents,
    same_texts_refl l.tree,
    h.total,
    h.online,
    h.verdict,
    (errors-config_diffs b.config l.config).1 ((same_fields_iff b.config l.config).1 h.config),
  ),
)

abbrev status_at : ℕ → String
status_at n = if ltb 0 n then "fail" else "pass"

passes_at : (n : ℕ) → (status_at n ≡ "pass") ↔ (n ≡ 0)
passes_at zero = (λ h. refl, λ h. refl)
passes_at (suc n) = (λ h. ground (arith, eq_iff "fail" "pass", h), λ h. absurd (omega (arith, h)))

blocking_errors :
    (c : Contract) (s : VerdictSource) (b l : Surfaces) (v : Value)
    → blocking_of c ≡ "error"
    → (summarize_diffs
        (source_diffs s ++ surface_diffs b l v)
        (order_of c)
        (blocking_of c)).blocking_count
      ≡ errors (surface_diffs b l v)
unfolding summarize_diffs
blocking_errors c s b l v e =
    count_in-summary (blocking_of c) (source_diffs s ++ surface_diffs b l v) (order_of c)
    ∙ ap (λ k. occurrences k (source_diffs s ++ surface_diffs b l v)) e
    ∙ errors-append (source_diffs s) (surface_diffs b l v)
    ∙ omega (arith, errors-source_diffs s)

status-Agrees :
    (c : Contract) (m verdict : Fields) (s : VerdictSource) (b l : Surfaces) (v : Value)
    → blocking_of c ≡ "error"
    → ((diff_payload c m (source_diffs s ++ surface_diffs b l v) verdict s).status ≡ "pass")
      ↔ Agrees b l v
unfolding diff_payload
status-Agrees c m verdict s b l v e =
    let ds = source_diffs s ++ surface_diffs b l v in
    let n = (summarize_diffs ds (order_of c) (blocking_of c)).blocking_count in
    let same = blocking_errors c s b l v e in
    (
      λ h. (surface_diffs-Agrees b l v).0 (sym same ∙ (passes_at n).0 h),
      λ h. (passes_at n).1 (same ∙ (surface_diffs-Agrees b l v).1 h),
    )

status_of-Agrees :
    (c : Contract) (m : Result Fields) (verdict : Fields) (s : VerdictSource) (b l : Surfaces)
    (v : Value) (r : BaselineDiff)
    → blocking_of c ≡ "error"
    → (m >>= λ manifest.
        ok (diff_payload c manifest (source_diffs s ++ surface_diffs b l v) verdict s))
      ≡ ok r
    → (r.status ≡ "pass") ↔ Agrees b l v
status_of-Agrees c (ok m) verdict s b l v r e h =
    let same : diff_payload c m (source_diffs s ++ surface_diffs b l v) verdict s ≡ r = cc in
    subst (λ x. (x.status ≡ "pass") ↔ Agrees b l v) same (status-Agrees c m verdict s b l v e)
status_of-Agrees c (err x) verdict s b l v r e h = cc

-- With the blocking severity "error", a comparison of a baseline with a live platform passes exactly
-- when they have the same names in the directory, every configuration field of the baseline is equal
-- in the live configuration, both totals of the dashboard, the identities of the inventory and those
-- of the tree are equal, and the verdict passes, wherever that verdict came from.
pub build_baseline_diff_payload-Agrees :
    (c : Contract) (baseline live verdict : Fields) (s : VerdictSource) (b l : Surfaces)
    (r : BaselineDiff)
    → blocking_of c ≡ "error"
    → surfaces_of baseline ≡ ok b
    → surfaces_of live ≡ ok l
    → build_baseline_diff_payload c baseline live (obj verdict) s ≡ ok r
    → (r.status ≡ "pass") ↔ Agrees b l (get "status" verdict)
unfolding build_baseline_diff_payload as_mapping
build_baseline_diff_payload-Agrees c baseline live verdict s b l r e p q h =
    status_of-Agrees c (as_mapping (get_or "manifest.json" (obj end) baseline)) verdict s b l
      (get "status" verdict) r e (rw (p, q) at h)
