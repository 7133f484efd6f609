-- ===== src/Runner/Order.antt =====
-- The order that the machine of three flags forces on the successes of a run.
use liderahenk_test_platform.Base.{
  String, ◌≡◌, refl, Bool, true, false, not, ◌&&◌, ◌||◌, Option, List, ◌∷◌,
}
use liderahenk_test_platform.Json.{ℤ, Value, Fields}
use liderahenk_test_platform.Result.{Result, ok}
use liderahenk_test_platform.Runner.{Adapters, StepResult, Action, fresh}
use liderahenk_test_platform.Runner.{
  create_computer_group, create_script_profile, create_policy, execute_policy,
}
use liderahenk_test_platform.Runner.Run.{run_steps}
use liderahenk_test_platform.Runner.Progress.{
  Stage, keeps, Move, fails, checks, groups, profiles, policies, executes,
}
use liderahenk_test_platform.Runner.Follows.{Follows, ended, moved, action_at, run_steps-Follows}

-- Which actions make what a later one needs.
abbrev is_profile : Action → Bool
is_profile create_script_profile = true
is_profile _ = false

abbrev is_group : Action → Bool
is_group create_computer_group = true
is_group _ = false

abbrev is_policy : Action → Bool
is_policy create_policy = true
is_policy _ = false

abbrev is_execution : Action → Bool
is_execution execute_policy = true
is_execution _ = false

-- Whether a step succeeds only after the successes that it needs: `p`, `g` and `q` say whether a
-- profile, a group and a policy were made before.
abbrev pub may : Bool → Bool → Bool → Action → Bool
may p g q a = (not (is_policy a) || p) && (not (is_execution a) || (q && g))

abbrev pub in_order : Bool → Bool → Bool → List Fields → List StepResult → Bool
in_order p g q (step ∷ steps) (r ∷ rs) =
    (not r.success || may p g q (action_at step))
    && in_order (p || (r.success && is_profile (action_at step)))
        (g || (r.success && is_group (action_at step)))
        (q || (r.success && is_policy (action_at step))) steps rs
in_order p g q _ _ = true

-- A flag is set only if what it stands for was made.
abbrev IsMade : Stage → Bool → Bool → Bool → Type 0
IsMade st p g q =
    (st.profile ≡ true → p ≡ true) × (st.group ≡ true → g ≡ true) × (st.policy ≡ true → q ≡ true)

quiet : (a : Action) → keeps a ≡ true → (is_policy a ≡ false) × (is_execution a ≡ false)
quiet create_policy k = cc
quiet execute_policy k = cc
quiet a k = (refl, refl)

-- What was made stays made, and what is made now is made.
stays : (flag made now : Bool) → (flag ≡ true → made ≡ true) → flag ≡ true → (made || now) ≡ true
stays flag made now f h = rw (f h) refl

made_now : (made : Bool) → (made || true) ≡ true
made_now true = refl
made_now false = refl

IsMade-more :
    (st : Stage) (p g q p' g' q' : Bool) → IsMade st p g q → IsMade st (p || p') (g || g') (q || q')
IsMade-more st p g q p' g' q' m =
    (stays st.profile p p' m.0, stays st.group g g' m.1, stays st.policy q q' m.2)

move-may :
    {st st' : Stage} {a : Action} {b : Bool} (p g q : Bool)
    → Move st a b st'
    → IsMade st p g q
    → ((not b || may p g q a) ≡ true)
      × IsMade st' (p || (b && is_profile a)) (g || (b && is_group a)) (q || (b && is_policy a))
move-may {st} p g q (fails a) m = (refl, IsMade-more st p g q false false false m)
move-may {st} p g q (checks a k) m = (
  rw ((quiet a k).0, (quiet a k).1) refl,
  IsMade-more st p g q (is_profile a) (is_group a) (is_policy a) m,
)
move-may {st} p g q (groups b) m =
    (refl, (stays st.profile p false m.0, λ h. made_now g, stays st.policy q false m.2))
move-may {st} p g q (profiles b) m =
    (refl, (λ h. made_now p, stays st.group g false m.1, stays st.policy q false m.2))
move-may {st} p g q (policies b e) m =
    (rw (m.0 e) refl, (stays st.profile p false m.0, stays st.group g false m.1, λ h. made_now q))
move-may {st} p g q (executes e e') m =
    (rw (m.2 e, m.1 e') refl, IsMade-more st p g q false false false m)

Follows-in_order :
    {st st' : Stage} {steps : List Fields} {rs : List StepResult} (p g q : Bool)
    → Follows st steps rs st'
    → IsMade st p g q
    → in_order p g q steps rs ≡ true
Follows-in_order p g q ended m = refl
Follows-in_order {steps = step ∷ steps} {rs = r ∷ rs} p g q (moved move rest) m =
    let here = move-may p g q move m in
    rw here.0 (
      Follows-in_order (p || (r.success && is_profile (action_at step)))
        (g || (r.success && is_group (action_at step)))
        (q || (r.success && is_policy (action_at step))) rest here.1)

module _ (repr : Value → String) (int_of : Value → Result ℤ) (ahenk_count : ℤ) (A : Adapters)
    (reaches : ℤ → ℤ → Option Value → Result Bool) (rate_text : ℤ → ℤ → String) where
  -- In a run of a fresh runner that gives results, a step that makes a policy succeeds only after one
  -- that made a profile, and a step that executes a policy only after one that made a policy and one
  -- that made a group.
  pub run_steps-in_order :
      (steps : List Fields) (w : A.World) (rs : List StepResult)
      → (run_steps repr int_of ahenk_count A reaches rate_text steps fresh w).result ≡ ok rs
      → in_order false false false steps rs ≡ true
  run_steps-in_order steps w rs h =
      Follows-in_order false false false
        (run_steps-Follows repr int_of ahenk_count A reaches rate_text steps fresh w rs h)
        (λ f. f, λ f. f, λ f. f)
