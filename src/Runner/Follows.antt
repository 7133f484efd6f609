-- ===== src/Runner/Follows.antt =====
-- A run of the steps as a path of the machine of three flags, and the order that this forces.
use mathlib.Core.Path.{subst}
use liderahenk_test_platform.Base.{
  String, ◌≡◌, refl, sym, Bool, Option, List, [], ◌∷◌, arith, Bool-cases, inl, inr,
}
use liderahenk_test_platform.Json.{ℤ, Value, Fields, get, has, obj, end}
use liderahenk_test_platform.Access.{at_key, get_or}
use liderahenk_test_platform.Result.{Result, ok, err, ◌>>=◌, on_result}
use liderahenk_test_platform.Runner.{Adapters, RunnerState, StepResult, Ran, Action, action_of}
use liderahenk_test_platform.Runner.Actions.{perform, caught}
use liderahenk_test_platform.Runner.Run.{execute_step, run_steps}
use liderahenk_test_platform.Runner.Progress.{Stage, stage_of, Move, perform-Moves}

abbrev pub action_at : Fields → Action
action_at step = action_of (get "action" step)

-- The steps of a run, as moves of the machine.
pub data Follows : Stage → List Fields → List StepResult → Stage → Type 0 where
  ended : {g : Stage} → Follows g [] [] g
  moved :
      {g g' g'' : Stage} {step : Fields} {r : StepResult} {steps : List Fields}
      {rs : List StepResult}
      → Move g (action_at step) r.success g'
      → Follows g' steps rs g''
      → Follows g (step ∷ steps) (r ∷ rs) g''

module _ (repr : Value → String) (int_of : Value → Result ℤ) (ahenk_count : ℤ) (A : Adapters)
    (reaches : ℤ → ℤ → Option Value → Result Bool) (rate_text : ℤ → ℤ → String) where
  abbrev step_run : Fields → RunnerState → A.World → Ran A.World StepResult
  step_run step s w = execute_step repr int_of ahenk_count A reaches rate_text step s w

  abbrev pub steps_run : List Fields → RunnerState → A.World → Ran A.World (List StepResult)
  steps_run steps s w = run_steps repr int_of ahenk_count A reaches rate_text steps s w

  -- A step after its action was read.
  abbrev acted : Fields → RunnerState → A.World → Result Value → Ran A.World StepResult
  acted step s w a =
      on_result a
        (λ action.
          let (r, w') =
            perform repr int_of ahenk_count A reaches rate_text (action_of action)
              (get_or "params" (obj end) step) s w in
          record { result = ok (caught s r).0; state = (caught s r).1; world = w' })
        (λ e. record { result = err e; state = s; world = w })

  acted-Move :
      (step : Fields) (s : RunnerState) (w : A.World) (a : Result Value) (r : StepResult)
      → ((v : Value) → a ≡ ok v → v ≡ get "action" step)
      → (acted step s w a).result ≡ ok r
      → Move (stage_of s) (action_at step) r.success (stage_of (acted step s w a).state)
  acted-Move step s w (err e) r read h = cc
  acted-Move step s w (ok v) r read h =
      let moves =
        perform-Moves repr int_of ahenk_count A reaches rate_text (action_of v)
          (get_or "params" (obj end) step) s w in
      let end_of = stage_of (acted step s w (ok v)).state in
      let by_result =
        subst (λ x. Move (stage_of s) (action_of v) x.success end_of) (same_result h) moves in
      subst (λ x. Move (stage_of s) (action_of x) r.success end_of) (read v refl) by_result
    where
      same_result : {x y : StepResult} → ok x ≡ ok y → x ≡ y
      same_result q = cc

  action_read :
      (step : Fields) (v : Value) → at_key "action" (obj step) ≡ ok v → v ≡ get "action" step
  unfolding at_key
  action_read step v h = elim (Bool-cases (has "action" step)) [
    | inl e ↦ ground (arith, e, h)
    | inr e ↦ ground (arith, e, h)
  ]

  step-Move :
      (step : Fields) (s : RunnerState) (w : A.World) (r : StepResult)
      → (step_run step s w).result ≡ ok r
      → Move (stage_of s) (action_at step) r.success (stage_of (step_run step s w).state)
  unfolding execute_step
  step-Move step s w r h = acted-Move step s w (at_key "action" (obj step)) r (action_read step) h

  -- The run of the rest, put together.
  abbrev joined :
      Ran A.World StepResult
      → Result Value
      → Ran A.World (List StepResult)
      → Ran A.World (List StepResult)
  joined here name rest =
      on_result (here.result >>= λ done. name >>= λ n. ok done)
        (λ done. record rest { result = rest.result >>= λ more. ok (done ∷ more) })
        (λ e. record { result = err e; state = here.state; world = here.world })

  -- What a joined run says of its parts.
  record Parts (here : Ran A.World StepResult) (name : Result Value)
      (rest : Ran A.World (List StepResult)) (rs : List StepResult) : Type 0 where
    pub head : StepResult
    pub tail : List StepResult
    pub split : rs ≡ head ∷ tail
    pub here_ok : here.result ≡ ok head
    pub rest_ok : rest.result ≡ ok tail
    pub ends : (joined here name rest).state ≡ rest.state

  joined-Parts :
      (here : Result StepResult) (s1 : RunnerState) (w1 : A.World) (name : Result Value)
      (rest : Result (List StepResult)) (s2 : RunnerState) (w2 : A.World) (rs : List StepResult)
      → (joined
          (record { result = here; state = s1; world = w1 })
          name
          (record { result = rest; state = s2; world = w2 })).result
        ≡ ok rs
      → Parts
          (record { result = here; state = s1; world = w1 })
          name
          (record { result = rest; state = s2; world = w2 })
          rs
  joined-Parts (err e) s1 w1 name rest s2 w2 rs h = cc
  joined-Parts (ok d) s1 w1 (err e) rest s2 w2 rs h = cc
  joined-Parts (ok d) s1 w1 (ok n) (err e) s2 w2 rs h = cc
  joined-Parts (ok d) s1 w1 (ok n) (ok more) s2 w2 rs h = record {
    head = d;
    tail = more;
    split = cc;
    here_ok = refl;
    rest_ok = refl;
    ends = refl;
  }

  -- A run that gives results follows the machine from the flags of its first state to those of its
  -- last.
  pub run_steps-Follows :
      (steps : List Fields) (s : RunnerState) (w : A.World) (rs : List StepResult)
      → (steps_run steps s w).result ≡ ok rs
      → Follows (stage_of s) steps rs (stage_of (steps_run steps s w).state)
  unfolding run_steps
  run_steps-Follows [] s w rs h =
      subst (λ x. Follows (stage_of s) [] x (stage_of s)) (no_steps h) ended
    where
      no_steps : ok [] ≡ ok rs → [] ≡ rs
      no_steps q = cc
  run_steps-Follows (step ∷ r) s w rs h =
      let here = step_run step s w in
      let rest = steps_run r here.state here.world in
      let p =
        joined-Parts here.result here.state here.world (at_key "name" (obj step)) rest.result
          rest.state rest.world rs h in
      let follow = run_steps-Follows r here.state here.world p.tail p.rest_ok in
      let path : Follows (stage_of s) (step ∷ r) (p.head ∷ p.tail) (stage_of rest.state) =
        moved (step-Move step s w p.head p.here_ok) follow in
      subst (λ x. Follows (stage_of s) (step ∷ r) rs (stage_of x)) (sym p.ends)
        (subst (λ x. Follows (stage_of s) (step ∷ r) x (stage_of rest.state)) (sym p.split) path)
