-- ===== src/Gate/Waits.antt =====
-- `wait_for_liderapi_gate` as a whole: its clock, its output and its end.
use liderahenk_test_platform.Base.{
  ℕ, zero, suc, ◌+◌, ◌*◌, ◌≤◌, ◌<◌, max, String, ◌<>◌, ◌≡◌, refl, true, false, Option, none, some,
  List, [], ◌∷◌, leb, ltb, leb→le, arith, length, Bool-cases, inl, inr,
}
use liderahenk_test_platform.Base.Gives.{Gives, Gives-if}
use liderahenk_test_platform.Json.{Fields, str, fields}
use liderahenk_test_platform.Result.{Result, ok, err, on_result}
use liderahenk_test_platform.Gate.{
  Network, Line, success, waiting, Outcome, ready, gate_timeout, value_error, authenticate,
  normalize_base_url, after_sign_in, probe_protected_endpoint, attempt_once, timed_out, gate_loop,
  wait_for_liderapi_gate,
}

-- The clock does not run backwards, and a sleep lasts as long as it was asked to.
pub record IsClock (e : Network) : Type 0 where
  pub second_pos : 0 < e.second
  pub sleep_lasts : (d : ℕ) (w : e.World) → e.monotonic w + d ≤ e.monotonic (e.sleep d w)
  pub post_lasts :
      (url : String) (payload : Fields) (token : Option String) (timeout : ℕ) (w : e.World)
      → e.monotonic w ≤ e.monotonic (e.post url payload token timeout w).1

module _ (e : Network) (clock : IsClock e) (base_url username password : String)
    (interval : ℕ) where
  after_sign_in_lasts :
      (r : Result String) (w : e.World)
      → e.monotonic w ≤ e.monotonic (after_sign_in e base_url username password interval r w).1
  unfolding after_sign_in probe_protected_endpoint
  after_sign_in_lasts (ok token) w = clock.post_lasts _ _ _ _ w
  after_sign_in_lasts (err message) w = omega arith

  attempt_lasts :
      (w : e.World)
      → e.monotonic w ≤ e.monotonic (attempt_once e base_url username password interval w).1
  unfolding attempt_once authenticate
  attempt_lasts w = omega (
    arith,
    clock.post_lasts (normalize_base_url base_url <> "/api/auth/signin")
        (fields (("username", str username) ∷ ("password", str password) ∷ [])) none
        (max 1 interval) w,
    after_sign_in_lasts (authenticate e base_url username password interval w).0
        (authenticate e base_url username password interval w).1,
  )

-- The successes since the last failure, by the output.
abbrev pub streak : List Line → ℕ
streak [] = 0
streak (success _ _ _ ∷ r) = streak r + 1
streak (waiting _ _ ∷ r) = 0

second_le-mul : (k n : ℕ) → 0 < k → n ≤ k * n
second_le-mul zero n h = ground arith
second_le-mul (suc k) n h = omega arith

plus_one : (n : ℕ) → n + 1 ≡ suc n
plus_one n = omega arith

Gives-on_result {ℓ κ} :
    {A : Type ℓ} {B : Type κ} (P : A → Type 0) (r : Result B) (f : B → Option A)
    (g : String → Option A)
    → ((b : B) → Gives P (f b))
    → ((message : String) → Gives P (g message))
    → Gives P (on_result r f g)
Gives-on_result P (ok b) f g h k = h b
Gives-on_result P (err message) f g h k = k message

rest_enough :
    (fuel second interval deadline now done rested : ℕ)
    → 0 < interval
    → now ≤ done
    → done + interval * second ≤ rested
    → deadline < now + suc fuel * second
    → deadline < rested + fuel * second
rest_enough fuel second interval deadline now done rested positive lasts slept enough =
    omega (arith, second_le-mul interval second positive)

module _ (e : Network) (stable deadline : ℕ) where
  -- What an end of the wait means.
  abbrev pub IsOutcome : Outcome × List Line × e.World → Type 0
  IsOutcome (ready attempts base_url n, output, w) =
      (n ≡ stable) × (attempts ≡ length output) × (streak output ≡ stable)
  IsOutcome (gate_timeout message, output, w) =
      (deadline < e.monotonic w) × (streak output < stable)
  IsOutcome (value_error message, output, w) = ⊥

  module _ (base_url username password given : String) (interval : ℕ) where
    abbrev loop : ℕ → Option String → List Line → e.World → Option (Outcome × List Line × e.World)
    loop fuel last_error output w =
        gate_loop e base_url username password interval stable deadline given fuel (streak output)
          (length output) last_error output w

    -- A round's result, if what follows its rest does as `IsOutcome` says.
    round_step :
        (fuel : ℕ) (last_error : Option String) (output : List Line) (w : e.World)
        → streak output < stable
        → leb (e.monotonic w) deadline ≡ true
        → ((line : Line) (last : Option String)
            → streak (line ∷ output) < stable
            → Gives IsOutcome (
                loop fuel last (line ∷ output) (
                  e.sleep
                    (interval * e.second)
                    (attempt_once e base_url username password interval w).1)))
        → Gives IsOutcome (loop (suc fuel) last_error output w)
    unfolding gate_loop
    round_step fuel last_error output w below early next =
        let (r, w') = attempt_once e base_url username password interval w in
        rw early (
          Gives-on_result _ r _ _
            (λ _.
              Gives-if _ (leb stable (streak output + 1)) _ _
                (λ reached. (
                  refl,
                  plus_one (length output),
                  omega (arith, leb→le stable (streak output + 1) reached),
                ))
                (λ more. rw (plus_one (length output)) (
                  next (success (suc (length output)) (streak output + 1) stable) last_error
                    (ground arith))))
            (λ message.
              rw (plus_one (length output))
                (next (waiting (suc (length output)) message) (some message) (omega arith))))

    module _ (clock : IsClock e) (positive : 0 < interval) where
      abbrev after : e.World → e.World
      after w = (attempt_once e base_url username password interval w).1

      rested_enough :
          (fuel : ℕ) (w : e.World)
          → deadline < e.monotonic w + suc fuel * e.second
          → deadline < e.monotonic (e.sleep (interval * e.second) (after w)) + fuel * e.second
      rested_enough fuel w enough =
          rest_enough fuel e.second interval deadline (e.monotonic w) (e.monotonic (after w))
            (e.monotonic (e.sleep (interval * e.second) (after w))) positive
            (attempt_lasts e clock base_url username password interval w)
            (clock.sleep_lasts (interval * e.second) (after w)) enough

      late_step :
          (fuel : ℕ) (last_error : Option String) (output : List Line) (w : e.World)
          → streak output < stable
          → leb (e.monotonic w) deadline ≡ false
          → Gives IsOutcome (loop (suc fuel) last_error output w)
      unfolding gate_loop timed_out
      late_step fuel last_error output w below late =
          let over : deadline < e.monotonic w = ground arith in rw late (over, below)

      gate_loop-Gives :
          (fuel : ℕ) (last_error : Option String) (output : List Line) (w : e.World)
          → streak output < stable
          → deadline < e.monotonic w + fuel * e.second
          → Gives IsOutcome (loop (suc fuel) last_error output w)
      gate_loop-Gives zero last_error output w below enough =
          late_step zero last_error output w below (ground arith)
      gate_loop-Gives (suc fuel) last_error output w below enough =
          elim (Bool-cases (leb (e.monotonic w) deadline)) [
            | inl early ↦ round_step (suc fuel) last_error output w below early (λ line last below'.
                gate_loop-Gives fuel last (line ∷ output) (e.sleep (interval * e.second) (after w))
                  below' (rested_enough fuel w enough))
            | inr late ↦ late_step (suc fuel) last_error output w below late
          ]

-- With a clock that does not run backwards, sleeps that last and an interval of a second or more, the
-- wait ends after at most one round per second of its timeout and two more. If it ends with
-- `ready`, the last lines of its output are as many successes as were asked for, with no failure
-- between them, and it made as many attempts as there are lines. If it times out, the deadline is
-- over and fewer successes than that were there in a row at its end.
pub wait_for_liderapi_gate_ends :
    (e : Network) (base_url username password given : String) (interval stable timeout : ℕ)
    (w : e.World)
    → IsClock e
    → 0 < interval
    → 0 < stable
    → Gives (IsOutcome e stable (e.monotonic w + timeout * e.second)) (
        wait_for_liderapi_gate e base_url username password interval
          (suc (suc timeout))
          stable
          timeout
          given
          w)
unfolding wait_for_liderapi_gate
wait_for_liderapi_gate_ends e base_url username password given interval stable timeout w clock
      positive some_stable =
    let asked : ltb stable 1 ≡ false = ground arith in
    rw asked (
      gate_loop-Gives e stable (e.monotonic w + timeout * e.second) base_url username password given
        interval clock positive (suc timeout) none [] w some_stable
        (omega (arith, clock.second_pos)))
