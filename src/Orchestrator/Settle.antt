-- ===== src/Orchestrator/Settle.antt =====
-- `settle_registration` and `run_forever` as a whole.
use liderahenk_test_platform.Base.{
  ℕ, zero, suc, ◌+◌, ◌-◌, ◌*◌, ◌≤◌, ◌<◌, min, String, ◌≡◌, refl, inl, inr, ◌⊎◌, Bool, true, false,
  [], arith, contains, ◌==◌, leb, leb→le, eq_iff,
}
use liderahenk_test_platform.Base.Gives.{Gives, Gives-map, Gives-weaken, Gives-if}
use liderahenk_test_platform.Json.{Value}
use liderahenk_test_platform.Artifacts.{RunManifest, Verdict}
use liderahenk_test_platform.Evidence.Contract.{event_phases, File, load_json}
use liderahenk_test_platform.Orchestrator.{
  Environment, IsClock, State, init, collect_verdict, record_verdict, settle_loop,
  settle_registration, from_count, steady_rounds, run_for,
}
use liderahenk_test_platform.Orchestrator.Rounds.{
  NoStrangers, collect_verdict-IsVerdictOf, IsKept, init-IsKept, write_artifacts-IsKept, IsAccepted,
  write_artifacts-IsAccepted,
}

second_le-mul : (k n : ℕ) → 0 < k → n ≤ k * n
second_le-mul zero n h = ground arith
second_le-mul (suc k) n h = omega arith

-- Sleeping brings the deadline nearer by a second, or reaches it.
sleep_enough :
    (fuel second backoff deadline now woken : ℕ)
    → 0 < backoff
    → now < deadline
    → deadline ≤ now + suc fuel * second
    → now + min (backoff * second) (deadline - now) ≤ woken
    → deadline ≤ woken + fuel * second
sleep_enough fuel second backoff deadline now woken positive early enough slept =
    omega (arith, second_le-mul backoff second positive)

module _ (repr hash_payload : Value → String) (core operational : File)
    (core_loads : (load_json "runtime-core-report.json" core).1 ≡ [])
    (operational_loads : (load_json "runtime-operational-report.json" operational).1 ≡ []) where
  module _ (e : Environment) where
    module _ (clock : IsClock e) (m : RunManifest)
        (backoff_order : m.min_backoff_seconds ≤ m.max_backoff_seconds)
        (ns : (m' : RunManifest) (timed_out : Bool) (w : e.World)
          → NoStrangers (collect_verdict repr hash_payload e m' timed_out w).0) where
      -- What a round hands on.
      abbrev RoundDone : Verdict × State × e.World → Type 0
      RoundDone (v, s, w) = IsKept m s × IsAccepted repr core operational m v s

      record_verdict-done :
          (timed_out : Bool) (attempt : ℕ) (phase : String) (s : State) (w : e.World)
          → IsKept m s
          → 0 < attempt
          → contains event_phases phase ≡ true
          → RoundDone (record_verdict repr hash_payload e timed_out attempt phase s w)
      unfolding record_verdict
      record_verdict-done timed_out attempt phase s w kept positive known =
          let of_run =
            collect_verdict-IsVerdictOf repr hash_payload e s.manifest timed_out w
              (ns s.manifest timed_out w) in
          let v = (collect_verdict repr hash_payload e s.manifest timed_out w).0 in
          (
            write_artifacts-IsKept m s v kept of_run repr attempt phase positive known,
            write_artifacts-IsAccepted m s v kept of_run repr attempt phase positive known core
                operational core_loads operational_loads backoff_order,
          )

      -- The status that ends the loop, or the time that ends it.
      abbrev IsEnd : ℕ → Verdict × State × e.World → Type 0
      IsEnd deadline (v, s, w) = (v.evaluation.status ≡ "pass") ⊎ (deadline ≤ e.monotonic w)

      abbrev IsSettled : ℕ → Verdict × State × e.World → Type 0
      IsSettled deadline r = RoundDone r × IsEnd deadline r

      record_verdict_lasts :
          (timed_out : Bool) (attempt : ℕ) (phase : String) (s : State) (w : e.World)
          → e.monotonic w
            ≤ e.monotonic (record_verdict repr hash_payload e timed_out attempt phase s w).2
      unfolding record_verdict
      record_verdict_lasts timed_out attempt phase s w = clock.observe_lasts w

      module _ (deadline backoff attempt : ℕ) (s : State) (w : e.World) (kept : IsKept m s) where
        -- The state and the world after the first round.
        abbrev after_round : Verdict × State × e.World
        after_round = record_verdict repr hash_payload e false (attempt + 1) "settle" s w

        abbrev now : ℕ
        now = e.monotonic after_round.2

        -- The loop settles if what follows the first sleep does.
        settle_loop_step :
            (fuel : ℕ)
            → (now < deadline
                → Gives (IsSettled deadline) (
                    settle_loop repr hash_payload e fuel deadline
                      (min (backoff * 2) s.manifest.max_backoff_seconds)
                      (attempt + 1)
                      after_round.1
                      (e.sleep (min (backoff * e.second) (deadline - now)) after_round.2)))
            → Gives
                (IsSettled deadline)
                (settle_loop repr hash_payload e (suc fuel) deadline backoff attempt s w)
        unfolding settle_loop
        settle_loop_step fuel next =
            let (v, s', w') = after_round in
            let done =
              record_verdict-done false (attempt + 1) "settle" s w kept (omega arith) refl in
            let again =
              record_verdict-done true (attempt + 1) "timeout" s' w' done.0 (omega arith) refl in
            Gives-if _ (v.evaluation.status == "pass") _ _
              (λ passed. (done, inl ((eq_iff v.evaluation.status "pass").0 passed)))
              (λ failed.
                Gives-if _ (leb deadline (e.monotonic w')) _ _
                  (λ late. (
                    again,
                    inr (
                        omega (
                          arith,
                          leb→le deadline (e.monotonic w') late,
                          record_verdict_lasts true (attempt + 1) "timeout" s' w',
                        )),
                  ))
                  (λ early. next (ground arith)))

      settle_loop-Gives :
          (fuel deadline backoff attempt : ℕ) (s : State) (w : e.World)
          → IsKept m s
          → 0 < backoff
          → 0 < m.max_backoff_seconds
          → deadline ≤ e.monotonic w + fuel * e.second
          → Gives
              (IsSettled deadline)
              (settle_loop repr hash_payload e (suc fuel) deadline backoff attempt s w)
      settle_loop-Gives zero deadline backoff attempt s w kept positive high enough =
          settle_loop_step deadline backoff attempt s w kept zero (λ early.
            let never : ⊥ = omega (arith, record_verdict_lasts false (attempt + 1) "settle" s w) in
            elim never [ ])
      settle_loop-Gives (suc fuel) deadline backoff attempt s w kept positive high enough =
          settle_loop_step deadline backoff attempt s w kept (suc fuel) (λ early.
            let (v, s', w') = record_verdict repr hash_payload e false (attempt + 1) "settle" s w in
            let d = min (backoff * e.second) (deadline - e.monotonic w') in
            settle_loop-Gives fuel deadline (min (backoff * 2) s.manifest.max_backoff_seconds)
              (attempt + 1) s' (e.sleep d w')
              (record_verdict-done false (attempt + 1) "settle" s w kept (omega arith) refl).0
              (rw (kept.high) (omega arith)) high
              (sleep_enough fuel e.second backoff deadline (e.monotonic w')
                (e.monotonic (e.sleep d w')) positive early
                (omega (arith, record_verdict_lasts false (attempt + 1) "settle" s w))
                (clock.sleep_lasts d w')))

      module _ (positive : 0 < m.min_backoff_seconds) where
        abbrev deadline_of : e.World → ℕ
        deadline_of w = e.monotonic w + m.timeout_seconds * e.second

        settle_registration-Gives :
            (w : e.World)
            → Gives
                (IsSettled (deadline_of w))
                (settle_registration repr hash_payload e (suc m.timeout_seconds) (init m) w)
        unfolding settle_registration init
        settle_registration-Gives w =
            settle_loop-Gives m.timeout_seconds (deadline_of w) m.min_backoff_seconds 0 (init m) w
              (init-IsKept m) positive (omega (arith, positive, backoff_order)) (omega arith)

        -- With a clock that does not run backwards and sleeps that last, a positive smallest backoff
        -- that is at most the largest, runtime reports that load, and no verdict that passes a
        -- stranger, `settle_registration` ends after at most one round per second of its timeout and
        -- one more. It ends with a passing verdict or at the deadline, and the validator accepts the
        -- artifacts that it leaves.
        pub settle_registration_ends :
            (w : e.World)
            → Gives
                (λ (v, s, w').
                  IsAccepted repr core operational m v s
                  × ((v.evaluation.status ≡ "pass")
                      ⊎ (e.monotonic w + m.timeout_seconds * e.second ≤ e.monotonic w')))
                (settle_registration repr hash_payload e (suc m.timeout_seconds) (init m) w)
        settle_registration_ends w =
            Gives-weaken _ _
              (settle_registration repr hash_payload e (suc m.timeout_seconds) (init m) w)
              (λ r settled. (settled.0.1, settled.1)) (settle_registration-Gives w)

        -- Some verdict after which the state is as a round leaves it.
        abbrev AfterRound : State × e.World → Type 0
        AfterRound (s, w) = (v : Verdict) × RoundDone (v, s, w)

        steady_rounds-AfterRound :
            (interval n attempt : ℕ) (s : State) (w : e.World)
            → AfterRound (s, w)
            → AfterRound (steady_rounds repr hash_payload e interval n attempt s w)
        unfolding steady_rounds
        steady_rounds-AfterRound interval zero attempt s w done = done
        steady_rounds-AfterRound interval (suc n) attempt s w done =
            let (v, s', w') =
              record_verdict repr hash_payload e false (attempt + 1) "steady-state" s w in
            steady_rounds-AfterRound interval n (attempt + 1) s' (e.sleep (interval * e.second) w')
              (
                v,
                record_verdict-done false (attempt + 1) "steady-state" s w done.1.0 (omega arith)
                    refl,
              )

        -- With a clock that does not run backwards and sleeps that last, a positive smallest backoff
        -- that is at most the largest, runtime reports that load, and no verdict that passes a
        -- stranger: after any number of rounds of `run_forever`, the validator accepts the artifacts,
        -- and reports the status of some verdict.
        pub run_for-IsAccepted :
            (interval n : ℕ) (w : e.World)
            → Gives
                (λ r. (v : Verdict) × IsAccepted repr core operational m v r.0)
                (run_for repr hash_payload e interval (suc m.timeout_seconds) n (init m) w)
        unfolding run_for
        run_for-IsAccepted interval n w =
            Gives-map _ _ _
              (settle_registration repr hash_payload e (suc m.timeout_seconds) (init m) w)
              (λ (v, s, w') settled.
                let r =
                  steady_rounds-AfterRound interval n (from_count s.manifest.attempt_count) s w'
                    (v, settled.0) in
                (r.0, r.1.1))
              (settle_registration-Gives w)
