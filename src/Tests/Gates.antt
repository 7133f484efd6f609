-- ===== src/Tests/Gates.antt =====
-- The registration gate, where the first attempt raises.
use liderahenk_test_platform.Base.{ℕ, zero, suc, ◌≡◌, refl, ◌↔◌, true, [], ◌∷◌}
use liderahenk_test_platform.Json.{pos, value_eq}
use liderahenk_test_platform.Checks.{passes}
use liderahenk_test_platform.Verdict.{taxonomy_of, names_of, checks_of}
use liderahenk_test_platform.ParityGate.{Answer, answered, raised, registration_parity_check}
use liderahenk_test_platform.ParityGate.Attempts.{FirstAgrees, registration_parity_check_lem}
use liderahenk_test_platform.Tests.Data.{snapshot_with}

-- The world is the number of calls made.
abbrev pub collect : ℕ → Answer × ℕ
collect zero = (raised "ConnectionError" "refused", 1)
collect (suc n) = (answered (snapshot_with ("ahenk-001" ∷ [])), suc (suc n))

abbrev no_sleep : ℕ → ℕ
no_sleep n = n

second_passes : passes ((registration_parity_check collect no_sleep (pos 1) 0).0) ≡ true
unfolding registration_parity_check taxonomy_of names_of checks_of value_eq
second_passes = refl

stops_there : (registration_parity_check collect no_sleep (pos 1) 0).1 ≡ 2
unfolding registration_parity_check
stops_there = refl

registration_parity_check_lem_example :
    (passes ((registration_parity_check collect no_sleep (pos 1) 0).0) ≡ true)
    ↔ FirstAgrees collect no_sleep
        (pos 1)
        3
        1
        0
        ((registration_parity_check collect no_sleep (pos 1) 0).1)
registration_parity_check_lem_example = registration_parity_check_lem collect no_sleep (pos 1) 0
