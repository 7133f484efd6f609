-- ===== src/PolicyRoundtrip/Deletions.antt =====
-- The cleanup: what it tries, and its status.
use liderahenk_test_platform.Base.{
  String, ◌≡◌, ◌≢◌, refl, sym, ◌∙◌, ◌↔◌, Bool, true, false, ◌&&◌, List, [], ◌∷◌, map, is_nil, arith,
  eq_iff,
}
use liderahenk_test_platform.Json.{ℤ, Value}
use liderahenk_test_platform.Result.{Result}
use liderahenk_test_platform.PolicyRoundtrip.{
  Answer, answer, raised, Operation, Api, Attempt, attempt_of, cleanup_status, failed_by,
  run_operations, cleaned,
}

module _ (repr : Value → String) (int_of : Value → Result ℤ) (e : Api) where
  abbrev answered : Answer (Unit {0}) → Bool
  answered (answer _) = true
  answered (raised _) = false

  -- The deletions, each of which is made in the world that the one before it left, all answer.
  abbrev pub all_deleted : List Operation → e.World → Bool
  all_deleted [] w = true
  all_deleted (op ∷ r) w = answered (e.delete op w).0 && all_deleted r (e.delete op w).1

  -- The world after all of them.
  abbrev pub after_all : List Operation → e.World → e.World
  after_all [] w = w
  after_all (op ∷ r) w = after_all r (e.delete op w).1

  failed_by-nil :
      (op : Operation) (a : Answer (Unit {0})) (rest : List Attempt)
      → is_nil (failed_by repr int_of e op a rest) ≡ (answered a && is_nil rest)
  unfolding failed_by
  failed_by-nil op (answer u) rest = refl
  failed_by-nil op (raised x) rest = refl

  run_operations-nil :
      (ops : List Operation) (w : e.World)
      → is_nil (run_operations repr int_of e ops w).0 ≡ all_deleted ops w
  unfolding run_operations
  run_operations-nil [] w = refl
  run_operations-nil (op ∷ r) w =
      failed_by-nil op (e.delete op w).0 _ ∙ rw (run_operations-nil r (e.delete op w).1)

  run_operations-world :
      (ops : List Operation) (w : e.World)
      → (run_operations repr int_of e ops w).1 ≡ after_all ops w
  unfolding run_operations
  run_operations-world [] w = refl
  run_operations-world (op ∷ r) w = run_operations-world r (e.delete op w).1

  pub cleaned-after_all :
      (ops : List Operation) (w : e.World) → (cleaned repr int_of e ops w).1 ≡ after_all ops w
  unfolding cleaned
  cleaned-after_all ops w = run_operations-world ops w

  completed_ne_partial : ◌≢◌ {A = String} "completed" "partial_failure"
  completed_ne_partial = ground (arith, eq_iff "completed" "partial_failure")

  status_completed :
      (a : Attempt) (r failed : List Attempt)
      → (cleanup_status (a ∷ r) failed ≡ "completed") ↔ (is_nil failed ≡ true)
  status_completed a r [] = (λ h. refl, λ h. refl)
  status_completed a r (f ∷ fs) =
      (λ h. absurd (completed_ne_partial (sym h)), λ h. ground (arith, h))

  -- The cleanup of some resources tries every deletion in the order of the operations, also after
  -- one that failed, and its status is `completed` exactly when every deletion answered.
  pub cleaned_lem :
      (op : Operation) (r : List Operation) (w : e.World)
      → ((cleaned repr int_of e (op ∷ r) w).1 ≡ after_all (op ∷ r) w)
        × ((cleaned repr int_of e (op ∷ r) w).0.attempted ≡ map attempt_of (op ∷ r))
        × (((cleaned repr int_of e (op ∷ r) w).0.status ≡ "completed")
            ↔ (all_deleted (op ∷ r) w ≡ true))
  unfolding cleaned
  cleaned_lem op r w =
      let s =
        status_completed (attempt_of op) (map attempt_of r)
          (run_operations repr int_of e (op ∷ r) w).0 in
      let n = run_operations-nil (op ∷ r) w in
      (run_operations-world (op ∷ r) w, refl, (λ h. sym n ∙ s.0 h, λ h. s.1 (n ∙ h)))
