-- ===== src/PolicyRoundtrip/Run/Cleans.antt =====
-- What the calls of the round trip make, and what its cleanup deletes.
use mathlib.Core.Path.{subst}
use liderahenk_test_platform.Base.{
  ℕ, String, ◌≡◌, ◌≢◌, refl, ◌∙◌, ◌⊎◌, inl, inr, Bool, true, false, Option, none, some, List,
  if◌then◌else◌,
}
use liderahenk_test_platform.Json.{ℤ, Value, Fields, get, has}
use liderahenk_test_platform.Result.{Result, ok, Returns}
use liderahenk_test_platform.PolicyRoundtrip.Deletions.{after_all, cleaned-after_all}
use liderahenk_test_platform.PolicyRoundtrip.Run.Ends.{cleaned-stages}
use liderahenk_test_platform.PolicyRoundtrip.Run.Deletes.{Deletes, operations_of-Deletes}
use liderahenk_test_platform.PolicyRoundtrip.{
  Entries, find_first_agent, ApiError, Answer, answer, raised, Operation, Api, Created,
  create_computer_group_with_reconciliation,
}
use liderahenk_test_platform.PolicyRoundtrip.Run.{
  Made, nothing, Ended, no_agent, Report, after_execution, execution, after_policy, after_profile,
  after_group, with_agent, after_tree, stages, run_policy_roundtrip_check,
}

module _ (repr : Value → String) (int_of : Value → Result ℤ) (e : Api) (group_name : String) where
  -- The calls that answered, from a world on, with what they made and the world after them.
  pub data Grouped (w : e.World) : Fields → e.World → Type 0 where
    grouped :
        {tree : Entries} {v u : e.World} {g : Fields} {why : Option (ℕ × String)}
        → e.get_computer_tree w ≡ (answer tree, v)
        → create_computer_group_with_reconciliation repr e group_name v ≡ (answer (g, why), u)
        → Grouped w g u

  pub data Profiled (w : e.World) : Fields → Fields → e.World → Type 0 where
    profiled :
        {v u : e.World} {g p : Fields}
        → Grouped w g v
        → e.create_script_profile v ≡ (answer p, u)
        → Profiled w g p u

  pub data Policied (w : e.World) : Fields → Fields → Fields → e.World → Type 0 where
    policied :
        {v u : e.World} {g p q : Fields}
        → Profiled w g p v
        → e.create_policy p v ≡ (answer q, u)
        → Policied w g p q u

  -- What is there when the calls end, by the first of them that raises.
  pub data Makes (w : e.World) : Made → e.World → Type 0 where
    no_tree :
        {x : ApiError} {v : e.World} → e.get_computer_tree w ≡ (raised x, v) → Makes w nothing v
    no_group :
        {tree : Entries} {x : ApiError} {v u : e.World}
        → e.get_computer_tree w ≡ (answer tree, v)
        → create_computer_group_with_reconciliation repr e group_name v ≡ (raised x, u)
        → Makes w nothing u
    no_profile :
        {g : Fields} {x : ApiError} {v u : e.World}
        → Grouped w g v
        → e.create_script_profile v ≡ (raised x, u)
        → Makes w (record { group = some g; profile = none; policy = none }) u
    no_policy :
        {g p : Fields} {x : ApiError} {v u : e.World}
        → Profiled w g p v
        → e.create_policy p v ≡ (raised x, u)
        → Makes w (record { group = some g; profile = some p; policy = none }) u
    no_key :
        {g p q : Fields} {v : e.World}
        → Policied w g p q v
        → (has "id" q ≡ false) ⊎ (has "distinguishedName" g ≡ false)
        → Makes w (record { group = some g; profile = some p; policy = some q }) v
    all_made :
        {g p q : Fields} {a : Answer ℕ} {v u : e.World}
        → Policied w g p q v
        → e.execute_policy (get "id" q) (get "distinguishedName" g) v ≡ (a, u)
        → Makes w (record { group = some g; profile = some p; policy = some q }) u

  after_execution-Makes :
      (w v u : e.World) (g p q : Fields) (a : Answer ℕ)
      → Policied w g p q v
      → e.execute_policy (get "id" q) (get "distinguishedName" g) v ≡ (a, u)
      → Makes w
          (after_execution repr int_of e group_name
            (record { group = some g; profile = some p; policy = some q })
            a).1
          u
  unfolding after_execution
  after_execution-Makes w v u g p q (answer status) made h = all_made made h
  after_execution-Makes w v u g p q (raised x) made h = all_made made h

  execution-Makes :
      (w v : e.World) (g p q : Fields)
      → Policied w g p q v
      → (b c : Bool) → has "id" q ≡ b
      → has "distinguishedName" g ≡ c
      → Makes w
          (execution repr int_of e group_name
            (record { group = some g; profile = some p; policy = some q })
            g
            q
            v
            (if b then (if c then none else some "'distinguishedName'") else some "'id'")).1
          (execution repr int_of e group_name
            (record { group = some g; profile = some p; policy = some q })
            g
            q
            v
            (if b then (if c then none else some "'distinguishedName'") else some "'id'")).2
  unfolding execution after_execution
  execution-Makes w v g p q made false c x y = no_key made (inl x)
  execution-Makes w v g p q made true false x y = no_key made (inr y)
  execution-Makes w v g p q made true true x y = after_execution-Makes w v _ g p q _ made refl

  after_policy-Makes :
      (w v u : e.World) (g p : Fields) (a : Answer Fields)
      → Profiled w g p v
      → e.create_policy p v ≡ (a, u)
      → Makes w
          (after_policy repr int_of e group_name g p a u).1
          (after_policy repr int_of e group_name g p a u).2
  unfolding after_policy
  after_policy-Makes w v u g p (raised x) made h = no_policy made h
  after_policy-Makes w v u g p (answer q) made h =
      execution-Makes w u g p q (policied made h) (has "id" q) (has "distinguishedName" g) refl refl

  after_profile-Makes :
      (w v u : e.World) (g : Fields) (a : Answer Fields)
      → Grouped w g v
      → e.create_script_profile v ≡ (a, u)
      → Makes w
          (after_profile repr int_of e group_name g a u).1
          (after_profile repr int_of e group_name g a u).2
  unfolding after_profile
  after_profile-Makes w v u g (raised x) made h = no_profile made h
  after_profile-Makes w v u g (answer p) made h =
      after_policy-Makes w u _ g p (e.create_policy p u).0 (profiled made h) refl

  after_group-Makes :
      (w v u : e.World) (tree : Entries) (a : Answer Created)
      → e.get_computer_tree w ≡ (answer tree, v)
      → create_computer_group_with_reconciliation repr e group_name v ≡ (a, u)
      → Makes w
          (after_group repr int_of e group_name a u).1
          (after_group repr int_of e group_name a u).2
  unfolding after_group
  after_group-Makes w v u tree (raised x) t h = no_group t h
  after_group-Makes w v u tree (answer (g, why)) t h =
      after_profile-Makes w u _ g (e.create_script_profile u).0 (grouped t h) refl

  with_agent-Makes :
      (w v : e.World) (o : Option Fields) (next : Ended × Made × e.World)
      → (with_agent repr int_of e group_name o next v).0 ≢ no_agent
      → Makes w (next.1) (next.2)
      → Makes w
          (with_agent repr int_of e group_name o next v).1
          (with_agent repr int_of e group_name o next v).2
  with_agent-Makes w v none next some_end m = absurd (some_end refl)
  with_agent-Makes w v (some agent) next some_end m = m

  after_tree-Makes :
      (w v : e.World) (a : Answer Entries)
      → e.get_computer_tree w ≡ (a, v)
      → (after_tree repr int_of e group_name a v).0 ≢ no_agent
      → Makes w
          (after_tree repr int_of e group_name a v).1
          (after_tree repr int_of e group_name a v).2
  unfolding after_tree
  after_tree-Makes w v (raised x) t some_end = no_tree t
  after_tree-Makes w v (answer tree) t some_end =
      let made = create_computer_group_with_reconciliation repr e group_name v in
      with_agent-Makes w v (find_first_agent tree)
        (after_group repr int_of e group_name (made.0) (made.1)) some_end
        (after_group-Makes w v (made.1) tree (made.0) t refl)

  stages-Makes :
      (w : e.World)
      → (stages repr int_of e group_name w).0 ≢ no_agent
      → Makes w (stages repr int_of e group_name w).1 (stages repr int_of e group_name w).2
  unfolding stages
  stages-Makes w some_end = after_tree-Makes w _ (e.get_computer_tree w).0 refl some_end

  -- If the check gives a report and there was an agent, then the calls of the API, up to the first that
  -- raises, made some resources, and the world at the end is the one after the deletion of all of
  -- them that have an identifier or a name, in the order policy, profile, group.
  pub run_policy_roundtrip_check_cleans :
      (w : e.World) (r : Report)
      → (stages repr int_of e group_name w).0 ≢ no_agent
      → (run_policy_roundtrip_check repr int_of e group_name w).0 ≡ ok r
      → (made : Made) × (v : e.World) × (ops : List Operation) × Makes w made v
        × Deletes repr int_of made ops
        × ((run_policy_roundtrip_check repr int_of e group_name w).1
            ≡ after_all repr int_of e ops v)
  run_policy_roundtrip_check_cleans w r some_end h =
      let made = (stages repr int_of e group_name w).1 in
      let (ops, given, left) = cleaned-stages repr int_of e group_name w r some_end h in
      (
        made,
        (stages repr int_of e group_name w).2,
        ops,
        stages-Makes w some_end,
        subst (Returns (Deletes repr int_of made)) given (operations_of-Deletes repr int_of made),
        left ∙ cleaned-after_all repr int_of e ops (stages repr int_of e group_name w).2,
      )
