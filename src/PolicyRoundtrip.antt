-- ===== src/PolicyRoundtrip.antt =====
-- The parts of the policy round trip: the search in a tree of groups or computers, the creation of a
-- group with its reconciliation, and the cleanup, of
-- platform_runtime/readiness/policy_roundtrip.py. The API is a parameter, each call of which
-- answers or raises. `repr` is what `str` prints of a list or an object, and `int_of` is `int`.
pub mod Search
pub mod Deletions
pub mod Run
use liderahenk_test_platform.Base.{
  ℕ, String, Bool, true, false, not, ◌||◌, Option, none, some, List, [], ◌∷◌, ◌++◌, map, ◌==◌, eqb,
  is_nil, if◌then◌else◌,
}
use liderahenk_test_platform.Json.{
  ℤ, Value, null, str, num, Fields, end, is_end, fields, get, or_else, is_null, truthy, nat,
}
use liderahenk_test_platform.Result.{Result, ok, err, ◌>>=◌, on_result}
use liderahenk_test_platform.Identity.{text_of}

-- An entry of a tree: its fields, and the entries of `childEntries` and of `children`.
mutual
  pub data Entries : Type 0 where
    none_left : Entries
    then_more : Entry → Entries → Entries

  pub data Entry : Type 0 where
    entry : Fields → Entries → Entries → Entry

abbrev pub below : Entries → Entries → Entries
below none_left others = others
below (then_more e r) others = then_more e r

-- `if child: return child`, and the rest of the loop else
abbrev pub found_or : Option Fields → Option Fields → Option Fields
found_or none rest = rest
found_or (some f) rest = if is_end f then rest else some f

-- The search by a test on the entry: the entry, what is below it, and the entries after it.
unfoldable mutual
  pub find_in : (Fields → Bool) → Entries → Option Fields
  find_in test none_left = none
  find_in test (then_more e r) = find_at test e (find_in test r)

  pub find_at : (Fields → Bool) → Entry → Option Fields → Option Fields
  find_at test (entry f none_left others) rest =
      let child = find_in test others in if test f then some f else found_or child rest
  find_at test (entry f (then_more e r) others) rest =
      let child = find_in test (then_more e r) in if test f then some f else found_or child rest

module _ (repr : Value → String) where
  abbrev pub is_named : String → Fields → Bool
  is_named group_name f =
      text_of repr (or_else (or_else (get "cn" f) (get "name" f)) (str "")) == group_name

  unfoldable pub find_group_entry : String → Entries → Option Fields
  unfolding find_in
  find_group_entry group_name nodes = find_in (is_named group_name) nodes

-- A `type` that is a list or an object, at which the source raises, counts as none here.
abbrev pub is_agent : Fields → Bool
is_agent f = is_text (get "type" f)
  where
    is_text : Value → Bool
    is_text (str s) = s == "AHENK" || s == "WINDOWS_AHENK"
    is_text v = false

unfoldable pub find_first_agent : Entries → Option Fields
unfolding find_in
find_first_agent nodes = find_in is_agent nodes

-- An exception of the API: an `HTTPError` with the status and the text of its response, or another.
pub data ApiError : Type 0 where
  http : (status : ℕ) → String → ApiError
  other : String → ApiError

pub data Answer {ℓ} (A : Type ℓ) : Type ℓ where
  answer : A → Answer A
  raised : ApiError → Answer A

-- A deletion of the cleanup. A policy and a profile have the text of their identifier, too.
pub data Operation : Type 0 where
  delete_policy delete_profile : String → ℤ → Operation
  delete_group : Value → Operation

pub record Api : Type 1 where
  pub World : Type 0
  pub get_computer_tree : World → Answer Entries × World
  pub create_computer_group : String → World → Answer Fields × World
  pub create_script_profile : World → Answer Fields × World
  pub create_policy : (profile : Fields) → World → Answer Fields × World
  pub execute_policy : (policy_id group_dn : Value) → World → Answer ℕ × World
  pub get_computer_group_tree : World → Answer Entries × World
  pub delete : Operation → World → Answer (Unit {0}) × World

-- The group, and the status and text of the response to the creation that failed, if it was found in
-- the tree. The text is the whole one, of which the source keeps 500 characters.
abbrev pub Created : Type 0
Created = Fields × Option (ℕ × String)

abbrev pub found_group : ℕ → String → Option Fields → Answer Created
found_group status text none = raised (http status text)
found_group status text (some g) = answer (g, some (status, text))

module _ (repr : Value → String) (e : Api) where
  reconciled : String → ℕ → String → Answer Entries → Answer Created
  unfolding find_group_entry
  reconciled group_name status text (raised x) = raised x
  reconciled group_name status text (answer tree) =
      found_group status text (find_group_entry repr group_name tree)

  after_creation : String → Answer Fields → e.World → Answer Created × e.World
  unfolding reconciled
  after_creation group_name (answer g) w = (answer (g, none), w)
  after_creation group_name (raised (other message)) w = (raised (other message), w)
  after_creation group_name (raised (http status text)) w =
      let (tree, w') = e.get_computer_group_tree w in
      if eqb status 417
      then (reconciled group_name status text tree, w')
      else (raised (http status text), w)

  unfoldable pub create_computer_group_with_reconciliation :
      String → e.World → Answer Created × e.World
  unfolding after_creation
  create_computer_group_with_reconciliation group_name w =
      let (a, w') = e.create_computer_group group_name w in after_creation group_name a w'

-- One deletion that was tried: the resource and its identifier.
abbrev pub Attempt : Type 0
Attempt = String × Value

abbrev pub attempt_of : Operation → Attempt
attempt_of (delete_policy id n) = ("policy", str id)
attempt_of (delete_profile id n) = ("profile", str id)
attempt_of (delete_group dn) = ("group", dn)

pub record Cleanup : Type 0 where
  pub status : String
  pub attempted : List Attempt
  pub failed : List Attempt

abbrev pub cleanup_status : List Attempt → List Attempt → String
cleanup_status [] failed = "not_required"
cleanup_status (a ∷ r) [] = "completed"
cleanup_status (a ∷ r) (f ∷ fs) = "partial_failure"

-- `(d or {}).get(k)`
abbrev field_of : String → Option Fields → Value
field_of k none = null
field_of k (some f) = get k f

module _ (repr : Value → String) (int_of : Value → Result ℤ) where
  identified : Value → (String → ℤ → Operation) → Result (List Operation)
  identified id delete =
      if is_null id then ok [] else (int_of id >>= λ n. ok (delete (text_of repr id) n ∷ []))

  -- `operations`, in their order
  unfoldable pub operations_of : Option Fields → Option Fields → Value → Result (List Operation)
  unfolding identified
  operations_of policy profile group_dn = do
    policies ←
        identified (or_else (field_of "id" policy) (field_of "policyId" policy)) delete_policy
    profiles ←
        identified (or_else (field_of "id" profile) (field_of "profileId" profile)) delete_profile
    ok (policies ++ (profiles ++ (if truthy group_dn then delete_group group_dn ∷ [] else [])))

  module _ (e : Api) where
    failed_by : Operation → Answer (Unit {0}) → List Attempt → List Attempt
    failed_by op (answer _) rest = rest
    failed_by op (raised _) rest = attempt_of op ∷ rest

    -- `for … in operations`: what failed
    unfoldable pub run_operations : List Operation → e.World → List Attempt × e.World
    unfolding failed_by
    run_operations [] w = ([], w)
    run_operations (op ∷ r) w =
        let (a, w') = e.delete op w in
        let (failed, w'') = run_operations r w' in (failed_by op a failed, w'')

    unfoldable pub cleaned : List Operation → e.World → Cleanup × e.World
    unfolding run_operations
    cleaned ops w =
        let (failed, w') = run_operations ops w in
        (
          record {
            status = cleanup_status (map attempt_of ops) failed;
            attempted = map attempt_of ops;
            failed = failed;
          },
          w',
        )

    unfoldable pub cleanup_roundtrip_artifacts :
        Option Fields → Option Fields → Value → e.World → Result Cleanup × e.World
    unfolding cleaned operations_of
    cleanup_roundtrip_artifacts policy profile group_dn w =
        on_result (operations_of policy profile group_dn)
          (λ ops. let (c, w') = cleaned ops w in (ok c, w')) (λ message. (err message, w))
