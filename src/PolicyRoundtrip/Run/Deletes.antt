-- ===== src/PolicyRoundtrip/Run/Deletes.antt =====
-- The deletions of the cleanup, for what was made.
use liderahenk_test_platform.Base.{
  String, ◌≡◌, refl, Bool, true, false, Option, none, some, List, [], ◌∷◌, ◌++◌, if◌then◌else◌,
}
use liderahenk_test_platform.Json.{ℤ, Value, null, Fields, get, or_else, is_null, truthy}
use liderahenk_test_platform.Result.{Result, ok, err, ◌>>=◌, Returns, Returns-chain, Returns-if}
use liderahenk_test_platform.Identity.{text_of}
use liderahenk_test_platform.PolicyRoundtrip.{
  Operation, delete_policy, delete_profile, delete_group, field_of, identified, operations_of,
}
use liderahenk_test_platform.PolicyRoundtrip.Run.{Made, group_dn}

-- The identifier of an answer: its `id`, or else what another key has.
abbrev pub id_of : String → Fields → Value
id_of k f = or_else (get "id" f) (get k f)

-- The group is deleted by its name.
pub data Ungroups : Option Fields → List Operation → Type 0 where
  no_group : Ungroups none []
  unnamed : {g : Fields} → truthy (get "distinguishedName" g) ≡ false → Ungroups (some g) []
  named :
      {g : Fields}
      → truthy (get "distinguishedName" g) ≡ true
      → Ungroups (some g) (delete_group (get "distinguishedName" g) ∷ [])

module _ (repr : Value → String) (int_of : Value → Result ℤ) where
  -- A policy or a profile is deleted by its identifier, which must be a number.
  pub data Removes (k : String) (delete : String → ℤ → Operation)
      : Option Fields → List Operation → Type 0 where
    not_made : Removes k delete none []
    without_id : {f : Fields} → is_null (id_of k f) ≡ true → Removes k delete (some f) []
    with_id :
        {f : Fields} {n : ℤ}
        → is_null (id_of k f) ≡ false
        → int_of (id_of k f) ≡ ok n
        → Removes k delete (some f) (delete (text_of repr (id_of k f)) n ∷ [])

  pub record Deletes (made : Made) (ops : List Operation) : Type 0 where
    pub policies : List Operation
    pub profiles : List Operation
    pub groups : List Operation
    pub policy : Removes "policyId" delete_policy made.policy policies
    pub profile : Removes "profileId" delete_profile made.profile profiles
    pub group : Ungroups made.group groups
    pub in_order : ops ≡ policies ++ (profiles ++ groups)

  removed :
      (k : String) (delete : String → ℤ → Operation) (f : Fields)
      → is_null (id_of k f) ≡ false
      → (m : Result ℤ) → int_of (id_of k f) ≡ m
      → Returns
          (Removes k delete (some f))
          (m >>= λ n. ok (delete (text_of repr (id_of k f)) n ∷ []))
  removed k delete f h (ok n) e = with_id h e
  removed k delete f h (err x) e = tt

  identified-Removes :
      (k : String) (delete : String → ℤ → Operation) (o : Option Fields)
      → Returns
          (Removes k delete o)
          (identified repr int_of (or_else (field_of "id" o) (field_of k o)) delete)
  unfolding identified
  identified-Removes k delete none = not_made
  identified-Removes k delete (some f) =
      Returns-if (Removes k delete (some f)) (is_null (id_of k f)) _ _ (λ h. without_id h)
        (λ h. removed k delete f h (int_of (id_of k f)) refl)

  group_operations : Value → List Operation
  group_operations dn = if truthy dn then delete_group dn ∷ [] else []

  named_group :
      (g : Fields) (b : Bool)
      → truthy (get "distinguishedName" g) ≡ b
      → Ungroups (some g) (if b then delete_group (get "distinguishedName" g) ∷ [] else [])
  named_group g true h = named h
  named_group g false h = unnamed h

  group_operations-Ungroups :
      (o : Option Fields)
      → Ungroups o (group_operations (elim o [ none ↦ null | some g ↦ get "distinguishedName" g ]))
  unfolding group_operations
  group_operations-Ungroups none = no_group
  group_operations-Ungroups (some g) = named_group g (truthy (get "distinguishedName" g)) refl

  pub operations_of-Deletes :
      (made : Made)
      → Returns (Deletes made) (operations_of repr int_of made.policy made.profile (group_dn made))
  unfolding operations_of group_operations
  operations_of-Deletes made =
      Returns-chain (Removes "policyId" delete_policy made.policy) (Deletes made) _ _
        (identified-Removes "policyId" delete_policy made.policy)
        (λ ps policy.
          Returns-chain (Removes "profileId" delete_profile made.profile) (Deletes made) _ _
            (identified-Removes "profileId" delete_profile made.profile)
            (λ qs profile. record {
              policies = ps;
              profiles = qs;
              groups = group_operations (group_dn made);
              policy = policy;
              profile = profile;
              group = group_operations-Ungroups made.group;
              in_order = refl;
            }))
