-- ===== src/Baseline/Secrets.antt =====
-- What a captured configuration holds: every critical field, and the value of no secret.
use liderahenk_test_platform.Base.{
  String, ◌≡◌, refl, ◌∙◌, Bool, true, false, not, ◌||◌, List, [], ◌∷◌, ◌==◌, arith, eq_iff,
  contains, if◌then◌else◌, all, All, sym, ap, Bool-cases, inl, inr,
}
use liderahenk_test_platform.Json.{
  Value, null, bool, num, str, arr, obj, Fields, end, has, get, put, is_null, lookup,
}
use liderahenk_test_platform.Json.Laws.{
  get-put, has-put, IsClean, IsCleanFields, put-IsClean, get-IsClean,
}
use liderahenk_test_platform.Access.{get_or}
use liderahenk_test_platform.Baseline.{Contract, Store, hash_text}
use liderahenk_test_platform.Baseline.Validate.{is_in, secret_errors}
use liderahenk_test_platform.Baseline.Validate.Messages.{entry_ok, fields_ok, says_no}
use liderahenk_test_platform.Baseline.Capture.{config_entry, config_fields}
use liderahenk_test_platform.Result.{ok}

-- A stored entry holds a value.
abbrev pub exposes : Value → Bool
exposes (obj r) = has "value" r
exposes _ = false

All-more :
    (x : String) (xs ys : List String)
    → All (λ a. contains xs a ≡ true) ys
    → All (λ a. contains (x ∷ xs) a ≡ true) ys
All-more x xs [] h = tt
All-more x xs (y ∷ ys) h = (ground (arith, h.0), All-more x xs ys h.1)

All-self : (xs : List String) → All (λ a. contains xs a ≡ true) xs
All-self [] = tt
All-self (x ∷ xs) = (ground (arith, eq_iff x x), All-more x xs xs (All-self xs))

module _ (S : Store) where
  abbrev pub entry_of : Contract → Fields → String → Value
  entry_of c payload name =
      obj (config_entry S (contains c.secret_runtime_fields name) (get name payload))

  get-config_fields :
      (c : Contract) (payload : Fields) (names : List String) (done : Fields) (name : String)
      → get name (config_fields S c payload names done)
        ≡ (if contains names name then entry_of c payload name else get name done)
  unfolding config_fields
  get-config_fields c payload [] done name = refl
  get-config_fields c payload (x ∷ r) done name =
      get-config_fields c payload r (put x (entry_of c payload x) done) name
      ∙ ap (λ v. if contains r name then entry_of c payload name else v)
          (get-put name x (entry_of c payload x) done)
      ∙ merged (contains r name) (name == x) (x == name)
          (ground (arith, eq_iff x name, eq_iff name x))
          (λ e. ap (entry_of c payload) (sym ((eq_iff name x).0 e)))
    where
      merged :
          (later here here' : Bool)
          → here' ≡ here
          → (here ≡ true → entry_of c payload x ≡ entry_of c payload name)
          → (if later
              then entry_of c payload name
              else (if here' then entry_of c payload x else get name done))
            ≡ (if here || later then entry_of c payload name else get name done)
      merged true true h' e f = refl
      merged true false h' e f = refl
      merged false true h' e f = rw e (f refl)
      merged false false h' e f = rw e

  abbrev pub captured : Contract → Fields → Fields
  captured c payload = config_fields S c payload c.critical_runtime_fields end

  pub get-captured :
      (c : Contract) (payload : Fields) (name : String)
      → get name (captured c payload)
        ≡ (if contains c.critical_runtime_fields name then entry_of c payload name else null)
  get-captured c payload name = get-config_fields c payload c.critical_runtime_fields end name

  shown_as :
      (secret : Bool) (v : Value)
      → (lookup "sha256" (obj (config_entry S secret v)) ≡ str (hash_text S v))
        × (lookup "value" (obj (config_entry S secret v)) ≡ (if secret then null else v))
        × (lookup "present" (obj (config_entry S secret v)) ≡ bool (not (is_null v)))
  unfolding config_entry put
  shown_as true v = (refl, refl, refl)
  shown_as false null = (refl, refl, refl)
  shown_as false (bool b) = (refl, refl, refl)
  shown_as false (num n) = (refl, refl, refl)
  shown_as false (str s) = (refl, refl, refl)
  shown_as false (arr xs) = (refl, refl, refl)
  shown_as false (obj r) = (refl, refl, refl)

  -- A captured configuration has, for each critical field, the hash of its value and whether it has
  -- one, and the value itself unless the field is secret.
  pub config_fields_lem :
      (c : Contract) (payload : Fields) (name : String)
      → contains c.critical_runtime_fields name ≡ true
      → (lookup "sha256" (get name (captured c payload)) ≡ str (hash_text S (get name payload)))
        × (lookup "value" (get name (captured c payload))
            ≡ (if contains c.secret_runtime_fields name then null else get name payload))
        × (lookup "present" (get name (captured c payload))
            ≡ bool (not (is_null (get name payload))))
  config_fields_lem c payload name h =
      rw (get-captured c payload name, h)
        (shown_as (contains c.secret_runtime_fields name) (get name payload))

  hidden_entry : (v : Value) → exposes (obj (config_entry S true v)) ≡ false
  unfolding config_entry
  hidden_entry v = refl

  -- A captured configuration stores no value for a secret field, critical or not.
  pub config_fields_hide :
      (c : Contract) (payload : Fields) (name : String)
      → contains c.secret_runtime_fields name ≡ true
      → exposes (get name (captured c payload)) ≡ false
  config_fields_hide c payload name h =
      elim (Bool-cases (contains c.critical_runtime_fields name)) [
        | inl e ↦ rw (get-captured c payload name, e, h) (hidden_entry (get name payload))
        | inr e ↦ rw (get-captured c payload name, e)
      ]

  has-config_fields :
      (c : Contract) (payload : Fields) (names : List String) (done : Fields) (name : String)
      → has name (config_fields S c payload names done) ≡ (contains names name || has name done)
  unfolding config_fields
  has-config_fields c payload [] done name = refl
  has-config_fields c payload (x ∷ r) done name =
      has-config_fields c payload r (put x (entry_of c payload x) done) name
      ∙ ap (λ b. contains r name || b) (has-put name x (entry_of c payload x) done)
      ∙ ground (arith, eq_iff x name, eq_iff name x)

  entry_complete : (secret : Bool) (v : Value) → entry_ok (obj (config_entry S secret v)) ≡ true
  unfolding config_entry put
  entry_complete true v = refl
  entry_complete false null = refl
  entry_complete false (bool b) = refl
  entry_complete false (num n) = refl
  entry_complete false (str s) = refl
  entry_complete false (arr xs) = refl
  entry_complete false (obj r) = refl

  secret_hidden :
      (c : Contract) (payload : Fields) (name : String)
      → contains c.secret_runtime_fields name ≡ true
      → is_in "value" (get_or name (obj end) (captured c payload)) ≡ ok false
  unfolding is_in config_entry
  secret_hidden c payload name h =
      rw (has-config_fields c payload c.critical_runtime_fields end name)
        (elim (Bool-cases (contains c.critical_runtime_fields name)) [
          | inl e ↦ rw e (rw (get-captured c payload name, e, h) refl)
          | inr e ↦ rw e
        ])

  all_complete :
      (c : Contract) (payload : Fields) (names : List String)
      → All (λ a. contains c.critical_runtime_fields a ≡ true) names
      → all (λ name. entry_ok (get name (captured c payload))) names ≡ true
  all_complete c payload [] h = refl
  all_complete c payload (x ∷ r) h =
      rw
        (
          get-captured c payload x,
          h.0,
          entry_complete (contains c.secret_runtime_fields x) (get x payload),
        )
        (all_complete c payload r h.1)

  all_hidden :
      (c : Contract) (payload : Fields) (names : List String)
      → All (λ a. contains c.secret_runtime_fields a ≡ true) names
      → (secret_errors names (captured c payload) ≡ ok [])
        × (all (λ name. says_no (is_in "value" (get_or name (obj end) (captured c payload)))) names
            ≡ true)
  unfolding secret_errors
  all_hidden c payload [] h = (refl, refl)
  all_hidden c payload (x ∷ r) h =
      let rest = all_hidden c payload r h.1 in
      let here = secret_hidden c payload x h.0 in (rw (here, rest.0) refl, rw (here, rest.1) refl)

  -- What the validator finds in a captured configuration.
  pub captured-IsAccepted :
      (c : Contract) (payload : Fields)
      → (secret_errors c.secret_runtime_fields (captured c payload) ≡ ok [])
        × (fields_ok S c (captured c payload) ≡ true)
  captured-IsAccepted c payload =
      let secrets =
        all_hidden c payload c.secret_runtime_fields (All-self c.secret_runtime_fields) in
      let entries =
        all_complete c payload c.critical_runtime_fields (All-self c.critical_runtime_fields) in
      (secrets.0, rw (entries, secrets.1) refl)

  entry-IsClean : (secret : Bool) (v : Value) → IsClean v → IsClean (obj (config_entry S secret v))
  unfolding config_entry put
  entry-IsClean true v c = (refl, tt, (refl, tt, (refl, tt, tt)))
  entry-IsClean false null c = (refl, tt, (refl, tt, (refl, tt, tt)))
  entry-IsClean false (bool b) c = (refl, tt, (refl, tt, (refl, tt, (refl, c, tt))))
  entry-IsClean false (num n) c = (refl, tt, (refl, tt, (refl, tt, (refl, c, tt))))
  entry-IsClean false (str s) c = (refl, tt, (refl, tt, (refl, tt, (refl, c, tt))))
  entry-IsClean false (arr xs) c = (refl, tt, (refl, tt, (refl, tt, (refl, c, tt))))
  entry-IsClean false (obj r) c = (refl, tt, (refl, tt, (refl, tt, (refl, c, tt))))

  config_fields-IsClean :
      (c : Contract) (payload : Fields) (names : List String) (done : Fields)
      → IsCleanFields payload
      → IsCleanFields done
      → IsCleanFields (config_fields S c payload names done)
  unfolding config_fields
  config_fields-IsClean c payload [] done h d = d
  config_fields-IsClean c payload (x ∷ r) done h d =
      config_fields-IsClean c payload r (put x (entry_of c payload x) done) h (
        put-IsClean x (entry_of c payload x) done
          (entry-IsClean (contains c.secret_runtime_fields x) (get x payload)
            (get-IsClean x payload h))
          d)

  -- It is written without repeated keys.
  pub captured-IsClean :
      (c : Contract) (payload : Fields) → IsCleanFields payload → IsCleanFields (captured c payload)
  captured-IsClean c payload h = config_fields-IsClean c payload c.critical_runtime_fields end h tt
