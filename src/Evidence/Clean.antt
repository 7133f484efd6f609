-- ===== src/Evidence/Clean.antt =====
-- The messages of a report, part by part.
use mathlib.Core.Bool.{false≢true}
use liderahenk_test_platform.Base.{
  String, ◌≡◌, refl, sym, Bool, true, false, not, ◌&&◌, some, List, ◌++◌, is_nil, is_nil-append,
  arith,
}
use liderahenk_test_platform.Json.{
  Value, null, bool, num, str, arr, obj, nil, cons, Fields, get, truthy, is_list, value_eq,
}
use liderahenk_test_platform.Result.{Result, ok, err, ◌>>=◌}
use liderahenk_test_platform.Evidence.Contract.{Errors, ◌<+>◌, when}
use liderahenk_test_platform.Evidence.{Report, stale, manifest_verdict_errors, summary_errors}

-- No exception and no message.
abbrev pub is_clean : Errors → Bool
is_clean (ok xs) = is_nil xs
is_clean (err e) = false

pub is_clean-plus : (a b : Errors) → is_clean (a <+> b) ≡ (is_clean a && is_clean b)
is_clean-plus (ok xs) (ok ys) = is_nil-append xs ys
is_clean-plus (ok xs) (err e) = ground arith
is_clean-plus (err e) b = refl

pub is_nil-when : (t : Bool) (message : String) → is_nil (when t message) ≡ not t
is_nil-when true message = refl
is_nil-when false message = refl

pub is_nil-when_append :
    (t : Bool) (message : String) (r : List String)
    → is_nil (when t message ++ r) ≡ (not t && is_nil r)
is_nil-when_append true message r = refl
is_nil-when_append false message r = refl

pub empty_list : (v : Value) → is_list v ≡ true → truthy v ≡ false → v ≡ arr nil
empty_list (arr nil) l t = refl
empty_list (arr (cons x r)) l t = absurd (false≢true (sym t))
empty_list null l t = absurd (false≢true l)
empty_list (bool x) l t = absurd (false≢true l)
empty_list (num x) l t = absurd (false≢true l)
empty_list (str x) l t = absurd (false≢true l)
empty_list (obj x) l t = absurd (false≢true l)

pub clean_left : (a b : Errors) → is_clean (a <+> b) ≡ true → is_clean a ≡ true
clean_left a b h = ground (arith, is_clean-plus a b)

pub clean_right : (a b : Errors) → is_clean (a <+> b) ≡ true → is_clean b ≡ true
clean_right a b h = ground (arith, is_clean-plus a b)

abbrev pub report_valid : Result Report → Bool
report_valid (ok r) = r.valid
report_valid (err e) = false

pub report_clean :
    (m : Errors) (f : List String → Report)
    → ((xs : List String) → (f xs).valid ≡ is_nil xs)
    → report_valid (m >>= λ xs. ok (f xs)) ≡ is_clean m
report_clean (ok xs) f h = h xs
report_clean (err x) f h = refl

pub known_clean :
    (r : Result Bool) (message : String)
    → is_clean (r >>= λ known. ok (when (not known) message)) ≡ true
    → r ≡ ok true
known_clean (ok true) message h = refl
known_clean (ok false) message h = absurd (false≢true h)
known_clean (err e) message h = absurd (false≢true h)

pub summary_match :
    (f v : Fields)
    → is_nil (summary_errors (some f) (some v)) ≡ true
    → (value_eq (get "runId" f) (get "runId" v) ≡ true)
      × (value_eq (get "status" f) (get "status" v) ≡ true)
      × (value_eq (get "failedChecks" f) (get "failedChecks" v) ≡ true)
      × (value_eq (get "taxonomy" f) (get "taxonomy" v) ≡ true)
unfolding summary_errors
summary_match f v h = grind (arith, h, is_nil-when_append, is_nil-when)

pub event_parts :
    (xs : List String) (t : Bool) (message p_message s_message : String) (p s : Result Bool)
    (zs : List String)
    → is_clean (
        ok xs
        <+> (ok (when t message)
            <+> ((p >>= λ known. ok (when (not known) p_message))
                <+> ((s >>= λ known. ok (when (not known) s_message)) <+> ok zs))))
      ≡ true
    → (t ≡ false) × (p ≡ ok true) × (s ≡ ok true)
event_parts xs t message pm sm p s zs h =
    let a =
      is_clean-plus (p >>= λ known. ok (when (not known) pm))
        ((s >>= λ known. ok (when (not known) sm)) <+> ok zs) in
    let b = is_clean-plus (s >>= λ known. ok (when (not known) sm)) (ok zs) in
    let c = is_clean-plus (ok (when t message)) (
      (p >>= λ known. ok (when (not known) pm))
      <+> ((s >>= λ known. ok (when (not known) sm)) <+> ok zs)) in
    let d = is_clean-plus (ok xs) (
      ok (when t message)
      <+> ((p >>= λ known. ok (when (not known) pm))
          <+> ((s >>= λ known. ok (when (not known) sm)) <+> ok zs))) in
    (
      ground (arith, is_nil-when t message),
      known_clean p pm (ground arith),
      known_clean s sm (ground arith),
    )

pub manifest_match :
    (m v : Fields)
    → is_nil (manifest_verdict_errors (some m) (some v)) ≡ true
    → (stale (get "runId" m) (get "runId" v) ≡ false)
      × (value_eq (get "expectedAgents" v) (get "expectedAgents" m) ≡ true)
      × (value_eq (get "runtimeProfile" v) (get "runtimeProfile" m) ≡ true)
      × (stale (get "lastStatus" m) (get "status" v) ≡ false)
      × (stale (get "lastVerdictAt" m) (get "capturedAt" v) ≡ false)
unfolding manifest_verdict_errors
manifest_match m v h = grind (arith, h, is_nil-when_append, is_nil-when)

pub nil_left : (xs ys : List String) → is_nil (xs ++ ys) ≡ true → is_nil xs ≡ true
nil_left xs ys h = ground (arith, is_nil-append xs ys)

pub nil_right : (xs ys : List String) → is_nil (xs ++ ys) ≡ true → is_nil ys ≡ true
nil_right xs ys h = ground (arith, is_nil-append xs ys)

pub unsaid : (t : Bool) (message : String) → is_nil (when t message) ≡ true → t ≡ false
unsaid t message h = ground (arith, is_nil-when t message)
