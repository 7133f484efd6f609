-- ===== src/Baseline/Frame.antt =====
-- Which files a capture may change, and when it changes none.
use mathlib.Core.Path.{subst}
use liderahenk_test_platform.Base.{
  String, ◌≡◌, refl, ◌∙◌, Bool, true, false, List, [], ◌∷◌, ◌==◌, arith, eq_iff, contains, ◌⊎◌, inl,
  inr, if◌then◌else◌,
}
use liderahenk_test_platform.Json.{ℤ, Value}
use liderahenk_test_platform.Result.{Result, ok, err, Returns, Returns-bind, on_result}
use liderahenk_test_platform.Access.{as_mapping}
use liderahenk_test_platform.Baseline.{Contract, Store, Dir, write, write_json}
use liderahenk_test_platform.Baseline.Validate.{Validation}
use liderahenk_test_platform.Baseline.Validate.Messages.{is_ok}
use liderahenk_test_platform.Baseline.Capture.{
  Answers, Environ, Capture, live_files, collect_live_baseline_payload, write_files, is_complete,
  capture_ui_evidence, capture_manifest, finish_capture, photograph, take_capture, guarded_capture,
  capture_golden_baseline, apply_capture_environment,
}

-- The files that a capture writes.
abbrev pub captured_paths : Contract → List String
captured_paths c =
    c.manifest ∷ "ldap-tree.json" ∷ "config.json" ∷ "api-captures/dashboard.json"
    ∷ "api-captures/agent-list.json" ∷ "api-captures/computer-tree.json"
    ∷ "ui-evidence/dashboard.png" ∷ "ui-evidence/computer-management.png" ∷ []

module _ (S : Store) (path : String) where
  write_other :
      (p : String) (blob : S.Blob) (d : Dir S) → path == p ≡ false → write S p blob d path ≡ d path
  unfolding write
  write_other p blob d h = ground (arith, eq_iff p path, eq_iff path p)

  abbrev paths_of : List (String × Value) → List String
  paths_of [] = []
  paths_of ((p, v) ∷ r) = p ∷ paths_of r

  write_files_other :
      (ps : List (String × Value)) (d : Dir S)
      → contains (paths_of ps) path ≡ false
      → write_files S ps d path ≡ d path
  unfolding write_files write_json
  write_files_other [] d h = refl
  write_files_other ((p, v) ∷ r) d h =
      write_files_other r (write S p (S.dumps v) d) (ground arith)
      ∙ write_other p (S.dumps v) d (ground arith)

  -- What a capture hands on has the names of its files.
  abbrev Named : List (String × Value) → Type 0
  Named ps =
      contains (paths_of ps) path
      ≡ contains
          ("ldap-tree.json" ∷ "config.json" ∷ "api-captures/dashboard.json"
            ∷ "api-captures/agent-list.json" ∷ "api-captures/computer-tree.json" ∷ [])
          path

  collected-Named :
      (repr : Value → String) (c : Contract) (now : String) (a : Answers S.Blob)
      → Returns Named (collect_live_baseline_payload S repr c now a)
  unfolding collect_live_baseline_payload live_files
  collected-Named repr c now a = Returns-bind Named a.dashboard_info _ λ dashboard.
      Returns-bind Named a.agent_list _ λ agents. Returns-bind Named a.computer_tree _ λ tree.
        Returns-bind Named a.ldap_entries _ λ entries.
          Returns-bind Named a.config_json _
            λ config. Returns-bind Named (as_mapping config) _ λ payload. refl

  -- The file is as it was, whatever the result.
  abbrev Keeps : {A : Type 0} → Dir S → A × Dir S → Type 0
  Keeps d r = r.1 path ≡ d path

  on_result-Keeps :
      {A B : Type 0} (m : Result A) (f : A → B × Dir S) (g : String → B × Dir S) (d : Dir S)
      → ((a : A) → m ≡ ok a → Keeps d (f a))
      → ((e : String) → Keeps d (g e))
      → Keeps d (on_result m f g)
  on_result-Keeps (ok a) f g d p q = p a refl
  on_result-Keeps (err e) f g d p q = q e

  if-Keeps :
      {A : Type 0} (t : Bool) (x y : A × Dir S) (d : Dir S)
      → Keeps d x
      → Keeps d y
      → Keeps d (if t then x else y)
  if-Keeps true x y d p q = p
  if-Keeps false x y d p q = q

  module _ (repr : Value → String) (int_of : String → Result ℤ) (c : Contract) where
    finish-Keeps :
        (k : Capture S.Blob) (e : Environ) (d : Dir S)
        → path == c.manifest ≡ false
        → Keeps d (finish_capture S repr int_of c k e d)
    unfolding finish_capture write_json
    finish-Keeps k e d h =
        on_result-Keeps (capture_manifest S repr int_of c k e d) _ _ d
          (λ manifest q. write_other c.manifest (S.dumps manifest) d h) (λ e'. refl)

    shots_keep :
        (a : Answers S.Blob) (d : Dir S)
        → contains (captured_paths c) path ≡ false
        → (capture_ui_evidence S a d).1 path ≡ d path
    unfolding capture_ui_evidence
    shots_keep a d h =
        on_result-Keeps a.dashboard_png _ _ d
          (λ one p.
            let first = write_other "ui-evidence/dashboard.png" one d (ground arith) in
            on_result-Keeps a.computer_management_png _ _ d
              (λ two q.
                write_other "ui-evidence/computer-management.png" two
                  (write S "ui-evidence/dashboard.png" one d) (ground arith)
                ∙ first)
              (λ e. first))
          (λ e. refl)

    photograph-Keeps :
        (k : Capture S.Blob) (e : Environ) (d : Dir S)
        → contains (captured_paths c) path ≡ false
        → Keeps d (photograph S repr int_of c k e d)
    unfolding photograph
    photograph-Keeps k e d h =
        let shots = capture_ui_evidence S (k.answers e) d in
        let kept = shots_keep (k.answers e) d h in
        on_result-Keeps shots.0 _ _ d (λ done q. finish-Keeps k e shots.1 (ground arith) ∙ kept)
          (λ e'. kept)

    take-Keeps :
        (k : Capture S.Blob) (e : Environ) (d : Dir S)
        → contains (captured_paths c) path ≡ false
        → Keeps d (take_capture S repr int_of c k e d)
    unfolding take_capture
    take-Keeps k e d h =
        on_result-Keeps (collect_live_baseline_payload S repr c k.now (k.answers e)) _ _ d
          (λ payloads q.
            let names = returned_in payloads q (collected-Named repr c k.now (k.answers e)) in
            photograph-Keeps k e (write_files S payloads d) h
            ∙ write_files_other payloads d (ground (arith, names)))
          (λ e'. refl)
      where
        returned_in :
            {m : Result (List (String × Value))} (payloads : List (String × Value))
            → m ≡ ok payloads
            → Returns Named m
            → Named payloads
        returned_in payloads q r = subst (Returns Named) q r

    guarded-Keeps :
        (k : Capture S.Blob) (e : Environ) (d : Dir S)
        → contains (captured_paths c) path ≡ false
        → Keeps d (guarded_capture S repr int_of c k e d)
    unfolding guarded_capture
    guarded-Keeps k e d h = if-Keeps k.force _ _ d (take-Keeps k e d h) (
        on_result-Keeps (is_complete S (d c.manifest)) _ _ d
          (λ complete q. if-Keeps complete _ _ d refl (take-Keeps k e d h)) (λ e'. refl))

    -- A capture, also one that is refused or fails half way, leaves every file as it was but the
    -- manifest and the seven files that it captures.
    pub capture_golden_baseline_frame :
        (k : Capture S.Blob) (d : Dir S)
        → contains (captured_paths c) path ≡ false
        → (capture_golden_baseline S repr int_of c k d).1 path ≡ d path
    unfolding capture_golden_baseline
    capture_golden_baseline_frame k d h =
        if-Keeps k.confirm_stock_source _ _ d
          (on_result-Keeps (apply_capture_environment k.env_file k.environ) _ _ d
            (λ e q. guarded-Keeps k e d h) (λ e'. refl))
          refl

module _ (S : Store) where
  abbrev Refused : Dir S → Result Validation × Dir S → Type 0
  Refused d r = (is_ok r.0 ≡ false) × (r.1 ≡ d)

  Refused-each :
      (d : Dir S) (confirmed : Bool) (m : Result Environ) (why unconfirmed : String)
      → Refused d (
          if confirmed
          then on_result m (λ e. (err why, d)) (λ e'. (err e', d))
          else (err unconfirmed, d))
  Refused-each d false m why unconfirmed = (refl, refl)
  Refused-each d true (ok e) why unconfirmed = (refl, refl)
  Refused-each d true (err x) why unconfirmed = (refl, refl)

  -- Without the confirmation of the source, or over a manifest that says "capture-complete" and
  -- without force, a capture raises and changes no file.
  pub capture_golden_baseline_refuses :
      (repr : Value → String) (int_of : String → Result ℤ) (c : Contract) (k : Capture S.Blob)
      (d : Dir S)
      → (k.confirm_stock_source ≡ false)
        ⊎ ((k.force ≡ false) × (is_complete S (d c.manifest) ≡ ok true))
      → (is_ok (capture_golden_baseline S repr int_of c k d).0 ≡ false)
        × ((capture_golden_baseline S repr int_of c k d).1 ≡ d)
  unfolding capture_golden_baseline guarded_capture
  capture_golden_baseline_refuses repr int_of c k d (inl n) = rw n (refl, refl)
  capture_golden_baseline_refuses repr int_of c k d (inr (f, q)) =
      rw (f, q)
        (Refused-each d k.confirm_stock_source (apply_capture_environment k.env_file k.environ)
          "Refusing to overwrite capture-complete baseline"
          "Refusing to capture canonical golden baseline")
