-- ===== src/ParityGate/Attempts.antt =====
-- The three attempts of the registration gate against a description of the first answer.
use mathlib.Core.Path.{subst}
use mathlib.Core.Bool.{false≢true}
use liderahenk_test_platform.Base.{
  ℕ, zero, suc, ◌+◌, ◌<◌, String, ◌≡◌, refl, sym, ap, ◌∙◌, ◌↔◌, ◌⊎◌, inl, inr, Bool, true, false,
  Option, none, some, [], ◌==◌, eq_iff, arith,
}
use liderahenk_test_platform.Json.{ℤ, int_eq}
use liderahenk_test_platform.Json.Laws.{int_eq_refl}
use liderahenk_test_platform.Snapshot.{Snapshot}
use liderahenk_test_platform.Verdict.Parity.{IsParity, evaluate_snapshot_pass, int_eq→eq}
use liderahenk_test_platform.Checks.{Check, passes, build_check}
use liderahenk_test_platform.Checks.Counts.{status_passes}
use liderahenk_test_platform.ParityGate.{
  Answer, answered, raised, evaluation, parity_ok, answered_check, raised_check, pause, attempts,
  registration_parity_check,
}

answer_cases :
    {W : Type 0} (r : Answer × W)
    → ((s : Snapshot) × (v : W) × (r ≡ (answered s, v)))
      ⊎ ((name : String) × (text : String) × (v : W) × (r ≡ (raised name text, v)))
answer_cases (answered s, v) = inl (s, v, refl)
answer_cases (raised name text, v) = inr (name, text, v, refl)

abbrev is_answer : {W : Type 0} → Answer × W → Bool
is_answer (answered s, v) = true
is_answer (raised name text, v) = false

abbrev snapshot_or : {W : Type 0} → Snapshot → Answer × W → Snapshot
snapshot_or d (answered s, v) = s
snapshot_or d (raised name text, v) = d

answered_check-passes :
    (expected : ℤ) (s : Snapshot) (n : ℕ)
    → passes (answered_check expected s n) ≡ parity_ok expected s
unfolding answered_check
answered_check-passes expected s n = status_passes (parity_ok expected s)

raised_check-passes :
    (expected : ℤ) (last : Option (String × String)) → passes (raised_check expected last) ≡ false
unfolding raised_check build_check
raised_check-passes expected last = refl

parity_ok-IsParity :
    (expected : ℤ) (s : Snapshot)
    → (parity_ok expected s ≡ true) ↔ (IsParity s × (s.expected_agents ≡ expected))
parity_ok-IsParity expected s = (
  λ h.
      let status : (evaluation s).status ≡ "pass" =
        (eq_iff ((evaluation s).status) "pass").0 (ground arith) in
      (
        ((evaluate_snapshot_pass s false []).0 status).1,
        int_eq→eq s.expected_agents expected (ground arith),
      ),
  λ (parity, asked).
      let status : (evaluation s).status == "pass" ≡ true =
        (eq_iff ((evaluation s).status) "pass").1
          ((evaluate_snapshot_pass s false []).1 (refl, parity)) in
      let same : int_eq s.expected_agents expected ≡ true = rw asked (int_eq_refl expected) in
      ground (arith, status, same),
)

module _ {W : Type 0} (collect : W → Answer × W) (sleep : W → W) (expected : ℤ) where
  -- From one world to another by a number of attempts that raise, the first with the given number.
  pub data Tries : ℕ → ℕ → W → W → Type 0 where
    none_yet : {n : ℕ} {w : W} → Tries n 0 w w
    again :
        {n k : ℕ} {name text : String} {w v u : W}
        → collect w ≡ (raised name text, v)
        → Tries (n + 1) k (pause collect sleep expected n v) u
        → Tries n (suc k) w u

  -- The first answer of some attempts, in which all agree on the expected agents.
  pub record FirstAgrees (left n : ℕ) (w last : W) : Type 0 where
    pub count : ℕ
    pub before : W
    pub snapshot : Snapshot
    pub in_time : count < left
    pub tries : Tries n count w before
    pub answer : collect before ≡ (answered snapshot, last)
    pub parity : IsParity snapshot
    pub asked : snapshot.expected_agents ≡ expected

  attempts-answered :
      (left n : ℕ) (last : Option (String × String)) (w : W) (s : Snapshot) (v : W)
      → collect w ≡ (answered s, v)
      → attempts collect sleep expected (suc left) n last w ≡ (answered_check expected s n, v)
  unfolding attempts
  attempts-answered left n last w s v e = rw (attempts, ap (λ r. r.0) e, ap (λ r. r.1) e) refl

  attempts-raised :
      (left n : ℕ) (last : Option (String × String)) (w : W) (name text : String) (v : W)
      → collect w ≡ (raised name text, v)
      → attempts collect sleep expected (suc left) n last w
        ≡ attempts collect sleep expected left
            (n + 1)
            (some (name, text))
            (pause collect sleep expected n v)
  unfolding attempts
  attempts-raised left n last w name text v e = rw (attempts, ap (λ r. r.0) e, ap (λ r. r.1) e) refl

  -- An attempt that answers is the first answer.
  answered_first :
      {n k : ℕ} {w b x v : W} {s t : Snapshot}
      → Tries n k w b
      → collect b ≡ (answered t, x)
      → collect w ≡ (answered s, v)
      → t ≡ s
  answered_first {s} none_yet p e = ap (snapshot_or s) (sym p ∙ e)
  answered_first (again r tries) p e = absurd (false≢true (ap is_answer (sym r ∙ e)))

  -- After an attempt that raised the first answer is that of the rest.
  raised_first :
      {left n k : ℕ} {w b x v : W} {name text : String} {s : Snapshot}
      → Tries n k w b
      → k < suc left
      → collect b ≡ (answered s, x)
      → IsParity s
      → s.expected_agents ≡ expected
      → collect w ≡ (raised name text, v)
      → FirstAgrees left (n + 1) (pause collect sleep expected n v) x
  raised_first none_yet within p parity asked e = absurd (false≢true (ap is_answer (sym e ∙ p)))
  raised_first {n} {b} {s} (again {k} {v = u} r tries) within p parity asked e = record {
    count = k;
    before = b;
    snapshot = s;
    in_time = omega (arith, within);
    tries =
        subst (λ z. Tries (n + 1) k (pause collect sleep expected n z) b)
          (ap (λ z. z.1) (sym r ∙ e)) tries;
    answer = p;
    parity = parity;
    asked = asked;
  }

  more :
      (left n : ℕ) (w v x : W) (name text : String)
      → collect w ≡ (raised name text, v)
      → FirstAgrees left (n + 1) (pause collect sleep expected n v) x
      → FirstAgrees (suc left) n w x
  more left n w v x name text e f = record {
    count = suc f.count;
    before = f.before;
    snapshot = f.snapshot;
    in_time = omega (arith, f.in_time);
    tries = again e f.tries;
    answer = f.answer;
    parity = f.parity;
    asked = f.asked;
  }

  abbrev Agrees : ℕ → ℕ → W → Check × W → Type 0
  Agrees left n w r = (passes (r.0) ≡ true) ↔ FirstAgrees left n w (r.1)

  Agrees-answered :
      (left n : ℕ) (w : W) (s : Snapshot) (v : W)
      → collect w ≡ (answered s, v)
      → Agrees (suc left) n w (answered_check expected s n, v)
  Agrees-answered left n w s v e = (
    λ h.
        let both : IsParity s × (s.expected_agents ≡ expected) =
          (parity_ok-IsParity expected s).0 (sym (answered_check-passes expected s n) ∙ h) in
        record {
          count = 0;
          before = w;
          snapshot = s;
          in_time = omega arith;
          tries = none_yet;
          answer = e;
          parity = both.0;
          asked = both.1;
        },
    λ f.
        answered_check-passes expected s n
        ∙ (parity_ok-IsParity expected s).1 (
            subst (λ t. IsParity t × (t.expected_agents ≡ expected))
              (answered_first f.tries f.answer e) (f.parity, f.asked)),
  )

  Agrees-raised :
      (left n : ℕ) (w : W) (name text : String) (v : W) (r : Check × W)
      → collect w ≡ (raised name text, v)
      → Agrees left (n + 1) (pause collect sleep expected n v) r
      → Agrees (suc left) n w r
  Agrees-raised left n w name text v r e (to, from) = (
    λ h. more left n w v (r.1) name text e (to h),
    λ f. from (raised_first f.tries f.in_time f.answer f.parity f.asked e),
  )

  Agrees-none :
      (n : ℕ) (last : Option (String × String)) (w : W)
      → Agrees 0 n w (attempts collect sleep expected 0 n last w)
  unfolding attempts
  Agrees-none n last w = (
    λ h. absurd (false≢true (sym (raised_check-passes expected last) ∙ h)),
    λ f. absurd (omega (arith, f.in_time)),
  )

  agrees :
      (left n : ℕ) (last : Option (String × String)) (w : W)
      → Agrees left n w (attempts collect sleep expected left n last w)
  agrees zero n last w = Agrees-none n last w
  agrees (suc left) n last w = elim (answer_cases (collect w)) [
    | inl (s, v, e) ↦
        subst (Agrees (suc left) n w) (sym (attempts-answered left n last w s v e))
          (Agrees-answered left n w s v e)
    | inr (name, text, v, e) ↦
        subst (Agrees (suc left) n w) (sym (attempts-raised left n last w name text v e)) (
          Agrees-raised left n w name text v
            (attempts collect sleep expected left (n + 1) (some (name, text))
              (pause collect sleep expected n v))
            e (agrees left (n + 1) (some (name, text)) (pause collect sleep expected n v)))
  ]

  -- The check passes exactly when one of three attempts answers, the ones before it raise, and in
  -- its snapshot all surfaces agree on the expected agents. It is the last attempt then.
  pub registration_parity_check_lem :
      (w : W)
      → (passes ((registration_parity_check collect sleep expected w).0) ≡ true)
        ↔ FirstAgrees 3 1 w ((registration_parity_check collect sleep expected w).1)
  unfolding registration_parity_check
  registration_parity_check_lem w = agrees 3 1 none w
