-- ===== src/Support/Reread.antt =====
-- What is read of the evidence after it was written.
use liderahenk_test_platform.Base.{
  String, ◌≡◌, refl, ap, ◌∙◌, Bool, true, false, ◌&&◌, Option, none, List, [], ◌∷◌, ◌==◌, arith,
  eq_iff, contains, if◌then◌else◌,
}
use liderahenk_test_platform.Json.{Value, null, obj, Fields}
use liderahenk_test_platform.Support.Evidence.{
  Stored, absent, unreadable, stored, Disk, set_file, write_all, stamped,
  write_ui_mutation_evidence, load_ui_mutation_evidence,
}

written_at :
    (b : Bool) (q p : String) (s : Stored) (d : Disk)
    → (if b then set_file q s d else d) p ≡ (if b && (q == p) then s else d p)
unfolding set_file
written_at true q p s d = refl
written_at false q p s d = refl

-- Each file after the writes: what is written, where it is a path that may be written.
after_write :
    (may : String → Bool) (body : Value) (paths : List String) (first : Option String) (d : Disk)
    (p : String)
    → (write_all may body paths first d).1 p
      ≡ (if contains paths p && may p then stored body else d p)
unfolding write_all
after_write may body [] first d p = refl
after_write may body (q ∷ r) first d p =
    let same : p == q ≡ true → may p ≡ may q = λ e. ap may ((eq_iff p q).0 e) in
    after_write may body r _ _ p
    ∙ ap (λ held. if contains r p && may p then stored body else held)
        (written_at (may q) q p (stored body) d)
    ∙ ground (arith, same, eq_iff p q, eq_iff q p)

-- The JSON of a file, or what is read later.
abbrev pub held_or : Stored → Value → Value
held_or absent later = later
held_or unreadable later = later
held_or (stored v) later = v

-- The first path that may be written now holds what is written; before it, a path that may not holds
-- what it held, of which JSON is read.
abbrev pub first_held : (String → Bool) → Value → List String → Disk → Value
first_held may body [] d = null
first_held may body (p ∷ r) d =
    let later = first_held may body r d in if may p then body else held_or (d p) later

held_or-if :
    (b : Bool) (body : Value) (s : Stored) (later : Value)
    → held_or (if b then stored body else s) later ≡ (if b then body else held_or s later)
held_or-if true body s later = refl
held_or-if false body s later = refl

load_one :
    (p : String) (r : List String) (e : Disk) (held : Stored)
    → e p ≡ held
    → load_ui_mutation_evidence (p ∷ r) e ≡ held_or held (load_ui_mutation_evidence r e)
unfolding load_ui_mutation_evidence
load_one p r e absent h = rw (load_ui_mutation_evidence, h) refl
load_one p r e unreadable h = rw (load_ui_mutation_evidence, h) refl
load_one p r e (stored v) h = rw (load_ui_mutation_evidence, h) refl

load-first_held :
    (may : String → Bool) (body : Value) (paths : List String) (d e : Disk)
    → ((p : String) → contains paths p ≡ true → e p ≡ (if may p then stored body else d p))
    → load_ui_mutation_evidence paths e ≡ first_held may body paths d
unfolding load_ui_mutation_evidence
load-first_held may body [] d e h = refl
load-first_held may body (p ∷ r) d e h =
    let rest = load-first_held may body r d e (λ q c. h q (ground (arith, c))) in
    let here = h p (ground (arith, eq_iff p p)) in
    load_one p r e (e p) refl
    ∙ rw (here, rest) (held_or-if (may p) body (d p) (first_held may body r d))

-- Evidence that was written is read back as written, unless a path before the first one that may be
-- written holds JSON, which is read instead; if no path may be written, the first JSON there is.
pub write-load :
    (may : String → Bool) (now : String) (payload : Fields) (paths : List String) (d : Disk)
    → load_ui_mutation_evidence paths (write_ui_mutation_evidence may now payload paths d).1
      ≡ first_held may (obj (stamped now payload)) paths d
unfolding write_ui_mutation_evidence
write-load may now payload paths d =
    load-first_held may (obj (stamped now payload)) paths d _
      λ p c. after_write may (obj (stamped now payload)) paths none d p ∙ rw c refl
