-- ===== src/RuntimeDb/Connect.antt =====
-- What a connection to the runtime database does with the hosts and with the errors of its body.
use mathlib.Core.Bool.{false≢true}
use liderahenk_test_platform.Base.{
  String, ◌<>◌, ◌≡◌, refl, sym, ap, ◌∙◌, Bool, true, false, Option, none, some, List, [], ◌∷◌,
}
use liderahenk_test_platform.Result.{Result, ok, err, on_result}
use liderahenk_test_platform.RuntimeDb.{resume, closed, with_from, with_connection}

module _ {Host Connection : Type 0} (connect_to : Host → Result Connection)
    (close : Connection → Result (Unit {0})) where
  -- The first host that answers, and the hosts after it.
  abbrev pub first_open : List Host → Option (Connection × List Host)
  first_open [] = none
  first_open (host ∷ r) = on_result (connect_to host) (λ c. some (c, r)) (λ message. first_open r)

  -- A host answers.
  abbrev pub some_open : List Host → Bool
  some_open [] = false
  some_open (host ∷ r) = on_result (connect_to host) (λ c. true) (λ message. some_open r)

  resume-open :
      (complaint message : String) (hosts : List Host)
      → some_open hosts ≡ true
      → resume connect_to close complaint message hosts ≡ complaint
  unfolding resume
  resume-open complaint message [] h = absurd (false≢true h)
  resume-open complaint message (host ∷ r) h =
      decided (connect_to host) refl (λ m later. resume-open complaint m r later)
    where
      decided :
          (o : Result Connection)
          → connect_to host ≡ o
          → ((m : String) → some_open r ≡ true → resume connect_to close complaint m r ≡ complaint)
          → on_result o (λ c. complaint) (λ m. resume connect_to close complaint m r) ≡ complaint
      decided (ok c) e later = refl
      decided (err m) e later =
          later m (sym (ap (λ o. on_result o (λ c. true) (λ n. some_open r)) e) ∙ h)

  module _ {ℓ} {A : Type ℓ} (body : Connection → Result A) where
    -- The answer from the first host that answers.
    abbrev first_result : String → Option (Connection × List Host) → Result A
    first_result message none = err message
    first_result message (some (c, r)) = closed connect_to close (body c) (close c) r

    with_from-first :
        (message : String) (hosts : List Host)
        → (m : String) × (with_from connect_to close body message hosts
            ≡ first_result m (first_open hosts))
    unfolding with_from
    with_from-first message [] = ("Unable to connect to MariaDB runtime state: " <> message, refl)
    with_from-first message (host ∷ r) = decided (connect_to host) (λ n. with_from-first n r)
      where
        decided :
            (o : Result Connection)
            → ((n : String)
                → (m : String) × (with_from connect_to close body n r
                    ≡ first_result m (first_open r)))
            → (m : String) × (on_result o
                  (λ c. closed connect_to close (body c) (close c) r)
                  (λ n. with_from connect_to close body n r)
                ≡ first_result m (on_result o (λ c. some (c, r)) (λ n. first_open r)))
        decided (ok c) below = (message, refl)
        decided (err n) below = below n

    -- If the body answers on the first host that can be reached, and its connection closes, then the
    -- call gives that answer, whatever hosts follow.
    with_connection_first :
        (hosts : List Host) (c : Connection) (r : List Host) (a : A)
        → first_open hosts ≡ some (c, r)
        → body c ≡ ok a
        → close c ≡ ok tt
        → with_connection connect_to close body hosts ≡ ok a
    unfolding with_connection closed
    with_connection_first hosts c r a reached answers closes =
        (with_from-first "None" hosts).1 ∙ rw (reached, answers, closes) refl

    -- If the body raises on the first host that can be reached, and a later host can be reached too,
    -- then the call raises the complaint of `contextlib` in place of the body's message, whether or not
    -- the connection closes.
    pub with_connection_masks :
        (hosts : List Host) (c : Connection) (r : List Host) (message : String)
        → first_open hosts ≡ some (c, r)
        → body c ≡ err message
        → some_open r ≡ true
        → with_connection connect_to close body hosts ≡ err "generator didn't stop after throw()"
    unfolding with_connection closed
    with_connection_masks hosts c r message reached raises later =
        (with_from-first "None" hosts).1 ∙ rw (reached, raises) (complains (close c))
      where
        complains :
            (end_of : Result (Unit {0}))
            → closed connect_to close {A = A} (err message) end_of r
              ≡ err "generator didn't stop after throw()"
        complains (ok done) =
            ap err (resume-open "generator didn't stop after throw()" message r later)
        complains (err m) = ap err (resume-open "generator didn't stop after throw()" m r later)
