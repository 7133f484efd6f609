-- ===== src/Gate.antt =====
-- The gate that waits for the API, services/ahenk/liderapi_gate.py. The network, the clock and the
-- sleeps are an environment; the base URL is the resolved one.
pub mod Discovery
pub mod Waits
use liderahenk_test_platform.Base.{
  ℕ, zero, suc, ◌+◌, ◌*◌, ◌≤◌, ◌<◌, max, String, ◌<>◌, Bool, true, false, not, ◌&&◌, Option, none,
  some, List, [], ◌∷◌, ◌++◌, ◌==◌, leb, ltb, code, eqb, if◌then◌else◌,
}
use liderahenk_test_platform.Base.Text.{strip, is_empty, decimal, ends_with}
use liderahenk_test_platform.Json.{
  Value, null, str, arr, obj, Fields, end, fields, from_items, get, lookup, truthy, or_else,
}
use liderahenk_test_platform.Identity.{text_of}
use liderahenk_test_platform.Result.{Result, ok, err, ◌>>=◌, on_result}

-- A body: none, JSON, or a text that is no JSON, with the parser's message.
pub data Body : Type 0 where
  empty : Body
  json : Value → Body
  garbled : String → String → Body

-- `base_url.rstrip("/")`
unfoldable pub normalize_base_url : String → String
normalize_base_url String.[] = ""
normalize_base_url (String.◌∷◌ c s) =
    let r = normalize_base_url s in if is_empty r && eqb (code c) 47 then "" else String.◌∷◌ c r

-- What `urlopen` answers: a response, an `HTTPError` with its code, or any other exception.
pub data Reply : Type 0 where
  response : ℕ → Body → Reply
  http_error : ℕ → Body → Reply
  unreachable : String → Reply

-- `if not isinstance(data, dict): data = {"payload": data}`
abbrev as_dict : Value → Fields
as_dict (obj r) = r
as_dict v = fields (("payload", v) ∷ [])

-- `_post_json`, after the request
unfoldable pub read_reply : Reply → Result (ℕ × Fields)
read_reply (response status empty) = ok (status, end)
read_reply (response status (json v)) = ok (status, as_dict v)
read_reply (response status (garbled raw message)) = err message
read_reply (http_error status empty) = ok (status, end)
read_reply (http_error status (json v)) = ok (status, as_dict v)
read_reply (http_error status (garbled raw message)) =
    ok (status, fields (("rawBody", str raw) ∷ []))
read_reply (unreachable message) = err message

-- `post` sends a payload to a URL, with a bearer token where there is one.
pub record Network : Type 1 where
  pub World : Type 0
  pub second : ℕ
  pub monotonic : World → ℕ
  pub sleep : ℕ → World → World
  pub post : String → Fields → Option String → ℕ → World → Reply × World

-- A line of the gate's output: attempt `n` succeeded, and `streak` of the `needed` successes are
-- there, or it failed.
pub data Line : Type 0 where
  success : (attempt streak needed : ℕ) → Line
  waiting : (attempt : ℕ) → String → Line

pub data Outcome : Type 0 where
  ready : (attempts : ℕ) (base_url : String) (stable : ℕ) → Outcome
  gate_timeout : String → Outcome
  value_error : String → Outcome

-- The token of a sign-in: a text that is not blank.
unfoldable pub usable_token : Value → Result String
usable_token (str s) =
    if is_empty (strip s) then err "signin did not return a usable token" else ok s
usable_token _ = err "signin did not return a usable token"

unfoldable pub signed_in : ℕ × Fields → Result String
unfolding usable_token
signed_in (status, payload) =
    if eqb status 200
    then usable_token (get "token" payload)
    else err ("signin returned HTTP " <> decimal status)

unfoldable pub probed : ℕ × Fields → Result (Unit {0})
probed (status, payload) =
    if eqb status 200 then ok tt else err ("protected probe returned HTTP " <> decimal status)

-- `last_error or 'unknown'`
abbrev last_error_text : Option String → String
last_error_text none = "unknown"
last_error_text (some s) = if is_empty s then "unknown" else s

module _ (e : Network) (base_url username password : String) (interval : ℕ) where
  unfoldable pub authenticate : e.World → Result String × e.World
  unfolding read_reply signed_in normalize_base_url
  authenticate w =
      let (reply, w') =
        e.post (normalize_base_url base_url <> "/api/auth/signin")
          (fields (("username", str username) ∷ ("password", str password) ∷ [])) none
          (max 1 interval) w in
      (read_reply reply >>= signed_in, w')

  unfoldable pub probe_protected_endpoint : String → e.World → Result (Unit {0}) × e.World
  unfolding read_reply probed normalize_base_url
  probe_protected_endpoint token w =
      let (reply, w') =
        e.post (normalize_base_url base_url <> "/api/dashboard/info") end (some token)
          (max 1 interval) w in
      (read_reply reply >>= probed, w')

  after_sign_in : Result String → e.World → Result (Unit {0}) × e.World
  unfolding probe_protected_endpoint
  after_sign_in (ok token) w = probe_protected_endpoint token w
  after_sign_in (err message) w = (err message, w)

  -- The body of the `try`: sign in, then probe.
  unfoldable pub attempt_once : e.World → Result (Unit {0}) × e.World
  unfolding authenticate after_sign_in
  attempt_once w = let (r, w') = authenticate w in after_sign_in r w'

  module _ (stable deadline : ℕ) where
    timed_out : String → ℕ → Option String → Outcome
    unfolding normalize_base_url
    timed_out given attempt last_error = gate_timeout (
        "liderapi auth gate timed out after "
        <> (decimal attempt
            <> (" attempts at "
                <> (normalize_base_url given <> ("; last error: " <> last_error_text last_error)))))

    -- The `while`, with fuel; `none` means that the fuel ran out. The output is newest first, and
    -- `given` is the URL before it was resolved.
    unfoldable pub gate_loop :
        String
        → ℕ
        → ℕ
        → ℕ
        → Option String
        → List Line
        → e.World
        → Option (Outcome × List Line × e.World)
    unfolding timed_out
    gate_loop given zero streak attempt last_error output w = none
    gate_loop given (suc fuel) streak attempt last_error output w =
        let (r, w') = attempt_once w in
        let rested = e.sleep (interval * e.second) w' in
        if leb (e.monotonic w) deadline
        then on_result r
            (λ _.
              let line = success (attempt + 1) (streak + 1) stable in
              let next =
                gate_loop given fuel (streak + 1) (attempt + 1) last_error (line ∷ output) rested in
              if leb stable (streak + 1)
              then some (ready (attempt + 1) base_url stable, line ∷ output, w')
              else next)
            (λ message.
              gate_loop given fuel 0 (attempt + 1) (some message)
                (waiting (attempt + 1) message ∷ output) rested)
        else some (timed_out given attempt last_error, output, w)

  unfoldable pub wait_for_liderapi_gate :
      ℕ → ℕ → ℕ → String → e.World → Option (Outcome × List Line × e.World)
  unfolding gate_loop
  wait_for_liderapi_gate fuel stable timeout given w =
      if ltb stable 1
      then some (value_error "stable_success_count must be at least 1", [], w)
      else gate_loop stable (e.monotonic w + timeout * e.second) given fuel 0 0 none [] w
