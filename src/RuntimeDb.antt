-- ===== src/RuntimeDb.antt =====
-- The adapter of the runtime database, platform_runtime/runtime_db.py. `connect_to` is the driver's
-- `connect` at a host and port, a query gets the connection, and `close` closes it; each may raise. The body of a
-- `with self.connect()` runs inside the `try` of the generator.
pub mod Connect
use liderahenk_test_platform.Base.{
  ℕ, String, ◌<>◌, Bool, true, false, Option, none, some, List, [], ◌∷◌, ◌==◌, if◌then◌else◌,
}
use liderahenk_test_platform.Json.{Value, null, str, obj, Fields, end, get, truthy}
use liderahenk_test_platform.Result.{Result, ok, err, ◌>>=◌, on_result}

module _ {Host Connection : Type 0} (connect_to : Host → Result Connection)
    (close : Connection → Result (Unit {0})) where
  -- The generator after an exception at a connection: at the next host that answers it yields again,
  -- of which `contextlib` complains, and without one it gives up.
  unfoldable pub resume : (complaint last_error : String) → List Host → String
  resume complaint last_error [] = "Unable to connect to MariaDB runtime state: " <> last_error
  resume complaint last_error (host ∷ r) =
      on_result (connect_to host) (λ connection. complaint) (λ message. resume complaint message r)

  -- The end of the body, with the `finally` that closes the connection: an exception there takes the
  -- place of the body's, or of its answer.
  unfoldable pub closed {ℓ} : {A : Type ℓ} → Result A → Result (Unit {0}) → List Host → Result A
  unfolding resume
  closed (ok a) (ok done) r = ok a
  closed (ok a) (err message) r = err (resume "generator didn't stop" message r)
  closed (err message) (ok done) r = err (resume "generator didn't stop after throw()" message r)
  closed (err message) (err later) r = err (resume "generator didn't stop after throw()" later r)

  -- `with self.connect() as connection: body`, from the hosts that are left
  unfoldable pub with_from {ℓ} :
      {A : Type ℓ} → (Connection → Result A) → String → List Host → Result A
  unfolding closed
  with_from body last_error [] = err ("Unable to connect to MariaDB runtime state: " <> last_error)
  with_from body last_error (host ∷ r) =
      on_result (connect_to host) (λ connection. closed (body connection) (close connection) r)
        (λ message. with_from body message r)

  unfoldable pub with_connection {ℓ} : {A : Type ℓ} → (Connection → Result A) → List Host → Result A
  unfolding with_from
  with_connection body hosts = with_from body "None" hosts

  -- `connection_healthy`, with `SELECT 1` as the query
  unfoldable pub connection_healthy : (Connection → Result Value) → List Host → Bool
  unfolding with_connection
  connection_healthy select_one hosts =
      on_result (with_connection select_one hosts) (λ row. true) (λ message. false)

  -- `get_config_value`; a row is none, or a mapping
  unfoldable pub get_config_value : (Connection → Result (Option Fields)) → List Host → Result Value
  unfolding with_connection
  get_config_value query hosts = with_connection query hosts >>= λ row. ok (value_of row)
    where
      value_of : Option Fields → Value
      value_of none = null
      value_of (some r) = get "value" r
