-- ===== src/Validation/Base.antt =====
-- packages/product/src/tenant-validation.ts: what its operations share.
-- `others` is what other sessions commit between the reads and the writes of an operation; `clock`
-- is the time that the column defaults and `$onUpdate` write, `now` the operation's own argument.
use inbox_saas.Prelude.{ℕ, zero, suc, ◌+◌, Bool, false, Option, none, some, ◌==◌, ltb, leb, String}
use inbox_saas.Errors.{Error, Result, ok, err, throw, or_throw, ◌>>=◌}
use inbox_saas.Table.{select_first}
use inbox_saas.Schema.{TenantConnectionState, TenantConnection, Job, Database}
use inbox_saas.Schema.Statements.{Driver}
use inbox_saas.Credentials.{TenantCredentialCipher}

-- What the operations use of the outside: the database driver's errors, the cipher, and how
-- PostgreSQL reads and prints a uuid (`none`: the text is no uuid, and the query throws).
pub record Services : Type 0 where
  pub driver : Driver
  pub cipher : TenantCredentialCipher
  pub uuid_of : String → Option ℕ
  pub uuid_text : ℕ → String
  pub invalid_uuid : Error

-- A tenant connection without its credentials.
pub record TenantConnectionDto : Type 0 where
  pub id : ℕ
  pub organization_id : ℕ
  pub workspace_id : ℕ
  pub state : TenantConnectionState
  pub microsoft_tenant_id : Option String
  pub created_at : ℕ
  pub updated_at : ℕ

abbrev pub to_tenant_connection_dto : TenantConnection → TenantConnectionDto
to_tenant_connection_dto c = record {
  id = c.id;
  organization_id = c.organization_id;
  workspace_id = c.workspace_id;
  state = c.state;
  microsoft_tenant_id = c.microsoft_tenant_id;
  created_at = c.created_at;
  updated_at = c.updated_at;
}

-- `retryDelaysMs[i]`
abbrev retry_delays_ms : ℕ → Option ℕ
retry_delays_ms zero = some 60000
retry_delays_ms (suc zero) = some 300000
retry_delays_ms _ = none

-- `retryDelaysMs[attemptCount - 1]`; at 0 the index is -1, where the array has nothing.
abbrev retry_delay : ℕ → Option ℕ
retry_delay zero = none
retry_delay (suc n) = retry_delays_ms n

unfoldable pub retry_available_at : ℕ → ℕ → Result ℕ
retry_available_at attempt_count now = do
  delay_ms ←
      or_throw (retry_delay attempt_count) "Tenant validation job has no remaining retry delay"
  ok (now + delay_ms)

abbrev pub find_job : ℕ → Database → Option Job
find_job i db = select_first (λ j. j.id == i) db.jobs

abbrev pub find_connection : ℕ → Database → Option TenantConnection
find_connection i db = select_first (λ c. c.id == i) db.tenant_connections

abbrev pub connection_of : Database → Job → Result TenantConnection
connection_of db j =
    or_throw (find_connection j.tenant_connection_id db)
      "Tenant validation job has no tenant connection"

-- `null`, or the job with its connection.
unfoldable pub get_job_with_tenant : Database → ℕ → Result (Option (Job × TenantConnection))
get_job_with_tenant db i = elim (find_job i db) [
  | none ↦ ok none
  | some j ↦ connection_of db j >>= λ c. ok (some (j, c))
]

-- `lte(column, now)` and `gt(column, now)` on a nullable timestamp: `NULL` passes neither.
abbrev pub is_due : Option ℕ → ℕ → Bool
is_due none now = false
is_due (some t) now = leb t now

abbrev pub is_ahead : Option ℕ → ℕ → Bool
is_ahead none now = false
is_ahead (some t) now = ltb now t

-- A JavaScript number of milliseconds, as far as the guards tell such numbers apart: a positive
-- whole number, zero, a negative one, or none that is finite (NaN and the infinities).
pub data Duration : Type 0 where
  millis : ℕ → Duration
  negative : ℕ → Duration
  not_finite : Duration

-- `!Number.isFinite(ms) || ms <= 0` throws.
unfoldable pub positive_duration : Duration → Result ℕ
positive_duration (millis zero) = throw "Lease duration must be a positive finite number"
positive_duration (millis (suc n)) = ok (suc n)
positive_duration (negative n) = throw "Lease duration must be a positive finite number"
positive_duration not_finite = throw "Lease duration must be a positive finite number"

-- What an operation that may throw leaves behind: its result, and the database after it.
abbrev pub Outcome : Type 0 → Type 0
Outcome A = Result A × Database

-- The end of a transaction on `db`: a throw rolls back to it.
abbrev pub settle : {A : Type 0} → Database → Result (A × Database) → Outcome A
settle db (ok (a, db')) = (ok a, db')
settle db (err e) = (err e, db)
