-- ===== src/Api.antt =====
-- packages/api/src/v1.ts: the routes of the public API, behind the check of the API key.
-- `units` gives the code units of a text. An unhandled throw is an `err`: hono answers it.
pub mod Text
pub mod Answers
use inbox_saas.Prelude.{
  ℕ, Bool, true, false, Option, none, some, List, [], ◌∷◌, ◌&&◌, ◌||◌, not, String, if◌then◌else◌,
}
use inbox_saas.Errors.{Error, Result, ok, err, ◌>>=◌}
use inbox_saas.Access.{AccessGrant}
use inbox_saas.Schema.{Characters, JobState, JobOperation, Job, Database}
use inbox_saas.Schema
use inbox_saas.Credentials.{TenantCredentials}
use inbox_saas.ApiKeys.{authenticate_api_key}
use inbox_saas.ControlPlane.{WorkspaceView, get_accessible_control_plane}
use inbox_saas.Validation.Base.{Services, TenantConnectionDto, Outcome}
use inbox_saas.Validation.Start.{StartInput, StartResult, Fresh, start_tenant_validation}
use inbox_saas.Validation.Start
use inbox_saas.Validation.Lookup.{LookupResult, get_tenant_validation_job}
use inbox_saas.Validation.Lookup
use inbox_saas.Api.Text.{is_blank, is_empty, is_json, is_uuid, is_email, bearer_token}

pub data Status : Type 0 where
  processing completed failed : Status

pub record PublicJob : Type 0 where
  pub id : ℕ
  pub operation : JobOperation
  pub status : Status
  pub failure_code : Option String
  pub retryable : Option Bool
  pub created_at : ℕ
  pub updated_at : ℕ

abbrev pub public_status : JobState → Status
public_status JobState.queued = processing
public_status JobState.running = processing
public_status JobState.completed = Status.completed
public_status JobState.failed = Status.failed
public_status JobState.cancelled = Status.failed

abbrev pub to_public_job : Job → PublicJob
to_public_job j = record {
  id = j.id;
  operation = j.operation;
  status = public_status j.state;
  failure_code = j.failure_code;
  retryable = j.retryable;
  created_at = j.created_at;
  updated_at = j.updated_at;
}

-- The answers by their status codes: 401, 400, 404, 409, 202 and 200.
pub data Answer : Type 0 where
  unauthorized : Answer
  invalid_request : Answer
  not_found : Answer
  idempotency_conflict : Answer
  accepted : (idempotency_key : String) → (job : PublicJob) → TenantConnectionDto → Answer
  shows_workspaces : List WorkspaceView → Answer
  shows_job : (job : PublicJob) → TenantConnectionDto → Answer

abbrev pub status_code : Answer → ℕ
status_code unauthorized = 401
status_code invalid_request = 400
status_code not_found = 404
status_code idempotency_conflict = 409
status_code (accepted k j c) = 202
status_code (shows_workspaces ws) = 200
status_code (shows_job j c) = 200

-- A body that is no JSON, JSON of another shape, or an object with the two strings.
pub data RequestBody : Type 0 where
  malformed misshapen : RequestBody
  shaped : (email password : String) → RequestBody

pub data Route : Type 0 where
  workspaces : Route
  tenant_connections :
      (workspace_id : String)
      → (idempotency_key content_type : Option String) → (body : RequestBody) → Route
  jobs : (job_id : String) → Route

pub record ApiRequest : Type 0 where
  pub authorization : Option String
  pub route : Route

module _ (units : String → Characters) where
  -- The middleware's match: an absent header has no token.
  abbrev pub token_in : Option String → Option Characters
  token_in none = none
  token_in (some header) = bearer_token (units header)

  unfoldable pub authorize :
      (Characters → Characters) → Option String → ℕ → Database → Result (Option AccessGrant)
  authorize hash header now db = elim (token_in header) [
    | none ↦ ok none
    | some token ↦ authenticate_api_key hash token now db
  ]

  -- `tenantValidationRequestSchema`
  abbrev pub parse_body : RequestBody → Option TenantCredentials
  parse_body malformed = none
  parse_body misshapen = none
  parse_body (shaped email password) =
      if not (is_blank (units email)) && is_email (units email) && not (is_empty (units password))
      then some (record { email = email; password = password })
      else none

  abbrev pub is_present : Option String → Bool
  is_present none = false
  is_present (some key) = not (is_empty (units key)) && not (is_blank (units key))

  abbrev pub is_json_type : Option String → Bool
  is_json_type none = false
  is_json_type (some type) = not (is_empty (units type)) && is_json (units type)

  abbrev key_text : Option String → String
  key_text none = ""
  key_text (some key) = key

  -- The input of the start call, if every test of the handler passes.
  unfoldable pub start_input :
      String → Option String → Option String → RequestBody → Option StartInput
  start_input workspace_id key type body =
      if not (is_present key) || not (is_json_type type) || not (is_uuid (units workspace_id))
      then none
      else elim (parse_body body) [
        | none ↦ none
        | some credentials ↦ some (record {
          workspace_id = workspace_id;
          idempotency_key = key_text key;
          credentials = credentials;
        })
      ]

  abbrev pub start_answer : String → StartResult → Answer
  start_answer key Start.StartResult.not_found = not_found
  start_answer key Start.StartResult.idempotency_conflict = idempotency_conflict
  start_answer key (Start.StartResult.accepted c j reused) = accepted key (to_public_job j) c

  abbrev pub lookup_answer : LookupResult → Answer
  lookup_answer Lookup.LookupResult.not_found = not_found
  lookup_answer (Lookup.LookupResult.found c j) = shows_job (to_public_job j) c

  abbrev pub answered : String → Outcome StartResult → Outcome Answer
  answered key (err e, db) = (err e, db)
  answered key (ok r, db) = (ok (start_answer key r), db)

  module _ (s : Services) (hash : Characters → Characters) (fresh : Fresh) (now clock : ℕ)
      (others : Database → Database) where
    unfoldable pub post_tenant_connection :
        AccessGrant → Option StartInput → Database → Outcome Answer
    post_tenant_connection grant none db = (ok invalid_request, db)
    post_tenant_connection grant (some input) db =
        answered input.idempotency_key
          (start_tenant_validation s input fresh clock others (grant ∷ []) db)

    unfoldable pub get_job : AccessGrant → String → Database → Result Answer
    get_job grant job_id db =
        if not (is_uuid (units job_id))
        then ok not_found
        else (get_tenant_validation_job s (grant ∷ []) job_id db >>= λ r. ok (lookup_answer r))

    abbrev pub serve : AccessGrant → Route → Database → Outcome Answer
    serve grant workspaces db =
        (ok (shows_workspaces (get_accessible_control_plane (grant ∷ []) db).workspaces), db)
    serve grant (tenant_connections workspace_id key type body) db =
        post_tenant_connection grant (start_input workspace_id key type body) db
    serve grant (jobs job_id) db = (get_job grant job_id db, db)

    abbrev pub guarded : Route → Database → Result (Option AccessGrant) → Outcome Answer
    guarded route db (err e) = (err e, db)
    guarded route db (ok none) = (ok unauthorized, db)
    guarded route db (ok (some grant)) = serve grant route db

    unfoldable pub handle : ApiRequest → Database → Outcome Answer
    handle request db = guarded request.route db (authorize hash request.authorization now db)
