-- ===== src/Worker/Process.antt =====
-- apps/worker/src/tenant-validation-worker.ts: `processTenantValidationJob`, one run of the handler.
-- The limiter grants the permit in the end (a run that waits for ever has no outcome). `calls` is
-- the trace of what the run did outside the database, oldest first. Logging is left out.
use inbox_saas.Prelude.{
  ℕ, Bool, true, false, Option, none, some, List, [], ◌∷◌, String, str_eq, not, if◌then◌else◌,
}
use inbox_saas.Errors.{Result, ok, err, throw, throw_if, or_throw, ◌>>=◌, ◌>>◌}
use inbox_saas.Contract.{
  TenantValidationRequest, TenantValidationResult, failure, unexpected_failure,
}
use inbox_saas.Schema.{TenantConnection, tenant_validation, Database}
use inbox_saas.Credentials.{TenantCredentials, EncryptedTenantCredentials}
use inbox_saas.Validation.Base.{Services, TenantConnectionDto, find_connection, millis}
use inbox_saas.Validation.Lease.{
  ClaimResult, not_found, claimed, claim_tenant_validation_job, renew_tenant_validation_job_lease,
}
use inbox_saas.Validation.Apply.{ApplyResult, apply_tenant_validation_result}

pub data Call : Type 0 where
  acquired released : (organization_id : ℕ) → Call
  asked : (request : TenantValidationRequest) → Call

pub data Processed : Type 0 where
  not_claimed lease_lost : Processed
  finished : ApplyResult → Processed

pub record Run : Type 0 where
  pub answer : Result Processed
  pub database : Database
  pub calls : List Call

-- What a run meets: the readings of the clocks, the random values, and what is committed between its
-- steps, by other sessions and by the run's own renewal timer, whose renewals are further calls of
-- `renew_tenant_validation_job_lease`; `timer_lost` tells whether one of them failed before the
-- permit came. `provisioner` gives
-- `none` where its call throws or its answer does not fit the schema.
pub record Round : Type 0 where
  pub token : ℕ
  pub claim_now : ℕ
  pub claim_clock : ℕ
  pub after_claim : Database → Database
  pub waiting : Database → Database
  pub timer_lost : Bool
  pub renewal_now : ℕ
  pub renewal_clock : ℕ
  pub provisioner : TenantValidationRequest → Option TenantValidationResult
  pub asking : Database → Database
  pub result_now : ℕ
  pub result_clock : ℕ
  pub event_id : ℕ
  pub others : Database → Database
  pub afterwards : Database → Database

abbrev pub lease_duration_ms : ℕ
lease_duration_ms = 60000

abbrev pub or_unexpected : Option TenantValidationResult → TenantValidationResult
or_unexpected none = failure unexpected_failure true
or_unexpected (some result) = result

module _ (s : Services) (credential_key_version : String) (job_id : ℕ) (r : Round) where
  abbrev pub encrypted_of : TenantConnection → EncryptedTenantCredentials
  encrypted_of c = record {
    ciphertext = c.credential_ciphertext;
    iv = c.credential_iv;
    auth_tag = c.credential_auth_tag;
    key_version = c.credential_key_version;
  }

  -- The stored credentials, read and decrypted.
  unfoldable pub load_credentials : ℕ → Database → Result TenantCredentials
  load_credentials connection_id db = do
    c ← or_throw (find_connection connection_id db) "Tenant connection credentials are missing"
    throw_if (not (str_eq c.credential_key_version credential_key_version))
        "Tenant connection credential key version does not match the worker cipher"
    s.cipher.decrypt (encrypted_of c)
        (record { workspace_id = s.uuid_text c.workspace_id; operation = tenant_validation })

  abbrev pub failed_run : Database → List Call → Run
  failed_run db calls = record {
    answer = throw "Tenant validation job processing failed";
    database = db;
    calls = calls;
  }

  abbrev pub delivered : List Call → Result ApplyResult × Database → Run
  delivered calls (err e, db) = failed_run db calls
  delivered calls (ok a, db) = record { answer = ok (finished a); database = db; calls = calls }

  abbrev pub request_of : TenantConnectionDto → TenantCredentials → TenantValidationRequest
  request_of c credentials = record {
    job_id = job_id;
    tenant_connection_id = c.id;
    credentials = credentials;
  }

  -- The provisioner's answer, applied; the permit goes back after it.
  abbrev pub deliver : TenantConnectionDto → ℕ → TenantCredentials → Database → Run
  deliver c token credentials db =
      let request = request_of c credentials in
      delivered (acquired c.organization_id ∷ asked request ∷ released c.organization_id ∷ []) (
        apply_tenant_validation_result s.driver job_id token r.result_now r.result_clock r.event_id
          r.others r.afterwards (or_unexpected (r.provisioner request)) (r.asking db))

  abbrev pub lost_run : ℕ → Database → Run
  lost_run organization_id db = record {
    answer = ok lease_lost;
    database = db;
    calls = acquired organization_id ∷ released organization_id ∷ [];
  }

  -- A renewal that throws counts as a lost lease.
  abbrev pub after_renewal :
      TenantConnectionDto → ℕ → TenantCredentials → Result Bool × Database → Run
  after_renewal c token credentials (err e, db) = lost_run c.organization_id db
  after_renewal c token credentials (ok false, db) = lost_run c.organization_id db
  after_renewal c token credentials (ok true, db) = deliver c token credentials db

  unfoldable pub with_permit : TenantConnectionDto → ℕ → TenantCredentials → Database → Run
  with_permit c token credentials db =
      if r.timer_lost
      then lost_run c.organization_id db
      else after_renewal c token credentials (
          renew_tenant_validation_job_lease s.driver job_id token r.renewal_now
            (millis lease_duration_ms) r.renewal_clock db)

  abbrev pub after_loading : TenantConnectionDto → ℕ → Database → Result TenantCredentials → Run
  after_loading c token db (err e) = failed_run db []
  after_loading c token db (ok credentials) = with_permit c token credentials (r.waiting db)

  abbrev pub hold : TenantConnectionDto → Option ℕ → Database → Run
  hold c none db = record {
    answer = throw "Claimed tenant validation job has no lease token";
    database = db;
    calls = [];
  }
  hold c (some token) db = after_loading c token db (load_credentials c.id db)

  abbrev pub after_claiming : Result ClaimResult × Database → Run
  after_claiming (err e, db) = record {
    answer = throw "Tenant validation job claim failed";
    database = db;
    calls = [];
  }
  after_claiming (ok not_found, db) = record { answer = ok not_claimed; database = db; calls = [] }
  after_claiming (ok (claimed c j), db) = hold c j.lease_token (r.after_claim db)

  unfoldable pub process_tenant_validation_job : Database → Run
  process_tenant_validation_job db = after_claiming (
      claim_tenant_validation_job s.driver job_id r.claim_now (millis lease_duration_ms) r.token
        r.claim_clock db)
