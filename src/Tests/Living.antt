-- ===== src/Tests/Living.antt =====
-- Examples of operations that follow one another, and of runs that nothing disturbs.
use inbox_saas.Prelude.{◌≡◌, ◌⊎◌, refl, false, none, some, [], ◌∷◌, arith}
use inbox_saas.Errors.{ok}
use inbox_saas.Schema.{completed, active, api_keys_valid, Database, Job, TenantConnection}
use inbox_saas.Validation.Base.{find_job, find_connection, to_tenant_connection_dto, millis}
use inbox_saas.Validation.Lookup.{LookupResult, show_stored, get_tenant_validation_job}
use inbox_saas.Validation.Lease.{renew_tenant_validation_job_lease}
use inbox_saas.Validation.Start.{start_tenant_validation}
use inbox_saas.Validation.Apply.{applied}
use inbox_saas.Worker.Process.{
  Round, finished, acquired, asked, released, process_tenant_validation_job,
}
use inbox_saas.System.Life.{Stays}
use inbox_saas.System.Consistency.{IsConsistent}
use inbox_saas.System.Traces.{Reach, stays, Reach-Stays}
use inbox_saas.System.Rounds.{IsShared, process-Reach}
use inbox_saas.System.Leases.{LeavesAlone, alone-Keeps, renewal-Keeps}
use inbox_saas.System.Completion.{IsUndisturbed, request, process_completes}
use inbox_saas.System.Answers.{get_tenant_validation_job_total}
use inbox_saas.Tests.Fixtures.{services, driver, input, draws, grants, empty_database, admin}
use inbox_saas.Tests.Starting.{starting, started, queued_job}
use inbox_saas.Tests.Working.{connection}
use inbox_saas.Tests.Running.{quiet}
use inbox_saas.Tests.Opening.{hash}

empty-IsConsistent : IsConsistent empty_database
unfolding starting api_keys_valid
empty-IsConsistent = record {
  jobs_hold = refl;
  connections_hold = refl;
  records_hold = refl;
  events_hold = refl;
  keys_hold = refl;
  keys_checked = tt;
  keys_linked = tt;
  connections_linked = tt;
  shaped = tt;
  jobs_linked = tt;
  records_linked = tt;
  records_owned = tt;
  events_linked = tt;
}

-- A start, then a run of the handler with no one else about.
abbrev first_database : Database
first_database =
    (start_tenant_validation services input draws 1000 (λ d. d) grants empty_database).1

abbrev second_database : Database
second_database = (process_tenant_validation_job services "v1" 40 quiet first_database).database

alone : IsShared services hash quiet
alone = record {
  after_claim = λ db. stays db;
  waiting = λ db. stays db;
  asking = λ db. stays db;
  others = λ db. stays db;
  afterwards = λ db. stays db;
}

first_run : Reach services hash first_database second_database
first_run = process-Reach services hash "v1" 40 quiet alone first_database

started_connection :
    find_connection queued_job.tenant_connection_id first_database ≡ some connection
unfolding starting
started_connection = refl

Reach-Stays_example :
    (c' : TenantConnection) × (find_connection queued_job.tenant_connection_id second_database
      ≡ some c')
    × Stays connection c'
Reach-Stays_example =
    Reach-Stays services hash first_run queued_job.tenant_connection_id connection
      started_connection

idle : LeavesAlone 40 queued_job.tenant_connection_id "tenant-1" (λ d. d)
idle = record {
  job = λ db. refl;
  connection = λ db. refl;
  tenant = λ db. refl;
  jobs_hold = λ db v. v;
  connections_hold = λ db v. v;
}

-- The provisioner takes longer than the lease lasts, and the timer renews it meanwhile, at 25000.
abbrev patient : Round
patient = record quiet {
  asking = λ db. (renew_tenant_validation_job_lease driver 40 70 25000 (millis 60000) 25000 db).1;
  result_now = 70000;
  result_clock = 70000;
}

undisturbed : IsUndisturbed services "v1" 40 patient started queued_job connection "tenant-1" admin
unfolding starting
undisturbed = record {
  loaded_until = 65000;
  waited_until = 65000;
  asked_until = 85000;
  rows = record {
    job = refl;
    connection = refl;
    free = refl;
    jobs_hold = refl;
    connections_hold = refl;
  };
  free = refl;
  few = omega arith;
  key = refl;
  opens = refl;
  kept = refl;
  confirmed = refl;
  after_claim = alone-Keeps 40 queued_job.tenant_connection_id 70 65000 "tenant-1" (λ d. d) idle;
  waiting = alone-Keeps 40 queued_job.tenant_connection_id 70 65000 "tenant-1" (λ d. d) idle;
  renewed_in_time = omega arith;
  asking =
      renewal-Keeps driver 40 queued_job.tenant_connection_id 70 65001 25000 59999 25000 "tenant-1"
        (omega arith);
  answered_in_time = omega arith;
  others = idle;
}

abbrev done_job : Job
done_job = record queued_job {
  attempt_count = 1;
  available_at = 70000;
  state = completed;
  updated_at = 70000;
}

abbrev done_connection : TenantConnection
done_connection = record connection {
  microsoft_tenant_id = some "tenant-1";
  state = active;
  updated_at = 70000;
}

process_completes_example :
    ((process_tenant_validation_job services "v1" 40 patient started).answer
      ≡ ok (finished (applied (to_tenant_connection_dto done_connection) done_job false)))
    × (find_job 40 (process_tenant_validation_job services "v1" 40 patient started).database
        ≡ some done_job)
    × (find_connection connection.id
          (process_tenant_validation_job services "v1" 40 patient started).database
        ≡ some done_connection)
    × ((process_tenant_validation_job services "v1" 40 patient started).calls
        ≡ acquired connection.organization_id
          ∷ asked (request services "v1" 40 patient started queued_job connection "tenant-1" admin)
          ∷ released connection.organization_id
          ∷ [])
process_completes_example =
    process_completes services "v1" 40 patient started queued_job connection "tenant-1" admin
      undisturbed

get_tenant_validation_job_total_example :
    ((find_job 40 empty_database ≡ none)
      × (get_tenant_validation_job services grants "job" empty_database
          ≡ ok LookupResult.not_found))
    ⊎ ((j : Job) × (c : TenantConnection) × (find_job 40 empty_database ≡ some j)
        × (find_connection j.tenant_connection_id empty_database ≡ some c)
        × (get_tenant_validation_job services grants "job" empty_database
            ≡ ok (show_stored grants (some (j, c)))))
get_tenant_validation_job_total_example =
    get_tenant_validation_job_total services grants "job" 40 empty_database empty-IsConsistent refl
