-- ===== src/Tests/Starting.antt =====
-- Examples of starting a validation.
use inbox_saas.Prelude.{◌≡◌, refl, true, false}
use inbox_saas.Errors.{ok, is_unique_violation}
use inbox_saas.Access.{grant_allows, is_authorized}
use inbox_saas.Entitlements.{get_organization_entitlement}
use inbox_saas.Table.{is_distinct, select_first}
use inbox_saas.Schema.{
  Database, Job, jobs_clash, connections_clash, records_clash, jobs_valid, connections_valid,
  records_valid, events_valid,
}
use inbox_saas.Schema.Statements.{
  store_jobs, store_connections, insert_connection, insert_job, insert_record, insert_event,
}
use inbox_saas.Validation.Base.{TenantConnectionDto, to_tenant_connection_dto, get_job_with_tenant}
use inbox_saas.Validation.Start.{
  idempotency_conflict, StartInput, new_record, accepted, new_connection, new_job,
  assert_start_input, create, reuse, recover_reuse, start_in_workspace, start_tenant_validation,
}
use inbox_saas.Validation.Start.Created.{with_rows, StartEffect, start_effect}
use inbox_saas.Validation.Start.Replay.{start_replay}
use inbox_saas.Validation.Start.Admission.{IsAdmitted}
use inbox_saas.Credentials.{TenantCredentials}
use inbox_saas.Validation.Start.Conflict.{with_credentials, start_conflict}
use inbox_saas.Validation.Start.Race.{start_lost_race}
use inbox_saas.Tests.Fixtures.{
  services, input, draws, later_draws, grants, empty_database, default_workspace,
}

-- What a run of `startTenantValidation` computes with.
unfoldable pub starting : Unit {0}
unfolding assert_start_input create reuse recover_reuse start_in_workspace start_tenant_validation
    store_jobs store_connections insert_connection insert_job insert_record insert_event jobs_clash
    connections_clash records_clash jobs_valid connections_valid records_valid events_valid
    is_distinct select_first get_organization_entitlement grant_allows is_authorized
    is_unique_violation get_job_with_tenant
starting = tt

abbrev pub started : Database
started = with_rows services input draws 1000 default_workspace empty_database

abbrev pub dto : TenantConnectionDto
dto = to_tenant_connection_dto (new_connection services input draws 1000 default_workspace)

abbrev pub queued_job : Job
queued_job = new_job services input draws 1000

first_start :
    start_tenant_validation services input draws 1000 (λ d. d) grants empty_database
    ≡ (ok (accepted dto queued_job false), started)
unfolding starting
first_start = refl

start_replay_example :
    start_tenant_validation services input later_draws 2000 (λ d. d) grants started
    ≡ (ok (accepted dto queued_job true), started)
start_replay_example =
    start_replay services input draws later_draws 1000 2000 (λ d. d) grants empty_database started
      dto queued_job false (record { workspaces = refl; records = λ o k r e. e }) first_start

start_effect_example :
    StartEffect services input draws 1000
      (λ d. d)
      grants
      empty_database
      (start_tenant_validation services input draws 1000 (λ d. d) grants empty_database)
start_effect_example = start_effect services input draws 1000 (λ d. d) grants empty_database

abbrev respelled : StartInput
respelled = record input { workspace_id = "AA" }

admitted : IsAdmitted services input grants default_workspace empty_database
unfolding starting
admitted = record {
  workspace_id = 20;
  complete = refl;
  named = refl;
  found = refl;
  allowed = refl;
  owned = refl;
}

-- Another session commits the same request while the call runs.
start_lost_race_example :
    start_tenant_validation services input later_draws 1001 (λ d. started) grants empty_database
    ≡ (ok (accepted dto queued_job true), started)
unfolding starting
start_lost_race_example =
    start_lost_race services input later_draws 1001 (λ d. started) grants default_workspace
      empty_database dto queued_job admitted refl refl refl refl
      (record {
        stored = new_record services input draws 1000 default_workspace;
        connection = new_connection services input draws 1000 default_workspace;
        by_key = refl;
        same = refl;
        job_found = refl;
        connection_found = refl;
        shown = refl;
      })

-- The same key for the same workspace, with another password.
abbrev other_admin : TenantCredentials
other_admin = record { email = "admin@example.com"; password = "other" }

start_conflict_example :
    start_tenant_validation services
      (with_credentials other_admin input)
      later_draws
      1001
      (λ d. d)
      grants
      started
    ≡ (ok idempotency_conflict, started)
unfolding starting
start_conflict_example =
    start_conflict services input other_admin draws later_draws 1000 1001 (λ d. d) (λ d. d) grants
      empty_database started dto queued_job false
      (record { workspaces = refl; records = λ o k r e. e }) first_start refl (λ e. cc)
