-- ===== src/Validation/Lookup.antt =====
-- packages/product/src/tenant-validation.ts: `getTenantValidationJob`.
use inbox_saas.Prelude.{Bool, Option, none, some, List, String, if◌then◌else◌}
use inbox_saas.Errors.{Result, ok, ◌>>=◌}
use inbox_saas.Access.{AccessGrant, read, workspace, is_authorized}
use inbox_saas.Schema.{TenantConnection, Job, Database}
use inbox_saas.Validation.Base.{
  Services, TenantConnectionDto, to_tenant_connection_dto, get_job_with_tenant,
}
use inbox_saas.Validation.Start.{read_uuid}

pub data LookupResult : Type 0 where
  not_found : LookupResult
  found : (connection : TenantConnectionDto) → (job : Job) → LookupResult

abbrev pub may_read : List AccessGrant → TenantConnection → Bool
may_read grants c = is_authorized grants (record {
  scope = workspace c.workspace_id;
  organization_id = c.organization_id;
  permission = read;
})

abbrev pub show_stored : List AccessGrant → Option (Job × TenantConnection) → LookupResult
show_stored grants none = not_found
show_stored grants (some (j, c)) =
    if may_read grants c then found (to_tenant_connection_dto c) j else not_found

unfoldable pub get_tenant_validation_job :
    Services → List AccessGrant → String → Database → Result LookupResult
get_tenant_validation_job s grants job_id db = do
  i ← read_uuid s job_id
  stored ← get_job_with_tenant db i
  ok (show_stored grants stored)
