-- ===== src/Provisioner/Fake.antt =====
-- apps/worker/src/fake-provisioner.ts: the provisioner of the fake worker, with the list of its
-- invocations as its state. `on_validate` may throw.
use inbox_saas.Prelude.{ℕ, List, [], ◌∷◌, ◌++◌}
use inbox_saas.Errors.{Result, ok, err}
use inbox_saas.Contract.{TenantValidationRequest, TenantValidationResult}

pub record FakeTenantValidationInvocation : Type 0 where
  pub job_id : ℕ
  pub tenant_connection_id : ℕ

abbrev pub invocation_of : TenantValidationRequest → FakeTenantValidationInvocation
invocation_of request = record {
  job_id = request.job_id;
  tenant_connection_id = request.tenant_connection_id;
}

abbrev pub fake_validate_tenant :
    TenantValidationResult
    → (on_validate : TenantValidationRequest → Result (Unit {0})) → TenantValidationRequest
    → List FakeTenantValidationInvocation
    → Result TenantValidationResult × List FakeTenantValidationInvocation
fake_validate_tenant result on_validate request invocations = elim (on_validate request) [
  | err e ↦ (err e, invocations)
  | ok u ↦ (ok result, invocations ++ (invocation_of request ∷ []))
]
