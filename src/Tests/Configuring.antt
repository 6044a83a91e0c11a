-- ===== src/Tests/Configuring.antt =====
-- An example of a worker's configuration.
use inbox_saas.Prelude.{◌≡◌, refl, some, [], ◌∷◌, str_eq, if◌then◌else◌}
use inbox_saas.Errors.{ok}
use inbox_saas.Config.{
  Readers, Environment, TenantValidationWorkerConfig, is_base64_text, parse_database_url,
  parse_provisioner_base_url, parse_base64_key, required_value,
  parse_tenant_validation_worker_config,
}
use inbox_saas.Config.Checked.{IsSafe, config-IsSafe}
use inbox_saas.Tests.Sealing.{zeros}

abbrev readers : Readers
readers = record {
  is_blank = λ t. str_eq t "";
  parse_url = λ t.
      if str_eq t "postgres://db"
      then some (record { protocol = "postgres:"; username = "user"; password = "" })
      else some (record { protocol = "https:"; username = ""; password = "" });
  characters = λ t. 65 ∷ 61 ∷ [];
  decode_base64 = λ t. zeros 32;
}

abbrev environment : Environment
environment name =
    if str_eq name "DATABASE_URL" then some "postgres://db" else some "https://provisioner"

abbrev configuration : TenantValidationWorkerConfig
configuration = record {
  database_url = "postgres://db";
  credential_key = zeros 32;
  credential_key_version = "https://provisioner";
  provisioner_base_url = "https://provisioner";
  provisioner_signing_secret = zeros 32;
  provisioner_transport_encryption_key = zeros 32;
}

accepted_test : parse_tenant_validation_worker_config readers environment ≡ ok configuration
unfolding parse_tenant_validation_worker_config parse_database_url parse_provisioner_base_url
    parse_base64_key required_value is_base64_text
accepted_test = refl

config-IsSafe_example : IsSafe readers configuration
config-IsSafe_example = config-IsSafe readers environment configuration accepted_test
