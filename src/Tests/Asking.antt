-- ===== src/Tests/Asking.antt =====
-- Examples of requests to the provisioner, over primitives that do not hide anything.
use inbox_saas.Prelude.{ℕ, ◌≡◌, ◌↔◌, refl, Option, some, [], ◌∷◌}
use inbox_saas.Errors.{ok}
use inbox_saas.Schema.{Characters}
use inbox_saas.Contract.{TenantValidationRequest, TenantValidationResult, success}
use inbox_saas.Provisioner.Decimal.{decimal, digits}
use inbox_saas.Provisioner.{
  Transport, HttpTenantValidationProvisioner, Post, Response, create_tenant_validation_endpoint,
  create_provisioner, validate_tenant,
}
use inbox_saas.Provisioner.Signature.{canonical_request_injective}
use inbox_saas.Provisioner.Exchange.{IsAnswer, post_of, validate_tenant_lem}
use inbox_saas.Tests.Fixtures.{admin}
use inbox_saas.Tests.Sealing.{zeros}

decimal_test : decimal 1730 ≡ 49 ∷ 55 ∷ 51 ∷ 48 ∷ []
unfolding decimal digits
decimal_test = refl

abbrev second : ℕ
second = 1730

abbrev nonce : Characters
nonce = 97 ∷ []

abbrev digest : Characters
digest = 98 ∷ []

canonical_request_injective_example : (second ≡ second) × (nonce ≡ nonce) × (digest ≡ digest)
canonical_request_injective_example =
    canonical_request_injective second second nonce nonce digest digest (refl, tt) (refl, tt) refl

abbrev transport : Transport
transport = record {
  parse_url = λ u. some (record { protocol = "http:"; username = ""; password = "" });
  resolve = λ path u. path;
  print_request = λ q. q.job_id ∷ [];
  print_envelope = λ e. 123 ∷ e.ciphertext;
  base64 = λ b. b;
  seal = λ k iv plain. (plain, iv);
  sha256 = λ b. b;
  hmac = λ k m. m;
  string_of = λ c. "500";
}

abbrev client : HttpTenantValidationProvisioner
client = record {
  endpoint = "/internal/v1/tenant-validations";
  service_secret = zeros 32;
  transport_encryption_key = zeros 32;
}

client_made : create_provisioner transport "http://provisioner" (zeros 32) (zeros 32) ≡ ok client
unfolding create_provisioner create_tenant_validation_endpoint
client_made = refl

abbrev confirm : Post → Option Response
confirm p = some (record { status = 200; json = some (some (success "tenant-1")) })

abbrev question : TenantValidationRequest
question = record { job_id = 40; tenant_connection_id = 30; credentials = admin }

validate_tenant_example :
    ((validate_tenant transport client [] 1730500 (97 ∷ []) confirm question).0
      ≡ post_of transport client [] 1730500 (97 ∷ []) question ∷ [])
    × ((result : TenantValidationResult)
        → ((validate_tenant transport client [] 1730500 (97 ∷ []) confirm question).1 ≡ ok result)
          ↔ IsAnswer result (confirm (post_of transport client [] 1730500 (97 ∷ []) question)))
validate_tenant_example =
    validate_tenant_lem transport client [] 1730500 (97 ∷ []) "http://provisioner" (zeros 32)
      (zeros 32) client_made 97 [] refl (λ q. (123, q.job_id ∷ [], refl)) confirm question
