-- ===== src/Config/Checked.antt =====
-- apps/worker/src/runtime-config.ts: what an accepted configuration guarantees.
use inbox_saas.Prelude.{
  ◌≡◌, subst, inl, inr, Bool, true, some, arith, ◌==◌, ◌||◌, not, length, String, Bool-cases,
  Option-cases,
}
use inbox_saas.Errors.{Result, ok, OkHolds, >>=-OkHolds, any-OkHolds, ◌>>=◌}
use inbox_saas.Schema.{Bytes}
use inbox_saas.Config.{
  Url, Readers, Environment, TenantValidationWorkerConfig, is_base64_text, is_postgres,
  is_plain_http, parse_with, parse_database_url, parse_provisioner_base_url, parse_base64_key,
  required_value, parse_tenant_validation_worker_config,
}

module _ (r : Readers) where
  key-OkHolds :
      (encoded message : String) → OkHolds (λ k. length k ≡ 32) (parse_base64_key r encoded message)
  unfolding parse_base64_key
  key-OkHolds encoded message =
      let key = r.decode_base64 encoded in
      elim (Bool-cases (not (is_base64_text (r.characters encoded)) || not (length key == 32))) [
        | inl e ↦ rw e tt
        | inr e ↦ rw e (ground arith)
      ]

  -- The text reads as a URL that passes the test.
  abbrev IsUrl : (Url → Bool) → String → Type 0
  IsUrl fits value = (u : Url) × (r.parse_url value ≡ some u) × (fits u ≡ true)

  parsed-OkHolds :
      (fits : Url → Bool) (message value : String)
      → OkHolds (IsUrl fits) (parse_with r fits message value)
  parsed-OkHolds fits message value = elim (Option-cases (r.parse_url value)) [
    | inl e ↦ rw (e, OkHolds) tt
    | inr (u, e) ↦ elim (Bool-cases (fits u)) [
      | inl f ↦ rw (e, f, OkHolds) (u, e, f)
      | inr f ↦ rw (e, f, OkHolds) tt
    ]
  ]

  -- What the worker may rely on.
  pub record IsSafe (c : TenantValidationWorkerConfig) : Type 0 where
    pub database : IsUrl (is_postgres r) c.database_url
    pub provisioner : IsUrl (is_plain_http r) c.provisioner_base_url
    pub credential_key_long : length c.credential_key ≡ 32
    pub signing_secret_long : length c.provisioner_signing_secret ≡ 32
    pub transport_key_long : length c.provisioner_transport_encryption_key ≡ 32

  config-OkHolds :
      (environment : Environment)
      → OkHolds IsSafe (parse_tenant_validation_worker_config r environment)
  unfolding parse_tenant_validation_worker_config parse_database_url parse_provisioner_base_url
  config-OkHolds environment = value "DATABASE_URL" _ (λ database.
      >>=-OkHolds (IsUrl (is_postgres r)) IsSafe (parse_database_url r database) _
        (parsed-OkHolds (is_postgres r) _ database)
        (λ database_url fits. value "TENANT_CREDENTIAL_ENCRYPTION_KEY" _ (λ encoded.
          value "TENANT_CREDENTIAL_ENCRYPTION_KEY_VERSION" _ (λ version.
            value "PROVISIONER_BASE_URL" _ (λ base.
              >>=-OkHolds (IsUrl (is_plain_http r)) IsSafe (parse_provisioner_base_url r base) _
                (parsed-OkHolds (is_plain_http r) _ base)
                (λ base_url plain. value "INBOX_PROVISIONER_SIGNING_SECRET" _ (λ signing.
                  key_value signing
                    "INBOX_PROVISIONER_SIGNING_SECRET must be a base64-encoded 32-byte key" _
                    (λ secret signs.
                      value "INBOX_PROVISIONER_TRANSPORT_ENCRYPTION_KEY" _ (λ transport.
                        key_value transport
                          "INBOX_PROVISIONER_TRANSPORT_ENCRYPTION_KEY must be a base64-encoded 32-byte key"
                          _
                          (λ transport_key moves.
                            key_value encoded
                              "TENANT_CREDENTIAL_ENCRYPTION_KEY must be a base64-encoded 32-byte key and TENANT_CREDENTIAL_ENCRYPTION_KEY_VERSION must be non-empty"
                              (λ key. ok (record {
                                database_url = database_url;
                                credential_key = key;
                                credential_key_version = version;
                                provisioner_base_url = base_url;
                                provisioner_signing_secret = secret;
                                provisioner_transport_encryption_key = transport_key;
                              }))
                              (λ key opens. record {
                                database = fits;
                                provisioner = plain;
                                credential_key_long = opens;
                                signing_secret_long = signs;
                                transport_key_long = moves;
                              })))))))))))
    where
      value :
          (name : String) (f : String → Result TenantValidationWorkerConfig)
          → ((v : String) → OkHolds IsSafe (f v))
          → OkHolds IsSafe (required_value r environment name >>= f)
      value name f k =
          >>=-OkHolds (λ v. required_value r environment name ≡ ok v) IsSafe
            (required_value r environment name) f (any-OkHolds (required_value r environment name))
            (λ v u. k v)

      key_value :
          (encoded message : String) (f : Bytes → Result TenantValidationWorkerConfig)
          → ((k : Bytes) → length k ≡ 32 → OkHolds IsSafe (f k))
          → OkHolds IsSafe (parse_base64_key r encoded message >>= f)
      key_value encoded message f k =
          >>=-OkHolds (λ x. length x ≡ 32) IsSafe (parse_base64_key r encoded message) f
            (key-OkHolds encoded message) k

  -- An accepted configuration has a PostgreSQL URL, an HTTP or HTTPS URL without credentials, and
  -- three keys of 32 bytes.
  pub config-IsSafe :
      (environment : Environment) (c : TenantValidationWorkerConfig)
      → parse_tenant_validation_worker_config r environment ≡ ok c
      → IsSafe c
  config-IsSafe environment c h = subst (OkHolds IsSafe) h (config-OkHolds environment)
