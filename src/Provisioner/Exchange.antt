-- ===== src/Provisioner/Exchange.antt =====
-- apps/worker/src/provisioner-client.ts: the one request of a call, and its answer.
use inbox_saas.Prelude.{
  ℕ, ◌≡◌, ◌≤◌, ◌↔◌, refl, ap, subst, ◌∙◌, Bool, true, false, Option, none, some, [], ◌∷◌, ◌/◌, ◌==◌,
  not, length, String, arith, if◌then◌else◌,
}
use inbox_saas.Errors.{Error, Result, ok, err, throw_if, OkHolds, >>=-OkHolds, all-OkHolds, ◌>>◌}
use inbox_saas.Schema.{Bytes, Characters}
use inbox_saas.Contract.{TenantValidationRequest, TenantValidationResult}
use inbox_saas.Provisioner.Decimal.{decimal, decimal-cons}
use inbox_saas.Provisioner.{
  Transport, HttpTenantValidationProvisioner, Post, Response, canonical_request,
  sign_provisioner_request, envelope_of, encrypt_provisioner_request,
  create_tenant_validation_endpoint, create_provisioner, is_ok, parsed, received, prepare,
  validate_tenant,
}

-- A response that carries a result.
abbrev pub IsAnswer : TenantValidationResult → Option Response → Type 0
IsAnswer result o =
    (response : Response) × (o ≡ some response)
    × (200 ≤ response.status)
    × (response.status ≤ 299)
    × (response.json ≡ some (some result))

guard-OkHolds :
    {A : Type 0} (P : A → Type 0) (b : Bool) (message : String) (m : Result A)
    → (b ≡ true → OkHolds P m)
    → OkHolds P (throw_if (not b) message >> m)
guard-OkHolds P true message m h = h refl
guard-OkHolds P false message m h = tt

module _ (t : Transport) where
  -- The clients that the constructor makes.
  abbrev IsKeyed : HttpTenantValidationProvisioner → Type 0
  IsKeyed c = (length c.service_secret ≡ 32) × (length c.transport_encryption_key ≡ 32)

  created-IsKeyed :
      (base_url : String) (secret key : Bytes)
      → OkHolds IsKeyed (create_provisioner t base_url secret key)
  unfolding create_provisioner
  created-IsKeyed base_url secret key =
      guard-OkHolds IsKeyed (length secret == 32) "Provisioner service secret must be 32 bytes" _
        (λ a.
          guard-OkHolds IsKeyed (length key == 32)
            "Provisioner transport encryption key must be 32 bytes" _
            (λ b.
              >>=-OkHolds (λ (e : String). Unit {0}) IsKeyed
                (create_tenant_validation_endpoint t base_url) _
                (all-OkHolds (λ e. Unit {0}) (create_tenant_validation_endpoint t base_url)
                  (λ e. tt))
                (λ e u. (ground arith, ground arith))))

  parsed_iff :
      (json : Option (Option TenantValidationResult)) (result : TenantValidationResult)
      → parsed t json ≡ ok result
      → json ≡ some (some result)
  parsed_iff none result e = absurd (cc e)
  parsed_iff (some none) result e = absurd (cc e)
  parsed_iff (some (some r)) result e = let same : r ≡ result = cc e in ap (λ x. some (some x)) same

  unrefused :
      (b : Bool) (e : Error) (m : Result TenantValidationResult) (result : TenantValidationResult)
      → (if not b then err e else m) ≡ ok result
      → (b ≡ true) × (m ≡ ok result)
  unrefused true e m result h = (refl, h)
  unrefused false e m result h = absurd (cc h)

  received-IsAnswer :
      (o : Option Response) (result : TenantValidationResult)
      → (received t o ≡ ok result) ↔ IsAnswer result o
  received-IsAnswer none result = (λ e. absurd (cc e), λ a. absurd (cc (a.1)))
  received-IsAnswer (some r) result = (
    λ e.
        let (good, found) = unrefused (is_ok r.status) _ (parsed t r.json) result e in
        (r, refl, ground (arith, good), ground (arith, good), parsed_iff r.json result found),
    λ a.
        let (x, is, low, high, json) = a in
        let same : r ≡ x = cc is in
        let good : is_ok r.status ≡ true = ground (arith, same, low, high) in
        let found : r.json ≡ some (some result) = ap (λ (y : Response). y.json) same ∙ json in
        rw (good, found) refl,
  )

  module _ (c : HttpTenantValidationProvisioner) (iv : Bytes) (clock : ℕ) (nonce : Characters) where
    abbrev pub body_of : TenantValidationRequest → Characters
    body_of request = t.print_envelope (envelope_of t c.transport_encryption_key iv request)

    -- What the call of a constructed client posts.
    abbrev pub post_of : TenantValidationRequest → Post
    post_of request = record {
      endpoint = c.endpoint;
      timestamp = decimal (clock / 1000);
      nonce = nonce;
      signature =
          t.hmac c.service_secret
            (canonical_request (decimal (clock / 1000)) nonce (t.sha256 (body_of request)));
      body = body_of request;
    }

    module _ (base_url : String) (secret key : Bytes)
        (made : create_provisioner t base_url secret key ≡ ok c) (n : ℕ) (ns : Characters)
        (given : nonce ≡ n ∷ ns)
        (printed : (request : TenantValidationRequest)
          → (b : ℕ) × (bs : Characters) × (body_of request ≡ b ∷ bs)) where
      keyed : IsKeyed c
      keyed = subst (OkHolds IsKeyed) made (created-IsKeyed base_url secret key)

      signs :
          (request : TenantValidationRequest) (timestamp : ℕ)
          → sign_provisioner_request t c.service_secret (decimal timestamp) nonce (body_of request)
            ≡ ok (
                t.hmac c.service_secret
                  (canonical_request (decimal timestamp) nonce (t.sha256 (body_of request))))
      unfolding sign_provisioner_request
      signs request timestamp =
          let (d, ds, digits) = decimal-cons timestamp in
          let (b, bs, body) = printed request in
          rw (sign_provisioner_request, keyed.0, digits, given, body) refl

      prepares :
          (request : TenantValidationRequest)
          → prepare t c iv clock nonce request ≡ ok (post_of request)
      unfolding prepare encrypt_provisioner_request
      prepares request =
          rw (prepare, encrypt_provisioner_request, keyed.1, signs request (clock / 1000)) refl

      -- A call of a client that the constructor made, with a nonce and a body that are not empty,
      -- posts one request, to the client's endpoint, signed under its secret over the second, the
      -- nonce and the hash of the very body that goes out; and it returns a result exactly if the
      -- response has a status from 200 to 299 and that result as its body.
      pub validate_tenant_lem :
          (fetch : Post → Option Response) (request : TenantValidationRequest)
          → ((validate_tenant t c iv clock nonce fetch request).0 ≡ post_of request ∷ [])
            × ((result : TenantValidationResult)
                → ((validate_tenant t c iv clock nonce fetch request).1 ≡ ok result)
                  ↔ IsAnswer result (fetch (post_of request)))
      unfolding validate_tenant
      validate_tenant_lem fetch request =
          rw (validate_tenant, prepares request)
            (refl, λ result. received-IsAnswer (fetch (post_of request)) result)
