-- ===== src/Validation/Start/Conflict.antt =====
-- packages/product/src/tenant-validation.ts, `startTenantValidation`: a key that has been used for
-- other credentials.
use inbox_saas.Prelude.{
  ℕ, ◌≡◌, refl, sym, ◌∙◌, ◌≢◌, inl, inr, Bool, true, false, String, arith, str_eq_iff, Bool-cases,
  List,
}
use inbox_saas.Errors.{ok}
use inbox_saas.Access.{AccessGrant}
use inbox_saas.Credentials.{TenantCredentials}
use inbox_saas.Schema.{Job, IdempotencyRecord, Database}
use inbox_saas.Validation.Base.{Services, TenantConnectionDto}
use inbox_saas.Validation.Start.{
  StartInput, idempotency_conflict, accepted, Fresh, same_request, fingerprint_of,
  assert_start_input, reuse, start_in_workspace, start_tenant_validation,
}
use inbox_saas.Validation.Start.Admission.{
  IsAdmitted, IsAdmitted-workspaces, accepted-IsAdmitted, start_admitted,
}
use inbox_saas.Validation.Start.Replay.{KeepsRecords, accepted-IsStored}

not_same :
    (r : IdempotencyRecord) (a b : String)
    → same_request r a ≡ true
    → b ≢ a
    → same_request r b ≡ false
not_same r a b h other = elim (Bool-cases (same_request r b)) [
  | inr e ↦ e
  | inl e ↦ absurd (
      other (
        sym ((str_eq_iff r.payload_fingerprint b).0 (ground arith))
        ∙ (str_eq_iff r.payload_fingerprint a).0 (ground arith)))
]

abbrev pub with_credentials : TenantCredentials → StartInput → StartInput
with_credentials credentials input = record input { credentials = credentials }

-- A key belongs to the request that it was accepted for: after an accepted call, a call under the
-- same grants with the same key for the same workspace, but with other credentials, is refused as
-- `idempotency_conflict`, and changes nothing beyond what other sessions do meanwhile. The other
-- credentials are complete and have another fingerprint, and other sessions keep the workspaces and
-- the idempotency records during the first call.
pub start_conflict :
    (s : Services) (input : StartInput) (credentials : TenantCredentials) (fresh fresh' : Fresh)
    (clock clock' : ℕ) (others others' : Database → Database) (grants : List AccessGrant)
    (db db' : Database) (c : TenantConnectionDto) (j : Job) (b : Bool)
    → KeepsRecords others db
    → start_tenant_validation s input fresh clock others grants db ≡ (ok (accepted c j b), db')
    → assert_start_input (with_credentials credentials input) ≡ ok tt
    → fingerprint_of s (with_credentials credentials input) ≢ fingerprint_of s input
    → start_tenant_validation s
        (with_credentials credentials input)
        fresh'
        clock'
        others'
        grants
        db'
      ≡ (ok idempotency_conflict, others' db')
unfolding start_in_workspace reuse
start_conflict s input credentials fresh fresh' clock clock' others others' grants db db' c j b
      keeps e complete other =
    let (w, admitted, started) =
      accepted-IsAdmitted s input fresh clock others grants db db' c j b e in
    let (k, same) =
      accepted-IsStored s input fresh clock others w db db' c j b
        (keeps.records w.organization_id input.idempotency_key) started in
    let a = IsAdmitted-workspaces s input grants w db db' (same ∙ keeps.workspaces) admitted in
    let again : IsAdmitted s (with_credentials credentials input) grants w db' = record {
      workspace_id = a.workspace_id;
      complete = complete;
      named = a.named;
      found = a.found;
      allowed = a.allowed;
      owned = a.owned;
    } in
    start_admitted s (with_credentials credentials input) fresh' clock' others' grants w db' again
    ∙ rw
        (
          k.by_key,
          start_in_workspace,
          not_same k.stored (fingerprint_of s input)
              (fingerprint_of s (with_credentials credentials input)) k.same other,
          reuse,
        )
        refl
