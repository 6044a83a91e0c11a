-- ===== src/Validation/Start/Admission.antt =====
-- packages/product/src/tenant-validation.ts, `startTenantValidation`: the checks before its
-- transaction.
use inbox_saas.Prelude.{
  ℕ, ◌≡◌, refl, inl, inr, Bool, true, false, some, List, arith, str_eq, Bool-cases, Option-cases,
}
use inbox_saas.Errors.{ok, ◌>>◌, Result-cases}
use inbox_saas.Access.{AccessGrant}
use inbox_saas.Entitlements.{get_organization_entitlement}
use inbox_saas.Schema.{Workspace, Job, Database}
use inbox_saas.Validation.Base.{Services, TenantConnectionDto}
use inbox_saas.Validation.Start.{
  StartInput, StartResult, accepted, Fresh, find_workspace, may_write, read_uuid,
  assert_start_input, start_in_workspace, entitled_start, start_tenant_validation,
}

module _ (s : Services) (input : StartInput) where
  -- The input is complete, names a stored workspace by a text that PostgreSQL reads as its id, and
  -- the grants hold write authority for that workspace.
  pub record IsAdmitted (grants : List AccessGrant) (w : Workspace) (db : Database) : Type 0 where
    pub workspace_id : ℕ
    pub complete : assert_start_input input ≡ ok tt
    pub named : s.uuid_of input.workspace_id ≡ some workspace_id
    pub found : find_workspace workspace_id db ≡ some w
    pub allowed : may_write grants w ≡ true
    pub owned : str_eq (s.uuid_text w.organization_id) "" ≡ false

  -- Admission rests on the input, the grants and the workspaces alone.
  pub IsAdmitted-workspaces :
      (grants : List AccessGrant) (w : Workspace) (db later : Database)
      → later.workspaces ≡ db.workspaces
      → IsAdmitted grants w db
      → IsAdmitted grants w later
  IsAdmitted-workspaces grants w db later e a = record {
    workspace_id = a.workspace_id;
    complete = a.complete;
    named = a.named;
    found = rw e (a.found);
    allowed = a.allowed;
    owned = a.owned;
  }

  module _ (fresh : Fresh) (clock : ℕ) (others : Database → Database) where
    pub start_admitted :
        (grants : List AccessGrant) (w : Workspace) (db : Database)
        → IsAdmitted grants w db
        → start_tenant_validation s input fresh clock others grants db
          ≡ start_in_workspace s input fresh clock others w db
    unfolding start_tenant_validation get_organization_entitlement
    start_admitted grants w db a =
        rw (a.complete, a.named, a.found, a.allowed, start_tenant_validation)
          (rw (a.owned, entitled_start, get_organization_entitlement) refl)

    named_of :
        (i : ℕ)
        → (assert_start_input input >> read_uuid s input.workspace_id) ≡ ok i
        → (assert_start_input input ≡ ok tt) × (s.uuid_of input.workspace_id ≡ some i)
    named_of i h = ground arith

    owned_of :
        (w : Workspace) (db db' : Database) (r : StartResult)
        → entitled_start s input fresh clock others w db ≡ (ok r, db')
        → (str_eq (s.uuid_text w.organization_id) "" ≡ false)
          × (start_in_workspace s input fresh clock others w db ≡ (ok r, db'))
    unfolding get_organization_entitlement
    owned_of w db db' r e = elim (Bool-cases (str_eq (s.uuid_text w.organization_id) "")) [
      | inl empty ↦ absurd (cc (rw (empty, entitled_start, get_organization_entitlement) at e))
      | inr full ↦ (full, rw (full, entitled_start, get_organization_entitlement) at e)
    ]

    pub accepted-IsAdmitted :
        (grants : List AccessGrant) (db db' : Database) (c : TenantConnectionDto) (j : Job)
        (b : Bool)
        → start_tenant_validation s input fresh clock others grants db ≡ (ok (accepted c j b), db')
        → (w : Workspace) × IsAdmitted grants w db
          × (start_in_workspace s input fresh clock others w db ≡ (ok (accepted c j b), db'))
    unfolding start_tenant_validation
    accepted-IsAdmitted grants db db' c j b e =
        elim (Result-cases (assert_start_input input >> read_uuid s input.workspace_id)) [
          | inr (x, h) ↦ absurd (cc (rw (h, start_tenant_validation) at e))
          | inl (i, h) ↦ elim (Option-cases (find_workspace i db)) [
            | inl gone ↦ absurd (cc (rw (h, gone, start_tenant_validation) at e))
            | inr (w, found) ↦ elim (Bool-cases (may_write grants w)) [
              | inr refused ↦ absurd (cc (rw (h, found, refused, start_tenant_validation) at e))
              | inl allowed ↦
                  let (owned, started) =
                    owned_of w db db' (accepted c j b)
                      (rw (h, found, allowed, start_tenant_validation) at e) in
                  let (complete, named) = named_of i h in
                  (
                    w,
                    record {
                      workspace_id = i;
                      complete = complete;
                      named = named;
                      found = found;
                      allowed = allowed;
                      owned = owned;
                    },
                    started,
                  )
            ]
          ]
        ]
