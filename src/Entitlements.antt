-- ===== src/Entitlements.antt =====
-- packages/product/src/entitlements.ts. An organization id read from the database is a uuid, whose
-- text is never empty, so the guard on an empty id is about the text given.
use inbox_saas.Prelude.{Bool, true, String, str_eq, if◌then◌else◌}
use inbox_saas.Errors.{Result, ok, throw}

pub data EntitlementLimit : Type 0 where
  unlimited : EntitlementLimit

pub record OrganizationEntitlement : Type 0 where
  pub organization_id : String
  pub entitled : Bool
  pub limit : EntitlementLimit

unfoldable pub get_organization_entitlement : String → Result OrganizationEntitlement
get_organization_entitlement organization_id =
    if str_eq organization_id ""
    then throw "Organization ID is required"
    else ok (record { organization_id = organization_id; entitled = true; limit = unlimited })
