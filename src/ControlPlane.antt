-- ===== src/ControlPlane.antt =====
-- packages/product/src/control-plane.ts: the grants of a user, and what grants let one see.
pub mod Visibility
use inbox_saas.Prelude.{
  ℕ, Bool, true, false, Option, none, some, List, [], ◌∷◌, map, ◌==◌, not, keep, some_of, String,
  str_eq, if◌then◌else◌,
}
use inbox_saas.Errors.{Result, ok, err, throw, ◌>>=◌}
use inbox_saas.Access.{Permission, read, AccessGrant, is_authorized}
use inbox_saas.Access
use inbox_saas.Schema.{AccessGrantScope, AccessGrantRow, Organization, Workspace, Database}

-- A stored scope with its workspace: `null` is an error under the workspace scope.
unfoldable pub grant_of : AccessGrantScope → Option ℕ → ℕ → Permission → String → Result AccessGrant
grant_of AccessGrantScope.organization w organization_id permission message = ok (record {
  scope = Access.AccessScope.organization;
  organization_id = organization_id;
  permission = permission;
})
grant_of AccessGrantScope.workspace none organization_id permission message = throw message
grant_of AccessGrantScope.workspace (some w) organization_id permission message = ok (record {
  scope = Access.AccessScope.workspace w;
  organization_id = organization_id;
  permission = permission;
})

unfoldable pub to_access_grant : AccessGrantRow → Result AccessGrant
to_access_grant r =
    grant_of r.scope r.workspace_id r.organization_id r.permission
      "Workspace access grants require a workspace"

-- `grants.map(toAccessGrant)`: the first throw ends the map.
unfoldable pub to_access_grants : List AccessGrantRow → Result (List AccessGrant)
to_access_grants [] = ok []
to_access_grants (r ∷ rs) = do g ← to_access_grant r; gs ← to_access_grants rs; ok (g ∷ gs)

unfoldable pub get_user_access_grants : String → Database → Result (List AccessGrant)
get_user_access_grants user_id db =
    to_access_grants (keep (λ (r : AccessGrantRow). str_eq r.user_id user_id) db.access_grants)

-- `[...new Set(xs)]`: the first occurrences, in order.
unfoldable pub distinct_values : List ℕ → List ℕ
distinct_values [] = []
distinct_values (x ∷ xs) = x ∷ keep (λ y. not (y == x)) (distinct_values xs)

pub record OrganizationView : Type 0 where
  pub id : ℕ
  pub name : String

pub record WorkspaceView : Type 0 where
  pub id : ℕ
  pub organization_id : ℕ
  pub name : String

pub record ControlPlaneView : Type 0 where
  pub organizations : List OrganizationView
  pub workspaces : List WorkspaceView

abbrev pub view_organization : Organization → OrganizationView
view_organization o = record { id = o.id; name = o.name }

abbrev pub view_workspace : Workspace → WorkspaceView
view_workspace w = record { id = w.id; organization_id = w.organization_id; name = w.name }

abbrev pub sees_organization : List AccessGrant → Organization → Bool
sees_organization grants o =
    is_authorized grants (record {
      scope = Access.AccessScope.organization;
      organization_id = o.id;
      permission = read;
    })

abbrev pub sees_workspace : List AccessGrant → Workspace → Bool
sees_workspace grants w = is_authorized grants (record {
  scope = Access.AccessScope.workspace w.id;
  organization_id = w.organization_id;
  permission = read;
})

-- `inArray(column, ids)`
abbrev pub in_array : List ℕ → ℕ → Bool
in_array ids i = some_of (λ x. x == i) ids

abbrev pub organization_ids : List AccessGrant → List ℕ
organization_ids grants = distinct_values (map (λ (g : AccessGrant). g.organization_id) grants)

-- The two queries and their filters, for a non-empty list of ids.
abbrev pub query_view : List AccessGrant → List ℕ → Database → ControlPlaneView
query_view grants ids db = record {
  organizations = map view_organization (
      keep (sees_organization grants)
        (keep (λ (o : Organization). in_array ids o.id) db.organizations));
  workspaces = map view_workspace (
      keep (sees_workspace grants)
        (keep (λ (w : Workspace). in_array ids w.organization_id) db.workspaces));
}

unfoldable pub get_accessible_control_plane : List AccessGrant → Database → ControlPlaneView
get_accessible_control_plane grants db = elim (organization_ids grants) [
  | [] ↦ record { organizations = []; workspaces = [] }
  | i ∷ is ↦ query_view grants (i ∷ is) db
]
