-- ===== src/Access.antt =====
-- packages/product/src/access.ts: grants, requests and the authorization test.
pub mod Coverage
use inbox_saas.Prelude.{ℕ, Bool, true, false, List, ◌==◌, if◌then◌else◌, not, ◌&&◌, some_of}

pub data Permission : Type 0 where
  read write : Permission

pub data AccessScope : Type 0 where
  organization : AccessScope
  workspace : (workspace_id : ℕ) → AccessScope

pub record AccessGrant : Type 0 where
  pub scope : AccessScope
  pub organization_id : ℕ
  pub permission : Permission

pub record AccessRequest : Type 0 where
  pub scope : AccessScope
  pub organization_id : ℕ
  pub permission : Permission

-- `permission === "read"`
abbrev pub is_read : Permission → Bool
is_read read = true
is_read write = false

-- The test on scopes: the last two returns of the callback.
abbrev pub scope_covers : AccessScope → AccessScope → Bool
scope_covers organization requested = true
scope_covers (workspace w) organization = false
scope_covers (workspace w) (workspace v) = w == v

-- The callback of `grants.some`.
unfoldable pub grant_allows : AccessRequest → AccessGrant → Bool
grant_allows request grant =
    if not (grant.organization_id == request.organization_id)
    then false
    else (if is_read grant.permission && not (is_read request.permission)
        then false
        else scope_covers grant.scope request.scope)

unfoldable pub is_authorized : List AccessGrant → AccessRequest → Bool
is_authorized grants request = some_of (grant_allows request) grants
