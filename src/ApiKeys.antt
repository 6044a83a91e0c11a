-- ===== src/ApiKeys.antt =====
-- packages/product/src/api-keys.ts: issue, authentication and revocation of API keys.
-- The hash of node:crypto is a parameter, and so are the texts that `randomBytes` gives. Stored
-- hashes are ASCII, so `timingSafeEqual` on texts of one length compares their characters.
pub mod Tokens
pub mod Keys
pub mod Accepted
use inbox_saas.Prelude.{
  ℕ, Bool, true, false, Option, none, some, List, [], ◌∷◌, ◌==◌, ◌&&◌, ◌||◌, not, opt_is, String,
  leb, if◌then◌else◌,
}
use inbox_saas.Errors.{Result, ok, err, throw, ◌>>=◌}
use inbox_saas.Access.{Permission, AccessGrant, AccessScope}
use inbox_saas.Table.{update_where, select_first}
use inbox_saas.Schema.{AccessGrantScope, Characters, ApiKey, Database, same_characters}
use inbox_saas.Schema.Statements.{Driver, insert_api_key}
use inbox_saas.ControlPlane.{grant_of}
use inbox_saas.ApiKeys.Tokens.{token_of, parse_token}

-- `creatorUserId` and `expiresAt` stand beside the grant.
pub record IssueApiKeyInput : Type 0 where
  pub grant : AccessGrant
  pub creator_user_id : String
  pub expires_at : ℕ

pub record IssuedApiKey : Type 0 where
  pub grant : AccessGrant
  pub creator_user_id : String
  pub expires_at : ℕ
  pub id : ℕ
  pub prefix : Characters
  pub token : Characters
  pub created_at : ℕ

-- What the call draws: the two random texts, the row's id, and its time of creation.
pub record Draws : Type 0 where
  pub id : ℕ
  pub prefix : Characters
  pub secret : Characters
  pub created_at : ℕ

abbrev pub stored_scope : AccessScope → AccessGrantScope
stored_scope AccessScope.organization = AccessGrantScope.organization
stored_scope (AccessScope.workspace w) = AccessGrantScope.workspace

-- `input.scope === "workspace" ? input.workspaceId : null`
abbrev pub stored_workspace : AccessScope → Option ℕ
stored_workspace AccessScope.organization = none
stored_workspace (AccessScope.workspace w) = some w

unfoldable pub key_grant : ApiKey → Result AccessGrant
key_grant k =
    grant_of k.scope k.workspace_id k.organization_id k.permission
      "Workspace API keys require a workspace"

abbrev pub is_unrevoked : ApiKey → Bool
is_unrevoked k = elim k.revoked_at [ none ↦ true | some t ↦ false ]

abbrev pub has_prefix : Characters → ApiKey → Bool
has_prefix prefix k = same_characters k.prefix prefix

-- `select().from(apiKey).where(eq(apiKey.prefix, prefix))`, for the match's first group.
abbrev pub key_with : Option Characters → Database → Option ApiKey
key_with none db = none
key_with (some prefix) db = select_first (has_prefix prefix) db.api_keys

abbrev pub key_of : Characters → Database → Option ApiKey
key_of token db = key_with (parse_token token) db

-- `hash` is `hashToken`.
module _ (hash : Characters → Characters) where
  abbrev pub new_api_key : IssueApiKeyInput → Draws → ApiKey
  new_api_key input draws = record {
    id = draws.id;
    prefix = draws.prefix;
    secret_hash = hash (token_of draws.prefix draws.secret);
    creator_user_id = input.creator_user_id;
    organization_id = input.grant.organization_id;
    workspace_id = stored_workspace input.grant.scope;
    permission = input.grant.permission;
    scope = stored_scope input.grant.scope;
    expires_at = input.expires_at;
    revoked_at = none;
    created_at = draws.created_at;
  }

  -- `key` is the row that the insertion returned.
  abbrev pub issued_key : Draws → ApiKey → AccessGrant → IssuedApiKey
  issued_key draws key grant = record {
    grant = grant;
    creator_user_id = key.creator_user_id;
    expires_at = key.expires_at;
    id = key.id;
    prefix = key.prefix;
    token = token_of draws.prefix draws.secret;
    created_at = key.created_at;
  }

  unfoldable pub issue_api_key :
      Driver → IssueApiKeyInput → ℕ → Draws → Database → Result (IssuedApiKey × Database)
  issue_api_key d input now draws db =
      if leb input.expires_at now then throw "API key expiry must be in the future" else do
        stored ← insert_api_key d (new_api_key input draws) db
        grant ← key_grant (new_api_key input draws)
        ok (issued_key draws (new_api_key input draws) grant, stored)

  -- The tests on the selected row.
  abbrev pub accepts : Characters → ℕ → ApiKey → Bool
  accepts token now k =
      same_characters k.secret_hash (hash token) && is_unrevoked k && not (leb k.expires_at now)

  abbrev pub grant_key : Characters → ℕ → Option ApiKey → Result (Option AccessGrant)
  grant_key token now none = ok none
  grant_key token now (some k) =
      if not (accepts token now k) then ok none else do grant ← key_grant k; ok (some grant)

  -- A text that the pattern refuses has no key.
  unfoldable pub authenticate_api_key : Characters → ℕ → Database → Result (Option AccessGrant)
  authenticate_api_key token now db = grant_key token now (key_of token db)

abbrev pub is_revocable : ℕ → ApiKey → Bool
is_revocable i k = k.id == i && is_unrevoked k

unfoldable pub revoke_api_key : ℕ → ℕ → Database → Database
revoke_api_key i now db = record db {
  api_keys =
      update_where (is_revocable i) (λ (k : ApiKey). record k { revoked_at = some now })
        db.api_keys;
}
