-- ===== src/ApiKeys/Keys.antt =====
-- packages/product/src/api-keys.ts: what an issued token opens, and what a revocation closes.
use mathlib.Core.Option
use inbox_saas.Prelude.{
  ℕ, ◌≡◌, refl, ap, ◌∙◌, inl, inr, Bool, true, false, Option, none, some, [], ◌∷◌, arith, ◌==◌,
  String, leb, if◌then◌else◌, Bool-cases,
}
use inbox_saas.Errors.{ok, Result-cases}
use inbox_saas.Access.{AccessScope, Permission}
use inbox_saas.Table.{select_first, insert_row, is_distinct}
use inbox_saas.Table.Laws.{inserted_first, select_first-update}
use inbox_saas.Schema.{Characters, ApiKey, Database, same_characters, api_keys_valid}
use inbox_saas.Schema.Statements.{Driver, insert_api_key}
use inbox_saas.ControlPlane.{grant_of}
use inbox_saas.ApiKeys.Tokens.{token_of, parse_token, IsWord, parse_token-token_of}
use inbox_saas.ApiKeys.{
  IssueApiKeyInput, IssuedApiKey, Draws, key_grant, new_api_key, issued_key, issue_api_key,
  grant_key, has_prefix, key_with, key_of, authenticate_api_key, is_revocable, revoke_api_key,
  stored_scope, stored_workspace,
}

same_characters_refl : (t : Characters) → same_characters t t ≡ true
same_characters_refl [] = refl
same_characters_refl (c ∷ cs) = ground (arith, same_characters_refl cs)

pub same_characters_sound : (t u : Characters) → same_characters t u ≡ true → t ≡ u
same_characters_sound [] [] h = refl
same_characters_sound [] (d ∷ ds) h = absurd (cc h)
same_characters_sound (c ∷ cs) [] h = absurd (cc h)
same_characters_sound (c ∷ cs) (d ∷ ds) h = ground (arith, same_characters_sound cs ds)

abbrev is_id : ℕ → Option ApiKey → Bool
is_id i none = false
is_id i (some k) = k.id == i

abbrev pub owns : ℕ → Characters → Database → Bool
owns i token db = is_id i (key_of token db)

module _ (hash : Characters → Characters) where
  grant_new :
      (scope : AccessScope) (organization_id : ℕ) (permission : Permission) (message : String)
      → grant_of (stored_scope scope) (stored_workspace scope) organization_id permission message
        ≡ ok (record { scope = scope; organization_id = organization_id; permission = permission })
  unfolding grant_of
  grant_new AccessScope.organization o p m = refl
  grant_new (AccessScope.workspace w) o p m = refl

  new_key-grant :
      (input : IssueApiKeyInput) (draws : Draws)
      → key_grant (new_api_key hash input draws) ≡ ok input.grant
  unfolding key_grant
  new_key-grant input draws =
      grant_new input.grant.scope input.grant.organization_id input.grant.permission _

  -- A stored key is the first with its prefix.
  inserted :
      (d : Driver) (k : ApiKey) (db : Database) {db₁ : Database}
      → insert_api_key d k db ≡ ok db₁
      → select_first (has_prefix k.prefix) db₁.api_keys ≡ some k
  unfolding insert_api_key api_keys_valid
  inserted d k db {db₁} h =
      let stored : db₁.api_keys ≡ insert_row k db.api_keys = ground arith in
      let valid : is_distinct (λ (a b : ApiKey). same_characters a.prefix b.prefix)
            (insert_row k db.api_keys)
          ≡ true =
        ground arith in
      ap (select_first (has_prefix k.prefix)) stored
      ∙ inserted_first (has_prefix k.prefix) (λ a b. same_characters a.prefix b.prefix) db.api_keys
          k (λ x. refl) (same_characters_refl k.prefix) valid

  abbrev set_revoked : ℕ → ℕ → ApiKey → ApiKey
  set_revoked i now k = if is_revocable i k then record k { revoked_at = some now } else k

  revoked_grant :
      (i now : ℕ) (token : Characters) (later : ℕ) (o : Option ApiKey)
      → grant_key hash token later (Option.map (set_revoked i now) o)
        ≡ (if is_id i o then ok none else grant_key hash token later o)
  revoked_grant i now token later none = refl
  revoked_grant i now token later (some k) = ground (arith, same_characters_refl k.prefix)

  revoked_key :
      (i now : ℕ) (o : Option Characters) (db : Database)
      → key_with o (revoke_api_key i now db) ≡ Option.map (set_revoked i now) (key_with o db)
  unfolding revoke_api_key
  revoked_key i now none db = refl
  revoked_key i now (some prefix) db =
      select_first-update (has_prefix prefix) (is_revocable i) _ db.api_keys (λ k. refl)

  -- Whether or not the token's key is revoked already: a revocation shuts out every token of its
  -- key, at every time, and leaves each other token with the answer that it had.
  pub revoke_api_key_lem :
      (i now : ℕ) (token : Characters) (later : ℕ) (db : Database)
      → authenticate_api_key hash token later (revoke_api_key i now db)
        ≡ (if owns i token db then ok none else authenticate_api_key hash token later db)
  unfolding authenticate_api_key
  revoke_api_key_lem i now token later db =
      ap (grant_key hash token later) (revoked_key i now (parse_token token) db)
      ∙ revoked_grant i now token later (key_of token db)

  issued_row :
      (d : Driver) (input : IssueApiKeyInput) (now : ℕ) (draws : Draws) (db : Database)
      {issued : IssuedApiKey} {stored : Database}
      → issue_api_key hash d input now draws db ≡ ok (issued, stored)
      → (insert_api_key d (new_api_key hash input draws) db ≡ ok stored)
        × (issued.token ≡ token_of draws.prefix draws.secret)
  unfolding issue_api_key
  issued_row d input now draws db {issued} {stored} h =
      elim (Bool-cases (leb input.expires_at now)) [
        | inl e ↦ absurd (cc (rw e at h))
        | inr e ↦ elim (Result-cases (insert_api_key d (new_api_key hash input draws) db)) [
          | inl (db₁, q) ↦
              let result : ok
                    (issued_key hash draws (new_api_key hash input draws) input.grant, db₁)
                  ≡ ok (issued, stored) =
                rw (e, q, new_key-grant input draws) at h in
              (q ∙ ap ok (cc result), cc result)
          | inr (t, q) ↦ absurd (cc (rw (e, q) at h))
        ]
      ]

  new_key_opens :
      (input : IssueApiKeyInput) (draws : Draws) (later : ℕ)
      → grant_key hash
          (token_of draws.prefix draws.secret)
          later
          (some (new_api_key hash input draws))
        ≡ ok (if leb input.expires_at later then none else some input.grant)
  new_key_opens input draws later =
      rw
        (
          same_characters_refl (hash (token_of draws.prefix draws.secret)),
          new_key-grant input draws,
        )
        (ground arith)

  -- The token of a call that succeeded opens the grant that was asked for until it expires, and
  -- nothing from then on.
  pub issue-authenticate :
      (d : Driver) (input : IssueApiKeyInput) (now : ℕ) (draws : Draws) (db : Database)
      {issued : IssuedApiKey} {stored : Database}
      → IsWord 32 draws.prefix
      → IsWord 43 draws.secret
      → issue_api_key hash d input now draws db ≡ ok (issued, stored)
      → (later : ℕ)
      → authenticate_api_key hash issued.token later stored
        ≡ ok (if leb input.expires_at later then none else some input.grant)
  unfolding authenticate_api_key
  issue-authenticate d input now draws db {issued} {stored} w v h later =
      let (row, text) = issued_row d input now draws db h in
      let key = new_api_key hash input draws in
      let found : key_of issued.token stored ≡ some key =
        ap (λ t. key_of t stored) text
        ∙ ap (λ o. key_with o stored) (parse_token-token_of draws.prefix draws.secret w v)
        ∙ inserted d key db row in
      ap (λ t. grant_key hash t later (key_of issued.token stored)) text
      ∙ ap (grant_key hash (token_of draws.prefix draws.secret) later) found
      ∙ new_key_opens input draws later
