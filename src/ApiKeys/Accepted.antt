-- ===== src/ApiKeys/Accepted.antt =====
-- packages/product/src/api-keys.ts, `authenticateApiKey`: what it takes to be accepted.
use inbox_saas.Prelude.{
  ℕ, ◌<◌, ◌≡◌, ap, sym, ◌∙◌, inl, inr, true, none, some, arith, Bool-cases, Option-cases,
}
use inbox_saas.Errors.{ok, Result-cases}
use inbox_saas.Access.{AccessGrant}
use inbox_saas.Schema.{Characters, ApiKey, Database, same_characters}
use inbox_saas.ApiKeys.Tokens.{token_of, parse_token, IsWord, parse_token_iff}
use inbox_saas.ApiKeys.Keys.{same_characters_sound}
use inbox_saas.ApiKeys.{key_grant, accepts, key_with, grant_key, authenticate_api_key}

-- The texts and the stored row behind an accepted token.
pub record IsBacked (hash : Characters → Characters) (token : Characters) (now : ℕ) (db : Database)
    (grant : AccessGrant) : Type 0 where
  pub prefix : Characters
  pub secret : Characters
  pub key : ApiKey
  pub prefix_long : IsWord 32 prefix
  pub secret_long : IsWord 43 secret
  pub text : token ≡ token_of prefix secret
  pub stored : key_with (some prefix) db ≡ some key
  pub hashed : key.secret_hash ≡ hash token
  pub unrevoked : key.revoked_at ≡ none
  pub unexpired : now < key.expires_at
  pub granted : key_grant key ≡ ok grant

record IsAccepted (hash : Characters → Characters) (token : Characters) (now : ℕ) (k : ApiKey)
    (grant : AccessGrant) : Type 0 where
  hashed : same_characters k.secret_hash (hash token) ≡ true
  unrevoked : k.revoked_at ≡ none
  unexpired : now < k.expires_at
  granted : key_grant k ≡ ok grant

grant_key-IsAccepted :
    (hash : Characters → Characters) (token : Characters) (now : ℕ) (k : ApiKey)
    {grant : AccessGrant}
    → grant_key hash token now (some k) ≡ ok (some grant)
    → IsAccepted hash token now k grant
grant_key-IsAccepted hash token now k {grant} h = elim (Bool-cases (accepts hash token now k)) [
  | inl e ↦ elim (Result-cases (key_grant k)) [
    | inl (g, q) ↦
        let same : ok (some g) ≡ ok (some grant) = rw (e, q) at h in
        record {
          hashed = ground arith;
          unrevoked = ground arith;
          unexpired = ground arith;
          granted = q ∙ ground arith;
        }
    | inr (t, q) ↦ absurd (cc (rw (e, q) at h))
  ]
  | inr e ↦ absurd (cc (rw e at h))
]

-- A token is accepted only if it has the printed form, the first row with its prefix holds the hash
-- of the whole token, and that key is neither revoked nor expired; the grant is the key's.
pub authenticate-IsBacked :
    (hash : Characters → Characters) (token : Characters) (now : ℕ) (db : Database)
    {grant : AccessGrant}
    → authenticate_api_key hash token now db ≡ ok (some grant)
    → IsBacked hash token now db grant
unfolding authenticate_api_key
authenticate-IsBacked hash token now db {grant} h = elim (Option-cases (parse_token token)) [
  | inl e ↦ absurd (cc (ap (λ o. grant_key hash token now (key_with o db)) (sym e) ∙ h))
  | inr (prefix, e) ↦ elim (Option-cases (key_with (some prefix) db)) [
    | inl q ↦ absurd (
        cc (
          ap (grant_key hash token now) (sym q)
          ∙ ap (λ o. grant_key hash token now (key_with o db)) (sym e)
          ∙ h))
    | inr (k, q) ↦
        let a = grant_key-IsAccepted hash token now k {grant = grant} (
          ap (grant_key hash token now) (sym q)
          ∙ ap (λ o. grant_key hash token now (key_with o db)) (sym e)
          ∙ h) in
        let (secret, w, v, t) = (parse_token_iff token prefix).0 e in
        record {
          prefix = prefix;
          secret = secret;
          key = k;
          prefix_long = w;
          secret_long = v;
          text = t;
          stored = q;
          hashed = same_characters_sound k.secret_hash (hash token) a.hashed;
          unrevoked = a.unrevoked;
          unexpired = a.unexpired;
          granted = a.granted;
        }
  ]
]
