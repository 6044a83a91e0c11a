-- ===== src/Tests/Opening.antt =====
-- Examples of API keys and of what a user is shown.
use inbox_saas.Prelude.{
  ℕ, zero, suc, ◌≡◌, ◌↔◌, refl, ap, none, some, [], ◌∷◌, map, keep, if◌then◌else◌, leb,
}
use inbox_saas.Errors.{ok}
use inbox_saas.Access.{read, workspace}
use inbox_saas.Schema.{Characters, Database, api_keys_valid, api_key_checks}
use inbox_saas.Schema.Statements.{insert_api_key}
use inbox_saas.Table.{is_distinct, select_first}
use inbox_saas.ControlPlane.{
  grant_of, view_organization, view_workspace, sees_organization, sees_workspace,
  get_accessible_control_plane,
}
use inbox_saas.ControlPlane.Visibility.{get_accessible_control_plane_lem}
use inbox_saas.ApiKeys.Tokens.{
  is_word, literal, word_group, parse_token, token_of, IsWord, parse_token_iff,
}
use inbox_saas.ApiKeys.Keys.{owns, revoke_api_key_lem, issue-authenticate}
use inbox_saas.ApiKeys.Accepted.{IsBacked, authenticate-IsBacked}
use inbox_saas.ApiKeys.{
  IssueApiKeyInput, IssuedApiKey, Draws, key_grant, new_api_key, issue_api_key,
  authenticate_api_key, revoke_api_key,
}
use inbox_saas.Tests.Fixtures.{driver, empty_database, grants}

abbrev pub letters : ℕ → Characters
letters zero = []
letters (suc n) = 97 ∷ letters n

letters-IsWord : (n : ℕ) → IsWord n (letters n)
unfolding is_word
letters-IsWord zero = record { long = refl; words = tt }
letters-IsWord (suc n) = record {
  long = ap suc (letters-IsWord n).long;
  words = (refl, (letters-IsWord n).words);
}

abbrev pub hash : Characters → Characters
hash t = 49 ∷ t

abbrev key_input : IssueApiKeyInput
key_input = record {
  grant = record { scope = workspace 20; organization_id = 10; permission = read };
  creator_user_id = "user-1";
  expires_at = 1000;
}

abbrev key_draws : Draws
key_draws = record { id = 70; prefix = letters 32; secret = letters 43; created_at = 100 }

abbrev pub token : Characters
token = token_of (letters 32) (letters 43)

abbrev pub keyed : Database
keyed = record empty_database { api_keys = new_api_key hash key_input key_draws ∷ [] }

abbrev issued : IssuedApiKey
issued = record {
  grant = key_input.grant;
  creator_user_id = "user-1";
  expires_at = 1000;
  id = 70;
  prefix = letters 32;
  token = token;
  created_at = 100;
}

opening : Unit {0}
unfolding issue_api_key insert_api_key api_keys_valid api_key_checks is_distinct key_grant grant_of
    authenticate_api_key parse_token literal word_group is_word select_first
opening = tt

issued_test : issue_api_key hash driver key_input 99 key_draws empty_database ≡ ok (issued, keyed)
unfolding opening
issued_test = refl

opened_test : authenticate_api_key hash token 500 keyed ≡ ok (some key_input.grant)
unfolding opening
opened_test = refl

issue-authenticate_example :
    authenticate_api_key hash token 500 keyed
    ≡ ok (if leb 1000 500 then none else some key_input.grant)
issue-authenticate_example =
    issue-authenticate hash driver key_input 99 key_draws empty_database {issued = issued}
      {stored = keyed} (letters-IsWord 32) (letters-IsWord 43) issued_test 500

revoke_api_key_example :
    authenticate_api_key hash token 500 (revoke_api_key 70 200 keyed)
    ≡ (if owns 70 token keyed then ok none else authenticate_api_key hash token 500 keyed)
revoke_api_key_example = revoke_api_key_lem hash 70 200 token 500 keyed

parse_token_iff_example : (parse_token token ≡ some (letters 32)) ↔ (
    (secret : Characters) × IsWord 32 (letters 32)
    × IsWord 43 secret
    × (token ≡ token_of (letters 32) secret))
parse_token_iff_example = parse_token_iff token (letters 32)

authenticate-IsBacked_example : IsBacked hash token 500 keyed key_input.grant
authenticate-IsBacked_example =
    authenticate-IsBacked hash token 500 keyed {grant = key_input.grant} opened_test

get_accessible_control_plane_example : get_accessible_control_plane grants empty_database ≡ record {
  organizations =
      map view_organization (keep (sees_organization grants) empty_database.organizations);
  workspaces = map view_workspace (keep (sees_workspace grants) empty_database.workspaces);
}
get_accessible_control_plane_example = get_accessible_control_plane_lem grants empty_database
