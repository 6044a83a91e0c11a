-- ===== src/Api/Answers.antt =====
-- packages/api/src/v1.ts: what a request may change, and what the job route shows.
use inbox_saas.Prelude.{
  ℕ, ◌≡◌, refl, ap, ◌∙◌, ◌⊎◌, inl, inr, true, Option, none, some, List, [], ◌∷◌, String,
  if◌then◌else◌, Bool-cases, Option-cases,
}
use inbox_saas.Errors.{Result, ok, err, ◌>>=◌}
use inbox_saas.Access.{AccessGrant}
use inbox_saas.Schema.{Characters, Workspace, Job, TenantConnection, Database}
use inbox_saas.ApiKeys.{authenticate_api_key}
use inbox_saas.Validation.Base.{
  Services, Outcome, to_tenant_connection_dto, find_job, find_connection, connection_of,
  get_job_with_tenant,
}
use inbox_saas.Validation.Start.{
  StartInput, StartResult, Fresh, may_write, find_workspace, read_uuid,
}
use inbox_saas.Validation.Start.Created.{start_effect, StartEffect, with_rows}
use inbox_saas.Validation.Lookup.{may_read, show_stored, get_tenant_validation_job}
use inbox_saas.Api.Text.{is_uuid}
use inbox_saas.Api.{
  not_found, shows_job, to_public_job, Route, workspaces, tenant_connections, jobs, ApiRequest,
  token_in, authorize, answered, post_tenant_connection, get_job, serve, guarded, handle,
  lookup_answer,
}

module _ (units : String → Characters) (s : Services) (hash : Characters → Characters)
    (fresh : Fresh) (now clock : ℕ) (others : Database → Database) where
  -- The databases that a request may leave behind: as before, as the other sessions left it, or with
  -- the four rows of a start call for a stored workspace that the grant may write to.
  abbrev pub MayLeave : AccessGrant → Database → Database → Type 0
  MayLeave grant db db' =
      (db' ≡ db)
      ⊎ (db' ≡ others db)
      ⊎ ((input : StartInput) × (w : Workspace) × (may_write (grant ∷ []) w ≡ true)
          × ((i : ℕ) × (find_workspace i db ≡ some w))
          × (db' ≡ with_rows s input fresh clock w (others db)))

  -- What a request may change under the grant of its key, and that without one it changes nothing.
  abbrev pub IsGuarded : ApiRequest → Database → Database → Type 0
  IsGuarded request db db' =
      (db' ≡ db)
      ⊎ ((token : Characters) × (grant : AccessGrant) × (token_in units request.authorization
            ≡ some token)
          × (authenticate_api_key hash token now db ≡ ok (some grant))
          × MayLeave grant db db')

  effect-MayLeave :
      (input : StartInput) (grant : AccessGrant) (db : Database) (r : Result StartResult)
      (db' : Database)
      → StartEffect s input fresh clock others (grant ∷ []) db (r, db')
      → MayLeave grant db db'
  effect-MayLeave input grant db r db' (inl (q, same)) = inl same
  effect-MayLeave input grant db r db' (inr (inl (x, q, same))) = inl same
  effect-MayLeave input grant db r db' (inr (inr (i, w, u, found, allowed, inl (q, same)))) =
      inr (inl same)
  effect-MayLeave input grant db r db' (inr (inr (i, w, u, found, allowed, inr (q, rows)))) =
      inr (inr (input, w, allowed, (i, found), rows))

  started-MayLeave :
      (input : StartInput) (key : String) (grant : AccessGrant) (db : Database)
      (o : Outcome StartResult)
      → StartEffect s input fresh clock others (grant ∷ []) db o
      → MayLeave grant db (answered units key o).1
  started-MayLeave input key grant db (err x, db') e = effect-MayLeave input grant db (err x) db' e
  started-MayLeave input key grant db (ok r, db') e = effect-MayLeave input grant db (ok r) db' e

  posted-MayLeave :
      (grant : AccessGrant) (o : Option StartInput) (db : Database)
      → MayLeave grant db (post_tenant_connection units s hash fresh now clock others grant o db).1
  unfolding post_tenant_connection
  posted-MayLeave grant none db = inl refl
  posted-MayLeave grant (some input) db =
      started-MayLeave input input.idempotency_key grant db _
        (start_effect s input fresh clock others (grant ∷ []) db)

  served-MayLeave :
      (grant : AccessGrant) (route : Route) (db : Database)
      → MayLeave grant db (serve units s hash fresh now clock others grant route db).1
  served-MayLeave grant workspaces db = inl refl
  served-MayLeave grant (tenant_connections w key type body) db = posted-MayLeave grant _ db
  served-MayLeave grant (jobs i) db = inl refl

  guarded-IsGuarded :
      (request : ApiRequest) (db : Database) (r : Result (Option AccessGrant))
      → authorize units hash request.authorization now db ≡ r
      → IsGuarded request db (guarded units s hash fresh now clock others request.route db r).1
  unfolding authorize
  guarded-IsGuarded request db (err e) q = inl refl
  guarded-IsGuarded request db (ok none) q = inl refl
  guarded-IsGuarded request db (ok (some grant)) q =
      elim (Option-cases (token_in units request.authorization)) [
        | inl e ↦ absurd (cc (rw (e, authorize) at q))
        | inr (token, e) ↦
            inr (token, grant, e, rw (e, authorize) at q, served-MayLeave grant request.route db)
      ]

  -- A request without a key that authenticates changes nothing, on every route. With one, a request
  -- leaves the database as it was, or as the other sessions left it, or adds to that the four rows of
  -- one start call for a stored workspace that the key may write to.
  pub handle-IsGuarded :
      (request : ApiRequest) (db : Database)
      → IsGuarded request db (handle units s hash fresh now clock others request db).1
  unfolding handle
  handle-IsGuarded request db = guarded-IsGuarded request db _ refl

  stored_pair :
      (i : ℕ) (db : Database) (j : Job) (c : TenantConnection)
      → find_job i db ≡ some j
      → find_connection j.tenant_connection_id db ≡ some c
      → get_job_with_tenant db i ≡ ok (some (j, c))
  unfolding get_job_with_tenant
  stored_pair i db j c found connected =
      rw (get_job_with_tenant, found, connection_of, connected) refl

  looked_up :
      (grants : List AccessGrant) (job_id : String) (i : ℕ) (db : Database) (j : Job)
      (c : TenantConnection)
      → s.uuid_of job_id ≡ some i
      → get_job_with_tenant db i ≡ ok (some (j, c))
      → get_tenant_validation_job s grants job_id db ≡ ok (show_stored grants (some (j, c)))
  unfolding get_tenant_validation_job
  looked_up grants job_id i db j c named pair =
      let read : read_uuid s job_id ≡ ok i = rw (named, read_uuid) refl in
      ap (λ r. r >>= λ k. get_job_with_tenant db k >>= λ o. ok (show_stored grants o)) read
      ∙ ap (λ r. r >>= λ o. ok (show_stored grants o)) pair

  shown :
      (grants : List AccessGrant) (j : Job) (c : TenantConnection)
      → ok (lookup_answer units (show_stored grants (some (j, c))))
        ≡ ok (
            if may_read grants c
            then shows_job (to_public_job j) (to_tenant_connection_dto c)
            else not_found)
  shown grants j c = elim (Bool-cases (may_read grants c)) [ inl e ↦ rw e refl | inr e ↦ rw e refl ]

  -- A grant that may not read a stored job is answered as one that asks for a job that is not
  -- there, and a job that is shown is shown under read authority, as the stored row is.
  pub get_job_lem :
      (grant : AccessGrant) (job_id : String) (i : ℕ) (db : Database)
      → is_uuid (units job_id) ≡ true
      → s.uuid_of job_id ≡ some i
      → (j : Job) (c : TenantConnection) → find_job i db ≡ some j
      → find_connection j.tenant_connection_id db ≡ some c
      → get_job units s hash fresh now clock others grant job_id db
        ≡ ok (
            if may_read (grant ∷ []) c
            then shows_job (to_public_job j) (to_tenant_connection_dto c)
            else not_found)
  unfolding get_job
  get_job_lem grant job_id i db well named j c found connected =
      let stored =
        looked_up (grant ∷ []) job_id i db j c named (stored_pair i db j c found connected) in
      rw (well, get_job, stored) (shown (grant ∷ []) j c)
