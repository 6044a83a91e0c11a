-- ===== src/System/Dispatches.antt =====
-- apps/worker/src/tenant-validation-worker.ts and packages/product/src/api-keys.ts: dispatching
-- events and the changes of API keys let the database evolve.
use inbox_saas.Prelude.{
  arith, some, All, ℕ, ◌≡◌, refl, ◌∙◌, inl, inr, Bool, true, false, List, [], ◌∷◌, ◌==◌, leb,
  Bool-cases, if◌then◌else◌,
}
use inbox_saas.Errors.{Error, Result, err, OkHolds, >>=-OkHolds, all-OkHolds}
use inbox_saas.Access.{AccessGrant}
use inbox_saas.Table.{insert_row, update_where}
use inbox_saas.Table.Laws.{is_distinct-update, is_distinct-update_mono, All-update, All-insert}
use inbox_saas.Schema.{
  Characters, ApiKey, OutboxEvent, Database, events_valid, api_keys_valid, api_key_checks,
  same_characters,
}
use inbox_saas.Schema.Statements.{Driver, insert_api_key}
use inbox_saas.Worker.Dispatch.{
  mark_dispatched, mark_one, dispatch_one, dispatch_each, dispatch_pending_events, pending_events,
}
use inbox_saas.ApiKeys.{
  IssueApiKeyInput, IssuedApiKey, Draws, new_api_key, key_grant, issue_api_key, revoke_api_key,
  is_revocable,
}
use inbox_saas.System.Life.{Becomes-refl, Stays-refl}
use inbox_saas.System.Consistency.{
  Evolves, Evolves-refl, Evolves-trans, has_job, IsConsistent, is_key_linked,
}
use inbox_saas.System.Statements.{checked}
use inbox_saas.System.Insertions.{guarded}

mark_one-Evolves : (clock : ℕ) (e : OutboxEvent) (db : Database) → Evolves db (mark_one clock e db)
unfolding events_valid
mark_one-Evolves clock e db =
    let p = λ (x : OutboxEvent). x.id == e.id in
    record {
      jobs = λ i j h. (j, h, Becomes-refl j);
      connections = λ i c h. (c, h, Stays-refl c);
      consistent = λ c. record {
        jobs_hold = c.jobs_hold;
        connections_hold = c.connections_hold;
        records_hold = c.records_hold;
        events_hold =
            is_distinct-update (λ (x : OutboxEvent). x.id) p (mark_dispatched clock)
              db.outbox_events (λ a. refl)
            ∙ c.events_hold;
        keys_hold = c.keys_hold;
        keys_checked = c.keys_checked;
        keys_linked = c.keys_linked;
        connections_linked = c.connections_linked;
        shaped = c.shaped;
        jobs_linked = c.jobs_linked;
        records_linked = c.records_linked;
        records_owned = c.records_owned;
        events_linked =
            All-update (λ (x : OutboxEvent). has_job db x.job_id ≡ true) p (mark_dispatched clock)
              db.outbox_events (λ x s h. h) c.events_linked;
      };
    }

module _ (takes stands : OutboxEvent → Bool) (clock : ℕ → ℕ) where
  dispatch_one-Evolves :
      (e : OutboxEvent) (sent : List ℕ) (db : Database)
      → Evolves db (dispatch_one takes stands clock e (sent, db)).1
  dispatch_one-Evolves e sent db = elim (Bool-cases (takes e)) [
    | inl t ↦ elim (Bool-cases (stands e)) [
      | inl u ↦ rw (t, u) (mark_one-Evolves (clock e.id) e db)
      | inr u ↦ rw (t, u) (Evolves-refl db)
    ]
    | inr t ↦ rw t (Evolves-refl db)
  ]

  dispatch_each-Evolves :
      (es : List OutboxEvent) (sent : List ℕ) (db : Database)
      → Evolves db (dispatch_each takes stands clock es (sent, db)).1
  unfolding dispatch_each
  dispatch_each-Evolves [] sent db = Evolves-refl db
  dispatch_each-Evolves (e ∷ es) sent db =
      let x = dispatch_one takes stands clock e (sent, db) in
      Evolves-trans db x.1 _ (dispatch_one-Evolves e sent db) (dispatch_each-Evolves es x.0 x.1)

  pub dispatch-Evolves :
      (others : Database → Database) (now : ℕ) (db : Database)
      → Evolves (others db) (dispatch_pending_events takes stands clock others now db).1
  unfolding dispatch_pending_events
  dispatch-Evolves others now db = dispatch_each-Evolves (pending_events now db) [] (others db)

-- A new table of keys, and the rows that a change of the keys leaves alone.
keys-Evolves :
    (db : Database) (ks : List ApiKey)
    → (IsConsistent db
        → (api_keys_valid ks ≡ true)
          × All (λ (k : ApiKey). api_key_checks k ≡ true) ks
          × All (λ (k : ApiKey). is_key_linked db k ≡ true) ks)
    → Evolves db (record db { api_keys = ks })
keys-Evolves db ks h = record {
  jobs = λ i j h. (j, h, Becomes-refl j);
  connections = λ i c h. (c, h, Stays-refl c);
  consistent = λ c. record {
    jobs_hold = c.jobs_hold;
    connections_hold = c.connections_hold;
    records_hold = c.records_hold;
    events_hold = c.events_hold;
    keys_hold = (h c).0;
    keys_checked = (h c).1;
    keys_linked = (h c).2;
    connections_linked = c.connections_linked;
    shaped = c.shaped;
    jobs_linked = c.jobs_linked;
    records_linked = c.records_linked;
    records_owned = c.records_owned;
    events_linked = c.events_linked;
  };
}

module _ (i now : ℕ) where
  abbrev revoked : ApiKey → ApiKey
  revoked k = record k { revoked_at = some now }

  -- A revocation leaves the unique columns alone.
  same_columns :
      (b : Bool) (k : ApiKey)
      → ((if b then revoked k else k).id ≡ k.id)
        × ((if b then revoked k else k).prefix ≡ k.prefix)
        × ((if b then revoked k else k).secret_hash ≡ k.secret_hash)
  same_columns true k = (refl, refl, refl)
  same_columns false k = (refl, refl, refl)

  revoked_valid :
      (ks : List ApiKey)
      → api_keys_valid ks ≡ true
      → api_keys_valid (update_where (is_revocable i) revoked ks) ≡ true
  unfolding api_keys_valid
  revoked_valid ks v =
      let p = is_revocable i in
      let ids =
        is_distinct-update_mono (λ (a b : ApiKey). a.id == b.id) p revoked ks
          (λ a b e. cc (e, (same_columns (p a) a).0, (same_columns (p b) b).0)) (ground arith) in
      let prefixes =
        is_distinct-update_mono (λ (a b : ApiKey). same_characters a.prefix b.prefix) p revoked ks
          (λ a b e. cc (e, (same_columns (p a) a).1, (same_columns (p b) b).1)) (ground arith) in
      let hashes =
        is_distinct-update_mono (λ (a b : ApiKey). same_characters a.secret_hash b.secret_hash) p
          revoked ks (λ a b e. cc (e, (same_columns (p a) a).2, (same_columns (p b) b).2))
          (ground arith) in
      rw (ids, prefixes, hashes) refl

  pub revoke-Evolves : (db : Database) → Evolves db (revoke_api_key i now db)
  unfolding revoke_api_key api_key_checks
  revoke-Evolves db = keys-Evolves db _ (λ c. (
    revoked_valid db.api_keys c.keys_hold,
    All-update (λ (k : ApiKey). api_key_checks k ≡ true) (is_revocable i) revoked db.api_keys
        (λ k e h. h) c.keys_checked,
    All-update (λ (k : ApiKey). is_key_linked db k ≡ true) (is_revocable i) revoked db.api_keys
        (λ k e h. h) c.keys_linked,
  ))

-- A call that throws before it starts.
refused :
    {A : Type 0} (P : A → Type 0) (b : Bool) (m : Result A) (e : Error)
    → OkHolds P m
    → OkHolds P (if b then err e else m)
refused P true m e h = tt
refused P false m e h = h

insert_api_key-Evolves :
    (d : Driver) (k : ApiKey) (db : Database) → OkHolds (Evolves db) (insert_api_key d k db)
unfolding insert_api_key
insert_api_key-Evolves d k db = elim (Bool-cases (api_key_checks k)) [
  | inr e ↦ rw (e, insert_api_key) tt
  | inl e ↦
      rw (e, insert_api_key)
        (guarded (Evolves db) (is_key_linked db k) _ d.foreign_key_violation (λ l.
          checked (Evolves db) _ d.unique_violation _ (λ v.
            keys-Evolves db (insert_row k db.api_keys) (λ c. (
              v,
              All-insert _ db.api_keys k c.keys_checked e,
              All-insert _ db.api_keys k c.keys_linked l,
            )))))
]

pub issue-Evolves :
    (hash : Characters → Characters) (d : Driver) (input : IssueApiKeyInput) (now : ℕ)
    (draws : Draws) (db : Database)
    → OkHolds
        (λ (x : IssuedApiKey × Database). Evolves db x.1)
        (issue_api_key hash d input now draws db)
unfolding issue_api_key
issue-Evolves hash d input now draws db =
    let k = new_api_key hash input draws in
    refused (λ (x : IssuedApiKey × Database). Evolves db x.1) (leb input.expires_at now) _ _
      (>>=-OkHolds (Evolves db) _ (insert_api_key d k db) _ (insert_api_key-Evolves d k db)
        (λ db₁ a.
          >>=-OkHolds (λ (g : AccessGrant). Unit {0}) _ (key_grant k) _
            (all-OkHolds (λ (g : AccessGrant). Unit {0}) (key_grant k) (λ g. tt)) (λ g u. a)))
