-- ===== src/System/Statements.antt =====
-- packages/product/src/tenant-validation.ts: each of its statements lets the database evolve.
use mathlib.Core.Option
use inbox_saas.Prelude.{
  ℕ, ◌≡◌, refl, ap, ◌∙◌, inl, inr, Bool, true, false, some, ◌==◌, Bool-cases, if◌then◌else◌,
  some_of,
}
use inbox_saas.Errors.{Error, ok, err, OkHolds}
use inbox_saas.Table.{update_where}
use inbox_saas.Table.Laws.{select_first-update, All-update}
use inbox_saas.Table.Links.{some_of-update_same}
use inbox_saas.Schema.{Job, TenantConnection, Database, jobs_valid}
use inbox_saas.Schema.Statements.{has_workspace, Driver, store_jobs, store_connections}
use inbox_saas.Validation.Base.{find_job}
use inbox_saas.Validation.Jobs.{IsMove, move-find_job}
use inbox_saas.System.Life.{
  path-attempts, path_counted, ◌⟶*◌, IsShaped, Becomes, Becomes-refl, Stays, Stays-refl,
}
use inbox_saas.System.Consistency.{
  IsConsistent, Evolves, has_connection, with_jobs-IsConsistent, with_connections-IsConsistent,
}

-- An update of job rows that the diagram allows.
pub record IsLifeStep (i : ℕ) (p : Job → Bool) (f : Job → Job) : Type 0 where
  pub move : IsMove i p f
  pub becomes : (j : Job) → p j ≡ true → Becomes j (f j)
  pub shaped : (j : Job) → p j ≡ true → IsShaped j → IsShaped (f j)

-- The moves of an open row are life steps, if they follow the diagram and keep the shape.
pub move-IsLifeStep :
    (i : ℕ) (p : Job → Bool) (f : Job → Job)
    → IsMove i p f
    → ((j : Job)
        → p j ≡ true
        → ((j.state, j.attempt_count) ⟶* ((f j).state, (f j).attempt_count))
          × ((f j).created_at ≡ j.created_at)
          × IsShaped (f j))
    → IsLifeStep i p f
move-IsLifeStep i p f m h = record {
  move = m;
  becomes = λ j e. record {
    path = (h j e).0;
    attempts = path-attempts (h j e).0;
    counted = path_counted (h j e).0;
    id = m.id j;
    connection = m.connection j;
    created = (h j e).1;
    frozen = λ t. absurd (false≢true t (m.open_before j e));
  };
  shaped = λ j e s. (h j e).2;
}
  where
    false≢true : {b : Bool} → b ≡ false → b ≡ true → ⊥
    false≢true x y = cc (x, y)

module _ {i : ℕ} {p : Job → Bool} {f : Job → Job} (m : IsLifeStep i p f) (db : Database) where
  abbrev updated : Database
  updated = record db { jobs = update_where p f db.jobs }

  set_Becomes : (j : Job) → Becomes j (if p j then f j else j)
  set_Becomes j = elim (Bool-cases (p j)) [
    | inl e ↦ rw e (m.becomes j e)
    | inr e ↦ rw e (Becomes-refl j)
  ]

  moved :
      (k : ℕ) (j : Job)
      → find_job k db ≡ some j
      → (j' : Job) × (find_job k updated ≡ some j') × Becomes j j'
  moved k j h = (
    if p j then f j else j,
    move-find_job m.move k db ∙ ap (Option.map (λ (x : Job). if p x then f x else x)) h,
    set_Becomes j,
  )

  updated-IsConsistent :
      jobs_valid (update_where p f db.jobs) ≡ true → IsConsistent db → IsConsistent updated
  updated-IsConsistent v c =
      with_jobs-IsConsistent db (update_where p f db.jobs) v
        (All-update IsShaped p f db.jobs m.shaped c.shaped)
        (All-update _ p f db.jobs (λ j e l. ap (has_connection db) (m.move.connection j) ∙ l)
          c.jobs_linked)
        (λ k h.
          some_of-update_same (λ (j : Job). j.id == k) p f db.jobs
            (λ j. ap (λ x. x == k) (m.move.id j))
          ∙ h)
        c

  updated-Evolves : jobs_valid (update_where p f db.jobs) ≡ true → Evolves db updated
  updated-Evolves v = record {
    jobs = moved;
    connections = λ k c h. (c, h, Stays-refl c);
    consistent = updated-IsConsistent v;
  }

-- A checked write: if it goes through, the check holds.
pub checked :
    (P : Database → Type 0) (b : Bool) (e : Error) (db : Database)
    → (b ≡ true → P db)
    → OkHolds P (if b then ok db else err e)
checked P true e db h = h refl
checked P false e db h = tt

pub store_jobs-Evolves :
    (d : Driver) (i : ℕ) (p : Job → Bool) (f : Job → Job) (db : Database)
    → IsLifeStep i p f
    → OkHolds (Evolves db) (store_jobs d (update_where p f db.jobs) db)
unfolding store_jobs
store_jobs-Evolves d i p f db m = checked (Evolves db) _ d.unique_violation _ (updated-Evolves m db)

-- An update of connections that leaves their places and their credentials alone.
pub store_connections-Evolves :
    (d : Driver) (q : TenantConnection → Bool) (g : TenantConnection → TenantConnection)
    (db : Database)
    → ((c : TenantConnection) → Stays c (g c))
    → OkHolds (Evolves db) (store_connections d (update_where q g db.tenant_connections) db)
unfolding store_connections
store_connections-Evolves d q g db stays = checked (Evolves db) _ d.unique_violation _ (λ v.
    record {
      jobs = λ i j h. (j, h, Becomes-refl j);
      connections = λ k c h. (
        if q c then g c else c,
        select_first-update (λ (x : TenantConnection). x.id == k) q g db.tenant_connections
              (λ x. ap (λ y. y == k) (stays x).id)
            ∙ ap (Option.map (λ (x : TenantConnection). if q x then g x else x)) h,
        kept c,
      );
      consistent = λ h.
          with_connections-IsConsistent db (update_where q g db.tenant_connections) v
            (λ k h.
              some_of-update_same (λ (x : TenantConnection). x.id == k) q g db.tenant_connections
                (λ x. ap (λ y. y == k) (stays x).id)
              ∙ h)
            (All-update _ q g db.tenant_connections (λ c e l. placed c ∙ l) h.connections_linked) h;
    })
  where
    placed :
        (c : TenantConnection)
        → some_of (has_workspace (g c)) db.workspaces ≡ some_of (has_workspace c) db.workspaces
    placed c = rw ((stays c).workspace, (stays c).organization) refl

    kept : (c : TenantConnection) → Stays c (if q c then g c else c)
    kept c = elim (Bool-cases (q c)) [ inl e ↦ rw e (stays c) | inr e ↦ rw e (Stays-refl c) ]
