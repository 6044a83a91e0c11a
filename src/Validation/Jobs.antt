-- ===== src/Validation/Jobs.antt =====
-- packages/product/src/tenant-validation.ts: what the updates of job rows keep. The unique indexes
-- of packages/db/src/schema/product.ts survive every update that the operations make, so none of
-- those statements throws.
use mathlib.Core.Option
use inbox_saas.Prelude.{
  ℕ, ◌≡◌, refl, ap, Bool, true, none, some, List, arith, ◌==◌, first, if◌then◌else◌,
}
use inbox_saas.Errors.{ok}
use inbox_saas.Table.{update_where, returning, select_first}
use inbox_saas.Table.Laws.{
  is_distinct-update, is_distinct-update_mono, first-returning, select_first-update,
  update_where_idle,
}
use inbox_saas.Schema.{Job, is_non_terminal, jobs_clash, jobs_valid, Database}
use inbox_saas.Schema.Statements.{Driver, store_jobs}
use inbox_saas.Validation.Base.{find_job}

-- An update of the rows that pass a test: it keeps the row's identity, and moves no row from a
-- terminal state to another.
pub record IsMove (i : ℕ) (p : Job → Bool) (f : Job → Job) : Type 0 where
  pub only : (j : Job) → p j ≡ true → j.id ≡ i
  pub id : (j : Job) → (f j).id ≡ j.id
  pub connection : (j : Job) → (f j).tenant_connection_id ≡ j.tenant_connection_id
  pub open_before : (j : Job) → p j ≡ true → is_non_terminal j.state ≡ true

module _ {i : ℕ} {p : Job → Bool} {f : Job → Job} (m : IsMove i p f) where
  move_mono :
      (a b : Job)
      → jobs_clash (if p a then f a else a) (if p b then f b else b) ≡ true
      → jobs_clash a b ≡ true
  unfolding jobs_clash
  move_mono a b h = ground (arith, m.connection a, m.connection b, m.open_before a, m.open_before b)

  pub move-jobs_valid :
      (js : List Job) → jobs_valid js ≡ true → jobs_valid (update_where p f js) ≡ true
  unfolding jobs_valid
  move-jobs_valid js v = ground (
    arith,
    is_distinct-update (λ j. j.id) p f js m.id,
    is_distinct-update_mono jobs_clash p f js move_mono,
  )

  -- The statement succeeds.
  pub move-store_jobs :
      (d : Driver) (db : Database)
      → jobs_valid db.jobs ≡ true
      → store_jobs d (update_where p f db.jobs) db
        ≡ ok (record db { jobs = update_where p f db.jobs })
  unfolding store_jobs
  move-store_jobs d db v = rw (move-jobs_valid db.jobs v) refl

  -- It returns the one row with that id, if that row passes the test.
  pub move-returning :
      (js : List Job)
      → jobs_valid js ≡ true
      → first (returning p f js) ≡ elim (select_first (λ (j : Job). j.id == i) js) [
        | none ↦ none
        | some j ↦ if p j then some (f j) else none
      ]
  unfolding jobs_valid
  move-returning js v = first-returning (λ j. j.id) i p f js m.only (ground arith)

  pub move_idle :
      (db : Database)
      → first (returning p f db.jobs) ≡ none
      → record db { jobs = update_where p f db.jobs } ≡ db
  move_idle db h = ap (λ js. record db { jobs = js }) (update_where_idle p f db.jobs h)

  -- The other rows, and a row that fails the test, are as before.
  pub move-find_job :
      (k : ℕ) (db : Database)
      → find_job k (record db { jobs = update_where p f db.jobs })
        ≡ Option.map (λ j. if p j then f j else j) (find_job k db)
  move-find_job k db =
      select_first-update (λ j. j.id == k) p f db.jobs (λ j. ground (arith, m.id j))
