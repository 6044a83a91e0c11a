-- ===== src/Validation/Lease/Claims.antt =====
-- packages/product/src/tenant-validation.ts, `claimTenantValidationJob` and
-- `renewTenantValidationJobLease`: what they do to the one row that they name.
use inbox_saas.Prelude.{
  ℕ, suc, ◌+◌, ◌≡◌, refl, ap, sym, ◌∙◌, inl, inr, true, false, Option, none, some, arith, first,
  if◌then◌else◌, Bool-cases, Option-cases,
}
use inbox_saas.Errors.{ok, err}
use inbox_saas.Table.{update_where, returning}
use inbox_saas.Table.Laws.{select_key}
use inbox_saas.Schema.{Job, jobs_valid, Database}
use inbox_saas.Schema.Statements.{Driver}
use inbox_saas.Validation.Base.{
  TenantConnectionDto, find_job, find_connection, millis, positive_duration,
}
use inbox_saas.Validation.Jobs.{
  IsMove, move_idle, move-store_jobs, move-returning, move-find_job, move-jobs_valid,
}
use inbox_saas.Validation.Lease.{
  not_found, claimed, is_free, is_claimable, claim_job, show_claimed, is_overflown,
  claim_tenant_validation_job, is_fenced, extend_job,
}

pub claim-IsMove :
    (i now expires token clock : ℕ)
    → IsMove i (is_claimable i now) (claim_job now expires token clock)
claim-IsMove i now expires token clock = record {
  only = λ j h. ground arith;
  id = λ j. refl;
  connection = λ j. refl;
  open_before = λ j h. ground arith;
}

pub renew-IsMove :
    (i token now expires clock : ℕ) → IsMove i (is_fenced i token now) (extend_job expires clock)
renew-IsMove i token now expires clock = record {
  only = λ j h. ground arith;
  id = λ j. refl;
  connection = λ j. refl;
  open_before = λ j h. ground arith;
}

module _ (d : Driver) (i now n token clock : ℕ) (db : Database)
    (valid : jobs_valid db.jobs ≡ true) where
  abbrev pub with_claim : Database
  with_claim = record db {
    jobs = update_where (is_claimable i now) (claim_job now (now + suc n) token clock) db.jobs;
  }

  claim_result :
      (o : Option Job)
      → first (returning (is_claimable i now) (claim_job now (now + suc n) token clock) db.jobs) ≡ o
      → is_overflown o ≡ false
      → claim_tenant_validation_job d i now (millis (suc n)) token clock db
        ≡ show_claimed with_claim o
  unfolding claim_tenant_validation_job positive_duration
  claim_result o e fits =
      let m = claim-IsMove i now (now + suc n) token clock in
      rw (claim_tenant_validation_job, e, fits, move-store_jobs m d db valid, e) refl

  -- A claim whose attempt would not fit the column throws.
  claim_overflown :
      (o : Option Job)
      → first (returning (is_claimable i now) (claim_job now (now + suc n) token clock) db.jobs) ≡ o
      → is_overflown o ≡ true
      → claim_tenant_validation_job d i now (millis (suc n)) token clock db
        ≡ (err d.out_of_range, db)
  unfolding claim_tenant_validation_job positive_duration
  claim_overflown o e over = rw (claim_tenant_validation_job, e, over) refl

  returned_by :
      (o : Option Job)
      → find_job i db ≡ o
      → first (returning (is_claimable i now) (claim_job now (now + suc n) token clock) db.jobs)
        ≡ elim o [
          | none ↦ none
          | some j ↦
              if is_claimable i now j
              then some (claim_job now (now + suc n) token clock j)
              else none
        ]
  returned_by o e =
      rw (move-returning (claim-IsMove i now (now + suc n) token clock) db.jobs valid, e) refl

  idle :
      first (returning (is_claimable i now) (claim_job now (now + suc n) token clock) db.jobs)
        ≡ none
      → claim_tenant_validation_job d i now (millis (suc n)) token clock db ≡ (ok not_found, db)
  idle e =
      claim_result none e refl
      ∙ ap (λ x. (ok not_found, x)) (move_idle (claim-IsMove i now (now + suc n) token clock) db e)

  pub claim_refused :
      (j : Job)
      → find_job i db ≡ some j
      → is_free now j ≡ false
      → claim_tenant_validation_job d i now (millis (suc n)) token clock db ≡ (ok not_found, db)
  claim_refused j found busy = idle (returned_by (some j) found ∙ ground arith)

  pub claim_missing :
      find_job i db ≡ none
      → claim_tenant_validation_job d i now (millis (suc n)) token clock db ≡ (ok not_found, db)
  claim_missing gone = idle (returned_by none gone)

  abbrev claimed_row : Job → Option Job
  claimed_row j = some (claim_job now (now + suc n) token clock j)

  row_returned :
      (j : Job)
      → find_job i db ≡ some j
      → is_free now j ≡ true
      → first (returning (is_claimable i now) (claim_job now (now + suc n) token clock) db.jobs)
        ≡ claimed_row j
  row_returned j found free =
      returned_by (some j) found
      ∙ ground (arith, select_key (λ (x : Job). x.id) i db.jobs {r = j} found)

  pub claim_granted :
      (j : Job)
      → find_job i db ≡ some j
      → is_free now j ≡ true
      → is_overflown (some (claim_job now (now + suc n) token clock j)) ≡ false
      → claim_tenant_validation_job d i now (millis (suc n)) token clock db
        ≡ show_claimed with_claim (some (claim_job now (now + suc n) token clock j))
  claim_granted j found free fits = claim_result (claimed_row j) (row_returned j found free) fits

  pub with_claim_found :
      (j : Job)
      → find_job i db ≡ some j
      → is_free now j ≡ true
      → find_job i with_claim ≡ some (claim_job now (now + suc n) token clock j)
  with_claim_found j found free =
      let m = claim-IsMove i now (now + suc n) token clock in
      move-find_job m i db
      ∙ rw found (ground (arith, select_key (λ (x : Job). x.id) i db.jobs {r = j} found))

  pub with_claim_valid : jobs_valid with_claim.jobs ≡ true
  with_claim_valid = move-jobs_valid (claim-IsMove i now (now + suc n) token clock) db.jobs valid

  shown_job :
      (db₁ db' : Database) (o : Option Job) (c : TenantConnectionDto) (j : Job)
      → show_claimed db₁ o ≡ (ok (claimed c j), db')
      → (o ≡ some j) × (db' ≡ db₁)
  shown_job db₁ db' none c j e = absurd (ground arith)
  shown_job db₁ db' (some x) c j e =
      elim (Option-cases (find_connection x.tenant_connection_id db₁)) [
        | inl lost ↦ absurd (ground arith)
        | inr (y, connected) ↦ (ground arith, ground arith)
      ]

  -- A successful claim was of a free job, which it has put under the new lease.
  pub record IsClaimed (j : Job) (db' : Database) : Type 0 where
    pub before : Job
    pub was : find_job i db ≡ some before
    pub free : is_free now before ≡ true
    pub becomes : j ≡ claim_job now (now + suc n) token clock before
    pub now_found : find_job i db' ≡ some j
    pub still_valid : jobs_valid db'.jobs ≡ true

  pub claim-IsClaimed :
      (c : TenantConnectionDto) (j : Job) (db' : Database)
      → claim_tenant_validation_job d i now (millis (suc n)) token clock db
        ≡ (ok (claimed c j), db')
      → IsClaimed j db'
  claim-IsClaimed c j db' e = elim (Option-cases (find_job i db)) [
    | inl gone ↦ absurd (cc (sym (claim_missing gone) ∙ e))
    | inr (j₀, found) ↦ elim (Bool-cases (is_free now j₀)) [
      | inr busy ↦ absurd (cc (sym (claim_refused j₀ found busy) ∙ e))
      | inl free ↦ elim (Bool-cases (is_overflown (claimed_row j₀))) [
        | inl over ↦
            absurd
              (cc (sym (claim_overflown (claimed_row j₀) (row_returned j₀ found free) over) ∙ e))
        | inr fits ↦
            let (same_job, same_db) =
              shown_job with_claim db' (claimed_row j₀) c j
                (sym (claim_granted j₀ found free fits) ∙ e) in
            let is : claim_job now (now + suc n) token clock j₀ ≡ j = cc (same_job) in
            rw same_db (record {
              before = j₀;
              was = found;
              free = free;
              becomes = sym is;
              now_found = with_claim_found j₀ found free ∙ ap some is;
              still_valid = with_claim_valid;
            })
      ]
    ]
  ]
