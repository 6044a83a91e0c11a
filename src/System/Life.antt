-- ===== src/System/Life.antt =====
-- packages/db/src/schema/product.ts and packages/product/src/tenant-validation.ts: the life of a job
-- row, as a diagram of its states and attempts, and what an operation may make of a row.
use inbox_saas.Prelude.{◌≤◌, ◌<◌, ◌≡◌, ◌+◌, ℕ, refl, ap, ◌∙◌, true, false, none, arith}
use inbox_saas.Schema.{
  JobState, queued, running, completed, failed, cancelled, Job, TenantConnection, is_non_terminal,
  is_queued,
}
use inbox_saas.Validation.Lease.{is_some}

-- A state with the number of attempts counted so far.
abbrev pub Stage : Type 0
Stage = JobState × ℕ

infix 40 ◌⟶◌ ◌⟶*◌
pub data ◌⟶◌ : Stage → Stage → Type 0 where
  claim : {n : ℕ} → (queued, n) ⟶ (running, n + 1)
  reclaim : {n : ℕ} → (running, n) ⟶ (running, n + 1)
  requeue : {n : ℕ} → (running, n) ⟶ (queued, n)
  complete : {n : ℕ} → (running, n) ⟶ (completed, n)
  fail : {n : ℕ} → (running, n) ⟶ (failed, n)

pub data ◌⟶*◌ : Stage → Stage → Type 0 where
  here : {s : Stage} → s ⟶* s
  next : {s t u : Stage} → s ⟶ t → t ⟶* u → s ⟶* u

pub ⟶*_trans : {s t u : Stage} → s ⟶* t → t ⟶* u → s ⟶* u
⟶*_trans here q = q
⟶*_trans (next e p) q = next e (⟶*_trans p q)

step-attempts : {s t : Stage} → s ⟶ t → s.1 ≤ t.1
step-attempts claim = omega arith
step-attempts reclaim = omega arith
step-attempts requeue = omega arith
step-attempts complete = omega arith
step-attempts fail = omega arith

pub path-attempts : {s t : Stage} → s ⟶* t → s.1 ≤ t.1
path-attempts here = omega arith
path-attempts (next e p) = omega (arith, step-attempts e, path-attempts p)

-- The only way out of the queue counts an attempt.
step_counted : {s t : Stage} → s ⟶ t → is_queued s.0 ≡ true → s.1 < t.1
step_counted claim q = omega arith
step_counted reclaim q = cc
step_counted requeue q = cc
step_counted complete q = cc
step_counted fail q = cc

pub path_counted : {s t : Stage} → s ⟶* t → is_queued s.0 ≡ true → is_queued t.0 ≡ false → s.1 < t.1
path_counted here q u = cc (q, u)
path_counted (next e p) q u = omega (arith, step_counted e q, path-attempts p)

-- What the columns of a job hold in each state.
abbrev pub HasShape : JobState → Job → Type 0
HasShape queued j = (j.lease_expires_at ≡ none) × (j.lease_token ≡ none)
HasShape running j =
    (is_some j.lease_expires_at ≡ true) × (is_some j.lease_token ≡ true) × (0 < j.attempt_count)
HasShape completed j =
    (j.lease_expires_at ≡ none)
    × (j.lease_token ≡ none)
    × (j.failure_code ≡ none)
    × (j.retryable ≡ none)
HasShape failed j =
    (j.lease_expires_at ≡ none)
    × (j.lease_token ≡ none)
    × (is_some j.failure_code ≡ true)
    × (is_some j.retryable ≡ true)
HasShape cancelled j = Unit {0}

abbrev pub IsShaped : Job → Type 0
IsShaped j = HasShape j.state j

-- A row later: along the diagram, in which each claim, and nothing else, counts one attempt, so that
-- a row that has left the queue has counted one; for the same connection; a row in a terminal state
-- is the same.
pub record Becomes (j j' : Job) : Type 0 where
  pub path : (j.state, j.attempt_count) ⟶* (j'.state, j'.attempt_count)
  pub attempts : j.attempt_count ≤ j'.attempt_count
  pub counted :
      is_queued j.state ≡ true → is_queued j'.state ≡ false → j.attempt_count < j'.attempt_count
  pub id : j'.id ≡ j.id
  pub connection : j'.tenant_connection_id ≡ j.tenant_connection_id
  pub created : j'.created_at ≡ j.created_at
  pub frozen : is_non_terminal j.state ≡ false → j' ≡ j

pub Becomes-refl : (j : Job) → Becomes j j
Becomes-refl j = record {
  path = here;
  attempts = omega arith;
  counted = λ q u. cc (q, u);
  id = refl;
  connection = refl;
  created = refl;
  frozen = λ t. refl;
}

pub Becomes-trans : (i j k : Job) → Becomes i j → Becomes j k → Becomes i k
Becomes-trans i j k a b = record {
  path = ⟶*_trans a.path b.path;
  attempts = omega (arith, a.attempts, b.attempts);
  counted = path_counted (⟶*_trans a.path b.path);
  id = b.id ∙ a.id;
  connection = b.connection ∙ a.connection;
  created = b.created ∙ a.created;
  frozen = λ t.
      let same = a.frozen t in b.frozen (ap (λ (x : Job). is_non_terminal x.state) same ∙ t) ∙ same;
}

-- A connection later: the same tenant's place and the same stored credentials.
pub record Stays (c c' : TenantConnection) : Type 0 where
  pub id : c'.id ≡ c.id
  pub organization : c'.organization_id ≡ c.organization_id
  pub workspace : c'.workspace_id ≡ c.workspace_id
  pub ciphertext : c'.credential_ciphertext ≡ c.credential_ciphertext
  pub iv : c'.credential_iv ≡ c.credential_iv
  pub auth_tag : c'.credential_auth_tag ≡ c.credential_auth_tag
  pub key_version : c'.credential_key_version ≡ c.credential_key_version

pub Stays-refl : (c : TenantConnection) → Stays c c
Stays-refl c = record {
  id = refl;
  organization = refl;
  workspace = refl;
  ciphertext = refl;
  iv = refl;
  auth_tag = refl;
  key_version = refl;
}

pub Stays-trans : (a b c : TenantConnection) → Stays a b → Stays b c → Stays a c
Stays-trans a b c p q = record {
  id = q.id ∙ p.id;
  organization = q.organization ∙ p.organization;
  workspace = q.workspace ∙ p.workspace;
  ciphertext = q.ciphertext ∙ p.ciphertext;
  iv = q.iv ∙ p.iv;
  auth_tag = q.auth_tag ∙ p.auth_tag;
  key_version = q.key_version ∙ p.key_version;
}
