-- ===== src/Validation/Apply/Connections.antt =====
-- packages/db/src/schema/product.ts, `tenant_connection_active_microsoft_tenant_uidx`, under the
-- updates of connections that packages/product/src/tenant-validation.ts makes.
use inbox_saas.Prelude.{
  ℕ, ◌≡◌, refl, inl, inr, Bool, true, false, not, Option, none, some, List, [], ◌∷◌, arith, ◌==◌,
  ◌&&◌, some_of, String, str_eq, str_eq_iff, Bool-cases,
}
use inbox_saas.Table.{update_where, is_distinct, select_first}
use inbox_saas.Table.Laws.{is_distinct-update, is_distinct-update_mono, update_where-none}
use inbox_saas.Schema.{
  TenantConnection, active, is_active, same_text, connections_clash, connections_valid,
}

abbrev pub activate : String → ℕ → TenantConnection → TenantConnection
activate t clock c = record c { microsoft_tenant_id = some t; state = active; updated_at = clock }

-- Another connection is active for the Microsoft tenant.
abbrev pub takes : String → ℕ → TenantConnection → Bool
takes t i x = not (x.id == i) && is_active x.state && same_text x.microsoft_tenant_id (some t)

abbrev pub is_taken : String → ℕ → List TenantConnection → Bool
is_taken t i cs = some_of (takes t i) cs

str_eq_comm : (a b : String) → str_eq a b ≡ str_eq b a
str_eq_comm a b = ground (arith, str_eq_iff a b, str_eq_iff b a)

same_text_comm : (a : Option String) (t : String) → same_text (some t) a ≡ same_text a (some t)
same_text_comm none t = refl
same_text_comm (some s) t = str_eq_comm t s

module _ (t : String) (i clock : ℕ) where
  -- The activated row against rows with other ids.
  clash_after :
      (r : TenantConnection) (rs : List TenantConnection)
      → r.id ≡ i
      → some_of (λ (x : TenantConnection). r.id == x.id) rs ≡ false
      → some_of (connections_clash (activate t clock r)) rs ≡ is_taken t i rs
  unfolding connections_clash
  clash_after r [] e h = refl
  clash_after r (x ∷ rs) e h =
      ground (arith, same_text_comm x.microsoft_tenant_id t, clash_after r rs e)

  other_ids :
      (r : TenantConnection) (rs : List TenantConnection)
      → r.id ≡ i
      → some_of (λ (x : TenantConnection). r.id == x.id) rs ≡ false
      → some_of (λ (x : TenantConnection). x.id == i) rs ≡ false
  other_ids r [] e h = refl
  other_ids r (x ∷ rs) e h = ground (arith, other_ids r rs e)

  -- Another row against the rows among which one is activated.
  clash_before :
      (r : TenantConnection) (rs : List TenantConnection) (c : TenantConnection)
      → select_first (λ (x : TenantConnection). x.id == i) rs ≡ some c
      → is_distinct (λ (a b : TenantConnection). a.id == b.id) rs ≡ true
      → some_of (connections_clash r) rs ≡ false
      → some_of (connections_clash r) (update_where (λ x. x.id == i) (activate t clock) rs)
        ≡ (is_active r.state && same_text r.microsoft_tenant_id (some t))
  unfolding connections_clash is_distinct select_first
  clash_before r [] c found d h = absurd (cc (found))
  clash_before r (x ∷ rs) c found d h = elim (Bool-cases (x.id == i)) [
    | inl hit ↦ ground (
      arith,
      update_where-none (λ (y : TenantConnection). y.id == i) (activate t clock) rs
          (other_ids x rs (ground arith) (ground arith)),
    )
    | inr miss ↦ ground (arith, clash_before r rs c)
  ]

  -- After one row is activated the index holds exactly if no other active row has the tenant.
  active_distinct :
      (rs : List TenantConnection) (c : TenantConnection)
      → select_first (λ (x : TenantConnection). x.id == i) rs ≡ some c
      → is_distinct (λ (a b : TenantConnection). a.id == b.id) rs ≡ true
      → is_distinct connections_clash rs ≡ true
      → is_distinct connections_clash (update_where (λ x. x.id == i) (activate t clock) rs)
        ≡ not (is_taken t i rs)
  unfolding is_distinct select_first
  active_distinct [] c found d u = absurd (cc (found))
  active_distinct (r ∷ rs) c found d u = elim (Bool-cases (r.id == i)) [
    | inl hit ↦ ground (
      arith,
      update_where-none (λ (y : TenantConnection). y.id == i) (activate t clock) rs
          (other_ids r rs (ground arith) (ground arith)),
      clash_after r rs (ground arith) (ground arith),
    )
    | inr miss ↦ ground (
      arith,
      clash_before r rs c (ground arith) (ground arith) (ground arith),
      active_distinct rs c (ground arith) (ground arith) (ground arith),
    )
  ]

  pub activate-connections_valid :
      (cs : List TenantConnection) (c : TenantConnection)
      → select_first (λ (x : TenantConnection). x.id == i) cs ≡ some c
      → connections_valid cs ≡ true
      → connections_valid (update_where (λ x. x.id == i) (activate t clock) cs)
        ≡ not (is_taken t i cs)
  unfolding connections_valid
  activate-connections_valid cs c found v =
      rw
        (
          is_distinct-update (λ (x : TenantConnection). x.id) (λ x. x.id == i) (activate t clock) cs
              (λ x. refl),
          active_distinct cs c found (ground arith) (ground arith),
        )
        (ground arith)

-- An update that activates no row breaks no index.
pub idle-connections_valid :
    (p : TenantConnection → Bool) (g : TenantConnection → TenantConnection)
    (cs : List TenantConnection)
    → ((x : TenantConnection) → (g x).id ≡ x.id)
    → ((x : TenantConnection) → is_active (g x).state ≡ false)
    → connections_valid cs ≡ true
    → connections_valid (update_where p g cs) ≡ true
unfolding connections_valid
idle-connections_valid p g cs ids inactive v = ground (
  arith,
  is_distinct-update (λ (x : TenantConnection). x.id) p g cs ids,
  is_distinct-update_mono connections_clash p g cs
      (λ a b h. unfold connections_clash in ground (arith, inactive a, inactive b)),
)
