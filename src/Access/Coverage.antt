-- ===== src/Access/Coverage.antt =====
-- What `isAuthorized` of packages/product/src/access.ts decides, stated without its loop.
use mathlib.Core.List.{Memᴰ}
use inbox_saas.Prelude.{ℕ, ◌≡◌, refl, ◌∙◌, inl, inr, ◌↔◌, true, List, [], ◌∷◌, arith, Bool-cases}
use inbox_saas.Access.{
  Permission, read, write, AccessScope, organization, workspace, AccessGrant, AccessRequest,
  scope_covers, grant_allows, is_authorized,
}

-- `write` includes `read`.
pub data Includes : Permission → Permission → Type 0 where
  write_any : {p : Permission} → Includes write p
  read_read : Includes read read

-- An organization scope covers the organization and each workspace, a workspace scope itself.
pub data Reaches : AccessScope → AccessScope → Type 0 where
  whole : {s : AccessScope} → Reaches organization s
  same : (w v : ℕ) → w ≡ v → Reaches (workspace w) (workspace v)

pub record Covers (g : AccessGrant) (r : AccessRequest) : Type 0 where
  pub tenant : g.organization_id ≡ r.organization_id
  pub level : Includes g.permission r.permission
  pub reach : Reaches g.scope r.scope

level-Includes : (p q : Permission) → ((p ≡ read) → q ≡ read) → Includes p q
level-Includes read read h = read_read
level-Includes read write h = absurd (cc (h refl))
level-Includes write q h = write_any

scope_covers-Reaches : (s t : AccessScope) → scope_covers s t ≡ true → Reaches s t
scope_covers-Reaches organization t h = whole
scope_covers-Reaches (workspace w) organization h = absurd (cc h)
scope_covers-Reaches (workspace w) (workspace v) h = same w v (ground arith)

Reaches-scope_covers : {s t : AccessScope} → Reaches s t → scope_covers s t ≡ true
Reaches-scope_covers whole = refl
Reaches-scope_covers (same w v e) = ground arith

Includes-read : {p q : Permission} → Includes p q → p ≡ read → q ≡ read
Includes-read write_any e = absurd (cc e)
Includes-read read_read e = refl

allows-Covers : (r : AccessRequest) (g : AccessGrant) → grant_allows r g ≡ true → Covers g r
unfolding grant_allows
allows-Covers r g h = record {
  tenant = ground arith;
  level = level-Includes g.permission r.permission (ground arith);
  reach = scope_covers-Reaches g.scope r.scope (ground arith);
}

Covers-allows : (r : AccessRequest) (g : AccessGrant) → Covers g r → grant_allows r g ≡ true
unfolding grant_allows
Covers-allows r g c = ground (arith, Reaches-scope_covers c.reach, Includes-read c.level)

-- There is a grant in the list that covers the request.
abbrev pub HasCover : List AccessGrant → AccessRequest → Type 0
HasCover grants r = (g : AccessGrant) × Memᴰ g grants × Covers g r

HasCover-cons :
    (g : AccessGrant) (gs : List AccessGrant) (r : AccessRequest)
    → HasCover gs r
    → HasCover (g ∷ gs) r
HasCover-cons g gs r (h, m, c) = (h, Memᴰ.tail m, c)

find_cover :
    (grants : List AccessGrant) (r : AccessRequest)
    → is_authorized grants r ≡ true
    → HasCover grants r
unfolding is_authorized
find_cover [] r h = absurd (cc h)
find_cover (g ∷ gs) r h = elim (Bool-cases (grant_allows r g)) [
  | inl e ↦ (g, Memᴰ.head refl, allows-Covers r g e)
  | inr e ↦ HasCover-cons g gs r (find_cover gs r (ground arith))
]

use_cover :
    {g : AccessGrant} {grants : List AccessGrant} (r : AccessRequest)
    → Memᴰ g grants
    → Covers g r
    → is_authorized grants r ≡ true
unfolding is_authorized
use_cover r (Memᴰ.head e) c = rw (← e, Covers-allows r _ c) refl
use_cover r (Memᴰ.tail m) c = ground (arith, use_cover r m c)

-- A request is authorized exactly when one of the grants covers it: the same organization, a
-- permission that includes the requested one, and a scope that reaches the requested one.
pub is_authorized_iff :
    (grants : List AccessGrant) (r : AccessRequest)
    → (is_authorized grants r ≡ true) ↔ HasCover grants r
is_authorized_iff grants r = (find_cover grants r, λ h. use_cover r h.1 h.2)

-- A request asks for less than another: in the same organization, a permission that the other's
-- includes, within a scope that the other's reaches.
pub record Weaker (weak strong : AccessRequest) : Type 0 where
  pub same_organization : strong.organization_id ≡ weak.organization_id
  pub lower : Includes strong.permission weak.permission
  pub narrower : Reaches strong.scope weak.scope

Includes-trans : {p q r : Permission} → Includes p q → Includes q r → Includes p r
Includes-trans write_any j = write_any
Includes-trans read_read j = j

Reaches-trans : {s t u : AccessScope} → Reaches s t → Reaches t u → Reaches s u
Reaches-trans whole k = whole
Reaches-trans (same w v e) k = rw e k

-- Whoever is authorized for a request is authorized for every weaker one: `write` carries `read`
-- with it, and the organization carries each of its workspaces.
pub is_authorized_mono :
    (grants : List AccessGrant) (weak strong : AccessRequest)
    → Weaker weak strong
    → is_authorized grants strong ≡ true
    → is_authorized grants weak ≡ true
is_authorized_mono grants weak strong w h =
    let (g, m, c) = find_cover grants strong h in
    use_cover weak m (record {
      tenant = c.tenant ∙ w.same_organization;
      level = Includes-trans c.level w.lower;
      reach = Reaches-trans c.reach w.narrower;
    })
