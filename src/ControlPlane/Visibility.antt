-- ===== src/ControlPlane/Visibility.antt =====
-- packages/product/src/control-plane.ts, `getAccessibleControlPlane`: what is shown.
use inbox_saas.Prelude.{
  ℕ, ◌≡◌, refl, ◌∙◌, Bool, true, false, List, [], ◌∷◌, map, arith, ◌==◌, not, keep, if◌then◌else◌,
}
use inbox_saas.Access.{AccessGrant, AccessRequest, grant_allows, is_authorized}
use inbox_saas.Schema.{Database}
use inbox_saas.ControlPlane.{
  distinct_values, view_organization, view_workspace, sees_organization, sees_workspace, in_array,
  organization_ids, get_accessible_control_plane,
}

in_array-keep :
    (x i : ℕ) (ys : List ℕ)
    → in_array (keep (λ y. not (y == x)) ys) i ≡ (if x == i then false else in_array ys i)
in_array-keep x i [] = ground arith
in_array-keep x i (y ∷ ys) = ground (arith, in_array-keep x i ys)

in_array-distinct_values : (xs : List ℕ) (i : ℕ) → in_array (distinct_values xs) i ≡ in_array xs i
unfolding distinct_values
in_array-distinct_values [] i = refl
in_array-distinct_values (x ∷ xs) i =
    ground (arith, in_array-keep x i (distinct_values xs), in_array-distinct_values xs i)

-- An authorized request is in the organization of some grant.
granted_organization :
    (grants : List AccessGrant) (r : AccessRequest)
    → is_authorized grants r ≡ true
    → in_array (map (λ (g : AccessGrant). g.organization_id) grants) r.organization_id ≡ true
unfolding is_authorized grant_allows
granted_organization [] r h = h
granted_organization (g ∷ gs) r h = ground (arith, granted_organization gs r)

keep-keep :
    {A : Type 0} (p q : A → Bool) (xs : List A)
    → ((x : A) → p x ≡ true → q x ≡ true)
    → keep p (keep q xs) ≡ keep p xs
keep-keep p q [] h = refl
keep-keep p q (x ∷ xs) h = ground (arith, h x, keep-keep p q xs h)

keep_nothing : {A : Type 0} (p : A → Bool) (xs : List A) → ((x : A) → p x ≡ false) → keep p xs ≡ []
keep_nothing p [] h = refl
keep_nothing p (x ∷ xs) h = rw (h x) (keep_nothing p xs h)

in_organizations :
    (grants : List AccessGrant) (r : AccessRequest)
    → is_authorized grants r ≡ true
    → in_array (organization_ids grants) r.organization_id ≡ true
in_organizations grants r h =
    in_array-distinct_values (map (λ (g : AccessGrant). g.organization_id) grants) r.organization_id
    ∙ granted_organization grants r h

-- Whatever the grants, exactly those stored organizations are shown whose organization-wide reading
-- they authorize, and exactly those stored workspaces whose reading they authorize, in the order of
-- the tables: the selection by organization before the authorization test loses none, and without
-- grants nothing is shown.
pub get_accessible_control_plane_lem :
    (grants : List AccessGrant) (db : Database)
    → get_accessible_control_plane grants db ≡ record {
      organizations = map view_organization (keep (sees_organization grants) db.organizations);
      workspaces = map view_workspace (keep (sees_workspace grants) db.workspaces);
    }
unfolding get_accessible_control_plane distinct_values is_authorized
get_accessible_control_plane_lem [] db =
    rw
      (
        keep_nothing (sees_organization []) db.organizations (λ o. refl),
        keep_nothing (sees_workspace []) db.workspaces (λ w. refl),
      )
      refl
get_accessible_control_plane_lem (g ∷ gs) db =
    rw
      (
        keep-keep (sees_organization (g ∷ gs)) (λ o. in_array (organization_ids (g ∷ gs)) o.id)
            db.organizations (λ o. in_organizations (g ∷ gs) _),
        keep-keep (sees_workspace (g ∷ gs))
            (λ w. in_array (organization_ids (g ∷ gs)) w.organization_id) db.workspaces
            (λ w. in_organizations (g ∷ gs) _),
      )
      refl
