-- ===== src/Lint/Dictionaries/Endless.antt =====
-- tools/oxlint/anti-slop/shared/dictionary-types.ts: a substitution without an environment of its
-- own. An alias parameter that is bound to a wrapper of a parameter of the same name never ends.
use inbox_saas.Prelude.{
  ℕ, zero, suc, ◌≡◌, refl, ap, Bool, ◌∙◌, not, true, false, none, some, List, String,
}
use inbox_saas.Lint.Scopes.{Chain}
use inbox_saas.Lint.Aliases.{TsType, reference, no_types, more_types, has_visible_type_binding}
use inbox_saas.Lint.Dictionaries.Shapes.{TypeEnvironment, Bindings, set_binding, is_transparent}
use inbox_saas.Lint.Dictionaries.{Unsafe, unsafe_name, unsafe_direct_value}

-- A wrapper is as unsafe as its argument.
transparent_step :
    (environment : TypeEnvironment) (site : Chain) (name : String) (t : TsType) (fuel : ℕ)
    (s : Bindings) (resolving : List String)
    → is_transparent name site environment ≡ true
    → unsafe_direct_value environment
        (suc fuel)
        (reference site (some name) (more_types t no_types))
        s
        resolving
      ≡ unsafe_direct_value environment fuel t s resolving
unfolding unsafe_direct_value
transparent_step environment site name t fuel s resolving h =
    ap
      (λ (b : Bool).
        let r : Unsafe = elim b [
          | true ↦ unsafe_direct_value environment fuel t s resolving
          | false ↦
              unsafe_name environment fuel (unsafe_direct_value environment fuel) site name
                (more_types t no_types) s resolving
        ] in
        r)
      h

module _ (environment : TypeEnvironment) (site : Chain)
    (built_in : has_visible_type_binding "Readonly" site environment.type_aliases ≡ false) where
  abbrev pub wrapped_type : TsType
  wrapped_type =
      reference site (some "Readonly") (more_types (reference site (some "T") no_types) no_types)

  abbrev pub wrapped_binding : Bindings
  wrapped_binding = set_binding "T" wrapped_type (λ name. none)

  -- No fuel is enough for a parameter `T` that is bound to `Readonly<T>`.
  pub unsafe_direct_value_endless :
      (fuel : ℕ) (resolving : List String)
      → ((use_site : Chain)
          → unsafe_direct_value environment fuel
              (reference use_site (some "T") no_types)
              wrapped_binding
              resolving
            ≡ none)
        × (unsafe_direct_value environment fuel wrapped_type wrapped_binding resolving ≡ none)
  unfolding unsafe_direct_value
  unsafe_direct_value_endless zero resolving = (λ use_site. refl, refl)
  unsafe_direct_value_endless (suc fuel) resolving =
      let (bare, wrapped) = unsafe_direct_value_endless fuel resolving in
      (
        λ use_site. wrapped,
        transparent_step environment site "Readonly" (reference site (some "T") no_types) fuel
              wrapped_binding resolving (ap not built_in)
            ∙ bare site,
      )
