-- ===== src/Lint/Aliases/Nearest.antt =====
-- tools/oxlint/anti-slop/shared/type-alias-resolution.ts, `nearestTypeBindings`: the loop picks the
-- bindings at the least distance.
use inbox_saas.Prelude.{
  ℕ, ◌≡◌, refl, ap, sym, ◌∙◌, inl, inr, Bool, true, false, Option, none, some, List, [], ◌∷◌, ◌++◌,
  arith, ◌==◌, ltb, keep, String, Bool-cases, if◌then◌else◌, keep-append, append-nil, append_assoc,
  ==_refl,
}
use inbox_saas.Lint.Scopes.{Chain, ancestor_distance}
use inbox_saas.Lint.Aliases.{
  TypeBinding, TypeAliasEnvironment, nearest_step, nearest_each, nearest_type_bindings,
}

-- The least of some distances, `none` where there is none.
abbrev closer : Option ℕ → Option ℕ → Option ℕ
closer none b = b
closer (some a) none = some a
closer (some a) (some b) = if ltb b a then some b else some a

abbrev pub same_distance : Option ℕ → Option ℕ → Bool
same_distance none b = false
same_distance (some a) none = false
same_distance (some a) (some b) = a == b

module _ (site : Chain) where
  abbrev pub distance_of : TypeBinding → Option ℕ
  distance_of b = ancestor_distance b.scope site

  abbrev pub least_distance : List TypeBinding → Option ℕ
  least_distance [] = none
  least_distance (c ∷ cs) = closer (distance_of c) (least_distance cs)

  -- The bindings at distance `d`.
  abbrev pub at_distance : Option ℕ → List TypeBinding → List TypeBinding
  at_distance d cs = keep (λ c. same_distance (distance_of c) d) cs

  abbrev beyond : Option ℕ → ℕ → Bool
  beyond none d = true
  beyond (some e) d = ltb d e

  closer_assoc : (a b c : Option ℕ) → closer a (closer b c) ≡ closer (closer a b) c
  closer_assoc none b c = refl
  closer_assoc (some a) none c = refl
  closer_assoc (some a) (some b) none = ground arith
  closer_assoc (some a) (some b) (some c) = ground arith

  closer-none : (a : Option ℕ) → closer a none ≡ a
  closer-none none = refl
  closer-none (some a) = refl

  least_distance-append :
      (ps : List TypeBinding) (c : TypeBinding)
      → least_distance (ps ++ (c ∷ [])) ≡ closer (least_distance ps) (distance_of c)
  least_distance-append [] c = closer-none (distance_of c)
  least_distance-append (p ∷ ps) c =
      ap (closer (distance_of p)) (least_distance-append ps c)
      ∙ closer_assoc (distance_of p) (least_distance ps) (distance_of c)

  beyond-closer :
      (a b : Option ℕ) (d : ℕ)
      → beyond (closer a b) d ≡ true
      → (same_distance a (some d) ≡ false) × (beyond b d ≡ true)
  beyond-closer none b d h = (refl, h)
  beyond-closer (some a) none d h = (ground arith, refl)
  beyond-closer (some a) (some b) d h = (ground arith, ground arith)

  -- Nothing is nearer than the least distance.
  none_nearer :
      (ps : List TypeBinding) (d : ℕ)
      → beyond (least_distance ps) d ≡ true
      → at_distance (some d) ps ≡ []
  none_nearer [] d h = refl
  none_nearer (p ∷ ps) d h =
      let (other, rest) = beyond-closer (distance_of p) (least_distance ps) d h in
      rw other (none_nearer ps d rest)

  at-append :
      (ps : List TypeBinding) (c : TypeBinding) (m : Option ℕ)
      → at_distance m (ps ++ (c ∷ [])) ≡ at_distance m ps ++ at_distance m (c ∷ [])
  at-append ps c m = keep-append (λ x. same_distance (distance_of x) m) ps (c ∷ [])

  -- One candidate more.
  stepped :
      (ps : List TypeBinding) (c : TypeBinding) (m o : Option ℕ)
      → least_distance ps ≡ m
      → distance_of c ≡ o
      → nearest_step site c (m, at_distance m ps)
        ≡ (closer m o, at_distance (closer m o) (ps ++ (c ∷ [])))
  stepped ps c m none is_least far =
      rw (closer-none m, at-append ps c m, nearest_step, far)
        (ap (λ x. (m, x)) (sym (append-nil (at_distance m ps))))
  stepped ps c none (some d) is_least near =
      rw
        (
          at-append ps c (some d),
          none_nearer ps d (ap (λ m. beyond m d) is_least),
          nearest_step,
          near,
          ==_refl d,
        )
        refl
  stepped ps c (some e) (some d) is_least near = elim (Bool-cases (ltb e d)) [
    | inl further ↦
        let behind : ltb d e ≡ false = ground (arith, further) in
        let other : (d == e) ≡ false = ground (arith, further) in
        rw (behind, at-append ps c (some e), nearest_step, near, further, other)
          (ap (λ x. (some e, x)) (sym (append-nil (at_distance (some e) ps))))
    | inr near_enough ↦ elim (Bool-cases (d == e)) [
      | inl same ↦
          let behind : ltb d e ≡ false = ground (arith, same) in
          rw (behind, at-append ps c (some e), nearest_step, near, near_enough, same) refl
      | inr other ↦
          let ahead : ltb d e ≡ true = ground (arith, near_enough, other) in
          rw
            (
              ahead,
              at-append ps c (some d),
              none_nearer ps d (ap (λ m. beyond m d) is_least ∙ ahead),
              nearest_step,
              near,
              near_enough,
              other,
              ==_refl d,
            )
            refl
    ]
  ]

  loop :
      (cs ps : List TypeBinding) (best : Option ℕ × List TypeBinding)
      → best ≡ (least_distance ps, at_distance (least_distance ps) ps)
      → nearest_each site cs best
        ≡ (least_distance (ps ++ cs), at_distance (least_distance (ps ++ cs)) (ps ++ cs))
  loop [] ps best e = rw (append-nil ps) e
  loop (c ∷ cs) ps best e =
      let step = stepped ps c (least_distance ps) (distance_of c) refl refl in
      let now : nearest_step site c best ≡ (
        least_distance (ps ++ (c ∷ [])),
        at_distance (least_distance (ps ++ (c ∷ []))) (ps ++ (c ∷ [])),
      ) =
        ap (nearest_step site c) e
        ∙ step
        ∙ ap (λ m. (m, at_distance m (ps ++ (c ∷ [])))) (sym (least_distance-append ps c)) in
      loop cs (ps ++ (c ∷ [])) (nearest_step site c best) now
      ∙ ap (λ xs. (least_distance xs, at_distance (least_distance xs) xs))
          (append_assoc ps (c ∷ []) cs)

-- The bindings of a name that are nearest to a node: those, in the order of the program, whose
-- scopes are around the node and none of whose rivals is nearer.
pub nearest_type_bindings_lem :
    (name : String) (site : Chain) (environment : TypeAliasEnvironment)
    → nearest_type_bindings name site environment
      ≡ at_distance site
          (least_distance site (environment.bindings_by_name name))
          (environment.bindings_by_name name)
unfolding nearest_type_bindings
nearest_type_bindings_lem name site environment =
    ap (λ (x : Option ℕ × List TypeBinding). x.1)
      (loop site (environment.bindings_by_name name) [] (none, []) refl)
