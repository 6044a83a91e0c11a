-- ===== src/Table/Laws.antt =====
-- What a first row is after an update or an insertion.
use mathlib.Core.Option
use inbox_saas.Prelude.{
  ℕ, ◌≡◌, refl, ap, subst, sym, ◌∙◌, inl, inr, Bool, true, false, none, some, List, [], ◌∷◌, arith,
  ◌==◌, ◌&&◌, ◌||◌, not, first, some_of, All, Bool-cases, if◌then◌else◌,
}
use inbox_saas.Table.{update_where, returning, insert_row, is_distinct, select_first}

module _ {A : Type 0} where
  -- `first` of a selection, by recursion on the rows.
  pub select_first-cons :
      (p : A → Bool) (r : A) (rs : List A)
      → select_first p (r ∷ rs) ≡ (if p r then some r else select_first p rs)
  unfolding select_first
  select_first-cons p r rs = ground arith

  pub select_first-nil : (p : A → Bool) → select_first p [] ≡ none
  unfolding select_first
  select_first-nil p = refl

  pub select_first-holds :
      (p : A → Bool) (rs : List A) {r : A} → select_first p rs ≡ some r → p r ≡ true
  unfolding select_first
  select_first-holds p [] h = absurd (cc h)
  select_first-holds p (x ∷ rs) {r} h = ground (arith, select_first-holds p rs {r = r})

  pub select_first-All :
      (P : A → Type 0) (p : A → Bool) (rs : List A) {r : A}
      → All P rs
      → select_first p rs ≡ some r
      → P r
  unfolding select_first
  select_first-All P p [] a h = absurd (cc h)
  select_first-All P p (x ∷ rs) {r} a h = elim (Bool-cases (p x)) [
    | inl e ↦ subst P (ground arith) a.0
    | inr e ↦ select_first-All P p rs a.1 (ground arith)
  ]

  -- An update that leaves the tested columns alone keeps each selection in place.
  pub select_first-update :
      (q p : A → Bool) (f : A → A) (rs : List A)
      → ((r : A) → q (f r) ≡ q r)
      → select_first q (update_where p f rs)
        ≡ Option.map (λ r. if p r then f r else r) (select_first q rs)
  unfolding select_first
  select_first-update q p f [] h = refl
  select_first-update q p f (r ∷ rs) h = ground (arith, h r, select_first-update q p f rs h)

  pub select_first-append :
      (q : A → Bool) (rs : List A) (r : A)
      → select_first q (insert_row r rs)
        ≡ elim (select_first q rs) [ none ↦ if q r then some r else none | some x ↦ some x ]
  unfolding select_first
  select_first-append q [] r = ground arith
  select_first-append q (x ∷ rs) r = ground (arith, select_first-append q rs r)

  pub some_of-append :
      (p : A → Bool) (rs : List A) (r : A) → some_of p (insert_row r rs) ≡ (some_of p rs || p r)
  some_of-append p [] r = ground arith
  some_of-append p (x ∷ rs) r = ground (arith, some_of-append p rs r)

  -- Distinct rows stay distinct when a row is added that clashes with none of them, and the other
  -- way round.
  pub is_distinct-append :
      (clash : A → A → Bool) (rs : List A) (r : A)
      → is_distinct clash (insert_row r rs)
        ≡ (is_distinct clash rs && not (some_of (λ x. clash x r) rs))
  unfolding is_distinct
  is_distinct-append clash [] r = refl
  is_distinct-append clash (x ∷ rs) r =
      ground (arith, some_of-append (clash x) rs r, is_distinct-append clash rs r)

  pub select_first-none :
      (p : A → Bool) (rs : List A) → some_of p rs ≡ false → select_first p rs ≡ none
  unfolding select_first
  select_first-none p [] h = refl
  select_first-none p (x ∷ rs) h = ground (arith, select_first-none p rs)

  pub some_of-none : (p : A → Bool) (rs : List A) → select_first p rs ≡ none → some_of p rs ≡ false
  unfolding select_first
  some_of-none p [] h = refl
  some_of-none p (x ∷ rs) h = ground (arith, some_of-none p rs)

  pub some_of-some :
      (p : A → Bool) (rs : List A) {r : A} → select_first p rs ≡ some r → some_of p rs ≡ true
  unfolding select_first
  some_of-some p [] h = absurd (cc h)
  some_of-some p (x ∷ rs) {r} h = ground (arith, some_of-some p rs {r = r})

  pub All-update :
      (P : A → Type 0) (p : A → Bool) (f : A → A) (rs : List A)
      → ((r : A) → p r ≡ true → P r → P (f r))
      → All P rs
      → All P (update_where p f rs)
  All-update P p f [] h a = tt
  All-update P p f (r ∷ rs) h a = elim (Bool-cases (p r)) [
    | inl e ↦ rw e (h r e a.0, All-update P p f rs h a.1)
    | inr e ↦ rw e (a.0, All-update P p f rs h a.1)
  ]

  pub All-insert : (P : A → Type 0) (rs : List A) (r : A) → All P rs → P r → All P (insert_row r rs)
  All-insert P [] r a h = (h, tt)
  All-insert P (x ∷ rs) r a h = (a.0, All-insert P rs r a.1 h)

  -- An update of no row changes nothing.
  pub update_where-none :
      (p : A → Bool) (f : A → A) (rs : List A) → some_of p rs ≡ false → update_where p f rs ≡ rs
  update_where-none p f [] h = refl
  update_where-none p f (r ∷ rs) h = elim (Bool-cases (p r)) [
    | inl e ↦ absurd (ground arith)
    | inr e ↦ rw e (ap (λ x. r ∷ x) (update_where-none p f rs (ground arith)))
  ]

  pub returning-none :
      (p : A → Bool) (f : A → A) (rs : List A) → some_of p rs ≡ false → returning p f rs ≡ []
  returning-none p f [] h = refl
  returning-none p f (r ∷ rs) h = ground (arith, returning-none p f rs)

  some_of-ext : (p q : A → Bool) (rs : List A) → ((r : A) → p r ≡ q r) → some_of p rs ≡ some_of q rs
  some_of-ext p q [] h = refl
  some_of-ext p q (r ∷ rs) h = ground (arith, h r, some_of-ext p q rs h)

  -- A row that went in under a unique index is the one that a search by its key finds.
  pub inserted_first :
      (key : A → Bool) (clash : A → A → Bool) (rs : List A) (r : A)
      → ((x : A) → clash x r ≡ key x)
      → key r ≡ true
      → is_distinct clash (insert_row r rs) ≡ true
      → select_first key (insert_row r rs) ≡ some r
  inserted_first key clash rs r agree own valid =
      let absent : some_of key rs ≡ false =
        ground (arith, is_distinct-append clash rs r, some_of-ext (λ x. clash x r) key rs agree) in
      select_first-append key rs r ∙ rw (select_first-none key rs absent, own) refl

  -- An update that returns no row has changed none.
  pub update_where_idle :
      (p : A → Bool) (f : A → A) (rs : List A)
      → first (returning p f rs) ≡ none
      → update_where p f rs ≡ rs
  update_where_idle p f [] h = refl
  update_where_idle p f (r ∷ rs) h = elim (Bool-cases (p r)) [
    | inl e ↦ absurd (cc (rw e at h))
    | inr e ↦ rw e (ap (λ x. r ∷ x) (update_where_idle p f rs (rw e at h)))
  ]

  some_of-update_mono :
      (clash : A → A → Bool) (p : A → Bool) (f : A → A) (a : A) (rs : List A)
      → ((b : A)
          → clash (if p a then f a else a) (if p b then f b else b) ≡ true
          → clash a b ≡ true)
      → some_of (clash a) rs ≡ false
      → some_of (clash (if p a then f a else a)) (update_where p f rs) ≡ false
  some_of-update_mono clash p f a [] h e = refl
  some_of-update_mono clash p f a (b ∷ rs) h e =
      let rest = some_of-update_mono clash p f a rs h (ground arith) in
      elim (Bool-cases (clash (if p a then f a else a) (if p b then f b else b))) [
        | inl hit ↦ absurd (ground (arith, h b hit))
        | inr miss ↦ rw (miss, rest) refl
      ]

  -- An update that makes no two rows clash that did not clash before keeps the rows distinct.
  pub is_distinct-update_mono :
      (clash : A → A → Bool) (p : A → Bool) (f : A → A) (rs : List A)
      → ((a b : A)
          → clash (if p a then f a else a) (if p b then f b else b) ≡ true
          → clash a b ≡ true)
      → is_distinct clash rs ≡ true
      → is_distinct clash (update_where p f rs) ≡ true
  unfolding is_distinct
  is_distinct-update_mono clash p f [] h d = refl
  is_distinct-update_mono clash p f (r ∷ rs) h d =
      rw
        (
          some_of-update_mono clash p f r rs (h r) (ground arith),
          is_distinct-update_mono clash p f rs h (ground arith),
        )
        refl

-- Tables with a key column.
module _ {A : Type 0} (key : A → ℕ) where
  abbrev pub has_key : ℕ → A → Bool
  has_key i r = key r == i

  abbrev pub same_key : A → A → Bool
  same_key a b = key a == key b

  pub select_key : (i : ℕ) (rs : List A) {r : A} → select_first (has_key i) rs ≡ some r → key r ≡ i
  select_key i rs {r} h = ground (arith, select_first-holds (has_key i) rs {r = r} h)

  some_of-update :
      (a : A) (p : A → Bool) (f : A → A) (rs : List A)
      → ((r : A) → key (f r) ≡ key r)
      → some_of (same_key a) (update_where p f rs) ≡ some_of (same_key a) rs
  some_of-update a p f [] h = refl
  some_of-update a p f (r ∷ rs) h = ground (arith, h r, some_of-update a p f rs h)

  some_of-same :
      (a b : A) (rs : List A) → key a ≡ key b → some_of (same_key a) rs ≡ some_of (same_key b) rs
  some_of-same a b [] e = refl
  some_of-same a b (r ∷ rs) e = ground (arith, some_of-same a b rs e)

  -- An update that leaves the key alone keeps the keys distinct.
  pub is_distinct-update :
      (p : A → Bool) (f : A → A) (rs : List A)
      → ((r : A) → key (f r) ≡ key r)
      → is_distinct same_key (update_where p f rs) ≡ is_distinct same_key rs
  unfolding is_distinct
  is_distinct-update p f [] h = refl
  is_distinct-update p f (r ∷ rs) h = ground (
    arith,
    is_distinct-update p f rs h,
    some_of-update r p f rs h,
    some_of-update (f r) p f rs h,
    some_of-same (f r) r rs (h r),
  )

  none_with_key :
      (a : A) (p : A → Bool) (f : A → A) (rs : List A)
      → ((r : A) → p r ≡ true → key r ≡ key a)
      → some_of (same_key a) rs ≡ false
      → returning p f rs ≡ []
  none_with_key a p f [] only h = refl
  none_with_key a p f (r ∷ rs) only h = ground (arith, only r, none_with_key a p f rs only)

  -- With distinct keys, an update by key returns the one row with that key, if it passes the test.
  pub first-returning :
      (i : ℕ) (p : A → Bool) (f : A → A) (rs : List A)
      → ((r : A) → p r ≡ true → key r ≡ i)
      → is_distinct same_key rs ≡ true
      → first (returning p f rs) ≡ elim (select_first (has_key i) rs) [
        | none ↦ none
        | some r ↦ if p r then some (f r) else none
      ]
  unfolding is_distinct select_first
  first-returning i p f [] only d = refl
  first-returning i p f (r ∷ rs) only d = elim (Bool-cases (p r)) [
    | inl e ↦ ground (arith, only r e)
    | inr e ↦ elim (Bool-cases (has_key i r)) [
      | inl hit ↦
          let gone = none_with_key r p f rs (λ x h. only x h ∙ sym (ground arith)) (ground arith) in
          rw (e, hit, gone, e)
      | inr miss ↦ rw (e, miss) (first-returning i p f rs only (ground arith))
    ]
  ]
