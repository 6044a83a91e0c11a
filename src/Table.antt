-- ===== src/Table.antt =====
-- Rows of a table as a list, and the statements that packages/product and apps/worker make on them
-- through drizzle: `select … where`, `update … set … where … returning`, `insert`.
pub mod Laws
pub mod Links
use inbox_saas.Prelude.{
  ℕ, Bool, true, false, Option, none, some, List, [], ◌∷◌, ◌++◌, ◌==◌, ◌&&◌, not, keep, first,
  some_of, if◌then◌else◌,
}

module _ {A : Type 0} where
  -- `update(t).set(f).where(p)`
  abbrev pub update_where : (A → Bool) → (A → A) → List A → List A
  update_where p f [] = []
  update_where p f (r ∷ rs) = (if p r then f r else r) ∷ update_where p f rs

  -- The rows that `update(t).set(f).where(p).returning()` yields.
  abbrev pub returning : (A → Bool) → (A → A) → List A → List A
  returning p f [] = []
  returning p f (r ∷ rs) = if p r then f r ∷ returning p f rs else returning p f rs

  -- `insert(t).values(r)`
  abbrev pub insert_row : A → List A → List A
  insert_row r rs = rs ++ (r ∷ [])

  -- No two rows clash: what a unique index over the columns that `clash` compares enforces.
  unfoldable pub is_distinct : (A → A → Bool) → List A → Bool
  is_distinct clash [] = true
  is_distinct clash (r ∷ rs) = not (some_of (clash r) rs) && is_distinct clash rs

  -- `const [row] = select().from(t).where(p)`
  unfoldable pub select_first : (A → Bool) → List A → Option A
  select_first p rs = first (keep p rs)
