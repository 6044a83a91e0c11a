-- ===== src/Limiter/Counts.antt =====
-- A JavaScript `Map` from organizations to counts, as an association list.
use inbox_saas.Prelude.{ℕ, ◌≡◌, refl, Option, none, some, List, [], ◌∷◌, arith, ◌==◌, if◌then◌else◌}

abbrev pub Counts : Type 0
Counts = List (ℕ × ℕ)

-- `map.get(o)`
unfoldable pub lookup : ℕ → Counts → Option ℕ
lookup o [] = none
lookup o (entry ∷ rest) = if entry.0 == o then some entry.1 else lookup o rest

-- `map.delete(o)`
unfoldable pub erase : ℕ → Counts → Counts
erase o [] = []
erase o (entry ∷ rest) = if entry.0 == o then erase o rest else entry ∷ erase o rest

-- `map.set(o, n)`
unfoldable pub insert : ℕ → ℕ → Counts → Counts
insert o n [] = (o, n) ∷ []
insert o n (entry ∷ rest) = if entry.0 == o then (o, n) ∷ rest else entry ∷ insert o n rest

pub lookup-erase :
    (o p : ℕ) (m : Counts) → lookup p (erase o m) ≡ (if o == p then none else lookup p m)
unfolding lookup erase
lookup-erase o p [] = ground arith
lookup-erase o p (entry ∷ rest) = ground (arith, lookup-erase o p rest)

pub lookup-insert :
    (o p n : ℕ) (m : Counts) → lookup p (insert o n m) ≡ (if o == p then some n else lookup p m)
unfolding lookup insert
lookup-insert o p n [] = refl
lookup-insert o p n (entry ∷ rest) = ground (arith, lookup-insert o p n rest)
