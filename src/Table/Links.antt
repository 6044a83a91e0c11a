-- ===== src/Table/Links.antt =====
-- What updates and insertions keep of the links between tables.
use inbox_saas.Prelude.{◌≡◌, refl, ◌∙◌, Bool, true, List, [], ◌∷◌, arith, some_of, All}
use inbox_saas.Table.{update_where, insert_row}
use inbox_saas.Table.Laws.{some_of-append}

module _ {A : Type 0} where
  -- An update that leaves the tested columns alone.
  pub some_of-update_same :
      (q p : A → Bool) (f : A → A) (rs : List A)
      → ((r : A) → q (f r) ≡ q r)
      → some_of q (update_where p f rs) ≡ some_of q rs
  some_of-update_same q p f [] h = refl
  some_of-update_same q p f (r ∷ rs) h = ground (arith, h r, some_of-update_same q p f rs h)

  pub some_of-insert :
      (q : A → Bool) (rs : List A) (r : A)
      → some_of q rs ≡ true
      → some_of q (insert_row r rs) ≡ true
  some_of-insert q rs r h = some_of-append q rs r ∙ ground arith

  pub All-map : (P Q : A → Type 0) (rs : List A) → ((r : A) → P r → Q r) → All P rs → All Q rs
  All-map P Q [] h a = tt
  All-map P Q (r ∷ rs) h a = (h r a.0, All-map P Q rs h a.1)
