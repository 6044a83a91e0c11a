-- ===== src/Provisioner/Signature.antt =====
-- apps/worker/src/provisioner-request-auth.ts: what a signature binds.
use inbox_saas.Prelude.{ℕ, ◌≡◌, refl, false, [], ◌∷◌, ◌++◌, ◌==◌, arith, All}
use inbox_saas.Schema.{Characters}
use inbox_saas.Table.Links.{All-map}
use inbox_saas.Provisioner.Decimal.{decimal, decimal_injective, decimal-IsDigit, IsDigit}
use inbox_saas.Provisioner.{newline, canonical_request}

-- A text of one line.
abbrev pub IsLine : Characters → Type 0
IsLine cs = All (λ c. (c == newline) ≡ false) cs

split_lines :
    (xs ys us vs : Characters)
    → IsLine xs
    → IsLine ys
    → xs ++ (newline ∷ us) ≡ ys ++ (newline ∷ vs)
    → (xs ≡ ys) × (us ≡ vs)
split_lines [] [] us vs a b h = (refl, cc h)
split_lines [] (y ∷ ys) us vs a b h =
    let same : newline ≡ y = cc h in absurd (ground (arith, b.0, same))
split_lines (x ∷ xs) [] us vs a b h =
    let same : x ≡ newline = cc h in absurd (ground (arith, a.0, same))
split_lines (x ∷ xs) (y ∷ ys) us vs a b h =
    let head : x ≡ y = cc h in
    let tail : xs ++ (newline ∷ us) ≡ ys ++ (newline ∷ vs) = cc h in
    let (same, rest) = split_lines xs ys us vs a.1 b.1 tail in (cc (head, same), rest)

decimal-IsLine : (n : ℕ) → IsLine (decimal n)
decimal-IsLine n = All-map IsDigit _ (decimal n) (λ c d. ground (arith, d.0)) (decimal-IsDigit n)

-- Two requests whose nonces are single lines are signed over the same text only if they agree in
-- the second, the nonce and the hash of the body.
pub canonical_request_injective :
    (m n : ℕ) (nonce nonce' hash hash' : Characters)
    → IsLine nonce
    → IsLine nonce'
    → canonical_request (decimal m) nonce hash ≡ canonical_request (decimal n) nonce' hash'
    → (m ≡ n) × (nonce ≡ nonce') × (hash ≡ hash')
unfolding canonical_request
canonical_request_injective m n nonce nonce' hash hash' a b e =
    let (times, rest) =
      split_lines (decimal m) (decimal n) (nonce ++ (newline ∷ hash)) (nonce' ++ (newline ∷ hash'))
        (decimal-IsLine m) (decimal-IsLine n) e in
    let (nonces, hashes) = split_lines nonce nonce' hash hash' a b rest in
    (decimal_injective m n times, nonces, hashes)
