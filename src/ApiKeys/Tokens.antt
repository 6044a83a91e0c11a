-- ===== src/ApiKeys/Tokens.antt =====
-- packages/product/src/api-keys.ts: the text of a token, and the pattern that reads it back,
-- `/^inbx_([A-Za-z0-9_-]{32})_([A-Za-z0-9_-]{43})$/`.
use inbox_saas.Prelude.{
  append-nil, ℕ, zero, suc, ◌≡◌, ◌↔◌, refl, ap, subst, sym, ◌∙◌, Bool, true, Option, none, some, [],
  ◌∷◌, ◌++◌, arith, ◌==◌, ◌&&◌, ◌||◌, leb, length, if◌then◌else◌, All, Bool-cases, inl, inr,
}
use inbox_saas.Schema.{Characters}

-- `inbx_`
abbrev pub mark : Characters
mark = 105 ∷ 110 ∷ 98 ∷ 120 ∷ 95 ∷ []

-- `_`
abbrev pub bar : Characters
bar = 95 ∷ []

-- `` `inbx_${prefix}_${secret}` ``
abbrev pub token_of : Characters → Characters → Characters
token_of prefix secret = mark ++ (prefix ++ (bar ++ secret))

-- `[A-Za-z0-9_-]`
unfoldable pub is_word : ℕ → Bool
is_word c =
    (leb 65 c && leb c 90)
    || (leb 97 c && leb c 122)
    || (leb 48 c && leb c 57)
    || c == 95
    || c == 45

-- A literal of the pattern: what follows it.
unfoldable pub literal : Characters → Characters → Option Characters
literal [] text = some text
literal (l ∷ ls) [] = none
literal (l ∷ ls) (c ∷ cs) = if l == c then literal ls cs else none

abbrev prepend : ℕ → Option (Characters × Characters) → Option (Characters × Characters)
prepend c none = none
prepend c (some (group, rest)) = some (c ∷ group, rest)

-- `([A-Za-z0-9_-]{n})`: the group, and what follows it.
unfoldable pub word_group : ℕ → Characters → Option (Characters × Characters)
word_group zero text = some ([], text)
word_group (suc n) [] = none
word_group (suc n) (c ∷ cs) =
    let rest = word_group n cs in if is_word c then prepend c rest else none

abbrev end_of : Characters → Characters → Option Characters
end_of prefix [] = some prefix
end_of prefix (c ∷ cs) = none

abbrev secret_part : Characters → Option (Characters × Characters) → Option Characters
secret_part prefix none = none
secret_part prefix (some (secret, rest)) = end_of prefix rest

abbrev after_bar : Characters → Option Characters → Option Characters
after_bar prefix none = none
after_bar prefix (some secret) = secret_part prefix (word_group 43 secret)

abbrev after_prefix : Option (Characters × Characters) → Option Characters
after_prefix none = none
after_prefix (some (prefix, rest)) = after_bar prefix (literal bar rest)

abbrev after_mark : Option Characters → Option Characters
after_mark none = none
after_mark (some rest) = after_prefix (word_group 32 rest)

-- The first group of the match.
unfoldable pub parse_token : Characters → Option Characters
parse_token token = after_mark (literal mark token)

-- A text of the given length over the alphabet of base64url: what `randomBytes(k)` prints as.
pub record IsWord (n : ℕ) (text : Characters) : Type 0 where
  pub long : length text ≡ n
  pub words : All (λ c. is_word c ≡ true) text

literal-append : (ls text : Characters) → literal ls (ls ++ text) ≡ some text
unfolding literal
literal-append [] text = refl
literal-append (l ∷ ls) text = ground (arith, literal-append ls text)

word_group-append :
    (text rest : Characters)
    → All (λ c. is_word c ≡ true) text
    → word_group (length text) (text ++ rest) ≡ some (text, rest)
unfolding word_group
word_group-append [] rest h = refl
word_group-append (c ∷ cs) rest h = rw (h.0, word_group-append cs rest h.1) refl

-- What a literal, a group and the whole pattern have read when they match.
abbrev IsRead : Characters → Characters → Option Characters → Type 0
IsRead ls text none = Unit
IsRead ls text (some rest) = text ≡ ls ++ rest

abbrev IsGroup : ℕ → Characters → Option (Characters × Characters) → Type 0
IsGroup n text none = Unit
IsGroup n text (some (group, rest)) = IsWord n group × (text ≡ group ++ rest)

abbrev IsPrinted : (Characters → Characters → Characters) → Characters → Option Characters → Type 0
IsPrinted print token none = Unit
IsPrinted print token (some prefix) =
    (secret : Characters) × IsWord 32 prefix × IsWord 43 secret × (token ≡ print prefix secret)

literal-IsRead : (ls text : Characters) → IsRead ls text (literal ls text)
unfolding literal
literal-IsRead [] text = refl
literal-IsRead (l ∷ ls) [] = tt
literal-IsRead (l ∷ ls) (c ∷ cs) = elim (Bool-cases (l == c)) [
  | inl e ↦ rw e (read_one (literal ls cs) (literal-IsRead ls cs) e)
  | inr e ↦ rw e tt
]
  where
    read_one : (o : Option Characters) → IsRead ls cs o → l == c ≡ true → IsRead (l ∷ ls) (c ∷ cs) o
    read_one none h e = tt
    read_one (some rest) h e = ground arith

word_group-IsGroup : (n : ℕ) (text : Characters) → IsGroup n text (word_group n text)
unfolding word_group
word_group-IsGroup zero text = (record { long = refl; words = tt }, refl)
word_group-IsGroup (suc n) [] = tt
word_group-IsGroup (suc n) (c ∷ cs) = elim (Bool-cases (is_word c)) [
  | inl e ↦ rw e (group_one (word_group n cs) (word_group-IsGroup n cs) e)
  | inr e ↦ rw e tt
]
  where
    group_one :
        (o : Option (Characters × Characters))
        → IsGroup n cs o
        → is_word c ≡ true
        → IsGroup (suc n) (c ∷ cs) (prepend c o)
    group_one none h e = tt
    group_one (some (group, rest)) (w, t) e =
        (record { long = ap suc w.long; words = (e, w.words) }, ap (λ x. c ∷ x) t)

abbrev body_of : Characters → Characters → Characters
body_of prefix secret = prefix ++ (bar ++ secret)

module _ (prefix : Characters) (w : IsWord 32 prefix) where
  secret_part-IsPrinted :
      (text : Characters) (o : Option (Characters × Characters))
      → IsGroup 43 text o
      → IsPrinted body_of (body_of prefix text) (secret_part prefix o)
  secret_part-IsPrinted text none h = tt
  secret_part-IsPrinted text (some (secret, [])) (v, t) =
      (secret, w, v, ap (body_of prefix) (t ∙ append-nil secret))
  secret_part-IsPrinted text (some (secret, c ∷ cs)) h = tt

  after_bar-IsPrinted :
      (rest : Characters) (o : Option Characters)
      → IsRead bar rest o
      → IsPrinted body_of (prefix ++ rest) (after_bar prefix o)
  after_bar-IsPrinted rest none h = tt
  after_bar-IsPrinted rest (some text) h =
      subst (λ x. IsPrinted body_of (prefix ++ x) (secret_part prefix (word_group 43 text))) (sym h)
        (secret_part-IsPrinted text (word_group 43 text) (word_group-IsGroup 43 text))

after_prefix-IsPrinted :
    (rest : Characters) (o : Option (Characters × Characters))
    → IsGroup 32 rest o
    → IsPrinted body_of rest (after_prefix o)
after_prefix-IsPrinted rest none h = tt
after_prefix-IsPrinted rest (some (prefix, more)) (w, t) =
    subst (λ x. IsPrinted body_of x (after_bar prefix (literal bar more))) (sym t)
      (after_bar-IsPrinted prefix w more (literal bar more) (literal-IsRead bar more))

marked :
    (token rest : Characters) (o : Option Characters)
    → token ≡ mark ++ rest
    → IsPrinted body_of rest o
    → IsPrinted token_of token o
marked token rest none e h = tt
marked token rest (some prefix) e (secret, w, v, t) = (secret, w, v, e ∙ ap (λ x. mark ++ x) t)

after_mark-IsPrinted :
    (token : Characters) (o : Option Characters)
    → IsRead mark token o
    → IsPrinted token_of token (after_mark o)
after_mark-IsPrinted token none h = tt
after_mark-IsPrinted token (some rest) h =
    marked token rest (after_prefix (word_group 32 rest)) h
      (after_prefix-IsPrinted rest (word_group 32 rest) (word_group-IsGroup 32 rest))

parse_token-IsPrinted : (token : Characters) → IsPrinted token_of token (parse_token token)
unfolding parse_token
parse_token-IsPrinted token =
    after_mark-IsPrinted token (literal mark token) (literal-IsRead mark token)

word_group-word :
    (n : ℕ) (text rest : Characters)
    → IsWord n text
    → word_group n (text ++ rest) ≡ some (text, rest)
word_group-word n text rest w =
    subst (λ k. word_group k (text ++ rest) ≡ some (text, rest)) w.long
      (word_group-append text rest w.words)

-- A printed token is read back.
pub parse_token-token_of :
    (prefix secret : Characters)
    → IsWord 32 prefix
    → IsWord 43 secret
    → parse_token (token_of prefix secret) ≡ some prefix
unfolding parse_token
parse_token-token_of prefix secret w v =
    let whole : word_group 43 secret ≡ some (secret, []) =
      subst (λ x. word_group 43 x ≡ some (secret, [])) (append-nil secret)
        (word_group-word 43 secret [] v) in
    rw
      (
        literal-append mark (body_of prefix secret),
        word_group-word 32 prefix (bar ++ secret) w,
        literal-append bar secret,
        whole,
      )
      refl

-- The pattern matches exactly the texts that are printed for a prefix of 32 and a secret of 43
-- characters of the alphabet, and its first group is that prefix.
pub parse_token_iff :
    (token prefix : Characters)
    → (parse_token token ≡ some prefix) ↔ (
        (secret : Characters) × IsWord 32 prefix
        × IsWord 43 secret
        × (token ≡ token_of prefix secret))
parse_token_iff token prefix = (
  λ h. subst (IsPrinted token_of token) h (parse_token-IsPrinted token),
  λ (secret, w, v, t). ap parse_token t ∙ parse_token-token_of prefix secret w v,
)
