-- ===== src/Api/Text.antt =====
-- packages/api/src/v1.ts: the patterns that its handlers test texts with, on lists of code units.
-- `/i` pairs an ASCII letter of a pattern with its other case, and nothing else.
use inbox_saas.Prelude.{
  ℕ, suc, zero, ◌-◌, Bool, true, false, Option, none, some, List, [], ◌∷◌, ◌==◌, ◌&&◌, ◌||◌, not,
  leb, if◌then◌else◌,
}
use inbox_saas.Schema.{Characters}

-- `\s`, which is also what `trim` removes.
unfoldable pub is_space : ℕ → Bool
is_space c =
    (leb 9 c && leb c 13)
    || c == 32
    || c == 160
    || c == 5760
    || (leb 8192 c && leb c 8202)
    || c == 8232
    || c == 8233
    || c == 8239
    || c == 8287
    || c == 12288
    || c == 65279

abbrev pub all_of : (ℕ → Bool) → Characters → Bool
all_of p [] = true
all_of p (c ∷ cs) = p c && all_of p cs

abbrev pub is_empty : Characters → Bool
is_empty [] = true
is_empty (c ∷ cs) = false

-- `text.trim().length === 0`
abbrev pub is_blank : Characters → Bool
is_blank text = all_of is_space text

-- A small letter `l` of a pattern under `/i`, or another character.
abbrev pub same_letter : ℕ → ℕ → Bool
same_letter l c = l == c || (leb 97 l && leb l 122 && l - 32 == c)

unfoldable pub after_letters : Characters → Characters → Option Characters
after_letters [] text = some text
after_letters (l ∷ ls) [] = none
after_letters (l ∷ ls) (c ∷ cs) = if same_letter l c then after_letters ls cs else none

abbrev pub skip_spaces : Characters → Characters
skip_spaces [] = []
skip_spaces (c ∷ cs) = if is_space c then skip_spaces cs else c ∷ cs

abbrev bearer : Characters
bearer = 98 ∷ 101 ∷ 97 ∷ 114 ∷ 101 ∷ 114 ∷ []

-- `(\S+)$`, where `\s+` has taken every space.
abbrev pub last_word : Characters → Option Characters
last_word text =
    if is_empty text || not (all_of (λ c. not (is_space c)) text) then none else some text

abbrev after_bearer : Option Characters → Option Characters
after_bearer none = none
after_bearer (some []) = none
after_bearer (some (c ∷ cs)) = if is_space c then last_word (skip_spaces cs) else none

-- `/^Bearer\s+(\S+)$/i.exec(text)?.[1]`
unfoldable pub bearer_token : Characters → Option Characters
bearer_token text = after_bearer (after_letters bearer text)

abbrev application_json : Characters
application_json =
    97 ∷ 112 ∷ 112 ∷ 108 ∷ 105 ∷ 99 ∷ 97 ∷ 116 ∷ 105 ∷ 111 ∷ 110 ∷ 47 ∷ 106 ∷ 115 ∷ 111 ∷ 110 ∷ []

abbrev ends_type : Option Characters → Bool
ends_type none = false
ends_type (some []) = true
ends_type (some (c ∷ cs)) = c == 59

-- `/^application\/json(?:;|$)/i`
unfoldable pub is_json : Characters → Bool
is_json text = ends_type (after_letters application_json text)

-- `[0-9a-f]` under `/i`
abbrev pub is_hex : ℕ → Bool
is_hex c = (leb 48 c && leb c 57) || (leb 97 c && leb c 102) || (leb 65 c && leb c 70)

abbrev pub dash : ℕ → Bool
dash c = c == 45

abbrev pub digits : ℕ → List (ℕ → Bool) → List (ℕ → Bool)
digits zero ps = ps
digits (suc n) ps = is_hex ∷ digits n ps

-- The 36 places of a uuid: 8, 4, 4, 4 and 12 digits with dashes between.
abbrev uuid_places : List (ℕ → Bool)
uuid_places = digits 8 (dash ∷ digits 4 (dash ∷ digits 4 (dash ∷ digits 4 (dash ∷ digits 12 []))))

abbrev pub fits_places : List (ℕ → Bool) → Characters → Bool
fits_places [] [] = true
fits_places [] (c ∷ cs) = false
fits_places (p ∷ ps) [] = false
fits_places (p ∷ ps) (c ∷ cs) = p c && fits_places ps cs

unfoldable pub is_uuid : Characters → Bool
is_uuid text = fits_places uuid_places text

-- `[^\s@]`
abbrev pub is_atom : ℕ → Bool
is_atom c = not (is_space c) && not (c == 64)

-- `\.[^\s@]+$` somewhere in the rest, all of which is checked to be atoms.
abbrev pub dot_then_more : Characters → Bool
dot_then_more [] = false
dot_then_more (c ∷ cs) = (c == 46 && not (is_empty cs)) || dot_then_more cs

abbrev pub is_domain : Characters → Bool
is_domain [] = false
is_domain (c ∷ cs) = all_of is_atom (c ∷ cs) && dot_then_more cs

-- `[^\s@]*@[^\s@]+\.[^\s@]+$`
abbrev pub rest_of_address : Characters → Bool
rest_of_address [] = false
rest_of_address (c ∷ cs) = if c == 64 then is_domain cs else (is_atom c && rest_of_address cs)

-- `/^[^\s@]+@[^\s@]+\.[^\s@]+$/`
unfoldable pub is_email : Characters → Bool
is_email [] = false
is_email (c ∷ cs) = is_atom c && rest_of_address cs
