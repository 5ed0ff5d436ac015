-- ===== src/Text/Split.antt =====
-- strings.Split and Join at a separator of one character, prefixes, lengths and hexadecimal text.
use headnet.Base.{
  suc, zero, Bool, false, ◌||◌, ◌≡◌, refl, arith, ==_refl, ℕ, ◌+◌, ◌-◌, ◌/◌, ◌%◌, Option, none,
  some, List, [], ◌∷◌, ◌++◌, ltb, ◌==◌, if◌then◌else◌,
}
use mathlib.Core.List.{reverse}
use headnet.Text.Space.{Text}

-- The bytes that a code point takes in UTF-8.
abbrev pub rune_bytes : ℕ → ℕ
rune_bytes c = if ltb c 0x80 then 1 else if ltb c 0x800 then 2 else if ltb c 0x10000 then 3 else 4

-- len(s)
unfoldable pub byte_length : Text → ℕ
byte_length [] = 0
byte_length (c ∷ s) = rune_bytes c + byte_length s

-- strings.CutPrefix
unfoldable pub cut_prefix : Text → Text → Option Text
cut_prefix [] s = some s
cut_prefix (c ∷ p) [] = none
cut_prefix (c ∷ p) (d ∷ s) = if c == d then cut_prefix p s else none

abbrev pub cons_to_first : ℕ → List Text → List Text
cons_to_first c [] = (c ∷ []) ∷ []
cons_to_first c (w ∷ ws) = (c ∷ w) ∷ ws

-- strings.Split
unfoldable pub split : ℕ → Text → List Text
split sep [] = [] ∷ []
split sep (c ∷ s) = let rest = split sep s in if c == sep then [] ∷ rest else cons_to_first c rest

abbrev join_rest : ℕ → List Text → Text
join_rest sep [] = []
join_rest sep (w ∷ ws) = sep ∷ (w ++ join_rest sep ws)

-- strings.Join
unfoldable pub join : ℕ → List Text → Text
join sep [] = []
join sep (w ∷ ws) = w ++ join_rest sep ws

abbrev pub hex_digit : ℕ → ℕ
hex_digit n = if ltb n 10 then b'0' + n else b'a' + (n - 10)

-- hex.EncodeToString
unfoldable pub hex : List ℕ → Text
hex [] = []
hex (b ∷ bs) = hex_digit (b / 16) ∷ hex_digit (b % 16) ∷ hex bs

-- The character is in the text.
unfoldable pub has_char : ℕ → Text → Bool
has_char sep [] = false
has_char sep (c ∷ s) = c == sep || has_char sep s

pub has_char-append :
    (sep : ℕ) (s t : Text) → has_char sep (s ++ t) ≡ has_char sep s || has_char sep t
unfolding has_char
has_char-append sep [] t = refl
has_char-append sep (c ∷ s) t = ground (arith, has_char-append sep s t)

pub split-append :
    (sep : ℕ) (w rest : Text)
    → has_char sep w ≡ false
    → split sep (w ++ sep ∷ rest) ≡ w ∷ split sep rest
unfolding split has_char
split-append sep [] rest h = rw (==_refl sep)
split-append sep (c ∷ w) rest h =
    let apart : (c == sep) ≡ false = ground arith in
    let clear : has_char sep w ≡ false = ground arith in rw (apart, split-append sep w rest clear)

pub split-word : (sep : ℕ) (w : Text) → has_char sep w ≡ false → split sep w ≡ w ∷ []
unfolding split has_char
split-word sep [] h = refl
split-word sep (c ∷ w) h =
    let apart : (c == sep) ≡ false = ground arith in
    let clear : has_char sep w ≡ false = ground arith in rw (apart, split-word sep w clear)

-- The decimal digits of a number, the last first, for `digits` digits at most.
unfoldable pub digits_from : ℕ → ℕ → Text
digits_from zero n = []
digits_from (suc digits) n =
    let rest = digits_from digits (n / 10) in
    if ltb n 10 then (b'0' + n) ∷ [] else (b'0' + n % 10) ∷ rest

-- What the verb %d prints of a number below 10 ^ 20.
unfoldable pub decimal : ℕ → Text
unfolding digits_from
decimal n = reverse (digits_from 20 n)
