-- ===== src/Strings.antt =====
-- What the source uses of Go's strings and strconv packages, on texts as lists of bytes.
use mathlib.Core.List.{reverse}
use groovy_agent.Base.{
  List, ℕ, zero, suc, ◌+◌, ◌-◌, ◌/◌, ◌%◌, Bool, true, false, ◌&&◌, ◌||◌, Bytes, [], ◌∷◌, ◌++◌, map,
  length, drop, codes, leb, ltb, ◌==◌, if◌then◌else◌, ◌≡◌, refl,
}

-- The ASCII white space of unicode.IsSpace.
abbrev pub is_space_byte : ℕ → Bool
is_space_byte a = leb 9 a && leb a 13 || a == 32

-- U+0085 and U+00A0 in UTF-8.
abbrev pub is_space_pair : ℕ → ℕ → Bool
is_space_pair a b = a == 0xc2 && (b == 0x85 || b == 0xa0)

-- U+1680, U+2000 to U+200A, U+2028, U+2029, U+202F, U+205F and U+3000 in UTF-8.
abbrev pub is_space_triple : ℕ → ℕ → ℕ → Bool
is_space_triple a b c =
    a == 0xe1 && b == 0x9a && c == 0x80
    || a == 0xe2
      && (b == 0x80 && (leb 0x80 c && leb c 0x8a || c == 0xa8 || c == 0xa9 || c == 0xaf)
          || b == 0x81 && c == 0x9f)
    || a == 0xe3 && b == 0x80 && c == 0x80

-- The width of the white space character at the front of a text, 0 if there is none.
unfoldable pub space_width : Bytes → ℕ
space_width [] = 0
space_width (a ∷ []) = if is_space_byte a then 1 else 0
space_width (a ∷ b ∷ []) = if is_space_byte a then 1 else if is_space_pair a b then 2 else 0
space_width (a ∷ b ∷ c ∷ rest) =
    if is_space_byte a
    then 1
    else if is_space_pair a b
    then 2
    else if is_space_triple a b c
    then 3
    else 0

-- The same at the end of a text, which is given from its end.
unfoldable pub space_width_back : Bytes → ℕ
space_width_back [] = 0
space_width_back (a ∷ []) = if is_space_byte a then 1 else 0
space_width_back (a ∷ b ∷ []) = if is_space_byte a then 1 else if is_space_pair b a then 2 else 0
space_width_back (a ∷ b ∷ c ∷ rest) =
    if is_space_byte a
    then 1
    else if is_space_pair b a
    then 2
    else if is_space_triple c b a
    then 3
    else 0

-- Drops what `width` finds in front, at most `fuel` times.
unfoldable pub trim_by : (Bytes → ℕ) → ℕ → Bytes → Bytes
trim_by width zero text = text
trim_by width (suc fuel) text = elim (width text) [
  | zero ↦ text
  | suc n ↦ trim_by width fuel (drop (suc n) text)
]

-- `strings.TrimSpace`; each round drops a byte at least, so the length is fuel enough.
unfoldable pub trim_space : Bytes → Bytes
unfolding trim_by space_width space_width_back
trim_space text =
    let left = trim_by space_width (length text) text in
    reverse (trim_by space_width_back (length left) (reverse left))

-- `strings.HasPrefix`
unfoldable pub has_prefix : Bytes → Bytes → Bool
has_prefix text [] = true
has_prefix [] (p ∷ prefix) = false
has_prefix (c ∷ text) (p ∷ prefix) = c == p && has_prefix text prefix

-- `strings.Contains`
unfoldable pub contains : Bytes → Bytes → Bool
unfolding has_prefix
contains [] needle = has_prefix [] needle
contains (c ∷ text) needle = has_prefix (c ∷ text) needle || contains text needle

unfoldable pub contains_byte : Bytes → ℕ → Bool
contains_byte [] b = false
contains_byte (c ∷ text) b = c == b || contains_byte text b

-- `strings.ToLower`: bytes of an ASCII text; the Unicode case tables are `unicode_lower`.
abbrev lower_byte : ℕ → ℕ
lower_byte c = if leb b'A' c && leb c b'Z' then c + 32 else c

is_ascii : Bytes → Bool
is_ascii [] = true
is_ascii (c ∷ text) = ltb c 128 && is_ascii text

unfoldable pub to_lower : (Bytes → Bytes) → Bytes → Bytes
unfolding is_ascii
to_lower unicode_lower text = if is_ascii text then map lower_byte text else unicode_lower text

-- `strings.Split(text, separator)` for a separator of one byte; never empty.
unfoldable pub push_onto : ℕ → List Bytes → List Bytes
push_onto c [] = (c ∷ []) ∷ []
push_onto c (part ∷ rest) = (c ∷ part) ∷ rest

unfoldable pub split_byte : ℕ → Bytes → List Bytes
unfolding push_onto
split_byte separator [] = [] ∷ []
split_byte separator (c ∷ text) =
    if c == separator
    then [] ∷ split_byte separator text
    else push_onto c (split_byte separator text)

-- `strings.Split` for a separator that is not empty: a found separator is skipped byte by byte.
split_from : Bytes → ℕ → Bytes → List Bytes
split_from separator skip [] = [] ∷ []
split_from separator (suc skip) (c ∷ text) = split_from separator skip text
split_from separator zero (c ∷ text) =
    let found = [] ∷ split_from separator (length separator - 1) text in
    let next = push_onto c (split_from separator zero text) in
    if has_prefix (c ∷ text) separator then found else next

unfoldable pub split : Bytes → Bytes → List Bytes
unfolding split_from push_onto has_prefix
split text separator = split_from separator 0 text

-- `strings.Join`
unfoldable pub join_with : Bytes → List Bytes → Bytes
join_with separator [] = []
join_with separator (part ∷ []) = part
join_with separator (part ∷ next ∷ rest) = part ++ (separator ++ join_with separator (next ∷ rest))

-- `strings.HasSuffix(text, "\n")` and the like, for one byte.
unfoldable pub ends_with : ℕ → Bytes → Bool
ends_with b [] = false
ends_with b (c ∷ []) = c == b
ends_with b (c ∷ d ∷ text) = ends_with b (d ∷ text)

-- `strings.TrimSuffix` for one byte.
unfoldable pub trim_last : ℕ → Bytes → Bytes
trim_last b [] = []
trim_last b (c ∷ []) = if c == b then [] else c ∷ []
trim_last b (c ∷ d ∷ text) = c ∷ trim_last b (d ∷ text)

before_trimmed : ℕ → ℕ → Bytes → Bytes
before_trimmed b c [] = if c == b then [] else c ∷ []
before_trimmed b c (d ∷ text) = c ∷ d ∷ text

-- `strings.TrimRight` for one byte.
unfoldable pub trim_right : ℕ → Bytes → Bytes
unfolding before_trimmed
trim_right b [] = []
trim_right b (c ∷ text) = before_trimmed b c (trim_right b text)

-- `strings.Count(text, b)` for one byte.
unfoldable pub count_byte : ℕ → Bytes → ℕ
count_byte b [] = 0
count_byte b (c ∷ text) = (if c == b then 1 else 0) + count_byte b text

-- `strconv.Itoa` of a number that is not negative: a number has no more digits than units.
decimal_onto : ℕ → ℕ → Bytes → Bytes
decimal_onto zero n out = out
decimal_onto (suc fuel) n out =
    let digit = b'0' + n % 10 in
    elim (n / 10) [ zero ↦ digit ∷ out | suc q ↦ decimal_onto fuel (suc q) (digit ∷ out) ]

unfoldable pub decimal : ℕ → Bytes
unfolding decimal_onto
decimal n = decimal_onto (suc n) n []

decimal_runs : decimal 4096 ≡ codes "4096"
unfolding decimal
decimal_runs = refl

trim_space_runs : trim_space (codes " \tab c\n" ++ 0xc2 ∷ 0xa0 ∷ []) ≡ codes "ab c"
unfolding trim_space
trim_space_runs = refl

unfoldable pub is_empty : Bytes → Bool
is_empty [] = true
is_empty (c ∷ text) = false
