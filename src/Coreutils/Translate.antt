-- ===== src/Coreutils/Translate.antt =====
-- coreutils/text.go: `Tr`, on the characters that Go decodes from UTF-8.
use groovy_agent.Base.{
  ℕ, zero, suc, ◌+◌, ◌*◌, ◌/◌, ◌%◌, ◌≡◌, refl, Bool, true, false, ◌&&◌, ◌||◌, Bytes, List, [], ◌∷◌,
  ◌++◌, Option, none, some, ltb, leb, ◌==◌, codes, if◌then◌else◌, Result, ok, err,
}

between : ℕ → ℕ → ℕ → Bool
between low high c = leb low c && leb c high

-- `utf8.RuneError`, which stands for a byte that is no part of a character.
abbrev rune_error : ℕ
rune_error = 0xfffd

second_low : ℕ → ℕ
second_low c = if c == 0xe0 then 0xa0 else if c == 0xf0 then 0x90 else 0x80

second_high : ℕ → ℕ
second_high c = if c == 0xed then 0x9f else if c == 0xf4 then 0x8f else 0xbf

two : ℕ → ℕ → Bool
unfolding between
two c d = between 0xc2 0xdf c && between 0x80 0xbf d

three : ℕ → ℕ → ℕ → Bool
unfolding between second_low second_high
three c d e = between 0xe0 0xef c && between (second_low c) (second_high c) d && between 0x80 0xbf e

four : ℕ → ℕ → ℕ → ℕ → Bool
unfolding between second_low second_high
four c d e f =
    between 0xf0 0xf4 c
    && between (second_low c) (second_high c) d
    && between 0x80 0xbf e
    && between 0x80 0xbf f

-- The first character and the number of further bytes that it takes.
decode_rune : Bytes → ℕ × ℕ
unfolding two three four
decode_rune (c ∷ d ∷ e ∷ f ∷ rest) =
    if ltb c 0x80
    then (c, 0)
    else if two c d
    then (c % 32 * 64 + d % 64, 1)
    else if three c d e
    then ((c % 16 * 64 + d % 64) * 64 + e % 64, 2)
    else if four c d e f
    then (((c % 8 * 64 + d % 64) * 64 + e % 64) * 64 + f % 64, 3)
    else (rune_error, 0)
decode_rune (c ∷ d ∷ e ∷ []) =
    if ltb c 0x80
    then (c, 0)
    else if two c d
    then (c % 32 * 64 + d % 64, 1)
    else if three c d e
    then ((c % 16 * 64 + d % 64) * 64 + e % 64, 2)
    else (rune_error, 0)
decode_rune (c ∷ d ∷ []) =
    if ltb c 0x80 then (c, 0) else if two c d then (c % 32 * 64 + d % 64, 1) else (rune_error, 0)
decode_rune (c ∷ []) = if ltb c 0x80 then (c, 0) else (rune_error, 0)
decode_rune [] = (rune_error, 0)

-- `[]rune(text)`, and the characters of `range text`; `skip` counts the bytes left of a character.
runes_from : ℕ → Bytes → List ℕ
unfolding decode_rune
runes_from skip [] = []
runes_from (suc skip) (c ∷ text) = runes_from skip text
runes_from zero (c ∷ text) =
    let (rune, width) = decode_rune (c ∷ text) in rune ∷ runes_from width text

runes : Bytes → List ℕ
unfolding runes_from
runes text = runes_from 0 text

-- `builder.WriteRune`, for a decoded character
encode_rune : ℕ → Bytes
encode_rune r =
    if ltb r 0x80
    then r ∷ []
    else if ltb r 0x800
    then (0xc0 + r / 64) ∷ (0x80 + r % 64) ∷ []
    else if ltb r 0x10000
    then (0xe0 + r / 4096) ∷ (0x80 + r / 64 % 64) ∷ (0x80 + r % 64) ∷ []
    else (0xf0 + r / 262144) ∷ (0x80 + r / 4096 % 64) ∷ (0x80 + r / 64 % 64) ∷ (0x80 + r % 64) ∷ []

encode : List ℕ → Bytes
unfolding encode_rune
encode [] = []
encode (r ∷ rest) = encode_rune r ++ encode rest

has_rune : List ℕ → ℕ → Bool
has_rune [] r = false
has_rune (s ∷ set) r = s == r || has_rune set r

delete_runes : List ℕ → List ℕ → List ℕ
unfolding has_rune
delete_runes set [] = []
delete_runes set (r ∷ rest) =
    if has_rune set r then delete_runes set rest else r ∷ delete_runes set rest

last_of : ℕ → List ℕ → ℕ
last_of r [] = r
last_of r (s ∷ rest) = last_of s rest

-- What the mapping holds for a character: the last assignment counts.
mapped : List ℕ → List ℕ → ℕ → ℕ → Option ℕ
mapped [] target last r = none
mapped (s ∷ source) [] last r = elim (mapped source [] last r) [
  | some later ↦ some later
  | none ↦ if s == r then some last else none
]
mapped (s ∷ source) (t ∷ target) last r = elim (mapped source target last r) [
  | some later ↦ some later
  | none ↦ if s == r then some t else none
]

or_same : ℕ → Option ℕ → ℕ
or_same r none = r
or_same r (some t) = t

replace_runes : List ℕ → List ℕ → ℕ → List ℕ → List ℕ
unfolding mapped or_same
replace_runes source target last [] = []
replace_runes source target last (r ∷ rest) =
    or_same r (mapped source target last r) ∷ replace_runes source target last rest

pub data TrError : Type 0 where
  empty_source empty_target : TrError

translate : Bytes → List ℕ → List ℕ → Result TrError Bytes
unfolding encode replace_runes last_of
translate text source [] = err empty_target
translate text source (t ∷ target) =
    ok (encode (replace_runes source (t ∷ target) (last_of t target) (runes text)))

tr_from : Bytes → List ℕ → Bytes → Bool → Result TrError Bytes
unfolding encode delete_runes translate runes
tr_from text [] to delete = err empty_source
tr_from text (s ∷ source) to true = ok (encode (delete_runes (s ∷ source) (runes text)))
tr_from text (s ∷ source) to false = translate text (s ∷ source) (runes to)

-- `Tr`
pub tr : Bytes → Bytes → Bytes → Bool → Result TrError Bytes
unfolding tr_from runes
tr text from to delete = tr_from text (runes from) to delete

tr_runs :
    (tr (codes "banana") (codes "an") (codes "o") false ≡ ok (codes "booooo"))
    × (tr (codes "banana") (codes "an") [] true ≡ ok (codes "b"))
    × (runes (0xe2 ∷ 0x82 ∷ 0xac ∷ b'a' ∷ 0xff ∷ []) ≡ 0x20ac ∷ b'a' ∷ 0xfffd ∷ [])
unfolding tr runes
tr_runs = (refl, refl, refl)
