-- ===== src/Numbers.antt =====
-- Go's strconv.Atoi and strconv.Itoa on 64-bit integers.
use groovy_agent.Base.{
  ℕ, zero, suc, ◌+◌, ◌-◌, ◌*◌, ◌^◌, ◌≡◌, refl, Bool, true, false, ◌&&◌, Bytes, [], ◌∷◌, ltb, leb,
  ◌==◌, codes, if◌then◌else◌, ℤ, pos, negsuc,
}

-- The digits of an unsigned number: what `strconv.ParseUint` finds first.
pub data Digits : Type 0 where
  bad_syntax too_large : Digits
  value : ℕ → Digits

digits : ℕ → Bytes → Digits
digits n [] = value n
digits n (c ∷ text) =
    let next = n * 10 + (c - b'0') in
    let rest = digits next text in
    if leb b'0' c && leb c b'9' then (if ltb next (2 ^ 64) then rest else too_large) else bad_syntax

unsigned : Bytes → Digits
unfolding digits
unsigned [] = bad_syntax
unsigned (c ∷ text) = digits 0 (c ∷ text)

minus : ℕ → ℤ
minus zero = pos 0
minus (suc n) = negsuc n

max_int : ℕ
max_int = 2 ^ 63 - 1

positive_int : Digits → ℤ × Bool
unfolding max_int
positive_int bad_syntax = (pos 0, false)
positive_int too_large = (pos max_int, false)
positive_int (value n) = if leb n max_int then (pos n, true) else (pos max_int, false)

negative_int : Digits → ℤ × Bool
unfolding max_int minus
negative_int bad_syntax = (pos 0, false)
negative_int too_large = (negsuc max_int, false)
negative_int (value n) = if leb n (suc max_int) then (minus n, true) else (negsuc max_int, false)

-- `strconv.Atoi`: the value, which is the nearest one if the number is out of range, and whether
-- there is no error.
unfoldable pub atoi : Bytes → ℤ × Bool
unfolding positive_int negative_int unsigned
atoi [] = (pos 0, false)
atoi (c ∷ text) =
    if c == b'-'
    then negative_int (unsigned text)
    else positive_int (unsigned (if c == b'+' then text else c ∷ text))

atoi_runs :
    (atoi (codes "10000") ≡ (pos 10000, true))
    × (atoi (codes "-7") ≡ (negsuc 6, true))
    × (atoi (codes "1x") ≡ (pos 0, false))
    × (atoi (codes "99999999999999999999") ≡ (pos (2 ^ 63 - 1), false))
unfolding atoi
atoi_runs = (refl, refl, refl, refl)
