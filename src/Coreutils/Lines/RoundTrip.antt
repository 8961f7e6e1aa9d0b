-- ===== src/Coreutils/Lines/RoundTrip.antt =====
-- Lines and texts: `SplitLines` after `JoinLines`, and the other way round.
use groovy_agent.Base.{
  ℕ, suc, ◌+◌, ◌≡◌, ◌≢◌, refl, sym, ap, ◌∙◌, Bytes, List, [], ◌∷◌, ◌++◌, All, ==_iff, Bool-cases,
  ◌==◌, inl, inr, length, arith, if◌then◌else◌,
}
use groovy_agent.Strings.{split_byte, push_onto, trim_last, join_with, ends_with, count_byte}
use groovy_agent.Coreutils.Lines.{newline, split_lines, join_lines}

-- A line holds no newline.
abbrev pub IsLine : Bytes → Type 0
IsLine = All (λ c. c ≢ newline)

-- Reading one line in front of a newline, or at the end of the text.
split_byte-line :
    (line rest : Bytes)
    → IsLine line
    → split_byte newline (line ++ newline ∷ rest) ≡ line ∷ split_byte newline rest
unfolding split_byte push_onto
split_byte-line [] rest h = refl
split_byte-line (c ∷ line) rest (n, h) =
    ground (arith, ==_iff c newline, split_byte-line line rest h)

split_byte-last : (line : Bytes) → IsLine line → split_byte newline line ≡ line ∷ []
unfolding split_byte push_onto
split_byte-last [] h = refl
split_byte-last (c ∷ line) (n, h) = ground (arith, ==_iff c newline, split_byte-last line h)

trim_last-append : (text : Bytes) (b : ℕ) → trim_last b (text ++ b ∷ []) ≡ text
unfolding trim_last
trim_last-append [] b = ground arith
trim_last-append (c ∷ []) b = ground arith
trim_last-append (c ∷ d ∷ text) b = rw (trim_last-append (d ∷ text) b)

split_byte-join :
    (line : Bytes) (lines : List Bytes)
    → All IsLine (line ∷ lines)
    → split_byte newline (join_with (newline ∷ []) (line ∷ lines)) ≡ line ∷ lines
unfolding join_with
split_byte-join line [] h = split_byte-last line h.0
split_byte-join line (next ∷ lines) h =
    split_byte-line line (join_with (newline ∷ []) (next ∷ lines)) h.0
    ∙ ap (◌∷◌ line) (split_byte-join next lines h.1)

split_lines-append : (text : Bytes) → split_lines (text ++ newline ∷ []) ≡ split_byte newline text
unfolding split_lines
split_lines-append [] = refl
split_lines-append (c ∷ text) = ap (split_byte newline) (trim_last-append (c ∷ text) newline)

-- Lines that hold no newline come back from the text that `JoinLines` makes of them.
pub split_lines-join_lines :
    (lines : List Bytes) → All IsLine lines → split_lines (join_lines lines) ≡ lines
unfolding join_lines
split_lines-join_lines [] h = unfold split_lines in refl
split_lines-join_lines (line ∷ lines) h =
    split_lines-append (join_with (newline ∷ []) (line ∷ lines)) ∙ split_byte-join line lines h

join_with-push_onto :
    (separator : Bytes) (c : ℕ) (parts : List Bytes)
    → join_with separator (push_onto c parts) ≡ c ∷ join_with separator parts
unfolding join_with push_onto
join_with-push_onto separator c [] = refl
join_with-push_onto separator c (p ∷ []) = refl
join_with-push_onto separator c (p ∷ q ∷ parts) = refl

push_onto-ne-nil : (c : ℕ) (parts : List Bytes) → push_onto c parts ≢ []
unfolding push_onto
push_onto-ne-nil c [] e = cc
push_onto-ne-nil c (p ∷ parts) e = cc

pub split_byte-ne-nil : (b : ℕ) (text : Bytes) → split_byte b text ≢ []
unfolding split_byte
split_byte-ne-nil b [] = λ e. cc
split_byte-ne-nil b (c ∷ text) = elim (Bool-cases (c == b)) [
  | inl s ↦ rw (s, split_byte) (λ e. cc)
  | inr o ↦ rw (o, split_byte) (push_onto-ne-nil c (split_byte b text))
]

join_with-nil :
    (separator : Bytes) (parts : List Bytes)
    → parts ≢ []
    → join_with separator ([] ∷ parts) ≡ separator ++ join_with separator parts
unfolding join_with
join_with-nil separator [] h = absurd (h refl)
join_with-nil separator (p ∷ parts) h = refl

-- `strings.Join` undoes `strings.Split`.
join_with-split_byte : (b : ℕ) (text : Bytes) → join_with (b ∷ []) (split_byte b text) ≡ text
unfolding split_byte
join_with-split_byte b [] = unfold join_with in refl
join_with-split_byte b (c ∷ text) = elim (Bool-cases (c == b)) [
  | inl s ↦
      rw (s, split_byte)
        (join_with-nil (b ∷ []) (split_byte b text) (split_byte-ne-nil b text)
          ∙ ap (◌∷◌ b) (join_with-split_byte b text)
          ∙ ap (λ x. x ∷ text) (sym ((==_iff c b).0 s)))
  | inr o ↦
      rw (o, split_byte)
        (join_with-push_onto (b ∷ []) c (split_byte b text)
          ∙ ap (◌∷◌ c) (join_with-split_byte b text))
]

trim_last-ends_with :
    (b : ℕ) (text : Bytes)
    → trim_last b text ++ b ∷ [] ≡ (if ends_with b text then text else text ++ b ∷ [])
unfolding trim_last ends_with
trim_last-ends_with b [] = refl
trim_last-ends_with b (c ∷ []) = ground (arith, ==_iff c b)
trim_last-ends_with b (c ∷ d ∷ text) = ground (arith, trim_last-ends_with b (d ∷ text))

join_lines-ne-nil :
    (lines : List Bytes)
    → lines ≢ []
    → join_lines lines ≡ join_with (newline ∷ []) lines ++ newline ∷ []
unfolding join_lines
join_lines-ne-nil [] h = absurd (h refl)
join_lines-ne-nil (line ∷ lines) h = refl

-- A text that is not empty, with a newline at its end.
abbrev pub with_newline : Bytes → Bytes
with_newline [] = []
with_newline (c ∷ text) =
    if ends_with newline (c ∷ text) then c ∷ text else (c ∷ text) ++ newline ∷ []

-- The text that `JoinLines` makes of a text's lines is the text, with a newline added at the end
-- if the text is not empty and does not end with one.
pub join_lines-split_lines : (text : Bytes) → join_lines (split_lines text) ≡ with_newline text
unfolding split_lines
join_lines-split_lines [] = unfold join_lines in refl
join_lines-split_lines (c ∷ text) =
    join_lines-ne-nil _ (split_byte-ne-nil newline (trim_last newline (c ∷ text)))
    ∙ ap (λ t. t ++ newline ∷ []) (join_with-split_byte newline (trim_last newline (c ∷ text)))
    ∙ trim_last-ends_with newline (c ∷ text)

push_onto-IsLine :
    (c : ℕ) (parts : List Bytes) → c ≢ newline → All IsLine parts → All IsLine (push_onto c parts)
unfolding push_onto
push_onto-IsLine c [] n h = ((n, tt), tt)
push_onto-IsLine c (p ∷ parts) n h = ((n, h.0), h.1)

split_byte-IsLine : (text : Bytes) → All IsLine (split_byte newline text)
unfolding split_byte
split_byte-IsLine [] = (tt, tt)
split_byte-IsLine (c ∷ text) = elim (Bool-cases (c == newline)) [
  | inl s ↦ rw (s, split_byte) (tt, split_byte-IsLine text)
  | inr o ↦
      rw (o, split_byte)
        (push_onto-IsLine c (split_byte newline text) (ground arith) (split_byte-IsLine text))
]

pub split_lines-IsLine : (text : Bytes) → All IsLine (split_lines text)
unfolding split_lines
split_lines-IsLine [] = tt
split_lines-IsLine (c ∷ text) = split_byte-IsLine (trim_last newline (c ∷ text))

length-push_onto :
    (c : ℕ) (parts : List Bytes) → parts ≢ [] → length (push_onto c parts) ≡ length parts
unfolding push_onto
length-push_onto c [] h = absurd (h refl)
length-push_onto c (p ∷ parts) h = refl

length-split_byte : (b : ℕ) (text : Bytes) → length (split_byte b text) ≡ suc (count_byte b text)
unfolding split_byte count_byte
length-split_byte b [] = refl
length-split_byte b (c ∷ text) = elim (Bool-cases (c == b)) [
  | inl s ↦ rw (s, split_byte) (omega (arith, length-split_byte b text))
  | inr o ↦
      rw (o, split_byte)
        (omega (
          arith,
          length-push_onto c (split_byte b text) (split_byte-ne-nil b text),
          length-split_byte b text,
        ))
]

count_byte-trim_last :
    (b : ℕ) (text : Bytes)
    → count_byte b (trim_last b text) + (if ends_with b text then 1 else 0) ≡ count_byte b text
unfolding count_byte trim_last ends_with
count_byte-trim_last b [] = refl
count_byte-trim_last b (c ∷ []) = ground (arith, ==_iff c b)
count_byte-trim_last b (c ∷ d ∷ text) = ground (arith, count_byte-trim_last b (d ∷ text))

-- The number of lines is the number of newlines, and one more where the text does not end with a
-- newline.
pub length-split_lines :
    (text : Bytes)
    → text ≢ []
    → length (split_lines text)
      ≡ count_byte newline text + (if ends_with newline text then 0 else 1)
unfolding split_lines
length-split_lines [] h = absurd (h refl)
length-split_lines (c ∷ text) h = elim (Bool-cases (ends_with newline (c ∷ text))) [
  | inl e ↦ rw e (
      omega (
        arith,
        length-split_byte newline (trim_last newline (c ∷ text)),
        rw e at (count_byte-trim_last newline (c ∷ text)),
      ))
  | inr e ↦ rw e (
      omega (
        arith,
        length-split_byte newline (trim_last newline (c ∷ text)),
        rw e at (count_byte-trim_last newline (c ∷ text)),
      ))
]
