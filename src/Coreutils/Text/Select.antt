-- ===== src/Coreutils/Text/Select.antt =====
-- `Head`, `Tail` and `WordCount` against the lines of the text.
use groovy_agent.Base.{
  ℕ, zero, suc, ◌-◌, ◌≤◌, ◌≡◌, refl, ap, ◌∙◌, Bool, true, false, Bytes, List, [], ◌∷◌, All,
  Bool-cases, inl, inr, length, take, drop, leb, ltb, ltb_false→le, leb→le, take_all, arith, pos,
}
use groovy_agent.Coreutils.Lines.{max_line_length, split_lines, join_lines, clamp_line, clamp_lines}
use groovy_agent.Coreutils.Lines.RoundTrip.{
  IsLine, split_lines-IsLine, split_lines-join_lines, join_lines-split_lines, with_newline,
  length-split_lines,
}
use groovy_agent.Coreutils.Text.{head, tail, render, word_count}

module _ {ℓ κ} {A : Type ℓ} (P : A → Type κ) where
  All-take : (n : ℕ) (xs : List A) → All P xs → All P (take n xs)
  All-take zero xs h = tt
  All-take (suc n) [] h = tt
  All-take (suc n) (x ∷ xs) h = (h.0, All-take n xs h.1)

  All-drop : (n : ℕ) (xs : List A) → All P xs → All P (drop n xs)
  All-drop zero xs h = h
  All-drop (suc n) [] h = tt
  All-drop (suc n) (x ∷ xs) h = All-drop n xs h.1

length-take-le {ℓ} : {A : Type ℓ} (n : ℕ) (xs : List A) → length (take n xs) ≤ n
length-take-le zero xs = omega arith
length-take-le (suc n) [] = omega arith
length-take-le (suc n) (x ∷ xs) = omega (arith, length-take-le n xs)

clamp_line-IsLine : (line : Bytes) → IsLine line → IsLine (clamp_line line).0
unfolding clamp_line
clamp_line-IsLine line h = elim (Bool-cases (leb (length line) max_line_length)) [
  | inl e ↦ rw e h
  | inr e ↦ rw e (All-take _ max_line_length line h)
]

clamp_line-IsShort : (line : Bytes) → length (clamp_line line).0 ≤ max_line_length
unfolding clamp_line
clamp_line-IsShort line = elim (Bool-cases (leb (length line) max_line_length)) [
  | inl e ↦ rw e (leb→le _ _ e)
  | inr e ↦ rw e (length-take-le max_line_length line)
]

clamp_lines-IsLine : (lines : List Bytes) → All IsLine lines → All IsLine (clamp_lines lines).0
unfolding clamp_lines
clamp_lines-IsLine [] h = tt
clamp_lines-IsLine (line ∷ lines) h = (clamp_line-IsLine line h.0, clamp_lines-IsLine lines h.1)

abbrev IsShort : Bytes → Type 0
IsShort line = length line ≤ max_line_length

clamp_lines-IsShort : (lines : List Bytes) → All IsShort (clamp_lines lines).0
unfolding clamp_lines
clamp_lines-IsShort [] = tt
clamp_lines-IsShort (line ∷ lines) = (clamp_line-IsShort line, clamp_lines-IsShort lines)

length-clamp_lines : (lines : List Bytes) → length (clamp_lines lines).0 ≡ length lines
unfolding clamp_lines
length-clamp_lines [] = refl
length-clamp_lines (line ∷ lines) = ap suc (length-clamp_lines lines)

clamp_lines-kept :
    (lines : List Bytes) → (clamp_lines lines).1 ≡ false → (clamp_lines lines).0 ≡ lines
unfolding clamp_lines clamp_line
clamp_lines-kept [] h = refl
clamp_lines-kept (line ∷ lines) h = ground (arith, clamp_lines-kept lines)

-- What a bounded selection of lines gives: the output has exactly the selected lines, each cut to
-- the limit on lines.
pub record Shows (lines : List Bytes) (out : Bytes) : Type 0 where
  pub shown : split_lines out ≡ (clamp_lines lines).0
  pub short : All IsShort (split_lines out)

render-Shows :
    (lines : List Bytes) (cut : Bool) → All IsLine lines → Shows lines (render lines cut).0
unfolding render
render-Shows lines cut h =
    let e = split_lines-join_lines (clamp_lines lines).0 (clamp_lines-IsLine lines h) in
    record { shown = e; short = rw e (clamp_lines-IsShort lines) }

-- `Head` shows the first `n` lines of a text.
pub head-Shows : (text : Bytes) (n : ℕ) → Shows (take n (split_lines text)) (head text (pos n)).0
unfolding head
head-Shows text n = elim (Bool-cases (ltb n (length (split_lines text)))) [
  | inl e ↦ rw e (
      render-Shows (take n (split_lines text)) true
        (All-take IsLine n (split_lines text) (split_lines-IsLine text)))
  | inr e ↦
      rw (e, take_all n (split_lines text) (ltb_false→le _ _ e))
        (render-Shows (split_lines text) false (split_lines-IsLine text))
]

-- `Tail` shows the last `n` lines of a text.
pub tail-Shows :
    (text : Bytes) (n : ℕ)
    → Shows (drop (length (split_lines text) - n) (split_lines text)) (tail text (pos n)).0
unfolding tail
tail-Shows text n = elim (Bool-cases (ltb n (length (split_lines text)))) [
  | inl e ↦ rw e (
      render-Shows _ true (
        All-drop IsLine (length (split_lines text) - n) (split_lines text)
          (split_lines-IsLine text)))
  | inr e ↦
      let none_dropped : length (split_lines text) - n ≡ 0 = omega (arith, ltb_false→le _ _ e) in
      rw (e, none_dropped) (render-Shows (split_lines text) false (split_lines-IsLine text))
]

render-kept :
    (text : Bytes)
    → (render (split_lines text) false).1 ≡ false
    → (render (split_lines text) false).0 ≡ with_newline text
unfolding render
render-kept text h =
    ap join_lines (clamp_lines-kept (split_lines text) h) ∙ join_lines-split_lines text

render-cut : (lines : List Bytes) → (render lines true).1 ≡ true
unfolding render
render-cut lines = refl

-- `Head` and `Tail` say that nothing was cut only when they return the whole text, with a newline at
-- its end.
pub head-tail-truncated :
    (text : Bytes) (n : ℕ)
    → ((head text (pos n)).1 ≡ false → (head text (pos n)).0 ≡ with_newline text)
      × ((tail text (pos n)).1 ≡ false → (tail text (pos n)).0 ≡ with_newline text)
unfolding head tail
head-tail-truncated text n = elim (Bool-cases (ltb n (length (split_lines text)))) [
  | inl e ↦ rw e (
    λ h. cc (h, render-cut (take n (split_lines text))),
    λ h. cc (h, render-cut (drop (length (split_lines text) - n) (split_lines text))),
  )
  | inr e ↦ rw e (render-kept text, render-kept text)
]

-- `WordCount` counts as many lines as `SplitLines` gives.
pub word_count-lines : (text : Bytes) → (word_count text).lines ≡ length (split_lines text)
unfolding word_count
word_count-lines [] = unfold split_lines in refl
word_count-lines (c ∷ text) = ground (arith, length-split_lines (c ∷ text))
