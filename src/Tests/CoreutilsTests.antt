-- ===== src/Tests/CoreutilsTests.antt =====
-- The theorems on texts and lines at concrete inputs.
use groovy_agent.Base.{
  ◌≡◌, map, true, false, Bytes, [], ◌∷◌, All, codes, length, drop, take, ◌-◌, pos,
}
use groovy_agent.Coreutils.Lines.{split_lines, join_lines}
use groovy_agent.Coreutils.Lines.RoundTrip.{
  IsLine, with_newline, split_lines-join_lines, join_lines-split_lines,
}
use groovy_agent.Coreutils.Text.{
  head, tail, word_count, sort, runs, plain_line, uniq, unique_adjacent,
}
use groovy_agent.Coreutils.Text.Select.{
  Shows, head-Shows, tail-Shows, head-tail-truncated, word_count-lines,
}
use groovy_agent.Coreutils.Text.Order.{Sorts, sort-Sorts}
use groovy_agent.Coreutils.Text.Runs.{
  HasNoRepeats, unique_adjacent-HasNoRepeats, expand, AreRuns, runs-expand, uniq-unique_adjacent,
}
use groovy_agent.Tests.Samples.{whole_floats}

-- The lines b, a, a, and no newline at the end.
abbrev three_lines : Bytes
three_lines = b'b' ∷ 10 ∷ b'a' ∷ 10 ∷ b'a' ∷ []

two_lines_IsLine : All IsLine (codes "ab" ∷ [] ∷ [])
two_lines_IsLine = (((λ e. cc), ((λ e. cc), tt)), (tt, tt))

split_lines-join_lines_example :
    split_lines (join_lines (codes "ab" ∷ [] ∷ [])) ≡ codes "ab" ∷ [] ∷ []
split_lines-join_lines_example = split_lines-join_lines (codes "ab" ∷ [] ∷ []) two_lines_IsLine

join_lines-split_lines_example : join_lines (split_lines three_lines) ≡ with_newline three_lines
join_lines-split_lines_example = join_lines-split_lines three_lines

head-Shows_example : Shows (take 2 (split_lines three_lines)) (head three_lines (pos 2)).0
head-Shows_example = head-Shows three_lines 2

tail-Shows_example :
    Shows
      (drop (length (split_lines three_lines) - 2) (split_lines three_lines))
      (tail three_lines (pos 2)).0
tail-Shows_example = tail-Shows three_lines 2

head-tail-truncated_example :
    ((head three_lines (pos 5)).1 ≡ false → (head three_lines (pos 5)).0 ≡ with_newline three_lines)
    × ((tail three_lines (pos 5)).1 ≡ false
        → (tail three_lines (pos 5)).0 ≡ with_newline three_lines)
head-tail-truncated_example = head-tail-truncated three_lines 5

word_count-lines_example : (word_count three_lines).lines ≡ length (split_lines three_lines)
word_count-lines_example = word_count-lines three_lines

sort-Sorts_example :
    Sorts true
      (split_lines three_lines)
      (split_lines (sort whole_floats three_lines true false false))
sort-Sorts_example = sort-Sorts whole_floats three_lines true

runs-expand_example :
    (expand (runs (split_lines three_lines)) ≡ split_lines three_lines)
    × AreRuns (runs (split_lines three_lines))
    × HasNoRepeats (map plain_line (runs (split_lines three_lines)))
runs-expand_example = runs-expand (split_lines three_lines)

uniq-unique_adjacent_example :
    uniq three_lines false ≡ join_lines (unique_adjacent (split_lines three_lines))
uniq-unique_adjacent_example = uniq-unique_adjacent three_lines

unique_adjacent-HasNoRepeats_example :
    HasNoRepeats (unique_adjacent (codes "a" ∷ codes "a" ∷ codes "b" ∷ []))
unique_adjacent-HasNoRepeats_example =
    unique_adjacent-HasNoRepeats (codes "a" ∷ codes "a" ∷ codes "b" ∷ [])
