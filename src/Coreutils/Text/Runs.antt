-- ===== src/Coreutils/Text/Runs.antt =====
-- `Uniq`: its runs of equal lines.
use mathlib.Core.Path.{subst}
use groovy_agent.Base.{
  ℕ, zero, suc, ◌≤◌, ◌≡◌, ◌≢◌, refl, sym, ap, ◌∙◌, false, Bytes, List, [], ◌∷◌, ◌++◌, map,
  Bool-cases, inl, inr, length, replicate, same, same_iff, arith,
}
use groovy_agent.Coreutils.Lines.{split_lines, join_lines}
use groovy_agent.Coreutils.Text.{
  count_run, runs, runs_from, uniq, plain_line, unique_adjacent, drop_repeats,
}

-- The lines that a list of runs stands for.
abbrev pub expand : List (ℕ × Bytes) → List Bytes
expand [] = []
expand ((n, line) ∷ rest) = replicate n line ++ expand rest

-- The run that is counted, and the rest, which begins with another line.
count_run-expand :
    (line : Bytes) (lines : List Bytes)
    → replicate (count_run line lines).0 line ++ (count_run line lines).1 ≡ lines
unfolding count_run
count_run-expand line [] = refl
count_run-expand line (next ∷ lines) = elim (Bool-cases (same next line)) [
  | inl e ↦ rw e (
      ap (◌∷◌ line) (count_run-expand line lines)
      ∙ ap (λ l. l ∷ lines) (sym ((same_iff next line).0 e)))
  | inr e ↦ rw e
]

length-count_run :
    (line : Bytes) (lines : List Bytes) → length (count_run line lines).1 ≤ length lines
unfolding count_run
length-count_run line [] = omega arith
length-count_run line (next ∷ lines) = elim (Bool-cases (same next line)) [
  | inl e ↦ rw e (omega (arith, length-count_run line lines))
  | inr e ↦ rw e (omega arith)
]

runs_from-expand :
    (fuel : ℕ) (lines : List Bytes) → length lines ≤ fuel → expand (runs_from fuel lines) ≡ lines
unfolding runs_from
runs_from-expand zero [] h = refl
runs_from-expand zero (line ∷ lines) h = absurd (omega arith)
runs_from-expand (suc fuel) [] h = refl
runs_from-expand (suc fuel) (line ∷ lines) h =
    let (run, rest) = count_run line lines in
    ap (λ r. line ∷ (replicate run line ++ r))
      (runs_from-expand fuel rest (omega (arith, length-count_run line lines)))
    ∙ ap (◌∷◌ line) (count_run-expand line lines)

-- No line equals the one before it, which is `last` for the first.
abbrev Differ : Bytes → List Bytes → Type 0
Differ last [] = Unit
Differ last (line ∷ lines) = (line ≢ last) × Differ line lines

abbrev pub HasNoRepeats : List Bytes → Type 0
HasNoRepeats [] = Unit
HasNoRepeats (line ∷ lines) = Differ line lines

drop_repeats-count_run :
    (line : Bytes) (lines : List Bytes)
    → drop_repeats line lines ≡ unique_adjacent (count_run line lines).1
unfolding drop_repeats count_run unique_adjacent
drop_repeats-count_run line [] = refl
drop_repeats-count_run line (next ∷ lines) = elim (Bool-cases (same next line)) [
  | inl e ↦ rw e (
      ap (λ l. drop_repeats l lines) ((same_iff next line).0 e) ∙ drop_repeats-count_run line lines)
  | inr e ↦ rw e
]

runs_from-unique_adjacent :
    (fuel : ℕ) (lines : List Bytes)
    → length lines ≤ fuel
    → map plain_line (runs_from fuel lines) ≡ unique_adjacent lines
unfolding runs_from plain_line
runs_from-unique_adjacent zero [] h = unfold unique_adjacent in refl
runs_from-unique_adjacent zero (line ∷ lines) h = absurd (omega arith)
runs_from-unique_adjacent (suc fuel) [] h = unfold unique_adjacent in refl
runs_from-unique_adjacent (suc fuel) (line ∷ lines) h =
    let (run, rest) = count_run line lines in
    ap (◌∷◌ line) (
      runs_from-unique_adjacent fuel rest (omega (arith, length-count_run line lines))
      ∙ sym (drop_repeats-count_run line lines))
    ∙ unfold unique_adjacent in refl

-- Without counts, `Uniq` gives the lines that `uniqueAdjacent`, which `Sort` uses, gives.
pub uniq-unique_adjacent :
    (text : Bytes) → uniq text false ≡ join_lines (unique_adjacent (split_lines text))
unfolding uniq runs
uniq-unique_adjacent text =
    ap join_lines
      (runs_from-unique_adjacent (length (split_lines text)) (split_lines text) (omega arith))

drop_repeats-Differ : (last : Bytes) (lines : List Bytes) → Differ last (drop_repeats last lines)
unfolding drop_repeats
drop_repeats-Differ last [] = tt
drop_repeats-Differ last (line ∷ lines) = elim (Bool-cases (same line last)) [
  | inl e ↦
      rw (e, drop_repeats)
        (subst (λ l. Differ last (drop_repeats l lines)) (sym ((same_iff line last).0 e))
          (drop_repeats-Differ last lines))
  | inr e ↦
      rw (e, drop_repeats) ((λ p. cc (e, (same_iff line last).1 p)), drop_repeats-Differ line lines)
]

-- Of the lines that `uniqueAdjacent` returns, none equals the one before it.
pub unique_adjacent-HasNoRepeats : (lines : List Bytes) → HasNoRepeats (unique_adjacent lines)
unfolding unique_adjacent
unique_adjacent-HasNoRepeats [] = tt
unique_adjacent-HasNoRepeats (line ∷ lines) = drop_repeats-Differ line lines

-- Every run has a line at least.
abbrev pub AreRuns : List (ℕ × Bytes) → Type 0
AreRuns [] = Unit
AreRuns ((n, line) ∷ rest) = (1 ≤ n) × AreRuns rest

runs_from-AreRuns : (fuel : ℕ) (lines : List Bytes) → AreRuns (runs_from fuel lines)
unfolding runs_from
runs_from-AreRuns zero lines = tt
runs_from-AreRuns (suc fuel) [] = tt
runs_from-AreRuns (suc fuel) (line ∷ lines) =
    (omega arith, runs_from-AreRuns fuel (count_run line lines).1)

-- The counted runs, written out, are the lines; each has a line at least, and no two neighbours have
-- the same line. So each run is as long as it can be, and its count is the number of its lines.
pub runs-expand :
    (lines : List Bytes)
    → (expand (runs lines) ≡ lines)
      × AreRuns (runs lines)
      × HasNoRepeats (map plain_line (runs lines))
unfolding runs
runs-expand lines = (
  runs_from-expand (length lines) lines (omega arith),
  runs_from-AreRuns (length lines) lines,
  subst HasNoRepeats (sym (runs_from-unique_adjacent (length lines) lines (omega arith)))
      (unique_adjacent-HasNoRepeats lines),
)
