-- ===== src/Coreutils/Search.antt =====
-- coreutils/search.go: `Grep`. Regular expressions are a parameter.
pub mod Matches
use groovy_agent.Base.{
  ℕ, zero, suc, ◌+◌, Bool, true, false, ◌||◌, Bytes, List, [], ◌∷◌, ◌++◌, Option, none, some,
  length, same, ltb, leb, codes, if◌then◌else◌, Result, ok, err, ℤ, pos, negsuc,
}
use groovy_agent.Strings.{contains, to_lower}
use groovy_agent.Coreutils.Lines.{split_lines, clamp_line}

-- `Match`
pub record Match : Type 0 where
  pub line : ℕ
  pub text : Bytes

-- `GrepOptions`
pub record GrepOptions : Type 0 where
  pub pattern : Bytes
  pub ignore_case : Bool
  pub fixed_text : Bool
  pub max_matches : ℤ

-- `regexp.Compile` with `Longest` and `MatchString`, and the lower case of letters beyond ASCII.
pub record Library : Type 0 where
  pub compile : Bytes → Option (Bytes → Bool)
  pub unicode_lower : Bytes → Bytes

pub data GrepError : Type 0 where
  empty_pattern pattern_too_long invalid_pattern : GrepError

unfoldable pub match_limit : ℤ → ℕ
match_limit (pos zero) = 20
match_limit (pos (suc n)) = suc n
match_limit (negsuc n) = 20

compiled : Option (Bytes → Bool) → Result GrepError (Bytes → Bool)
compiled none = err invalid_pattern
compiled (some matcher) = ok matcher

-- The choice of `matcher`.
unfoldable pub matcher_of : Library → GrepOptions → Result GrepError (Bytes → Bool)
unfolding compiled contains to_lower
matcher_of L o =
    if o.fixed_text
    then ok (
        if o.ignore_case
        then (λ line. contains (to_lower L.unicode_lower line) (to_lower L.unicode_lower o.pattern))
        else (λ line. contains line o.pattern))
    else compiled (L.compile (if o.ignore_case then codes "(?i)" ++ o.pattern else o.pattern))

-- The loop over the lines, with the number of matches still allowed; `number` is `index + 1`. The
-- flag is carried through the loop in the source.
grep_lines : (Bytes → Bool) → ℕ → ℕ → List Bytes → List Match × Bool
unfolding clamp_line
grep_lines matcher number left [] = ([], false)
grep_lines matcher number zero (line ∷ lines) =
    let rest = grep_lines matcher (suc number) zero lines in
    if matcher line then ([], true) else rest
grep_lines matcher number (suc left) (line ∷ lines) =
    let allowed = if matcher line then left else suc left in
    let (more, more_cut) = grep_lines matcher (suc number) allowed lines in
    let (clamped, cut) = clamp_line line in
    if matcher line
    then (record { line = number; text = clamped } ∷ more, cut || more_cut)
    else (more, more_cut)

searched : Result GrepError (Bytes → Bool) → ℕ → Bytes → Result GrepError (List Match × Bool)
unfolding grep_lines
searched (err why) most text = err why
searched (ok matcher) most text = ok (grep_lines matcher 1 most (split_lines text))

-- `Grep`
unfoldable pub grep : Library → Bytes → GrepOptions → Result GrepError (List Match × Bool)
unfolding searched matcher_of match_limit same
grep L text o =
    if same o.pattern []
    then err empty_pattern
    else if ltb 256 (length o.pattern)
    then err pattern_too_long
    else searched (matcher_of L o) (match_limit o.max_matches) text
