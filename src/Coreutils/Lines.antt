-- ===== src/Coreutils/Lines.antt =====
-- coreutils/coreutils.go: a text and its lines, and the limits on them.
pub mod RoundTrip
use groovy_agent.Base.{
  ℕ, ◌*◌, Bool, true, false, ◌||◌, Bytes, List, [], ◌∷◌, ◌++◌, length, take, leb, codes,
  if◌then◌else◌, ℤ, pos, negsuc,
}
use groovy_agent.Strings.{split_byte, trim_last, join_with}

abbrev pub newline : ℕ
newline = b'\n'

-- `MaxLineLength`
abbrev pub max_line_length : ℕ
max_line_length = 2 * 1024

-- `SplitLines`
unfoldable pub split_lines : Bytes → List Bytes
unfolding split_byte trim_last
split_lines [] = []
split_lines (c ∷ text) = split_byte newline (trim_last newline (c ∷ text))

-- `JoinLines`
pub join_lines : List Bytes → Bytes
unfolding join_with
join_lines [] = []
join_lines (line ∷ lines) = join_with (newline ∷ []) (line ∷ lines) ++ newline ∷ []

-- `ClampLine`
unfoldable pub clamp_line : Bytes → Bytes × Bool
clamp_line line =
    if leb (length line) max_line_length then (line, false) else (take max_line_length line, true)

-- `ClampLines`; the flag is carried through the loop in the source.
unfoldable pub clamp_lines : List Bytes → List Bytes × Bool
clamp_lines [] = ([], false)
clamp_lines (line ∷ lines) =
    let (rest, cut) = clamp_lines lines in ((clamp_line line).0 ∷ rest, (clamp_line line).1 || cut)

clamp_at : Bytes → ℕ → Bytes × Bool
clamp_at text limit = if leb (length text) limit then (text, false) else (take limit text, true)

-- `Clamp`
unfoldable pub clamp : Bytes → ℤ → Bytes × Bool
unfolding clamp_at
clamp text (negsuc n) = clamp_at text 0
clamp text (pos n) = clamp_at text n
