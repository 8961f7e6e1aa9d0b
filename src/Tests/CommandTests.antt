-- ===== src/Tests/CommandTests.antt =====
-- The theorems on commands and searches at concrete inputs.
use groovy_agent.Base.{
  ℕ, ◌≤◌, ◌≡◌, refl, ◌||◌, Bool, true, false, Bytes, List, [], ◌∷◌, map, none, some, length, take,
  ltb, codes, same, ok, pos, arith,
}
use groovy_agent.Strings.{contains, split_byte, has_prefix}
use groovy_agent.Numbers.{atoi}
use groovy_agent.Coreutils.Lines.{split_lines, newline, clamp_line}
use groovy_agent.Coreutils.Text.{head, tail}
use groovy_agent.Coreutils.Command.{
  Command, lookup_command, validate_cut, run_cut, text_command, validate_line_count, run_head,
  run_tail,
}
use groovy_agent.Coreutils.Command.Checked.{Runs, working, lookup_command-Runs, run_head-run_tail}
use groovy_agent.Coreutils.Search.{GrepOptions, Library, grep, matcher_of, match_limit}
use groovy_agent.Coreutils.Search.Matches.{matching, shown, any_cut, grep-matching}
use groovy_agent.Tests.Samples.{whole_floats}

abbrev cut_command : Command
cut_command =
    text_command (codes "cut") (codes "Select delimiter-separated fields.") validate_cut run_cut

abbrev cut_args : List Bytes
cut_args = codes "-d" ∷ codes ":" ∷ codes "-f" ∷ codes "1,3" ∷ []

cut_is_found : lookup_command whole_floats (codes "cut") ≡ some cut_command
unfolding lookup_command same
cut_is_found = refl

cut_args_are_valid : validate_cut cut_args ≡ ok tt
unfolding validate_cut same split_byte atoi
cut_args_are_valid = refl

lookup_command-Runs_example : Runs (codes "cut") (run_cut (working (codes "a:b:c")) cut_args)
lookup_command-Runs_example =
    lookup_command-Runs whole_floats (codes "cut") cut_command (codes "a:b:c") cut_args cut_is_found
      cut_args_are_valid

count_args_are_valid : validate_line_count (codes "-n" ∷ codes "2" ∷ []) ≡ ok tt
unfolding validate_line_count same atoi
count_args_are_valid = refl

run_head-run_tail_example :
    (count : Bytes) × (n : ℕ) × (◌≡◌ {A = List Bytes}
      (codes "-n" ∷ codes "2" ∷ [])
      (codes "-n" ∷ count ∷ []))
    × (atoi count ≡ (pos n, true))
    × (n ≤ 10000)
    × (run_head (working (codes "abc")) (codes "-n" ∷ codes "2" ∷ [])
        ≡ ok (head (codes "abc") (pos n)).0)
    × (run_tail (working (codes "abc")) (codes "-n" ∷ codes "2" ∷ [])
        ≡ ok (tail (codes "abc") (pos n)).0)
run_head-run_tail_example =
    run_head-run_tail (codes "abc") (codes "-n" ∷ codes "2" ∷ []) count_args_are_valid

abbrev no_patterns : Library
no_patterns = record { compile = λ pattern. none; unicode_lower = λ text. text }

abbrev find_a : GrepOptions
find_a = record { pattern = codes "a"; ignore_case = false; fixed_text = true; max_matches = pos 1 }

abbrev has_a : Bytes → Bool
has_a line = contains line (codes "a")

matcher_is_has_a : matcher_of no_patterns find_a ≡ ok has_a
unfolding matcher_of
matcher_is_has_a = refl

abbrev three_lines : Bytes
three_lines = b'b' ∷ newline ∷ b'a' ∷ newline ∷ b'a' ∷ []

grep_runs :
    grep no_patterns three_lines find_a ≡ ok ((record { line = 2; text = codes "a" }) ∷ [], true)
unfolding grep matcher_of match_limit same split_lines clamp_line contains has_prefix split_byte
grep_runs = refl

grep-matching_example :
    let found = matching has_a 1 (split_lines three_lines) in
    let most = match_limit find_a.max_matches in
    grep no_patterns three_lines find_a
    ≡ ok (map shown (take most found), any_cut (take most found) || ltb most (length found))
grep-matching_example =
    grep-matching no_patterns three_lines find_a has_a (λ e. cc) (omega arith) matcher_is_has_a
