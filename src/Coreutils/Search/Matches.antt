-- ===== src/Coreutils/Search/Matches.antt =====
-- `Grep` against the list of all lines that match.
use groovy_agent.Base.{
  ℕ, zero, suc, ◌≤◌, ◌≡◌, ◌≢◌, refl, ap, ◌∙◌, inl, inr, Bool, true, false, ◌||◌, Bytes, List, [],
  ◌∷◌, map, length, take, ltb, same, same_iff, Bool-cases, if◌then◌else◌, ok, arith,
}
use groovy_agent.Coreutils.Lines.{split_lines, clamp_line}
use groovy_agent.Coreutils.Search.{
  Match, GrepOptions, Library, match_limit, matcher_of, grep_lines, searched, grep,
}

-- The lines that match, with their numbers.
abbrev pub matching : (Bytes → Bool) → ℕ → List Bytes → List (ℕ × Bytes)
matching matcher number [] = []
matching matcher number (line ∷ lines) =
    let rest = matching matcher (suc number) lines in
    if matcher line then (number, line) ∷ rest else rest

abbrev pub shown : ℕ × Bytes → Match
shown (number, line) = record { line = number; text = (clamp_line line).0 }

-- One of the lines is longer than a line may be.
abbrev pub any_cut : List (ℕ × Bytes) → Bool
any_cut [] = false
any_cut ((number, line) ∷ rest) = (clamp_line line).1 || any_cut rest

or_assoc : (a b c : Bool) → (a || (b || c)) ≡ ((a || b) || c)
or_assoc true b c = refl
or_assoc false b c = refl

ltb-suc : (a b : ℕ) → ltb a b ≡ ltb (suc a) (suc b)
ltb-suc a b = ground arith

ltb-zero : (b : ℕ) → true ≡ ltb 0 (suc b)
ltb-zero b = ground arith

zero-ltb : (a : ℕ) → false ≡ ltb a 0
zero-ltb a = ground arith

grep_lines-matching :
    (matcher : Bytes → Bool) (number most : ℕ) (lines : List Bytes)
    → let found = matching matcher number lines in
      grep_lines matcher number most lines
      ≡ (map shown (take most found), any_cut (take most found) || ltb most (length found))
unfolding grep_lines
grep_lines-matching matcher number zero [] = refl
grep_lines-matching matcher number (suc most) [] = ap (λ b. ([], b)) (zero-ltb (suc most))
grep_lines-matching matcher number zero (line ∷ lines) = elim (Bool-cases (matcher line)) [
  | inl e ↦ rw e (ap (λ b. ([], b)) (ltb-zero (length (matching matcher (suc number) lines))))
  | inr e ↦ rw e (grep_lines-matching matcher (suc number) zero lines)
]
grep_lines-matching matcher number (suc most) (line ∷ lines) = elim (Bool-cases (matcher line)) [
  | inl e ↦
      let rest = grep_lines-matching matcher (suc number) most lines in
      let found = matching matcher (suc number) lines in
      rw e (
        rw (ap (λ p. p.0) rest, ap (λ p. p.1) rest)
          (ap (λ b. (map shown ((number, line) ∷ take most found), b))
            (or_assoc (clamp_line line).1 (any_cut (take most found)) (ltb most (length found))
              ∙ ap (λ b. ((clamp_line line).1 || any_cut (take most found)) || b)
                  (ltb-suc most (length found)))))
  | inr e ↦ rw e (grep_lines-matching matcher (suc number) (suc most) lines)
]

-- For a pattern of 1 to 256 bytes that gives a matcher, `Grep` returns the first lines that match, as
-- many as the limit (20 where none is given), with their numbers from 1 and each cut to the limit on
-- lines. It says that something is missing exactly when it cut one of them or left out a match.
pub grep-matching :
    (L : Library) (text : Bytes) (o : GrepOptions) (matcher : Bytes → Bool)
    → o.pattern ≢ []
    → length o.pattern ≤ 256
    → matcher_of L o ≡ ok matcher
    → let found = matching matcher 1 (split_lines text) in
      let most = match_limit o.max_matches in
      grep L text o
      ≡ ok (map shown (take most found), any_cut (take most found) || ltb most (length found))
unfolding grep
grep-matching L text o matcher full short chosen =
    rw (pattern_given, not_too_long, chosen)
      (unfold searched in
        ap ok (grep_lines-matching matcher 1 (match_limit o.max_matches) (split_lines text)))
  where
    pattern_given : same o.pattern [] ≡ false
    pattern_given = elim (Bool-cases (same o.pattern [])) [
      | inl e ↦ absurd (full ((same_iff o.pattern []).0 e))
      | inr e ↦ e
    ]

    not_too_long : ltb 256 (length o.pattern) ≡ false
    not_too_long = ground arith
