-- ===== src/Agent/Profiles/Choice.antt =====
-- Which profile `SelectProfile` chooses.
use groovy_agent.Base.{
  ℕ, ◌≤◌, ◌<◌, ◌≡◌, refl, ◌⊎◌, inl, inr, ◌++◌, Bool-cases, Bytes, List, [], ◌∷◌, All, ap, sym, ltb,
  ltb→lt, ltb_false→le, length, arith,
}
use mathlib.Core.Path.{subst}
use groovy_agent.Strings.{to_lower}
use groovy_agent.Agent.Profiles.{
  Profile, Candidate, score, best_of, choose, select_profile, profiles, fallback_profile,
  no_profile, max_exposed_tools,
}

-- The first of the candidates with the highest score, if that is above `floor`.
pub record First (lowered : Bytes) (floor : ℕ) (candidates : List Candidate) (best : Profile)
    (top : ℕ) : Type 0 where
  pub before : List Candidate
  pub winner : Candidate
  pub after : List Candidate
  pub splits : candidates ≡ before ++ winner ∷ after
  pub chosen : best ≡ winner.profile
  pub top_score : top ≡ score lowered winner.keywords
  pub above : floor < top
  pub earlier : All (λ c. score lowered c.keywords < top) before
  pub later : All (λ c. score lowered c.keywords ≤ top) after

abbrev Best : Bytes → Profile → ℕ → List Candidate → Profile × ℕ → Type 0
Best lowered best floor candidates (b, top) =
    ((b ≡ best) × (top ≡ floor) × All (λ c. score lowered c.keywords ≤ floor) candidates)
    ⊎ First lowered floor candidates b top

First-cons :
    {lowered : Bytes} {floor floor' : ℕ} {candidates : List Candidate} {best : Profile} {top : ℕ}
    (c : Candidate)
    → score lowered c.keywords ≤ floor'
    → floor ≤ floor'
    → First lowered floor' candidates best top
    → First lowered floor (c ∷ candidates) best top
First-cons c below lower f = record {
  before = c ∷ f.before;
  winner = f.winner;
  after = f.after;
  splits = ap (◌∷◌ c) f.splits;
  chosen = f.chosen;
  top_score = f.top_score;
  above = omega (arith, f.above);
  earlier = (omega (arith, f.above), f.earlier);
  later = f.later;
}

First-here :
    {lowered : Bytes} {floor : ℕ} {rest : List Candidate} {best : Profile} {top : ℕ} (c : Candidate)
    → floor < score lowered c.keywords
    → (best ≡ c.profile)
      × (top ≡ score lowered c.keywords)
      × All (λ d. score lowered d.keywords ≤ score lowered c.keywords) rest
    → First lowered floor (c ∷ rest) best top
First-here {rest = rest} c above (chosen, top_score, later) = record {
  before = [];
  winner = c;
  after = rest;
  splits = refl;
  chosen = chosen;
  top_score = top_score;
  above = omega (arith, top_score);
  earlier = tt;
  later = rw top_score later;
}

best_of-Best :
    (lowered : Bytes) (best : Profile) (floor : ℕ) (candidates : List Candidate)
    → Best lowered best floor candidates (best_of lowered best floor candidates)
unfolding best_of
best_of-Best lowered best floor [] = inl (refl, refl, tt)
best_of-Best lowered best floor (c ∷ rest) =
    elim (Bool-cases (ltb floor (score lowered c.keywords))) [
      | inl higher ↦
          let h = ltb→lt _ _ higher in
          rw (higher, best_of)
            (elim (best_of-Best lowered c.profile (score lowered c.keywords) rest) [
              | inl kept ↦ inr (First-here c h kept)
              | inr f ↦ inr (First-cons c (omega arith) (omega arith) f)
            ])
      | inr lower ↦
          let h = ltb_false→le _ _ lower in
          rw (lower, best_of)
            (elim (best_of-Best lowered best floor rest) [
              | inl kept ↦ inl (kept.0, kept.1, (h, kept.2))
              | inr f ↦ inr (First-cons c h (omega arith) f)
            ])
    ]

All-middle {ℓ κ} :
    {A : Type ℓ} (P : A → Type κ) (xs : List A) (x : A) (ys : List A) → All P (xs ++ x ∷ ys) → P x
All-middle P [] x ys h = h.0
All-middle P (y ∷ xs) x ys h = All-middle P xs x ys h.1

abbrev IsSmall : Candidate → Type 0
IsSmall c = length c.profile.tools ≤ max_exposed_tools

choose-small :
    (best : Profile) (top : ℕ)
    → 0 < top
    → length best.tools ≤ max_exposed_tools
    → choose (best, top) ≡ best
unfolding choose
choose-small best top above small = ground arith

-- The profile chosen for a request: the fallback if no keyword stands there, and else the first
-- profile with the most keywords.
pub data Chosen (lowered : Bytes) (candidates : List Candidate) (p : Profile) : Type 0 where
  fallback :
      p ≡ fallback_profile
      → All (λ c. score lowered c.keywords ≤ 0) candidates
      → Chosen lowered candidates p
  first : (top : ℕ) → First lowered 0 candidates p top → Chosen lowered candidates p

choose-Chosen :
    (lowered : Bytes) (candidates : List Candidate) (best : Profile × ℕ)
    → All IsSmall candidates
    → Best lowered no_profile 0 candidates best
    → Chosen lowered candidates (choose best)
choose-Chosen lowered candidates (best, top) small (inl (e, zero_top, none_scores)) =
    fallback (unfold choose in rw zero_top) none_scores
choose-Chosen lowered candidates (best, top) small (inr f) =
    let fits = All-middle IsSmall f.before f.winner f.after (subst (All IsSmall) f.splits small) in
    subst (Chosen lowered candidates) (sym (choose-small best top f.above (rw f.chosen fits)))
      (first top f)

select_from-Chosen :
    (lowered : Bytes) (candidates : List Candidate)
    → All IsSmall candidates
    → Chosen lowered candidates (choose (best_of lowered no_profile 0 candidates))
select_from-Chosen lowered candidates small =
    choose-Chosen lowered candidates _ small (best_of-Best lowered no_profile 0 candidates)

-- `SelectProfile` chooses the first of the profiles with the most keywords in the lowered request,
-- with all its tools, and the fallback exactly when no keyword of any profile stands there.
pub select_profile-Chosen :
    (unicode_lower : Bytes → Bytes) (request : Bytes)
    → Chosen (to_lower unicode_lower request) profiles (select_profile unicode_lower request)
unfolding select_profile
select_profile-Chosen unicode_lower request =
    select_from-Chosen (to_lower unicode_lower request) profiles (omega arith)
