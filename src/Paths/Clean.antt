-- ===== src/Paths/Clean.antt =====
-- What the test on a cleaned path, "is it '..' or does it begin with '../'", says of where the path
-- leads.
pub mod Stays
use mathlib.Core.List.{reverse, reverse-append}
use groovy_agent.Base.{
  Bool, true, false, ◌||◌, Bytes, List, [], ◌∷◌, ◌++◌, same, same_iff, codes, if◌then◌else◌, ◌≡◌,
  ◌≢◌, refl, ap, ◌∙◌, All, Bool-cases, inl, inr, arith,
}
use groovy_agent.Strings.{has_prefix, join_with}
use groovy_agent.Paths.{
  dot, dot_dot, elements, is_abs, clean, clean_elements, clean_onto, clean_step, join_slash,
  relative_or_dot,
}

-- Where a path without symbolic links leads, from a directory given by its names from the innermost
-- to the outermost. At the root ".." stays there.
parent : List Bytes → List Bytes
parent [] = []
parent (e ∷ dir) = dir

enter : List Bytes → Bytes → List Bytes
unfolding parent
enter dir e =
    if same e [] || same e dot then dir else if same e dot_dot then parent dir else e ∷ dir

pub walk : List Bytes → List Bytes → List Bytes
unfolding enter
walk dir [] = dir
walk dir (e ∷ rest) = walk (enter dir e) rest

-- `Clean`'s own test: the path is ".." or begins with "../".
unfoldable pub climbs : Bytes → Bool
climbs cleaned = same cleaned dot_dot || has_prefix cleaned (codes "../")

abbrev IsName : Bytes → Type 0
IsName e = e ≢ dot_dot

-- The outermost element kept is "..".
escapes : List Bytes → Bool
escapes [] = false
escapes (e ∷ []) = same e dot_dot
escapes (e ∷ f ∷ kept) = escapes (f ∷ kept)

clean_step-escapes :
    (kept : List Bytes) (e : Bytes) → escapes kept ≡ true → escapes (clean_step false kept e) ≡ true
unfolding escapes clean_step
clean_step-escapes [] e h = cc
clean_step-escapes (k ∷ []) e h = ground arith
clean_step-escapes (k ∷ f ∷ kept) e h = ground arith

clean_onto-escapes :
    (es kept : List Bytes) → escapes kept ≡ true → escapes (clean_onto false kept es) ≡ true
unfolding clean_onto
clean_onto-escapes [] kept h = h
clean_onto-escapes (e ∷ es) kept h =
    clean_onto-escapes es (clean_step false kept e) (clean_step-escapes kept e h)

clean_step-inside :
    (kept dir : List Bytes) (e : Bytes)
    → escapes (clean_step false kept e) ≡ false
    → All IsName kept
    → All IsName (clean_step false kept e)
      × (enter (kept ++ dir) e ≡ clean_step false kept e ++ dir)
unfolding escapes clean_step enter
clean_step-inside [] dir e h names = ground (arith, same_iff e dot_dot, same_iff dot_dot dot_dot)
clean_step-inside (k ∷ kept) dir e h names = ground (arith, same_iff e dot_dot, same_iff k dot_dot)

clean_onto-inside :
    (es kept dir : List Bytes)
    → escapes (clean_onto false kept es) ≡ false
    → All IsName kept
    → All IsName (clean_onto false kept es)
      × (walk (kept ++ dir) es ≡ clean_onto false kept es ++ dir)
unfolding clean_onto walk
clean_onto-inside [] kept dir h names = (names, refl)
clean_onto-inside (e ∷ es) kept dir h names =
    elim (Bool-cases (escapes (clean_step false kept e))) [
      | inl out ↦ cc (h, clean_onto-escapes es (clean_step false kept e) out)
      | inr stays ↦
          let (names', step) = clean_step-inside kept dir e stays names in
          let (all, rest) = clean_onto-inside es (clean_step false kept e) dir h names' in
          (all, ap (λ d. walk d es) step ∙ rest)
    ]

-- A list that escapes ends, outermost, with "..".
ends_dot_dot :
    (kept : List Bytes)
    → escapes kept ≡ true
    → (inner : List Bytes) × (kept ≡ inner ++ dot_dot ∷ [])
unfolding escapes
ends_dot_dot [] h = cc
ends_dot_dot (e ∷ []) h = ([], ap (λ x. x ∷ []) ((same_iff e dot_dot).0 h))
ends_dot_dot (e ∷ f ∷ kept) h =
    let (inner, p) = ends_dot_dot (f ∷ kept) h in (e ∷ inner, ap (◌∷◌ e) p)

climbs-join : (rest : List Bytes) → climbs (join_slash (dot_dot ∷ rest)) ≡ true
unfolding climbs join_with has_prefix same
climbs-join [] = refl
climbs-join (e ∷ rest) = refl

relative_or_dot-join :
    (rest : List Bytes)
    → relative_or_dot (join_slash (dot_dot ∷ rest)) ≡ join_slash (dot_dot ∷ rest)
unfolding join_with relative_or_dot
relative_or_dot-join [] = refl
relative_or_dot-join (e ∷ rest) = refl

clean-relative :
    (path : Bytes)
    → is_abs path ≡ false
    → clean path ≡ relative_or_dot (join_slash (reverse (clean_onto false [] (elements path))))
unfolding clean clean_elements
clean-relative path h = rw (h, clean_elements)

clean-climbs :
    (path : Bytes)
    → is_abs path ≡ false
    → escapes (clean_onto false [] (elements path)) ≡ true
    → climbs (clean path) ≡ true
clean-climbs path relative e =
    let (inner, p) = ends_dot_dot (clean_onto false [] (elements path)) e in
    let r : reverse (clean_onto false [] (elements path)) ≡ dot_dot ∷ reverse inner =
      ap reverse p ∙ reverse-append inner (dot_dot ∷ []) in
    ap climbs (
      clean-relative path relative
      ∙ ap (λ x. relative_or_dot (join_slash x)) r
      ∙ relative_or_dot-join (reverse inner))
    ∙ climbs-join (reverse inner)

not_climbs-escapes :
    (path : Bytes)
    → is_abs path ≡ false
    → climbs (clean path) ≡ false
    → escapes (clean_onto false [] (elements path)) ≡ false
not_climbs-escapes path relative stays =
    elim (Bool-cases (escapes (clean_onto false [] (elements path)))) [
      | inr e ↦ e
      | inl e ↦ cc (stays, clean-climbs path relative e)
    ]

-- Inside a directory: below it by plain names only.
pub record Inside (dir : List Bytes) (place : List Bytes) : Type 0 where
  pub below : List Bytes
  pub splits : place ≡ below ++ dir
  pub names : All IsName below

-- A relative path whose cleaned form is not ".." and does not begin with "../" leads, from every
-- directory, to a place inside that directory.
pub clean-Inside :
    (path : Bytes) (dir : List Bytes)
    → is_abs path ≡ false
    → climbs (clean path) ≡ false
    → Inside dir (walk dir (elements path))
clean-Inside path dir relative stays =
    let (all, e) =
      clean_onto-inside (elements path) [] dir (not_climbs-escapes path relative stays) tt in
    record { below = clean_onto false [] (elements path); splits = e; names = all }
