-- ===== src/Coreutils/Text/Order.antt =====
-- `Sort`: its order, and the lines that it keeps.
use mathlib.Core.List.{reverse, reverse_aux}
use mathlib.Core.List.{Perm, perm_middle, reverse_perm, append-nil}
use mathlib.Core.List.Perm
use mathlib.Core.Path.{subst}
use groovy_agent.Base.{
  ◌≡◌, refl, Bool, true, false, Bytes, List, [], ◌∷◌, ◌++◌, All, Bool-cases, inl, inr, ==_iff,
  arith, if◌then◌else◌,
}
use groovy_agent.Json.{Floats}
use groovy_agent.Coreutils.Lines.{split_lines}
use groovy_agent.Coreutils.Lines.RoundTrip.{IsLine, split_lines-IsLine, split_lines-join_lines}
use groovy_agent.Coreutils.Text.{less_text, insert_back, sort_onto, slice_stable, sort}

module _ {ℓ κ} {A : Type ℓ} (R : A → A → Type κ) where
  abbrev Before : A → List A → Type κ
  Before x [] = Unit
  Before x (y ∷ l) = R x y

  abbrev Adjacent : List A → Type κ
  Adjacent [] = Unit
  Adjacent (x ∷ l) = Before x l × Adjacent l

  abbrev Link : List A → List A → Type κ
  Link [] done = Unit
  Link (x ∷ l) done = Before x done

reverse_aux-Adjacent {ℓ κ} :
    {A : Type ℓ} (R : A → A → Type κ) (l done : List A)
    → Adjacent (λ x y. R y x) l
    → Adjacent R done
    → Link R l done
    → Adjacent R (reverse_aux l done)
reverse_aux-Adjacent R [] done h d k = d
reverse_aux-Adjacent R (x ∷ []) done h d k = (k, d)
reverse_aux-Adjacent R (x ∷ y ∷ l) done h d k =
    reverse_aux-Adjacent R (y ∷ l) (x ∷ done) h.1 (k, d) h.0

reverse-Adjacent {ℓ κ} :
    {A : Type ℓ} (R : A → A → Type κ) (l : List A)
    → Adjacent (λ x y. R y x) l
    → Adjacent R (reverse l)
reverse-Adjacent R [] h = tt
reverse-Adjacent R (x ∷ l) h = reverse_aux-Adjacent R (x ∷ l) [] h tt tt

reverse_aux-All {ℓ κ} :
    {A : Type ℓ} (P : A → Type κ) (l done : List A)
    → All P l
    → All P done
    → All P (reverse_aux l done)
reverse_aux-All P [] done h d = d
reverse_aux-All P (x ∷ l) done h d = reverse_aux-All P l (x ∷ done) h.1 (h.0, d)

less_text-asym : (a b : Bytes) → less_text a b ≡ true → less_text b a ≡ false
unfolding less_text
less_text-asym a [] h = cc
less_text-asym [] (y ∷ b) h = refl
less_text-asym (x ∷ a) (y ∷ b) h = ground (arith, ==_iff x y, ==_iff y x, less_text-asym a b)

-- The second line is not less than the first.
abbrev NotAfter : (Bytes → Bytes → Bool) → Bytes → Bytes → Type 0
NotAfter less x y = less y x ≡ false

module _ (less : Bytes → Bytes → Bool) where
  insert_back-Perm : (x : Bytes) (l : List Bytes) → Perm (insert_back less x l) (x ∷ l)
  unfolding insert_back
  insert_back-Perm x [] = Perm.refl (x ∷ [])
  insert_back-Perm x (y ∷ l) = elim (Bool-cases (less x y)) [
    | inl e ↦ rw e (Perm.trans (Perm.cons y (insert_back-Perm x l)) (Perm.swap x y l))
    | inr e ↦ rw e (Perm.refl (x ∷ y ∷ l))
  ]

  sort_onto-Perm : (sorted l : List Bytes) → Perm (sort_onto less sorted l) (l ++ sorted)
  unfolding sort_onto
  sort_onto-Perm sorted [] = Perm.refl sorted
  sort_onto-Perm sorted (x ∷ l) =
      Perm.trans (sort_onto-Perm (insert_back less x sorted) l)
        (Perm.trans (Perm.append_left l (insert_back-Perm x sorted)) (perm_middle l sorted))

  insert_back-All :
      (P : Bytes → Type 0) (x : Bytes) (l : List Bytes)
      → P x
      → All P l
      → All P (insert_back less x l)
  unfolding insert_back
  insert_back-All P x [] p h = (p, tt)
  insert_back-All P x (y ∷ l) p h = elim (Bool-cases (less x y)) [
    | inl e ↦ rw e (h.0, insert_back-All P x l p h.1)
    | inr e ↦ rw e (p, h)
  ]

  sort_onto-All :
      (P : Bytes → Type 0) (sorted l : List Bytes)
      → All P sorted
      → All P l
      → All P (sort_onto less sorted l)
  unfolding sort_onto
  sort_onto-All P sorted [] s h = s
  sort_onto-All P sorted (x ∷ l) s h =
      sort_onto-All P (insert_back less x sorted) l (insert_back-All P x sorted h.0 s) h.1

  module _ (asym : (a b : Bytes) → less a b ≡ true → less b a ≡ false) where
    insert_back-Adjacent :
        (x : Bytes) (l : List Bytes)
        → Adjacent (λ a b. NotAfter less b a) l
        → Adjacent (λ a b. NotAfter less b a) (insert_back less x l)
    unfolding insert_back
    insert_back-Adjacent x [] h = (tt, tt)
    insert_back-Adjacent x (y ∷ []) h = elim (Bool-cases (less x y)) [
      | inl e ↦ rw e (asym x y e, (tt, tt))
      | inr e ↦ rw e (e, h)
    ]
    insert_back-Adjacent x (y ∷ z ∷ l) h = elim (Bool-cases (less x y)) [
      | inr e ↦ rw e (e, h)
      | inl e ↦ rw e (elim (Bool-cases (less x z)) [
        | inl f ↦ (rw f h.0, insert_back-Adjacent x (z ∷ l) h.1)
        | inr f ↦ (rw f (asym x y e), insert_back-Adjacent x (z ∷ l) h.1)
      ])
    ]

    sort_onto-Adjacent :
        (sorted l : List Bytes)
        → Adjacent (λ a b. NotAfter less b a) sorted
        → Adjacent (λ a b. NotAfter less b a) (sort_onto less sorted l)
    unfolding sort_onto
    sort_onto-Adjacent sorted [] h = h
    sort_onto-Adjacent sorted (x ∷ l) h =
        sort_onto-Adjacent (insert_back less x sorted) l (insert_back-Adjacent x sorted h)

module _ (less : Bytes → Bytes → Bool) where
  slice_stable-Perm : (l : List Bytes) → Perm (slice_stable less l) l
  unfolding slice_stable
  slice_stable-Perm l =
      Perm.trans (reverse_perm (sort_onto less [] l))
        (subst (Perm (sort_onto less [] l)) (append-nil l) (sort_onto-Perm less [] l))

  slice_stable-All : (P : Bytes → Type 0) (l : List Bytes) → All P l → All P (slice_stable less l)
  unfolding slice_stable
  slice_stable-All P l h =
      reverse_aux-All P (sort_onto less [] l) [] (sort_onto-All less P [] l tt h) tt

  slice_stable-Adjacent :
      ((a b : Bytes) → less a b ≡ true → less b a ≡ false)
      → (l : List Bytes) → Adjacent (NotAfter less) (slice_stable less l)
  unfolding slice_stable
  slice_stable-Adjacent asym l =
      reverse-Adjacent (NotAfter less) (sort_onto less [] l) (sort_onto-Adjacent less asym [] l tt)

-- What a sorted text is: its lines are in order, and they are the lines of the text.
pub record Sorts (reversed : Bool) (lines out : List Bytes) : Type 0 where
  pub in_order :
      if reversed
      then Adjacent (λ x y. NotAfter less_text y x) out
      else Adjacent (NotAfter less_text) out
  pub same_lines : Perm out lines

-- Whatever the text, the lines of the text that a textual sort without -u returns are the lines of
-- the text, in ascending byte order, or in descending order if reversed.
pub sort-Sorts :
    (F : Floats) (text : Bytes) (reversed : Bool)
    → Sorts reversed (split_lines text) (split_lines (sort F text reversed false false))
unfolding sort
sort-Sorts F text false =
    let sorted = slice_stable less_text (split_lines text) in
    rw
      (split_lines-join_lines sorted
        (slice_stable-All less_text IsLine (split_lines text) (split_lines-IsLine text)))
      (record {
        in_order = slice_stable-Adjacent less_text less_text-asym (split_lines text);
        same_lines = slice_stable-Perm less_text (split_lines text);
      })
sort-Sorts F text true =
    let sorted = slice_stable less_text (split_lines text) in
    let lines = slice_stable-All less_text IsLine (split_lines text) (split_lines-IsLine text) in
    rw (split_lines-join_lines (reverse sorted) (reverse_aux-All IsLine sorted [] lines tt))
      (record {
        in_order =
            reverse-Adjacent (λ x y. NotAfter less_text y x) sorted
              (slice_stable-Adjacent less_text less_text-asym (split_lines text));
        same_lines =
            Perm.trans (reverse_perm sorted) (slice_stable-Perm less_text (split_lines text));
      })
