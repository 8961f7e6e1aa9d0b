-- ===== src/Base/Distinct.antt =====
-- Membership in a list of texts, and lists whose elements have distinct keys.
use mathlib.Core.Path.{◌≡◌, refl}
use mathlib.Core.Logic.{◌≢◌, inl, inr}
use mathlib.Core.Bool.{Bool, true, false, ◌||◌}
use mathlib.Core.List.{List, [], ◌∷◌, ◌++◌}
use groovy_agent.Base.Tests.{Bool-cases}
use groovy_agent.Base.Lists.{Bytes, same, same_refl, All, All-append}

unfoldable pub member : List Bytes → Bytes → Bool
member [] key = false
member (k ∷ keys) key = same k key || member keys key

member-other :
    (seen : List Bytes) (a b : Bytes) → member seen a ≡ false → member seen b ≡ true → a ≢ b
member-other seen a b h k e = cc

member-more :
    (seen : List Bytes) (first key : Bytes)
    → member seen key ≡ true
    → member (first ∷ seen) key ≡ true
unfolding member
member-more seen first key h = elim (Bool-cases (same first key)) [
  | inl e ↦ rw e refl
  | inr e ↦ rw (e, h) refl
]

member-first : (seen : List Bytes) (key : Bytes) → member (key ∷ seen) key ≡ true
unfolding member
member-first seen key = rw (same_refl key) refl

All-map {ℓ κ μ} :
    {A : Type μ} (P : A → Type ℓ) (Q : A → Type κ) (xs : List A)
    → ((x : A) → P x → Q x)
    → All P xs
    → All Q xs
All-map P Q [] f all = tt
All-map P Q (x ∷ xs) f all = (f x all.0, All-map P Q xs f all.1)

module _ {A : Type 0} (key : A → Bytes) where
  -- No two elements have one key.
  pub IsUnique : List A → Type 0
  IsUnique [] = Unit
  IsUnique (x ∷ xs) = All (λ other. key other ≢ key x) xs × IsUnique xs

  pub none-IsUnique : IsUnique []
  unfolding IsUnique
  none-IsUnique = tt

  -- The keys of the elements are among those seen.
  abbrev pub AreSeen : List Bytes → List A → Type 0
  AreSeen seen xs = All (λ x. member seen (key x) ≡ true) xs

  fresh_last :
      (xs : List A) (x : A)
      → IsUnique xs
      → All (λ other. key x ≢ key other) xs
      → IsUnique (xs ++ (x ∷ []))
  unfolding IsUnique
  fresh_last [] x u fresh = (tt, tt)
  fresh_last (first ∷ xs) x (new, u) (other, fresh) =
      (All-append _ xs (x ∷ []) (other, tt) new, fresh_last xs x u fresh)

  pub IsUnique-append :
      (seen : List Bytes) (xs : List A) (x : A)
      → IsUnique xs
      → AreSeen seen xs
      → member seen (key x) ≡ false
      → IsUnique (xs ++ (x ∷ []))
  IsUnique-append seen xs x u s new =
      fresh_last xs x u (All-map _ _ xs (λ other h. member-other seen (key x) (key other) new h) s)

  pub AreSeen-append :
      (seen : List Bytes) (xs : List A) (x : A)
      → AreSeen seen xs
      → AreSeen (key x ∷ seen) (xs ++ (x ∷ []))
  AreSeen-append seen xs x s =
      All-append _ xs (x ∷ []) (member-first seen (key x), tt)
        (All-map _ _ xs (λ other h. member-more seen (key x) (key other) h) s)
