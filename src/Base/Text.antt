-- ===== src/Base/Text.antt =====
-- Byte literals written as text, and the result of a fallible function.
use Prim.Native.Char.{code}
use Prim.Native.String.{String}
use mathlib.Core.Path.{◌≡◌, refl}
use mathlib.Core.Option.{some}
use mathlib.Core.List.{[], ◌∷◌}
use groovy_agent.Base.Lists.{Bytes}

-- The bytes of an ASCII text.
abbrev pub codes : String → Bytes
codes String.[] = []
codes (String.◌∷◌ c s) = code c ∷ codes s

-- `(value, error)`: a value, or the error in place of it.
pub data Result {ℓ κ} (E : Type ℓ) (A : Type κ) : Type (ℓ ⊔ κ) where
  ok : A → Result E A
  err : E → Result E A

module _ {ℓ κ μ} {E : Type ℓ} {A : Type κ} {B : Type μ} where
  infixl 5 ◌>>=◌
  abbrev pub ◌>>=◌ : Result E A → (A → Result E B) → Result E B
  ok a >>= f = f a
  err e >>= f = err e

  infixl 5 ◌>>◌
  abbrev pub ◌>>◌ : Result E A → Result E B → Result E B
  ok a >> m = m
  err e >> m = err e

  -- A chain succeeds only through a success of its first part.
  pub bind-eq-ok :
      (first : Result E A) (then_do : A → Result E B) {last : B}
      → ◌≡◌ {A = Result E B} (first >>= then_do) (ok last)
      → (got : A) × (first ≡ ok got) × (then_do got ≡ ok last)
  bind-eq-ok (err stop) then_do = λ h. cc
  bind-eq-ok (ok got) then_do = λ h. (got, refl, h)

pub ok-injective {ℓ κ} :
    {E : Type ℓ} {A : Type κ} {a b : A} → ◌≡◌ {A = Result E A} (ok a) (ok b) → a ≡ b
ok-injective h = cc

pub err-injective {ℓ κ} :
    {E : Type ℓ} {A : Type κ} {a b : E} → ◌≡◌ {A = Result E A} (err a) (err b) → a ≡ b
err-injective h = cc

pub err-ne-ok {ℓ κ} :
    {E : Type ℓ} {A : Type κ} {e : E} {a : A} → ◌≡◌ {A = Result E A} (err e) (ok a) → ⊥
err-ne-ok h = cc

pub >>-eq-ok {ℓ κ} :
    {E : Type ℓ} {B : Type κ} (m : Result E (Unit {0})) (n : Result E B) {b : B}
    → m >> n ≡ ok b
    → (m ≡ ok tt) × (n ≡ ok b)
>>-eq-ok (ok _) n h = (refl, h)
>>-eq-ok (err e) n h = absurd (err-ne-ok h)

pub some-eq {ℓ} : {A : Type ℓ} {a b : A} → some a ≡ some b → a ≡ b
some-eq h = cc
