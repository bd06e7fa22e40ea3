-- ===== src/Common/Options.antt =====
-- Steps that can raise: `none` is the raised exception.
use mathlib.Core.Path.{◌≡◌, refl}
use mathlib.Core.Option.{Option, none, some}
use mathlib.Core.Bool.{Bool, true, false}
use c_e.Common.Tests.{if◌then◌else◌}
use mathlib.Core.List.{List, [], ◌∷◌}

infixl 5 ◌>>=◌
abbrev pub ◌>>=◌ {ℓ κ} : {A : Type ℓ} {B : Type κ} → Option A → (A → Option B) → Option B
none >>= f = none
some a >>= f = f a

module _ {ℓ κ} {A : Type ℓ} {B : Type κ} where
  pub >>=-eq-some :
      (m : Option A) (f : A → Option B) {b : B}
      → (m >>= f) ≡ some b
      → (a : A) × (m ≡ some a) × (f a ≡ some b)
  >>=-eq-some none f h = cc
  >>=-eq-some (some a) f h = (a, refl, h)

  -- `[f(x) for x in xs]` where `f` can raise
  abbrev pub map_option : (A → Option B) → List A → Option (List B)
  map_option f [] = some []
  map_option f (x ∷ xs) = f x >>= λ y. map_option f xs >>= λ ys. some (y ∷ ys)

pub some_inj {ℓ} : {A : Type ℓ} {x y : A} → ◌≡◌ {A = Option A} (some x) (some y) → x ≡ y
some_inj h = cc

-- A property of both branches of a conditional, of a bind and of a split is one of the whole.
module _ {X : Type 0} (P : X → Type 0) where
  pub by_if : (b : Bool) (x y : X) → P x → P y → P (if b then x else y)
  by_if true x y h k = h
  by_if false x y h k = k

  pub by_option :
      {A : Type 0} (m : Option A) (x : X) (f : A → X)
      → (m ≡ none → P x)
      → ((a : A) → m ≡ some a → P (f a))
      → P (elim m [ none ↦ x | some a ↦ f a ])
  by_option none x f h k = h refl
  by_option (some a) x f h k = k a refl

  pub by_test : (b : Bool) (x y : X) → (b ≡ true → P x) → (b ≡ false → P y) → P (if b then x else y)
  by_test true x y h k = h refl
  by_test false x y h k = k refl
