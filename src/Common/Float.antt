-- ===== src/Common/Float.antt =====
-- What the services do with a Python `float`: decimal literals, comparisons and arithmetic. The
-- type is abstract, and a law that a proof needs of it is a named hypothesis of that proof.
-- `lit n` is the literal n / 1000000.
use Prim.Native.Nat.{ℕ, ◌+◌, ◌≤◌}
use mathlib.Core.Path.{◌≡◌}
use mathlib.Core.Bool.{Bool, true, false, ◌&&◌}
use mathlib.Core.List.{List, [], ◌∷◌}
use mathlib.Core.Option.{Option, none, some}
use native.Mathlib.Omega.{arith}
use c_e.Common.Tests.{if◌then◌else◌}
use c_e.Common.Int.{ℤ, pos, ltb_ℤ, leb_ℤ, ◌+ℤ◌, ◌-ℤ◌, ◌*ℤ◌, div_ℕ, pos_part, neg_part}

pub record Float (F : Type 0) : Type 0 where
  pub lit : ℕ → F
  -- `float(n)` of an integer
  pub of_int : ℤ → F
  pub lt : F → F → Bool
  pub le : F → F → Bool
  pub add : F → F → F
  pub sub : F → F → F
  pub mul : F → F → F
  pub div : F → F → F
  -- `round(x, digits)`
  pub round : ℕ → F → F

module _ {F : Type 0} ⦃o : Float F⦄ where
  -- Python's `max(a, b)` keeps `a` unless `b` is greater, so a NaN in `b` is dropped.
  abbrev pub fmax : F → F → F
  fmax a b = if o.lt a b then b else a

  abbrev pub fmin : F → F → F
  fmin a b = if o.lt b a then b else a

  -- `max(low, min(high, value))`
  abbrev pub clamp : F → F → F → F
  clamp low high value = fmax low (fmin high value)

  abbrev pub max_from : F → List F → F
  max_from x [] = x
  max_from x (y ∷ ys) = max_from (fmax x y) ys

  abbrev pub min_from : F → List F → F
  min_from x [] = x
  min_from x (y ∷ ys) = min_from (fmin x y) ys

  -- `x == 0.0`, and so a truth test that fails
  abbrev pub is_zero : F → Bool
  is_zero x = o.le x (o.lit 0) && o.le (o.lit 0) x

  -- `max(xs) - min(xs) if xs else 0.0`
  abbrev pub spread_of : List F → F
  spread_of [] = o.lit 0
  spread_of (x ∷ xs) = o.sub (max_from x xs) (min_from x xs)

infix 4 ◌≼◌
abbrev pub ◌≼◌ : {F : Type 0} ⦃o : Float F⦄ → F → F → Type 0
◌≼◌ ⦃o⦄ x y = o.le x y ≡ true

-- The order of floats. A NaN is the value that is not `<=` itself, and the order is total only
-- away from it.
pub record IsOrdered (F : Type 0) ⦃o : Float F⦄ : Type 0 where
  pub lit_mono : (m n : ℕ) → m ≤ n → o.lit m ≼ o.lit n
  pub le_of_lt : (x y : F) → o.lt x y ≡ true → x ≼ y
  pub le_of_not_lt : (x y : F) → x ≼ x → y ≼ y → o.lt y x ≡ false → x ≼ y
  pub not_lt_of_le : (x y : F) → x ≼ y → o.lt y x ≡ false
  pub refl_of_le : (x y : F) → x ≼ y → (x ≼ x) × (y ≼ y)
  pub le_trans : (x y z : F) → x ≼ y → y ≼ z → x ≼ z

module _ {F : Type 0} ⦃o : Float F⦄ (laws : IsOrdered F) where
  open laws use {lit_mono, le_of_lt, refl_of_le, le_trans, not_lt_of_le}

  -- A clamp lands in its range whatever the value is, a NaN included.
  pub clamp_bounds :
      (low high value : F)
      → low ≼ high
      → (low ≼ clamp low high value) × (clamp low high value ≼ high)
  clamp_bounds low high value h =
      ground
        (arith, refl_of_le low high h, le_of_lt value high, le_of_lt low value, le_of_lt low high)

-- Between 0 and 1.
abbrev pub InUnit : {F : Type 0} ⦃o : Float F⦄ → F → Type 0
InUnit ⦃o⦄ x = (o.lit 0 ≼ x) × (x ≼ o.lit 1_000_000)

module _ {F : Type 0} ⦃o : Float F⦄ (laws : IsOrdered F) where
  open laws use {lit_mono}

  pub lit-InUnit : (n : ℕ) → n ≤ 1_000_000 → InUnit (o.lit n)
  lit-InUnit n h = (lit_mono 0 n (omega arith), lit_mono n 1_000_000 h)

  -- `_clamp(value)` with its default range.
  pub clamp-InUnit : (x : F) → InUnit (clamp (o.lit 0) (o.lit 1_000_000) x)
  clamp-InUnit x =
      clamp_bounds laws (o.lit 0) (o.lit 1_000_000) x (lit_mono 0 1_000_000 (omega arith))

-- The laws can be met: millionths, with `none` for NaN.
abbrev pub Micro : Type 0
Micro = Option ℤ

abbrev on_numbers : (ℤ → ℤ → Bool) → Micro → Micro → Bool
on_numbers f (some a) (some b) = f a b
on_numbers f _ _ = false

abbrev on_values : (ℤ → ℤ → Micro) → Micro → Micro → Micro
on_values f (some a) (some b) = f a b
on_values f _ _ = none

abbrev quotient : ℤ → ℕ → ℕ → Micro
quotient a b c = elim (b + c) [ ℕ.zero ↦ none | ℕ.suc _ ↦ some (div_ℕ a (b + c)) ]

abbrev divide : ℤ → ℤ → Micro
divide a b =
    if ltb_ℤ b (pos 0)
    then quotient (pos 0 -ℤ a *ℤ pos 1_000_000) (pos_part b) (neg_part b)
    else quotient (a *ℤ pos 1_000_000) (pos_part b) (neg_part b)

instance abbrev pub micro_float : Float Micro
micro_float = record {
  lit = λ n. some (pos n);
  of_int = λ z. some (z *ℤ pos 1_000_000);
  lt = on_numbers ltb_ℤ;
  le = on_numbers leb_ℤ;
  add = on_values (λ a b. some (a +ℤ b));
  sub = on_values (λ a b. some (a -ℤ b));
  mul = on_values (λ a b. some (div_ℕ (a *ℤ b) 1_000_000));
  div = on_values divide;
  round = λ _ x. x;
}

pub Micro-IsOrdered : IsOrdered Micro
Micro-IsOrdered = ground arith
