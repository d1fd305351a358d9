-- ===== src/Number.antt =====
-- `float`: the type and the operations that the code uses, an argument of every definition that
-- computes with one. The laws are those of finite doubles; NaN and the infinities have no instance.
pub mod Fixed
use a_stock_lens.Base.{
  ℕ, ◌≡◌, Bool, true, not, ◌&&◌, ◌⊎◌, List, [], ◌∷◌, Option, none, some, if◌then◌else◌,
}
use a_stock_lens.Base.Int.{ℤ, pos}

pub record Double : Type 1 where
  pub F : Type 0
  pub lt : F → F → Bool
  pub le : F → F → Bool
  pub eq : F → F → Bool
  pub add : F → F → F
  pub sub : F → F → F
  pub mul : F → F → F
  pub div : F → F → F
  pub neg : F → F
  pub abs : F → F
  -- `decimal m k` is the literal m / 10 ** k, and `of_int n` is `float(n)`.
  pub decimal : ℕ → ℕ → F
  pub of_int : ℤ → F
  -- `sum(xs)`, which compensates for the rounding of the partial sums.
  pub sum : List F → F

module _ ⦃d : Double⦄ where
  abbrev pub Float : Type 0
  Float = d.F

  infix 50 ◌≺◌ ◌≼◌ ◌≐◌
  abbrev pub ◌≺◌ : Float → Float → Bool
  x ≺ y = d.lt x y

  abbrev pub ◌≼◌ : Float → Float → Bool
  x ≼ y = d.le x y

  abbrev pub ◌≐◌ : Float → Float → Bool
  x ≐ y = d.eq x y

  infixl 65 ◌⊕◌ ◌⊖◌
  infixl 70 ◌⊗◌ ◌⊘◌
  abbrev pub ◌⊕◌ : Float → Float → Float
  x ⊕ y = d.add x y

  abbrev pub ◌⊖◌ : Float → Float → Float
  x ⊖ y = d.sub x y

  abbrev pub ◌⊗◌ : Float → Float → Float
  x ⊗ y = d.mul x y

  abbrev pub ◌⊘◌ : Float → Float → Float
  x ⊘ y = d.div x y

  abbrev pub decimal : ℕ → ℕ → Float
  decimal m k = d.decimal m k

  abbrev pub of_int : ℤ → Float
  of_int n = d.of_int n

  abbrev pub of_nat : ℕ → Float
  of_nat n = of_int (pos n)

  abbrev pub negate : Float → Float
  negate x = d.neg x

  abbrev pub magnitude : Float → Float
  magnitude x = d.abs x

  abbrev pub zero_float : Float
  zero_float = decimal 0 0

  abbrev pub sum : List Float → Float
  sum xs = d.sum xs

  -- `max(x, y)` keeps the first of two equals.
  abbrev pub larger : Float → Float → Float
  larger x y = if x ≺ y then y else x

  abbrev pub max_from : Float → List Float → Float
  max_from acc [] = acc
  max_from acc (x ∷ xs) = max_from (larger acc x) xs

  -- `min(x, y)`, which too keeps the first of two equals.
  abbrev pub smaller : Float → Float → Float
  smaller x y = if y ≺ x then y else x

  -- `max(xs, default=None)`
  abbrev pub max_of : List Float → Option Float
  max_of [] = none
  max_of (x ∷ xs) = some (max_from x xs)

-- The order of the floats other than NaN.
pub record IsOrdered (d : Double) : Type 0 where
  pub le_refl : (x : d.F) → d.le x x ≡ true
  pub le_total : (x y : d.F) → (d.le x y ≡ true) ⊎ (d.le y x ≡ true)
  pub le_trans : (x y z : d.F) → d.le x y ≡ true → d.le y z ≡ true → d.le x z ≡ true
  pub lt-eq-not-le : (x y : d.F) → d.lt x y ≡ not (d.le y x)
  -- Zero and minus zero are equal and distinct.
  pub eq_iff_le : (x y : d.F) → d.eq x y ≡ (d.le x y && d.le y x)
