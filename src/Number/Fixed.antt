-- ===== src/Number/Fixed.antt =====
-- Exact numbers in units of 1/10000, at which the theorems about floats are run.
use a_stock_lens.Base.{
  ℕ, List, [], ◌∷◌, ◌+◌, ◌*◌, ◌/◌, ◌^◌, Bool, ltb, leb, ◌==◌, ◌&&◌, ◌||◌, arith, if◌then◌else◌,
}
use a_stock_lens.Base.Int.{ℤ, pos, pos_part, neg_part, sub_ℕ, leb_ℤ, ltb_ℤ}
use a_stock_lens.Number.{Double, IsOrdered}

abbrev pub scale : ℕ
scale = 10000

abbrev eq_ℤ : ℤ → ℤ → Bool
eq_ℤ a b = pos_part a + neg_part b == pos_part b + neg_part a

abbrev mul_ℤ : ℤ → ℤ → ℤ
mul_ℤ a b =
    sub_ℕ ((pos_part a * pos_part b + neg_part a * neg_part b) / scale)
      ((pos_part a * neg_part b + neg_part a * pos_part b) / scale)

abbrev div_ℤ : ℤ → ℤ → ℤ
div_ℤ a b =
    let size = (pos_part a + neg_part a) * scale / (pos_part b + neg_part b) in
    if leb (neg_part a) 0 && leb (neg_part b) 0 || ltb 0 (neg_part a) && ltb 0 (neg_part b)
    then pos size
    else sub_ℕ 0 size

abbrev add_ℤ : ℤ → ℤ → ℤ
add_ℤ a b = sub_ℕ (pos_part a + pos_part b) (neg_part a + neg_part b)

abbrev sum_ℤ : List ℤ → ℤ
sum_ℤ [] = pos 0
sum_ℤ (x ∷ xs) = add_ℤ x (sum_ℤ xs)

instance abbrev pub fixed : Double
fixed = record {
  F = ℤ;
  lt = ltb_ℤ;
  le = leb_ℤ;
  eq = eq_ℤ;
  add = add_ℤ;
  sub = λ a b. sub_ℕ (pos_part a + neg_part b) (neg_part a + pos_part b);
  mul = mul_ℤ;
  div = div_ℤ;
  neg = λ a. sub_ℕ (neg_part a) (pos_part a);
  abs = λ a. pos (pos_part a + neg_part a);
  decimal = λ m k. pos (m * scale / 10 ^ k);
  of_int = λ n. sub_ℕ (pos_part n * scale) (neg_part n * scale);
  sum = sum_ℤ;
}

pub fixed-IsOrdered : IsOrdered fixed
fixed-IsOrdered = record {
  le_refl = λ x. ground arith;
  le_total = λ x y. ground arith;
  le_trans = λ x y z h k. ground arith;
  lt-eq-not-le = λ x y. ground arith;
  eq_iff_le = λ x y. ground arith;
}
