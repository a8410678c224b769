-- ===== src/Number/Fixed.antt =====
-- Numbers with three decimals, infinities and a NaN: they show that what is assumed of floats can
-- be met, and the development is run on them.
use jqe.Prelude.{
  ℕ, ◌==◌, if◌then◌else◌, ◌+◌, ◌*◌, ◌/◌, ◌^◌, ◌≡◌, Bool, true, false, ℤ, pos, pos_part, neg_part,
  ltb_ℤ, leb_ℤ, sub_ℕ, arith,
}
use jqe.Number.{Num, int, float, Float, IsOrdered}

-- `fixed n` is n thousandths.
pub data Fixed : Type 0 where
  nan : Fixed
  infinite : Bool → Fixed
  fixed : ℤ → Fixed

abbrev scaled : ℤ → ℤ
scaled n = sub_ℕ (pos_part n * 1000) (neg_part n * 1000)

abbrev of_num : Num Fixed → Fixed
of_num (int n) = fixed (scaled n)
of_num (float x) = x

abbrev below : Fixed → Fixed → Bool
below (fixed a) (fixed b) = ltb_ℤ a b
below (fixed a) (infinite s) = s
below (infinite false) (fixed b) = true
below (infinite false) (infinite true) = true
below _ _ = false

abbrev at_most : Fixed → Fixed → Bool
at_most (fixed a) (fixed b) = leb_ℤ a b
at_most (fixed a) (infinite s) = s
at_most (infinite false) nan = false
at_most (infinite false) b = true
at_most (infinite true) (infinite s) = s
at_most _ _ = false

abbrev sum : Fixed → Fixed → Fixed
sum (fixed a) (fixed b) = fixed (sub_ℕ (pos_part a + pos_part b) (neg_part a + neg_part b))
sum _ _ = nan

abbrev product : Fixed → Fixed → Fixed
product (fixed a) (fixed b) = fixed (
    sub_ℕ ((pos_part a * pos_part b + neg_part a * neg_part b) / 1000)
      ((pos_part a * neg_part b + neg_part a * pos_part b) / 1000))
product _ _ = nan

abbrev opposite : ℤ → ℤ
opposite n = sub_ℕ (neg_part n) (pos_part n)

abbrev difference : Fixed → Fixed → Fixed
difference a (fixed b) = sum a (fixed (opposite b))
difference _ _ = nan

abbrev size : ℤ → ℕ
size n = pos_part n + neg_part n

abbrev quotient : Fixed → Fixed → Fixed
quotient (fixed a) (fixed b) =
    if size b == 0
    then nan
    else if ltb_ℤ a (pos 0)
    then (if ltb_ℤ b (pos 0)
        then fixed (pos (size a * 1000 / size b))
        else fixed (opposite (pos (size a * 1000 / size b))))
    else if ltb_ℤ b (pos 0)
    then fixed (opposite (pos (size a * 1000 / size b)))
    else fixed (pos (size a * 1000 / size b))
quotient _ _ = nan

abbrev magnitude : Fixed → Fixed
magnitude (fixed a) = fixed (pos (size a))
magnitude (infinite s) = infinite true
magnitude nan = nan

abbrev is_fixed : Fixed → Bool
is_fixed (fixed a) = true
is_fixed _ = false

instance abbrev pub fixed_float : Float Fixed
fixed_float = record {
  decimal = λ m k. fixed (pos (m * 1000 / 10 ^ k));
  of_int = λ n. fixed (scaled n);
  is_finite = is_fixed;
  plus = sum;
  minus = difference;
  times = product;
  over = quotient;
  absolute = magnitude;
  lt = λ a b. below (of_num a) (of_num b);
  le = λ a b. at_most (of_num a) (of_num b);
}

le_int : (a b : ℤ) → at_most (of_num (int a)) (of_num (int b)) ≡ leb_ℤ a b
le_int a b = ground arith

pub Fixed-IsOrdered : IsOrdered Fixed
Fixed-IsOrdered = record { le_int = le_int }
