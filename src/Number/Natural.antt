-- ===== src/Number/Natural.antt =====
-- Decimals as numbers of 10⁻¹², none negative: the development is run on them.
use jqe.Prelude.{ℕ, ◌+◌, ◌-◌, ◌*◌, ◌/◌, ◌^◌, true, ltb, leb}
use jqe.Risk.{Decimal}

abbrev pub one : ℕ
one = 1000000000000

instance abbrev pub natural_decimal : Decimal ℕ
natural_decimal = record {
  decimal = λ m k. m * one / 10 ^ k;
  is_finite = λ a. true;
  times = λ a b. a * b / one;
  over = λ a b. a * one / b;
  plus = λ a b. a + b;
  minus = λ a b. a - b;
  remainder = λ a b. a - a / b * b;
  absolute = λ a. a;
  floor = λ a. a / one * one;
  lt = ltb;
  le = leb;
}
