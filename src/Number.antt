-- ===== src/Number.antt =====
-- Python's numbers. Binary floating point is not modelled digit by digit: the type of floats and
-- the operations that the code uses are a parameter.
pub mod Fixed
pub mod Natural
use jqe.Prelude.{ℕ, Bool, true, false, ◌&&◌, ◌≡◌, ℤ, pos, leb_ℤ, Option, none, some}

-- A value that is an `int` (and no `bool`) or a `float`.
pub data Num (F : Type 0) : Type 0 where
  int : ℤ → Num F
  float : F → Num F

-- `lt` and `le` are `<` and `<=` between any two numbers, an `int` and a `float` included.
-- `decimal m k` is the literal m·10⁻ᵏ; `over` is the quotient by a number that is not 0.
pub record Float (F : Type 0) : Type 0 where
  pub decimal : ℕ → ℕ → F
  pub of_int : ℤ → F
  pub is_finite : F → Bool
  pub plus : F → F → F
  pub minus : F → F → F
  pub times : F → F → F
  pub over : F → F → F
  pub absolute : F → F
  pub lt : Num F → Num F → Bool
  pub le : Num F → Num F → Bool

-- What is relied on: two `int`s compare as integers.
pub record IsOrdered (F : Type 0) ⦃o : Float F⦄ : Type 0 where
  pub le_int : (a b : ℤ) → o.le (int a) (int b) ≡ leb_ℤ a b

module _ {F : Type 0} ⦃o : Float F⦄ where
  -- `float(x)`
  abbrev pub to_float : Num F → F
  to_float (int n) = o.of_int n
  to_float (float x) = x

  -- `math.isfinite(float(x))`
  abbrev pub finite : Num F → Bool
  finite n = o.is_finite (to_float n)

  abbrev pub zero_float : Num F
  zero_float = int (pos 0)
