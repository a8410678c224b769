-- ===== src/Value.antt =====
-- A Python value of unknown type, and the run-time tests that the code makes of it.
use jqe.Prelude.{Bool, true, false, ◌||◌, ℤ, leb_ℤ, List, [], ◌∷◌}
use jqe.Text.{Text, text_eq, nonblank}
use jqe.Number.{Num, int}
use jqe.Broker.{OrderSide, side_value, side_eq}

-- `object` is a value of any other type; `null` is `None`.
pub data Value (F : Type 0) : Type 0 where
  null : Value F
  bool : Bool → Value F
  num : Num F → Value F
  str : Text → Value F
  side : OrderSide → Value F
  object : Value F

module _ {F : Type 0} where
  -- `v is True`, `v is False`
  abbrev pub is_true : Value F → Bool
  is_true (bool b) = b
  is_true _ = false

  abbrev pub is_false : Value F → Bool
  is_false (bool true) = false
  is_false (bool false) = true
  is_false _ = false

  -- `isinstance(v, bool)`
  abbrev pub is_bool : Value F → Bool
  is_bool (bool b) = true
  is_bool _ = false

  -- `isinstance(v, str) and bool(v.strip())`. `OrderSide` is a subclass of `str`.
  abbrev pub is_nonblank : Value F → Bool
  is_nonblank (str t) = nonblank t
  is_nonblank (side s) = true
  is_nonblank _ = false

  -- The characters of a value that is a `str`.
  abbrev pub chars : Value F → Text
  chars (str t) = t
  chars (side s) = side_value s
  chars _ = []

  -- `v == OrderSide.…`: the enumeration is a `str`, so its value as plain text is equal to it.
  abbrev pub is_side : OrderSide → Value F → Bool
  is_side s (side r) = side_eq s r
  is_side s (str t) = text_eq t (side_value s)
  is_side _ _ = false

  -- `isinstance(v, int) and not isinstance(v, bool) and v >= n`
  abbrev pub is_int_from : ℤ → Value F → Bool
  is_int_from n (num (int v)) = leb_ℤ n v
  is_int_from n _ = false

  -- `t in values`, for a string `t`.
  abbrev pub has_text : Text → List (Value F) → Bool
  has_text t [] = false
  has_text t (str u ∷ vs) = text_eq t u || has_text t vs
  has_text t (side s ∷ vs) = text_eq t (side_value s) || has_text t vs
  has_text t (_ ∷ vs) = has_text t vs
