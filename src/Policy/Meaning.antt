-- ===== src/Policy/Meaning.antt =====
-- What the single tests of execution/policy.py say of a value.
use jqe.Prelude.{
  ◌≡◌, ◌↔◌, ◌⊎◌, refl, true, ℤ, leb_ℤ, Option, none, some, List, [], ◌∷◌, all, arith, inl, inr, sym,
  subst, Any, All, Bool-cases,
}
use jqe.Text.{Text, text, text_eq}
use jqe.Text.Laws.{text_eq_iff, text_eq_refl}
use jqe.Number.{Num, int, float, Float, finite, to_float, zero_float}
use jqe.Broker.{
  OrderSide, buy, sell, side_value, ExecutionQuantityUnit, simulation_units, deriv_stake, mt5_lots,
}
use jqe.Value.{Value, num, str, side, is_nonblank, chars, is_side, is_int_from, has_text}
use jqe.Policy.{positive, nonnegative, valid_names, expected_unit}

module _ {F : Type 0} where
  -- The side is a member of the enumeration, or its text.
  abbrev pub IsSide : OrderSide → Value F → Type 0
  IsSide s v = (v ≡ side s) ⊎ (v ≡ str (side_value s))

  is_side_read : (s : OrderSide) (v : Value F) → is_side s v ≡ true → IsSide s v
  is_side_read buy (side buy) h = inl refl
  is_side_read sell (side sell) h = inl refl
  is_side_read s (str t) h = inr (ground (arith, text_eq_iff t (side_value s)))
  is_side_read buy _ h = absurd (ground arith)
  is_side_read sell _ h = absurd (ground arith)

  pub is_side-IsSide : (s : OrderSide) (v : Value F) → (is_side s v ≡ true) ↔ IsSide s v
  is_side-IsSide s v = (
    is_side_read s v,
    λ h. elim h [ inl e ↦ rw e (is_side_own s) | inr e ↦ rw e (text_eq_refl (side_value s)) ],
  )
    where
      own : OrderSide → Value F
      own s = side s

      is_side_own : (s : OrderSide) → is_side s (own s) ≡ true
      is_side_own buy = refl
      is_side_own sell = refl

  -- An `int`, and no `bool`, that is not below a bound.
  abbrev pub IsIntFrom : ℤ → Value F → Type 0
  IsIntFrom least v = (n : ℤ) × (v ≡ num (int n)) × (leb_ℤ least n ≡ true)

  is_int_from_read : (least : ℤ) (v : Value F) → is_int_from least v ≡ true → IsIntFrom least v
  is_int_from_read least (num (int n)) h = (n, refl, h)
  is_int_from_read least _ h = absurd (ground arith)

  pub is_int_from-IsIntFrom :
      (least : ℤ) (v : Value F) → (is_int_from least v ≡ true) ↔ IsIntFrom least v
  is_int_from-IsIntFrom least v = (is_int_from_read least v, λ (n, e, h). rw e h)

  -- A tuple or a set of nonblank strings.
  abbrev pub AreNames : Option (List (Value F)) → List (Value F) → Type 0
  AreNames names vs = (names ≡ some vs) × All (λ v. is_nonblank v ≡ true) vs

  all-All : (vs : List (Value F)) → (all is_nonblank vs ≡ true) ↔ All (λ v. is_nonblank v ≡ true) vs
  all-All [] = (λ h. tt, λ h. refl)
  all-All (v ∷ vs) =
      let rest = all-All vs in
      (λ h. (ground arith, rest.0 (ground arith)), λ h. ground (arith, h.0, rest.1 h.1))

  pub valid_names-AreNames :
      (names : Option (List (Value F)))
      → (valid_names names ≡ true) ↔ ((vs : List (Value F)) × AreNames names vs)
  valid_names-AreNames none = (λ h. absurd (ground arith), λ h. absurd (ground (arith, h.1.0)))
  valid_names-AreNames (some vs) = (
    λ h. (vs, (refl, (all-All vs).0 h)),
    λ h.
        let same : h.0 ≡ vs = ground (arith, h.1.0) in
        (all-All vs).1 (subst (λ us. All (λ v. is_nonblank v ≡ true) us) same h.1.1),
  )

  -- A nonblank string is in a list of nonblank strings.
  pub has_text-Any :
      (t : Text) (vs : List (Value F))
      → All (λ v. is_nonblank v ≡ true) vs
      → (has_text t vs ≡ true) ↔ Any (λ v. chars v ≡ t) vs
  has_text-Any t [] h = (λ e. absurd (ground arith), λ e. elim e [ ])
  has_text-Any t (str u ∷ vs) h =
      let rest = has_text-Any t vs h.1 in
      (
        λ e. elim (Bool-cases (text_eq t u)) [
          | inl same ↦ inl (sym ((text_eq_iff t u).0 same))
          | inr other ↦ inr (rest.0 (ground arith))
        ],
        λ e. elim e [
          | inl same ↦ ground (arith, text_eq_iff t u)
          | inr there ↦ let found = rest.1 there in ground arith
        ],
      )
  has_text-Any t (side s ∷ vs) h =
      let rest = has_text-Any t vs h.1 in
      (
        λ e. elim (Bool-cases (text_eq t (side_value s))) [
          | inl same ↦ inl (sym ((text_eq_iff t (side_value s)).0 same))
          | inr other ↦ inr (rest.0 (ground arith))
        ],
        λ e. elim e [
          | inl same ↦ ground (arith, text_eq_iff t (side_value s))
          | inr there ↦ let found = rest.1 there in ground arith
        ],
      )
  has_text-Any t (_ ∷ vs) h = absurd (ground (arith, h.0))

-- The unit of each broker's quantities.
abbrev pub IsUnitOf : Text → ExecutionQuantityUnit → Type 0
IsUnitOf broker simulation_units = broker ≡ text "simulation"
IsUnitOf broker deriv_stake = (broker ≡ text "deriv") ⊎ (broker ≡ text "deriv_demo")
IsUnitOf broker mt5_lots =
    (broker ≡ text "mt5")
    ⊎ (broker ≡ text "mt5_demo")
    ⊎ (broker ≡ text "weltrade")
    ⊎ (broker ≡ text "weltrade_demo")

named : (broker known : Text) → text_eq broker known ≡ true → broker ≡ known
named broker known h = (text_eq_iff broker known).0 h

expected_unit_read :
    (broker : Text) (unit : ExecutionQuantityUnit)
    → expected_unit broker ≡ some unit
    → IsUnitOf broker unit
unfolding expected_unit
expected_unit_read broker unit h = elim (Bool-cases (text_eq broker (text "simulation"))) [
  | inl e ↦
      let same : simulation_units ≡ unit = ground arith in
      subst (IsUnitOf broker) same (named broker (text "simulation") e)
  | inr n1 ↦ elim (Bool-cases (text_eq broker (text "deriv"))) [
    | inl e ↦
        let same : deriv_stake ≡ unit = ground arith in
        subst (IsUnitOf broker) same (inl (named broker (text "deriv") e))
    | inr n2 ↦ elim (Bool-cases (text_eq broker (text "deriv_demo"))) [
      | inl e ↦
          let same : deriv_stake ≡ unit = ground arith in
          subst (IsUnitOf broker) same (inr (named broker (text "deriv_demo") e))
      | inr n3 ↦
          let same : mt5_lots ≡ unit = ground arith in
          subst (IsUnitOf broker) same (elim (Bool-cases (text_eq broker (text "mt5"))) [
            | inl e ↦ inl (named broker (text "mt5") e)
            | inr n4 ↦ inr (elim (Bool-cases (text_eq broker (text "mt5_demo"))) [
              | inl e ↦ inl (named broker (text "mt5_demo") e)
              | inr n5 ↦ inr (elim (Bool-cases (text_eq broker (text "weltrade"))) [
                | inl e ↦ inl (named broker (text "weltrade") e)
                | inr n6 ↦ inr (named broker (text "weltrade_demo") (ground arith))
              ])
            ])
          ])
    ]
  ]
]

pub expected_unit-IsUnitOf :
    (broker : Text) (unit : ExecutionQuantityUnit)
    → (expected_unit broker ≡ some unit) ↔ IsUnitOf broker unit
unfolding expected_unit text_eq
expected_unit-IsUnitOf broker simulation_units =
    (expected_unit_read broker simulation_units, λ h. rw h refl)
expected_unit-IsUnitOf broker deriv_stake =
    (expected_unit_read broker deriv_stake, λ h. elim h [ inl e ↦ rw e refl | inr e ↦ rw e refl ])
expected_unit-IsUnitOf broker mt5_lots = (
  expected_unit_read broker mt5_lots,
  λ h. elim h [
    | inl e ↦ rw e refl
    | inr (inl e) ↦ rw e refl
    | inr (inr (inl e)) ↦ rw e refl
    | inr (inr (inr e)) ↦ rw e refl
  ],
)

module _ {F : Type 0} ⦃o : Float F⦄ where
  -- A number that is finite and above zero.
  abbrev pub IsPositive : Value F → Type 0
  IsPositive v =
      (n : Num F) × (v ≡ num n) × (finite n ≡ true) × (o.lt zero_float (float (to_float n)) ≡ true)

  positive_read : (v : Value F) → positive v ≡ true → IsPositive v
  positive_read (num n) h = (n, refl, ground arith, ground arith)
  positive_read _ h = absurd (ground arith)

  pub positive-IsPositive : (v : Value F) → (positive v ≡ true) ↔ IsPositive v
  positive-IsPositive v = (positive_read v, λ (n, e, f, h). rw e (ground arith))

  -- A number that is finite and not below zero.
  abbrev pub IsNonnegative : Value F → Type 0
  IsNonnegative v =
      (n : Num F) × (v ≡ num n) × (finite n ≡ true) × (o.le zero_float (float (to_float n)) ≡ true)

  nonnegative_read : (v : Value F) → nonnegative v ≡ true → IsNonnegative v
  nonnegative_read (num n) h = (n, refl, ground arith, ground arith)
  nonnegative_read _ h = absurd (ground arith)

  pub nonnegative-IsNonnegative : (v : Value F) → (nonnegative v ≡ true) ↔ IsNonnegative v
  nonnegative-IsNonnegative v = (nonnegative_read v, λ (n, e, f, h). rw e (ground arith))
