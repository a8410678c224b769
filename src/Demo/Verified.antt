-- ===== src/Demo/Verified.antt =====
-- The accounts that broker/demo_guard.py lets through.
use jqe.Prelude.{
  ℕ, pos, negsuc, ◌≡◌, ◌⊎◌, ◌↔◌, refl, Bool, true, false, ==_iff, ◌||◌, Option, none, some, arith,
  inl, inr, Bool-cases, is_some, subst,
}
use jqe.Text.{Text, strip, lower}
use jqe.Number.{int, float}
use jqe.Value.{Value, null, bool, num, str, side, object}
use jqe.Demo.{
  AccountData, Check, Evidence, is_exactly, deriv_account, is_deriv, is_mt5, is_weltrade_name,
  verify_deriv, verify_mt5, assert_demo_account, guard_order_submission,
}

module _ {F : Type 0} where
  is_exactly_iff : (n : ℕ) (v : Value F) → (is_exactly n v ≡ true) ↔ (v ≡ num (int (pos n)))
  unfolding is_exactly
  is_exactly_iff n (num (int (pos k))) =
      (λ h. ground (arith, ==_iff k n), λ h. ground (arith, ==_iff k n))
  is_exactly_iff n (num (int (negsuc k))) = (λ h. absurd (ground arith), λ h. absurd (ground arith))
  is_exactly_iff n (num (float x)) = (λ h. absurd (ground arith), λ h. absurd (ground arith))
  is_exactly_iff n null = (λ h. absurd (ground arith), λ h. absurd (ground arith))
  is_exactly_iff n (bool b) = (λ h. absurd (ground arith), λ h. absurd (ground arith))
  is_exactly_iff n (str t) = (λ h. absurd (ground arith), λ h. absurd (ground arith))
  is_exactly_iff n (side x) = (λ h. absurd (ground arith), λ h. absurd (ground arith))
  is_exactly_iff n object = (λ h. absurd (ground arith), λ h. absurd (ground arith))

  -- A demo account of a broker that the guard knows: Deriv says that it is virtual, or the terminal
  -- that its mode is that of a demo, each by the exact integer.
  abbrev pub IsDemo : Text → AccountData F → Type 0
  IsDemo broker data_ =
      ((is_deriv (lower (strip broker)) ≡ true)
        × ((deriv_account data_).is_virtual ≡ num (int (pos 1))))
      ⊎ ((is_deriv (lower (strip broker)) ≡ false)
          × ((is_mt5 (lower (strip broker)) || is_weltrade_name (lower (strip broker))) ≡ true)
          × (data_.account.trade_mode ≡ num (int (pos 0))))

  verify_deriv_iff :
      (data_ : AccountData F) (check : Check) (rows : Evidence)
      → (is_some (verify_deriv data_ check rows).0 ≡ true)
        ↔ ((deriv_account data_).is_virtual ≡ num (int (pos 1)))
  unfolding verify_deriv
  verify_deriv_iff data_ check rows =
      let exact = is_exactly_iff 1 (deriv_account data_).is_virtual in
      elim (Bool-cases (is_exactly 1 (deriv_account data_).is_virtual)) [
        | inl passes ↦ (λ h. exact.0 passes, λ h. ground arith)
        | inr fails ↦ (λ h. absurd (ground arith), λ h. absurd (ground (arith, exact.1 h)))
      ]

  verify_mt5_iff :
      (w : Bool) (data_ : AccountData F) (check : Check) (rows : Evidence)
      → (is_some (verify_mt5 w data_ check rows).0 ≡ true)
        ↔ (data_.account.trade_mode ≡ num (int (pos 0)))
  unfolding verify_mt5
  verify_mt5_iff w data_ check rows =
      let exact = is_exactly_iff 0 data_.account.trade_mode in
      elim (Bool-cases (is_exactly 0 data_.account.trade_mode)) [
        | inl passes ↦ (λ h. exact.0 passes, λ h. ground arith)
        | inr fails ↦ (λ h. absurd (ground arith), λ h. absurd (ground (arith, exact.1 h)))
      ]

  assert_demo_account_iff :
      (broker : Text) (data_ : AccountData F) (check : Check) (rows : Evidence)
      → (is_some (assert_demo_account broker (some data_) check rows).0 ≡ true)
        ↔ IsDemo broker data_
  unfolding assert_demo_account
  assert_demo_account_iff broker data_ check rows =
      let b = lower (strip broker) in
      let deriv = verify_deriv_iff data_ check rows in
      let mt5 = verify_mt5_iff (is_weltrade_name b) data_ check rows in
      elim (Bool-cases (is_deriv b)) [
        | inl first ↦ (
          λ h. inl (first, deriv.0 (ground arith)),
          λ demo. elim demo [
            | inl (named, virtual) ↦ let shown = deriv.1 virtual in ground arith
            | inr (other, named, mode) ↦ absurd (ground arith)
          ],
        )
        | inr other ↦ elim (Bool-cases (is_mt5 b || is_weltrade_name b)) [
          | inl named ↦ (
            λ h. inr (other, named, mt5.0 (ground arith)),
            λ demo. elim demo [
              | inl (first, virtual) ↦ absurd (ground arith)
              | inr (before, among, mode) ↦ let shown = mt5.1 mode in ground arith
            ],
          )
          | inr unknown ↦ (
            λ h. absurd (ground arith),
            λ demo. elim demo [
              | inl (first, virtual) ↦ absurd (ground arith)
              | inr (before, among, mode) ↦ absurd (ground arith)
            ],
          )
        ]
      ]

  -- Before an order the guard lets exactly the demo accounts through: the account data was fetched, and
  -- it shows a Deriv account whose `is_virtual` is the integer 1, or a terminal account of MT5 or
  -- Weltrade whose `trade_mode` is the integer 0; no other value, no other broker and no missing data
  -- pass, whether or not the evidence of the check is stored.
  pub guard_order_submission-IsDemo_iff :
      (broker : Text) (answer : Option (Option (AccountData F))) (check : Check) (rows : Evidence)
      → (is_some (guard_order_submission broker answer check rows).0 ≡ true)
        ↔ ((data_ : AccountData F) × (answer ≡ some (some data_)) × IsDemo broker data_)
  unfolding guard_order_submission assert_demo_account
  guard_order_submission-IsDemo_iff broker none check rows =
      (λ h. absurd (ground arith), λ demo. absurd (ground (arith, demo.1)))
  guard_order_submission-IsDemo_iff broker (some none) check rows =
      (λ h. absurd (ground arith), λ demo. absurd (ground (arith, demo.1)))
  guard_order_submission-IsDemo_iff broker (some (some data_)) check rows =
      let same = assert_demo_account_iff broker data_ check rows in
      (
        λ h. (data_, refl, same.0 h),
        λ demo.
            let equal : demo.0 ≡ data_ = ground (arith, demo.1) in
            same.1 (subst (IsDemo broker) equal demo.2),
      )
