-- ===== src/Demo/Tests.antt =====
-- The demo guard on a Deriv and on a Weltrade account.
use jqe.Prelude.{ℕ, pos, ◌≡◌, ◌↔◌, refl, true, none, some, [], ◌∷◌, is_some}
use jqe.Text.{Text, text}
use jqe.Number.{int}
use jqe.Number.Fixed.{Fixed}
use jqe.Value.{Value, null, bool, num}
use jqe.Demo.{BrokerAccount, AccountData, Check, guard_order_submission}
use jqe.Demo.Verified.{IsDemo, guard_order_submission-IsDemo_iff}

abbrev account : Value Fixed → Value Fixed → AccountData Fixed
account is_virtual trade_mode = record {
  account = record {
    is_virtual = is_virtual;
    loginid = some (text " VRTC1 ");
    account_id = none;
    trade_mode = trade_mode;
    login = none;
  };
  authorize = none;
}

abbrev check : Check
check = record { session_id = text "s1"; now = 7; is_stored = true }

abbrev whole : ℕ → Value Fixed
whole n = num (int (pos n))

deriv_passes :
    (guard_order_submission (text " Deriv_Demo") (some (some (account (whole 1) null))) check []).1
    ≡ (
      text "s1",
      record {
        broker = text "deriv";
        account_id = text "VRTC1";
        checked_field = text "is_virtual";
        observed_value = pos 1;
        verified_at = 7;
        status = text "PASSED";
      },
    )
      ∷ []
unfolding guard_order_submission jqe.Demo.assert_demo_account jqe.Text.text_eq jqe.Text.lower
    jqe.Text.strip jqe.Demo.verify_deriv jqe.Demo.is_exactly jqe.Demo.record_verification
deriv_passes = refl

-- The value True is not the integer 1.
true_fails :
    guard_order_submission (text "deriv") (some (some (account (bool true) null))) check []
    ≡ (none, [])
unfolding guard_order_submission jqe.Demo.assert_demo_account jqe.Text.text_eq jqe.Text.lower
    jqe.Text.strip jqe.Demo.verify_deriv jqe.Demo.is_exactly
true_fails = refl

real_fails :
    guard_order_submission (text "weltrade") (some (some (account (whole 1) (whole 2)))) check []
    ≡ (none, [])
unfolding guard_order_submission jqe.Demo.assert_demo_account jqe.Text.text_eq jqe.Text.lower
    jqe.Text.strip jqe.Demo.verify_mt5 jqe.Demo.is_exactly
real_fails = refl

guard_order_submission-IsDemo_iff_example :
    (is_some
        (guard_order_submission (text "Weltrade") (some (some (account null (whole 0)))) check []).0
      ≡ true)
    ↔ ((data_ : AccountData Fixed) × (some (some (account null (whole 0))) ≡ some (some data_))
        × IsDemo (text "Weltrade") data_)
guard_order_submission-IsDemo_iff_example =
    guard_order_submission-IsDemo_iff (text "Weltrade") (some (some (account null (whole 0)))) check
      []
