-- ===== src/Demo.antt =====
-- broker/demo_guard.py: the gate in front of each session and order, which lets demo accounts through
-- alone. A check that raises gives `none`. Logging and the evidence of a campaign are left out.
use jqe.Prelude.{
  ℕ, ℤ, pos, Bool, false, ◌==◌, not, ◌||◌, Option, none, some, List, [], ◌∷◌, ◌++◌, if◌then◌else◌,
}
use jqe.Text.{Text, text, text_eq, strip, lower}
use jqe.Number.{int}
use jqe.Value.{Value, num}
mod Verified
mod Tests

-- The entries, or the attributes, that the guard reads. An identifier is its `str`, and `none` where
-- it is missing or counts as false.
pub record BrokerAccount (F : Type 0) : Type 0 where
  pub is_virtual : Value F
  pub loginid : Option Text
  pub account_id : Option Text
  pub trade_mode : Value F
  pub login : Option Text

-- `account_data`: the account, with the mapping that it has under `authorize`.
pub record AccountData (F : Type 0) : Type 0 where
  pub account : BrokerAccount F
  pub authorize : Option (BrokerAccount F)

pub record DemoAccountVerification : Type 0 where
  pub broker : Text
  pub account_id : Text
  pub checked_field : Text
  pub observed_value : ℤ
  pub verified_at : ℕ
  pub status : Text

-- A call's session and time, and whether the evidence store takes its row.
pub record Check : Type 0 where
  pub session_id : Text
  pub now : ℕ
  pub is_stored : Bool

-- The rows of `broker_account_verifications`, with their sessions.
abbrev pub Evidence : Type 0
Evidence = List (Text × DemoAccountVerification)

-- `_record_verification`, whose failures are swallowed.
unfoldable pub record_verification : Check → DemoAccountVerification → Evidence → Evidence
record_verification check v rows =
    if check.is_stored then rows ++ (check.session_id, v) ∷ [] else rows

-- `text or default`
abbrev pub or_else : Text → Text → Text
or_else [] default = default
or_else (c ∷ cs) default = c ∷ cs

abbrev pub id_text : Option Text → Text
id_text none = []
id_text (some t) = strip t

-- The verification that a passed check makes.
abbrev pub passed : Text → Text → Text → ℕ → Check → DemoAccountVerification
passed broker account_id field value check = record {
  broker = broker;
  account_id = account_id;
  checked_field = field;
  observed_value = pos value;
  verified_at = check.now;
  status = text "PASSED";
}

abbrev pub first_id : Option Text → Option Text → Option Text
first_id none second = second
first_id (some t) second = some t

abbrev pub evidence_broker : Bool → Text
evidence_broker is_weltrade = if is_weltrade then text "weltrade" else text "mt5"

abbrev pub unknown_terminal : Bool → Text
unknown_terminal is_weltrade = if is_weltrade then text "UNKNOWN_WELTRADE" else text "UNKNOWN_MT5"

abbrev pub is_deriv : Text → Bool
is_deriv b = text_eq b (text "deriv") || text_eq b (text "deriv_demo")

abbrev pub is_mt5 : Text → Bool
is_mt5 b = text_eq b (text "mt5") || text_eq b (text "mt5_demo")

abbrev pub is_weltrade_name : Text → Bool
is_weltrade_name b = text_eq b (text "weltrade") || text_eq b (text "weltrade_demo")

module _ {F : Type 0} where
  -- `type(v) is int and v == n`
  unfoldable pub is_exactly : ℕ → Value F → Bool
  is_exactly n (num (int (pos k))) = k == n
  is_exactly n _ = false

  abbrev pub deriv_account : AccountData F → BrokerAccount F
  deriv_account data_ = elim data_.authorize [ none ↦ data_.account | some inner ↦ inner ]

  -- `_verify_deriv`
  unfoldable pub verify_deriv :
      AccountData F → Check → Evidence → Option DemoAccountVerification × Evidence
  verify_deriv data_ check rows =
      let a = deriv_account data_ in
      let id = or_else (id_text (first_id a.loginid a.account_id)) (text "UNKNOWN_DERIV") in
      let v = passed (text "deriv") id (text "is_virtual") 1 check in
      if not (is_exactly 1 a.is_virtual)
      then (none, rows)
      else (some v, record_verification check v rows)

  -- `_verify_mt5`, for a broker whose name starts with "weltrade" or not.
  unfoldable pub verify_mt5 :
      Bool → AccountData F → Check → Evidence → Option DemoAccountVerification × Evidence
  verify_mt5 is_weltrade data_ check rows =
      let a = data_.account in
      let id = or_else (id_text a.login) (unknown_terminal is_weltrade) in
      let v = passed (evidence_broker is_weltrade) id (text "trade_mode") 0 check in
      if not (is_exactly 0 a.trade_mode)
      then (none, rows)
      else (some v, record_verification check v rows)

  -- `assert_demo_account`, with `none` for account data that is None.
  unfoldable pub assert_demo_account :
      Text → Option (AccountData F) → Check → Evidence → Option DemoAccountVerification × Evidence
  assert_demo_account broker none check rows = (none, rows)
  assert_demo_account broker (some data_) check rows =
      let b = lower (strip broker) in
      if is_deriv b
      then verify_deriv data_ check rows
      else if is_mt5 b || is_weltrade_name b
      then verify_mt5 (is_weltrade_name b) data_ check rows
      else (none, rows)

  -- `guard_order_submission`: what the provider gives, with `none` where it raises.
  unfoldable pub guard_order_submission :
      Text
      → Option (Option (AccountData F))
      → Check
      → Evidence
      → Option DemoAccountVerification × Evidence
  guard_order_submission broker none check rows = (none, rows)
  guard_order_submission broker (some data_) check rows =
      assert_demo_account broker data_ check rows
