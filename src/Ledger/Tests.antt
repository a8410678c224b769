-- ===== src/Ledger/Tests.antt =====
-- The ledger on one position that is filled and closed.
use jqe.Prelude.{◌+◌, if◌then◌else◌, ◌≤◌, ◌≡◌, refl, true, none, some, [], ◌∷◌, List}
use jqe.Text.{Text, text}
use jqe.Number.Fixed.{Fixed, fixed_float}
use jqe.Broker.{buy}
use jqe.Store.{aware, ok}
use jqe.Ledger.{
  Entry, Identity, Fill, Close, find_entry, is_open, closed_entry, mark_closed, required_text,
  record_confirmed_fill_once,
}
use jqe.Ledger.Calls.{
  Call, closed, confirm_fill, claim, close, partial_close, close_unconfirmed, run_all,
}
use jqe.Ledger.Notices.{deliveries, deliveries-once}
use jqe.Ledger.Claimed.{is_claimed}
use jqe.Ledger.Final.{IsFinal, mark_closed-run_all}
use jqe.Samples.{price}

abbrev identity : Identity
identity = record {
  broker = text "deriv";
  symbol = text "R_75";
  position_id = text " p1";
  order_id = text "o1";
}

abbrev fill_facts : Fill Fixed
fill_facts = record {
  side = buy;
  volume = price 10000;
  entry_price = price 100000;
  stop_loss = price 99000;
  expected_lifetime_at = none;
  timeframe = none;
}

abbrev figures : Close Fixed
figures = record {
  close_price = some (price 101000);
  realized_pnl = some (price 100);
  currency = some (text "USD");
  reconciliation_state = some (text "CLOSE_CONFIRMED");
  close_reason = none;
}

abbrev open_table : List (Entry Fixed)
open_table = (record_confirmed_fill_once (λ t. t) identity (aware 5) fill_facts []).1

-- The close, two claims of its notification, and a partial close that comes too late.
abbrev later : List (Call Fixed)
later =
    claim closed (text "deriv") (text "p1") 8
    ∷ claim closed (text "deriv") (text "p1") 9
    ∷ partial_close (text "deriv") (text "p1") (price 5000) (price 10)
    ∷ []

abbrev whole : List (Call Fixed)
whole = close (text "deriv") (text "p1") (aware 7) figures ∷ later

delivered : deliveries closed (text "deriv") (text "p1") whole open_table ≡ 1
unfolding deliveries jqe.Text.text_eq jqe.Ledger.Calls.run jqe.Ledger.update_entry find_entry
    required_text jqe.Text.nonblank jqe.Ledger.valid_fill jqe.Ledger.required_identity
    jqe.Ledger.fill_entry jqe.Ledger.put_entry
delivered = refl

deliveries-once_example :
    deliveries closed (text "deriv") (text "p1") whole open_table
      + (if is_claimed closed (text "deriv") (text "p1") open_table then 1 else 0)
    ≤ 1
deliveries-once_example = deliveries-once closed (text "deriv") (text "p1") whole open_table

broker_named : required_text (text "deriv ") ≡ some (text "deriv")
unfolding required_text jqe.Text.nonblank
broker_named = refl

position_named : required_text (text "p1") ≡ some (text "p1")
unfolding required_text jqe.Text.nonblank
position_named = refl

close_done : (mark_closed (text "deriv ") (text "p1") (aware 7) figures open_table).0 ≡ ok true
unfolding mark_closed required_text jqe.Text.nonblank jqe.Ledger.update_entry find_entry
    record_confirmed_fill_once jqe.Ledger.valid_fill jqe.Ledger.required_identity jqe.Text.text_eq
    jqe.Ledger.fill_entry
close_done = refl

mark_closed-run_all_example :
    (e : Entry Fixed) × (find_entry (text "deriv") (text "p1") open_table ≡ some e)
    × (is_open e ≡ true)
    × IsFinal
        (text "deriv")
        (text "p1")
        (closed_entry figures 7 e)
        (run_all later (mark_closed (text "deriv ") (text "p1") (aware 7) figures open_table).1)
mark_closed-run_all_example =
    mark_closed-run_all (text "deriv ") (text "p1") (text "deriv") (text "p1") 7 figures later
      open_table broker_named position_named (refl, (refl, (refl, tt))) close_done
