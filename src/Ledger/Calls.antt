-- ===== src/Ledger/Calls.antt =====
-- The methods of the ledger that write, as calls in any order by any processes.
use jqe.Prelude.{ℕ, Bool, false, List, [], ◌∷◌}
use jqe.Text.{Text}
use jqe.Number.{Float}
use jqe.Store.{Result, ok, raised, DateTime}
use jqe.Ledger.{
  Entry, Identity, Fill, Close, record_open, record_confirmed_fill_once,
  claim_open_notification_once, claim_close_notification_once,
  claim_close_unconfirmed_notification_once, mark_closed, mark_partial_close,
  mark_close_unconfirmed,
}

-- The three notifications that are claimed.
pub data Notice : Type 0 where
  opened closed unconfirmed : Notice

pub data Call (F : Type 0) : Type 0 where
  record_position : Identity → DateTime → Call F
  confirm_fill : (ℕ → ℕ) → Identity → DateTime → Fill F → Call F
  claim : Notice → Text → Text → ℕ → Call F
  close : Text → Text → DateTime → Close F → Call F
  partial_close : Text → Text → F → F → Call F
  close_unconfirmed : Text → Text → Call F

abbrev pub is_done : Result Bool → Bool
is_done (ok b) = b
is_done (raised e) = false

module _ {F : Type 0} where
  unfoldable pub claim_notice : Notice → Text → Text → ℕ → List (Entry F) → Bool × List (Entry F)
  unfolding claim_open_notification_once claim_close_notification_once
      claim_close_unconfirmed_notification_once
  claim_notice opened = claim_open_notification_once
  claim_notice closed = claim_close_notification_once
  claim_notice unconfirmed = claim_close_unconfirmed_notification_once

module _ {F : Type 0} ⦃o : Float F⦄ where
  -- Whether the method returns True, and the table that it leaves.
  unfoldable pub run : Call F → List (Entry F) → Bool × List (Entry F)
  unfolding claim_notice record_open record_confirmed_fill_once mark_closed mark_partial_close
      mark_close_unconfirmed
  run (record_position i t) es = (false, (record_open i t es).1)
  run (confirm_fill local i t f) es =
      let (result, es') = record_confirmed_fill_once local i t f es in (is_done result, es')
  run (claim notice b p now) es = claim_notice notice b p now es
  run (close b p t c) es = let (result, es') = mark_closed b p t c es in (is_done result, es')
  run (partial_close b p v x) es =
      let (result, es') = mark_partial_close b p v x es in (is_done result, es')
  run (close_unconfirmed b p) es = mark_close_unconfirmed b p es

  unfoldable pub run_all : List (Call F) → List (Entry F) → List (Entry F)
  unfolding run
  run_all [] es = es
  run_all (c ∷ cs) es = run_all cs (run c es).1
