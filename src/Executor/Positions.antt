-- ===== src/Executor/Positions.antt =====
-- execution/trade_manager.py: broker positions as the policy's snapshots. The members of
-- `OrderSide` are BUY and SELL, so of the tests of one position that of its symbol remains.
use jqe.Prelude.{Option, none, some, List, [], ◌∷◌, ◌>>=◌, if◌then◌else◌, not}
use jqe.Text.{nonblank, strip}
use jqe.Value.{str, side}
use jqe.Policy.{PositionSnapshot}
use jqe.Executor.Data.{Position}

module _ {F : Type 0} where
  abbrev pub snapshot : Position → PositionSnapshot F
  snapshot p = record { symbol = str (strip p.symbol); side = side p.side }

  unfoldable pub snapshots_of : List (Option Position) → Option (List (PositionSnapshot F))
  snapshots_of [] = some []
  snapshots_of (none ∷ ps) = none
  snapshots_of (some p ∷ ps) =
      let rest = snapshots_of ps in
      if not (nonblank p.symbol) then none else (do ss ← rest; some (snapshot p ∷ ss))

  -- `PositionSnapshotAdapter.from_positions`
  unfoldable pub from_positions :
      Option (List (Option Position)) → Option (List (PositionSnapshot F))
  from_positions none = none
  from_positions (some ps) = snapshots_of ps
