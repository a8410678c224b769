-- ===== src/Audit/Tracked.antt =====
-- execution/continuous_reconciliation.py: the map of tracked trades in `audit`, and the trade that a
-- position is compared with.
use jqe.Prelude.{
  Bool, true, not, ◌&&◌, Option, none, some, List, [], ◌∷◌, any, filter, if◌then◌else◌,
}
use jqe.Text.{Text, text_eq, normalize}
use jqe.Audit.Data.{TrackedTradeState, BrokerPosition}

-- `pid in matched_tracked_keys`
abbrev pub contains : Text → List Text → Bool
contains t ts = any (text_eq t) ts

module _ {F : Type 0} where
  -- `tracked_map[key] = trade`
  unfoldable pub put_tracked :
      Text
      → TrackedTradeState F
      → List (Text × TrackedTradeState F)
      → List (Text × TrackedTradeState F)
  put_tracked key trade [] = (key, trade) ∷ []
  put_tracked key trade (entry ∷ entries) =
      if text_eq entry.0 key then (key, trade) ∷ entries else entry ∷ put_tracked key trade entries

  -- `tracked_map.get(key)`
  unfoldable pub find_tracked :
      Text → List (Text × TrackedTradeState F) → Option (TrackedTradeState F)
  find_tracked key [] = none
  find_tracked key (entry ∷ entries) =
      if text_eq entry.0 key then some entry.1 else find_tracked key entries

  -- `tracked_map` after `_add_tracked` of each trade
  unfoldable pub tracked_map :
      List (TrackedTradeState F)
      → List (Text × TrackedTradeState F)
      → List (Text × TrackedTradeState F)
  tracked_map [] entries = entries
  tracked_map (trade ∷ trades) entries = elim trade.position_id [
    | none ↦ tracked_map trades entries
    | some key ↦ tracked_map trades (put_tracked key trade entries)
  ]

  -- The test for `unmatched`, on the trades of `tracked_by_symbol[symbol]`.
  abbrev pub is_unmatched : Text → List Text → TrackedTradeState F → Bool
  is_unmatched symbol matched trade =
      text_eq trade.symbol symbol
      && (elim trade.position_id [ none ↦ true | some key ↦ not (contains key matched) ])

  -- The trade that a position is compared with, and the keys that are matched then.
  unfoldable pub match_position :
      List (TrackedTradeState F)
      → List (Text × TrackedTradeState F)
      → List Text
      → BrokerPosition F
      → Option (TrackedTradeState F) × List Text
  unfolding find_tracked
  match_position trades entries matched p = elim (find_tracked p.position_id entries) [
    | some trade ↦ (some trade, p.position_id ∷ matched)
    | none ↦ elim (filter (is_unmatched (normalize p.symbol) matched) trades) [
      | [] ↦ (none, matched)
      | trade ∷ _ ↦
          (some trade, elim trade.position_id [ none ↦ matched | some key ↦ key ∷ matched ])
    ]
  ]
