-- ===== src/Audit/Cycle.antt =====
-- execution/continuous_reconciliation.py: `TerminalReconciliationAuditor.audit`.
use jqe.Prelude.{
  ℕ, Bool, true, false, not, ◌&&◌, ℤ, Option, none, some, List, [], ◌∷◌, ◌++◌, length,
  if◌then◌else◌, leb_ℤ, is_some,
}
use jqe.Text.{Text, text_eq, normalize}
use jqe.Number.{float, Float}
use jqe.Broker.{side_eq}
use jqe.Audit.Data.{
  ReconciliationDiscrepancyType, untracked_broker_position, external_manual_trade, volume_mismatch,
  symbol_mismatch, side_mismatch, phantom_internal_position, broker_unavailable,
  malformed_broker_data, ReconciliationDiscrepancy, TrackedTradeState, BrokerPosition,
  AuditReconciliationReport, clean, discrepancies_detected, audit_failed, Sources, tracked_trades,
}
use jqe.Audit.Tracked.{contains, tracked_map, match_position}

abbrev pub int_eq : ℤ → ℤ → Bool
int_eq a b = leb_ℤ a b && leb_ℤ b a

-- The magic number is configured, and it is not the position's.
abbrev pub foreign : Option ℤ → Option ℤ → Bool
foreign none magic = false
foreign (some expected) none = true
foreign (some expected) (some magic) = not (int_eq magic expected)

abbrev pub only_if : {A : Type 0} → Bool → A → List A
only_if true a = a ∷ []
only_if false a = []

abbrev pub is_nil : {A : Type 0} → List A → Bool
is_nil [] = true
is_nil (x ∷ xs) = false

module _ {F : Type 0} where
  -- A discrepancy of a position, without volumes.
  abbrev pub of_position :
      ReconciliationDiscrepancyType → BrokerPosition F → ReconciliationDiscrepancy F
  of_position kind p = record {
    discrepancy_type = kind;
    symbol = some (normalize p.symbol);
    position_id = some p.position_id;
    broker_volume = none;
    internal_volume = none;
  }

  -- The discrepancy of a position that no trade matches.
  abbrev pub untracked : Option ℤ → BrokerPosition F → ReconciliationDiscrepancy F
  untracked magic p =
      record (of_position
        (if foreign magic p.magic then external_manual_trade else untracked_broker_position) p) {
          broker_volume = some p.volume;
        }

  -- A tracked position that was not matched.
  abbrev pub phantom : Text × TrackedTradeState F → ReconciliationDiscrepancy F
  phantom entry = record {
    discrepancy_type = phantom_internal_position;
    symbol = some entry.1.symbol;
    position_id = some entry.0;
    broker_volume = none;
    internal_volume = entry.1.volume;
  }

  -- Part 4 of `audit`.
  unfoldable pub phantoms :
      List Text → List (Text × TrackedTradeState F) → List (ReconciliationDiscrepancy F)
  phantoms matched [] = []
  phantoms matched (entry ∷ entries) =
      let rest = phantoms matched entries in
      if not (contains entry.0 matched) && is_some entry.1.position_id
      then phantom entry ∷ rest
      else rest

  -- `broker_positions`, and a discrepancy for each item that is no `Position`.
  unfoldable pub read_positions :
      List (Option (BrokerPosition F))
      → List (ReconciliationDiscrepancy F) × List (BrokerPosition F)
  read_positions [] = ([], [])
  read_positions (item ∷ items) =
      let (ds, ps) = read_positions items in
      elim item [
        | none ↦ (
          record {
            discrepancy_type = malformed_broker_data;
            symbol = none;
            position_id = none;
            broker_volume = none;
            internal_volume = none;
          }
              ∷ ds,
          ps,
        )
        | some p ↦ (ds, p ∷ ps)
      ]

module _ {F : Type 0} ⦃o : Float F⦄ where
  -- `abs(float(broker) - float(internal)) > 1e-4`
  abbrev pub volume_differs : F → F → Bool
  volume_differs broker internal =
      o.lt (float (o.decimal 1 4)) (float (o.absolute (o.minus broker internal)))

  -- The four checks of a position against its trade.
  unfoldable pub check_position :
      Option ℤ → BrokerPosition F → TrackedTradeState F → List (ReconciliationDiscrepancy F)
  check_position magic p trade =
      only_if (not (text_eq (normalize p.symbol) trade.symbol)) (of_position symbol_mismatch p)
      ++ only_if (not (side_eq p.side trade.side)) (of_position side_mismatch p)
      ++ (elim trade.volume [
        | none ↦ []
        | some volume ↦
            only_if (volume_differs p.volume volume) (record (of_position volume_mismatch p) {
              broker_volume = some p.volume;
              internal_volume = some volume;
            })
      ])
      ++ only_if (is_some p.magic && foreign magic p.magic) (of_position external_manual_trade p)

  -- The discrepancies of a position, by the trade that it is compared with.
  unfoldable pub compare_position :
      Option ℤ
      → BrokerPosition F
      → Option (TrackedTradeState F)
      → List (ReconciliationDiscrepancy F)
  unfolding check_position
  compare_position magic p none = untracked magic p ∷ []
  compare_position magic p (some trade) = check_position magic p trade

  -- Part 3 of `audit`: the discrepancies, and the keys that are matched in the end.
  unfoldable pub audit_positions :
      Option ℤ
      → List (TrackedTradeState F)
      → List (Text × TrackedTradeState F)
      → List Text
      → List (BrokerPosition F)
      → List (ReconciliationDiscrepancy F) × List Text
  audit_positions magic trades entries matched [] = ([], matched)
  audit_positions magic trades entries matched (p ∷ ps) =
      let (trade, matched') = match_position trades entries matched p in
      let (ds, matched'') = audit_positions magic trades entries matched' ps in
      (compare_position magic p trade ++ ds, matched'')

  -- `audit` at the time `now`. The positions are what `get_positions` returns, an item that is no
  -- `Position` as `none`; the whole is `none` where it raises.
  unfoldable pub audit :
      Sources F → Option (List (Option (BrokerPosition F))) → ℕ → AuditReconciliationReport F
  audit s none now = record {
    reconciled_at = now;
    broker = s.broker;
    is_clean = false;
    stop_tripped = false;
    discrepancies =
        record {
          discrepancy_type = broker_unavailable;
          symbol = none;
          position_id = none;
          broker_volume = none;
          internal_volume = none;
        }
        ∷ [];
    broker_positions_count = 0;
    tracked_positions_count = 0;
    action_taken = audit_failed;
  }
  audit s (some items) now =
      let (malformed, positions) = read_positions items in
      let trades = tracked_trades s in
      let entries = tracked_map trades [] in
      let (found, matched) = audit_positions s.expected_magic_number trades entries [] positions in
      let discrepancies = malformed ++ found ++ phantoms matched entries in
      record {
        reconciled_at = now;
        broker = s.broker;
        is_clean = is_nil discrepancies;
        stop_tripped = false;
        discrepancies = discrepancies;
        broker_positions_count = length positions;
        tracked_positions_count = length entries;
        action_taken = if is_nil discrepancies then clean else discrepancies_detected;
      }
