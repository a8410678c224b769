-- ===== src/Audit/Tests.antt =====
-- Audits of one position against one tracked trade.
use jqe.Prelude.{
  ◌≡◌, ◌⊎◌, refl, true, false, ◌||◌, none, some, pos, List, [], ◌∷◌, map, inl, inr, Any, All,
}
use jqe.Text.{Text, text, nonblank}
use jqe.Number.Fixed.{Fixed, fixed_float}
use jqe.Broker.{OrderSide, buy, sell}
use jqe.Store.{ok}
use jqe.Safety.{ExecutionSafetySnapshot, active, clear, SafetyStore, read}
use jqe.Reconciliation.{no_ledger}
use jqe.Audit.{
  TrackedTradeState, BrokerPosition, Sources, audit, tracked_trades, Settings, Monitor, Round,
  reconcile_and_protect, run_loop, intent_trades,
}
use jqe.Audit.Matching.{Shows}
use jqe.Audit.Clean.{IsCovered, audit-clean}
use jqe.Audit.Tripped.{IsBlocked, reconcile_and_protect_breach}
use jqe.Audit.Loop.{
  IsHalted, any_breach, IsUndisturbed, IsBreach, run_loop-IsHalted, run_loop-latched,
}
use jqe.Audit.Intents.{intent_trades-none}
use jqe.Samples.{price, pending_store}

abbrev held : OrderSide → BrokerPosition Fixed
held side = record {
  position_id = text "p1";
  symbol = text "r_75 ";
  side = side;
  volume = price 1000;
  magic = some (pos 7);
}

abbrev tracked : TrackedTradeState Fixed
tracked = record {
  symbol = text "R_75";
  side = buy;
  volume = some (price 1000);
  position_id = some (text "p1");
  order_id = none;
  stop_loss = none;
  take_profit = none;
  magic_number = none;
  source = text "internal";
}

abbrev sources : Sources Fixed
sources = record {
  broker = text "weltrade";
  expected_magic_number = some (pos 7);
  explicit_tracked = tracked ∷ [];
  active_plans = [];
  ledger = no_ledger;
  intent_store = none;
}

abbrev round_of : OrderSide → Round Fixed
round_of side = record {
  stop_event = false;
  sources = sources;
  positions = some (some (held side) ∷ []);
  now = 5;
  outage = false;
  stopped = false;
}

clean_audit : (audit sources (some (some (held buy) ∷ [])) 5).is_clean ≡ true
unfolding audit jqe.Audit.read_positions jqe.Audit.audit_positions jqe.Audit.compare_position
    jqe.Audit.match_position jqe.Audit.tracked_map tracked_trades jqe.Audit.ledger_trades
    jqe.Reconciliation.ledger_entries intent_trades jqe.Audit.put_tracked jqe.Text.text_eq
    jqe.Text.normalize jqe.Audit.phantoms
clean_audit = refl

audit-clean_example :
    (ps : List (BrokerPosition Fixed)) × (some (some (held buy) ∷ []) ≡ some (map some ps))
    × All (λ p. Any (IsCovered (some (pos 7)) p) (tracked_trades sources)) ps
    × All
        (λ t.
          (t.position_id ≡ none)
          ⊎ ((key : Text) × (t.position_id ≡ some key)
              × Any (Shows (tracked_trades sources) key) ps))
        (tracked_trades sources)
audit-clean_example = audit-clean sources (some (some (held buy) ∷ [])) 5 clean_audit

abbrev no_rows : SafetyStore Fixed
no_rows = record { safety = none; risk = none }

abbrev enabled : Settings
enabled = record { emergency_stop = clear; broker_execution_enabled = true }

abbrev monitor : Monitor Fixed
monitor = record {
  running = false;
  last_report = none;
  emergency_stop_latched = false;
  settings = some enabled;
  safety_store = some no_rows;
}

wrong_side : (audit sources (some (some (held sell) ∷ [])) 5).is_clean ≡ false
unfolding audit jqe.Audit.read_positions jqe.Audit.audit_positions jqe.Audit.compare_position
    jqe.Audit.match_position jqe.Audit.tracked_map tracked_trades jqe.Audit.ledger_trades
    jqe.Reconciliation.ledger_entries intent_trades jqe.Audit.put_tracked jqe.Text.text_eq
    jqe.Text.normalize
wrong_side = refl

broker_named : nonblank (text "weltrade") ≡ true
unfolding nonblank
broker_named = refl

environment_named : nonblank (text "demo") ≡ true
unfolding nonblank
environment_named = refl

reconcile_and_protect_breach_example :
    ((reconcile_and_protect (text "demo") (round_of sell) monitor).0.stop_tripped ≡ true)
    × ((reconcile_and_protect (text "demo") (round_of sell) monitor).1.emergency_stop_latched
        ≡ true)
    × ((reconcile_and_protect (text "demo") (round_of sell) monitor).1.settings
        ≡ some (record { emergency_stop = active; broker_execution_enabled = false }))
    × ((left : SafetyStore Fixed) × ((reconcile_and_protect
            (text "demo")
            (round_of sell)
            monitor).1.safety_store
          ≡ some left)
        × (snapshot : ExecutionSafetySnapshot) × (read left ≡ ok (some snapshot))
        × IsBlocked
            (text "demo")
            (audit (round_of sell).sources (round_of sell).positions (round_of sell).now)
            snapshot)
reconcile_and_protect_breach_example =
    reconcile_and_protect_breach (text "demo") (round_of sell) monitor enabled no_rows wrong_side
      refl broker_named environment_named refl refl

abbrev rounds : List (Round Fixed)
rounds = round_of buy ∷ round_of sell ∷ round_of buy ∷ []

run_loop-IsHalted_example :
    IsHalted (run_loop (text "demo") rounds monitor).0
    × ((run_loop (text "demo") rounds monitor).1.emergency_stop_latched
        ≡ (false || any_breach (run_loop (text "demo") rounds monitor).0))
    × ((run_loop (text "demo") rounds monitor).1.running ≡ false)
run_loop-IsHalted_example = run_loop-IsHalted (text "demo") rounds monitor

undisturbed : All IsUndisturbed rounds
undisturbed = ((refl, refl), ((refl, refl), ((refl, refl), tt)))

breached : Any IsBreach rounds
breached = inr (inl wrong_side)

run_loop-latched_example : (run_loop (text "demo") rounds monitor).1.emergency_stop_latched ≡ true
run_loop-latched_example = run_loop-latched (text "demo") rounds monitor undisturbed breached

intent_trades-none_example : intent_trades (some pending_store) ≡ []
intent_trades-none_example = intent_trades-none (some pending_store)
