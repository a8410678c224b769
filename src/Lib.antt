-- ===== src/Lib.antt =====
-- The execution core of JQE: what stands between a proposed order and the broker. A submission
-- reserves the account, asks the broker for its positions, judges the intent with them by a pure
-- policy, claims a durable record for the intent's idempotency key and only then hands an order to the
-- broker; the outcome is stored, and what stays unknown is looked into again at the next start.
-- Adapters classify what a broker shows about such an intent. Beside that stand a ledger of positions,
-- the caps on submissions, the preparation of limit orders, the risk engine that sizes and approves
-- trades, and a monitor that audits the broker's positions and trips an emergency stop, which it
-- publishes through a store of safety snapshots. A paper venue takes the broker's place offline,
-- and a guard lets only demo accounts through.
--
-- The files and the code they model:
--   Policy      execution/policy.py: `evaluate` in its eleven steps.
--   Intent      execution/models.py: the durable record of an intent and its two conversions.
--   Store       execution/persistence.py, `SQLiteIntentRecordStore`: `Store/Rows` has the rows and
--               their decoding, `Store/Tables` the SQL statements, `Store/Leases` reservations and
--               claims, `Store/Records` reading, transitions and diagnostics. `Store/Steps` has the
--               methods as steps of any processes on one file.
--   Executor    execution/executor.py, `AsyncTradeExecutor`, and execution/trade_manager.py:
--               `Executor/Reconcile`, `Executor/Send` and `Executor/Submit` follow the methods.
--   Recovery    execution/recovery.py, `StartupRecoveryService`.
--   Reconciliation
--               execution/reconciliation.py: `Reconciliation/Deriv`, `Reconciliation/Mt5` and
--               `Reconciliation/Adapters` follow the adapters. `Recovery/Adapted` joins them with the
--               recovery.
--   Safety      execution/safety.py: the snapshots and their store.
--   Audit       execution/continuous_reconciliation.py: `Audit/Cycle` is the audit, `Audit/Breaker`
--               the circuit breaker and its loop.
--   Risk        risk/risk_engine.py in `Risk/Engine`, risk/simulation_contract.py in
--               `Risk/Contract` and risk/position_sizing.py in `Risk/Sizing`.
--   Paper       execution/paper_contract.py: `Paper/Orders` and `Paper/Observe` follow the engine's
--               methods, `Paper/Authorize` joins it with the policy, and `Paper/Gateway` is the
--               gateway over it.
--   Demo        broker/demo_guard.py, `DemoOnlyGuard`.
--   Ledger      execution/persistence.py, `SQLitePositionLedger`.
--   Guard       execution/daily_instrument_guard.py, and `SQLiteOneShotExecutionGuard` of
--               execution/persistence.py.
--   Limits      execution/position_limits.py and execution/pending_limits.py.
--   Broker      broker/types.py, as far as the others read it.
--   Prelude, Text, Number and Value have Python's lists, strings, numbers and run-time types; Samples
--   has the concrete values of the witnesses.
--
-- State and operations. A method of a store is one transaction: a function from the contents of the
-- database file to a result and the contents that it leaves, so a rollback returns the contents
-- unchanged. A unique key is modelled by looking the key up. A method that raises gives `raised`. The
-- executor's world is that store and the list of orders handed to the gateway. What a submission does
-- not decide itself is in `Surroundings`: the answers of the gateway, of the reconciler, of callbacks
-- and of clocks, failures of the database, and, before each call, a change by other processes. A call
-- in which the database fails leaves the contents as they were. `World` also names
-- the keys that other processes have claimed without having handed over an order. Of the changes by
-- others `IsFair` assumes that no row is lost, that they claim only keys without a row, and that they
-- hand over an order only under a key that they claimed, in the same gap or in an earlier one, and once.
--
-- Bounds. Nothing here runs on fuel: every loop of the code runs over a list. Python's `int` is
-- unbounded, as it is here; stored times are microseconds since the epoch, and a date is their number
-- of days; a time before the epoch is not modelled.
--
-- What is assumed or left out:
--   * Floats are a parameter, `Float`: a type with the operations that the code uses. The one
--     fact that is assumed of them, `IsOrdered`, is that two `int`s compare as integers; `Number/Fixed`
--     is an instance. That `float(n)` of a huge `int` raises is not modelled.
--   * SQLite's and `datetime`'s overflows are not modelled: an integer beyond 64 bits that is stored,
--     and a lease beyond the year 9999, raise in the code. A NaN is stored as NULL, as the code's is.
--   * A number that is neither an `int` nor a `float` counts as any other object.
--   * A string is its code points. `upper` and `lower` change ASCII letters only, `strip` takes off
--     Python's white space.
--   * A field whose type the policy tests is a value of any type. Elsewhere fields have the types that
--     they are annotated with; a `Position` or an `OrderResult` that is of another type is an answer of
--     its own.
--   * A task that is cancelled inside a call, and logging, are left out. The creation and migration of
--     the tables, the read-only inspections and the backup of the file are left out, since they leave
--     the rows as they are.
--   * Python's `decimal`, with its rounded division, and the conversions between it and floats are
--     parameters, `Decimal` and `Conversion`, of which nothing is assumed.
--   * The items that a gateway shows are records of the attributes that the adapters read, with
--     identifiers as their `str`. The messages and times of an audit's discrepancies, and the reasons of
--     a risk decision beside their codes, are left out.
--   * The loop of the monitor runs over a list of rounds, behind the last of which it is cancelled. Its
--     sleeping and its notification callback are left out.
--   * Of the paper venue, the checks of the constructors and the conversion to floats of what the
--     gateway returns are left out; a float of a candle or of an order is the Decimal that is made of
--     it. A side that is plain text, and no `OrderSide`, is not proposed.
--   * Network gateways, signals, dynamic risk, lot helpers for back tests, the loops of paper trading
--     and the HTTP interface are not modelled: their results are arguments here.
pub mod Prelude
pub mod Text
pub mod Number
pub mod Broker
pub mod Value
pub mod Policy
pub mod Intent
pub mod Store
pub mod Executor
pub mod Reconciliation
pub mod Recovery
pub mod Safety
pub mod Audit
pub mod Risk
pub mod Paper
pub mod Demo
pub mod Guard
pub mod Ledger
pub mod Limits
pub mod Samples
