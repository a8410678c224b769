-- ===== src/Guard.antt =====
-- The durable caps on submissions: execution/daily_instrument_guard.py (the starts of one account
-- on one instrument in one UTC day) and `SQLiteOneShotExecutionGuard` of execution/persistence.py
-- (one order in the lifetime of a scope). A method is one transaction on the counters' table.
pub mod Bounds
pub mod Once
mod Tests
use jqe.Prelude.{
  ℕ, suc, ◌+◌, ◌*◌, ◌/◌, Bool, true, false, not, ◌&&◌, Option, none, some, List, [], ◌∷◌, leb, ◌==◌,
  if◌then◌else◌, or_else,
}
use jqe.Text.{Text, text_eq, strip, nonblank, normalize}
use jqe.Store.{DateTime, naive, aware}

-- `DailyInstrumentCapReached` or the RuntimeError of the lifetime cap, or a ValueError.
pub data Refusal : Type 0 where
  cap_reached invalid : Refusal

pub data Grant (A : Type 0) : Type 0 where
  granted : A → Grant A
  refused : Refusal → Grant A

-- A row of `daily_instrument_trade_counter`; `utc_date` is the number of days since the epoch.
pub record DailyCounter : Type 0 where
  pub scope : Text
  pub instrument : Text
  pub utc_date : ℕ
  pub submission_starts : ℕ
  pub updated_at : ℕ

pub record DailyInstrumentUsage : Type 0 where
  pub scope : Text
  pub instrument : Text
  pub utc_date : ℕ
  pub count : ℕ
  pub limit : ℕ
  pub reset_at : ℕ

-- The microseconds of a day.
abbrev day : ℕ
day = 86400000000

-- `now.date()`
unfoldable pub date : ℕ → ℕ
date now = now / day

-- `_now`, where `none` is its ValueError.
abbrev pub guard_now : Option DateTime → DateTime → Option ℕ
guard_now (some (naive t)) clock = none
guard_now (some (aware t)) clock = some t
guard_now none (naive t) = none
guard_now none (aware t) = some t

-- `_key`, where `none` is its ValueError.
abbrev pub guard_key : Text → Text → Option (Text × Text)
guard_key scope instrument =
    if nonblank scope && nonblank instrument then some (strip scope, normalize instrument) else none

abbrev pub counts_for : Text → Text → ℕ → DailyCounter → Bool
counts_for scope instrument utc_date c =
    text_eq c.scope scope && text_eq c.instrument instrument && c.utc_date == utc_date

-- The SELECT of a counter, 0 where there is no row.
unfoldable pub submission_starts : Text → Text → ℕ → List DailyCounter → ℕ
submission_starts scope instrument utc_date [] = 0
submission_starts scope instrument utc_date (c ∷ cs) =
    if counts_for scope instrument utc_date c
    then c.submission_starts
    else submission_starts scope instrument utc_date cs

-- INSERT … ON CONFLICT(scope, instrument, utc_date) DO UPDATE
unfoldable pub upsert_counter : DailyCounter → List DailyCounter → List DailyCounter
upsert_counter c [] = c ∷ []
upsert_counter c (d ∷ ds) =
    if counts_for c.scope c.instrument c.utc_date d
    then record d { submission_starts = c.submission_starts; updated_at = c.updated_at } ∷ ds
    else d ∷ upsert_counter c ds

-- `DailyInstrumentTradeGuard.usage`
unfoldable pub usage :
    ℕ → Text → Text → Option DateTime → DateTime → List DailyCounter → Grant DailyInstrumentUsage
usage limit scope instrument at clock counters = elim (guard_key scope instrument) [
  | none ↦ refused invalid
  | some (s, i) ↦ elim (guard_now at clock) [
    | none ↦ refused invalid
    | some now ↦ granted (record {
      scope = s;
      instrument = i;
      utc_date = date now;
      count = submission_starts s i (date now) counters;
      limit = limit;
      reset_at = suc (date now) * day;
    })
  ]
]

-- The transaction of `DailyInstrumentTradeGuard.consume`.
unfoldable pub count_start : ℕ → Text → Text → ℕ → List DailyCounter → Bool × List DailyCounter
count_start limit scope instrument now counters =
    let count = submission_starts scope instrument (date now) counters in
    if leb limit count then (false, counters) else (
      true,
      upsert_counter
          (record {
            scope = scope;
            instrument = instrument;
            utc_date = date now;
            submission_starts = count + 1;
            updated_at = now;
          })
          counters,
    )

-- `DailyInstrumentTradeGuard.consume`, with the usage that it reads after the commit.
unfoldable pub consume :
    ℕ
    → Text
    → Text
    → Option DateTime
    → DateTime
    → List DailyCounter
    → Grant DailyInstrumentUsage × List DailyCounter
consume limit scope instrument at clock counters = elim (guard_key scope instrument) [
  | none ↦ (refused invalid, counters)
  | some (s, i) ↦ elim (guard_now at clock) [
    | none ↦ (refused invalid, counters)
    | some now ↦
        let (counted, counters') = count_start limit s i now counters in
        if counted
        then (usage limit s i (some (aware now)) clock counters', counters')
        else (refused cap_reached, counters')
  ]
]

-- A row of `execution_lifetime_counter`.
pub record LifetimeCounter : Type 0 where
  pub scope : Text
  pub submissions : ℕ
  pub updated_at : ℕ

unfoldable pub submissions : Text → List LifetimeCounter → ℕ
submissions scope [] = 0
submissions scope (c ∷ cs) = if text_eq c.scope scope then c.submissions else submissions scope cs

-- INSERT … ON CONFLICT(scope) DO UPDATE SET submissions=1
unfoldable pub upsert_lifetime : Text → ℕ → List LifetimeCounter → List LifetimeCounter
upsert_lifetime scope now [] = record { scope = scope; submissions = 1; updated_at = now } ∷ []
upsert_lifetime scope now (c ∷ cs) =
    if text_eq c.scope scope
    then record c { submissions = 1; updated_at = now } ∷ cs
    else c ∷ upsert_lifetime scope now cs

-- `SQLiteOneShotExecutionGuard.count`
unfoldable pub lifetime_count : Text → List LifetimeCounter → Grant ℕ
lifetime_count scope counters =
    if nonblank scope then granted (submissions (strip scope) counters) else refused invalid

-- `SQLiteOneShotExecutionGuard.assert_available`, whose limit is 1
unfoldable pub assert_available : Text → List LifetimeCounter → Grant Unit
assert_available scope counters = elim (lifetime_count scope counters) [
  | refused e ↦ refused e
  | granted n ↦ if leb 1 n then refused cap_reached else granted tt
]

-- `SQLiteOneShotExecutionGuard.consume` at the time `now`
unfoldable pub consume_once : Text → ℕ → List LifetimeCounter → Grant Unit × List LifetimeCounter
consume_once scope now counters =
    if not (nonblank scope)
    then (refused invalid, counters)
    else if leb 1 (submissions (strip scope) counters)
    then (refused cap_reached, counters)
    else (granted tt, upsert_lifetime (strip scope) now counters)
