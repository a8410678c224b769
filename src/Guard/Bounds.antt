-- ===== src/Guard/Bounds.antt =====
-- Sequences of calls of `DailyInstrumentTradeGuard.consume`, by any processes and at any clocks.
use jqe.Prelude.{
  ℕ, ◌+◌, ◌≤◌, ◌≡◌, refl, Bool, true, false, ◌&&◌, Option, some, List, [], ◌∷◌, arith, leb, ◌==◌,
  if◌then◌else◌, Bool-cases, Option-cases, inl, inr,
}
use jqe.Text.{Text, text_eq, strip, nonblank, normalize}
use jqe.Text.Laws.{text_eq_iff, normalize_idem, strip_idem, nonblank-strip, nonblank-normalize}
use jqe.Store.{DateTime}
use jqe.Guard.{
  Grant, granted, refused, DailyCounter, date, guard_key, guard_now, counts_for, submission_starts,
  upsert_counter, count_start, usage, consume,
}

abbrev is_granted {ℓ} : {A : Type 0} → Grant A → Bool
is_granted (granted a) = true
is_granted (refused e) = false

pub submission_starts-upsert_counter :
    (scope instrument : Text) (utc_date : ℕ) (c : DailyCounter) (cs : List DailyCounter)
    → submission_starts scope instrument utc_date (upsert_counter c cs) ≡ (
        if counts_for scope instrument utc_date c
        then c.submission_starts
        else submission_starts scope instrument utc_date cs)
unfolding submission_starts upsert_counter
submission_starts-upsert_counter scope instrument utc_date c [] = refl
submission_starts-upsert_counter scope instrument utc_date c (d ∷ ds) = ground (
  arith,
  submission_starts-upsert_counter scope instrument utc_date c ds,
  text_eq_iff c.scope scope,
  text_eq_iff d.scope scope,
  text_eq_iff d.scope c.scope,
  text_eq_iff c.instrument instrument,
  text_eq_iff d.instrument instrument,
  text_eq_iff d.instrument c.instrument,
)

-- One call of `consume`.
pub record Attempt : Type 0 where
  pub scope : Text
  pub instrument : Text
  pub at : Option DateTime
  pub clock : DateTime

-- An attempt that succeeds for this account, instrument and day.
abbrev pub takes : ℕ → Text → Text → ℕ → Attempt → List DailyCounter → Bool
takes limit scope instrument utc_date a counters =
    elim (consume limit a.scope a.instrument a.at a.clock counters).0 [
      | refused e ↦ false
      | granted u ↦
          text_eq u.scope scope && text_eq u.instrument instrument && u.utc_date == utc_date
    ]

unfoldable pub consume_all : ℕ → List Attempt → List DailyCounter → List DailyCounter
consume_all limit [] counters = counters
consume_all limit (a ∷ rest) counters =
    consume_all limit rest (consume limit a.scope a.instrument a.at a.clock counters).1

-- How many of the attempts succeed for this account, instrument and day.
unfoldable pub taken : ℕ → Text → Text → ℕ → List Attempt → List DailyCounter → ℕ
taken limit scope instrument utc_date [] counters = 0
taken limit scope instrument utc_date (a ∷ rest) counters =
    let later =
      taken limit scope instrument utc_date rest
        (consume limit a.scope a.instrument a.at a.clock counters).1 in
    if takes limit scope instrument utc_date a counters then 1 + later else later

-- The normal form of a key is its own.
guard_key_idem :
    (scope instrument : Text)
    → (nonblank scope && nonblank instrument) ≡ true
    → guard_key (strip scope) (normalize instrument) ≡ some (strip scope, normalize instrument)
guard_key_idem scope instrument h = ground (
  arith,
  nonblank-strip scope,
  nonblank-normalize instrument,
  strip_idem scope,
  normalize_idem instrument,
)

consume-submission_starts :
    (limit : ℕ) (scope instrument : Text) (utc_date : ℕ) (a : Attempt) (cs : List DailyCounter)
    → (submission_starts scope instrument utc_date
          (consume limit a.scope a.instrument a.at a.clock cs).1
        ≡ submission_starts scope instrument utc_date cs
          + (if takes limit scope instrument utc_date a cs then 1 else 0))
      × (takes limit scope instrument utc_date a cs ≡ true
          → submission_starts scope instrument utc_date cs + 1 ≤ limit)
unfolding consume count_start usage
consume-submission_starts limit scope instrument utc_date a cs =
    elim (Bool-cases (nonblank a.scope && nonblank a.instrument)) [
      | inr blank ↦ (ground arith, ground arith)
      | inl named ↦ elim (Option-cases (guard_now a.at a.clock)) [
        | inl unreadable ↦ (ground arith, ground arith)
        | inr (now, read) ↦
            let row : DailyCounter = record {
              scope = strip a.scope;
              instrument = normalize a.instrument;
              utc_date = date now;
              submission_starts =
                  submission_starts (strip a.scope) (normalize a.instrument) (date now) cs + 1;
              updated_at = now;
            } in
            let counted = submission_starts-upsert_counter scope instrument utc_date row cs in
            let again = guard_key_idem a.scope a.instrument named in
            let same_scope = text_eq_iff (strip a.scope) scope in
            let same_instrument = text_eq_iff (normalize a.instrument) instrument in
            elim (Bool-cases (leb limit row.submission_starts)) [
              | inl x ↦ (ground arith, ground arith)
              | inr x ↦ (ground arith, ground arith)
            ]
      ]
    ]

-- If the counter of an account, an instrument and a UTC day is within the limit at the start, then
-- over any sequence of calls of `consume` it rises by exactly the number of calls that succeed for
-- it, and stays within the limit: no more starts than the limit are ever granted.
pub consume_all-submission_starts :
    (limit : ℕ) (scope instrument : Text) (utc_date : ℕ) (calls : List Attempt)
    (cs : List DailyCounter)
    → submission_starts scope instrument utc_date cs ≤ limit
    → (submission_starts scope instrument utc_date (consume_all limit calls cs)
        ≡ submission_starts scope instrument utc_date cs
          + taken limit scope instrument utc_date calls cs)
      × (submission_starts scope instrument utc_date (consume_all limit calls cs) ≤ limit)
unfolding consume_all taken
consume_all-submission_starts limit scope instrument utc_date [] cs within = (omega arith, within)
consume_all-submission_starts limit scope instrument utc_date (a ∷ rest) cs within =
    let step = consume-submission_starts limit scope instrument utc_date a cs in
    elim (Bool-cases (takes limit scope instrument utc_date a cs)) [
      | inl counted ↦
          let later =
            consume_all-submission_starts limit scope instrument utc_date rest
              (consume limit a.scope a.instrument a.at a.clock cs).1
              (ground (arith, step.0, step.1 counted)) in
          (ground (arith, later.0, step.0), later.1)
      | inr spared ↦
          let later =
            consume_all-submission_starts limit scope instrument utc_date rest
              (consume limit a.scope a.instrument a.at a.clock cs).1 (ground (arith, step.0)) in
          (ground (arith, later.0, step.0), later.1)
    ]
