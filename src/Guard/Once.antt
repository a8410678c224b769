-- ===== src/Guard/Once.antt =====
-- Sequences of calls of `SQLiteOneShotExecutionGuard.consume`, by any processes.
use jqe.Prelude.{
  ℕ, ◌+◌, ◌≤◌, ◌≡◌, refl, Bool, true, false, List, [], ◌∷◌, arith, leb, if◌then◌else◌, Bool-cases,
  inl, inr,
}
use jqe.Text.{Text, text_eq, strip, nonblank}
use jqe.Text.Laws.{text_eq_iff}
use jqe.Guard.{Grant, granted, refused, LifetimeCounter, submissions, upsert_lifetime, consume_once}

abbrev pub is_granted : Grant Unit → Bool
is_granted (granted u) = true
is_granted (refused e) = false

submissions-upsert_lifetime :
    (scope key : Text) (now : ℕ) (cs : List LifetimeCounter)
    → submissions scope (upsert_lifetime key now cs)
      ≡ (if text_eq key scope then 1 else submissions scope cs)
unfolding submissions upsert_lifetime
submissions-upsert_lifetime scope key now [] = refl
submissions-upsert_lifetime scope key now (c ∷ cs) = ground (
  arith,
  submissions-upsert_lifetime scope key now cs,
  text_eq_iff key scope,
  text_eq_iff c.scope scope,
  text_eq_iff c.scope key,
)

-- A call of `consume` for a scope, at a time.
unfoldable pub consume_each : List (Text × ℕ) → List LifetimeCounter → List LifetimeCounter
consume_each [] counters = counters
consume_each ((scope, now) ∷ rest) counters = consume_each rest (consume_once scope now counters).1

-- How many of the calls succeed for the scope.
unfoldable pub orders : Text → List (Text × ℕ) → List LifetimeCounter → ℕ
orders scope [] counters = 0
orders scope ((s, now) ∷ rest) counters =
    let (result, counters') = consume_once s now counters in
    let later = orders scope rest counters' in
    if is_granted result then if text_eq (strip s) scope then 1 + later else later else later

-- 1 if the scope has been consumed, and 0 if not.
abbrev pub spent : Text → List LifetimeCounter → ℕ
spent scope cs = if leb 1 (submissions scope cs) then 1 else 0

-- Over any sequence of calls of `consume`, the calls that succeed for a scope make the difference
-- between its state at the start and at the end, 1 if it is consumed and 0 if not: at most one
-- succeeds, none if the scope is consumed already, and after a success it stays consumed.
pub consume_each-orders :
    (scope : Text) (calls : List (Text × ℕ)) (cs : List LifetimeCounter)
    → (spent scope cs + orders scope calls cs ≡ spent scope (consume_each calls cs))
      × (orders scope calls cs ≤ 1)
unfolding consume_each orders consume_once
consume_each-orders scope [] cs = (omega arith, omega arith)
consume_each-orders scope ((s, now) ∷ rest) cs =
    let later = consume_each-orders scope rest (consume_once s now cs).1 in
    let counted = submissions-upsert_lifetime scope (strip s) now cs in
    let same = text_eq_iff (strip s) scope in
    elim (Bool-cases (nonblank s)) [
      | inr blank ↦ (ground arith, ground arith)
      | inl named ↦ elim (Bool-cases (leb 1 (submissions (strip s) cs))) [
        | inl gone ↦ (ground arith, ground arith)
        | inr fresh ↦ (ground arith, ground arith)
      ]
    ]
