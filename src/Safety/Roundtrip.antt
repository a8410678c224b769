-- ===== src/Safety/Roundtrip.antt =====
-- What the snapshots of execution/safety.py read as after they have been published.
use jqe.Prelude.{
  ap, is_some, Option-cases, ◌≡◌, refl, Bool, true, false, ◌&&◌, ◌||◌, Option, none, some, List, [],
  ◌∷◌, ◌++◌, ◌==◌, all, filter, arith, Bool-cases, inl, inr, not,
}
use jqe.Text.{Text, nonempty, nonblank}
use jqe.Number.{Float, float, zero_float}
use jqe.Store.{DateTime, naive, aware, ok}
use jqe.Safety.{
  EmergencyStopState, ExecutionMode, DailyStateAuthority, ExecutionAuthorization, stop_value,
  stop_of, mode_value, mode_of, authority_value, authority_of, authorization_value,
  authorization_of, ExecutionSafetySnapshot, valid_snapshot, RiskAuthorizationSnapshot, valid_risk,
  SafetyStore, valid_quantity, risk_row, risk_snapshot, safety_row, has_text, is_authorized,
  is_authoritative, finite_or_none, publish, read, publish_risk, read_risk, join_lines, split_lines,
  decode_safety, instant, bit, nonzero, is_aware, map_optional,
}

-- No character is a line feed.
abbrev pub on_one_line : Text → Bool
on_one_line t = all (λ c. not (c == 10)) t

split_lines-line : (t : Text) → on_one_line t ≡ true → split_lines t ≡ t ∷ []
unfolding split_lines
split_lines-line [] h = refl
split_lines-line (c ∷ t) h = ground (arith, split_lines-line t)

split_lines-append :
    (t s : Text) → on_one_line t ≡ true → split_lines (t ++ 10 ∷ s) ≡ t ∷ split_lines s
unfolding split_lines
split_lines-append [] s h = refl
split_lines-append (c ∷ t) s h = ground (arith, split_lines-append t s)

nonempty_of_nonblank : (t : Text) → nonblank t ≡ true → nonempty t ≡ true
nonempty_of_nonblank [] h = absurd (unfold nonblank jqe.Text.strip in ground arith)
nonempty_of_nonblank (c ∷ t) h = refl

-- Nonblank lines come back from their joined text.
filter-split_lines :
    (ls : List Text)
    → all nonblank ls ≡ true
    → all on_one_line ls ≡ true
    → filter nonempty (split_lines (join_lines ls)) ≡ ls
unfolding join_lines
filter-split_lines [] h1 h2 = unfold split_lines in refl
filter-split_lines (l ∷ []) h1 h2 = ground (arith, split_lines-line l, nonempty_of_nonblank l)
filter-split_lines (l ∷ m ∷ ls) h1 h2 = ground (
  arith,
  split_lines-append l (join_lines (m ∷ ls)),
  nonempty_of_nonblank l,
  filter-split_lines (m ∷ ls),
)

stop_of-value : (s : EmergencyStopState) → stop_of (stop_value s) ≡ some s
unfolding stop_of jqe.Text.text_eq
stop_of-value EmergencyStopState.clear = refl
stop_of-value EmergencyStopState.active = refl
stop_of-value EmergencyStopState.stop_unknown = refl

authority_of-value : (s : DailyStateAuthority) → authority_of (authority_value s) ≡ some s
unfolding authority_of jqe.Text.text_eq
authority_of-value DailyStateAuthority.authoritative = refl
authority_of-value DailyStateAuthority.not_authoritative = refl
authority_of-value DailyStateAuthority.authority_not_evaluated = refl
authority_of-value DailyStateAuthority.authority_unknown = refl

authorization_of-value :
    (s : ExecutionAuthorization) → authorization_of (authorization_value s) ≡ some s
unfolding authorization_of jqe.Text.text_eq
authorization_of-value ExecutionAuthorization.authorized = refl
authorization_of-value ExecutionAuthorization.blocked = refl
authorization_of-value ExecutionAuthorization.not_evaluated = refl
authorization_of-value ExecutionAuthorization.authorization_unknown = refl

mode_of-value : (s : ExecutionMode) → mode_of (mode_value s) ≡ some s
unfolding mode_of jqe.Text.text_eq
mode_of-value ExecutionMode.durable = refl

nonzero-bit : (b : Bool) → nonzero (bit b) ≡ b
nonzero-bit true = refl
nonzero-bit false = refl

aware-instant : (d : DateTime) → is_aware d ≡ true → aware (instant d) ≡ d
aware-instant (naive t) h = absurd (ground arith)
aware-instant (aware t) h = refl

map_optional-bit : (b : Option Bool) → map_optional nonzero (map_optional bit b) ≡ b
map_optional-bit none = refl
map_optional-bit (some b) = ap some (nonzero-bit b)

decode_safety_lem :
    (s : ExecutionSafetySnapshot)
    → is_aware s.observed_at ≡ true
    → all nonblank s.reason_codes ≡ true
    → all on_one_line s.reason_codes ≡ true
    → decode_safety (safety_row s) ≡ some s
unfolding decode_safety
decode_safety_lem s awareness codes lines = rw (
  stop_of-value s.emergency_stop_state,
  mode_of-value s.execution_mode,
  authority_of-value s.daily_state_authority,
  authorization_of-value s.execution_authorization,
  aware-instant s.observed_at awareness,
  nonzero-bit s.durable_executor_enabled,
  nonzero-bit s.unresolved_intent_blocked,
  filter-split_lines s.reason_codes codes lines,
)

valid_snapshot-parts :
    (s : ExecutionSafetySnapshot)
    → valid_snapshot s ≡ true
    → (is_aware s.observed_at ≡ true) × (all nonblank s.reason_codes ≡ true)
unfolding valid_snapshot
valid_snapshot-parts s h = (ground arith, ground arith)

-- A safety snapshot that meets the conditions of its constructor, and none of whose reason codes
-- contains a line feed, is read as it was published, whatever the store held before.
pub read-publish :
    {F : Type 0} (s : ExecutionSafetySnapshot) (store : SafetyStore F)
    → valid_snapshot s ≡ true
    → all on_one_line s.reason_codes ≡ true
    → read (publish s store) ≡ ok (some s)
unfolding read publish
read-publish s store valid lines =
    let (awareness, codes) = valid_snapshot-parts s valid in
    ground (arith, decode_safety_lem s awareness codes lines, valid)

authorized-of :
    (state : ExecutionAuthorization)
    → is_authorized state ≡ true
    → state ≡ ExecutionAuthorization.authorized
authorized-of ExecutionAuthorization.authorized h = refl
authorized-of ExecutionAuthorization.blocked h = absurd (ground arith)
authorized-of ExecutionAuthorization.not_evaluated h = absurd (ground arith)
authorized-of ExecutionAuthorization.authorization_unknown h = absurd (ground arith)

module _ {F : Type 0} ⦃o : Float F⦄ where
  risk_snapshot-row :
      (s : RiskAuthorizationSnapshot F)
      → is_aware s.observed_at ≡ true
      → risk_snapshot (risk_row s) s.evaluation_state ≡ s
  risk_snapshot-row s awareness = rw (
    aware-instant s.observed_at awareness,
    map_optional-bit s.risk_allowed,
    nonzero-bit s.execution_quantity_available,
  )

  valid_risk-aware :
      (s : RiskAuthorizationSnapshot F) → valid_risk s ≡ true → is_aware s.observed_at ≡ true
  unfolding valid_risk
  valid_risk-aware s h = ground arith

  -- A risk snapshot that meets the conditions of its constructor is read as it was published,
  -- whatever the store held before.
  pub read_risk-publish_risk :
      (s : RiskAuthorizationSnapshot F) (store : SafetyStore F)
      → valid_risk s ≡ true
      → read_risk (publish_risk s store) ≡ ok (some s)
  unfolding read_risk publish_risk
  read_risk-publish_risk s store valid = ground (
    arith,
    authorization_of-value s.evaluation_state,
    risk_snapshot-row s (valid_risk-aware s valid),
    valid,
  )

  read_risk-valid_risk :
      (s : RiskAuthorizationSnapshot F) (store : SafetyStore F)
      → read_risk store ≡ ok (some s)
      → valid_risk s ≡ true
  unfolding read_risk
  read_risk-valid_risk s store h = elim (Option-cases store.risk) [
    | inl empty ↦ absurd (ground arith)
    | inr (row, held) ↦ elim (Option-cases (authorization_of row.evaluation_state)) [
      | inl malformed ↦ absurd (ground arith)
      | inr (state, decoded) ↦ elim (Bool-cases (valid_risk (risk_snapshot row state))) [
        | inl h1 ↦ ground arith
        | inr h0 ↦ absurd (ground arith)
      ]
    ]
  ]

  valid_risk-exposed :
      (s : RiskAuthorizationSnapshot F)
      → valid_risk s ≡ true
      → (valid_quantity s ≡ true)
        × ((is_authorized s.evaluation_state
              || (not (is_some s.authorized_risk_amount)
                  && not (is_some s.authorized_risk_percent)
                  && not s.execution_quantity_available))
            ≡ true)
        × ((not (is_authoritative s.evaluation_state) || is_some s.account_id) ≡ true)
        × (finite_or_none s.execution_quantity_value ≡ true)
  unfolding valid_risk
  valid_risk-exposed s h = (ground arith, ground arith, ground arith, ground arith)

  -- Whatever the table holds, a risk snapshot that is read and says that a quantity is available is
  -- an authorized one of a named account, with a finite quantity above zero and a unit.
  pub read_risk_exposed :
      (s : RiskAuthorizationSnapshot F) (store : SafetyStore F)
      → read_risk store ≡ ok (some s)
      → s.execution_quantity_available ≡ true
      → (s.evaluation_state ≡ ExecutionAuthorization.authorized)
        × (is_some s.account_id ≡ true)
        × ((quantity : F) × (s.execution_quantity_value ≡ some quantity)
            × (o.is_finite quantity ≡ true)
            × (o.le (float quantity) zero_float ≡ false))
        × (has_text s.execution_quantity_unit ≡ true)
  unfolding valid_quantity
  read_risk_exposed s store h available =
      let (sized, gated, named, bounded) = valid_risk-exposed s (read_risk-valid_risk s store h) in
      let state = authorized-of s.evaluation_state (ground (arith, gated, available)) in
      elim (Option-cases s.execution_quantity_value) [
        | inl missing ↦ absurd (ground (arith, sized, available))
        | inr (quantity, given) ↦ (
          state,
          ground (arith, named, state),
          (quantity, given, ground (arith, bounded, given), ground (arith, sized, given)),
          ground (arith, sized, available),
        )
      ]
