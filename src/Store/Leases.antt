-- ===== src/Store/Leases.antt =====
-- execution/persistence.py: reservations, and the claims of an intent.
use jqe.Prelude.{
  ℕ, ◌+◌, Bool, not, ◌&&◌, ◌||◌, ℤ, pos, leb_ℤ, Option, none, some, [], ◌∷◌, ◌++◌, leb, ltb, ◌==◌,
  is_some, if◌then◌else◌,
}
use jqe.Text.{Text, text_eq, nonblank, nonempty}
use jqe.Number.{Float}
use jqe.Intent.{
  IntentRecord, ClaimState, claimed, already_exists, conflict, ReservationState, acquired, held,
  unresolved_intent,
}
use jqe.Store.Rows.{
  Result, ok, raised, value_error, DateTime, naive, aware, decode_reservation, claim_row,
}
use jqe.Store.Tables.{
  find_row, states, other_unresolved, find_reservation, upsert_reservation, delete_reservation,
  count_owned,
}
use jqe.Store.State.{Store, microseconds}

-- `record.account_id or scope`
abbrev pub account_or : Option Text → Text → Text
account_or none scope = scope
account_or (some a) scope = if nonempty a then a else scope

module _ {F : Type 0} where
  -- The part of `acquire_reservation` behind the test of the current holder.
  unfoldable pub take_reservation :
      Text → Text → ℕ → ℕ → Text → Store F → Result ReservationState × Store F
  take_reservation scope owner_id now expires_at intent_key s = elim (states s.intents) [
    | none ↦ (raised value_error, s)
    | some known ↦ if other_unresolved intent_key known then (ok unresolved_intent, s) else (
      ok acquired,
      record s {
        reservations =
            upsert_reservation
              (record {
                scope = scope;
                owner_id = owner_id;
                acquired_at = some (aware now);
                expires_at = some (aware expires_at);
              })
              s.reservations;
      },
    )
  ]

  -- The transaction of `acquire_reservation`, at the instant `now`.
  unfoldable pub acquire_at :
      Text → Text → ℤ → Text → ℕ → Store F → Result ReservationState × Store F
  acquire_at scope owner_id lease_seconds intent_key now s =
      let taken =
        take_reservation scope owner_id now (now + microseconds lease_seconds) intent_key s in
      elim (find_reservation scope s.reservations) [
        | none ↦ taken
        | some row ↦ elim (decode_reservation row) [
          | none ↦ (raised value_error, s)
          | some current ↦ if ltb now current.expires_at then (ok held, s) else taken
        ]
      ]

  -- `acquire_reservation`
  unfoldable pub acquire_reservation :
      Text → Text → ℤ → Text → DateTime → Store F → Result ReservationState × Store F
  acquire_reservation scope owner_id lease_seconds intent_key clock s =
      if not (nonblank scope && nonblank owner_id && nonblank intent_key)
      then (raised value_error, s)
      else if not (leb_ℤ (pos 1) lease_seconds)
      then (raised value_error, s)
      else elim clock [
        | naive t ↦ (raised value_error, s)
        | aware now ↦ acquire_at scope owner_id lease_seconds intent_key now s
      ]

  -- `release_reservation`
  unfoldable pub release_reservation : Text → Text → Store F → Result Bool × Store F
  release_reservation scope owner_id s =
      if not (nonblank scope && nonblank owner_id) then (raised value_error, s) else (
        ok (count_owned scope owner_id s.reservations == 1),
        record s { reservations = delete_reservation scope owner_id s.reservations },
      )

module _ {F : Type 0} ⦃o : Float F⦄ where
  -- The INSERT of a claim: the primary key refuses a second row of one key.
  unfoldable pub insert_claim :
      IntentRecord F → Option Text → ℕ → Store F → Result ClaimState × Store F
  insert_claim r account_id now s =
      if is_some (find_row r.idempotency_key s.intents)
      then (ok already_exists, s)
      else (ok claimed, record s { intents = s.intents ++ claim_row r account_id now ∷ [] })

  -- The transaction of `try_claim_under_reservation`, at the instant `now`.
  unfoldable pub claim_at : IntentRecord F → Text → Text → ℕ → Store F → Result ClaimState × Store F
  claim_at r scope owner_id now s = elim (find_reservation scope s.reservations) [
    | none ↦ (ok conflict, s)
    | some row ↦ elim (decode_reservation row) [
      | none ↦ (raised value_error, s)
      | some reservation ↦
          if not (text_eq reservation.owner_id owner_id) || leb reservation.expires_at now
          then (ok conflict, s)
          else insert_claim r (some (account_or r.account_id scope)) now s
    ]
  ]

  -- `try_claim_under_reservation`
  unfoldable pub try_claim_under_reservation :
      IntentRecord F → Text → Text → DateTime → Store F → Result ClaimState × Store F
  try_claim_under_reservation r scope owner_id clock s =
      if not (nonblank r.idempotency_key && nonblank scope && nonblank owner_id)
      then (raised value_error, s)
      else elim clock [
        | naive t ↦ (raised value_error, s)
        | aware now ↦ claim_at r scope owner_id now s
      ]

  -- `try_claim`
  unfoldable pub try_claim : IntentRecord F → ℕ → Store F → Result ClaimState × Store F
  try_claim r now s =
      if not (nonblank r.idempotency_key)
      then (raised value_error, s)
      else insert_claim r r.account_id now s
