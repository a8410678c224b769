-- ===== src/Store/Lease.antt =====
-- A reservation of `SQLiteIntentRecordStore` that is held, and the calls that meet it.
use jqe.Prelude.{
  ℕ, ◌+◌, ◌<◌, ◌≡◌, ◌≢◌, refl, true, false, ◌&&◌, ℤ, pos, leb_ℤ, some, List, [], ◌∷◌, arith,
  if◌then◌else◌,
}
use jqe.Text.{Text, text_eq, nonblank}
use jqe.Text.Laws.{text_eq_iff, text_eq_refl}
use jqe.Number.{Float}
use jqe.Intent.{IntentRecord, acquired, held, conflict}
use jqe.Store.{
  Store, ReservationRow, ExecutionReservation, DateTime, naive, aware, ok, find_reservation,
  upsert_reservation, delete_reservation, decode_reservation, acquire_reservation, acquire_at,
  take_reservation, microseconds, try_claim_under_reservation, claim_at,
}

pub find_reservation-upsert :
    (scope : Text) (row : ReservationRow) (rs : List ReservationRow)
    → find_reservation scope (upsert_reservation row rs)
      ≡ (if text_eq row.scope scope then some row else find_reservation scope rs)
unfolding find_reservation upsert_reservation
find_reservation-upsert scope row [] = refl
find_reservation-upsert scope row (r ∷ rs) = ground (
  arith,
  text_eq_iff r.scope row.scope,
  text_eq_iff row.scope scope,
  text_eq_iff r.scope scope,
  find_reservation-upsert scope row rs,
)

-- The row of another owner, or of another scope, survives the DELETE.
pub find_reservation-delete :
    (scope sc ow : Text) (row : ReservationRow) (rs : List ReservationRow)
    → find_reservation scope rs ≡ some row
    → (text_eq row.scope sc && text_eq row.owner_id ow) ≡ false
    → find_reservation scope (delete_reservation sc ow rs) ≡ some row
unfolding find_reservation delete_reservation
find_reservation-delete scope sc ow row [] h k = cc
find_reservation-delete scope sc ow row (r ∷ rs) h k =
    ground (arith, find_reservation-delete scope sc ow row rs)

pub find_reservation-scope :
    (scope : Text) (rs : List ReservationRow) (row : ReservationRow)
    → find_reservation scope rs ≡ some row
    → row.scope ≡ scope
unfolding find_reservation
find_reservation-scope scope [] row h = cc
find_reservation-scope scope (r ∷ rs) row h =
    ground (arith, find_reservation-scope scope rs row, text_eq_iff r.scope scope)

-- The row that an acquisition writes.
abbrev pub lease_row : Text → Text → ℕ → ℕ → ReservationRow
lease_row scope owner_id now e = record {
  scope = scope;
  owner_id = owner_id;
  acquired_at = some (aware now);
  expires_at = some (aware e);
}

-- An aware clock that has not reached `e`.
abbrev pub Early : ℕ → DateTime → Type 0
Early e (naive t) = Unit
Early e (aware t) = t < e

module _ {F : Type 0} where
  -- The scope is reserved for the owner up to the instant `e`.
  pub record IsLeased (scope owner_id : Text) (e : ℕ) (s : Store F) : Type 0 where
    pub row : ReservationRow
    pub found : find_reservation scope s.reservations ≡ some row
    pub owner : row.owner_id ≡ owner_id
    pub reservation : ExecutionReservation
    pub decoded : decode_reservation row ≡ some reservation
    pub expires : reservation.expires_at ≡ e

  -- What has been tested when an acquisition reports success, and what it has written.
  pub acquire_done :
      (scope owner_id : Text) (lease : ℤ) (key : Text) (now : ℕ) (s : Store F)
      → (acquire_reservation scope owner_id lease key (aware now) s).0 ≡ ok acquired
      → (nonblank scope ≡ true)
        × (nonblank owner_id ≡ true)
        × (leb_ℤ (pos 1) lease ≡ true)
        × ((acquire_reservation scope owner_id lease key (aware now) s).1 ≡ record s {
          reservations =
              upsert_reservation
                (lease_row scope owner_id now (now + microseconds lease))
                s.reservations;
        })
  unfolding acquire_reservation acquire_at take_reservation
  acquire_done scope owner_id lease key now s h = ground arith

  -- An acquisition that reports success reserves the scope for its lease.
  pub acquire-IsLeased :
      (scope owner_id : Text) (lease : ℤ) (key : Text) (now : ℕ) (s : Store F)
      → (acquire_reservation scope owner_id lease key (aware now) s).0 ≡ ok acquired
      → IsLeased scope owner_id
          (now + microseconds lease)
          (acquire_reservation scope owner_id lease key (aware now) s).1
  acquire-IsLeased scope owner_id lease key now s h =
      let (named, owned, positive, written) = acquire_done scope owner_id lease key now s h in
      let e : ℕ = now + microseconds lease in
      let row : ReservationRow = lease_row scope owner_id now e in
      record {
        row = row;
        found =
            rw written (
              ground (arith, find_reservation-upsert scope row s.reservations, text_eq_refl scope));
        owner = refl;
        reservation = record {
          scope = scope;
          owner_id = owner_id;
          acquired_at = now;
          expires_at = e;
        };
        decoded = unfold decode_reservation in ground arith;
        expires = refl;
      }

  -- Before it expires, another acquisition of the scope is told that it is held, and changes
  -- nothing. Its arguments are valid.
  pub acquire_held :
      (scope owner_id other key : Text) (lease : ℤ) (e now : ℕ) (s : Store F)
      → IsLeased scope owner_id e s
      → (nonblank scope && nonblank other && nonblank key) ≡ true
      → leb_ℤ (pos 1) lease ≡ true
      → now < e
      → acquire_reservation scope other lease key (aware now) s ≡ (ok held, s)
  unfolding acquire_reservation acquire_at
  acquire_held scope owner_id other key lease e now s l named positive early = ground arith

module _ {F : Type 0} ⦃o : Float F⦄ where
  -- Nor can another owner claim an intent under it.
  pub claim_excluded :
      (scope owner_id other : Text) (r : IntentRecord F) (e now : ℕ) (s : Store F)
      → IsLeased scope owner_id e s
      → owner_id ≢ other
      → (nonblank r.idempotency_key && nonblank scope && nonblank other) ≡ true
      → try_claim_under_reservation r scope other (aware now) s ≡ (ok conflict, s)
  unfolding try_claim_under_reservation claim_at decode_reservation
  claim_excluded scope owner_id other r e now s l ne named =
      ground (arith, text_eq_iff owner_id other, find_reservation-scope scope s.reservations l.row)
