-- ===== src/Store/Exclusion.antt =====
-- Reservations of `SQLiteIntentRecordStore` along the steps of other owners.
use jqe.Prelude.{ℕ, ◌+◌, ◌<◌, ◌≡◌, ◌≢◌, true, false, ◌&&◌, ℤ, pos, leb_ℤ, some, arith, inl, inr, ap}
use jqe.Text.{Text, text_eq, nonblank}
use jqe.Text.Laws.{text_eq_iff}
use jqe.Number.{Float}
use jqe.Intent.{IntentRecord, acquired, held, conflict}
use jqe.Store.{
  Store, DateTime, naive, aware, ok, find_reservation, acquire_reservation, acquire_at,
  take_reservation, release_reservation, microseconds, try_claim_under_reservation, insert_claim,
  try_claim, transition, record_recovery_diagnostic, record_post_fill_integrity_halt,
}
use jqe.Store.Steps.{Step}
use jqe.Store.Forward.{claim_cases}
use jqe.Store.Lease.{
  find_reservation-upsert, find_reservation-delete, find_reservation-scope, lease_row, Early,
  IsLeased, acquire-IsLeased, acquire_held, claim_excluded,
}

module _ {F : Type 0} where
  -- A change that leaves the reservations alone keeps the lease.
  IsLeased-same :
      (scope owner_id : Text) (e : ℕ) (s t : Store F)
      → t.reservations ≡ s.reservations
      → IsLeased scope owner_id e s
      → IsLeased scope owner_id e t
  IsLeased-same scope owner_id e s t same l = record {
    row = l.row;
    found = rw same l.found;
    owner = l.owner;
    reservation = l.reservation;
    decoded = l.decoded;
    expires = l.expires;
  }

  release-IsLeased :
      (scope owner_id sc ow : Text) (e : ℕ) (s : Store F)
      → (text_eq scope sc && text_eq owner_id ow) ≡ false
      → IsLeased scope owner_id e s
      → IsLeased scope owner_id e (release_reservation sc ow s).1
  unfolding release_reservation
  release-IsLeased scope owner_id sc ow e s other l = record {
    row = l.row;
    found = ground (
      arith,
      find_reservation-delete scope sc ow l.row s.reservations,
      find_reservation-scope scope s.reservations l.row,
    );
    owner = l.owner;
    reservation = l.reservation;
    decoded = l.decoded;
    expires = l.expires;
  }

  acquire_others-found :
      (scope owner_id sc ow key : Text) (lease : ℤ) (clock : DateTime) (e : ℕ) (s : Store F)
      (l : IsLeased scope owner_id e s)
      → Early e clock
      → find_reservation scope (acquire_reservation sc ow lease key clock s).1.reservations
        ≡ some l.row
  unfolding acquire_reservation acquire_at take_reservation
  acquire_others-found scope owner_id sc ow key lease (naive t) e s l early = ground arith
  acquire_others-found scope owner_id sc ow key lease (aware now) e s l early = ground (
    arith,
    find_reservation-upsert scope (lease_row sc ow now (now + microseconds lease)) s.reservations,
    text_eq_iff sc scope,
  )

  -- Before the lease expires, an acquisition leaves it as it is: of its scope it finds it held, and
  -- of another scope it writes another row.
  acquire_others-IsLeased :
      (scope owner_id sc ow key : Text) (lease : ℤ) (clock : DateTime) (e : ℕ) (s : Store F)
      → Early e clock
      → IsLeased scope owner_id e s
      → IsLeased scope owner_id e (acquire_reservation sc ow lease key clock s).1
  acquire_others-IsLeased scope owner_id sc ow key lease clock e s early l = record {
    row = l.row;
    found = acquire_others-found scope owner_id sc ow key lease clock e s l early;
    owner = l.owner;
    reservation = l.reservation;
    decoded = l.decoded;
    expires = l.expires;
  }

module _ {F : Type 0} ⦃o : Float F⦄ where
  reservations-try_claim :
      (r : IntentRecord F) (now : ℕ) (s : Store F)
      → (try_claim r now s).1.reservations ≡ s.reservations
  unfolding try_claim insert_claim
  reservations-try_claim r now s = ground arith

module _ {F : Type 0} ⦃o : Float F⦄ where
  reservations-claim_reserved :
      (r : IntentRecord F) (sc ow : Text) (clock : DateTime) (s : Store F)
      → (try_claim_under_reservation r sc ow clock s).1.reservations ≡ s.reservations
  unfolding insert_claim
  reservations-claim_reserved r sc ow clock s = elim (claim_cases r sc ow clock s) [
    | inl same ↦ ap (λ (t : Store F). t.reservations) same
    | inr (now, inserted) ↦ rw inserted (ground arith)
  ]

  reservations-transition :
      (r : IntentRecord F) (now : ℕ) (s : Store F)
      → (transition r now s).1.reservations ≡ s.reservations
  unfolding transition
  reservations-transition r now s = ground arith

  -- A step that is taken before `e`, and is not the owner's release.
  abbrev pub Foreign : {s t : Store F} (scope owner_id : Text) (e : ℕ) → Step s t → Type 0
  Foreign scope owner_id e (Step.acquire sc ow lease key clock) = Early e clock
  Foreign scope owner_id e (Step.release sc ow) = (text_eq scope sc && text_eq owner_id ow) ≡ false
  Foreign scope owner_id e _ = Unit

  pub data ForeignSteps (scope owner_id : Text) (e : ℕ) (s : Store F) : Store F → Type 0 where
    done : ForeignSteps scope owner_id e s s
    next :
        {t u : Store F} (path : ForeignSteps scope owner_id e s t) (step : Step t u)
        → Foreign scope owner_id e step
        → ForeignSteps scope owner_id e s u

  Step-IsLeased :
      (scope owner_id : Text) (e : ℕ) {s t : Store F} (step : Step s t)
      → Foreign scope owner_id e step
      → IsLeased scope owner_id e s
      → IsLeased scope owner_id e t
  Step-IsLeased scope owner_id e {s} (Step.acquire sc ow lease key clock) early l =
      acquire_others-IsLeased scope owner_id sc ow key lease clock e s early l
  Step-IsLeased scope owner_id e {s} (Step.release sc ow) other l =
      release-IsLeased scope owner_id sc ow e s other l
  Step-IsLeased scope owner_id e {s} (Step.claim_reserved r sc ow clock) _ l =
      IsLeased-same scope owner_id e s _ (reservations-claim_reserved r sc ow clock s) l
  Step-IsLeased scope owner_id e {s} (Step.claim r now) _ l =
      IsLeased-same scope owner_id e s _ (reservations-try_claim r now s) l
  Step-IsLeased scope owner_id e {s} (Step.resolve r now) _ l =
      IsLeased-same scope owner_id e s _ (reservations-transition r now s) l
  Step-IsLeased scope owner_id e {s} (Step.diagnose k outcome state reason) _ l =
      IsLeased-same scope owner_id e s _ (unfold record_recovery_diagnostic in ground arith) l
  Step-IsLeased scope owner_id e {s} (Step.stop reason) _ l =
      IsLeased-same scope owner_id e s _ (unfold record_post_fill_integrity_halt in ground arith) l

  ForeignSteps-IsLeased :
      (scope owner_id : Text) (e : ℕ) {s t : Store F}
      → ForeignSteps scope owner_id e s t
      → IsLeased scope owner_id e s
      → IsLeased scope owner_id e t
  ForeignSteps-IsLeased scope owner_id e ForeignSteps.done l = l
  ForeignSteps-IsLeased scope owner_id e (ForeignSteps.next path step foreign) l =
      Step-IsLeased scope owner_id e step foreign (ForeignSteps-IsLeased scope owner_id e path l)

  -- Mutual exclusion. Once an owner has acquired a scope, then after any steps of any processes
  -- before the lease expires, its own release excepted, every other acquisition of the scope is
  -- told that it is held and every claim by another owner is a conflict, and neither changes the
  -- store. The identities of the other process are nonblank and its lease is positive.
  pub reservation_exclusive :
      (scope owner_id other key : Text) (lease its : ℤ) (started now : ℕ) (r : IntentRecord F)
      (s t : Store F)
      → (acquire_reservation scope owner_id lease key (aware started) s).0 ≡ ok acquired
      → ForeignSteps scope owner_id
          (started + microseconds lease)
          (acquire_reservation scope owner_id lease key (aware started) s).1
          t
      → now < started + microseconds lease
      → owner_id ≢ other
      → (nonblank scope && nonblank other && nonblank r.idempotency_key) ≡ true
      → leb_ℤ (pos 1) its ≡ true
      → (acquire_reservation scope other its r.idempotency_key (aware now) t ≡ (ok held, t))
        × (try_claim_under_reservation r scope other (aware now) t ≡ (ok conflict, t))
  reservation_exclusive scope owner_id other key lease its started now r s t obtained path early ne
        named positive =
      let e : ℕ = started + microseconds lease in
      let l : IsLeased scope owner_id e t =
        ForeignSteps-IsLeased scope owner_id e path
          (acquire-IsLeased scope owner_id lease key started s obtained) in
      (
        acquire_held scope owner_id other r.idempotency_key its e now t l named positive early,
        claim_excluded scope owner_id other r e now t l ne (ground arith),
      )
