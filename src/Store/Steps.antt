-- ===== src/Store/Steps.antt =====
-- The methods of `SQLiteIntentRecordStore` that write, as steps that any processes take in any
-- order on one database file, and the order of the statuses.
use jqe.Prelude.{ℕ, ◌≡◌, Bool, true, false, ℤ, Option, none, some, arith, is_some}
use jqe.Text.{Text}
use jqe.Number.{Float}
use jqe.Intent.{IntentRecord, IntentRecordStatus, pending, accepted, rejected, unknown}
use jqe.Store.{
  Store, Row, DateTime, status_of, find_row, acquire_reservation, release_reservation,
  try_claim_under_reservation, try_claim, transition, allowed_transition,
  record_recovery_diagnostic, record_post_fill_integrity_halt,
}

module _ {F : Type 0} where
  -- The readable status of the row of a key.
  abbrev status_in : Option (Row F) → Option IntentRecordStatus
  status_in none = none
  status_in (some row) = status_of row.state

  abbrev pub row_status : Text → Store F → Option IntentRecordStatus
  row_status key s = status_in (find_row key s.intents)

-- PENDING, then UNKNOWN, then for good ACCEPTED or REJECTED.
abbrev pub advances : Option IntentRecordStatus → Option IntentRecordStatus → Bool
advances none b = true
advances (some pending) (some b) = true
advances (some unknown) (some unknown) = true
advances (some unknown) (some accepted) = true
advances (some unknown) (some rejected) = true
advances (some accepted) (some accepted) = true
advances (some rejected) (some rejected) = true
advances _ _ = false

pub advances_refl : (a : Option IntentRecordStatus) → advances a a ≡ true
advances_refl a = ground arith

pub advances_trans :
    (a b c : Option IntentRecordStatus)
    → advances a b ≡ true
    → advances b c ≡ true
    → advances a c ≡ true
advances_trans a b c h k = ground arith

pub advances_of_allowed :
    (a b : IntentRecordStatus) → allowed_transition a b ≡ true → advances (some a) (some b) ≡ true
unfolding allowed_transition
advances_of_allowed a b h = ground arith

module _ {F : Type 0} ⦃o : Float F⦄ where
  -- One call of a method that writes.
  pub data Step (s : Store F) : Store F → Type 0 where
    acquire :
        (scope owner_id : Text) (lease : ℤ) (key : Text) (clock : DateTime)
        → Step s (acquire_reservation scope owner_id lease key clock s).1
    release : (scope owner_id : Text) → Step s (release_reservation scope owner_id s).1
    claim_reserved :
        (r : IntentRecord F) (scope owner_id : Text) (clock : DateTime)
        → Step s (try_claim_under_reservation r scope owner_id clock s).1
    claim : (r : IntentRecord F) (now : ℕ) → Step s (try_claim r now s).1
    resolve : (r : IntentRecord F) (now : ℕ) → Step s (transition r now s).1
    diagnose :
        (key outcome : Text) (state : Option Text) (reason : Text)
        → Step s (record_recovery_diagnostic key outcome state reason s).1
    stop : (reason : Text) → Step s (record_post_fill_integrity_halt reason s).1

  pub data Steps (s : Store F) : Store F → Type 0 where
    done : Steps s s
    next : {t u : Store F} → Steps s t → Step t u → Steps s u

  -- What a step may do to the row of one key.
  pub record Keeps (key : Text) (s t : Store F) : Type 0 where
    pub status : advances (row_status key s) (row_status key t) ≡ true
    pub present : is_some (find_row key s.intents) ≡ true → is_some (find_row key t.intents) ≡ true

  pub Keeps-refl : (key : Text) (s : Store F) → Keeps key s s
  Keeps-refl key s = record { status = advances_refl (row_status key s); present = λ h. h }

  pub Keeps-trans : (key : Text) (s t u : Store F) → Keeps key s t → Keeps key t u → Keeps key s u
  Keeps-trans key s t u h k = record {
    status =
        advances_trans (row_status key s) (row_status key t) (row_status key u) h.status k.status;
    present = λ p. k.present (h.present p);
  }

  -- A method that leaves the table of intents alone.
  pub Keeps-same : (key : Text) (s t : Store F) → t.intents ≡ s.intents → Keeps key s t
  Keeps-same key s t same = record {
    status = rw same (advances_refl (row_status key s));
    present = λ h. rw same h;
  }
