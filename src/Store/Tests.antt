-- ===== src/Store/Tests.antt =====
-- The store on concrete rows.
use jqe.Prelude.{
  not, ◌||◌, ◌⊎◌, is_some, ◌≡◌, ◌≢◌, refl, true, false, some, arith, pos, ◌&&◌, ◌<◌, ◌+◌,
}
use jqe.Text.{text, nonblank, text_eq}
use jqe.Number.Fixed.{Fixed, fixed_float}
use jqe.Intent.{IntentRecord, accepted, acquired, held, conflict, claimed}
use jqe.Store.{
  find_row, Store, ok, DateTime, naive, aware, get, try_claim, transition, acquire_reservation,
  try_claim_under_reservation, decode, claim_row, microseconds, find_reservation,
}
use jqe.Store.Lookup.{stored}
use jqe.Store.Reads.{transition-Admits, Admits, IsBarred, get-try_claim, resolved}
use jqe.Store.Steps.{Steps, Step, row_status, advances}
use jqe.Store.Forward.{Steps-advances}
use jqe.Store.Exclusion.{reservation_exclusive, ForeignSteps}
use jqe.Samples.{pending_record, empty_store, pending_store}

abbrev accepted_record : IntentRecord Fixed
accepted_record = record pending_record { status = accepted; order_id = some (text "o1") }

key_named : nonblank (text "k1") ≡ true
unfolding nonblank
key_named = refl

pending_read : (get (text "k1") pending_store).0 ≡ ok (some pending_record)
unfolding get nonblank jqe.Store.find_row text_eq claim_row decode jqe.Store.decode_quantity
    jqe.Store.decode_side jqe.Store.status_of
pending_read = refl

transition-Admits_example :
    ((current : IntentRecord Fixed) × (some pending_record ≡ some current)
      × Admits current.status accepted
      × ((transition (record pending_record { status = accepted }) 6 pending_store).0 ≡ ok true)
      × ((get
            (text "k1")
            (transition (record pending_record { status = accepted }) 6 pending_store).1).0
          ≡ ok (some (resolved current (record pending_record { status = accepted })))))
    ⊎ (IsBarred (some pending_record) accepted
        × (transition (record pending_record { status = accepted }) 6 pending_store
            ≡ (ok false, pending_store)))
transition-Admits_example =
    transition-Admits (record pending_record { status = accepted }) (some pending_record) 6
      pending_store key_named pending_read

claim_done : (try_claim pending_record 5 empty_store).0 ≡ ok claimed
unfolding try_claim nonblank jqe.Store.insert_claim jqe.Store.find_row
claim_done = refl

get-try_claim_example :
    (get (text "k1") (try_claim pending_record 5 empty_store).1).0
    ≡ ok (some (stored pending_record))
get-try_claim_example = get-try_claim pending_record 5 empty_store refl claim_done

abbrev claimed_store : Store Fixed
claimed_store = (try_claim pending_record 5 empty_store).1

Steps-advances_example :
    (advances
        (row_status (text "k1") claimed_store)
        (row_status (text "k1") (transition accepted_record 6 claimed_store).1)
      ≡ true)
    × ((not (is_some (find_row (text "k1") claimed_store.intents))
          || is_some (find_row (text "k1") (transition accepted_record 6 claimed_store).1.intents))
        ≡ true)
Steps-advances_example =
    Steps-advances (text "k1") (Steps.next Steps.done (Step.resolve accepted_record 6))

-- The store once `a` has acquired the scope at the instant 1000 for 30 seconds.
abbrev reserved_store : Store Fixed
reserved_store =
    (acquire_reservation (text "s") (text "a") (pos 30) (text "k0") (aware 1000) empty_store).1

obtained :
    (acquire_reservation (text "s") (text "a") (pos 30) (text "k0") (aware 1000) empty_store).0
    ≡ ok acquired
unfolding acquire_reservation nonblank jqe.Store.acquire_at find_reservation
    jqe.Store.take_reservation jqe.Store.states jqe.Store.other_unresolved
obtained = refl

owners_differ : text "a" ≢ text "b"
owners_differ h = ground arith

b_named : (nonblank (text "s") && nonblank (text "b") && nonblank (text "k1")) ≡ true
unfolding nonblank
b_named = refl

early : 2000 < 1000 + microseconds (pos 30)
early = omega arith

reservation_exclusive_example :
    (acquire_reservation
        (text "s")
        (text "b")
        (pos 60)
        (text "k1")
        (aware 2000)
        (try_claim pending_record 5 reserved_store).1
      ≡ (ok held, (try_claim pending_record 5 reserved_store).1))
    × (try_claim_under_reservation pending_record
          (text "s")
          (text "b")
          (aware 2000)
          (try_claim pending_record 5 reserved_store).1
        ≡ (ok conflict, (try_claim pending_record 5 reserved_store).1))
reservation_exclusive_example =
    reservation_exclusive (text "s") (text "a") (text "b") (text "k0") (pos 30) (pos 60) 1000 2000
      pending_record empty_store (try_claim pending_record 5 reserved_store).1 obtained
      (ForeignSteps.next ForeignSteps.done (Step.claim pending_record 5) tt) early owners_differ
      b_named refl
