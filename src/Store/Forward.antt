-- ===== src/Store/Forward.antt =====
-- Rows and statuses of `SQLiteIntentRecordStore` along the steps of any processes.
use jqe.Prelude.{
  is_some, ℕ, ◌≡◌, refl, true, ℤ, Option, some, arith, ap, ◌⊎◌, ◌||◌, not, leb, ◌&&◌, Bool-cases,
  Option-cases, inl, inr,
}
use jqe.Text.{Text, text_eq, nonblank}
use jqe.Text.Laws.{text_eq_iff}
use jqe.Number.{Float}
use jqe.Intent.{IntentRecord}
use jqe.Store.{
  Store, Row, find_reservation, decode_reservation, account_or, DateTime, status_of, find_row,
  update_row, decode, acquire_reservation, acquire_at, take_reservation, release_reservation,
  try_claim_under_reservation, claim_at, try_claim, insert_claim, claim_row, transition,
  allowed_transition, resolve_row, record_recovery_diagnostic, record_post_fill_integrity_halt,
}
use jqe.Store.Lookup.{find_row-append, find_row-update_row, status_of-status_value}
use jqe.Store.Steps.{
  Step, Steps, done, next, acquire, release, claim_reserved, claim, resolve, diagnose, stop, Keeps,
  Keeps-refl, Keeps-trans, Keeps-same, row_status, advances, advances_refl, advances_of_allowed,
}

module _ {F : Type 0} ⦃o : Float F⦄ where
  intents-acquire :
      (scope owner_id : Text) (lease : ℤ) (key : Text) (clock : DateTime) (s : Store F)
      → (acquire_reservation scope owner_id lease key clock s).1.intents ≡ s.intents
  unfolding acquire_reservation acquire_at take_reservation
  intents-acquire scope owner_id lease key clock s = ground arith

  insert_claim-Keeps :
      (key : Text) (r : IntentRecord F) (account : Option Text) (now : ℕ) (s : Store F)
      → Keeps key s (insert_claim r account now s).1
  unfolding insert_claim
  insert_claim-Keeps key r account now s = record {
    status = ground (
      arith,
      find_row-append key s.intents (claim_row r account now),
      advances_refl (row_status key s),
    );
    present = λ h. ground (arith, find_row-append key s.intents (claim_row r account now));
  }

  decode-status :
      (row : Row F) (r : IntentRecord F) → decode row ≡ some r → status_of row.state ≡ some r.status
  unfolding decode
  decode-status row r h = ground arith

  -- A transition leaves the intents alone, or updates a row whose status admits the new one.
  pub transition_cases :
      (r : IntentRecord F) (now : ℕ) (s : Store F)
      → ((transition r now s).1 ≡ s)
        ⊎ ((row : Row F) × (find_row r.idempotency_key s.intents ≡ some row)
            × (advances (status_of row.state) (some r.status) ≡ true)
            × ((transition r now s).1.intents
                ≡ update_row r.idempotency_key (resolve_row r now) s.intents))
  unfolding transition
  transition_cases r now s = elim (Option-cases (find_row r.idempotency_key s.intents)) [
    | inl absent ↦ inl (ground arith)
    | inr (row, found) ↦ elim (Option-cases (decode row)) [
      | inl unreadable ↦ inl (ground arith)
      | inr (current, decoded) ↦
          elim (Bool-cases
            (nonblank r.idempotency_key && allowed_transition current.status r.status)) [
              | inl fits ↦ inr (
                row,
                found,
                ground (
                  arith,
                  decode-status row current decoded,
                  advances_of_allowed current.status r.status,
                ),
                ground arith,
              )
              | inr refused ↦ inl (ground arith)
            ]
    ]
  ]

  transition-Keeps :
      (key : Text) (r : IntentRecord F) (now : ℕ) (s : Store F) → Keeps key s (transition r now s).1
  transition-Keeps key r now s = elim (transition_cases r now s) [
    | inl same ↦ Keeps-same key s (transition r now s).1 (ap (λ (t : Store F). t.intents) same)
    | inr (row, found, forward, updated) ↦ record {
      status = rw updated (
          ground (
            arith,
            find_row-update_row key r.idempotency_key (resolve_row r now) s.intents (λ x. refl),
            advances_refl (row_status key s),
            status_of-status_value r.status,
            text_eq_iff r.idempotency_key key,
          ));
      present = λ h. rw updated (
          ground (
            arith,
            find_row-update_row key r.idempotency_key (resolve_row r now) s.intents (λ x. refl),
          ));
    }
  ]

  record_recovery_diagnostic-Keeps :
      (key k outcome : Text) (state : Option Text) (reason : Text) (s : Store F)
      → Keeps key s (record_recovery_diagnostic k outcome state reason s).1
  unfolding record_recovery_diagnostic
  record_recovery_diagnostic-Keeps key k outcome state reason s =
      let diagnosed = λ (r : Row F). record r {
        recovery_outcome = some outcome;
        reconciliation_state = state;
        recovery_reason = some reason;
      } in
      let found = find_row-update_row key k diagnosed s.intents (λ x. refl) in
      record {
        status = ground (arith, found, advances_refl (row_status key s));
        present = λ h. ground (arith, found);
      }

  try_claim-Keeps :
      (key : Text) (r : IntentRecord F) (now : ℕ) (s : Store F) → Keeps key s (try_claim r now s).1
  unfolding try_claim
  try_claim-Keeps key r now s = elim (Bool-cases (nonblank r.idempotency_key)) [
    | inl named ↦ rw named (insert_claim-Keeps key r r.account_id now s)
    | inr blank ↦ rw blank (Keeps-refl key s)
  ]

  -- A claim under a reservation leaves the store alone, or is the INSERT.
  pub claim_cases :
      (r : IntentRecord F) (scope owner_id : Text) (clock : DateTime) (s : Store F)
      → ((try_claim_under_reservation r scope owner_id clock s).1 ≡ s)
        ⊎ ((now : ℕ) × (try_claim_under_reservation r scope owner_id clock s
              ≡ insert_claim r (some (account_or r.account_id scope)) now s))
  unfolding try_claim_under_reservation claim_at
  claim_cases r scope owner_id (DateTime.naive t) s = inl (ground arith)
  claim_cases r scope owner_id (DateTime.aware now) s =
      elim (Bool-cases (nonblank r.idempotency_key && nonblank scope && nonblank owner_id)) [
        | inr blank ↦ inl (ground arith)
        | inl named ↦ elim (Option-cases (find_reservation scope s.reservations)) [
          | inl free ↦ inl (ground arith)
          | inr (row, found) ↦ elim (Option-cases (decode_reservation row)) [
            | inl unreadable ↦ inl (ground arith)
            | inr (reservation, decoded) ↦
                elim (Bool-cases
                  (not (text_eq reservation.owner_id owner_id) || leb reservation.expires_at now)) [
                    | inl lost ↦ inl (ground arith)
                    | inr holds ↦ inr (now, ground arith)
                  ]
          ]
        ]
      ]

  -- Each step keeps every row, and moves its status forward or not at all.
  Step-Keeps : (key : Text) {s t : Store F} → Step s t → Keeps key s t
  unfolding release_reservation record_post_fill_integrity_halt
  Step-Keeps key {s} (acquire scope owner_id lease k clock) =
      Keeps-same key s _ (intents-acquire scope owner_id lease k clock s)
  Step-Keeps key {s} (release scope owner_id) = Keeps-same key s _ (ground arith)
  Step-Keeps key {s} (claim_reserved r scope owner_id clock) =
      elim (claim_cases r scope owner_id clock s) [
        | inl same ↦ Keeps-same key s _ (ap (λ (t : Store F). t.intents) same)
        | inr (now, inserted) ↦
            rw inserted (insert_claim-Keeps key r (some (account_or r.account_id scope)) now s)
      ]
  Step-Keeps key {s} (claim r now) = try_claim-Keeps key r now s
  Step-Keeps key {s} (resolve r now) = transition-Keeps key r now s
  Step-Keeps key {s} (diagnose k outcome state reason) =
      record_recovery_diagnostic-Keeps key k outcome state reason s
  Step-Keeps key {s} (stop reason) = Keeps-same key s _ (ground arith)

  pub Steps-Keeps : (key : Text) {s t : Store F} → Steps s t → Keeps key s t
  Steps-Keeps key {s} done = Keeps-refl key s
  Steps-Keeps key {s} (next {t} {u} path step) =
      Keeps-trans key s t u (Steps-Keeps key path) (Step-Keeps key step)

  -- Whatever methods the processes that share the file call, and in whatever order, the row of a
  -- key is never lost, and a status that is readable moves forward only: an unknown outcome never
  -- becomes pending again, and an accepted or a rejected one stays as it is.
  pub Steps-advances :
      (key : Text) {s t : Store F}
      → Steps s t
      → (advances (row_status key s) (row_status key t) ≡ true)
        × ((not (is_some (find_row key s.intents)) || is_some (find_row key t.intents)) ≡ true)
  Steps-advances key {s} {t} path =
      let kept = Steps-Keeps key path in
      (
        kept.status,
        elim (Bool-cases (is_some (find_row key s.intents))) [
          | inl had ↦ ground (arith, kept.present had)
          | inr new ↦ ground arith
        ],
      )
