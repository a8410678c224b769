-- ===== src/Store/Reads.antt =====
-- What `SQLiteIntentRecordStore.get` reads after a claim and after a transition.
use jqe.Prelude.{
  ℕ, ◌≡◌, ◌≢◌, refl, true, false, Option, none, some, arith, Bool-cases, inl, inr, ◌⊎◌,
}
use jqe.Text.{Text, nonblank}
use jqe.Text.Laws.{text_eq_refl}
use jqe.Number.{Float}
use jqe.Intent.{IntentRecord, IntentRecordStatus, pending, unknown, accepted, rejected, claimed}
use jqe.Store.{
  Store, Row, ok, find_row, decode, claim_row, get, insert_claim, try_claim, transition,
  allowed_transition, resolve_row,
}
use jqe.Store.Lookup.{
  find_row-append, find_row-update_row, ValidQuantity, stored, decode-claim_row,
  status_of-status_value,
}

-- The moves of an intent's status.
abbrev pub Admits : IntentRecordStatus → IntentRecordStatus → Type 0
Admits old new =
    (((old ≡ pending) ⊎ (old ≡ unknown)) × (new ≢ pending))
    ⊎ (((old ≡ accepted) ⊎ (old ≡ rejected)) × (new ≡ old))

abbrev pub IsBarred : {F : Type 0} → Option (IntentRecord F) → IntentRecordStatus → Type 0
IsBarred none new = Unit
IsBarred (some current) new = ¬ Admits current.status new

allowed_transition-Admits :
    (old new : IntentRecordStatus) → allowed_transition old new ≡ true → Admits old new
unfolding allowed_transition
allowed_transition-Admits pending new h = inl (inl refl, λ e. ground (arith, rw e at h))
allowed_transition-Admits unknown new h = inl (inr refl, λ e. ground (arith, rw e at h))
allowed_transition-Admits accepted new h = inr (inl refl, ground arith)
allowed_transition-Admits rejected new h = inr (inr refl, ground arith)

allowed_transition-refuses :
    (old new : IntentRecordStatus) → allowed_transition old new ≡ false → ¬ Admits old new
unfolding allowed_transition
allowed_transition-refuses old new h (inl (inl e, n)) = ground (arith, rw e at h, n)
allowed_transition-refuses old new h (inl (inr e, n)) = ground (arith, rw e at h, n)
allowed_transition-refuses old new h (inr (inl e, n)) = ground (arith, e, n)
allowed_transition-refuses old new h (inr (inr e, n)) = ground (arith, e, n)

module _ {F : Type 0} ⦃o : Float F⦄ where
  -- The row of `key` decodes to `r`.
  abbrev pub Holds : Store F → Text → IntentRecord F → Type 0
  Holds s key r = (row : Row F) × (find_row key s.intents ≡ some row) × (decode row ≡ some r)

  pub get-Holds :
      (s : Store F) (key : Text) (r : IntentRecord F)
      → nonblank key ≡ true
      → Holds s key r
      → (get key s).0 ≡ ok (some r)
  unfolding get
  get-Holds s key r blank (row, found, decoded) = ground arith

  Holds-get :
      (s : Store F) (key : Text) (r : IntentRecord F)
      → nonblank key ≡ true
      → (get key s).0 ≡ ok (some r)
      → Holds s key r
  unfolding get
  Holds-get s key r blank h = ground arith

  pub insert_claim-Holds :
      (r : IntentRecord F) (account_id : Option Text) (now : ℕ) (s : Store F)
      → ValidQuantity r.quantity
      → (insert_claim r account_id now s).0 ≡ ok claimed
      → Holds
          (insert_claim r account_id now s).1
          r.idempotency_key
          (record (stored r) { account_id = account_id })
  unfolding insert_claim
  insert_claim-Holds r account_id now s valid h = (
    claim_row r account_id now,
    unfold claim_row in
        ground (
          arith,
          find_row-append r.idempotency_key s.intents (claim_row r account_id now),
          text_eq_refl r.idempotency_key,
        ),
    decode-claim_row r account_id now valid,
  )

  -- The record as a transition leaves it.
  abbrev pub resolved : IntentRecord F → IntentRecord F → IntentRecord F
  resolved current r = record current {
    status = r.status;
    order_id = r.order_id;
    transaction_id = r.transaction_id;
  }

  decode-resolve_row :
      (row : Row F) (r current : IntentRecord F) (now : ℕ)
      → decode row ≡ some current
      → decode (resolve_row r now row) ≡ some (resolved current r)
  unfolding decode
  decode-resolve_row row r current now h = ground (arith, status_of-status_value r.status)

  transition-Holds :
      (r current : IntentRecord F) (now : ℕ) (s : Store F)
      → nonblank r.idempotency_key ≡ true
      → Holds s r.idempotency_key current
      → allowed_transition current.status r.status ≡ true
      → ((transition r now s).0 ≡ ok true)
        × Holds (transition r now s).1 r.idempotency_key (resolved current r)
  unfolding transition
  transition-Holds r current now s blank (row, found, decoded) allowed = (
    ground arith,
    (
      resolve_row r now row,
      ground (
        arith,
        find_row-update_row r.idempotency_key r.idempotency_key (resolve_row r now) s.intents
            (λ x. refl),
        text_eq_refl r.idempotency_key,
      ),
      decode-resolve_row row r current now decoded,
    ),
  )

  pub get-transition :
      (r current : IntentRecord F) (now : ℕ) (s : Store F)
      → nonblank r.idempotency_key ≡ true
      → (get r.idempotency_key s).0 ≡ ok (some current)
      → allowed_transition current.status r.status ≡ true
      → ((transition r now s).0 ≡ ok true)
        × ((get r.idempotency_key (transition r now s).1).0 ≡ ok (some (resolved current r)))
  get-transition r current now s blank read allowed =
      let (row, found, decoded) = Holds-get s r.idempotency_key current blank read in
      let (done, holds) = transition-Holds r current now s blank (row, found, decoded) allowed in
      (done, get-Holds (transition r now s).1 r.idempotency_key (resolved current r) blank holds)

  pub transition_refused :
      (r : IntentRecord F) (now : ℕ) (s : Store F)
      → nonblank r.idempotency_key ≡ true
      → ((get r.idempotency_key s).0 ≡ ok none)
        ⊎ ((current : IntentRecord F) × ((get r.idempotency_key s).0 ≡ ok (some current))
            × (allowed_transition current.status r.status ≡ false))
      → transition r now s ≡ (ok false, s)
  unfolding transition get
  transition_refused r now s blank h = ground arith

  -- `transition` is decided by the record that `get` reads, if it reads one or none under the key,
  -- and the key is nonblank: it reports True exactly if there is a record, and its status is PENDING
  -- or UNKNOWN and the new one is not PENDING, or both are ACCEPTED, or both are REJECTED. Then `get`
  -- reads the record with the new status and identifiers; otherwise it reports False, and the store
  -- is left as it was.
  pub transition-Admits :
      (r : IntentRecord F) (found : Option (IntentRecord F)) (now : ℕ) (s : Store F)
      → nonblank r.idempotency_key ≡ true
      → (get r.idempotency_key s).0 ≡ ok found
      → ((current : IntentRecord F) × (found ≡ some current)
          × Admits current.status r.status
          × ((transition r now s).0 ≡ ok true)
          × ((get r.idempotency_key (transition r now s).1).0 ≡ ok (some (resolved current r))))
        ⊎ (IsBarred found r.status × (transition r now s ≡ (ok false, s)))
  transition-Admits r none now s named read = inr (tt, transition_refused r now s named (inl read))
  transition-Admits r (some current) now s named read =
      elim (Bool-cases (allowed_transition current.status r.status)) [
        | inl allowed ↦
            let done = get-transition r current now s named read allowed in
            inl (
              current,
              refl,
              allowed_transition-Admits current.status r.status allowed,
              done.0,
              done.1,
            )
        | inr refused ↦ inr (
          allowed_transition-refuses current.status r.status refused,
          transition_refused r now s named (inr (current, read, refused)),
        )
      ]

  -- A claim that reports success is durable: `get` reads the record that was claimed, with None for
  -- a price or an amount that is NaN. The quantity, if there is one, passes its validator.
  pub get-try_claim :
      (r : IntentRecord F) (now : ℕ) (s : Store F)
      → ValidQuantity r.quantity
      → (try_claim r now s).0 ≡ ok claimed
      → (get r.idempotency_key (try_claim r now s).1).0 ≡ ok (some (stored r))
  unfolding try_claim
  get-try_claim r now s valid h = elim (Bool-cases (nonblank r.idempotency_key)) [
    | inl named ↦ rw named (
        get-Holds (insert_claim r r.account_id now s).1 r.idempotency_key (stored r) named
          (insert_claim-Holds r r.account_id now s valid (rw named at h)))
    | inr blank ↦ absurd (ground arith)
  ]
