-- ===== src/Store/Tables.antt =====
-- The two tables as lists of rows: what SELECT, INSERT, UPDATE and DELETE do to them under their
-- primary keys, and `ORDER BY created_at, idempotency_key`.
use jqe.Prelude.{
  ℕ, suc, Bool, true, false, not, ◌&&◌, ◌||◌, Option, none, some, ◌>>=◌, List, [], ◌∷◌, ltb, ◌==◌,
  if◌then◌else◌,
}
use jqe.Text.{Text, text_eq}
use jqe.Intent.{IntentRecordStatus}
use jqe.Store.Rows.{Row, ReservationRow, status_of, is_unresolved}

-- The order of two keys: SQLite compares their characters from the left.
unfoldable pub text_lt : Text → Text → Bool
text_lt [] [] = false
text_lt [] (b ∷ bs) = true
text_lt (a ∷ r) [] = false
text_lt (a ∷ r) (b ∷ bs) = ltb a b || (a == b && text_lt r bs)

-- `_has_other_unresolved_intent` on the states read
unfoldable pub other_unresolved : Text → List (Text × IntentRecordStatus) → Bool
other_unresolved key [] = false
other_unresolved key ((k, s) ∷ rest) =
    (not (text_eq k key) && is_unresolved s) || other_unresolved key rest

module _ {F : Type 0} where
  abbrev pub has_key : Text → Row F → Bool
  has_key key row = text_eq row.idempotency_key key

  -- SELECT … WHERE idempotency_key = ?, then `fetchone`
  unfoldable pub find_row : Text → List (Row F) → Option (Row F)
  find_row key [] = none
  find_row key (r ∷ rs) = if has_key key r then some r else find_row key rs

  -- UPDATE … WHERE idempotency_key = ?
  unfoldable pub update_row : Text → (Row F → Row F) → List (Row F) → List (Row F)
  update_row key f [] = []
  update_row key f (r ∷ rs) = (if has_key key r then f r else r) ∷ update_row key f rs

  -- The states of all rows, in which one that is unreadable raises.
  unfoldable pub states : List (Row F) → Option (List (Text × IntentRecordStatus))
  states [] = some []
  states (r ∷ rs) = do s ← status_of r.state; rest ← states rs; some ((r.idempotency_key, s) ∷ rest)

  -- `created_at ASC, idempotency_key ASC`
  unfoldable pub row_before : Row F → Row F → Bool
  unfolding text_lt
  row_before a b =
      ltb a.created_at b.created_at
      || (a.created_at == b.created_at && not (text_lt b.idempotency_key a.idempotency_key))

  unfoldable pub insert_ordered : Row F → List (Row F) → List (Row F)
  unfolding row_before
  insert_ordered r [] = r ∷ []
  insert_ordered r (s ∷ ss) = if row_before r s then r ∷ s ∷ ss else s ∷ insert_ordered r ss

  unfoldable pub order_rows : List (Row F) → List (Row F)
  unfolding insert_ordered
  order_rows [] = []
  order_rows (r ∷ rs) = insert_ordered r (order_rows rs)

-- SELECT … FROM execution_reservations WHERE scope = ?
unfoldable pub find_reservation : Text → List ReservationRow → Option ReservationRow
find_reservation scope [] = none
find_reservation scope (r ∷ rs) =
    if text_eq r.scope scope then some r else find_reservation scope rs

-- INSERT … ON CONFLICT(scope) DO UPDATE: the row of the scope is replaced, or a new one added.
unfoldable pub upsert_reservation : ReservationRow → List ReservationRow → List ReservationRow
upsert_reservation row [] = row ∷ []
upsert_reservation row (r ∷ rs) =
    if text_eq r.scope row.scope then row ∷ rs else r ∷ upsert_reservation row rs

abbrev owned : Text → Text → ReservationRow → Bool
owned scope owner_id r = text_eq r.scope scope && text_eq r.owner_id owner_id

-- DELETE … WHERE scope = ? AND owner_id = ?
unfoldable pub delete_reservation : Text → Text → List ReservationRow → List ReservationRow
delete_reservation scope owner_id [] = []
delete_reservation scope owner_id (r ∷ rs) =
    let rest = delete_reservation scope owner_id rs in
    if owned scope owner_id r then rest else r ∷ rest

-- The `rowcount` of that DELETE.
unfoldable pub count_owned : Text → Text → List ReservationRow → ℕ
count_owned scope owner_id [] = 0
count_owned scope owner_id (r ∷ rs) =
    let rest = count_owned scope owner_id rs in if owned scope owner_id r then suc rest else rest
