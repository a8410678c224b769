-- ===== src/Ledger/Rows.antt =====
-- The table `live_paper_positions`, its lookups and updates under the primary key (broker,
-- position_id), and the queries that read it.
use jqe.Prelude.{
  ℕ, Bool, true, false, not, ◌&&◌, ◌||◌, Option, none, some, List, [], ◌∷◌, ltb, ◌==◌,
  if◌then◌else◌, is_some,
}
use jqe.Text.{Text, text, text_eq, strip, nonblank}
use jqe.Number.{float, Float}
use jqe.Store.{text_lt, Result, ok, raised, value_error}

-- A row, which `PositionLedgerEntry` repeats field by field.
pub record Entry (F : Type 0) : Type 0 where
  pub broker : Text
  pub symbol : Text
  pub position_id : Text
  pub order_id : Text
  pub opened_at : ℕ
  pub closed_at : Option ℕ
  pub close_price : Option F
  pub realized_pnl : Option F
  pub currency : Option Text
  pub reconciliation_state : Option Text
  pub side : Option Text
  pub volume : Option F
  pub entry_price : Option F
  pub stop_loss : Option F
  pub notification_claimed_at : Option ℕ
  pub remaining_volume : Option F
  pub close_reason : Option Text
  pub close_notification_claimed_at : Option ℕ
  pub close_unconfirmed_notification_claimed_at : Option ℕ
  pub expected_lifetime_at : Option ℕ
  pub timeframe : Option Text

abbrev pub text_is : Option Text → Text → Bool
text_is none t = false
text_is (some s) t = text_eq s t

-- `_required_text`, where `none` is its ValueError.
unfoldable pub required_text : Text → Option Text
required_text t = if nonblank t then some (strip t) else none

module _ {F : Type 0} ⦃o : Float F⦄ where
  abbrev pub float_eq : F → F → Bool
  float_eq a b = o.le (float a) (float b) && o.le (float b) (float a)

  abbrev pub float_is : Option F → F → Bool
  float_is none y = false
  float_is (some x) y = float_eq x y

module _ {F : Type 0} where
  abbrev pub is_at : Text → Text → Entry F → Bool
  is_at broker position_id e = text_eq e.broker broker && text_eq e.position_id position_id

  -- SELECT … WHERE broker=? AND position_id=?, then `fetchone`
  unfoldable pub find_entry : Text → Text → List (Entry F) → Option (Entry F)
  find_entry broker position_id [] = none
  find_entry broker position_id (e ∷ es) =
      if is_at broker position_id e then some e else find_entry broker position_id es

  unfoldable pub put_entry : Text → Text → (Entry F → Entry F) → List (Entry F) → List (Entry F)
  put_entry broker position_id f [] = []
  put_entry broker position_id f (e ∷ es) =
      if is_at broker position_id e then f e ∷ es else e ∷ put_entry broker position_id f es

  -- UPDATE … WHERE broker=? AND position_id=? AND …: whether its `rowcount` is 1, and the table.
  unfoldable pub update_entry :
      Text → Text → (Entry F → Bool) → (Entry F → Entry F) → List (Entry F) → Bool × List (Entry F)
  update_entry broker position_id where_ f es = elim (find_entry broker position_id es) [
    | none ↦ (false, es)
    | some e ↦ if where_ e then (true, put_entry broker position_id f es) else (false, es)
  ]

  -- `ORDER BY opened_at, position_id`
  unfoldable pub entry_before : Entry F → Entry F → Bool
  unfolding text_lt
  entry_before a b =
      ltb a.opened_at b.opened_at
      || (a.opened_at == b.opened_at && not (text_lt b.position_id a.position_id))

  unfoldable pub insert_entry : Entry F → List (Entry F) → List (Entry F)
  unfolding entry_before
  insert_entry e [] = e ∷ []
  insert_entry e (f ∷ fs) = if entry_before e f then e ∷ f ∷ fs else f ∷ insert_entry e fs

  -- `entries`
  unfoldable pub entries : List (Entry F) → List (Entry F)
  unfolding insert_entry
  entries [] = []
  entries (e ∷ es) = insert_entry e (entries es)

  unfoldable pub select : (Entry F → Bool) → List (Entry F) → List (Entry F)
  select p [] = []
  select p (e ∷ es) = let rest = select p es in if p e then e ∷ rest else rest

  -- `open_entries`: the rows are selected before they are put in order
  unfoldable pub open_entries : Text → List (Entry F) → Result (List (Entry F))
  unfolding select entries
  open_entries broker es = elim (required_text broker) [
    | none ↦ raised value_error
    | some b ↦ ok (entries (select (λ e. text_eq e.broker b && not (is_some e.closed_at)) es))
  ]

  -- `pending_close_notifications`: the entries in order, then those that await their notification
  unfoldable pub awaits_notification : Text → Entry F → Bool
  awaits_notification broker e =
      text_eq e.broker broker
      && is_some e.closed_at
      && text_is e.reconciliation_state (text "CLOSE_CONFIRMED")
      && not (is_some e.close_notification_claimed_at)

  unfoldable pub pending_close_notifications : Text → List (Entry F) → List (Entry F)
  unfolding select entries awaits_notification
  pending_close_notifications broker es = select (awaits_notification broker) (entries es)
