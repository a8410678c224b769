-- ===== src/Ledger/Lookup.antt =====
-- Lookups in the ledger of execution/persistence.py after an INSERT or an UPDATE.
use jqe.Prelude.{
  ◌≡◌, refl, Bool, false, Option, none, some, List, [], ◌∷◌, ◌++◌, arith, if◌then◌else◌, is_some,
  Option-cases, Bool-cases, inl, inr, ◌&&◌,
}
use jqe.Text.{Text, text_eq}
use jqe.Text.Laws.{text_eq_iff}
use jqe.Ledger.{Entry, is_at, find_entry, put_entry, update_entry}

module _ {F : Type 0} where
  -- `f` leaves the primary key alone.
  pub record KeepsKey (f : Entry F → Entry F) : Type 0 where
    pub broker : (e : Entry F) → (f e).broker ≡ e.broker
    pub position_id : (e : Entry F) → (f e).position_id ≡ e.position_id

  pub find_entry-append :
      (b p : Text) (es : List (Entry F)) (e : Entry F)
      → find_entry b p (es ++ e ∷ []) ≡ (
          if is_some (find_entry b p es)
          then find_entry b p es
          else if is_at b p e
          then some e
          else none)
  unfolding find_entry
  find_entry-append b p [] e = refl
  find_entry-append b p (x ∷ xs) e = ground (arith, find_entry-append b p xs e)

  abbrev pub updated : (Entry F → Entry F) → Option (Entry F) → Option (Entry F)
  updated f none = none
  updated f (some e) = some (f e)

  pub find_entry-put_entry :
      (b p c q : Text) (f : Entry F → Entry F) (es : List (Entry F))
      → KeepsKey f
      → find_entry b p (put_entry c q f es)
        ≡ (if text_eq c b && text_eq q p then updated f (find_entry b p es) else find_entry b p es)
  unfolding find_entry put_entry
  find_entry-put_entry b p c q f [] keeps = ground arith
  find_entry-put_entry b p c q f (e ∷ es) keeps = ground (
    arith,
    keeps.broker e,
    keeps.position_id e,
    text_eq_iff e.broker b,
    text_eq_iff e.position_id p,
    text_eq_iff e.broker c,
    text_eq_iff e.position_id q,
    text_eq_iff c b,
    text_eq_iff q p,
    find_entry-put_entry b p c q f es keeps,
  )

  -- The row of a key after an UPDATE under a condition.
  abbrev pub updated_where :
      (Entry F → Bool) → (Entry F → Entry F) → Option (Entry F) → Option (Entry F)
  updated_where where_ f none = none
  updated_where where_ f (some e) = if where_ e then some (f e) else some e

  abbrev pub holds_in : (Entry F → Bool) → Option (Entry F) → Bool
  holds_in where_ none = false
  holds_in where_ (some e) = where_ e

  pub find_entry-update_entry :
      (b p c q : Text) (where_ : Entry F → Bool) (f : Entry F → Entry F) (es : List (Entry F))
      → KeepsKey f
      → (find_entry b p (update_entry c q where_ f es).1 ≡ (
          if text_eq c b && text_eq q p
          then updated_where where_ f (find_entry b p es)
          else find_entry b p es))
        × ((update_entry c q where_ f es).0 ≡ holds_in where_ (find_entry c q es))
  unfolding update_entry
  find_entry-update_entry b p c q where_ f es keeps =
      let put = find_entry-put_entry b p c q f es keeps in
      let one = text_eq_iff c b in
      let other = text_eq_iff q p in
      elim (Option-cases (find_entry c q es)) [
        | inl absent ↦ (ground arith, ground arith)
        | inr (e, found) ↦ elim (Bool-cases (where_ e)) [
          | inl fits ↦ (ground arith, ground arith)
          | inr fails ↦ (ground arith, ground arith)
        ]
      ]
