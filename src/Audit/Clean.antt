-- ===== src/Audit/Clean.antt =====
-- What a clean audit of execution/continuous_reconciliation.py has established.
use jqe.Prelude.{
  ℕ, ◌≡◌, ◌⊎◌, refl, ap, sym, subst, Bool, true, false, not, ◌&&◌, ℤ, Option, none, some, List, [],
  ◌∷◌, ◌++◌, map, inl, inr, arith, Bool-cases, Any, All, Any-map, is_some,
}
use jqe.Text.{Text, normalize}
use jqe.Text.Laws.{text_eq_iff}
use jqe.Number.{Float}
use jqe.Audit.{
  TrackedTradeState, BrokerPosition, contains, tracked_map, match_position, phantoms, foreign,
  volume_differs, check_position, compare_position, Sources, audit, audit_positions, read_positions,
  tracked_trades, is_nil,
}
use jqe.Audit.Matching.{
  append_nil, side_eq_iff, Shows, IsKeyed, HasKey, IsMapped, tracked_map-IsKeyed, tracked_map-keys,
}
use jqe.Audit.Compared.{match_position-tracked, match_position-Shows, read_positions-clean}

is_nil_iff : {A : Type 0} (xs : List A) → is_nil xs ≡ true → xs ≡ []
is_nil_iff [] h = refl
is_nil_iff (x ∷ xs) h = absurd (ground arith)

module _ {F : Type 0} ⦃o : Float F⦄ where
  abbrev pub volume_agrees : BrokerPosition F → TrackedTradeState F → Bool
  volume_agrees p t = elim t.volume [ none ↦ true | some v ↦ not (volume_differs p.volume v) ]

  -- The position is that of the trade: the same symbol and side, a volume within the tolerance where
  -- the trade has one, and no magic number other than the expected one.
  abbrev pub IsCovered : Option ℤ → BrokerPosition F → TrackedTradeState F → Type 0
  IsCovered magic p t =
      (normalize p.symbol ≡ t.symbol)
      × (p.side ≡ t.side)
      × (volume_agrees p t ≡ true)
      × ((is_some p.magic && foreign magic p.magic) ≡ false)

  check_position-IsCovered :
      (magic : Option ℤ) (p : BrokerPosition F) (t : TrackedTradeState F)
      → check_position magic p t ≡ []
      → IsCovered magic p t
  unfolding check_position
  check_position-IsCovered magic p t h = (
    (text_eq_iff (normalize p.symbol) t.symbol).0 (ground arith),
    side_eq_iff p.side t.side (ground arith),
    ground arith,
    ground arith,
  )

  compare_position-some :
      (magic : Option ℤ) (p : BrokerPosition F) (trade : Option (TrackedTradeState F))
      → compare_position magic p trade ≡ []
      → (t : TrackedTradeState F) × (trade ≡ some t) × IsCovered magic p t
  unfolding compare_position
  compare_position-some magic p none h = absurd (ground arith)
  compare_position-some magic p (some t) h = (t, refl, check_position-IsCovered magic p t h)

  audit_positions-IsCovered :
      (magic : Option ℤ) (trades : List (TrackedTradeState F))
      (entries : List (Text × TrackedTradeState F)) (matched : List Text)
      (ps : List (BrokerPosition F))
      → All (IsKeyed trades) entries
      → (audit_positions magic trades entries matched ps).0 ≡ []
      → All (λ p. Any (IsCovered magic p) trades) ps
  unfolding audit_positions
  audit_positions-IsCovered magic trades entries matched [] keyed h = tt
  audit_positions-IsCovered magic trades entries matched (p ∷ ps) keyed h =
      let now = match_position trades entries matched p in
      let (here, later) =
        append_nil (compare_position magic p now.0)
          (audit_positions magic trades entries now.1 ps).0 h in
      let (t, found, covered) = compare_position-some magic p now.0 here in
      (
        Any-map _ _ trades (λ x e. subst (IsCovered magic p) (sym e) covered)
            (match_position-tracked trades entries matched p t keyed found),
        audit_positions-IsCovered magic trades entries now.1 ps keyed later,
      )

  audit_positions-Shows :
      (magic : Option ℤ) (trades : List (TrackedTradeState F))
      (entries : List (Text × TrackedTradeState F)) (matched : List Text)
      (ps : List (BrokerPosition F)) (key : Text)
      → contains key (audit_positions magic trades entries matched ps).1 ≡ true
      → (contains key matched ≡ true) ⊎ Any (Shows trades key) ps
  unfolding audit_positions
  audit_positions-Shows magic trades entries matched [] key h = inl h
  audit_positions-Shows magic trades entries matched (p ∷ ps) key h =
      let now = match_position trades entries matched p in
      elim (audit_positions-Shows magic trades entries now.1 ps key h) [
        | inr later ↦ inr (inr later)
        | inl here ↦ elim (match_position-Shows trades entries matched p key here) [
          | inl before ↦ inl before
          | inr shown ↦ inr (inl shown)
        ]
      ]

  phantoms-matched :
      (trades : List (TrackedTradeState F)) (matched : List Text)
      (entries : List (Text × TrackedTradeState F))
      → All (IsKeyed trades) entries
      → phantoms matched entries ≡ []
      → All (λ e. contains e.0 matched ≡ true) entries
  unfolding phantoms
  phantoms-matched trades matched [] keyed h = tt
  phantoms-matched trades matched (entry ∷ entries) (first, keyed) h =
      elim (Bool-cases (contains entry.0 matched)) [
        | inl here ↦ (here, phantoms-matched trades matched entries keyed (ground arith))
        | inr missing ↦ absurd (ground (arith, first.1))
      ]

  entry-shown :
      (magic : Option ℤ) (trades : List (TrackedTradeState F))
      (entries all : List (Text × TrackedTradeState F)) (ps : List (BrokerPosition F)) (key : Text)
      → All (λ e. contains e.0 (audit_positions magic trades all [] ps).1 ≡ true) entries
      → HasKey key entries
      → Any (Shows trades key) ps
  entry-shown magic trades [] all ps key shown e = elim e [ ]
  entry-shown magic trades (entry ∷ entries) all ps key (first, shown) (inl here) =
      elim (audit_positions-Shows magic trades all [] ps key
        (subst (λ k. contains k (audit_positions magic trades all [] ps).1 ≡ true) here first)) [
          | inl before ↦ absurd (ground arith)
          | inr h ↦ h
        ]
  entry-shown magic trades (entry ∷ entries) all ps key (first, shown) (inr there) =
      entry-shown magic trades entries all ps key shown there

  trades-shown :
      (magic : Option ℤ) (trades some_trades : List (TrackedTradeState F))
      (entries : List (Text × TrackedTradeState F)) (ps : List (BrokerPosition F))
      → All (λ e. contains e.0 (audit_positions magic trades entries [] ps).1 ≡ true) entries
      → All (IsMapped entries) some_trades
      → All
          (λ t.
            (t.position_id ≡ none)
            ⊎ ((key : Text) × (t.position_id ≡ some key) × Any (Shows trades key) ps))
          some_trades
  trades-shown magic trades [] entries ps shown mapped = tt
  trades-shown magic trades (t ∷ ts) entries ps shown (inl unnamed, mapped) =
      (inl unnamed, trades-shown magic trades ts entries ps shown mapped)
  trades-shown magic trades (t ∷ ts) entries ps shown (inr (key, named, has), mapped) = (
    inr (key, named, entry-shown magic trades entries entries ps key shown has),
    trades-shown magic trades ts entries ps shown mapped,
  )

  -- An audit reports clean only if the broker could be asked and every item of its answer is a
  -- position, each position is that of a tracked trade in symbol, side, volume (within the tolerance)
  -- and magic number, and each tracked trade with a position has its key shown by a position of the
  -- broker: by its own identifier, or by the symbol of a tracked trade with that key.
  pub audit-clean :
      (s : Sources F) (items : Option (List (Option (BrokerPosition F)))) (now : ℕ)
      → (audit s items now).is_clean ≡ true
      → (ps : List (BrokerPosition F)) × (items ≡ some (map some ps))
        × All (λ p. Any (IsCovered s.expected_magic_number p) (tracked_trades s)) ps
        × All
            (λ t.
              (t.position_id ≡ none)
              ⊎ ((key : Text) × (t.position_id ≡ some key) × Any (Shows (tracked_trades s) key) ps))
            (tracked_trades s)
  unfolding audit
  audit-clean s none now h = absurd (ground arith)
  audit-clean s (some items) now h =
      let trades = tracked_trades s in
      let entries = tracked_map trades [] in
      let positions = read_positions items in
      let found = audit_positions s.expected_magic_number trades entries [] positions.1 in
      let nothing : (positions.0 ++ found.0 ++ phantoms found.1 entries) ≡ [] = is_nil_iff _ h in
      let (h1, no_phantom) =
        append_nil (positions.0 ++ found.0) (phantoms found.1 entries) nothing in
      let (well_formed, matching) = append_nil positions.0 found.0 h1 in
      let keyed = tracked_map-IsKeyed trades in
      let shown = phantoms-matched trades found.1 entries keyed no_phantom in
      (
        positions.1,
        ap some (read_positions-clean items well_formed),
        audit_positions-IsCovered s.expected_magic_number trades entries [] positions.1 keyed
            matching,
        trades-shown s.expected_magic_number trades trades entries positions.1 shown
            (tracked_map-keys trades []),
      )
