-- ===== src/Policy/Listed.antt =====
-- What the tests of execution/policy.py on collections say of their items.
use jqe.Prelude.{
  ◌≡◌, ◌≢◌, ◌↔◌, ◌⊎◌, refl, true, false, ◌||◌, ◌&&◌, Option, none, some, List, [], ◌∷◌, all, any,
  arith, inl, inr, Any, All, Bool-cases, subst,
}
use jqe.Text.{Text, text_eq, normalize}
use jqe.Text.Laws.{text_eq_iff}
use jqe.Broker.{buy, sell}
use jqe.Value.{Value, is_nonblank, chars, is_side, has_text}
use jqe.Policy.{PositionSnapshot, names_symbol, valid_position_snapshot, in_names, valid_names}
use jqe.Policy.Meaning.{IsSide, is_side-IsSide, AreNames, valid_names-AreNames, has_text-Any}

module _ {F : Type 0} where
  -- A nonblank name, and a collection of nonblank names that has the text.
  abbrev pub IsListed : Text → Value F → Option (List (Value F)) → Type 0
  IsListed t v names =
      (is_nonblank v ≡ true)
      × ((vs : List (Value F)) × AreNames names vs × Any (λ u. chars u ≡ t) vs)

  -- A collection of nonblank names without the text.
  abbrev pub IsUnlisted : Text → Option (List (Value F)) → Type 0
  IsUnlisted t names = (vs : List (Value F)) × AreNames names vs × All (λ u. chars u ≢ t) vs

  -- A position of either side, in another symbol.
  abbrev pub IsElsewhere : Text → Option (PositionSnapshot F) → Type 0
  IsElsewhere symbol p =
      (q : PositionSnapshot F) × (p ≡ some q)
      × (is_nonblank q.symbol ≡ true)
      × (IsSide buy q.side ⊎ IsSide sell q.side)
      × (normalize (chars q.symbol) ≢ symbol)

  pub read_names : (vs : List (Value F)) → valid_names (some vs) ≡ true → AreNames (some vs) vs
  read_names vs h =
      let names = (valid_names-AreNames (some vs)).0 h in
      let same : names.0 ≡ vs = ground (arith, names.1.0) in
      (refl, subst (λ us. All (λ v. is_nonblank v ≡ true) us) same names.1.1)

  pub names_back :
      (vs : List (Value F)) → All (λ v. is_nonblank v ≡ true) vs → valid_names (some vs) ≡ true
  names_back vs h = (valid_names-AreNames (some vs)).1 (vs, (refl, h))

  pub has_text_unlisted :
      (t : Text) (vs : List (Value F))
      → All (λ v. is_nonblank v ≡ true) vs
      → (has_text t vs ≡ false) ↔ All (λ v. chars v ≢ t) vs
  has_text_unlisted t vs named = (
    absent vs named,
    λ h. elim (Bool-cases (has_text t vs)) [
      | inl there ↦ absurd (Any-none vs ((has_text-Any t vs named).0 there) h)
      | inr n ↦ n
    ],
  )
    where
      absent :
          (vs : List (Value F))
          → All (λ v. is_nonblank v ≡ true) vs
          → has_text t vs ≡ false
          → All (λ v. chars v ≢ t) vs
      absent [] named h = tt
      absent (v ∷ vs) named h =
          let whole = has_text-Any t (v ∷ vs) named in
          let rest = has_text-Any t vs named.1 in
          (
            λ e. ground (arith, whole.1 (inl e)),
            elim (Bool-cases (has_text t vs)) [
              | inl there ↦ absurd (ground (arith, whole.1 (inr (rest.0 there))))
              | inr n ↦ absent vs named.1 n
            ],
          )

      Any-none : (vs : List (Value F)) → Any (λ v. chars v ≡ t) vs → All (λ v. chars v ≢ t) vs → ⊥
      Any-none [] h k = elim h [ ]
      Any-none (v ∷ vs) (inl e) k = absurd (k.0 e)
      Any-none (v ∷ vs) (inr h) k = Any-none vs h k.1

  pub in_names-IsListed :
      (t : Text) (v : Value F) (names : Option (List (Value F)))
      → ((is_nonblank v && valid_names names && in_names t names) ≡ true) ↔ IsListed t v names
  in_names-IsListed t v none = (λ h. absurd (ground arith), λ h. absurd (ground (arith, h.1.1.0)))
  in_names-IsListed t v (some vs) =
      let names = valid_names-AreNames (some vs) in
      (
        λ h. (
          ground arith,
          (
            vs,
            read_names vs (ground arith),
            (has_text-Any t vs (read_names vs (ground arith)).1).0 (ground arith),
          ),
        ),
        λ h.
            let same : h.1.0 ≡ vs = ground (arith, h.1.1.0) in
            let all_names : All (λ v. is_nonblank v ≡ true) vs =
              subst (λ us. All (λ v. is_nonblank v ≡ true) us) same h.1.1.1 in
            let there =
              (has_text-Any t vs all_names).1
                (subst (λ us. Any (λ u. chars u ≡ t) us) same h.1.2) in
            let valid = names.1 (vs, (refl, all_names)) in ground (arith, h.0),
      )

  pub in_names-IsUnlisted :
      (t : Text) (names : Option (List (Value F)))
      → ((valid_names names ≡ true) × (in_names t names ≡ false)) ↔ IsUnlisted t names
  in_names-IsUnlisted t none = (λ h. absurd (ground arith), λ h. absurd (ground (arith, h.1.0)))
  in_names-IsUnlisted t (some vs) = (
    λ h. (vs, read_names vs h.0, (has_text_unlisted t vs (read_names vs h.0).1).0 h.1),
    λ h.
        let same : h.0 ≡ vs = ground (arith, h.1.0) in
        let named : All (λ v. is_nonblank v ≡ true) vs =
          subst (λ us. All (λ v. is_nonblank v ≡ true) us) same h.1.1 in
        (
          (valid_names-AreNames (some vs)).1 (vs, (refl, named)),
          (has_text_unlisted t vs named).1 (subst (λ us. All (λ u. chars u ≢ t) us) same h.2),
        ),
  )

  pub either-IsSide :
      (v : Value F) → ((is_side buy v || is_side sell v) ≡ true) ↔ (IsSide buy v ⊎ IsSide sell v)
  either-IsSide v = (
    λ h. elim (Bool-cases (is_side buy v)) [
      | inl b ↦ inl ((is_side-IsSide buy v).0 b)
      | inr n ↦ inr ((is_side-IsSide sell v).0 (ground arith))
    ],
    λ h. elim h [
      | inl b ↦ let x = (is_side-IsSide buy v).1 b in ground arith
      | inr b ↦ let x = (is_side-IsSide sell v).1 b in ground arith
    ],
  )

  pub snapshots-IsElsewhere :
      (t : Text) (ps : List (Option (PositionSnapshot F)))
      → ((all valid_position_snapshot ps ≡ true) × (any (names_symbol t) ps ≡ false))
        ↔ All (IsElsewhere t) ps
  snapshots-IsElsewhere t [] = (λ h. tt, λ h. (refl, refl))
  snapshots-IsElsewhere t (none ∷ ps) =
      (λ h. absurd (ground (arith, h.0)), λ h. absurd (ground (arith, h.0.1)))
  snapshots-IsElsewhere t (some p ∷ ps) =
      let rest = snapshots-IsElsewhere t ps in
      let sides = either-IsSide p.side in
      let same = text_eq_iff (normalize (chars p.symbol)) t in
      (
        λ h. (
          (
            p,
            refl,
            ground (arith, h.0),
            sides.0 (ground (arith, h.0)),
            λ e. ground (arith, h.1, same.1 e),
          ),
          rest.0 (ground (arith, h.0), ground (arith, h.1)),
        ),
        λ h.
            let own : h.0.0 ≡ p = ground (arith, h.0.1) in
            let facts : (is_nonblank p.symbol ≡ true)
                × (IsSide buy p.side ⊎ IsSide sell p.side)
                × (normalize (chars p.symbol) ≢ t) =
              subst
                (λ q.
                  (is_nonblank q.symbol ≡ true)
                  × (IsSide buy q.side ⊎ IsSide sell q.side)
                  × (normalize (chars q.symbol) ≢ t))
                own (h.0.2, h.0.3, h.0.4) in
            let side_read = sides.1 facts.1 in
            let later = rest.1 h.1 in
            elim (Bool-cases (text_eq (normalize (chars p.symbol)) t)) [
              | inl e ↦ absurd (facts.2 (same.0 e))
              | inr n ↦ (ground (arith, facts.0), ground arith)
            ],
      )
