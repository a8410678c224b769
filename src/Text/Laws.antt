-- ===== src/Text/Laws.antt =====
-- Equality of texts, and what stripping and upper case do when they are applied again.
use jqe.Prelude.{ℕ, ◌≡◌, refl, ◌↔◌, true, false, [], ◌∷◌, arith, Bool-cases, inl, inr}
use jqe.Text.{
  nonblank, nonempty, Text, text_eq, is_space, lstrip, rstrip, strip, upper_char, upper, normalize,
}

eq_of_text_eq : (a b : Text) → text_eq a b ≡ true → a ≡ b
unfolding text_eq
eq_of_text_eq [] [] h = refl
eq_of_text_eq [] (b ∷ bs) h = cc
eq_of_text_eq (a ∷ r) [] h = cc
eq_of_text_eq (a ∷ r) (b ∷ bs) h = ground (arith, eq_of_text_eq r bs)

pub text_eq_refl : (a : Text) → text_eq a a ≡ true
unfolding text_eq
text_eq_refl [] = refl
text_eq_refl (a ∷ r) = ground (arith, text_eq_refl r)

pub text_eq_iff : (a b : Text) → (text_eq a b ≡ true) ↔ (a ≡ b)
text_eq_iff a b = (eq_of_text_eq a b, λ e. rw e (text_eq_refl b))

rstrip_idem : (s : Text) → rstrip (rstrip s) ≡ rstrip s
unfolding rstrip
rstrip_idem [] = refl
rstrip_idem (c ∷ s) = ground (arith, rstrip_idem s)

-- A text that begins with a kept character has nothing more to strip on the left.
lstrip-rstrip : (c : ℕ) (s : Text) → is_space c ≡ false → lstrip (rstrip (c ∷ s)) ≡ rstrip (c ∷ s)
unfolding lstrip rstrip
lstrip-rstrip c s h = ground arith

lstrip-rstrip-lstrip : (s : Text) → lstrip (rstrip (lstrip s)) ≡ rstrip (lstrip s)
unfolding lstrip
lstrip-rstrip-lstrip [] = unfold rstrip in refl
lstrip-rstrip-lstrip (c ∷ s) = elim (Bool-cases (is_space c)) [
  | inl space ↦ rw space (lstrip-rstrip-lstrip s)
  | inr kept ↦ rw kept (lstrip-rstrip c s kept)
]

pub strip_idem : (s : Text) → strip (strip s) ≡ strip s
unfolding strip
strip_idem s = rw lstrip-rstrip-lstrip (rstrip_idem (lstrip s))

is_space-upper_char : (c : ℕ) → is_space (upper_char c) ≡ is_space c
unfolding is_space upper_char
is_space-upper_char c = ground arith

upper_char_idem : (c : ℕ) → upper_char (upper_char c) ≡ upper_char c
unfolding upper_char
upper_char_idem c = ground arith

pub upper_idem : (s : Text) → upper (upper s) ≡ upper s
unfolding upper
upper_idem [] = refl
upper_idem (c ∷ s) = cc (upper_char_idem c, upper_idem s)

lstrip-upper : (s : Text) → lstrip (upper s) ≡ upper (lstrip s)
unfolding lstrip upper
lstrip-upper [] = refl
lstrip-upper (c ∷ s) = ground (arith, is_space-upper_char c, lstrip-upper s)

rstrip-upper : (s : Text) → rstrip (upper s) ≡ upper (rstrip s)
unfolding rstrip upper
rstrip-upper [] = refl
rstrip-upper (c ∷ s) = ground (arith, is_space-upper_char c, rstrip-upper s)

strip-upper : (s : Text) → strip (upper s) ≡ upper (strip s)
unfolding strip
strip-upper s = rw (lstrip-upper, rstrip-upper)

-- Normalising twice is normalising once.
pub normalize_idem : (s : Text) → normalize (normalize s) ≡ normalize s
unfolding normalize
normalize_idem s = rw (strip-upper, strip_idem) (upper_idem (strip s))

-- A stripped text normalises as the text itself.
pub normalize-strip : (s : Text) → normalize (strip s) ≡ normalize s
unfolding normalize
normalize-strip s = rw strip_idem

pub nonblank-strip : (s : Text) → nonblank (strip s) ≡ nonblank s
unfolding nonblank
nonblank-strip s = rw strip_idem

nonempty-upper : (s : Text) → nonempty (upper s) ≡ nonempty s
unfolding upper
nonempty-upper [] = refl
nonempty-upper (c ∷ s) = refl

pub nonblank-normalize : (s : Text) → nonblank (normalize s) ≡ nonblank s
unfolding nonblank normalize
nonblank-normalize s = rw (strip-upper, strip_idem) (nonempty-upper (strip s))
