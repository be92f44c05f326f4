-- ===== src/Users/Email.antt =====
-- `normalize_email`: two spellings of one address are one account.
use stock_quant_backend.Prelude.{ℕ, ◌≡◌, refl, false, [], ◌∷◌, arith, Bool-cases, inl, inr}
use stock_quant_backend.Prelude.Text.{
  Text, is_space, lower_char, lower, lstrip, rstrip, keep, strip,
}
use stock_quant_backend.Users.{normalize_email}

lower_char_idem : (c : ℕ) → lower_char (lower_char c) ≡ lower_char c
unfolding lower_char
lower_char_idem c = ground arith

is_space-lower_char : (c : ℕ) → is_space (lower_char c) ≡ is_space c
unfolding is_space lower_char
is_space-lower_char c = ground arith

pub lower_idem : (s : Text) → lower (lower s) ≡ lower s
unfolding lower
lower_idem [] = refl
lower_idem (c ∷ s) = rw (lower_char_idem c, lower_idem s)

lstrip-lower : (s : Text) → lstrip (lower s) ≡ lower (lstrip s)
unfolding lstrip lower
lstrip-lower [] = refl
lstrip-lower (c ∷ s) = elim (Bool-cases (is_space c)) [
  | inl e ↦ rw (is_space-lower_char c, e) (lstrip-lower s)
  | inr e ↦ rw (is_space-lower_char c, e)
]

keep-lower : (c : ℕ) (s : Text) → keep (lower_char c) (lower s) ≡ lower (keep c s)
unfolding keep lower
keep-lower c [] = elim (Bool-cases (is_space c)) [
  | inl e ↦ rw (is_space-lower_char c, e)
  | inr e ↦ rw (is_space-lower_char c, e)
]
keep-lower c (d ∷ s) = refl

rstrip-lower : (s : Text) → rstrip (lower s) ≡ lower (rstrip s)
unfolding rstrip lower
rstrip-lower [] = refl
rstrip-lower (c ∷ s) = rw (rstrip-lower s) (keep-lower c (rstrip s))

lstrip-keep : (c : ℕ) (s : Text) → is_space c ≡ false → lstrip (keep c s) ≡ keep c s
unfolding lstrip keep
lstrip-keep c [] e = rw (e, lstrip, e)
lstrip-keep c (d ∷ s) e = rw e

keep-fixed : (c : ℕ) (s : Text) → keep c (rstrip s) ≡ c ∷ s → rstrip s ≡ s
unfolding keep
keep-fixed c s h = ground arith

rstrip-lstrip : (s : Text) → rstrip s ≡ s → rstrip (lstrip s) ≡ lstrip s
unfolding lstrip rstrip
rstrip-lstrip [] h = refl
rstrip-lstrip (c ∷ s) h = elim (Bool-cases (is_space c)) [
  | inl e ↦ rw e (rstrip-lstrip s (keep-fixed c s h))
  | inr e ↦ rw e h
]

rstrip-keep : (c : ℕ) (r : Text) → rstrip r ≡ r → rstrip (keep c r) ≡ keep c r
unfolding keep rstrip
rstrip-keep c [] h = elim (Bool-cases (is_space c)) [
  | inl e ↦ rw e
  | inr e ↦ rw (e, rstrip, keep, e)
]
rstrip-keep c (d ∷ r) h = rw h

rstrip_idem : (s : Text) → rstrip (rstrip s) ≡ rstrip s
unfolding rstrip
rstrip_idem [] = refl
rstrip_idem (c ∷ s) = rstrip-keep c (rstrip s) (rstrip_idem s)

lstrip_idem : (s : Text) → lstrip (lstrip s) ≡ lstrip s
unfolding lstrip
lstrip_idem [] = refl
lstrip_idem (c ∷ s) = elim (Bool-cases (is_space c)) [
  | inl e ↦ rw e (lstrip_idem s)
  | inr e ↦ rw (e, lstrip, e)
]

strip_idem : (s : Text) → strip (strip s) ≡ strip s
unfolding strip
strip_idem s = rw (rstrip-lstrip (rstrip s) (rstrip_idem s), lstrip_idem (rstrip s))

pub strip-lower : (s : Text) → strip (lower s) ≡ lower (strip s)
unfolding strip
strip-lower s = rw (rstrip-lower s, lstrip-lower (rstrip s))

-- A normalised address is its own normal form, so it does not matter how often an address is
-- normalised on its way to the database or the lookup.
pub normalize_email_idem : (s : Text) → normalize_email (normalize_email s) ≡ normalize_email s
unfolding normalize_email
normalize_email_idem s = rw (strip-lower (strip s), lower_idem (strip (strip s)), strip_idem s)
