-- ===== src/BacktestApi/Parsing.antt =====
-- `_parse_horizons` on numbers that are written with commas between them.
use stock_quant_backend.Prelude.{
  ℕ, ◌≡◌, refl, ap, ◌∙◌, Bool, true, false, ◌||◌, not, Option, some, List, [], ◌∷◌, map, All, any,
  arith,
}
use stock_quant_backend.Prelude.Text.{Text, strip, lstrip, rstrip, keep, is_space}
use stock_quant_backend.Prelude.Split.{split, join, split-join, has_char}
use stock_quant_backend.Prelude.Distinct.{any-append_left}
use stock_quant_backend.RateLimit.Client.{is_blank}
use stock_quant_backend.Http.{ok}
use stock_quant_backend.Backtest.{ℤ}
use stock_quant_backend.BacktestApi.{
  parse_part, parse_parts, parse_stripped, some_values, parse_horizons,
}

-- Some character is no space.
abbrev inked : Text → Bool
inked = any (λ c. not (is_space c))

is_blank-lstrip : (s : Text) → is_blank (lstrip s) ≡ not (inked s)
unfolding lstrip
is_blank-lstrip [] = refl
is_blank-lstrip (c ∷ s) = ground (arith, is_blank-lstrip s)

inked-keep : (c : ℕ) (s : Text) → inked (keep c s) ≡ (not (is_space c) || inked s)
unfolding keep
inked-keep c [] = ground arith
inked-keep c (d ∷ s) = refl

inked-rstrip : (s : Text) → inked (rstrip s) ≡ inked s
unfolding rstrip
inked-rstrip [] = refl
inked-rstrip (c ∷ s) = ground (arith, inked-keep c (rstrip s), inked-rstrip s)

-- A text strips to nothing exactly when it is all spaces.
is_blank-strip : (s : Text) → is_blank (strip s) ≡ not (inked s)
unfolding strip
is_blank-strip s = is_blank-lstrip (rstrip s) ∙ ap not (inked-rstrip s)

inked_part : (s : Text) → strip s ≡ s → is_blank s ≡ false → inked s ≡ true
inked_part s tight full = ground (arith, is_blank-strip s, ap is_blank tight, full)

inked-join : (p : Text) (ps : List Text) → inked p ≡ true → inked (join 44 (p ∷ ps)) ≡ true
unfolding join
inked-join p [] h = h
inked-join p (q ∷ ps) h = any-append_left _ p (44 ∷ join 44 (q ∷ ps)) h

-- `int` and `str` of Python's integers, as far as the parser relies on them.
module _ (int : Text → Option ℤ) (str : ℤ → Text) (int-str : (n : ℤ) → int (str n) ≡ some n)
    (bare : (n : ℤ) → has_char 44 (str n) ≡ false) (tight : (n : ℤ) → strip (str n) ≡ str n)
    (full : (n : ℤ) → is_blank (str n) ≡ false) where
  parse_one :
      (n : ℤ) (ns : List ℤ) (s : Text)
      → int s ≡ some n
      → is_blank s ≡ false
      → parse_part int s (ok ns) ≡ ok (n ∷ ns)
  unfolding parse_part
  parse_one n ns [] e b = absurd (cc)
  parse_one n ns (c ∷ s) e b = rw (parse_part, e) refl

  parts_back : (ns : List ℤ) → parse_parts int (map str ns) ≡ ok ns
  unfolding parse_parts
  parts_back [] = refl
  parts_back (n ∷ ns) =
      ap (λ s. parse_part int s (parse_parts int (map str ns))) (tight n)
      ∙ ap (parse_part int (str n)) (parts_back ns)
      ∙ parse_one n ns (str n) (int-str n) (full n)

  All-bare : (ns : List ℤ) → All (λ q. has_char 44 q ≡ false) (map str ns)
  All-bare [] = tt
  All-bare (n ∷ ns) = (bare n, All-bare ns)

  not_blank :
      (raw s : Text)
      → is_blank s ≡ false
      → parse_stripped int raw s ≡ some_values int (parse_parts int (split 44 raw))
  not_blank raw [] h = absurd (cc)
  not_blank raw (c ∷ s) h = refl

  -- A list of one or more numbers, written with commas between them, parses to that list, in its
  -- order and with its repetitions, negative ones included: where `int` undoes `str`, and what
  -- `str` writes has no comma, is not empty, and begins and ends with no space.
  pub parse_horizons-join :
      (n : ℤ) (ns : List ℤ) → parse_horizons int (some (join 44 (map str (n ∷ ns)))) ≡ ok (n ∷ ns)
  unfolding parse_horizons
  parse_horizons-join n ns =
      let raw = join 44 (map str (n ∷ ns)) in
      let ink = inked-join (str n) (map str ns) (inked_part (str n) (tight n) (full n)) in
      not_blank raw (strip raw) (ground (arith, is_blank-strip raw, ink))
      ∙ ap (λ ps. some_values int (parse_parts int ps))
          (split-join 44 (str n) (map str ns) (All-bare (n ∷ ns)))
      ∙ ap (some_values int) (parts_back (n ∷ ns))
