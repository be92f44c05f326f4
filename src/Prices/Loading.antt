-- ===== src/Prices/Loading.antt =====
-- `load_close_prices` fetches day by day and in chunks; it answers as if each wanted pair were
-- looked up in the table.
use stock_quant_backend.Prelude.{
  ℕ, suc, zero, ◌≤◌, ◌<◌, ◌≡◌, refl, ap, ◌∙◌, Bool, true, false, ◌&&◌, ◌||◌, not, Option, none,
  some, List, [], ◌∷◌, if◌then◌else◌, All, any, select, take, drop, length, arith, Bool-cases, inl,
  inr, ◌==◌,
}
use stock_quant_backend.Prelude.Text.{Text, text_eq, text_leb}
use stock_quant_backend.Prelude.Distinct.{Distinct, Distinct-select}
use stock_quant_backend.Prelude.Order.{sort_by, insert_by}
use stock_quant_backend.Prices.{
  DailyPrice, at_key, find_price, CloseMap, store_closes, close_query, load_chunks, unique_symbols,
  load_days, load_close_prices, symbol_chunk,
}

abbrev pub member : List Text → Text → Bool
member symbols s = any (λ t. text_eq t s) symbols

any-insert_by :
    (le : Text → Text → Bool) (p : Text → Bool) (x : Text) (xs : List Text)
    → any p (insert_by le x xs) ≡ (p x || any p xs)
unfolding insert_by
any-insert_by le p x [] = ground arith
any-insert_by le p x (y ∷ ys) = ground (arith, any-insert_by le p x ys)

any-sort_by :
    (le : Text → Text → Bool) (p : Text → Bool) (xs : List Text) → any p (sort_by le xs) ≡ any p xs
unfolding sort_by
any-sort_by le p [] = refl
any-sort_by le p (x ∷ xs) =
    ground (arith, any-insert_by le p x (sort_by le xs), any-sort_by le p xs)

member-select_ne :
    (s t : Text) (xs : List Text)
    → member (select (λ x. not (text_eq x t)) xs) s ≡ (if text_eq t s then false else member xs s)
member-select_ne s t [] = ground arith
member-select_ne s t (x ∷ xs) = ground (arith, member-select_ne s t xs)

abbrev pub is_named : Text → Bool
is_named [] = false
is_named (c ∷ s) = true

member-unique_symbols :
    (s : Text) (xs : List Text) → member (unique_symbols xs) s ≡ (is_named s && member xs s)
unfolding unique_symbols
member-unique_symbols [] [] = refl
member-unique_symbols (c ∷ s) [] = refl
member-unique_symbols [] ([] ∷ xs) = member-unique_symbols [] xs
member-unique_symbols (c ∷ s) ([] ∷ xs) = ground (arith, member-unique_symbols (c ∷ s) xs)
member-unique_symbols [] ((d ∷ t) ∷ xs) =
    ground (arith, member-select_ne [] (d ∷ t) (unique_symbols xs), member-unique_symbols [] xs)
member-unique_symbols (c ∷ s) ((d ∷ t) ∷ xs) =
    ground (
      arith,
      member-select_ne (c ∷ s) (d ∷ t) (unique_symbols xs),
      member-unique_symbols (c ∷ s) xs,
    )

any-take-drop :
    (p : Text → Bool) (n : ℕ) (xs : List Text) → any p xs ≡ (any p (take n xs) || any p (drop n xs))
any-take-drop p zero xs = refl
any-take-drop p (suc n) [] = refl
any-take-drop p (suc n) (x ∷ xs) = ground (arith, any-take-drop p n xs)

length-drop-le : (n : ℕ) (xs : List Text) → length (drop n xs) ≤ length xs
length-drop-le zero xs = omega arith
length-drop-le (suc n) [] = omega arith
length-drop-le (suc n) (x ∷ xs) = omega (arith, length-drop-le n xs)

-- Days and their symbols, as `wanted` maps them.
abbrev pub is_wanted : List (ℕ × List Text) → Text → ℕ → Bool
is_wanted [] s day = false
is_wanted ((d, symbols) ∷ wanted) s day = (day == d && member symbols s) || is_wanted wanted s day

module _ {F D : Type 0} (to_float : D → F) where
  abbrev same_bar : DailyPrice D → DailyPrice D → Bool
  same_bar r s = at_key s.trade_date s.symbol r

  -- The primary key is unique.
  abbrev pub IsTable : List (DailyPrice D) → Type 0
  IsTable rows = Distinct same_bar rows

  -- A stored close, or what was known before.
  abbrev pub close_or : Option (DailyPrice D) → Option F → Option F
  close_or none o = o
  close_or (some r) o = some (to_float r.close)

  only_bar :
      (day : ℕ) (s : Text) (r : DailyPrice D) (rows : List (DailyPrice D))
      → at_key day s r ≡ true
      → All (λ x. same_bar r x ≡ false) rows
      → find_price day s rows ≡ none
  unfolding find_price
  only_bar day s r [] h d = refl
  only_bar day s r (x ∷ rows) h d =
      let ih = only_bar day s r rows h d.1 in let far = d.0 in ground arith

  lookup-store_closes :
      (rows : List (DailyPrice D)) (out : CloseMap F) (s : Text) (day : ℕ)
      → IsTable rows
      → store_closes to_float rows out s day ≡ close_or (find_price day s rows) (out s day)
  unfolding store_closes find_price
  lookup-store_closes [] out s day h = refl
  lookup-store_closes (r ∷ rows) out s day h =
      let out' : CloseMap F = λ symbol day'.
        if r.trade_date == day' && text_eq r.symbol symbol
        then some (to_float r.close)
        else out symbol day' in
      let ih = lookup-store_closes rows out' s day h.1 in
      elim (Bool-cases (at_key day s r)) [
        | inl y ↦ let alone = only_bar day s r rows y h.0 in ih ∙ rw (alone, y)
        | inr n ↦ ih ∙ rw n
      ]

  find-close_query :
      (day : ℕ) (chunk : List Text) (s : Text) (day' : ℕ) (rows : List (DailyPrice D))
      → find_price day' s (close_query day chunk rows)
        ≡ (if day' == day && member chunk s then find_price day' s rows else none)
  unfolding find_price
  find-close_query day chunk s day' [] = ground arith
  find-close_query day chunk s day' (r ∷ rows) =
      let ih = find-close_query day chunk s day' rows in
      elim (Bool-cases (at_key day' s r)) [
        | inl y ↦
            let e : r.symbol ≡ s = ground arith in
            let m : member chunk r.symbol ≡ member chunk s = ap (member chunk) e in ground arith
        | inr n ↦ ground arith
      ]

  close_query-IsTable :
      (day : ℕ) (chunk : List Text) (rows : List (DailyPrice D))
      → IsTable rows
      → IsTable (close_query day chunk rows)
  close_query-IsTable day chunk rows h = Distinct-select same_bar _ rows h

  combine :
      (f : Option (DailyPrice D)) (o : Option F) (b c r a : Bool) (f' : Option (DailyPrice D))
      (o' : Option F) {x : Option F}
      → x ≡ (if b && r then close_or f o' else o')
      → o' ≡ close_or f' o
      → f' ≡ (if b && c then f else none)
      → a ≡ (c || r)
      → x ≡ (if b && a then close_or f o else o)
  combine none o b c r a f' o' e e1 e2 e3 = ground arith
  combine (some p) o b c r a f' o' e e1 e2 e3 = ground arith

  -- What is wanted of a day, in chunks of any size.
  lookup-load_chunks :
      (fuel size day : ℕ) (symbols : List Text) (rows : List (DailyPrice D)) (out : CloseMap F)
      (s : Text) (day' : ℕ)
      → 0 < size
      → length symbols ≤ fuel
      → IsTable rows
      → load_chunks to_float fuel size day symbols rows out s day' ≡ (
          if day' == day && member symbols s
          then close_or (find_price day' s rows) (out s day')
          else out s day')
  unfolding load_chunks
  lookup-load_chunks zero size day [] rows out s day' pos fits h = ground arith
  lookup-load_chunks zero size day (x ∷ symbols) rows out s day' pos fits h = absurd (omega arith)
  lookup-load_chunks (suc fuel) size day [] rows out s day' pos fits h = ground arith
  lookup-load_chunks (suc fuel) zero day (x ∷ symbols) rows out s day' pos fits h =
      absurd (omega arith)
  lookup-load_chunks (suc fuel) (suc n) day (x ∷ symbols) rows out s day' pos fits h =
      let all = x ∷ symbols in
      let rest = drop n symbols in
      let chunk = take (suc n) all in
      let query = close_query day chunk rows in
      let out' = store_closes to_float query out in
      let shorter : length rest ≤ fuel = omega (arith, length-drop-le n symbols) in
      let ih = lookup-load_chunks fuel (suc n) day rest rows out' s day' pos shorter h in
      let here = lookup-store_closes query out s day' (close_query-IsTable day chunk rows h) in
      let found = find-close_query day chunk s day' rows in
      let parts = any-take-drop (λ t. text_eq t s) (suc n) all in
      combine (find_price day' s rows) (out s day') (day' == day) (member chunk s) (member rest s)
        (member all s) _ _ ih here found parts

  twice :
      (f : Option (DailyPrice D)) (o : Option F) (w v : Bool) (o' : Option F)
      → o' ≡ (if w then close_or f o else o)
      → (if v then close_or f o' else o') ≡ (if w || v then close_or f o else o)
  twice none o w v o' e = ground arith
  twice (some p) o w v o' e = ground arith

  named :
      (b n m : Bool) (x y : Option F)
      → n ≡ true
      → (if b && (n && m) then x else y) ≡ (if b && m then x else y)
  named b n m x y e = ground arith

  lookup-load_days :
      (size : ℕ) (wanted : List (ℕ × List Text)) (rows : List (DailyPrice D)) (out : CloseMap F)
      (s : Text) (day : ℕ)
      → 0 < size
      → is_named s ≡ true
      → IsTable rows
      → load_days to_float size wanted rows out s day ≡ (
          if is_wanted wanted s day
          then close_or (find_price day s rows) (out s day)
          else out s day)
  unfolding load_days
  lookup-load_days size [] rows out s day pos n h = refl
  lookup-load_days size ((d, symbols) ∷ wanted) rows out s day pos n h =
      let unique = sort_by text_leb (unique_symbols symbols) in
      let out' = load_chunks to_float (length unique) size d unique rows out in
      let members : member unique s ≡ (is_named s && member symbols s) =
        any-sort_by text_leb (λ t. text_eq t s) (unique_symbols symbols)
        ∙ member-unique_symbols s symbols in
      let f = find_price day s rows in
      let step : out' s day
          ≡ (if day == d && member symbols s then close_or f (out s day) else out s day) =
        lookup-load_chunks (length unique) size d unique rows out s day pos (omega arith) h
        ∙ ap (λ m. if day == d && m then close_or f (out s day) else out s day) members
        ∙ named (day == d) (is_named s) (member symbols s) _ _ n in
      lookup-load_days size wanted rows out' s day pos n h
      ∙ twice f (out s day) (day == d && member symbols s) (is_wanted wanted s day) (out' s day)
          step

  -- On a table with one row for each day and symbol, for a symbol that is not the empty string: the
  -- dictionary holds exactly the pairs that were asked for and have a row, each with that row's
  -- close, however the days and chunks fall.
  pub load_close_prices_lem :
      (wanted : List (ℕ × List Text)) (rows : List (DailyPrice D)) (s : Text) (day : ℕ)
      → is_named s ≡ true
      → IsTable rows
      → load_close_prices to_float wanted rows s day
        ≡ (if is_wanted wanted s day then close_or (find_price day s rows) none else none)
  unfolding load_close_prices
  load_close_prices_lem wanted rows s day n h =
      lookup-load_days symbol_chunk wanted rows (λ _ _. none) s day (omega arith) n h
