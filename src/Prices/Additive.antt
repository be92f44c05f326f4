-- ===== src/Prices/Additive.antt =====
-- `upsert_daily_prices`: the counters add up, and what a payload does not name stays.
use stock_quant_backend.Prelude.{
  ℕ, ◌+◌, ◌≡◌, refl, ap, sym, ◌∙◌, Bool, true, false, ◌&&◌, not, none, some, List, [], ◌∷◌, ◌++◌,
  map, if◌then◌else◌, any, count, length, arith, Option-cases, inl, inr, ◌==◌,
}
use stock_quant_backend.Prelude.Text.{Text, text_eq}
use stock_quant_backend.Prelude.Rows.{find-append}
use stock_quant_backend.Prices.{
  DailyPrice, DailyPriceIn, DailyPricesIngestBody, DailyPricesIngestResult, at_key, find_price,
  fill_bar, new_bar, Progress, upsert_item, upsert_items, started, upsert_daily_prices,
  ingest_prices,
}

-- An item with a close.
abbrev pub has_close : {F : Type 0} → DailyPriceIn F → Bool
has_close item = elim item.close [ none ↦ false | some _ ↦ true ]

-- Whether a payload sets the close of a day and symbol.
abbrev pub names_bar : {F : Type 0} → ℕ → List (DailyPriceIn F) → ℕ → Text → Bool
names_bar day items day' s =
    day == day' && any (λ item. has_close item && text_eq item.symbol s) items

count-not :
    {A : Type 0} (q : A → Bool) (xs : List A) → count q xs + count (λ x. not (q x)) xs ≡ length xs
count-not q [] = refl
count-not q (x ∷ xs) = ground (arith, count-not q xs)

find_nothing : {D : Type 0} (day : ℕ) (s : Text) → find_price {D = D} day s [] ≡ none
unfolding find_price
find_nothing day s = refl

module _ {F D : Type 0} (to_decimal : F → D) where
  counted :
      (day : ℕ) (items : List (DailyPriceIn F)) (p : Progress to_decimal)
      → (upsert_items to_decimal day items p).inserted
          + (upsert_items to_decimal day items p).updated
        ≡ p.inserted + p.updated + count has_close items
  unfolding upsert_items upsert_item
  counted day [] p = omega arith
  counted day (item ∷ items) p =
      let ih = counted day items (upsert_item to_decimal day item p) in
      elim (Option-cases item.close) [ inl e ↦ ground arith | inr (c, e) ↦ ground arith ]

  find-fill :
      (day : ℕ) (item : DailyPriceIn F) (c : F) (day' : ℕ) (s : Text) (rows : List (DailyPrice D))
      → (day == day' && text_eq item.symbol s) ≡ false
      → find_price day' s
          (map (λ r. if at_key day item.symbol r then fill_bar to_decimal item c r else r) rows)
        ≡ find_price day' s rows
  unfolding find_price
  find-fill day item c day' s [] e = refl
  find-fill day item c day' s (r ∷ rows) e = ground (arith, find-fill day item c day' s rows e)

  find-new :
      (day : ℕ) (item : DailyPriceIn F) (c : F) (day' : ℕ) (s : Text) (rows : List (DailyPrice D))
      → (day == day' && text_eq item.symbol s) ≡ false
      → find_price day' s (rows ++ new_bar to_decimal day item c ∷ []) ≡ find_price day' s rows
  unfolding find_price
  find-new day item c day' s [] e = ground arith
  find-new day item c day' s (r ∷ rows) e = ground (arith, find-new day item c day' s rows e)

  item_unnamed :
      (day : ℕ) (item : DailyPriceIn F) (p : Progress to_decimal) (day' : ℕ) (s : Text)
      → (day == day' && (has_close item && text_eq item.symbol s)) ≡ false
      → (find_price day' s (upsert_item to_decimal day item p).stored ≡ find_price day' s p.stored)
        × (find_price day' s (upsert_item to_decimal day item p).added ≡ find_price day' s p.added)
  unfolding upsert_item
  item_unnamed day item p day' s e = elim (Option-cases item.close) [
    | inl n ↦ ground arith
    | inr (c, n) ↦
        let apart : (day == day' && text_eq item.symbol s) ≡ false = ground arith in
        let kept = find-fill day item c day' s p.stored apart in
        let new = find-new day item c day' s p.added apart in ground arith
  ]

  -- A row of the table that is not named is found as before, and no row under such a key is added.
  unnamed :
      (day : ℕ) (items : List (DailyPriceIn F)) (p : Progress to_decimal) (day' : ℕ) (s : Text)
      → names_bar day items day' s ≡ false
      → (find_price day' s (upsert_items to_decimal day items p).stored
          ≡ find_price day' s p.stored)
        × (find_price day' s (upsert_items to_decimal day items p).added
            ≡ find_price day' s p.added)
  unfolding upsert_items
  unnamed day [] p day' s e = (refl, refl)
  unnamed day (item ∷ items) p day' s e =
      let ih = unnamed day items (upsert_item to_decimal day item p) day' s (ground arith) in
      let one = item_unnamed day item p day' s (ground arith) in (ih.0 ∙ one.0, ih.1 ∙ one.1)

  -- An upload that is stored changes no row but those of its own day whose symbol it gives with a
  -- close: every other day and symbol finds the row that it found, or still none.
  pub upsert_daily_prices_keeps :
      (body : DailyPricesIngestBody F) (rows rows' : List (DailyPrice D)) (inserted updated day : ℕ)
      (s : Text)
      → upsert_daily_prices to_decimal body rows ≡ some (inserted, updated, rows')
      → names_bar body.trade_date body.items day s ≡ false
      → find_price day s rows' ≡ find_price day s rows
  unfolding upsert_daily_prices find_price
  upsert_daily_prices_keeps body rows rows' inserted updated day s h e =
      let p = upsert_items to_decimal body.trade_date body.items (started to_decimal rows) in
      let (same, new) = unnamed body.trade_date body.items (started to_decimal rows) day s e in
      let after : p.stored ++ p.added ≡ rows' = ground arith in
      let split = find-append (at_key day s) p.stored p.added in
      let nothing = find_nothing {D = D} day s in
      ap (find_price day s) (sym after) ∙ split ∙ elim (Option-cases (find_price day s rows)) [
        | inl m ↦ ground arith
        | inr (r, m) ↦ ground arith
      ]

  -- The counters of an upload that is stored: every item is inserted, updated or skipped, and what
  -- is skipped are the items without a close.
  pub ingest_prices_counts :
      (body : DailyPricesIngestBody F) (rows rows' : List (DailyPrice D))
      (result : DailyPricesIngestResult)
      → ingest_prices to_decimal body rows ≡ some (result, rows')
      → (result.received ≡ result.inserted + result.updated + result.skipped)
        × (result.skipped ≡ count (λ item. not (has_close item)) body.items)
  unfolding ingest_prices upsert_daily_prices
  ingest_prices_counts body rows rows' result h = ground (
    arith,
    counted body.trade_date body.items (started to_decimal rows),
    count-not has_close body.items,
  )
