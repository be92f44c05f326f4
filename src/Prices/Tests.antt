-- ===== src/Prices/Tests.antt =====
-- Examples of the price table: two days of one stock, and a payload for the second day.
use stock_quant_backend.Prelude.{
  ℕ, ◌*◌, ◌≤◌, ◌<◌, ◌≡◌, refl, arith, Option, none, some, List, [], ◌∷◌, if◌then◌else◌, any, map,
  count, ◌==◌, ℕ_discrete,
}
use stock_quant_backend.Prelude.Text.{Text, text_dec}
use stock_quant_backend.Prices.{
  DailyPrice, DailyPriceIn, DailyPricesIngestBody, DailyPricesIngestResult, find_price, load_chunks,
  load_close_prices, upsert_daily_prices, ingest_prices, list_price_trading_days, upsert_items,
  upsert_item, has_duplicate,
}
use stock_quant_backend.Prices.Chunks.{Turns, load_chunks-Turns}
use stock_quant_backend.Prices.Loading.{load_close_prices_lem, IsTable, is_wanted, close_or}
use stock_quant_backend.Prices.Additive.{upsert_daily_prices_keeps}
use stock_quant_backend.Prices.Calendar.{Ascends, list_price_trading_days_lem}

-- Prices as numbers of cents.
abbrev cents : ℕ → ℕ
cents x = x

abbrev tsmc : Text
tsmc = 50 ∷ 51 ∷ []

abbrev bar : ℕ → ℕ → DailyPrice ℕ
bar day close = record {
  trade_date = day;
  symbol = tsmc;
  name = [];
  market_code = [];
  open_price = none;
  high = none;
  low = none;
  close = close;
  volume = none;
}

abbrev table : List (DailyPrice ℕ)
table = bar 10 500 ∷ bar 12 510 ∷ []

abbrev wanted : List (ℕ × List Text)
wanted = (10, tsmc ∷ []) ∷ (11, tsmc ∷ []) ∷ []

table-IsTable : IsTable cents table
table-IsTable = ((refl, tt), (tt, tt))

load_close_prices_example :
    load_close_prices cents wanted table tsmc 10
    ≡ (if is_wanted wanted tsmc 10 then close_or cents (find_price 10 tsmc table) none else none)
load_close_prices_example = load_close_prices_lem cents wanted table tsmc 10 refl table-IsTable

abbrev item : Text → Option ℕ → DailyPriceIn ℕ
item symbol close = record {
  symbol = symbol;
  name = [];
  market_code = [];
  open_price = none;
  high = none;
  low = none;
  close = close;
  volume = none;
}

-- An update, a new row, and an item without a close.
abbrev payload : DailyPricesIngestBody ℕ
payload = record {
  trade_date = 12;
  items = item tsmc (some 520) ∷ item (54 ∷ []) (some 30) ∷ item (55 ∷ []) none ∷ [];
}

abbrev after : List (DailyPrice ℕ)
after = bar 10 500 ∷ bar 12 520 ∷ (record (bar 12 30) { symbol = 54 ∷ [] }) ∷ []

abbrev outcome : DailyPricesIngestResult
outcome = record { trade_date = 12; received = 3; inserted = 1; updated = 1; skipped = 1 }

upserts : upsert_daily_prices cents payload table ≡ some (1, 1, after)
unfolding upsert_daily_prices upsert_items upsert_item has_duplicate text_dec ℕ_discrete
upserts = refl

upsert_daily_prices_keeps_example : find_price 10 tsmc after ≡ find_price 10 tsmc table
upsert_daily_prices_keeps_example =
    upsert_daily_prices_keeps cents payload table after 1 1 10 tsmc upserts refl

ingests : ingest_prices cents payload table ≡ some (outcome, after)
unfolding ingest_prices upsert_daily_prices upsert_items upsert_item has_duplicate text_dec
    ℕ_discrete
ingests = refl

list_price_trading_days_example :
    Ascends (list_price_trading_days table)
    × ((d : ℕ)
        → count (λ x. x == d) (list_price_trading_days table)
          ≡ (if any (λ x. x == d) (map (λ r. r.trade_date) table) then 1 else 0))
list_price_trading_days_example = list_price_trading_days_lem table

-- Three symbols in chunks of two.
load_chunks-Turns_example :
    (k : ℕ) × Turns
      (λ x. x)
      2
      10
      table
      k
      (tsmc ∷ tsmc ∷ tsmc ∷ [])
      (λ s day. none)
      (load_chunks (λ x. x) 3 2 10 (tsmc ∷ tsmc ∷ tsmc ∷ []) table (λ s day. none))
    × (k ≤ 3)
    × (3 ≤ k * 2)
    × (k * 2 < 5)
load_chunks-Turns_example =
    load_chunks-Turns (λ x. x) 2 10 table 3 (tsmc ∷ tsmc ∷ tsmc ∷ []) (λ s day. none) (omega arith)
      (omega arith)
