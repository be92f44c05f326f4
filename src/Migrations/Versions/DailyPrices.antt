-- ===== src/Migrations/Versions/DailyPrices.antt =====
-- alembic/versions/0004_daily_prices.py: the daily prices.
use stock_quant_backend.Prelude.{false, none, some, List, [], ◌∷◌}
use stock_quant_backend.Prelude.Text.{codes}
use stock_quant_backend.Migrations.{
  date, big_integer, string, numeric, primary_key, Operation, create_table, drop_table,
  create_index, drop_index,
}
use stock_quant_backend.Migrations.Columns.{
  Revision, required, optional, now_column, price_column, text_or_empty,
}

abbrev pub upgrade_daily_prices : List Operation
upgrade_daily_prices =
    create_table (codes "daily_prices")
      (required (codes "trade_date") date none
        ∷ required (codes "symbol") (string 16) none
        ∷ text_or_empty (codes "name")
        ∷ text_or_empty (codes "market_code")
        ∷ price_column (codes "open")
        ∷ price_column (codes "high")
        ∷ price_column (codes "low")
        ∷ required (codes "close") (numeric 12 4) none
        ∷ optional (codes "volume") big_integer
        ∷ now_column (codes "created_at")
        ∷ [])
      (primary_key (codes "trade_date" ∷ codes "symbol" ∷ []) ∷ [])
    ∷ create_index
        (record {
          name = codes "ix_daily_prices_symbol";
          columns = codes "symbol" ∷ [];
          is_unique = false;
        })
        (codes "daily_prices")
    ∷ []

abbrev pub downgrade_daily_prices : List Operation
downgrade_daily_prices =
    drop_index (codes "ix_daily_prices_symbol") (codes "daily_prices")
    ∷ drop_table (codes "daily_prices")
    ∷ []

abbrev pub rev_daily_prices : Revision
rev_daily_prices = record {
  revision = codes "0004_daily_prices";
  down_revision = some (codes "0003_email_tokens");
  upgrade = upgrade_daily_prices;
  downgrade = downgrade_daily_prices;
}
