-- ===== src/Migrations/Versions/ScreenSnapshots.antt =====
-- alembic/versions/0002_screen_snapshots.py: the screening snapshots and their items.
use stock_quant_backend.Prelude.{false, none, some, List, [], ◌∷◌}
use stock_quant_backend.Prelude.Text.{codes}
use stock_quant_backend.Migrations.{
  uuid, text, date, integer, big_integer, boolean, timestamp, numeric, expression, literal,
  primary_key, unique, foreign_key, Operation, create_table, drop_table, create_index, drop_index,
}
use stock_quant_backend.Migrations.Columns.{
  Revision, required, optional, id_column, now_column, price_column, text_or_empty,
}

abbrev pub upgrade_screen_snapshots : List Operation
upgrade_screen_snapshots =
    create_table (codes "screen_snapshots")
      (id_column
        ∷ required (codes "trade_date") date none
        ∷ required (codes "session") text none
        ∷ required (codes "generated_at") timestamp none
        ∷ text_or_empty (codes "source")
        ∷ required (codes "universe") integer (some (literal (codes "0")))
        ∷ required (codes "quotable") integer (some (literal (codes "0")))
        ∷ required (codes "pool_size") integer (some (literal (codes "0")))
        ∷ required (codes "item_count") integer (some (literal (codes "0")))
        ∷ optional (codes "warning") text
        ∷ now_column (codes "created_at")
        ∷ [])
      (primary_key (codes "id" ∷ [])
        ∷ unique (some (codes "uq_snapshot_date_session"))
            (codes "trade_date" ∷ codes "session" ∷ [])
        ∷ [])
    ∷ create_index
        (record {
          name = codes "ix_screen_snapshots_trade_date";
          columns = codes "trade_date" ∷ [];
          is_unique = false;
        })
        (codes "screen_snapshots")
    ∷ create_table (codes "screen_snapshot_items")
        (id_column
          ∷ required (codes "snapshot_id") uuid none
          ∷ required (codes "rank") integer (some (literal (codes "0")))
          ∷ required (codes "symbol") text none
          ∷ text_or_empty (codes "name")
          ∷ text_or_empty (codes "market")
          ∷ text_or_empty (codes "market_code")
          ∷ price_column (codes "close")
          ∷ price_column (codes "prev_close")
          ∷ price_column (codes "change")
          ∷ price_column (codes "change_pct")
          ∷ optional (codes "volume") big_integer
          ∷ optional (codes "lots") (numeric 16 2)
          ∷ price_column (codes "open")
          ∷ price_column (codes "high")
          ∷ price_column (codes "low")
          ∷ price_column (codes "prev_high")
          ∷ price_column (codes "vol_ratio")
          ∷ price_column (codes "ma5")
          ∷ price_column (codes "ma20")
          ∷ required (codes "ma20_up") boolean (some (expression (codes "false")))
          ∷ [])
        (foreign_key (codes "snapshot_id" ∷ []) (codes "screen_snapshots") (codes "id" ∷ [])
          ∷ primary_key (codes "id" ∷ [])
          ∷ [])
    ∷ create_index
        (record {
          name = codes "ix_screen_snapshot_items_snapshot_id";
          columns = codes "snapshot_id" ∷ [];
          is_unique = false;
        })
        (codes "screen_snapshot_items")
    ∷ []

abbrev pub downgrade_screen_snapshots : List Operation
downgrade_screen_snapshots =
    drop_index (codes "ix_screen_snapshot_items_snapshot_id") (codes "screen_snapshot_items")
    ∷ drop_table (codes "screen_snapshot_items")
    ∷ drop_index (codes "ix_screen_snapshots_trade_date") (codes "screen_snapshots")
    ∷ drop_table (codes "screen_snapshots")
    ∷ []

abbrev pub rev_screen_snapshots : Revision
rev_screen_snapshots = record {
  revision = codes "0002_screen_snapshots";
  down_revision = some (codes "0001_initial");
  upgrade = upgrade_screen_snapshots;
  downgrade = downgrade_screen_snapshots;
}
