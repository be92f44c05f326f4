-- ===== src/Migrations/Versions/BranchTrades.antt =====
-- alembic/versions/0005_branch_trades.py: the trades of branches.
use stock_quant_backend.Prelude.{false, none, some, List, [], ◌∷◌}
use stock_quant_backend.Prelude.Text.{codes}
use stock_quant_backend.Migrations.{
  date, big_integer, string, literal, primary_key, unique, Operation, create_table, drop_table,
  create_index, drop_index,
}
use stock_quant_backend.Migrations.Columns.{Revision, required, optional, now_column, text_or_empty}

abbrev pub upgrade_branch_trades : List Operation
upgrade_branch_trades =
    create_table (codes "branch_trades")
      (required (codes "trade_date") date none
        ∷ required (codes "branch_code") (string 16) none
        ∷ required (codes "symbol") (string 16) none
        ∷ text_or_empty (codes "branch_name")
        ∷ text_or_empty (codes "stock_name")
        ∷ required (codes "buy_amount") big_integer (some (literal (codes "0")))
        ∷ required (codes "sell_amount") big_integer (some (literal (codes "0")))
        ∷ required (codes "net_amount") big_integer (some (literal (codes "0")))
        ∷ optional (codes "inventory_cost") big_integer
        ∷ optional (codes "inventory_value") big_integer
        ∷ now_column (codes "fetched_at")
        ∷ [])
      (primary_key (codes "trade_date" ∷ codes "branch_code" ∷ codes "symbol" ∷ [])
        ∷ unique (some (codes "uq_branch_trade"))
            (codes "trade_date" ∷ codes "branch_code" ∷ codes "symbol" ∷ [])
        ∷ [])
    ∷ create_index
        (record {
          name = codes "ix_branch_trades_symbol";
          columns = codes "symbol" ∷ [];
          is_unique = false;
        })
        (codes "branch_trades")
    ∷ []

abbrev pub downgrade_branch_trades : List Operation
downgrade_branch_trades =
    drop_index (codes "ix_branch_trades_symbol") (codes "branch_trades")
    ∷ drop_table (codes "branch_trades")
    ∷ []

abbrev pub rev_branch_trades : Revision
rev_branch_trades = record {
  revision = codes "0005_branch_trades";
  down_revision = some (codes "0004_daily_prices");
  upgrade = upgrade_branch_trades;
  downgrade = downgrade_branch_trades;
}
