-- ===== src/Migrations/Versions/Initial.antt =====
-- alembic/versions/0001_initial.py: accounts and their records.
use stock_quant_backend.Prelude.{true, false, none, some, List, [], ◌∷◌}
use stock_quant_backend.Prelude.Text.{codes}
use stock_quant_backend.Migrations.{
  uuid, text, primary_key, unique, foreign_key, create_pgcrypto, Operation, create_table,
  drop_table, create_index, drop_index, execute,
}
use stock_quant_backend.Migrations.Columns.{
  Revision, required, optional, id_column, now_column, price_column, text_or_empty,
}

abbrev pub upgrade_initial : List Operation
upgrade_initial =
    execute create_pgcrypto
    ∷ create_table (codes "users")
        (id_column
          ∷ required (codes "email") text none
          ∷ required (codes "password_hash") text none
          ∷ optional (codes "display_name") text
          ∷ now_column (codes "created_at")
          ∷ [])
        (primary_key (codes "id" ∷ []) ∷ unique none (codes "email" ∷ []) ∷ [])
    ∷ create_index
        (record { name = codes "ix_users_email"; columns = codes "email" ∷ []; is_unique = true })
        (codes "users")
    ∷ create_table (codes "records")
        (id_column
          ∷ required (codes "user_id") uuid none
          ∷ required (codes "market_code") text none
          ∷ required (codes "symbol") text none
          ∷ text_or_empty (codes "name")
          ∷ text_or_empty (codes "market")
          ∷ price_column (codes "target_price")
          ∷ price_column (codes "cost_price")
          ∷ price_column (codes "last_close")
          ∷ now_column (codes "updated_at")
          ∷ [])
        (foreign_key (codes "user_id" ∷ []) (codes "users") (codes "id" ∷ [])
          ∷ primary_key (codes "id" ∷ [])
          ∷ unique (some (codes "uq_records_user_market_symbol"))
              (codes "user_id" ∷ codes "market_code" ∷ codes "symbol" ∷ [])
          ∷ [])
    ∷ create_index
        (record {
          name = codes "ix_records_user_id";
          columns = codes "user_id" ∷ [];
          is_unique = false;
        })
        (codes "records")
    ∷ []

abbrev pub downgrade_initial : List Operation
downgrade_initial =
    drop_index (codes "ix_records_user_id") (codes "records")
    ∷ drop_table (codes "records")
    ∷ drop_index (codes "ix_users_email") (codes "users")
    ∷ drop_table (codes "users")
    ∷ []

abbrev pub rev_initial : Revision
rev_initial = record {
  revision = codes "0001_initial";
  down_revision = none;
  upgrade = upgrade_initial;
  downgrade = downgrade_initial;
}
