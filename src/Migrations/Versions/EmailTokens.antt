-- ===== src/Migrations/Versions/EmailTokens.antt =====
-- alembic/versions/0003_email_verification_and_reset.py: mail tokens, and three columns of the accounts.
use stock_quant_backend.Prelude.{true, false, none, some, List, [], ◌∷◌}
use stock_quant_backend.Prelude.Text.{codes}
use stock_quant_backend.Migrations.{
  uuid, text, integer, timestamp, string, expression, primary_key, foreign_key,
  seed_password_changed_at, lower_emails, Operation, create_table, drop_table, create_index,
  drop_index, add_column, drop_column, set_not_null, execute,
}
use stock_quant_backend.Migrations.Columns.{Revision, required, optional, id_column, now_column}

abbrev pub upgrade_email_tokens : List Operation
upgrade_email_tokens =
    add_column (codes "users") (optional (codes "email_verified_at") timestamp)
    ∷ add_column (codes "users") (
        (record {
          name = codes "password_changed_at";
          kind = timestamp;
          server_default = (some (expression (codes "now()")));
          nullable = true;
        }))
    ∷ execute seed_password_changed_at
    ∷ set_not_null (codes "users") (codes "password_changed_at")
    ∷ add_column (codes "users")
        (required (codes "token_version") integer (some (expression (codes "0"))))
    ∷ execute lower_emails
    ∷ create_table (codes "email_tokens")
        (id_column
          ∷ required (codes "user_id") uuid none
          ∷ required (codes "purpose") text none
          ∷ required (codes "token_hash") (string 64) none
          ∷ required (codes "expires_at") timestamp none
          ∷ optional (codes "used_at") timestamp
          ∷ now_column (codes "created_at")
          ∷ [])
        (foreign_key (codes "user_id" ∷ []) (codes "users") (codes "id" ∷ [])
          ∷ primary_key (codes "id" ∷ [])
          ∷ [])
    ∷ create_index
        (record {
          name = codes "ix_email_tokens_token_hash";
          columns = codes "token_hash" ∷ [];
          is_unique = true;
        })
        (codes "email_tokens")
    ∷ create_index
        (record {
          name = codes "ix_email_tokens_user_id";
          columns = codes "user_id" ∷ [];
          is_unique = false;
        })
        (codes "email_tokens")
    ∷ []

abbrev pub downgrade_email_tokens : List Operation
downgrade_email_tokens =
    drop_index (codes "ix_email_tokens_user_id") (codes "email_tokens")
    ∷ drop_index (codes "ix_email_tokens_token_hash") (codes "email_tokens")
    ∷ drop_table (codes "email_tokens")
    ∷ drop_column (codes "users") (codes "token_version")
    ∷ drop_column (codes "users") (codes "password_changed_at")
    ∷ drop_column (codes "users") (codes "email_verified_at")
    ∷ []

abbrev pub rev_email_tokens : Revision
rev_email_tokens = record {
  revision = codes "0003_email_tokens";
  down_revision = some (codes "0002_screen_snapshots");
  upgrade = upgrade_email_tokens;
  downgrade = downgrade_email_tokens;
}
