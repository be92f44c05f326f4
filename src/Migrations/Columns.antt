-- ===== src/Migrations/Columns.antt =====
-- What the revisions share: a revision as a record, and the kinds of columns that they declare.
use stock_quant_backend.Prelude.{true, false, Option, none, some, List, []}
use stock_quant_backend.Prelude.Text.{Text, codes}
use stock_quant_backend.Migrations.{
  ColumnType, uuid, text, timestamp, numeric, ServerDefault, expression, literal, Column, Operation,
}

pub record Revision : Type 0 where
  pub revision : Text
  pub down_revision : Option Text
  pub upgrade : List Operation
  pub downgrade : List Operation

-- `sa.Column(…, nullable=False)`, and with `nullable=True`.
abbrev pub required : Text → ColumnType → Option ServerDefault → Column
required n kind given = record { name = n; kind = kind; server_default = given; nullable = false }

abbrev pub optional : Text → ColumnType → Column
optional n kind = record { name = n; kind = kind; server_default = none; nullable = true }

-- The id that the database draws, and the time of the insertion.
abbrev pub id_column : Column
id_column = required (codes "id") uuid (some (expression (codes "gen_random_uuid()")))

abbrev pub now_column : Text → Column
now_column n = required n timestamp (some (expression (codes "now()")))

-- Prices: `sa.Numeric(12, 4), nullable=True`.
abbrev pub price_column : Text → Column
price_column n = optional n (numeric 12 4)

-- `sa.Text(), server_default="", nullable=False`
abbrev pub text_or_empty : Text → Column
text_or_empty n = required n text (some (literal []))
