-- ===== src/Migrations.antt =====
-- The schema migrations (alembic/versions/): the tables of a database as data, the operations of
-- Alembic's `op` that the revisions call, and what PostgreSQL documents that the statement of each
-- does to the schema. `none` is an error of the database, such as a table that is there already.
-- The names of constraints are not checked for clashes.
pub mod Columns
pub mod Versions
pub mod Frame
pub mod Backfill
pub mod Database
pub mod Roundtrip
mod Tests
use stock_quant_backend.Prelude.{
  ℕ, Bool, true, false, ◌&&◌, ◌||◌, not, Option, none, some, List, [], ◌∷◌, ◌++◌, map, any, select,
  if◌then◌else◌,
}
use stock_quant_backend.Prelude.Text.{Text, text_eq}

pub data ColumnType : Type 0 where
  uuid text date integer big_integer boolean timestamp : ColumnType
  string : ℕ → ColumnType
  numeric : ℕ → ℕ → ColumnType

-- `sa.text(…)`, or a plain string.
pub data ServerDefault : Type 0 where
  expression literal : Text → ServerDefault

pub record Column : Type 0 where
  pub name : Text
  pub kind : ColumnType
  pub server_default : Option ServerDefault
  pub nullable : Bool

pub data Constraint : Type 0 where
  primary_key : List Text → Constraint
  unique : Option Text → List Text → Constraint
  -- columns, the table and the columns referred to; `ondelete="CASCADE"`
  foreign_key : List Text → Text → List Text → Constraint

pub record Index : Type 0 where
  pub name : Text
  pub columns : List Text
  pub is_unique : Bool

pub record Table : Type 0 where
  pub name : Text
  pub columns : List Column
  pub constraints : List Constraint
  pub indexes : List Index

abbrev pub Schema : Type 0
Schema = List Table

-- The SQL that `op.execute` runs; none of it changes the schema. What it does to the rows, and
-- where it is refused, is in Migrations/Database.
pub data Statement : Type 0 where
  create_pgcrypto seed_password_changed_at lower_emails : Statement

pub data Operation : Type 0 where
  create_table : Text → List Column → List Constraint → Operation
  drop_table : Text → Operation
  -- the index and its table
  create_index : Index → Text → Operation
  drop_index : Text → Text → Operation
  add_column : Text → Column → Operation
  drop_column set_not_null : Text → Text → Operation
  execute : Statement → Operation

abbrev pub named : Text → Table → Bool
named n t = text_eq t.name n

unfoldable pub has_table : Text → Schema → Bool
has_table n = any (named n)

-- The names of indexes are unique in the whole schema.
unfoldable pub has_index : Text → Schema → Bool
has_index n = any (λ t. any (λ i. text_eq i.name n) t.indexes)

abbrev pub refers : Text → Constraint → Bool
refers n (foreign_key columns target others) = text_eq target n
refers n c = false

-- Another table refers to this one.
unfoldable pub is_referenced : Text → Schema → Bool
is_referenced n = any (λ t. not (named n t) && any (refers n) t.constraints)

abbrev pub dangles : Schema → Constraint → Bool
dangles s (foreign_key columns target others) = not (has_table target s)
dangles s c = false

abbrev pub has_column : Text → Table → Bool
has_column n t = any (λ c. text_eq c.name n) t.columns

abbrev pub lacks : Table → List Text → Bool
lacks t = any (λ n. not (has_column n t))

unfoldable pub alter : Text → (Table → Table) → Schema → Schema
alter n f = map (λ t. if named n t then f t else t)

abbrev pub with_index : Index → Table → Table
with_index i t = record t { indexes = t.indexes ++ i ∷ [] }

abbrev pub without_index : Text → Table → Table
without_index n t = record t { indexes = select (λ i. not (text_eq i.name n)) t.indexes }

abbrev pub with_column : Column → Table → Table
with_column c t = record t { columns = t.columns ++ c ∷ [] }

-- A column goes with the indexes on it.
abbrev pub without_column : Text → Table → Table
without_column n t = record t {
  columns = select (λ c. not (text_eq c.name n)) t.columns;
  indexes = select (λ i. not (any (text_eq n) i.columns)) t.indexes;
}

abbrev pub not_null : Text → Column → Column
not_null n c = if text_eq c.name n then record c { nullable = false } else c

-- What an operation does to the schema.
unfoldable pub apply : Operation → Schema → Option Schema
apply (create_table n columns constraints) s =
    if has_table n s || any (dangles s) constraints
    then none
    else some (
        s ++ (record { name = n; columns = columns; constraints = constraints; indexes = [] }) ∷ [])
apply (drop_table n) s =
    if has_table n s && not (is_referenced n s)
    then some (select (λ t. not (named n t)) s)
    else none
apply (create_index i n) s =
    if not (has_index i.name s) && any (λ t. named n t && not (lacks t i.columns)) s
    then some (alter n (with_index i) s)
    else none
apply (drop_index i n) s =
    if any (λ t. named n t && any (λ j. text_eq j.name i) t.indexes) s
    then some (alter n (without_index i) s)
    else none
apply (add_column n c) s =
    if any (λ t. named n t && not (has_column c.name t)) s
    then some (alter n (with_column c) s)
    else none
apply (drop_column n c) s =
    if any (λ t. named n t && has_column c t) s then some (alter n (without_column c) s) else none
apply (set_not_null n c) s =
    if any (λ t. named n t && has_column c t) s
    then some (alter n (λ t. record t { columns = map (not_null c) t.columns }) s)
    else none
apply (execute statement) s = some s

unfoldable pub run : List Operation → Schema → Option Schema
run [] s = some s
run (o ∷ os) s = elim (apply o s) [ none ↦ none | some s' ↦ run os s' ]
