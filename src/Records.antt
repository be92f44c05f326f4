-- ===== src/Records.antt =====
-- A user's watchlist records: `Record` (app/models.py), `UpsertBody` and `RecordOut`
-- (app/schemas.py), and the queries of app/crud.py; Records/Api has the endpoints.
-- `F` is the type of floats and `D` that of the `Numeric(12, 4)` columns; `to_decimal` is
-- `Decimal(str(x))` as the column stores it, and `to_float` is `float(d)`.
pub mod Keyed
pub mod View
pub mod Api
pub mod Isolation
mod Tests
use stock_quant_backend.Prelude.{
  ℕ, Bool, true, false, ◌&&◌, ◌||◌, not, Option, none, some, List, [], ◌∷◌, ◌++◌, map, ◌==◌,
  if◌then◌else◌, find, select,
}
use mathlib.Core.Option
use stock_quant_backend.Prelude.Text.{Text, text_eq, text_leb}
use stock_quant_backend.Prelude.Order.{sort_by}

pub record Record (D : Type 0) : Type 0 where
  pub id : ℕ
  pub user_id : ℕ
  pub market_code : Text
  pub symbol : Text
  pub name : Text
  pub market : Text
  pub target_price : Option D
  pub cost_price : Option D
  pub last_close : Option D
  pub updated_at : ℕ

pub record UpsertBody (F : Type 0) : Type 0 where
  pub name : Text
  pub market : Text
  pub target_price : Option F
  pub cost_price : Option F
  pub last_close : Option F

pub record RecordOut (F : Type 0) : Type 0 where
  pub symbol : Text
  pub name : Text
  pub market : Text
  pub market_code : Text
  pub target_price : Option F
  pub cost_price : Option F
  pub last_close : Option F
  pub updated_at : ℕ

module _ {D : Type 0} where
  -- The `WHERE` of `get_record`.
  abbrev pub has_key : ℕ → Text → Text → Record D → Bool
  has_key user_id market_code symbol r =
      r.user_id == user_id && text_eq r.market_code market_code && text_eq r.symbol symbol

  unfoldable pub get_record : ℕ → Text → Text → List (Record D) → Option (Record D)
  get_record user_id market_code symbol = find (has_key user_id market_code symbol)

  -- `ORDER BY market_code, symbol`
  abbrev pub record_leb : Record D → Record D → Bool
  record_leb r s =
      if text_eq r.market_code s.market_code
      then text_leb r.symbol s.symbol
      else text_leb r.market_code s.market_code

  unfoldable pub list_records : ℕ → List (Record D) → List (Record D)
  list_records user_id rows = sort_by record_leb (select (λ r. r.user_id == user_id) rows)

  unfoldable pub delete_record : ℕ → Text → Text → List (Record D) → Bool × List (Record D)
  delete_record user_id market_code symbol rows =
      elim (get_record user_id market_code symbol rows) [
        | none ↦ (false, rows)
        | some r ↦ (true, select (λ s. not (s.id == r.id)) rows)
      ]

module _ {F D : Type 0} (to_decimal : F → D) where
  -- The assignments of `upsert_record`.
  abbrev pub fill : ℕ → UpsertBody F → Record D → Record D
  fill now body r = record r {
    name = body.name;
    market = body.market;
    target_price = Option.map to_decimal body.target_price;
    cost_price = Option.map to_decimal body.cost_price;
    last_close = Option.map to_decimal body.last_close;
    updated_at = now;
  }

  -- `Record(user_id=…, market_code=…, symbol=…)`, whose id the default factory draws.
  abbrev pub new_record : ℕ → ℕ → ℕ → Text → Text → Record D
  new_record now new_id user_id market_code symbol = record {
    id = new_id;
    user_id = user_id;
    market_code = market_code;
    symbol = symbol;
    name = [];
    market = [];
    target_price = none;
    cost_price = none;
    last_close = none;
    updated_at = now;
  }

  -- The row that the call returns, and the table.
  unfoldable pub upsert_record :
      ℕ → ℕ → ℕ → Text → Text → UpsertBody F → List (Record D) → Record D × List (Record D)
  upsert_record now new_id user_id market_code symbol body rows =
      elim (get_record user_id market_code symbol rows) [
        | none ↦
            let r = fill now body (new_record now new_id user_id market_code symbol) in
            (r, rows ++ r ∷ [])
        | some r ↦ (fill now body r, map (λ s. if s.id == r.id then fill now body s else s) rows)
      ]

module _ {F D : Type 0} (to_float : D → F) where
  unfoldable pub record_out : Record D → RecordOut F
  record_out r = record {
    symbol = r.symbol;
    name = r.name;
    market = r.market;
    market_code = r.market_code;
    target_price = Option.map to_float r.target_price;
    cost_price = Option.map to_float r.cost_price;
    last_close = Option.map to_float r.last_close;
    updated_at = r.updated_at;
  }

  -- The body of `GET /userapi/records`, for the current user.
  unfoldable pub records_response : ℕ → List (Record D) → List (RecordOut F)
  records_response user_id rows = map (record_out) (list_records user_id rows)
