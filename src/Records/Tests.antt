-- ===== src/Records/Tests.antt =====
-- Examples of the watchlist rows: two accounts, one row of the first.
use stock_quant_backend.Prelude.{
  ℕ, ◌≡◌, refl, false, Option, none, some, List, [], ◌∷◌, if◌then◌else◌, arith,
}
use stock_quant_backend.Prelude.Text.{Text}
use stock_quant_backend.Records.{
  Record, UpsertBody, get_record, list_records, upsert_record, delete_record,
}
use stock_quant_backend.Records.Keyed.{
  IsKeyed, same_query, get_record-upsert_record, get_record-delete_record,
}
use stock_quant_backend.Records.View.{upsert_record-IsKeyed}
use stock_quant_backend.Http.{ok}
use stock_quant_backend.Users.{User, World, find_user}
use stock_quant_backend.Security.{get_current_user, current_user, token_for}
use stock_quant_backend.Security.Example.{example, settings}
use stock_quant_backend.Security.Sessions.{get_current_user_minted}
use stock_quant_backend.Records.Api.{
  RecordRequest, put_call, delete_call, serve_record, serve_records, remove_record,
}
use stock_quant_backend.Records.Isolation.{is_by, list_records-serve_records}

-- A decimal column as a number.
abbrev cents : ℕ → ℕ
cents x = x

abbrev market : Text
market = 84 ∷ []

abbrev stock : Text
stock = 50 ∷ 51 ∷ []

abbrev body : UpsertBody ℕ
body = record {
  name = 65 ∷ [];
  market = [];
  target_price = some 120;
  cost_price = none;
  last_close = none;
}

abbrev row : Record ℕ
row = record {
  id = 7;
  user_id = 1;
  market_code = market;
  symbol = stock;
  name = [];
  market = [];
  target_price = none;
  cost_price = some 90;
  last_close = none;
  updated_at = 3;
}

abbrev rows : List (Record ℕ)
rows = row ∷ []

rows-IsKeyed : IsKeyed rows
rows-IsKeyed = record { ids = (tt, tt); keys = (tt, tt) }

get_record-upsert_record_example :
    get_record 1 market stock (upsert_record cents 5 8 2 market stock body rows).1 ≡ (
      if same_query 2 market stock 1 market stock
      then some (upsert_record cents 5 8 2 market stock body rows).0
      else get_record 1 market stock rows)
get_record-upsert_record_example =
    get_record-upsert_record cents 5 8 2 market stock body 1 market stock rows rows-IsKeyed

get_record-delete_record_example :
    get_record 1 market stock (delete_record 1 market stock rows).1
    ≡ (if same_query 1 market stock 1 market stock then none else get_record 1 market stock rows)
get_record-delete_record_example =
    get_record-delete_record 1 market stock 1 market stock rows rows-IsKeyed

upsert_record-IsKeyed_example : IsKeyed (upsert_record cents 5 8 2 market stock body rows).1
upsert_record-IsKeyed_example =
    upsert_record-IsKeyed cents 5 8 2 market stock body rows refl rows-IsKeyed

-- A second account, and its session.
abbrev bob : User
bob = record {
  id = 2;
  email = 98 ∷ [];
  password_hash = 112 ∷ [];
  display_name = none;
  email_verified_at = none;
  password_changed_at = 0;
  token_version = 4;
  created_at = 0;
}

abbrev world : World
world = record {
  limiter = record { hits = []; last_sweep = 0 };
  users = bob ∷ [];
  tokens = [];
  outbox = [];
}

abbrev session : Option Text
session = some (token_for example settings 4000000 (107 ∷ []) bob)

is_open : get_current_user example 5000000 session world ≡ ok bob
unfolding find_user
is_open =
    get_current_user_minted example settings 4000000 (107 ∷ []) bob world refl 5000000 (omega arith)
      (omega arith)

-- A deletion without credentials, and an upsert by the second account.
abbrev refused : RecordRequest ℕ
refused = record { now = 5; credentials = none; new_id = 8; call = delete_call market stock }

abbrev requests : List (RecordRequest ℕ)
requests =
    refused
    ∷ (record {
      now = 5000000;
      credentials = session;
      new_id = 9;
      call = put_call market stock body;
    })
    ∷ []

is_bob :
    is_by {F = ℕ} cents cents example world 1 (record {
      now = 5000000;
      credentials = session;
      new_id = 9;
      call = put_call market stock body;
    })
    ≡ false
is_bob = ground (arith, is_open)

list_records-serve_records_example :
    (list_records 1 (serve_records cents cents example world requests rows) ≡ list_records 1 rows)
    × IsKeyed (serve_records cents cents example world requests rows)
unfolding serve_record remove_record get_current_user current_user
list_records-serve_records_example =
    list_records-serve_records cents cents example world 1 requests rows rows-IsKeyed
      (refl, (refl, tt)) (refl, (is_bob, tt))
