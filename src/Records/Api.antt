-- ===== src/Records/Api.antt =====
-- The three endpoints of app/routers/records.py, with the session check in front of each.
use stock_quant_backend.Prelude.{ℕ, Option, List, [], ◌∷◌}
use stock_quant_backend.Prelude.Text.{Text}
use stock_quant_backend.Http.{Result, ok, raise}
use stock_quant_backend.Users.{World}
use stock_quant_backend.Security.{Crypto, get_current_user}
use stock_quant_backend.Records.{
  Record, UpsertBody, RecordOut, record_out, records_response, upsert_record, delete_record,
}

-- What is sent: a listing, an upsert or a deletion.
pub data RecordCall (F : Type 0) : Type 0 where
  list_call : RecordCall F
  put_call : Text → Text → UpsertBody F → RecordCall F
  delete_call : Text → Text → RecordCall F

-- A request: the clock, the `Authorization` credentials, and the id that a new row would draw.
pub record RecordRequest (F : Type 0) : Type 0 where
  pub now : ℕ
  pub credentials : Option Text
  pub new_id : ℕ
  pub call : RecordCall F

module _ {F D : Type 0} (to_decimal : F → D) (to_float : D → F) (crypto : Crypto) (w : World) where
  -- `GET /userapi/records`
  unfoldable pub get_records : ℕ → Option Text → List (Record D) → Result (List (RecordOut F))
  get_records now credentials rows = elim (get_current_user crypto now credentials w) [
    | raise e ↦ raise e
    | ok u ↦ ok (records_response to_float u.id rows)
  ]

  -- `PUT /userapi/records/{market_code}/{symbol}`
  unfoldable pub put_record :
      ℕ
      → Option Text
      → ℕ
      → Text
      → Text
      → UpsertBody F
      → List (Record D)
      → Result (RecordOut F) × List (Record D)
  put_record now credentials new_id market_code symbol body rows =
      elim (get_current_user crypto now credentials w) [
        | raise e ↦ (raise e, rows)
        | ok u ↦
            let (r, rows') =
              upsert_record to_decimal now new_id u.id market_code symbol body rows in
            (ok (record_out to_float r), rows')
      ]

  -- `DELETE /userapi/records/{market_code}/{symbol}`: 204, also for a row that is not there.
  unfoldable pub remove_record :
      ℕ → Option Text → Text → Text → List (Record D) → Result (Unit {0}) × List (Record D)
  remove_record now credentials market_code symbol rows =
      elim (get_current_user crypto now credentials w) [
        | raise e ↦ (raise e, rows)
        | ok u ↦ (ok tt, (delete_record u.id market_code symbol rows).1)
      ]

  -- The table after a request, and after one request after another.
  unfoldable pub serve_record : RecordRequest F → List (Record D) → List (Record D)
  serve_record req rows = elim req.call [
    | list_call ↦ rows
    | put_call m s body ↦ (put_record req.now req.credentials req.new_id m s body rows).1
    | delete_call m s ↦ (remove_record req.now req.credentials m s rows).1
  ]

  unfoldable pub serve_records : List (RecordRequest F) → List (Record D) → List (Record D)
  serve_records [] rows = rows
  serve_records (req ∷ reqs) rows = serve_records reqs (serve_record req rows)
