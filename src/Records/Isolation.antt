-- ===== src/Records/Isolation.antt =====
-- What the endpoints of app/routers/records.py do for one user is invisible to the others.
use stock_quant_backend.Prelude.{
  ℕ, ◌≡◌, refl, ◌∙◌, Bool, false, List, [], ◌∷◌, All, any, arith, inl, inr, ◌==◌,
}
use stock_quant_backend.Http.{ok, raise, Result-cases}
use stock_quant_backend.Users.{World}
use stock_quant_backend.Security.{Crypto, get_current_user}
use stock_quant_backend.Prelude.Text.{Text}
use stock_quant_backend.Records.{Record, UpsertBody, list_records}
use stock_quant_backend.Records.Api.{
  RecordCall, list_call, put_call, delete_call, RecordRequest, put_record, remove_record,
  serve_record, serve_records,
}
use stock_quant_backend.Records.Keyed.{IsKeyed}
use stock_quant_backend.Records.View.{
  delete_record-IsKeyed, list_records-delete_record, list_records-upsert_record,
  upsert_record-IsKeyed,
}

module _ {F D : Type 0} (to_decimal : F → D) (to_float : D → F) (crypto : Crypto) (w : World) where
  -- Whether a request is let in as the user.
  abbrev pub is_by : ℕ → RecordRequest F → Bool
  is_by v req = elim (get_current_user crypto req.now req.credentials w) [
    | raise e ↦ false
    | ok u ↦ u.id == v
  ]

  -- The id that each request draws is not in the table that it finds.
  abbrev pub AreFresh : List (RecordRequest F) → List (Record D) → Type 0
  AreFresh [] rows = Unit
  AreFresh (req ∷ reqs) rows =
      (any (λ (r : Record D). r.id == req.new_id) rows ≡ false)
      × AreFresh reqs (serve_record to_decimal to_float crypto w req rows)

  -- What one request leaves of another user's list.
  abbrev Stays : ℕ → List (Record D) → List (Record D) → Type 0
  Stays v rows rows' = (list_records v rows' ≡ list_records v rows) × IsKeyed rows'

  put_record-Stays :
      (v : ℕ) (req : RecordRequest F) (m s : Text) (body : UpsertBody F) (rows : List (Record D))
      → IsKeyed rows
      → any (λ (r : Record D). r.id == req.new_id) rows ≡ false
      → is_by v req ≡ false
      → Stays v rows
          (put_record to_decimal to_float crypto w req.now req.credentials req.new_id m s body
            rows).1
  unfolding put_record
  put_record-Stays v req m s body rows keyed fresh other =
      elim (Result-cases (get_current_user crypto req.now req.credentials w)) [
        | inl (e, h) ↦ rw (put_record, h) (refl, keyed)
        | inr (u, h) ↦
            rw (put_record, h)
              (
                list_records-upsert_record to_decimal req.now req.new_id u.id v m s body rows keyed
                    (λ p. absurd (ground arith)),
                upsert_record-IsKeyed to_decimal req.now req.new_id u.id m s body rows fresh keyed,
              )
      ]

  remove_record-Stays :
      (v : ℕ) (req : RecordRequest F) (m s : Text) (rows : List (Record D))
      → IsKeyed rows
      → is_by v req ≡ false
      → Stays v rows (remove_record to_decimal to_float crypto w req.now req.credentials m s rows).1
  unfolding remove_record
  remove_record-Stays v req m s rows keyed other =
      elim (Result-cases (get_current_user crypto req.now req.credentials w)) [
        | inl (e, h) ↦ rw (remove_record, h) (refl, keyed)
        | inr (u, h) ↦
            rw (remove_record, h)
              (
                list_records-delete_record u.id v m s rows keyed (λ p. absurd (ground arith)),
                delete_record-IsKeyed u.id m s rows keyed,
              )
      ]

  serve_record-Stays :
      (v : ℕ) (req : RecordRequest F) (rows : List (Record D)) (c : RecordCall F)
      → req.call ≡ c
      → IsKeyed rows
      → any (λ (r : Record D). r.id == req.new_id) rows ≡ false
      → is_by v req ≡ false
      → Stays v rows (serve_record to_decimal to_float crypto w req rows)
  unfolding serve_record
  serve_record-Stays v req rows list_call e keyed fresh other = rw (serve_record, e) (refl, keyed)
  serve_record-Stays v req rows (put_call m s body) e keyed fresh other =
      rw (serve_record, e) (put_record-Stays v req m s body rows keyed fresh other)
  serve_record-Stays v req rows (delete_call m s) e keyed fresh other =
      rw (serve_record, e) (remove_record-Stays v req m s rows keyed other)

  -- On a keyed table, and where each new row draws a new id: after any requests to the three
  -- endpoints none of which is let in as the user `v` (with whatever credentials, at whatever time),
  -- the list of `v` is what it was, and the table is keyed.
  pub list_records-serve_records :
      (v : ℕ) (reqs : List (RecordRequest F)) (rows : List (Record D))
      → IsKeyed rows
      → AreFresh reqs rows
      → All (λ req. is_by v req ≡ false) reqs
      → (list_records v (serve_records to_decimal to_float crypto w reqs rows)
          ≡ list_records v rows)
        × IsKeyed (serve_records to_decimal to_float crypto w reqs rows)
  unfolding serve_records
  list_records-serve_records v [] rows keyed fresh other = (refl, keyed)
  list_records-serve_records v (req ∷ reqs) rows keyed fresh other =
      let one = serve_record-Stays v req rows req.call refl keyed fresh.0 other.0 in
      let rest =
        list_records-serve_records v reqs (serve_record to_decimal to_float crypto w req rows) one.1
          fresh.1 other.1 in
      (rest.0 ∙ one.0, rest.1)
