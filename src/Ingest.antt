-- ===== src/Ingest.antt =====
-- The ingestion endpoints (app/routers/ingest.py): the guard `require_ingest_token` in front of
-- `ingest_snapshot` and `ingest_prices`.
pub mod Guard
mod Tests
use stock_quant_backend.Prelude.{
  ℕ, ◌≡◌, refl, Bool, true, false, ◌&&◌, not, Option, none, some, List, [], ◌∷◌, any, ltb,
  if◌then◌else◌, length, arith, Bool-cases, Option-cases, inl, inr,
}
use stock_quant_backend.Prelude.Text.{Text, text_eq}
use stock_quant_backend.Http.{
  Action, Result, ok, raise, unavailable, unauthorized, unprocessable, integrity_error, type_error,
  ◌>>=◌, ◌>>◌,
}
use stock_quant_backend.Snapshots.{IngestResult, ingest_snapshot, get_snapshot, upsert_snapshot}
use stock_quant_backend.Snapshots.Uploads.{Tables, Upload, is_session}
use stock_quant_backend.Prices.{
  DailyPrice, DailyPricesIngestBody, DailyPricesIngestResult, ingest_prices,
}

abbrev pub is_ascii : Text → Bool
is_ascii s = not (any (λ c. ltb 127 c) s)

-- `hmac.compare_digest` on strings, which takes ASCII only and raises `TypeError` otherwise.
unfoldable pub compare_digest : Text → Text → Result Bool
compare_digest a b = if is_ascii a && is_ascii b then ok (text_eq a b) else raise type_error

-- The setting `INGEST_TOKEN` and the header; an empty one is falsy.
unfoldable pub require_ingest_token : Text → Option Text → Result (Unit {0})
require_ingest_token [] header = raise unavailable
require_ingest_token (c ∷ configured) none = raise unauthorized
require_ingest_token (c ∷ configured) (some []) = raise unauthorized
require_ingest_token (c ∷ configured) (some (d ∷ token)) =
    elim (compare_digest (d ∷ token) (c ∷ configured)) [
      | raise e ↦ raise e
      | ok same ↦ if same then ok tt else raise unauthorized
    ]

-- The caller presented the configured token, and there is one.
abbrev pub may_ingest : Text → Option Text → Bool
may_ingest [] header = false
may_ingest (c ∷ configured) none = false
may_ingest (c ∷ configured) (some token) = text_eq token (c ∷ configured)

-- A dependency that runs before the handler.
abbrev pub guarded : {S A : Type 0} → Result (Unit {0}) → Action S A → Action S A
guarded g m s = elim g [ raise e ↦ (raise e, s) | ok _ ↦ m s ]

module _ {F D : Type 0} (to_decimal : F → D) where
  -- `POST …/snapshot`
  unfoldable pub post_snapshot : Text → Option Text → Upload F → Action (Tables D) IngestResult
  post_snapshot configured header u = guarded (require_ingest_token configured header) (λ t.
      let (answer, snapshots, items) =
        ingest_snapshot to_decimal u.now u.id u.item_id u.body t.snapshots t.items in
      (answer, record { snapshots = snapshots; items = items }))

  -- `POST …/prices`
  unfoldable pub post_prices :
      Text
      → Option Text
      → DailyPricesIngestBody F
      → Action (List (DailyPrice D)) DailyPricesIngestResult
  post_prices configured header body = guarded (require_ingest_token configured header) (λ rows.
      elim (ingest_prices to_decimal body rows) [
        | none ↦ (raise integrity_error, rows)
        | some (result, rows') ↦ (ok result, rows')
      ])
