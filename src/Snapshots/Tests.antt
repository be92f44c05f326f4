-- ===== src/Snapshots/Tests.antt =====
-- Examples of uploads: one day and session twice, another, and one for an unknown session.
use stock_quant_backend.Prelude.{ℕ, ◌*◌, false, none, some, List, [], ◌∷◌}
use stock_quant_backend.Prelude.Text.{Text, codes}
use stock_quant_backend.Snapshots.{SnapshotItemIn, SnapshotIngestBody}
use stock_quant_backend.Snapshots.Uploads.{Tables, Upload}

abbrev row : ℕ → Text → SnapshotItemIn ℕ
row rank symbol = record {
  rank = rank;
  symbol = symbol;
  name = [];
  market = [];
  market_code = [];
  close = some 500;
  prev_close = none;
  change = none;
  change_pct = none;
  volume = none;
  lots = none;
  open_price = none;
  high = none;
  low = none;
  prev_high = none;
  vol_ratio = none;
  ma5 = none;
  ma20 = none;
  ma20_up = false;
}

abbrev body : ℕ → Text → List (SnapshotItemIn ℕ) → SnapshotIngestBody ℕ
body day session rows = record {
  trade_date = day;
  session = session;
  generated_at = day;
  source = codes "twse";
  universe = 900;
  quotable = 800;
  pool_size = 10;
  warning = none;
  items = rows;
}

abbrev upload_of : ℕ → SnapshotIngestBody ℕ → Upload ℕ
upload_of id b = record { now = 100; id = id; item_id = id * 1000; body = b }

abbrev uploads : List (Upload ℕ)
uploads =
    upload_of 1 (body 10 (codes "eod") (row 2 (50 ∷ []) ∷ row 1 (51 ∷ []) ∷ []))
    ∷ upload_of 2 (body 10 (codes "noon") (row 1 (50 ∷ []) ∷ []))
    ∷ upload_of 3 (body 11 (codes "intraday_1300") [])
    ∷ upload_of 4 (body 10 (codes "eod") (row 1 (52 ∷ []) ∷ []))
    ∷ []

abbrev empty : Tables ℕ
empty = record { snapshots = []; items = [] }
