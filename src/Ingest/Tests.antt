-- ===== src/Ingest/Tests.antt =====
-- Examples of the ingestion endpoints: a configured token and two headers.
use stock_quant_backend.Prelude.{ℕ, none, []}
use stock_quant_backend.Prelude.Text.{codes}
use stock_quant_backend.Snapshots.Uploads.{Tables, Upload}

abbrev nightly : Upload ℕ
nightly = record {
  now = 100;
  id = 1;
  item_id = 1;
  body = record {
    trade_date = 10;
    session = codes "eod";
    generated_at = 99;
    source = codes "twse";
    universe = 900;
    quotable = 800;
    pool_size = 10;
    warning = none;
    items = [];
  };
}

abbrev empty : Tables ℕ
empty = record { snapshots = []; items = [] }
