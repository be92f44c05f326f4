-- ===== src/Downloads/Tests.antt =====
-- Examples of downloads: two days of one session, with three items.
use stock_quant_backend.Prelude.{ℕ, false, none, some, List, [], ◌∷◌}
use stock_quant_backend.Prelude.Text.{Text, codes}
use stock_quant_backend.Snapshots.{ScreenSnapshot, ScreenSnapshotItem}

abbrev snapshot : ℕ → ℕ → ℕ → ScreenSnapshot
snapshot id day count = record {
  id = id;
  trade_date = day;
  session = codes "eod";
  generated_at = 0;
  source = [];
  universe = 0;
  quotable = 0;
  pool_size = 0;
  item_count = count;
  warning = none;
  created_at = 0;
}

abbrev screened : ℕ → ℕ → ℕ → ScreenSnapshotItem ℕ
screened id snapshot_id rank = record {
  id = id;
  snapshot_id = snapshot_id;
  rank = rank;
  symbol = 50 ∷ [];
  name = [];
  market = [];
  market_code = [];
  close = some 505;
  prev_close = none;
  change = none;
  change_pct = none;
  volume = none;
  lots = none;
  open_price = none;
  high = none;
  low = none;
  prev_high = none;
  vol_ratio = none;
  ma5 = none;
  ma20 = none;
  ma20_up = false;
}

abbrev snapshots : List ScreenSnapshot
snapshots = snapshot 1 10 2 ∷ snapshot 2 12 1 ∷ []

abbrev items : List (ScreenSnapshotItem ℕ)
items = screened 1 1 2 ∷ screened 2 1 1 ∷ screened 3 2 1 ∷ []

-- One character for a number or a day.
abbrev digit : ℕ → Text
digit n = n ∷ []
