-- ===== src/Workbooks.antt =====
-- The workbooks of app/download_xlsx.py, as the calls on the sheet of an openpyxl `Workbook` in
-- their order; what openpyxl writes to bytes is not modelled. `F` is the type of floats, `D` that
-- of the decimal columns and `to_float` is `float(d)`; `str` is Python's on a whole number, `date`
-- formats a day as `%Y-%m-%d` and `stamp` a time as `%Y-%m-%d %H:%M`.
pub mod Layout
pub mod Backtest
use stock_quant_backend.Prelude.{
  ℕ, ◌+◌, Bool, true, false, Option, none, some, List, [], ◌∷◌, ◌++◌, map, length, if◌then◌else◌,
}
use mathlib.Core.Option
use stock_quant_backend.Prelude.Text.{Text, codes, text_eq}
use stock_quant_backend.RateLimit.Client.{is_blank}
use stock_quant_backend.Snapshots.{ScreenSnapshot, ScreenSnapshotItem}
use stock_quant_backend.Records.{Record}
use stock_quant_backend.Mail.Messages.{concat}

-- A value that is appended; no float is an empty cell.
pub data Cell (F : Type 0) : Type 0 where
  text_cell : Text → Cell F
  number_cell : ℕ → Cell F
  float_cell : Option F → Cell F

-- A call on the sheet. Rows and columns count from 1, as openpyxl's do.
pub data SheetCall (F : Type 0) : Type 0 where
  title : Text → SheetCall F
  append : List (Cell F) → SheetCall F
  -- `Font(bold=True, size=12)`
  bold : ℕ → ℕ → SheetCall F
  -- the first row's cells up to a column
  merge_first : ℕ → SheetCall F
  header : ℕ → ℕ → SheetCall F
  -- `"0.00"`
  two_places : ℕ → ℕ → SheetCall F
  -- `"0.00%"`
  percent : ℕ → ℕ → SheetCall F
  centered : ℕ → ℕ → SheetCall F
  width : ℕ → ℕ → SheetCall F
  freeze : Text → SheetCall F

-- `_SESSION_LABEL.get(session, session)`
unfoldable pub session_label : Text → Text
session_label session =
    if text_eq session (codes "intraday_1300")
    then codes "盤中13:00"
    else if text_eq session (codes "eod")
    then codes "收盤後"
    else session

module _ {F : Type 0} where
  -- `_autosize`, from a column on.
  unfoldable pub autosize : ℕ → List ℕ → List (SheetCall F)
  autosize column [] = []
  autosize column (w ∷ widths) = width column w ∷ autosize (column + 1) widths

  -- `_style_header`, from a column on.
  unfoldable pub style_header : ℕ → ℕ → List Text → List (SheetCall F)
  style_header row column [] = []
  style_header row column (h ∷ headers) = header row column ∷ style_header row (column + 1) headers

  -- The loop over `iter_rows`: one call of the body for each of `rows`.
  unfoldable pub each_row : (ℕ → List (SheetCall F)) → ℕ → List (List (Cell F)) → List (SheetCall F)
  each_row body first [] = []
  each_row body first (r ∷ rows) = body first ++ each_row body (first + 1) rows

  -- A sheet as all three builders make it: title line, headers, rows, formats, widths.
  unfoldable pub sheet :
      Text
      → Text
      → List Text
      → List ℕ
      → (ℕ → List (SheetCall F))
      → List (List (Cell F))
      → List (SheetCall F)
  sheet name line headers widths body rows =
      title name
      ∷ append (text_cell line ∷ [])
      ∷ bold 1 1
      ∷ merge_first (length headers)
      ∷ append (map text_cell headers)
      ∷ (style_header 2 1 headers
          ++ (map append rows
              ++ (each_row body 3 rows ++ (autosize 1 widths ++ freeze (codes "A3") ∷ []))))

  -- A sheet with one line.
  unfoldable pub empty_sheet : Text → List (SheetCall F)
  empty_sheet line = title (codes "起漲篩選") ∷ append (text_cell line ∷ []) ∷ bold 1 1 ∷ []

-- U+3000
abbrev pub wide_space : Text
wide_space = 12288 ∷ []

abbrev pub snapshot_headers : List Text
snapshot_headers =
    codes "排名"
    ∷ codes "代號"
    ∷ codes "名稱"
    ∷ codes "市場"
    ∷ codes "現價"
    ∷ codes "漲跌"
    ∷ codes "漲幅%"
    ∷ codes "量(張)"
    ∷ codes "昨高"
    ∷ codes "量比"
    ∷ codes "5MA"
    ∷ codes "月線(20MA)"
    ∷ codes "月線上彎"
    ∷ codes "昨收"
    ∷ []

abbrev pub snapshot_widths : List ℕ
snapshot_widths = 6 ∷ 8 ∷ 12 ∷ 6 ∷ 9 ∷ 8 ∷ 8 ∷ 9 ∷ 9 ∷ 7 ∷ 9 ∷ 11 ∷ 9 ∷ 9 ∷ []

abbrev pub range_headers : List Text
range_headers = codes "交易日" ∷ snapshot_headers

abbrev pub range_widths : List ℕ
range_widths = 12 ∷ snapshot_widths

abbrev pub record_headers : List Text
record_headers =
    codes "代號"
    ∷ codes "名稱"
    ∷ codes "市場"
    ∷ codes "市場代碼"
    ∷ codes "目標價"
    ∷ codes "成本價"
    ∷ codes "最新收盤"
    ∷ codes "更新時間"
    ∷ []

abbrev pub record_widths : List ℕ
record_widths = 8 ∷ 14 ∷ 8 ∷ 10 ∷ 10 ∷ 10 ∷ 10 ∷ 22 ∷ []

-- `row[4]` of the source is column 5.
unfoldable pub snapshot_format : {F : Type 0} → ℕ → List (SheetCall F)
snapshot_format row =
    map (two_places row) (5 ∷ 6 ∷ 7 ∷ 9 ∷ 10 ∷ 11 ∷ 12 ∷ 14 ∷ []) ++ centered row 13 ∷ []

unfoldable pub range_format : {F : Type 0} → ℕ → List (SheetCall F)
range_format row =
    map (two_places row) (6 ∷ 7 ∷ 8 ∷ 10 ∷ 11 ∷ 12 ∷ 13 ∷ 15 ∷ []) ++ centered row 14 ∷ []

unfoldable pub record_format : {F : Type 0} → ℕ → List (SheetCall F)
record_format row = map (two_places row) (5 ∷ 6 ∷ 7 ∷ [])

module _ {F D : Type 0} (to_float : D → F) where
  -- `_num`
  abbrev pub num : Option D → Cell F
  num value = float_cell (Option.map to_float value)

  unfoldable pub item_cells : ScreenSnapshotItem D → List (Cell F)
  item_cells it =
      number_cell it.rank
      ∷ text_cell it.symbol
      ∷ text_cell it.name
      ∷ text_cell it.market
      ∷ num it.close
      ∷ num it.change
      ∷ num it.change_pct
      ∷ num it.lots
      ∷ num it.prev_high
      ∷ num it.vol_ratio
      ∷ num it.ma5
      ∷ num it.ma20
      ∷ text_cell (if it.ma20_up then codes "↑" else [])
      ∷ num it.prev_close
      ∷ []

  module _ (str date stamp : ℕ → Text) where
    unfoldable pub snapshot_to_xlsx :
        ScreenSnapshot → List (ScreenSnapshotItem D) → List (SheetCall F)
    snapshot_to_xlsx snapshot items =
        sheet (codes "起漲篩選")
          (concat (
            date snapshot.trade_date
            ∷ codes " "
            ∷ session_label snapshot.session
            ∷ codes " 起漲篩選"
            ∷ codes "（紅K+突破昨高+量增+站上5MA+月線上彎+昨日在5MA下） 共 "
            ∷ str (length items)
            ∷ codes " 檔"
            ∷ []))
          snapshot_headers snapshot_widths snapshot_format (map item_cells items)

    -- One row for each item, with its day first.
    unfoldable pub range_cells :
        List (ScreenSnapshot × List (ScreenSnapshotItem D)) → List (List (Cell F))
    range_cells [] = []
    range_cells ((snap, items) ∷ rows) =
        map (λ it. text_cell (date snap.trade_date) ∷ item_cells it) items ++ range_cells rows

    -- `sum(len(items) for …)`
    unfoldable pub total_items : List (ScreenSnapshot × List (ScreenSnapshotItem D)) → ℕ
    total_items [] = 0
    total_items ((snap, items) ∷ rows) = length items + total_items rows

    unfoldable pub snapshots_range_to_xlsx :
        List (ScreenSnapshot × List (ScreenSnapshotItem D))
        → Text
        → Text
        → Text
        → List (SheetCall F)
    snapshots_range_to_xlsx rows start_label end_label session =
        sheet (codes "起漲篩選")
          (concat (
            start_label
            ∷ codes " ~ "
            ∷ end_label
            ∷ codes " "
            ∷ session_label session
            ∷ codes " 起漲篩選"
            ∷ wide_space
            ∷ codes "共 "
            ∷ str (length rows)
            ∷ codes " 個交易日、"
            ∷ str (total_items rows)
            ∷ codes " 檔"
            ∷ []))
          range_headers range_widths range_format (range_cells rows)

    -- `updated_at` is never null.
    unfoldable pub record_cells : Record D → List (Cell F)
    record_cells r =
        text_cell r.symbol
        ∷ text_cell r.name
        ∷ text_cell r.market
        ∷ text_cell r.market_code
        ∷ num r.target_price
        ∷ num r.cost_price
        ∷ num r.last_close
        ∷ text_cell (stamp r.updated_at)
        ∷ []

    -- The current time, the records and the owner.
    unfoldable pub records_to_xlsx : ℕ → List (Record D) → Text → List (SheetCall F)
    records_to_xlsx now records owner_label =
        sheet (codes "我的紀錄")
          (concat (
            codes "我的個股紀錄"
            ∷ (if is_blank owner_label
                then []
                else concat (codes "（" ∷ owner_label ∷ codes "）" ∷ []))
            ∷ wide_space
            ∷ codes "共 "
            ∷ str (length records)
            ∷ codes " 檔"
            ∷ wide_space
            ∷ codes "匯出 "
            ∷ stamp now
            ∷ []))
          record_headers record_widths record_format (map record_cells records)

unfoldable pub empty_snapshot_xlsx : {F : Type 0} → Text → Text → List (SheetCall F)
empty_snapshot_xlsx trade_date_label session =
    empty_sheet (
      concat (trade_date_label ∷ codes " " ∷ session_label session ∷ codes " 起漲篩選：今日無符合條件的個股" ∷ []))

unfoldable pub empty_snapshots_range_xlsx : {F : Type 0} → Text → Text → Text → List (SheetCall F)
empty_snapshots_range_xlsx start_label end_label session = empty_sheet (
    concat (
      start_label
      ∷ codes " ~ "
      ∷ end_label
      ∷ codes " "
      ∷ session_label session
      ∷ codes " 起漲篩選：此範圍內無符合條件的資料"
      ∷ []))
