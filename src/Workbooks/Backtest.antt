-- ===== src/Workbooks/Backtest.antt =====
-- The workbook of a backtest (app/backtest_xlsx.py): the calls on its two sheets, in the order in
-- which each sheet gets them. The texts of the warnings are those of app/backtest.py.
use stock_quant_backend.Prelude.{
  ℕ, Option, none, some, List, [], ◌∷◌, ◌++◌, map, length, if◌then◌else◌,
}
use stock_quant_backend.Prelude.Text.{Text, codes, text_eq}
use stock_quant_backend.Mail.Messages.{concat}
use stock_quant_backend.Backtest.{
  Mode, intraday_to_close, close_to_close, BacktestHorizonStat, BacktestDetailRow, BacktestResponse,
  Warning, no_entries, no_prices, not_reached, uncovered,
}
use stock_quant_backend.Workbooks.{
  Cell, text_cell, number_cell, float_cell, SheetCall, title, append, bold, merge_first, percent,
  autosize, style_header, each_row,
}

-- U+26A0 U+FE0F
abbrev pub warning_sign : Text
warning_sign = 9888 ∷ 65039 ∷ []

abbrev pub summary_headers : List Text
summary_headers =
    codes "N (交易日)"
    ∷ codes "樣本數"
    ∷ codes "上漲"
    ∷ codes "下跌"
    ∷ codes "持平"
    ∷ codes "無資料"
    ∷ codes "上漲機率"
    ∷ codes "平均報酬%"
    ∷ codes "中位數報酬%"
    ∷ codes "最佳%"
    ∷ codes "最差%"
    ∷ []

abbrev pub summary_widths : List ℕ
summary_widths = 11 ∷ 9 ∷ 8 ∷ 8 ∷ 8 ∷ 9 ∷ 11 ∷ 12 ∷ 14 ∷ 10 ∷ 10 ∷ []

abbrev pub detail_headers : List Text
detail_headers =
    codes "篩選日"
    ∷ codes "代號"
    ∷ codes "名稱"
    ∷ codes "市場"
    ∷ codes "進場價"
    ∷ codes "出場日"
    ∷ codes "出場價"
    ∷ codes "漲跌"
    ∷ codes "報酬%"
    ∷ []

abbrev pub detail_widths : List ℕ
detail_widths = 12 ∷ 9 ∷ 13 ∷ 7 ∷ 10 ∷ 12 ∷ 10 ∷ 9 ∷ 10 ∷ []

-- `_MODE_LABEL`
abbrev pub mode_label : Mode → Text
mode_label intraday_to_close = codes "盤中13:00 → 收盤價"
mode_label close_to_close = codes "收盤價 → 收盤價"

-- `_SORT_LABEL.get(key, key)`
unfoldable pub sort_label : Text → Text
sort_label key =
    if text_eq key (codes "trade_date")
    then codes "篩選日"
    else if text_eq key (codes "symbol")
    then codes "代號"
    else if text_eq key (codes "entry_price")
    then codes "進場價"
    else if text_eq key (codes "exit_date")
    then codes "出場日"
    else if text_eq key (codes "exit_price")
    then codes "出場價"
    else if text_eq key (codes "change")
    then codes "漲跌"
    else if text_eq key (codes "return_pct")
    then codes "報酬%"
    else key

-- The calls on each of the two sheets.
pub record BacktestWorkbook (F : Type 0) : Type 0 where
  pub summary : List (SheetCall F)
  pub detail : List (SheetCall F)

module _ (str date : ℕ → Text) where
  abbrev pub warning_text : Warning → Text
  warning_text no_entries = codes "此區間與時段查無篩選紀錄。"
  warning_text no_prices = codes "資料庫尚無全市場每日收盤價，無法計算後續漲跌。請先執行收盤價上傳/回補 (run_backfill_prices.py)。"
  warning_text (not_reached last_price_day biggest) = concat (
      codes "價格資料只到 "
      ∷ date last_price_day
      ∷ codes "，最近幾個篩選日尚未經過 "
      ∷ str biggest
      ∷ codes " 個交易日，這些個股不列入統計（見「無資料」欄）。"
      ∷ [])
  warning_text (uncovered worst) =
      concat (codes "有 " ∷ str worst ∷ codes " 筆缺少對應的收盤價而未列入統計，可能是該期間的全市場收盤價尚未回補。" ∷ [])

module _ {F : Type 0} where
  unfoldable pub stat_cells : BacktestHorizonStat F → List (Cell F)
  stat_cells stat =
      number_cell stat.n
      ∷ number_cell stat.samples
      ∷ number_cell stat.wins
      ∷ number_cell stat.losses
      ∷ number_cell stat.flat
      ∷ number_cell stat.missing
      ∷ float_cell stat.win_rate
      ∷ float_cell stat.avg_return_pct
      ∷ float_cell stat.median_return_pct
      ∷ float_cell stat.best_return_pct
      ∷ float_cell stat.worst_return_pct
      ∷ []

  -- The win rate is column 7.
  unfoldable pub stat_format : ℕ → List (SheetCall F)
  stat_format row = percent row 7 ∷ []

  module _ (str date : ℕ → Text) where
    -- `if result.warning: …`
    unfoldable pub warning_rows : Option Warning → List (SheetCall F)
    warning_rows none = []
    warning_rows (some w) =
        append []
        ∷ append (text_cell (concat (warning_sign ∷ codes " " ∷ warning_text str date w ∷ [])) ∷ [])
        ∷ []

    unfoldable pub summary_sheet : BacktestResponse F → List (SheetCall F)
    summary_sheet result =
        let rows = map stat_cells result.summary in
        let line = concat (
          codes "起漲個股回測（"
          ∷ mode_label result.mode
          ∷ codes "）  "
          ∷ date result.start
          ∷ codes " ~ "
          ∷ date result.end
          ∷ codes "  共 "
          ∷ str result.trading_days
          ∷ codes " 個篩選日、"
          ∷ str result.entries
          ∷ codes " 筆訊號"
          ∷ []) in
        title (codes "統計")
        ∷ append (text_cell line ∷ [])
        ∷ bold 1 1
        ∷ merge_first (length summary_headers)
        ∷ append (map text_cell summary_headers)
        ∷ (style_header 2 1 summary_headers
            ++ (map append rows
                ++ (each_row stat_format 3 rows
                    ++ (autosize 1 summary_widths
                        ++ (warning_rows result.warning
                            ++ append []
                              ∷ append (text_cell (warning_sign ++ codes " 統計為歷史資訊參考，非投資建議。") ∷ [])
                              ∷ [])))))

    unfoldable pub detail_cells : BacktestDetailRow F → List (Cell F)
    detail_cells row =
        text_cell (date row.trade_date)
        ∷ text_cell row.symbol
        ∷ text_cell row.name
        ∷ text_cell row.market
        ∷ float_cell (some row.entry_price)
        ∷ text_cell (date row.exit_date)
        ∷ float_cell (some row.exit_price)
        ∷ float_cell (some row.change)
        ∷ float_cell (some row.return_pct)
        ∷ []

    unfoldable pub detail_sheet : BacktestResponse F → List (SheetCall F)
    detail_sheet result =
        let order_label =
          if text_eq result.detail_order (codes "desc") then codes "由大到小" else codes "由小到大" in
        let line = concat (
          codes "N = "
          ∷ str result.detail_n
          ∷ codes " 個交易日後的個股表現"
          ∷ codes "（共 "
          ∷ str result.detail_total
          ∷ codes " 筆，本表列出 "
          ∷ str (length result.detail)
          ∷ codes " 筆；"
          ∷ codes "依「"
          ∷ sort_label result.detail_sort
          ∷ codes "」"
          ∷ order_label
          ∷ codes "排序）"
          ∷ []) in
        title (concat (codes "明細 N=" ∷ str result.detail_n ∷ []))
        ∷ append (text_cell line ∷ [])
        ∷ bold 1 1
        ∷ merge_first (length detail_headers)
        ∷ append (map text_cell detail_headers)
        ∷ (style_header 2 1 detail_headers
            ++ (map append (map detail_cells result.detail) ++ autosize 1 detail_widths))

    abbrev pub backtest_to_xlsx : BacktestResponse F → BacktestWorkbook F
    backtest_to_xlsx result = record {
      summary = summary_sheet result;
      detail = detail_sheet result;
    }

  unfoldable pub empty_backtest_xlsx : Text → List (SheetCall F)
  empty_backtest_xlsx message =
      title (codes "回測") ∷ append (text_cell message ∷ []) ∷ bold 1 1 ∷ autosize 1 (90 ∷ [])
