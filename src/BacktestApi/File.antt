-- ===== src/BacktestApi/File.antt =====
-- `GET …/backtest.xlsx` (app/routers/backtest.py): the run of `_run` as a workbook. `date` formats
-- a day as `%Y-%m-%d` and `compact` as `%Y%m%d`; `str` is Python's on a whole number.
use stock_quant_backend.Prelude.{ℕ, Option, List, [], ◌∷◌, if◌then◌else◌, ◌==◌}
use stock_quant_backend.Prelude.Text.{Text, codes}
use stock_quant_backend.Http.{Result, ok, raise}
use stock_quant_backend.Snapshots.{ScreenSnapshot, ScreenSnapshotItem}
use stock_quant_backend.Prices.{DailyPrice}
use stock_quant_backend.Backtest.{
  ℤ, Mode, intraday_to_close, close_to_close, Floats, BacktestResponse,
}
use stock_quant_backend.Mail.Messages.{concat}
use stock_quant_backend.Workbooks.Backtest.{BacktestWorkbook, backtest_to_xlsx, empty_backtest_xlsx}
use stock_quant_backend.BacktestApi.{Params, max_detail_rows, run}

-- `result.mode` as text
abbrev pub mode_name : Mode → Text
mode_name intraday_to_close = codes "intraday_to_close"
mode_name close_to_close = codes "close_to_close"

-- The name of the file, and the calls on its sheets; without entries there is one sheet.
pub record BacktestFile (F : Type 0) : Type 0 where
  pub filename : Text
  pub workbook : BacktestWorkbook F

module _ {F D : Type 0} (fl : Floats F) (to_float : D → F) (int : Text → Option ℤ) (today : ℕ)
    (str date compact : ℕ → Text) where
  unfoldable pub file_of : BacktestResponse F → BacktestFile F
  file_of result = record {
    filename = concat (
        codes "backtest_"
        ∷ compact result.start
        ∷ codes "_"
        ∷ compact result.end
        ∷ codes "_"
        ∷ mode_name result.mode
        ∷ codes "_N"
        ∷ str result.detail_n
        ∷ codes ".xlsx"
        ∷ []);
    workbook =
        if result.entries == 0
        then record {
          summary = empty_backtest_xlsx (
              concat (
                date result.start
                ∷ codes " ~ "
                ∷ date result.end
                ∷ codes " "
                ∷ codes "（"
                ∷ result.session
                ∷ codes "）區間內查無篩選紀錄。"
                ∷ []));
          detail = [];
        }
        else backtest_to_xlsx str date result;
  }

  -- The endpoint has no `detail_limit`; it asks for the most rows.
  unfoldable pub backtest_xlsx :
      Params
      → List ScreenSnapshot
      → List (ScreenSnapshotItem D)
      → List (DailyPrice D)
      → Result (BacktestFile F)
  backtest_xlsx p snapshots items rows =
      elim (run fl to_float int today (record p { detail_limit = max_detail_rows }) snapshots items
        rows) [ raise e ↦ raise e | ok result ↦ ok (file_of result) ]
