-- ===== src/Downloads/Range.antt =====
-- `GET …/snapshots.xlsx`: when it is refused, and what its workbook holds.
use stock_quant_backend.Prelude.{
  ℕ, ◌+◌, ◌-◌, ◌≡◌, Bool, true, false, ◌&&◌, not, some, List, [], ◌∷◌, ltb, ◌⊎◌,
}
use stock_quant_backend.Prelude.Text.{Text, codes}
use stock_quant_backend.Http.{Result, ok, raise, unprocessable}
use stock_quant_backend.Snapshots.{ScreenSnapshot, list_snapshots_in_range}
use stock_quant_backend.Snapshots.Uploads.{is_session}
use stock_quant_backend.Workbooks.{range_headers}
use stock_quant_backend.Workbooks.Layout.{columns_headed, IsSheet}
use stock_quant_backend.Downloads.{Download, max_range_days}

-- A request that is answered: a known session, and days in order, at most a year apart.
abbrev pub may_download : ℕ → ℕ → Text → Bool
may_download start end session =
    is_session session && not (ltb end start) && not (ltb max_range_days (end - start))

-- The items that the headers tell of.
unfoldable pub told_items : List ScreenSnapshot → ℕ
told_items [] = 0
told_items (s ∷ snaps) = s.item_count + told_items snaps

-- The lines of the sheet: title and headers and one for each item, or the one that says that
-- there is nothing.
abbrev pub lines_of : List ScreenSnapshot → ℕ
lines_of [] = 1
lines_of (s ∷ snaps) = 2 + told_items (s ∷ snaps)

-- The headers of the columns of prices, of their changes and of ratios.
abbrev pub price_headers : List Text
price_headers =
    codes "現價"
    ∷ codes "漲跌"
    ∷ codes "漲幅%"
    ∷ codes "昨高"
    ∷ codes "量比"
    ∷ codes "5MA"
    ∷ codes "月線(20MA)"
    ∷ codes "昨收"
    ∷ []

abbrev pub price_columns : List ℕ
price_columns = columns_headed price_headers range_headers 1

module _ {F D : Type 0} (to_float : D → F) (str date compact stamp : ℕ → Text) where
  -- Refused with 422 exactly where the request may not be answered, or answered with a file.
  abbrev pub IsRangeAnswer : ℕ → ℕ → Text → List ScreenSnapshot → Result (Download F) → Type 0
  IsRangeAnswer start end session snapshots x =
      ((may_download start end session ≡ false) × (x ≡ raise unprocessable))
      ⊎ ((may_download start end session ≡ true)
          × (d : Download F) × (x ≡ ok d)
          × IsSheet (lines_of (list_snapshots_in_range start end (some session) snapshots))
              price_columns d.calls)
