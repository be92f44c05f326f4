-- ===== src/Workbooks/Layout.antt =====
-- The layout of a workbook's sheet: which rows are there, and where prices are formatted.
use stock_quant_backend.Prelude.{
  ℕ, zero, suc, ◌+◌, ◌-◌, ◌≡◌, refl, ap, sym, ◌∙◌, subst, Bool, true, false, Option, none, some,
  List, [], ◌∷◌, ◌++◌, map, length, length-append, get_elem?, any, if◌then◌else◌, All, arith,
}
use mathlib.Core.List.{append-nil}
use stock_quant_backend.Prelude.Text.{Text, codes, text_eq}
use stock_quant_backend.Prelude.Counting.{All-append}
use stock_quant_backend.Workbooks.{
  Cell, text_cell, float_cell, SheetCall, append, two_places, freeze, autosize, style_header,
  each_row, sheet,
}

append_assoc : {A : Type 0} (xs ys zs : List A) → (xs ++ ys) ++ zs ≡ xs ++ (ys ++ zs)
append_assoc [] ys zs = refl
append_assoc (x ∷ xs) ys zs = ap (λ l. x ∷ l) (append_assoc xs ys zs)

-- The numbers of the columns under some headers, counted on from a number.
abbrev pub columns_headed : List Text → List Text → ℕ → List ℕ
columns_headed names [] column = []
columns_headed names (h ∷ hs) column =
    let rest = columns_headed names hs (column + 1) in
    if any (text_eq h) names then column ∷ rest else rest

-- Those columns in so many lines, from a first one on.
abbrev pub format_lines : List ℕ → ℕ → ℕ → List (ℕ × ℕ)
format_lines columns first zero = []
format_lines columns first (suc n) =
    map (λ c. (first, c)) columns ++ format_lines columns (first + 1) n

module _ {F : Type 0} where
  -- The row that a call adds.
  abbrev pub appended : SheetCall F → List (List (Cell F))
  appended (append r) = r ∷ []
  appended c = []

  -- The rows of the sheet.
  unfoldable pub grid : List (SheetCall F) → List (List (Cell F))
  grid [] = []
  grid (c ∷ cs) = appended c ++ grid cs

  -- The cell in a row and a column, both counted from 1.
  unfoldable pub cell_at : List (List (Cell F)) → ℕ → ℕ → Option (Cell F)
  cell_at g r c = elim (get_elem? g (r - 1)) [ none ↦ none | some row ↦ get_elem? row (c - 1) ]

  abbrev pub is_price : Option (Cell F) → Bool
  is_price (some (float_cell x)) = true
  is_price o = false

  -- A cell that is formatted with two places is a price of the sheet.
  abbrev pub IsTidy : List (List (Cell F)) → SheetCall F → Type 0
  IsTidy g (two_places r c) = is_price (cell_at g r c) ≡ true
  IsTidy g c = Unit {0}

  -- The cells that are formatted with two places, in the order of the calls.
  abbrev formatted : SheetCall F → List (ℕ × ℕ)
  formatted (two_places r c) = (r, c) ∷ []
  formatted c = []

  unfoldable pub formats : List (SheetCall F) → List (ℕ × ℕ)
  formats [] = []
  formats (c ∷ cs) = formatted c ++ formats cs

  formats-append : (xs ys : List (SheetCall F)) → formats (xs ++ ys) ≡ formats xs ++ formats ys
  unfolding formats
  formats-append [] ys = refl
  formats-append (x ∷ xs) ys =
      ap (λ l. formatted x ++ l) (formats-append xs ys)
      ∙ sym (append_assoc (formatted x) (formats xs) (formats ys))

  formats-style_header :
      (row column : ℕ) (hs : List Text) (cs : List (SheetCall F))
      → formats (style_header row column hs ++ cs) ≡ formats cs
  unfolding formats style_header
  formats-style_header row column [] cs = refl
  formats-style_header row column (h ∷ hs) cs = formats-style_header row (column + 1) hs cs

  formats-autosize :
      (column : ℕ) (ws : List ℕ) (cs : List (SheetCall F))
      → formats (autosize column ws ++ cs) ≡ formats cs
  unfolding formats autosize
  formats-autosize column [] cs = refl
  formats-autosize column (w ∷ ws) cs = formats-autosize (column + 1) ws cs

  formats-map_append : (rows : List (List (Cell F))) → formats (map append rows) ≡ []
  unfolding formats
  formats-map_append [] = refl
  formats-map_append (r ∷ rows) = formats-map_append rows

  formats-each_row :
      (body : ℕ → List (SheetCall F)) (columns : List ℕ) (first : ℕ) (rows : List (List (Cell F)))
      → ((n : ℕ) → formats (body n) ≡ map (λ c. (n, c)) columns)
      → formats (each_row body first rows) ≡ format_lines columns first (length rows)
  unfolding formats each_row
  formats-each_row body columns first [] h = refl
  formats-each_row body columns first (r ∷ rows) h =
      formats-append (body first) (each_row body (first + 1) rows)
      ∙ ap (λ l. l ++ formats (each_row body (first + 1) rows)) (h first)
      ∙ ap (λ l. map (λ c. (first, c)) columns ++ l)
          (formats-each_row body columns (first + 1) rows h)

  -- On a whole sheet: the same columns in each line of data, and nothing else.
  formats-sheet :
      (name line : Text) (headers : List Text) (widths : List ℕ) (body : ℕ → List (SheetCall F))
      (columns : List ℕ) (rows : List (List (Cell F)))
      → ((n : ℕ) → formats (body n) ≡ map (λ c. (n, c)) columns)
      → formats (sheet name line headers widths body rows) ≡ format_lines columns 3 (length rows)
  unfolding formats sheet
  formats-sheet name line headers widths body columns rows h =
      let last = autosize 1 widths ++ freeze (codes "A3") ∷ [] in
      let end = each_row body 3 rows ++ last in
      let quiet_last : formats last ≡ [] = formats-autosize 1 widths _ in
      formats-style_header 2 1 headers (map append rows ++ end)
      ∙ formats-append (map append rows) end
      ∙ ap (λ l. l ++ formats end) (formats-map_append rows)
      ∙ formats-append (each_row body 3 rows) last
      ∙ ap (λ l. formats (each_row body 3 rows) ++ l) quiet_last
      ∙ append-nil (formats (each_row body 3 rows))
      ∙ formats-each_row body columns 3 rows h

  grid-append : (xs ys : List (SheetCall F)) → grid (xs ++ ys) ≡ grid xs ++ grid ys
  unfolding grid
  grid-append [] ys = refl
  grid-append (x ∷ xs) ys =
      ap (λ l. appended x ++ l) (grid-append xs ys)
      ∙ sym (append_assoc (appended x) (grid xs) (grid ys))

  grid-style_header : (row column : ℕ) (hs : List Text) → grid (style_header row column hs) ≡ []
  unfolding grid style_header
  grid-style_header row column [] = refl
  grid-style_header row column (h ∷ hs) = grid-style_header row (column + 1) hs

  grid-autosize : (column : ℕ) (ws : List ℕ) → grid (autosize column ws) ≡ []
  unfolding grid autosize
  grid-autosize column [] = refl
  grid-autosize column (w ∷ ws) = grid-autosize (column + 1) ws

  grid-map_append : (rows : List (List (Cell F))) → grid (map append rows) ≡ rows
  unfolding grid
  grid-map_append [] = refl
  grid-map_append (r ∷ rows) = ap (λ l. r ∷ l) (grid-map_append rows)

  grid-each_row :
      (body : ℕ → List (SheetCall F)) (first : ℕ) (rows : List (List (Cell F)))
      → ((n : ℕ) → grid (body n) ≡ [])
      → grid (each_row body first rows) ≡ []
  unfolding grid each_row
  grid-each_row body first [] h = refl
  grid-each_row body first (r ∷ rows) h =
      grid-append (body first) (each_row body (first + 1) rows)
      ∙ ap (λ l. l ++ grid (each_row body (first + 1) rows)) (h first)
      ∙ grid-each_row body (first + 1) rows h

  -- The rows of a whole sheet: the line, the headers and the data.
  pub grid-sheet :
      (name line : Text) (headers : List Text) (widths : List ℕ) (body : ℕ → List (SheetCall F))
      (rows : List (List (Cell F)))
      → ((n : ℕ) → grid (body n) ≡ [])
      → grid (sheet name line headers widths body rows)
        ≡ (text_cell line ∷ []) ∷ map text_cell headers ∷ rows
  unfolding grid sheet
  grid-sheet name line headers widths body rows h =
      let last = autosize 1 widths ++ freeze (codes "A3") ∷ [] in
      let end = each_row body 3 rows ++ last in
      let quiet_last : grid last ≡ [] =
        grid-append (autosize 1 widths) _ ∙ ap (λ l. l ++ []) (grid-autosize 1 widths) in
      let quiet_end : grid end ≡ [] =
        grid-append (each_row body 3 rows) last
        ∙ ap (λ l. l ++ grid last) (grid-each_row body 3 rows h)
        ∙ quiet_last in
      ap (λ l. (text_cell line ∷ []) ∷ map text_cell headers ∷ l)
        (grid-append (style_header 2 1 headers) (map append rows ++ end)
          ∙ ap (λ l. l ++ grid (map append rows ++ end)) (grid-style_header 2 1 headers)
          ∙ grid-append (map append rows) end
          ∙ ap (λ l. grid (map append rows) ++ l) quiet_end
          ∙ ap (λ l. l ++ []) (grid-map_append rows)
          ∙ append-nil rows)

  get_elem?-past :
      (pre rows : List (List (Cell F))) (r : List (Cell F))
      → get_elem? (pre ++ r ∷ rows) (length pre) ≡ some r
  get_elem?-past [] rows r = refl
  get_elem?-past (p ∷ pre) rows r = get_elem?-past pre rows r

  pub cell_there :
      (g : List (List (Cell F))) (k c : ℕ) (r : List (Cell F))
      → get_elem? g k ≡ some r
      → cell_at g (k + 1) c ≡ get_elem? r (c - 1)
  unfolding cell_at
  cell_there g k c r e =
      let back : k + 1 - 1 ≡ k = omega arith in
      let there : get_elem? g (k + 1 - 1) ≡ some r = ap (get_elem? g) back ∙ e in
      rw (cell_at, there) refl

  -- The body's calls for a row of the grid are tidy.
  abbrev pub TidyRow : (ℕ → List (SheetCall F)) → List (Cell F) → Type 0
  TidyRow body r =
      (g : List (List (Cell F))) (k : ℕ) → get_elem? g k ≡ some r → All (IsTidy g) (body (k + 1))

  IsTidy-each_row :
      (body : ℕ → List (SheetCall F)) (pre rows : List (List (Cell F)))
      → All (TidyRow body) rows
      → All (IsTidy (pre ++ rows)) (each_row body (length pre + 1) rows)
  unfolding each_row
  IsTidy-each_row body pre [] h = tt
  IsTidy-each_row body pre (r ∷ rows) h =
      let g = pre ++ r ∷ rows in
      let same : (pre ++ r ∷ []) ++ rows ≡ g = append_assoc pre (r ∷ []) rows in
      let next : length (pre ++ r ∷ []) ≡ length pre + 1 = length-append pre (r ∷ []) in
      All-append (IsTidy g) (body (length pre + 1)) (each_row body (length pre + 1 + 1) rows)
        (h.0 g (length pre) (get_elem?-past pre rows r))
        (subst (λ k. All (IsTidy g) (each_row body (k + 1) rows)) next
          (subst (λ l. All (IsTidy l) (each_row body (length (pre ++ r ∷ []) + 1) rows)) same
            (IsTidy-each_row body (pre ++ r ∷ []) rows h.1)))

  IsTidy-style_header :
      (g : List (List (Cell F))) (row column : ℕ) (hs : List Text)
      → All (IsTidy g) (style_header row column hs)
  unfolding style_header
  IsTidy-style_header g row column [] = tt
  IsTidy-style_header g row column (h ∷ hs) = (tt, IsTidy-style_header g row (column + 1) hs)

  IsTidy-autosize :
      (g : List (List (Cell F))) (column : ℕ) (ws : List ℕ) → All (IsTidy g) (autosize column ws)
  unfolding autosize
  IsTidy-autosize g column [] = tt
  IsTidy-autosize g column (w ∷ ws) = (tt, IsTidy-autosize g (column + 1) ws)

  IsTidy-map_append : (g rows : List (List (Cell F))) → All (IsTidy g) (map append rows)
  IsTidy-map_append g [] = tt
  IsTidy-map_append g (r ∷ rows) = (tt, IsTidy-map_append g rows)

  pub sheet-IsTidy :
      (name line : Text) (headers : List Text) (widths : List ℕ) (body : ℕ → List (SheetCall F))
      (rows : List (List (Cell F)))
      → All (TidyRow body) rows
      → All
          (IsTidy ((text_cell line ∷ []) ∷ map text_cell headers ∷ rows))
          (sheet name line headers widths body rows)
  unfolding sheet
  sheet-IsTidy name line headers widths body rows h =
      let pre : List (List (Cell F)) = (text_cell line ∷ []) ∷ map text_cell headers ∷ [] in
      let g = pre ++ rows in
      (
        tt,
        (
          tt,
          (
            tt,
            (
              tt,
              (
                tt,
                All-append (IsTidy g) (style_header 2 1 headers) _
                    (IsTidy-style_header g 2 1 headers)
                    (All-append (IsTidy g) (map append rows) _ (IsTidy-map_append g rows) (
                      All-append (IsTidy g) (each_row body 3 rows) _
                        (IsTidy-each_row body pre rows h)
                        (All-append (IsTidy g) (autosize 1 widths) _ (IsTidy-autosize g 1 widths)
                          (tt, tt)))),
              ),
            ),
          ),
        ),
      )

  -- The calls make that many lines, and format just those columns of the lines below the first two,
  -- where there are prices.
  abbrev pub IsSheet : ℕ → List ℕ → List (SheetCall F) → Type 0
  IsSheet lines columns calls =
      All (IsTidy (grid calls)) calls
      × (length (grid calls) ≡ lines)
      × (formats calls ≡ format_lines columns 3 (lines - 2))

  pub sheet-IsSheet :
      (name line : Text) (headers : List Text) (widths : List ℕ) (body : ℕ → List (SheetCall F))
      (columns : List ℕ) (rows : List (List (Cell F)))
      → ((n : ℕ) → grid (body n) ≡ [])
      → ((n : ℕ) → formats (body n) ≡ map (λ c. (n, c)) columns)
      → All (TidyRow body) rows
      → IsSheet (2 + length rows) columns (sheet name line headers widths body rows)
  sheet-IsSheet name line headers widths body columns rows quiet formatted_at tidy =
      let calls = sheet name line headers widths body rows in
      let shape = grid-sheet name line headers widths body rows quiet in
      (
        subst (λ g. All (IsTidy g) calls) (sym shape)
            (sheet-IsTidy name line headers widths body rows tidy),
        ap length shape ∙ omega arith,
        formats-sheet name line headers widths body columns rows formatted_at
            ∙ ap (format_lines columns 3) (omega arith),
      )
