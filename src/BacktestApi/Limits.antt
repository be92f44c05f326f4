-- ===== src/BacktestApi/Limits.antt =====
-- What the backtest endpoints let through, and how large an answer can be.
use stock_quant_backend.Prelude.{
  ℕ, ◌+◌, ◌-◌, ◌≤◌, ◌≡◌, refl, ap, sym, ◌∙◌, subst, true, false, ◌&&◌, Option, none, some, List, [],
  ◌∷◌, map, All, any, length, count, ltb, ◌==◌, arith, Bool-cases, Option-cases, inl, inr, ◌⊎◌,
}
use stock_quant_backend.Prelude.Text.{Text, strip, codes, text_eq_sound}
use stock_quant_backend.Prelude.Split.{split}
use stock_quant_backend.Http.{Result, ok, raise, unprocessable, Result-cases}
use stock_quant_backend.Snapshots.{ScreenSnapshot, ScreenSnapshotItem, get_snapshot_coverage}
use stock_quant_backend.Prices.{DailyPrice}
use stock_quant_backend.Prices.Calendar.{Ascends}
use stock_quant_backend.Backtest.{
  intraday_to_close, close_to_close, ℤ, pos, negsuc, Mode, is_close_to_close, Floats,
  BacktestResponse, normalize_horizons, max_horizon, max_horizons, magnitude,
}
use stock_quant_backend.Backtest.Horizons.{normalize_horizons_lem}
use stock_quant_backend.Backtest.Run.{run_backtest}
use stock_quant_backend.BacktestApi.{
  Params, query, run, run_parsed, validated_mode, resolve_range, check_range, parse_horizons,
  parse_parts, parse_part, parse_stripped, some_values, below_one, max_range_days, first_of,
}
use stock_quant_backend.BacktestApi.Answers.{Repeats, run_backtest_cases}

module _ (int : Text → Option ℤ) where
  part_error :
      (s : Text) (rest : Result (List ℤ)) (f : _)
      → ((g : _) → rest ≡ raise g → g ≡ unprocessable)
      → parse_part int s rest ≡ raise f
      → f ≡ unprocessable
  unfolding parse_part
  part_error [] rest f ih h = ih f h
  part_error (c ∷ s) rest f ih h = elim (Option-cases (int (c ∷ s))) [
    | inl e ↦ ground arith
    | inr (n, e) ↦ elim (Result-cases rest) [
      | inl (g, k) ↦ let g' = ih g k in ground arith
      | inr (ns, k) ↦ absurd (ground arith)
    ]
  ]

  parts_error : (ps : List Text) (f : _) → parse_parts int ps ≡ raise f → f ≡ unprocessable
  unfolding parse_parts
  parts_error [] f h = absurd (ground arith)
  parts_error (p ∷ ps) f h = part_error (strip p) (parse_parts int ps) f (parts_error ps) h

  some_error :
      (r : Result (List ℤ)) (f : _)
      → ((g : _) → r ≡ raise g → g ≡ unprocessable)
      → some_values int r ≡ raise f
      → f ≡ unprocessable
  some_error (raise g) f ih h = ih f h
  some_error (ok []) f ih h = ground arith
  some_error (ok (n ∷ ns)) f ih h = absurd (ground arith)

  stripped_error : (raw s : Text) (f : _) → parse_stripped int raw s ≡ raise f → f ≡ unprocessable
  stripped_error raw [] f h = absurd (ground arith)
  stripped_error raw (c ∷ s) f h =
      some_error (parse_parts int (split 44 raw)) f (parts_error (split 44 raw)) h

  horizons_error :
      (raw : Option Text) (f : _) → parse_horizons int raw ≡ raise f → f ≡ unprocessable
  unfolding parse_horizons
  horizons_error none f h = absurd (ground arith)
  horizons_error (some raw) f h = stripped_error raw (strip raw) f h

range_cases :
    (start end : ℕ)
    → (check_range start end ≡ raise unprocessable)
      ⊎ ((check_range start end ≡ ok (start, end)) × (start ≤ end) × (end ≤ start + max_range_days))
unfolding check_range
range_cases start end = elim (Bool-cases (ltb end start)) [
  | inl y ↦ inl (ground arith)
  | inr n ↦ elim (Bool-cases (ltb max_range_days (end - start))) [
    | inl y ↦ inl (ground arith)
    | inr m ↦ inr (ground arith, ground arith, ground arith)
  ]
]

no_zero :
    (values : List ℤ)
    → any below_one values ≡ false
    → any (λ m. m == 0) (map magnitude values) ≡ false
no_zero [] h = refl
no_zero (pos n ∷ values) h = ground (arith, no_zero values)
no_zero (negsuc n ∷ values) h = absurd (ground arith)

none_zero : (ns : List ℕ) → count (λ m. m == 0) ns ≡ 0 → any (λ n. n == 0) ns ≡ false
none_zero [] h = refl
none_zero (n ∷ ns) h = ground (arith, none_zero ns)

-- The name of a mode.
abbrev pub mode_text : Mode → Text
mode_text intraday_to_close = codes "intraday_to_close"
mode_text close_to_close = codes "close_to_close"

-- The bounds of an answer.
abbrev pub IsWithin : {F : Type 0} → BacktestResponse F → Type 0
IsWithin r =
    (r.start ≤ r.end)
    × (r.end ≤ r.start + 1830)
    × Ascends r.horizons
    × All (λ n. n ≤ 120) r.horizons
    × (length r.horizons ≤ 16)
    × ((is_close_to_close r.mode && any (λ n. n == 0) r.horizons) ≡ false)
    × (any (λ n. n == r.detail_n) r.horizons ≡ true)

-- An answer within its bounds, to the parameters.
abbrev pub IsBounded : {F : Type 0} → Params → BacktestResponse F → Type 0
IsBounded p r =
    IsWithin r
    × (length r.detail ≤ p.detail_limit)
    × (mode_text r.mode ≡ p.mode)
    × (r.detail_sort ≡ p.detail_sort)
    × (r.detail_order ≡ p.detail_order)

mode_text-validated_mode :
    (text : Text) (mode : Mode) → validated_mode text ≡ ok mode → mode_text mode ≡ text
unfolding validated_mode
mode_text-validated_mode text mode h = ground (
  arith,
  text_eq_sound text (codes "intraday_to_close"),
  text_eq_sound text (codes "close_to_close"),
)

mode_error : (mode : Text) (f : _) → validated_mode mode ≡ raise f → f ≡ unprocessable
unfolding validated_mode
mode_error mode f h = ground arith

module _ {F D : Type 0} (fl : Floats F) (to_float : D → F) (int : Text → Option ℤ) (today : ℕ) where
  -- Refused with 422, or answered within the bounds.
  abbrev pub IsAnswer : Params → Result (BacktestResponse F) → Type 0
  IsAnswer p x = (x ≡ raise unprocessable) ⊎ ((r : BacktestResponse F) × (x ≡ ok r) × IsBounded p r)

  bounded :
      (p : Params) (mode : Mode) (start end : ℕ) (values : List ℤ) (ns : List ℕ)
      (r : BacktestResponse F)
      → (is_close_to_close mode && any below_one values) ≡ false
      → start ≤ end
      → end ≤ start + max_range_days
      → normalize_horizons values ≡ ok ns
      → Repeats fl to_float (query p mode (start, end) values) ns p.detail_limit r
      → mode_text mode ≡ p.mode
      → IsBounded p r
  bounded p mode start end values ns r ones order wide h (s, e, m, hs, k, short, sort, direction)
        named =
      let (ascends, small, few, signed, counts) = normalize_horizons_lem values ns h in
      let back = λ (P : List ℕ → Type 0) (x : P ns). subst P (sym hs) x in
      (
        (
          ground arith,
          ground arith,
          back Ascends ascends,
          back (All (λ n. n ≤ max_horizon)) small,
          back (λ z. length z ≤ max_horizons) few,
          ap (λ z. is_close_to_close z && any (λ n. n == 0) r.horizons) m
              ∙ back (λ z. (is_close_to_close mode && any (λ n. n == 0) z) ≡ false)
                  (elim (Bool-cases (is_close_to_close mode)) [
                    | inr o ↦ rw o refl
                    | inl c ↦
                        let none_below : any below_one values ≡ false = ground arith in
                        let none_there = no_zero values none_below in
                        let zero_count = counts 0 in rw c (none_zero ns (ground arith))
                  ]),
          back (λ z. any (λ n. n == r.detail_n) z ≡ true) k,
        ),
        short,
        ap mode_text m ∙ named,
        sort,
        direction,
      )

  run_parsed_lem :
      (p : Params) (mode : Mode) (start end : ℕ) (values : List ℤ) (snapshots : List ScreenSnapshot)
      (items : List (ScreenSnapshotItem D)) (rows : List (DailyPrice D))
      → start ≤ end
      → end ≤ start + max_range_days
      → mode_text mode ≡ p.mode
      → IsAnswer p
          (run_parsed fl to_float int today p mode (start, end) values snapshots items rows)
  unfolding run_parsed
  run_parsed_lem p mode start end values snapshots items rows order wide named =
      elim (Bool-cases (is_close_to_close mode && any below_one values)) [
        | inl y ↦ inl (rw (run_parsed, y) refl)
        | inr n ↦
            let same : run_parsed fl to_float int today p mode (start, end) values snapshots items
                  rows
                ≡ run_backtest fl to_float (query p mode (start, end) values) snapshots items rows =
              rw (run_parsed, n) refl in
            elim (run_backtest_cases fl to_float (query p mode (start, end) values) p.detail_limit
              snapshots items rows refl) [
                | inl e ↦ inl (same ∙ e)
                | inr (r, ns, e, h, repeats) ↦
                    inr (
                      r,
                      same ∙ e,
                      bounded p mode start end values ns r n order wide h repeats named,
                    )
              ]
      ]

  -- Every request to the backtest is refused with 422 or answered, whatever its parameters and the
  -- tables hold: no other error is raised. An answer covers a range that is not empty and not
  -- longer than five years of 366 days; its horizons are strictly ascending, at most 16, none
  -- above 120, and none below 1 from close to close; the detailed horizon is one of them; and its
  -- table is no longer than the limit asked for.
  pub run_lem :
      (p : Params) (snapshots : List ScreenSnapshot) (items : List (ScreenSnapshotItem D))
      (rows : List (DailyPrice D))
      → IsAnswer p (run fl to_float int today p snapshots items rows)
  unfolding run resolve_range
  run_lem p snapshots items rows =
      let coverage = get_snapshot_coverage snapshots in
      let start = first_of p.start coverage.min_date today in
      let end = first_of p.end coverage.max_date today in
      elim (Result-cases (validated_mode p.mode)) [
        | inl (f, e) ↦ let f' = mode_error p.mode f e in inl (ground arith)
        | inr (mode, e) ↦ elim (range_cases start end) [
          | inl g ↦ inl (ground arith)
          | inr (g, order, wide) ↦ elim (Result-cases (parse_horizons int p.horizons)) [
            | inl (f, h) ↦ let f' = horizons_error int p.horizons f h in inl (ground arith)
            | inr (values, h) ↦
                let same : run fl to_float int today p snapshots items rows
                    ≡ run_parsed fl to_float int today p mode (start, end) values snapshots items
                        rows =
                  ground arith in
                subst (IsAnswer p) (sym same) (
                  run_parsed_lem p mode start end values snapshots items rows order wide
                    (mode_text-validated_mode p.mode mode e))
          ]
        ]
      ]
