-- ===== src/BacktestApi/Endpoint.antt =====
-- `GET /backtestapi/run` (app/routers/backtest.py): the parameters with their defaults and the bounds
-- that FastAPI checks before the handler runs. Dates and numbers come parsed.
use stock_quant_backend.Prelude.{
  ℕ, ◌≤◌, ◌≡◌, refl, sym, ◌∙◌, subst, Bool, true, false, length, Option, none, some, List, ◌⊎◌, inl,
  inr, if◌then◌else◌, leb, arith, Option-cases,
}
use stock_quant_backend.Prelude.Text.{Text, codes}
use stock_quant_backend.Http.{Result, ok, raise, unprocessable}
use stock_quant_backend.Snapshots.{ScreenSnapshot, ScreenSnapshotItem}
use stock_quant_backend.Prices.{DailyPrice}
use stock_quant_backend.Backtest.{ℤ, pos, negsuc, Floats, BacktestResponse}
use stock_quant_backend.BacktestApi.{Params, run, max_detail_rows}
use stock_quant_backend.BacktestApi.Limits.{IsWithin, mode_text, IsAnswer, run_lem}

-- What is given of each parameter.
pub record RunQuery : Type 0 where
  pub mode : Option Text
  pub start : Option ℕ
  pub end : Option ℕ
  pub horizons : Option Text
  pub detail_n : Option ℤ
  pub detail_limit : Option ℤ
  pub detail_sort : Option Text
  pub detail_order : Option Text

abbrev pub or_default : {A : Type 0} → Option A → A → A
or_default none a = a
or_default (some b) a = b

-- `Query(500, ge=0, le=_MAX_DETAIL_ROWS)`
abbrev pub limit_of : Option ℤ → Option ℕ
limit_of none = some 500
limit_of (some (pos n)) = if leb n max_detail_rows then some n else none
limit_of (some (negsuc n)) = none

abbrev pub params_of : RunQuery → ℕ → Params
params_of q limit = record {
  mode = or_default q.mode (codes "close_to_close");
  start = q.start;
  end = q.end;
  horizons = q.horizons;
  detail_n = q.detail_n;
  detail_limit = limit;
  detail_sort = or_default q.detail_sort (codes "trade_date");
  detail_order = or_default q.detail_order (codes "desc");
}

-- The table's bound that a query asks for, and whether it may.
abbrev pub asked_limit : Option ℤ → ℕ
asked_limit none = 500
asked_limit (some (pos n)) = n
asked_limit (some (negsuc n)) = 0

abbrev pub is_limit : Option ℤ → Bool
is_limit none = true
is_limit (some (pos n)) = leb n 5000
is_limit (some (negsuc n)) = false

limit_bounded :
    (l : Option ℤ) (n : ℕ)
    → limit_of l ≡ some n
    → (n ≡ asked_limit l) × (is_limit l ≡ true) × (n ≤ 5000)
limit_bounded none n e = (ground arith, refl, ground arith)
limit_bounded (some (pos k)) n e = (ground arith, ground arith, ground arith)
limit_bounded (some (negsuc k)) n e = absurd (ground arith)

module _ {F D : Type 0} (fl : Floats F) (to_float : D → F) (int : Text → Option ℤ) (today : ℕ) where
  unfoldable pub backtest_run :
      RunQuery
      → List ScreenSnapshot
      → List (ScreenSnapshotItem D)
      → List (DailyPrice D)
      → Result (BacktestResponse F)
  backtest_run q snapshots items rows = elim (limit_of q.detail_limit) [
    | none ↦ raise unprocessable
    | some limit ↦ run fl to_float int today (params_of q limit) snapshots items rows
  ]

  -- The two ends of a request: the 422, or an answer within the bounds.
  abbrev pub IsServed : RunQuery → Result (BacktestResponse F) → Type 0
  IsServed q x =
      (x ≡ raise unprocessable)
      ⊎ ((r : BacktestResponse F) × (x ≡ ok r)
          × IsWithin r
          × (is_limit q.detail_limit ≡ true)
          × (length r.detail ≤ asked_limit q.detail_limit)
          × (length r.detail ≤ 5000)
          × (mode_text r.mode ≡ (elim q.mode [ none ↦ codes "close_to_close" | some m ↦ m ]))
          × (r.detail_sort ≡ (elim q.detail_sort [ none ↦ codes "trade_date" | some s ↦ s ]))
          × (r.detail_order ≡ (elim q.detail_order [ none ↦ codes "desc" | some o ↦ o ])))

  or_default_lem :
      (o : Option Text) (t : Text) → or_default o t ≡ (elim o [ none ↦ t | some s ↦ s ])
  or_default_lem none t = refl
  or_default_lem (some s) t = refl

  served :
      (q : RunQuery) (n : ℕ) (x : Result (BacktestResponse F))
      → limit_of q.detail_limit ≡ some n
      → IsAnswer fl to_float int today (params_of q n) x
      → IsServed q x
  served q n x e (inl h) = inl h
  served q n x e (inr (r, h, (within, short, mode, sort, order))) =
      let (asked, may, few) = limit_bounded q.detail_limit n e in
      inr (
        r,
        h,
        within,
        may,
        omega (arith, short, asked),
        omega (arith, short, few),
        mode ∙ or_default_lem q.mode (codes "close_to_close"),
        sort ∙ or_default_lem q.detail_sort (codes "trade_date"),
        order ∙ or_default_lem q.detail_order (codes "desc"),
      )

  -- Every request to `GET …/run`, whichever parameters it gives and whatever the tables hold, is
  -- refused with 422 or answered: no other error is raised. An answer covers a range that is not
  -- empty and not longer than five years of 366 days; its horizons are strictly ascending, at most
  -- 16, none above 120, and none below 1 from close to close; the detailed horizon is one of them;
  -- its table is no longer than the limit given, or 500 if none is, and a limit below 0 or above
  -- 5000 is never answered; and its mode, its column and its direction are those given, or from
  -- close to close, by the date, and descending where none is.
  pub backtest_run_lem :
      (q : RunQuery) (snapshots : List ScreenSnapshot) (items : List (ScreenSnapshotItem D))
      (rows : List (DailyPrice D))
      → IsServed q (backtest_run q snapshots items rows)
  unfolding backtest_run
  backtest_run_lem q snapshots items rows = elim (Option-cases (limit_of q.detail_limit)) [
    | inl e ↦ inl (rw (backtest_run, e) refl)
    | inr (n, e) ↦
        let same : backtest_run q snapshots items rows
            ≡ run fl to_float int today (params_of q n) snapshots items rows =
          rw (backtest_run, e) refl in
        subst (IsServed q) (sym same)
          (served q n _ e (run_lem fl to_float int today (params_of q n) snapshots items rows))
  ]
