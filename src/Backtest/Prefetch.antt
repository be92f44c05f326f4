-- ===== src/Backtest/Prefetch.antt =====
-- The prices that `run_backtest` fetches before its loop are all that the loop looks up.
use stock_quant_backend.Prelude.{
  ℕ, ◌≡◌, refl, ap, sym, ◌∙◌, subst, Bool, true, ◌&&◌, ◌||◌, Option, none, some, List, [], ◌∷◌,
  ◌++◌, All, any, arith, Bool-cases, Option-cases, inl, inr, ◌==◌,
}
use stock_quant_backend.Prelude.Text.{Text, text_eq, text_eq_self}
use stock_quant_backend.Prices.{DailyPrice, CloseMap, find_price, load_close_prices}
use stock_quant_backend.Prices.Loading.{
  IsTable, is_wanted, is_named, close_or, load_close_prices_lem,
}
use stock_quant_backend.Backtest.{Mode, is_close_to_close, nth_trading_day, Floats, Entry, want}
use stock_quant_backend.Backtest.Engine.{
  want_exits, want_entry, want_all, Tally, no_tally, entry_price_of, exit_of, settle_one,
  settle_all, run_entry, run_entries, miss, settle,
}
use stock_quant_backend.Backtest.Run.{Query, tally}

abbrev Wanted : Type 0
Wanted = List (ℕ × List Text)

any-snoc : (p : Text → Bool) (xs : List Text) (s : Text) → any p (xs ++ s ∷ []) ≡ (any p xs || p s)
any-snoc p [] s = ground arith
any-snoc p (x ∷ xs) s = ground (arith, any-snoc p xs s)

is_wanted-want :
    (day : ℕ) (s : Text) (w : Wanted) (s' : Text) (d' : ℕ)
    → is_wanted (want day s w) s' d' ≡ ((d' == day && text_eq s s') || is_wanted w s' d')
unfolding want
is_wanted-want day s [] s' d' = ground arith
is_wanted-want day s ((d, symbols) ∷ w) s' d' =
    ground (arith, is_wanted-want day s w s' d', any-snoc (λ t. text_eq t s') symbols s)

-- What was asked for stays asked for.
abbrev Grows : Wanted → Wanted → Type 0
Grows w w' = (s : Text) (d : ℕ) → is_wanted w s d ≡ true → is_wanted w' s d ≡ true

want-Grows : (day : ℕ) (s : Text) (w : Wanted) → Grows w (want day s w)
want-Grows day s w s' d' h = ground (arith, is_wanted-want day s w s' d', h)

want_self : (day : ℕ) (s : Text) (w : Wanted) → is_wanted (want day s w) s day ≡ true
want_self day s w = ground (arith, is_wanted-want day s w s day, text_eq_self s)

abbrev add : Text → Wanted → Option ℕ → Wanted
add symbol w o = elim o [ none ↦ w | some exit_day ↦ want exit_day symbol w ]

add-Grows : (symbol : Text) (w : Wanted) (o : Option ℕ) → Grows w (add symbol w o)
add-Grows symbol w none s d h = h
add-Grows symbol w (some x) s d h = want-Grows x symbol w s d h

module _ {F : Type 0} (mode : Mode) (calendar : List ℕ) where
  -- The exit of an entry at a horizon has been asked for.
  abbrev Covers : Entry F → Wanted → ℕ → Type 0
  Covers e w n =
      (x : ℕ) → nth_trading_day calendar e.trade_date n ≡ some x → is_wanted w e.symbol x ≡ true

  abbrev asked : Entry F → ℕ → Wanted → Wanted
  asked e n w = add e.symbol w (nth_trading_day calendar e.trade_date n)

  asked-Grows : (e : Entry F) (n : ℕ) (w : Wanted) → Grows w (asked e n w)
  asked-Grows e n w = add-Grows e.symbol w (nth_trading_day calendar e.trade_date n)

  asked-Covers : (e : Entry F) (n : ℕ) (w : Wanted) → Covers e (asked e n w) n
  asked-Covers e n w x k =
      subst (λ o. is_wanted (add e.symbol w o) e.symbol x ≡ true) (sym k) (want_self x e.symbol w)

  want_exits-Grows : (e : Entry F) (ns : List ℕ) (w : Wanted) → Grows w (want_exits calendar e ns w)
  unfolding want_exits
  want_exits-Grows e [] w s d h = h
  want_exits-Grows e (n ∷ ns) w s d h =
      want_exits-Grows e ns (asked e n w) s d (asked-Grows e n w s d h)

  want_exits-Covers :
      (e : Entry F) (ns : List ℕ) (w : Wanted) → All (Covers e (want_exits calendar e ns w)) ns
  unfolding want_exits
  want_exits-Covers e [] w = tt
  want_exits-Covers e (n ∷ ns) w = (
    λ x k. want_exits-Grows e ns (asked e n w) e.symbol x (asked-Covers e n w x k),
    want_exits-Covers e ns (asked e n w),
  )

  want_entry-Grows : (e : Entry F) (w : Wanted) → Grows w (want_entry mode e w)
  unfolding want_entry
  want_entry-Grows e w s d h = elim (Option-cases e.entry_price) [
    | inl k ↦ elim (Bool-cases (is_close_to_close mode)) [
      | inl y ↦ rw (want_entry, k, y) (want-Grows e.trade_date e.symbol w s d h)
      | inr y ↦ rw (want_entry, k, y) h
    ]
    | inr (p, k) ↦ rw (want_entry, k) h
  ]

  -- The day of an entry without a price has been asked for, where the mode can recover it.
  abbrev Recovers : Entry F → Wanted → Type 0
  Recovers e w =
      e.entry_price ≡ none
      → is_close_to_close mode ≡ true
      → is_wanted w e.symbol e.trade_date ≡ true

  want_entry-Recovers : (e : Entry F) (w : Wanted) → Recovers e (want_entry mode e w)
  unfolding want_entry
  want_entry-Recovers e w k y = rw (want_entry, k, y) (want_self e.trade_date e.symbol w)

  abbrev Ready : List ℕ → Wanted → Entry F → Type 0
  Ready horizons w e = All (Covers e w) horizons × Recovers e w

  Covers-Grows :
      (e : Entry F) (w w' : Wanted) (ns : List ℕ)
      → Grows w w'
      → All (Covers e w) ns
      → All (Covers e w') ns
  Covers-Grows e w w' [] g h = tt
  Covers-Grows e w w' (n ∷ ns) g h = (λ x k. g e.symbol x (h.0 x k), Covers-Grows e w w' ns g h.1)

  want_all-Grows :
      (horizons : List ℕ) (entries : List (Entry F)) (w : Wanted)
      → Grows w (want_all mode calendar horizons entries w)
  unfolding want_all
  want_all-Grows horizons [] w s d h = h
  want_all-Grows horizons (e ∷ entries) w s d h =
      want_all-Grows horizons entries _ s d
        (want_entry-Grows e _ s d (want_exits-Grows e horizons w s d h))

  want_all-Ready :
      (horizons : List ℕ) (entries : List (Entry F)) (w : Wanted)
      → All (Ready horizons (want_all mode calendar horizons entries w)) entries
  unfolding want_all
  want_all-Ready horizons [] w = tt
  want_all-Ready horizons (e ∷ entries) w =
      let w1 = want_exits calendar e horizons w in
      let w2 = want_entry mode e w1 in
      let last = want_all mode calendar horizons entries w2 in
      let grows : Grows w2 last = want_all-Grows horizons entries w2 in
      (
        (
          Covers-Grows e w1 last horizons (λ s d h. grows s d (want_entry-Grows e w1 s d h))
              (want_exits-Covers e horizons w),
          λ k y. grows e.symbol e.trade_date (want_entry-Recovers e w1 k y),
        ),
        want_all-Ready horizons entries w2,
      )

  module _ (fl : Floats F) (horizons : List ℕ) (detail_n : ℕ) (prices direct : CloseMap F) where
    -- Both maps answer alike where they were asked.
    abbrev Agrees : Wanted → Entry F → Type 0
    Agrees w e =
        (day : ℕ) → is_wanted w e.symbol day ≡ true → prices e.symbol day ≡ direct e.symbol day

    exit_of-Agrees :
        (w : Wanted) (e : Entry F) (n : ℕ)
        → Agrees w e
        → Covers e w n
        → exit_of fl mode calendar horizons detail_n prices e n
          ≡ exit_of fl mode calendar horizons detail_n direct e n
    unfolding exit_of
    exit_of-Agrees w e n a c = elim (Option-cases (nth_trading_day calendar e.trade_date n)) [
      | inl k ↦ rw (exit_of, k) refl
      | inr (x, k) ↦ rw (exit_of, k, a x (c x k)) refl
    ]

    entry_price_of-Agrees :
        (w : Wanted) (e : Entry F)
        → Agrees w e
        → Recovers e w
        → entry_price_of fl mode calendar horizons detail_n prices e
          ≡ entry_price_of fl mode calendar horizons detail_n direct e
    unfolding entry_price_of
    entry_price_of-Agrees w e a r = elim (Option-cases e.entry_price) [
      | inl k ↦ elim (Bool-cases (is_close_to_close mode)) [
        | inl y ↦ rw (entry_price_of, k, y) (a e.trade_date (r k y))
        | inr y ↦ rw (entry_price_of, k, y) refl
      ]
      | inr (p, k) ↦ rw (entry_price_of, k) refl
    ]

    settle_all-Agrees :
        (w : Wanted) (e : Entry F) (p : F) (ns : List ℕ) (t : Tally F)
        → Agrees w e
        → All (Covers e w) ns
        → settle_all fl mode calendar horizons detail_n prices e p ns t
          ≡ settle_all fl mode calendar horizons detail_n direct e p ns t
    unfolding settle_all settle_one
    settle_all-Agrees w e p [] t a c = refl
    settle_all-Agrees w e p (n ∷ ns) t a c =
        let here : settle_one fl mode calendar horizons detail_n prices e p n t
            ≡ settle_one fl mode calendar horizons detail_n direct e p n t =
          ap
            (λ o. elim o [
              | none ↦ miss n t
              | some exit ↦ settle fl mode calendar horizons detail_n direct e p n exit t
            ])
            (exit_of-Agrees w e n a c.0) in
        settle_all-Agrees w e p ns (settle_one fl mode calendar horizons detail_n prices e p n t) a
          c.1
        ∙ ap (settle_all fl mode calendar horizons detail_n direct e p ns) here

    run_entry-Agrees :
        (w : Wanted) (e : Entry F) (t : Tally F)
        → Agrees w e
        → Ready horizons w e
        → run_entry fl mode calendar horizons detail_n prices e t
          ≡ run_entry fl mode calendar horizons detail_n direct e t
    unfolding run_entry
    run_entry-Agrees w e t a r =
        let same = entry_price_of-Agrees w e a r.1 in
        elim (Option-cases (entry_price_of fl mode calendar horizons detail_n direct e)) [
          | inl k ↦ rw (run_entry, same, k) refl
          | inr (p, k) ↦ elim (Bool-cases (fl.at_most_zero p)) [
            | inr y ↦ rw (run_entry, same, k, y) (settle_all-Agrees w e p horizons t a r.0)
            | inl y ↦ rw (run_entry, same, k, y) refl
          ]
        ]

    run_entries-Agrees :
        (w : Wanted) (entries : List (Entry F)) (t : Tally F)
        → All (Agrees w) entries
        → All (Ready horizons w) entries
        → run_entries fl mode calendar horizons detail_n prices entries t
          ≡ run_entries fl mode calendar horizons detail_n direct entries t
    unfolding run_entries
    run_entries-Agrees w [] t a r = refl
    run_entries-Agrees w (e ∷ entries) t a r =
        run_entries-Agrees w entries (run_entry fl mode calendar horizons detail_n prices e t) a.1
          r.1
        ∙ ap (run_entries fl mode calendar horizons detail_n direct entries)
            (run_entry-Agrees w e t a.0 r.0)

module _ {F D : Type 0} (to_float : D → F) where
  -- The close of a day and symbol, looked up in the whole table.
  abbrev pub direct_lookup : List (DailyPrice D) → CloseMap F
  direct_lookup rows s day = close_or to_float (find_price day s rows) none

  direct-Agrees :
      (rows : List (DailyPrice D)) (w : Wanted) (entries : List (Entry F))
      → IsTable to_float rows
      → All (λ e. is_named e.symbol ≡ true) entries
      → All
          (λ e.
            (day : ℕ)
            → is_wanted w e.symbol day ≡ true
            → load_close_prices to_float w rows e.symbol day ≡ direct_lookup rows e.symbol day)
          entries
  direct-Agrees rows w [] h n = tt
  direct-Agrees rows w (e ∷ entries) h n = (
    λ day k. load_close_prices_lem to_float w rows e.symbol day n.0 h ∙ rw k refl,
    direct-Agrees rows w entries h n.1,
  )

  -- On a table with one row for each day and symbol, and for entries whose symbols are not empty:
  -- the loop on the prices fetched for it settles every entry at every horizon exactly as it would
  -- by looking each price up in the whole table. The prices asked for beforehand are enough.
  pub tally_prefetch :
      (fl : Floats F) (q : Query) (horizons : List ℕ) (detail_n : ℕ) (entries : List (Entry F))
      (rows : List (DailyPrice D)) (calendar : List ℕ)
      → IsTable to_float rows
      → All (λ e. is_named e.symbol ≡ true) entries
      → tally fl q horizons detail_n entries to_float rows calendar
        ≡ run_entries fl q.mode calendar horizons detail_n (direct_lookup rows) entries no_tally
  unfolding tally
  tally_prefetch fl q horizons detail_n entries rows calendar h n =
      let w = want_all q.mode calendar horizons entries [] in
      run_entries-Agrees q.mode calendar fl horizons detail_n (load_close_prices to_float w rows)
        (direct_lookup rows) w entries no_tally (direct-Agrees rows w entries h n)
        (want_all-Ready q.mode calendar horizons entries [])
