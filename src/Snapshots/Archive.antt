-- ===== src/Snapshots/Archive.antt =====
-- The snapshot tables as an archive: for each day and session at most one upload, ids forgotten;
-- and what an upload is read back as.
use stock_quant_backend.Prelude.{
  ℕ, ◌+◌, ◌≡◌, refl, ap, ◌∙◌, Bool, true, false, ◌&&◌, Option, some, List, [], ◌∷◌, ◌++◌, map,
  if◌then◌else◌, select, any, length, leb, ◌==◌, arith, Bool-cases, inl, inr, All,
}
use mathlib.Core.Option
use mathlib.Core.List.{append-nil}
use stock_quant_backend.Prelude.Text.{Text, text_eq}
use stock_quant_backend.Prelude.Order.{sort_by, insert_by}
use stock_quant_backend.Prelude.Distinct.{Distinct}
use stock_quant_backend.Prelude.Rows.{select-append}
use stock_quant_backend.Snapshots.{
  ScreenSnapshot, ScreenSnapshotItem, SnapshotItemIn, SnapshotIngestBody, get_snapshot,
  get_snapshot_items, new_item, new_items,
}

map-insert_by :
    {A B : Type 0} (f : A → B) (le : A → A → Bool) (le' : B → B → Bool) (x : A) (xs : List A)
    → ((a b : A) → le' (f a) (f b) ≡ le a b)
    → map f (insert_by le x xs) ≡ insert_by le' (f x) (map f xs)
unfolding insert_by
map-insert_by f le le' x [] h = refl
map-insert_by f le le' x (y ∷ ys) h = ground (arith, h x y, map-insert_by f le le' x ys h)

-- Sorting by a key that a map keeps.
map-sort_by :
    {A B : Type 0} (f : A → B) (le : A → A → Bool) (le' : B → B → Bool) (xs : List A)
    → ((a b : A) → le' (f a) (f b) ≡ le a b)
    → map f (sort_by le xs) ≡ sort_by le' (map f xs)
unfolding sort_by
map-sort_by f le le' [] h = refl
map-sort_by f le le' (x ∷ xs) h =
    map-insert_by f le le' x (sort_by le xs) h
    ∙ ap (insert_by le' (f x)) (map-sort_by f le le' xs h)

-- The abstract archive: what was uploaded for a day and a session.
abbrev pub Archive : Type 0 → Type 0
Archive D = ℕ → Text → Option (SnapshotIngestBody D)

abbrev pub same_session : ℕ → Text → ℕ → Text → Bool
same_session day session day' session' = day == day' && text_eq session session'

module _ {D : Type 0} where
  -- A stored item without its ids.
  abbrev pub row_of : ScreenSnapshotItem D → SnapshotItemIn D
  row_of i = record {
    rank = i.rank;
    symbol = i.symbol;
    name = i.name;
    market = i.market;
    market_code = i.market_code;
    close = i.close;
    prev_close = i.prev_close;
    change = i.change;
    change_pct = i.change_pct;
    volume = i.volume;
    lots = i.lots;
    open_price = i.open_price;
    high = i.high;
    low = i.low;
    prev_high = i.prev_high;
    vol_ratio = i.vol_ratio;
    ma5 = i.ma5;
    ma20 = i.ma20;
    ma20_up = i.ma20_up;
  }

  abbrev pub content_with : ScreenSnapshot → List (SnapshotItemIn D) → SnapshotIngestBody D
  content_with s rows = record {
    trade_date = s.trade_date;
    session = s.session;
    generated_at = s.generated_at;
    source = s.source;
    universe = s.universe;
    quotable = s.quotable;
    pool_size = s.pool_size;
    warning = s.warning;
    items = rows;
  }

  -- A snapshot with its items, as `get_snapshot_items` reads them.
  abbrev pub content : List (ScreenSnapshotItem D) → ScreenSnapshot → SnapshotIngestBody D
  content items s = content_with s (map row_of (get_snapshot_items s.id items))

  -- What a reader finds for a day and a session.
  unfoldable pub view : List ScreenSnapshot → List (ScreenSnapshotItem D) → Archive D
  view snapshots items day session = Option.map (content items) (get_snapshot day session snapshots)

  -- What app/models.py declares of the tables: primary key, `uq_snapshot_date_session`, and the
  -- foreign key of the items; further every header tells the number of its items.
  pub record IsArchive (snapshots : List ScreenSnapshot) (items : List (ScreenSnapshotItem D))
      : Type 0 where
    pub ids : Distinct (λ (r : ScreenSnapshot) s. r.id == s.id) snapshots
    pub keys :
        Distinct
          (λ (r : ScreenSnapshot) s. same_session r.trade_date r.session s.trade_date s.session)
          snapshots
    pub owned :
        All (λ (i : ScreenSnapshotItem D). any (λ s. s.id == i.snapshot_id) snapshots ≡ true) items
    pub counted :
        All
          (λ (s : ScreenSnapshot).
            s.item_count ≡ length (select (λ i. i.snapshot_id == s.id) items))
          snapshots

-- A number that is no id here differs from each that is.
pub apart :
    (k j : ℕ) (xs : List ScreenSnapshot)
    → any (λ s. s.id == k) xs ≡ false
    → any (λ s. s.id == j) xs ≡ true
    → (k == j) ≡ false
apart k j [] f h = absurd (cc)
apart k j (x ∷ xs) f h = elim (Bool-cases (x.id == j)) [
  | inl y ↦ ground arith
  | inr n ↦ apart k j xs (ground arith) (ground arith)
]

module _ {F D : Type 0} (to_decimal : F → D) where
  abbrev pub stored_row : SnapshotItemIn F → SnapshotItemIn D
  stored_row i = row_of (new_item to_decimal 0 0 i)

  -- An upload as it is read back: prices as decimals, items by rank.
  abbrev pub stored : SnapshotIngestBody F → SnapshotIngestBody D
  stored body = record {
    trade_date = body.trade_date;
    session = body.session;
    generated_at = body.generated_at;
    source = body.source;
    universe = body.universe;
    quotable = body.quotable;
    pool_size = body.pool_size;
    warning = body.warning;
    items = sort_by (λ i j. leb i.rank j.rank) (map stored_row body.items);
  }

  -- The archive after an upload.
  abbrev pub put : SnapshotIngestBody F → Archive D → Archive D
  put body a day session =
      if same_session body.trade_date body.session day session
      then some (stored body)
      else a day session

  pub rows-new_items :
      (item_id k : ℕ) (xs : List (SnapshotItemIn F))
      → map row_of (new_items to_decimal item_id k xs) ≡ map stored_row xs
  unfolding new_items
  rows-new_items item_id k [] = refl
  rows-new_items item_id k (x ∷ xs) =
      ap (λ ys. stored_row x ∷ ys) (rows-new_items (item_id + 1) k xs)

  pub select-new_items_self :
      (item_id k : ℕ) (xs : List (SnapshotItemIn F))
      → select (λ i. i.snapshot_id == k) (new_items to_decimal item_id k xs)
        ≡ new_items to_decimal item_id k xs
  unfolding new_items
  select-new_items_self item_id k [] = refl
  select-new_items_self item_id k (x ∷ xs) =
      ground (arith, select-new_items_self (item_id + 1) k xs)

  pub select-new_items_ne :
      (item_id k j : ℕ) (xs : List (SnapshotItemIn F))
      → (k == j) ≡ false
      → select (λ i. i.snapshot_id == j) (new_items to_decimal item_id k xs) ≡ []
  unfolding new_items
  select-new_items_ne item_id k j [] h = refl
  select-new_items_ne item_id k j (x ∷ xs) h =
      ground (arith, select-new_items_ne (item_id + 1) k j xs h)

  -- The items of the snapshot just written, read back.
  pub rows_read :
      (item_id k : ℕ) (xs : List (SnapshotItemIn F)) (old : List (ScreenSnapshotItem D))
      → select (λ i. i.snapshot_id == k) old ≡ []
      → map row_of (get_snapshot_items k (old ++ new_items to_decimal item_id k xs))
        ≡ sort_by (λ i j. leb i.rank j.rank) (map stored_row xs)
  unfolding get_snapshot_items
  rows_read item_id k xs old h =
      let new = new_items to_decimal item_id k xs in
      let only : select (λ i. i.snapshot_id == k) (old ++ new) ≡ new =
        select-append (λ i. i.snapshot_id == k) old new
        ∙ ap (λ ys. ys ++ select (λ i. i.snapshot_id == k) new) h
        ∙ select-new_items_self item_id k xs in
      ap (λ ys. map row_of (sort_by (λ i j. leb i.rank j.rank) ys)) only
      ∙ map-sort_by row_of (λ i j. leb i.rank j.rank) (λ i j. leb i.rank j.rank) new (λ a b. refl)
      ∙ ap (sort_by (λ i j. leb i.rank j.rank)) (rows-new_items item_id k xs)

  -- The items of another snapshot.
  pub items_kept :
      (item_id k j : ℕ) (xs : List (SnapshotItemIn F)) (old items : List (ScreenSnapshotItem D))
      → (k == j) ≡ false
      → select (λ i. i.snapshot_id == j) old ≡ select (λ i. i.snapshot_id == j) items
      → select (λ i. i.snapshot_id == j) (old ++ new_items to_decimal item_id k xs)
        ≡ select (λ i. i.snapshot_id == j) items
  items_kept item_id k j xs old items n h =
      let new = new_items to_decimal item_id k xs in
      select-append (λ i. i.snapshot_id == j) old new
      ∙ ap (λ ys. select (λ i. i.snapshot_id == j) old ++ ys) (select-new_items_ne item_id k j xs n)
      ∙ append-nil (select (λ i. i.snapshot_id == j) old)
      ∙ h
