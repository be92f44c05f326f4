-- ===== src/Snapshots/Stays.antt =====
-- The validity of the tables, where a snapshot is appended and where one is replaced.
use stock_quant_backend.Prelude.{
  ℕ, ◌+◌, ◌≡◌, refl, ap, sym, ◌∙◌, subst, Bool, true, false, ◌||◌, not, none, some, List, [], ◌∷◌,
  ◌++◌, map, find, select, any, length, ◌==◌, arith, Bool-cases, inl, inr, All,
}
use stock_quant_backend.Prelude.Distinct.{
  Distinct-append, Distinct-map, any-append_left, any-map, All-select,
}
use stock_quant_backend.Prelude.Counting.{All-append, All-mono}
use stock_quant_backend.Prelude.Rows.{find-none, select_apart, select_within, select-append}
use stock_quant_backend.Snapshots.{
  ScreenSnapshot, ScreenSnapshotItem, SnapshotItemIn, SnapshotIngestBody, has_session, new_items,
  fill_snapshot, new_snapshot,
}
use stock_quant_backend.Snapshots.Archive.{IsArchive, items_kept, select-new_items_self, apart}
use stock_quant_backend.Snapshots.Effect.{refill, no_orphans, found_there}

All-along :
    {A B : Type 0} (P : A → Type 0) (Q : B → Type 0) (f : A → B) (xs : List A)
    → ((x : A) → P x → Q (f x))
    → All P xs
    → All Q (map f xs)
All-along P Q f [] k h = tt
All-along P Q f (x ∷ xs) k h = (k x h.0, All-along P Q f xs k h.1)

pub All-both :
    {A : Type 0} (P Q R : A → Type 0) (xs : List A)
    → ((x : A) → P x → Q x → R x)
    → All P xs
    → All Q xs
    → All R xs
All-both P Q R [] f h k = tt
All-both P Q R (x ∷ xs) f h k = (f x h.0 k.0, All-both P Q R xs f h.1 k.1)

pub any-snoc :
    {A : Type 0} (p : A → Bool) (xs : List A) (x : A) → any p (xs ++ x ∷ []) ≡ (any p xs || p x)
any-snoc p [] x = ground arith
any-snoc p (y ∷ xs) x = ground (arith, any-snoc p xs x)

-- What each of several rows has that are in a table.
All-there :
    (P : ℕ → Type 0) (xs : List ScreenSnapshot)
    → ((k : ℕ) → any (λ (s : ScreenSnapshot). s.id == k) xs ≡ true → P k)
    → All (λ (s : ScreenSnapshot). P s.id) xs
All-there P [] f = tt
All-there P (x ∷ xs) f = (f x.id (ground arith), All-there P xs (λ k h. f k (ground arith)))

module _ {F D : Type 0} (to_decimal : F → D) where
  All-new_items :
      (P : ℕ → Type 0) (item_id k : ℕ) (xs : List (SnapshotItemIn F))
      → P k
      → All (λ (i : ScreenSnapshotItem D). P i.snapshot_id) (new_items to_decimal item_id k xs)
  unfolding new_items
  All-new_items P item_id k [] p = tt
  All-new_items P item_id k (x ∷ xs) p = (p, All-new_items P (item_id + 1) k xs p)

  length-new_items :
      (item_id k : ℕ) (xs : List (SnapshotItemIn F))
      → length (new_items to_decimal item_id k xs) ≡ length xs
  unfolding new_items
  length-new_items item_id k [] = refl
  length-new_items item_id k (x ∷ xs) = omega (arith, length-new_items (item_id + 1) k xs)

  -- How many items the snapshot just written has.
  counted_new :
      (item_id k : ℕ) (xs : List (SnapshotItemIn F)) (old : List (ScreenSnapshotItem D))
      → select (λ i. i.snapshot_id == k) old ≡ []
      → length xs
        ≡ length (select (λ i. i.snapshot_id == k) (old ++ new_items to_decimal item_id k xs))
  counted_new item_id k xs old h =
      let new = new_items to_decimal item_id k xs in
      sym (
        ap length (select-append (λ i. i.snapshot_id == k) old new)
        ∙ ap (λ ys. length (ys ++ select (λ i. i.snapshot_id == k) new)) h
        ∙ ap length (select-new_items_self to_decimal item_id k xs)
        ∙ length-new_items item_id k xs)

  module _ (now id item_id : ℕ) (body : SnapshotIngestBody F) (snapshots : List ScreenSnapshot)
      (items : List (ScreenSnapshotItem D)) (valid : IsArchive snapshots items) where
    pub append-IsArchive :
        any (λ (s : ScreenSnapshot). s.id == id) snapshots ≡ false
        → find (has_session body.trade_date body.session) snapshots ≡ none
        → IsArchive
            (snapshots ++ new_snapshot to_decimal now id body ∷ [])
            (items ++ new_items to_decimal item_id id body.items)
    append-IsArchive fresh e =
        let header = new_snapshot to_decimal now id body in
        let here : any (λ s. s.id == id) (snapshots ++ header ∷ []) ≡ true =
          ground (arith, any-snoc (λ s. s.id == id) snapshots header) in
        record {
          ids = Distinct-append _ snapshots header fresh valid.ids;
          keys = Distinct-append _ snapshots header (find-none _ snapshots e) valid.keys;
          owned =
              All-append _ items _
                (All-mono (λ i h. any-append_left _ snapshots (header ∷ []) h) items valid.owned)
                (All-new_items (λ k. any (λ s. s.id == k) (snapshots ++ header ∷ []) ≡ true) item_id
                  id body.items here);
          counted =
              All-append _ snapshots (header ∷ [])
                (All-both (λ s. (id == s.id) ≡ false) _ _ snapshots
                  (λ s far c.
                    c
                    ∙ ap length (
                        sym
                          (items_kept to_decimal item_id id s.id body.items items items far refl)))
                  (All-there (λ k. (id == k) ≡ false) snapshots
                    (λ k h. apart id k snapshots fresh h))
                  valid.counted)
                (
                  counted_new item_id id body.items items (
                      no_orphans to_decimal now id item_id body snapshots items valid id items fresh
                        valid.owned),
                  tt,
                );
        }

    pub replace-IsArchive :
        (s : ScreenSnapshot)
        → find (has_session body.trade_date body.session) snapshots ≡ some s
        → IsArchive
            (map (refill to_decimal now id item_id body snapshots items valid s) snapshots)
            (select (λ i. not (i.snapshot_id == s.id)) items
              ++ new_items to_decimal item_id s.id body.items)
    replace-IsArchive s e =
        let f = refill to_decimal now id item_id body snapshots items valid s in
        let old = select (λ (i : ScreenSnapshotItem D). not (i.snapshot_id == s.id)) items in
        let gone =
          select_apart (λ i. i.snapshot_id == s.id) (λ i. not (i.snapshot_id == s.id)) items
            (λ i h. ground arith) in
        let items' = old ++ new_items to_decimal item_id s.id body.items in
        let Counted : ScreenSnapshot → Type 0 =
          λ x. x.item_count ≡ length (select (λ i. i.snapshot_id == x.id) items') in
        let same =
          λ (k : ℕ). any-map (λ (r : ScreenSnapshot). r.id == k) f snapshots (λ r. ground arith) in
        record {
          ids = Distinct-map _ f snapshots (λ r t. ground arith) valid.ids;
          keys = Distinct-map _ f snapshots (λ r t. ground arith) valid.keys;
          owned =
              All-append _ old _
                (All-select _ _ items (All-mono (λ i h. same i.snapshot_id ∙ h) items valid.owned))
                (All-new_items (λ k. any (λ r. r.id == k) (map f snapshots) ≡ true) item_id s.id
                  body.items
                  (same s.id
                    ∙ found_there to_decimal now id item_id body snapshots items valid
                        (has_session body.trade_date body.session) snapshots s e));
          counted =
              All-along _ _ f snapshots
                (λ r c. elim (Bool-cases (r.id == s.id)) [
                  | inl y ↦
                      let self : fill_snapshot to_decimal body r ≡ f r = ground arith in
                      let near : s.id ≡ r.id = ground arith in
                      subst Counted self (
                        subst
                          (λ k.
                            length body.items ≡ length (select (λ i. i.snapshot_id == k) items'))
                          near (counted_new item_id s.id body.items old gone))
                  | inr n ↦
                      let self : r ≡ f r = ground arith in
                      let far : (s.id == r.id) ≡ false = ground arith in
                      let kept =
                        select_within (λ i. i.snapshot_id == r.id)
                          (λ i. not (i.snapshot_id == s.id)) items (λ i h. ground arith) in
                      subst Counted self (
                        c
                        ∙ ap length (
                            sym (
                              items_kept to_decimal item_id s.id r.id body.items old items far
                                kept)))
                ])
                valid.counted;
        }
