-- ===== src/Snapshots/Effect.antt =====
-- What appending a snapshot, and replacing one, does to the archive that is read.
use stock_quant_backend.Prelude.{
  ℕ, ◌≡◌, refl, ap, sym, ◌∙◌, Bool, true, false, not, none, some, List, [], ◌∷◌, ◌++◌, map,
  if◌then◌else◌, find, select, any, leb, ◌==◌, arith, Bool-cases, Option-cases, inl, inr, All,
}
use mathlib.Core.Option
use stock_quant_backend.Prelude.Text.{Text}
use stock_quant_backend.Prelude.Order.{sort_by}
use stock_quant_backend.Prelude.Rows.{
  find-map, find_sound, find-append, found_same, select_apart, select_within,
}
use stock_quant_backend.Snapshots.{
  ScreenSnapshot, ScreenSnapshotItem, SnapshotIngestBody, has_session, get_snapshot,
  get_snapshot_items, new_items, fill_snapshot, new_snapshot,
}
use stock_quant_backend.Snapshots.Archive.{
  same_session, row_of, content_with, content, view, IsArchive, apart, stored, put, rows_read,
  items_kept,
}

module _ {F D : Type 0} (to_decimal : F → D) where
  module _ (now id item_id : ℕ) (body : SnapshotIngestBody F) (snapshots : List ScreenSnapshot)
      (items : List (ScreenSnapshotItem D)) (valid : IsArchive snapshots items) where
    abbrev pub mine : ScreenSnapshot → Bool
    mine = has_session body.trade_date body.session

    abbrev pub header : ScreenSnapshot
    header = new_snapshot to_decimal now id body

    -- A snapshot's items are not there before the snapshot.
    pub no_orphans :
        (k : ℕ) (is : List (ScreenSnapshotItem D))
        → any (λ (s : ScreenSnapshot). s.id == k) snapshots ≡ false
        → All (λ (i : ScreenSnapshotItem D). any (λ s. s.id == i.snapshot_id) snapshots ≡ true) is
        → select (λ i. i.snapshot_id == k) is ≡ []
    no_orphans k [] f h = refl
    no_orphans k (i ∷ is) f h = elim (Bool-cases (i.snapshot_id == k)) [
      | inl y ↦
          let same : i.snapshot_id ≡ k = ground arith in
          let bad : true ≡ false =
            sym h.0 ∙ ap (λ j. any (λ (s : ScreenSnapshot). s.id == j) snapshots) same ∙ f in
          absurd (ground (arith, bad))
      | inr n ↦ rw n (no_orphans k is f h.1)
    ]

    -- A snapshot that is found is there.
    pub found_there :
        (p : ScreenSnapshot → Bool) (xs : List ScreenSnapshot) (s : ScreenSnapshot)
        → find p xs ≡ some s
        → any (λ t. t.id == s.id) xs ≡ true
    found_there p [] s e = absurd (cc)
    found_there p (x ∷ xs) s e = elim (Bool-cases (p x)) [
      | inl y ↦ ground arith
      | inr n ↦ ground (arith, found_there p xs s (ground arith))
    ]

    -- Another snapshot reads as before.
    content-kept :
        (k : ℕ) (old : List (ScreenSnapshotItem D)) (s : ScreenSnapshot)
        → (k == s.id) ≡ false
        → select (λ i. i.snapshot_id == s.id) old ≡ select (λ i. i.snapshot_id == s.id) items
        → content (old ++ new_items to_decimal item_id k body.items) s ≡ content items s
    unfolding get_snapshot_items
    content-kept k old s n h =
        ap (λ is. content_with s (map row_of (sort_by (λ i j. leb i.rank j.rank) is)))
          (items_kept to_decimal item_id k s.id body.items old items n h)

    other_found :
        (day : ℕ) (session : Text) (s t : ScreenSnapshot)
        → find mine snapshots ≡ some s
        → find (has_session day session) snapshots ≡ some t
        → same_session body.trade_date body.session day session ≡ false
        → (s.id == t.id) ≡ false
    other_found day session s t e f n = elim (Bool-cases (s.id == t.id)) [
      | inr far ↦ far
      | inl near ↦
          let same =
            found_same (λ r. r.id) mine (has_session day session) snapshots s t valid.ids e f
              (ground arith) in
          let here = find_sound mine snapshots s e in
          let there = find_sound (has_session day session) snapshots t f in absurd (ground arith)
    ]

    pub view-append :
        (day : ℕ) (session : Text)
        → any (λ (s : ScreenSnapshot). s.id == id) snapshots ≡ false
        → find mine snapshots ≡ none
        → view
            (snapshots ++ header ∷ [])
            (items ++ new_items to_decimal item_id id body.items)
            day
            session
          ≡ put to_decimal body (view snapshots items) day session
    unfolding view get_snapshot
    view-append day session fresh e =
        let p = has_session day session in
        let items' = items ++ new_items to_decimal item_id id body.items in
        elim (Bool-cases (same_session body.trade_date body.session day session)) [
          | inl y ↦
              let d : body.trade_date ≡ day = ground arith in
              let t : body.session ≡ session = ground arith in
              let here : find p snapshots ≡ none =
                ap (λ x. find (has_session x session) snapshots) (sym d)
                ∙ ap (λ x. find (has_session body.trade_date x) snapshots) (sym t)
                ∙ e in
              let found : find p (snapshots ++ header ∷ []) ≡ some header =
                ground (arith, find-append p snapshots (header ∷ []), here) in
              let read : content items' header ≡ stored to_decimal body = ap (content_with header) (
                rows_read to_decimal item_id id body.items items
                  (no_orphans id items fresh valid.owned)) in
              ap (Option.map (content items')) found ∙ ap (λ b. some b) read ∙ rw y refl
          | inr n ↦ elim (Option-cases (find p snapshots)) [
            | inl o ↦
                let found : find p (snapshots ++ header ∷ []) ≡ none =
                  ground (arith, find-append p snapshots (header ∷ []), o) in
                ap (Option.map (content items')) found ∙ rw (n, o) refl
            | inr (s, o) ↦
                let found : find p (snapshots ++ header ∷ []) ≡ some s =
                  ground (arith, find-append p snapshots (header ∷ []), o) in
                let there = found_there p snapshots s o in
                let far : (id == s.id) ≡ false = apart id s.id snapshots fresh there in
                ap (Option.map (content items')) found
                ∙ ap (λ b. some b) (content-kept id items s far refl)
                ∙ rw (n, o) refl
          ]
        ]

    abbrev pub refill : ScreenSnapshot → ScreenSnapshot → ScreenSnapshot
    refill s r = if r.id == s.id then fill_snapshot to_decimal body r else r

    pub view-replace :
        (day : ℕ) (session : Text) (s : ScreenSnapshot)
        → find mine snapshots ≡ some s
        → view
            (map (refill s) snapshots)
            (select (λ i. not (i.snapshot_id == s.id)) items
              ++ new_items to_decimal item_id s.id body.items)
            day
            session
          ≡ put to_decimal body (view snapshots items) day session
    unfolding view get_snapshot
    view-replace day session s e =
        let p = has_session day session in
        let old = select (λ (i : ScreenSnapshotItem D). not (i.snapshot_id == s.id)) items in
        let items' = old ++ new_items to_decimal item_id s.id body.items in
        let mapped = find-map p (refill s) snapshots (λ r. ground arith) in
        elim (Bool-cases (same_session body.trade_date body.session day session)) [
          | inl y ↦
              let d : body.trade_date ≡ day = ground arith in
              let t : body.session ≡ session = ground arith in
              let here : find p snapshots ≡ some s =
                ap (λ x. find (has_session x session) snapshots) (sym d)
                ∙ ap (λ x. find (has_session body.trade_date x) snapshots) (sym t)
                ∙ e in
              let sound = find_sound mine snapshots s e in
              let gone =
                select_apart (λ i. i.snapshot_id == s.id) (λ i. not (i.snapshot_id == s.id)) items
                  (λ i h. ground arith) in
              let read = rows_read to_decimal item_id s.id body.items old gone in
              let self : refill s s ≡ fill_snapshot to_decimal body s = ground arith in
              let day_same : s.trade_date ≡ body.trade_date = ground arith in
              let session_same : s.session ≡ body.session = ground arith in
              ap (Option.map (content items')) (mapped ∙ ap (Option.map (refill s)) here)
              ∙ ap (λ r. some (content items' r)) self
              ∙ ap (λ rows. some (content_with (fill_snapshot to_decimal body s) rows)) read
              ∙ ap
                  (λ x.
                    some (record (stored to_decimal body) { trade_date = x; session = s.session }))
                  day_same
              ∙ ap (λ x. some (record (stored to_decimal body) { session = x })) session_same
              ∙ rw y refl
          | inr n ↦ elim (Option-cases (find p snapshots)) [
            | inl o ↦
                ap (Option.map (content items')) (mapped ∙ ap (Option.map (refill s)) o)
                ∙ rw (n, o) refl
            | inr (t, o) ↦
                let far = other_found day session s t e o n in
                let kept =
                  select_within (λ i. i.snapshot_id == t.id) (λ i. not (i.snapshot_id == s.id))
                    items (λ i h. ground arith) in
                let alone : refill s t ≡ t = ground arith in
                ap (Option.map (content items'))
                  (mapped ∙ ap (Option.map (refill s)) o ∙ ap (λ r. some r) alone)
                ∙ ap (λ b. some b) (content-kept s.id old t far kept)
                ∙ rw (n, o) refl
          ]
        ]
