-- ===== src/Snapshots/Uploads.antt =====
-- Sequences of uploads (`POST …/snapshot`), on the tables and on the abstract archive.
use stock_quant_backend.Prelude.{
  ℕ, ◌≡◌, refl, sym, ◌∙◌, subst, fun_ext, Bool, true, false, ◌||◌, not, none, some, List, [], ◌∷◌,
  ◌++◌, map, if◌then◌else◌, select, any, ◌==◌, arith, Bool-cases, Option-cases, inl, inr, All,
}
use stock_quant_backend.Prelude.Text.{Text, codes, text_eq}
use stock_quant_backend.Prelude.Distinct.{Distinct, any-map}
use stock_quant_backend.Snapshots.{
  ScreenSnapshot, ScreenSnapshotItem, SnapshotIngestBody, get_snapshot, new_items, fill_snapshot,
  new_snapshot, upsert_snapshot, ingest_snapshot,
}
use stock_quant_backend.Snapshots.Archive.{Archive, IsArchive, view, put}
use stock_quant_backend.Snapshots.Effect.{view-append, view-replace}
use stock_quant_backend.Snapshots.Stays.{any-snoc, append-IsArchive, replace-IsArchive}

-- The two tables.
pub record Tables (D : Type 0) : Type 0 where
  pub snapshots : List ScreenSnapshot
  pub items : List (ScreenSnapshotItem D)

-- A request to `ingest_snapshot`, with the time and the ids that it draws.
pub record Upload (F : Type 0) : Type 0 where
  pub now : ℕ
  pub id : ℕ
  pub item_id : ℕ
  pub body : SnapshotIngestBody F

-- The session is one of `SESSIONS`.
abbrev pub is_session : Text → Bool
is_session session = text_eq session (codes "intraday_1300") || text_eq session (codes "eod")

-- The id of each upload is new to the table, and no two uploads share one.
abbrev pub IsFresh : {F : Type 0} → List ScreenSnapshot → List (Upload F) → Type 0
IsFresh snapshots uploads =
    All (λ u. any (λ s. s.id == u.id) snapshots ≡ false) uploads
    × Distinct (λ u v. u.id == v.id) uploads

abbrev pub read : {D : Type 0} → Tables D → Archive D
read t = view t.snapshots t.items

module _ {F D : Type 0} (to_decimal : F → D) where
  abbrev pub ingest : Upload F → Tables D → Tables D
  ingest u t =
      let (answer, snapshots, items) =
        ingest_snapshot to_decimal u.now u.id u.item_id u.body t.snapshots t.items in
      record { snapshots = snapshots; items = items }

  unfoldable pub run : List (Upload F) → Tables D → Tables D
  run [] t = t
  run (u ∷ uploads) t = run uploads (ingest u t)

  -- What an upload does to the archive; a session out of `SESSIONS` is refused.
  abbrev pub upload : Upload F → Archive D → Archive D
  upload u a day session =
      if is_session u.body.session then put to_decimal u.body a day session else a day session

  unfoldable pub replay : List (Upload F) → Archive D → Archive D
  replay [] a = a
  replay (u ∷ uploads) a = replay uploads (upload u a)

  -- What holds after an upload that drew the id `k`.
  abbrev pub Follows : Upload F → Tables D → Tables D → Type 0
  Follows u t t' =
      IsArchive t'.snapshots t'.items
      × (read t' ≡ upload u (read t))
      × ((k : ℕ)
          → (u.id == k) ≡ false
          → any (λ (s : ScreenSnapshot). s.id == k) t.snapshots ≡ false
          → any (λ (s : ScreenSnapshot). s.id == k) t'.snapshots ≡ false)

  abbrev appended : Upload F → Tables D → Tables D
  appended u t = record {
    snapshots = t.snapshots ++ new_snapshot to_decimal u.now u.id u.body ∷ [];
    items = t.items ++ new_items to_decimal u.item_id u.id u.body.items;
  }

  abbrev replaced : Upload F → ScreenSnapshot → Tables D → Tables D
  replaced u s t = record {
    snapshots =
        map (λ r. if r.id == s.id then fill_snapshot to_decimal u.body r else r) t.snapshots;
    items =
        select (λ i. not (i.snapshot_id == s.id)) t.items
        ++ new_items to_decimal u.item_id s.id u.body.items;
  }

  pub ingest_refused :
      (u : Upload F) (t : Tables D) → is_session u.body.session ≡ false → ingest u t ≡ t
  unfolding ingest_snapshot
  ingest_refused u t n = ground arith

  ingest_new :
      (u : Upload F) (t : Tables D)
      → is_session u.body.session ≡ true
      → get_snapshot u.body.trade_date u.body.session t.snapshots ≡ none
      → ingest u t ≡ appended u t
  unfolding ingest_snapshot upsert_snapshot
  ingest_new u t y e = ground arith

  ingest_again :
      (u : Upload F) (t : Tables D) (s : ScreenSnapshot)
      → is_session u.body.session ≡ true
      → get_snapshot u.body.trade_date u.body.session t.snapshots ≡ some s
      → ingest u t ≡ replaced u s t
  unfolding ingest_snapshot upsert_snapshot
  ingest_again u t s y e = ground arith

  pub ingest-Follows :
      (u : Upload F) (t : Tables D)
      → IsArchive t.snapshots t.items
      → any (λ (s : ScreenSnapshot). s.id == u.id) t.snapshots ≡ false
      → Follows u t (ingest u t)
  unfolding get_snapshot
  ingest-Follows u t valid fresh = elim (Bool-cases (is_session u.body.session)) [
    | inr n ↦
        subst (Follows u t) (sym (ingest_refused u t n))
          (valid, fun_ext λ day. fun_ext λ session. rw n refl, λ k far h. h)
    | inl y ↦ elim (Option-cases (get_snapshot u.body.trade_date u.body.session t.snapshots)) [
      | inl e ↦ subst (Follows u t) (sym (ingest_new u t y e)) (
        append-IsArchive to_decimal u.now u.id u.item_id u.body t.snapshots t.items valid fresh e,
        fun_ext λ day. fun_ext λ session.
            view-append to_decimal u.now u.id u.item_id u.body t.snapshots t.items valid day session
              fresh e
            ∙ rw y refl,
        λ k far h.
            any-snoc (λ s. s.id == k) t.snapshots (new_snapshot to_decimal u.now u.id u.body)
            ∙ rw (h, far) refl,
      )
      | inr (s, e) ↦ subst (Follows u t) (sym (ingest_again u t s y e)) (
        replace-IsArchive to_decimal u.now u.id u.item_id u.body t.snapshots t.items valid s e,
        fun_ext λ day. fun_ext λ session.
            view-replace to_decimal u.now u.id u.item_id u.body t.snapshots t.items valid day
              session s e
            ∙ rw y refl,
        λ k far h.
            any-map (λ (r : ScreenSnapshot). r.id == k)
              (λ r. if r.id == s.id then fill_snapshot to_decimal u.body r else r) t.snapshots
              (λ r. ground arith)
            ∙ h,
      )
    ]
  ]
