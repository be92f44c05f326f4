-- ===== src/Records/Keyed.antt =====
-- The table is a map from (user, market, symbol) to rows: what each operation does to what each
-- key finds.
use stock_quant_backend.Prelude.{
  ℕ, ◌≡◌, ◌≢◌, refl, ap, sym, ◌∙◌, Bool, true, false, ◌&&◌, not, none, some, List, [], ◌∷◌,
  if◌then◌else◌, All, find, select, arith, Bool-cases, Option-cases, inl, inr, ◌==◌,
}
use stock_quant_backend.Prelude.Text.{Text, text_eq}
use stock_quant_backend.Prelude.Distinct.{Distinct}
use stock_quant_backend.Prelude.Rows.{find-map, find_sound, find-append, found_same}
use stock_quant_backend.Records.{
  Record, UpsertBody, has_key, get_record, delete_record, fill, new_record, upsert_record,
}

-- Whether two calls name one key.
abbrev pub same_query : ℕ → Text → Text → ℕ → Text → Text → Bool
same_query u m s u' m' s' = u == u' && text_eq m m' && text_eq s s'

module _ {D : Type 0} where
  abbrev pub same_id : Record D → Record D → Bool
  same_id r s = r.id == s.id

  abbrev pub same_key : Record D → Record D → Bool
  same_key r s = has_key s.user_id s.market_code s.symbol r

  -- The primary key and `uq_records_user_market_symbol`.
  pub record IsKeyed (rows : List (Record D)) : Type 0 where
    pub ids : Distinct same_id rows
    pub keys : Distinct same_key rows

  find-select :
      (p q : Record D → Bool) (rows : List (Record D)) (s : Record D)
      → find p rows ≡ some s
      → q s ≡ true
      → find p (select q rows) ≡ some s
  find-select p q [] s e h = absurd (cc)
  find-select p q (x ∷ rows) s e h = ground (arith, find-select p q rows s)

  find-select-none :
      (p q : Record D → Bool) (rows : List (Record D))
      → find p rows ≡ none
      → find p (select q rows) ≡ none
  find-select-none p q [] e = refl
  find-select-none p q (x ∷ rows) e = ground (arith, find-select-none p q rows)

  -- A row with the key is the only one.
  only_one :
      (u : ℕ) (m s : Text) (x : Record D) (rows : List (Record D))
      → has_key u m s x ≡ true
      → All (λ y. same_key x y ≡ false) rows
      → find (has_key u m s) rows ≡ none
  only_one u m s x [] h d = refl
  only_one u m s x (y ∷ rows) h d =
      let ih = only_one u m s x rows h d.1 in let far = d.0 in ground arith

  removed :
      (u : ℕ) (m s : Text) (rows : List (Record D)) (r : Record D)
      → Distinct same_key rows
      → find (has_key u m s) rows ≡ some r
      → find (has_key u m s) (select (λ t. not (t.id == r.id)) rows) ≡ none
  removed u m s [] r d e = refl
  removed u m s (x ∷ rows) r d e = elim (Bool-cases (has_key u m s x)) [
    | inl y ↦
        let rest = only_one u m s x rows y d.0 in
        let gone = find-select-none (has_key u m s) (λ t. not (t.id == r.id)) rows rest in
        ground arith
    | inr n ↦ let ih = removed u m s rows r d.1 (ground arith) in ground arith
  ]

  same_query_sound :
      (u : ℕ) (m s : Text) (u' : ℕ) (m' s' : Text)
      → same_query u m s u' m' s' ≡ true
      → has_key {D = D} u m s ≡ has_key u' m' s'
  same_query_sound u m s u' m' s' h =
      let e : u ≡ u' = ground arith in
      let e1 : m ≡ m' = ground arith in let e2 : s ≡ s' = ground arith in rw (e, e1, e2)

  -- A row answers one key only.
  other_query :
      (u : ℕ) (m s : Text) (u' : ℕ) (m' s' : Text) (r r' : Record D)
      → same_query u m s u' m' s' ≡ false
      → has_key u m s r ≡ true
      → has_key u' m' s' r' ≡ true
      → r' ≢ r
  other_query u m s u' m' s' r r' h k k' = λ e. absurd (ground arith)

  -- The row that another key finds has another id.
  other_id :
      (u : ℕ) (m s : Text) (u' : ℕ) (m' s' : Text) (rows : List (Record D)) (r r' : Record D)
      → IsKeyed rows
      → same_query u m s u' m' s' ≡ false
      → find (has_key u m s) rows ≡ some r
      → find (has_key u' m' s') rows ≡ some r'
      → (r'.id == r.id) ≡ false
  other_id u m s u' m' s' rows r r' h n e e' = elim (Bool-cases (r'.id == r.id)) [
    | inr far ↦ far
    | inl same ↦ absurd (
        other_query u m s u' m' s' r r' n (find_sound _ rows r e) (find_sound _ rows r' e') (
          found_same (λ r. r.id) (has_key u' m' s') (has_key u m s) rows r' r h.ids e' e
            (ground arith)))
  ]

  untouched :
      (u : ℕ) (m s : Text) (u' : ℕ) (m' s' : Text) (rows : List (Record D)) (r : Record D)
      → IsKeyed rows
      → same_query u m s u' m' s' ≡ false
      → find (has_key u m s) rows ≡ some r
      → find (has_key u' m' s') (select (λ t. not (t.id == r.id)) rows)
        ≡ find (has_key u' m' s') rows
  untouched u m s u' m' s' rows r h n e = elim (Option-cases (find (has_key u' m' s') rows)) [
    | inl e' ↦ find-select-none (has_key u' m' s') _ rows e' ∙ sym e'
    | inr (r', e') ↦
        find-select (has_key u' m' s') _ rows r' e'
          (ap not (other_id u m s u' m' s' rows r r' h n e e'))
        ∙ sym e'
  ]

  -- On a keyed table, after a deletion the deleted key finds nothing, and every other key finds what
  -- it found before.
  pub get_record-delete_record :
      (u : ℕ) (m s : Text) (u' : ℕ) (m' s' : Text) (rows : List (Record D))
      → IsKeyed rows
      → get_record u' m' s' (delete_record u m s rows).1
        ≡ (if same_query u m s u' m' s' then none else get_record u' m' s' rows)
  unfolding get_record delete_record
  get_record-delete_record u m s u' m' s' rows h =
      let p = has_key u m s in
      let p' = has_key u' m' s' in
      elim (Option-cases (find p rows)) [
        | inl e ↦ elim (Bool-cases (same_query u m s u' m' s')) [
          | inl y ↦
              let miss : find p' rows ≡ none =
                ap (λ q. find q rows) (sym (same_query_sound u m s u' m' s' y)) ∙ e in
              ground arith
          | inr n ↦ ground arith
        ]
        | inr (r, e) ↦
            let left = select (λ (t : Record D). not (t.id == r.id)) rows in
            elim (Bool-cases (same_query u m s u' m' s')) [
              | inl y ↦
                  let gone : find p' left ≡ none =
                    ap (λ q. find q left) (sym (same_query_sound u m s u' m' s' y))
                    ∙ removed u m s rows r h.keys e in
                  ground arith
              | inr n ↦ let kept = untouched u m s u' m' s' rows r h n e in ground arith
            ]
      ]

module _ {F D : Type 0} (to_decimal : F → D) (now new_id : ℕ) where
  -- On a keyed table, after an upsert its key finds the row that the call returned, and every other
  -- key, another user's included, finds what it found before.
  pub get_record-upsert_record :
      (u : ℕ) (m s : Text) (body : UpsertBody F) (u' : ℕ) (m' s' : Text) (rows : List (Record D))
      → IsKeyed rows
      → get_record u' m' s' (upsert_record to_decimal now new_id u m s body rows).1 ≡ (
          if same_query u m s u' m' s'
          then some (upsert_record to_decimal now new_id u m s body rows).0
          else get_record u' m' s' rows)
  unfolding get_record upsert_record
  get_record-upsert_record u m s body u' m' s' rows h =
      let p = has_key u m s in
      let p' = has_key u' m' s' in
      elim (Option-cases (find p rows)) [
        | inl e ↦
            let r = fill to_decimal now body (new_record to_decimal now new_id u m s) in
            let ends = find-append p' rows (r ∷ []) in
            elim (Bool-cases (same_query u m s u' m' s')) [
              | inl y ↦
                  let miss : find p' rows ≡ none =
                    ap (λ q. find q rows) (sym (same_query_sound u m s u' m' s' y)) ∙ e in
                  ground arith
              | inr n ↦ elim (Option-cases (find p' rows)) [
                | inl e' ↦ ground arith
                | inr (r', e') ↦ ground arith
              ]
            ]
        | inr (r, e) ↦
            let f = λ (x : Record D). if x.id == r.id then fill to_decimal now body x else x in
            let same = find-map p' f rows (λ x. ground arith) in
            elim (Bool-cases (same_query u m s u' m' s')) [
              | inl y ↦
                  let hit : find p' rows ≡ some r =
                    ap (λ q. find q rows) (sym (same_query_sound u m s u' m' s' y)) ∙ e in
                  ground arith
              | inr n ↦ elim (Option-cases (find p' rows)) [
                | inl e' ↦ ground arith
                | inr (r', e') ↦
                    let far = other_id u m s u' m' s' rows r r' h n e e' in ground arith
              ]
            ]
      ]
