-- ===== src/Records/View.antt =====
-- The table's keys stay unique, and what one user does is invisible to the others.
use stock_quant_backend.Prelude.{
  ℕ, ◌≡◌, ◌≢◌, refl, ap, ◌∙◌, subst, Bool, true, false, not, none, some, List, [], ◌∷◌, ◌++◌, map,
  if◌then◌else◌, All, any, find, select, arith, Bool-cases, Option-cases, inl, inr, ◌==◌,
}
use stock_quant_backend.Prelude.Text.{Text}
use stock_quant_backend.Prelude.Distinct.{Distinct, Distinct-map, Distinct-append, Distinct-select}
use stock_quant_backend.Prelude.Rows.{find_sound, All-find}
use stock_quant_backend.Records.{
  Record, UpsertBody, has_key, get_record, delete_record, fill, new_record, upsert_record,
  list_records,
}
use stock_quant_backend.Records.Keyed.{IsKeyed, same_id, same_key}

module _ {D : Type 0} where
  -- A deletion keeps the keys unique.
  pub delete_record-IsKeyed :
      (u : ℕ) (m s : Text) (rows : List (Record D))
      → IsKeyed rows
      → IsKeyed (delete_record u m s rows).1
  unfolding delete_record
  delete_record-IsKeyed u m s rows h = elim (Option-cases (get_record u m s rows)) [
    | inl e ↦ rw (e, delete_record) h
    | inr (r, e) ↦
        rw (e, delete_record)
          (record {
            ids = Distinct-select same_id _ rows h.ids;
            keys = Distinct-select same_key _ rows h.keys;
          })
  ]

  not_found :
      (p : Record D → Bool) (rows : List (Record D)) → find p rows ≡ none → any p rows ≡ false
  not_found p [] e = refl
  not_found p (x ∷ rows) e = ground (arith, not_found p rows)

  -- Rows with one id have one user.
  one_user :
      (p : Record D → Bool) (rows : List (Record D)) (r : Record D)
      → Distinct same_id rows
      → find p rows ≡ some r
      → All (λ x. (x.id == r.id) ≡ true → x.user_id ≡ r.user_id) rows
  one_user p [] r d e = tt
  one_user p (x ∷ rows) r d e = elim (Bool-cases (p x)) [
    | inl y ↦
        let same : x ≡ r = ground arith in
        (
          λ _. ap (λ (t : Record D). t.user_id) same,
          subst (λ t. All (λ y. (y.id == t.id) ≡ true → y.user_id ≡ t.user_id) rows) same
              (apart x rows d.0),
        )
    | inr n ↦
        let found : find p rows ≡ some r = ground arith in
        let far = All-find (λ y. same_id x y ≡ false) p rows r d.0 found in
        (λ h. absurd (ground arith), one_user p rows r d.1 found)
  ]
    where
      apart :
          (x : Record D) (rows : List (Record D))
          → All (λ y. same_id x y ≡ false) rows
          → All (λ y. (y.id == x.id) ≡ true → y.user_id ≡ x.user_id) rows
      apart x [] h = tt
      apart x (y ∷ rows) h = (λ e. absurd (ground arith), apart x rows h.1)

  -- A change of the rows with one id, all of one user, is not in another user's list.
  select-map :
      (v k u : ℕ) (f : Record D → Record D) (rows : List (Record D))
      → v ≢ u
      → ((x : Record D) → (f x).user_id ≡ x.user_id)
      → All (λ x. (x.id == k) ≡ true → x.user_id ≡ u) rows
      → select (λ r. r.user_id == v) (map (λ x. if x.id == k then f x else x) rows)
        ≡ select (λ r. r.user_id == v) rows
  select-map v k u f [] ne h own = refl
  select-map v k u f (x ∷ rows) ne h own =
      let ih = select-map v k u f rows ne h own.1 in
      elim (Bool-cases (x.id == k)) [
        | inl e ↦ let mine = own.0 e in ground (arith, h x)
        | inr e ↦ ground arith
      ]

  select_removed :
      (v k u : ℕ) (rows : List (Record D))
      → v ≢ u
      → All (λ x. (x.id == k) ≡ true → x.user_id ≡ u) rows
      → select (λ r. r.user_id == v) (select (λ x. not (x.id == k)) rows)
        ≡ select (λ r. r.user_id == v) rows
  select_removed v k u [] ne own = refl
  select_removed v k u (x ∷ rows) ne own =
      let ih = select_removed v k u rows ne own.1 in
      elim (Bool-cases (x.id == k)) [
        | inl e ↦ let mine = own.0 e in ground arith
        | inr e ↦ ground arith
      ]

  select_append :
      (v : ℕ) (rows : List (Record D)) (r : Record D)
      → v ≢ r.user_id
      → select (λ x. x.user_id == v) (rows ++ r ∷ []) ≡ select (λ x. x.user_id == v) rows
  select_append v [] r ne = ground arith
  select_append v (x ∷ rows) r ne = ground (arith, select_append v rows r ne)

  owner_of :
      (u : ℕ) (m s : Text) (rows : List (Record D)) (r : Record D)
      → get_record u m s rows ≡ some r
      → r.user_id ≡ u
  unfolding get_record
  owner_of u m s rows r e = let k = find_sound (has_key u m s) rows r e in ground arith

  -- On a keyed table, deleting a record of one user leaves every other user's list as it was.
  pub list_records-delete_record :
      (u v : ℕ) (m s : Text) (rows : List (Record D))
      → IsKeyed rows
      → v ≢ u
      → list_records v (delete_record u m s rows).1 ≡ list_records v rows
  unfolding delete_record list_records get_record
  list_records-delete_record u v m s rows h ne = elim (Option-cases (find (has_key u m s) rows)) [
    | inl e ↦ ground arith
    | inr (r, e) ↦
        let mine = owner_of u m s rows r e in
        let same =
          select_removed v r.id r.user_id rows (λ p. ne (p ∙ mine))
            (one_user (has_key u m s) rows r h.ids e) in
        ground arith
  ]

module _ {F D : Type 0} (to_decimal : F → D) (now new_id : ℕ) where
  -- On a keyed table, an upsert of one user leaves every other user's list as it was.
  pub list_records-upsert_record :
      (u v : ℕ) (m s : Text) (body : UpsertBody F) (rows : List (Record D))
      → IsKeyed rows
      → v ≢ u
      → list_records v (upsert_record to_decimal now new_id u m s body rows).1 ≡ list_records v rows
  unfolding upsert_record list_records get_record
  list_records-upsert_record u v m s body rows h ne =
      elim (Option-cases (find (has_key u m s) rows)) [
        | inl e ↦
            let r = fill to_decimal now body (new_record to_decimal now new_id u m s) in
            let same = select_append v rows r ne in ground arith
        | inr (r, e) ↦
            let mine = owner_of u m s rows r e in
            let same =
              select-map v r.id r.user_id (fill to_decimal now body) rows (λ p. ne (p ∙ mine))
                (λ x. refl) (one_user (has_key u m s) rows r h.ids e) in
            ground arith
      ]

  -- An upsert with a new id keeps the keys unique.
  pub upsert_record-IsKeyed :
      (u : ℕ) (m s : Text) (body : UpsertBody F) (rows : List (Record D))
      → any (λ (r : Record D). r.id == new_id) rows ≡ false
      → IsKeyed rows
      → IsKeyed (upsert_record to_decimal now new_id u m s body rows).1
  unfolding upsert_record get_record
  upsert_record-IsKeyed u m s body rows fresh h = elim (Option-cases (find (has_key u m s) rows)) [
    | inl e ↦
        rw (e, upsert_record)
          (record {
            ids = Distinct-append same_id rows _ fresh h.ids;
            keys = Distinct-append same_key rows _ (not_found (has_key u m s) rows e) h.keys;
          })
    | inr (r, e) ↦
        rw (e, upsert_record)
          (record {
            ids = Distinct-map same_id _ rows (λ x y. ground arith) h.ids;
            keys = Distinct-map same_key _ rows (λ x y. ground arith) h.keys;
          })
  ]
