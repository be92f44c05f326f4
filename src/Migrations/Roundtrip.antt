-- ===== src/Migrations/Roundtrip.antt =====
-- Up from any revision to the last and down again, in a database that may hold other tables.
use stock_quant_backend.Prelude.{
  ℕ, zero, suc, ◌≡◌, refl, ap, sym, ◌∙◌, Bool, true, false, ◌&&◌, ◌||◌, not, Option, some, List, [],
  ◌∷◌, ◌++◌, any, take, drop, ℕ_discrete, All, arith, ◌==◌, none, map, ltb, if◌then◌else◌,
  Bool-cases, inl, inr,
}
use mathlib.Core.Option
use mathlib.Core.List.{append-nil}
use stock_quant_backend.Prelude.Text.{Text, codes, text_eq, text_dec}
use stock_quant_backend.Migrations.{
  primary_key, unique, foreign_key, Schema, Operation, named, has_table, has_index, is_referenced,
  alter, apply, run,
}
use stock_quant_backend.Migrations.Columns.{Revision}
use stock_quant_backend.Migrations.Versions.{revisions}
use stock_quant_backend.Migrations.Backfill.{OldUser, lowered, lower_rows_whole, is_lowered_apart}
use stock_quant_backend.Migrations.Database.{Contents, touch, touch_all, perform, perform-run}
use stock_quant_backend.Migrations.Frame.{IsApart, keeps_to, run_past}

-- The names that the revisions use.
abbrev pub table_names : List Text
table_names =
    codes "users"
    ∷ codes "records"
    ∷ codes "screen_snapshots"
    ∷ codes "screen_snapshot_items"
    ∷ codes "email_tokens"
    ∷ codes "daily_prices"
    ∷ codes "branch_trades"
    ∷ []

abbrev pub index_names : List Text
index_names =
    codes "ix_users_email"
    ∷ codes "ix_records_user_id"
    ∷ codes "ix_screen_snapshots_trade_date"
    ∷ codes "ix_screen_snapshot_items_snapshot_id"
    ∷ codes "ix_email_tokens_token_hash"
    ∷ codes "ix_email_tokens_user_id"
    ∷ codes "ix_daily_prices_symbol"
    ∷ codes "ix_branch_trades_symbol"
    ∷ []

-- `alembic upgrade` over some revisions, and `alembic downgrade` over them, the last one first.
unfoldable pub upgrades : List Revision → List Operation
upgrades [] = []
upgrades (r ∷ rs) = r.upgrade ++ upgrades rs

unfoldable pub downgrades : List Revision → List Operation
downgrades [] = []
downgrades (r ∷ rs) = downgrades rs ++ r.downgrade

same_columns : List Text → List Text → Bool
same_columns [] [] = true
same_columns (m ∷ ms) (n ∷ ns) = text_eq m n && same_columns ms ns
same_columns ms ns = false

-- A key, a unique constraint or a unique index on just these columns.
unfoldable pub enforces : Schema → Text × List Text → Bool
unfolding same_columns
enforces s (n, columns) =
    any
      (λ t.
        named n t
        && (any
              (λ c. elim c [
                | primary_key cs ↦ same_columns cs columns
                | unique name cs ↦ same_columns cs columns
                | foreign_key cs target others ↦ false
              ])
              t.constraints
            || any (λ i. i.is_unique && same_columns i.columns columns) t.indexes))
      s

-- A reference from a column of the first table to the id of the second.
unfoldable pub refers_to : Schema → Text × Text × Text → Bool
unfolding same_columns
refers_to s (n, column, target) =
    any
      (λ t.
        named n t
        && any
            (λ c. elim c [
              | foreign_key cs to others ↦
                  same_columns cs (column ∷ [])
                  && text_eq to target
                  && same_columns others (codes "id" ∷ [])
              | primary_key cs ↦ false
              | unique name cs ↦ false
            ])
            t.constraints)
      s

-- The keys that app/models.py declares unique.
abbrev pub unique_keys : List (Text × List Text)
unique_keys =
    (codes "users", codes "email" ∷ [])
    ∷ (codes "email_tokens", codes "token_hash" ∷ [])
    ∷ (codes "records", codes "user_id" ∷ codes "market_code" ∷ codes "symbol" ∷ [])
    ∷ (codes "screen_snapshots", codes "trade_date" ∷ codes "session" ∷ [])
    ∷ (codes "daily_prices", codes "trade_date" ∷ codes "symbol" ∷ [])
    ∷ []

-- The foreign keys that app/models.py declares.
abbrev pub foreign_keys : List (Text × Text × Text)
foreign_keys =
    (codes "email_tokens", codes "user_id", codes "users")
    ∷ (codes "records", codes "user_id", codes "users")
    ∷ (codes "screen_snapshot_items", codes "snapshot_id", codes "screen_snapshots")
    ∷ []

-- All keys that the code relies on.
abbrev pub IsEnforced : Schema → Type 0
IsEnforced s =
    (any (λ k. not (enforces s k)) unique_keys ≡ false)
    × (any (λ k. not (refers_to s k)) foreign_keys ≡ false)

-- In an empty database, from the first `k` revisions on.
Goes : List Revision → List Revision → Type 0
Goes done rest =
    (t : Schema) × (t' : Schema) × (run (upgrades done) [] ≡ some t)
    × (run (upgrades rest) t ≡ some t')
    × (run (downgrades rest) t' ≡ some t)
    × IsEnforced t'

goes : (k : ℕ) → Goes (take k revisions) (drop k revisions)
unfolding Goes upgrades downgrades run apply has_table has_index is_referenced alter enforces
    refers_to same_columns text_dec ℕ_discrete
goes zero = (_, _, refl, refl, refl, (refl, refl))
goes (suc zero) = (_, _, refl, refl, refl, (refl, refl))
goes (suc (suc zero)) = (_, _, refl, refl, refl, (refl, refl))
goes (suc (suc (suc zero))) = (_, _, refl, refl, refl, (refl, refl))
goes (suc (suc (suc (suc zero)))) = (_, _, refl, refl, refl, (refl, refl))
goes (suc (suc (suc (suc (suc zero))))) = (_, _, refl, refl, refl, (refl, refl))
goes (suc (suc (suc (suc (suc (suc k)))))) = (_, _, refl, refl, refl, (refl, refl))

abbrev strays : Operation → Bool
strays o = not (keeps_to table_names index_names o)

abbrev StaysWithin : Revision → Type 0
StaysWithin r = (any strays r.upgrade ≡ false) × (any strays r.downgrade ≡ false)

-- Every operation of the revisions is on these names.
on_names : All StaysWithin revisions
unfolding text_dec ℕ_discrete
on_names = ((refl, refl), ((refl, refl), ((refl, refl), ((refl, refl), ((refl, refl), tt)))))

any-append :
    (p : Operation → Bool) (xs ys : List Operation) → any p (xs ++ ys) ≡ (any p xs || any p ys)
any-append p [] ys = refl
any-append p (x ∷ xs) ys = ground (arith, any-append p xs ys)

upgrades_stay : (rs : List Revision) → All StaysWithin rs → any strays (upgrades rs) ≡ false
unfolding upgrades
upgrades_stay [] h = refl
upgrades_stay (r ∷ rs) ((u, d), h) =
    any-append strays r.upgrade (upgrades rs) ∙ rw (u, upgrades_stay rs h) refl

downgrades_stay : (rs : List Revision) → All StaysWithin rs → any strays (downgrades rs) ≡ false
unfolding downgrades
downgrades_stay [] h = refl
downgrades_stay (r ∷ rs) ((u, d), h) =
    any-append strays (downgrades rs) r.downgrade ∙ rw (downgrades_stay rs h, d) refl

All-take-drop :
    {A : Type 0} (P : A → Type 0) (k : ℕ) (xs : List A)
    → All P xs
    → All P (take k xs) × All P (drop k xs)
All-take-drop P zero xs h = (tt, h)
All-take-drop P (suc k) [] h = (tt, tt)
All-take-drop P (suc k) (x ∷ xs) (p, h) = let (a, b) = All-take-drop P k xs h in ((p, a), b)

-- The upgrade lowers the addresses where the third revision is among those to run.
abbrev pub is_refused : ℕ → List OldUser → Bool
is_refused k accounts = ltb k 3 && not (is_lowered_apart accounts)

abbrev pub upgraded : ℕ → Contents → Contents
upgraded k c = record {
  pgcrypto = if k == 0 then true else c.pgcrypto;
  accounts = (if ltb k 3 then map lowered c.accounts else c.accounts);
}

far : (k : ℕ) → ((suc (suc (suc k)) == 0) ≡ false) × (ltb (suc (suc (suc k))) 3 ≡ false)
far k = (ground arith, ground arith)

touch-upgrades :
    (k : ℕ) (c : Contents)
    → touch_all (upgrades (drop k revisions)) c
      ≡ (if is_refused k c.accounts then none else some (upgraded k c))
unfolding upgrades touch_all touch text_dec ℕ_discrete
touch-upgrades zero c = elim (Bool-cases (is_lowered_apart c.accounts)) [
  | inl y ↦ rw (touch_all, upgrades, touch, lower_rows_whole c.accounts, y) refl
  | inr n ↦ rw (touch_all, upgrades, touch, lower_rows_whole c.accounts, n) refl
]
touch-upgrades (suc zero) c = elim (Bool-cases (is_lowered_apart c.accounts)) [
  | inl y ↦ rw (touch_all, upgrades, touch, lower_rows_whole c.accounts, y) refl
  | inr n ↦ rw (touch_all, upgrades, touch, lower_rows_whole c.accounts, n) refl
]
touch-upgrades (suc (suc zero)) c = elim (Bool-cases (is_lowered_apart c.accounts)) [
  | inl y ↦ rw (touch_all, upgrades, touch, lower_rows_whole c.accounts, y) refl
  | inr n ↦ rw (touch_all, upgrades, touch, lower_rows_whole c.accounts, n) refl
]
touch-upgrades (suc (suc (suc zero))) c = refl
touch-upgrades (suc (suc (suc (suc zero)))) c = refl
touch-upgrades (suc (suc (suc (suc (suc zero))))) c = refl
touch-upgrades (suc (suc (suc (suc (suc (suc k)))))) c =
    let (base, late) = far (suc (suc (suc k))) in rw (base, late) refl

-- The downgrade to an empty database takes the accounts with it.
abbrev pub downgraded : ℕ → Contents → Contents
downgraded k c = record c { accounts = (if k == 0 then [] else c.accounts) }

touch-downgrades :
    (k : ℕ) (c : Contents) → touch_all (downgrades (drop k revisions)) c ≡ some (downgraded k c)
unfolding downgrades touch_all touch text_dec ℕ_discrete
touch-downgrades zero c = refl
touch-downgrades (suc zero) c = refl
touch-downgrades (suc (suc zero)) c = refl
touch-downgrades (suc (suc (suc zero))) c = refl
touch-downgrades (suc (suc (suc (suc zero)))) c = refl
touch-downgrades (suc (suc (suc (suc (suc zero))))) c = refl
touch-downgrades (suc (suc (suc (suc (suc (suc k)))))) c =
    let (base, late) = far (suc (suc (suc k))) in rw base refl

map-if :
    {A B : Type 0} (b : Bool) (f : A → B) (x : A)
    → Option.map f (if b then none else some x) ≡ (if b then none else some (f x))
map-if true f x = refl
map-if false f x = refl

-- In a database that has other tables: these may have any shape, but not the names of the
-- revisions' tables and indexes, nor a reference to such a table. Take any of the six states, by
-- how many revisions have run, with any rows of `users`, and upgrade to the last revision. If the
-- third revision is among those to run and two addresses are equal when lowered, its `UPDATE` is
-- refused and the upgrade fails. Otherwise no operation is refused: the other tables are as they
-- were, the new ones enforce every unique key and every foreign key that app/models.py declares,
-- the extension pgcrypto is there if the first revision ran or it was there before, and the
-- addresses are lowered if the third revision ran. After such an upgrade the downgrade through the
-- same revisions is not refused, and gives back the schema that the upgrade began with. It does
-- not undo the rest: pgcrypto stays, the addresses stay lowered, and from the empty state the rows
-- of `users` are gone with their table.
pub upgrade-downgrade :
    (k : ℕ) (s : Schema) (c : Contents)
    → IsApart table_names index_names s
    → (t : Schema) × (t' : Schema) × (run (upgrades (take k revisions)) s ≡ some (s ++ t))
      × (perform (upgrades (drop k revisions)) (record { schema = s ++ t; contents = c }) ≡ (
          if is_refused k c.accounts
          then none
          else some (record { schema = s ++ t'; contents = upgraded k c })))
      × (perform
            (downgrades (drop k revisions))
            (record { schema = s ++ t'; contents = upgraded k c })
          ≡ some (record { schema = s ++ t; contents = downgraded k (upgraded k c) }))
      × IsEnforced t'
unfolding Goes
upgrade-downgrade k s c apart =
    let (t, t', before, up, down, enforced) = goes k in
    let (before_k, after_k) = All-take-drop StaysWithin k revisions on_names in
    let beside : Option Schema → Option Schema = Option.map (λ ts. s ++ ts) in
    let past = run_past table_names index_names s apart in
    let up' : run (upgrades (drop k revisions)) (s ++ t) ≡ some (s ++ t') =
      past (upgrades (drop k revisions)) t (upgrades_stay _ after_k) ∙ ap beside up in
    let down' : run (downgrades (drop k revisions)) (s ++ t') ≡ some (s ++ t) =
      past (downgrades (drop k revisions)) t' (downgrades_stay _ after_k) ∙ ap beside down in
    (
      t,
      t',
      ap (run (upgrades (take k revisions))) (sym (append-nil s))
          ∙ past (upgrades (take k revisions)) [] (upgrades_stay _ before_k)
          ∙ ap beside before,
      perform-run _ _ _ c up' ∙ rw (touch-upgrades k c) (map-if (is_refused k c.accounts) _ _),
      perform-run _ _ _ (upgraded k c) down' ∙ rw (touch-downgrades k (upgraded k c)) refl,
      enforced,
    )
