-- ===== src/Migrations/Tests.antt =====
-- Examples of the migrations: a database with Alembic's own table, and two accounts.
use stock_quant_backend.Prelude.{
  ℕ, ◌≡◌, refl, true, false, none, some, List, [], ◌∷◌, ◌++◌, map, take, drop, ℕ_discrete,
  if◌then◌else◌,
}
use stock_quant_backend.Prelude.Text.{
  Text, codes, text_dec, strip, lstrip, rstrip, keep, is_space, lower, lower_char,
}
use stock_quant_backend.Auth.Invariant.{IsWellFormed}
use stock_quant_backend.Migrations.{Schema, string, primary_key, run}
use stock_quant_backend.Migrations.Columns.{required}
use stock_quant_backend.Migrations.Versions.{revisions}
use stock_quant_backend.Migrations.Frame.{IsApart}
use stock_quant_backend.Migrations.Roundtrip.{
  table_names, index_names, upgrades, downgrades, IsEnforced, is_refused, upgraded, downgraded,
  upgrade-downgrade,
}
use stock_quant_backend.Migrations.Database.{Contents, perform}
use stock_quant_backend.Migrations.Backfill.{
  OldUser, backfill, migrated, migrated_world, lower_rows, backfill-IsWellFormed,
}

abbrev own : Schema
own =
    (record {
      name = codes "alembic_version";
      columns = required (codes "version_num") (string 32) none ∷ [];
      constraints = primary_key (codes "version_num" ∷ []) ∷ [];
      indexes = [];
    })
    ∷ []

own-IsApart : IsApart table_names index_names own
unfolding text_dec ℕ_discrete
own-IsApart = refl

abbrev account : ℕ → Text → OldUser
account id email = record {
  id = id;
  email = email;
  password_hash = 104 ∷ [];
  display_name = none;
  created_at = 5;
}

-- `Ab` and `c`.
abbrev accounts : List OldUser
accounts = account 1 (65 ∷ 98 ∷ []) ∷ account 2 (99 ∷ []) ∷ []

abbrev filled : Contents
filled = record { pgcrypto = true; accounts = accounts }

-- From the second revision on.
upgrade-downgrade_example :
    (t : Schema) × (t' : Schema) × (run (upgrades (take 2 revisions)) own ≡ some (own ++ t))
    × (perform (upgrades (drop 2 revisions)) (record { schema = own ++ t; contents = filled }) ≡ (
        if is_refused 2 accounts
        then none
        else some (record { schema = own ++ t'; contents = upgraded 2 filled })))
    × (perform
          (downgrades (drop 2 revisions))
          (record { schema = own ++ t'; contents = upgraded 2 filled })
        ≡ some (record { schema = own ++ t; contents = downgraded 2 (upgraded 2 filled) }))
    × IsEnforced t'
upgrade-downgrade_example = upgrade-downgrade 2 own filled own-IsApart

-- The upgrade goes through on these accounts, and not on a third whose address is `aB`.
goes_up : is_refused 2 accounts ≡ false
unfolding text_dec ℕ_discrete lower lower_char
goes_up = refl

collides : is_refused 2 (account 3 (97 ∷ 66 ∷ []) ∷ accounts) ≡ true
unfolding text_dec ℕ_discrete lower lower_char
collides = refl

goes_through : backfill accounts ≡ some (map migrated accounts)
unfolding backfill lower_rows lower lower_char text_dec ℕ_discrete
goes_through = refl

backfill-IsWellFormed_example :
    IsWellFormed (migrated_world (record { hits = []; last_sweep = 0 }) (map migrated accounts))
unfolding strip lstrip rstrip keep is_space ℕ_discrete
backfill-IsWellFormed_example =
    backfill-IsWellFormed (record { hits = []; last_sweep = 0 }) accounts (map migrated accounts)
      ((refl, tt), (tt, tt)) (refl, (refl, tt)) goes_through
