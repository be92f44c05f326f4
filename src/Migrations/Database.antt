-- ===== src/Migrations/Database.antt =====
-- A database under the migrations: the schema, and what their operations do besides. Of the rows,
-- those of `users` are kept, with the columns that the first revision gives them; no operation
-- changes or tests the rows of another table, except that they go with it.
use stock_quant_backend.Prelude.{
  ◌≡◌, refl, Bool, true, Option, none, some, List, [], ◌∷◌, if◌then◌else◌, Option-cases, inl, inr,
  arith,
}
use mathlib.Core.Option
use stock_quant_backend.Prelude.Text.{codes, text_eq}
use stock_quant_backend.Migrations.{
  Schema, create_pgcrypto, seed_password_changed_at, lower_emails, Operation, drop_table, execute,
  apply, run,
}
use stock_quant_backend.Migrations.Backfill.{OldUser, lower_rows}

-- Whether the extension pgcrypto is there, and the rows of `users`.
pub record Contents : Type 0 where
  pub pgcrypto : Bool
  pub accounts : List OldUser

pub record Database : Type 0 where
  pub schema : Schema
  pub contents : Contents

-- What an operation does to the contents; `none` is the refusal of an `UPDATE` by a unique index.
-- The columns added to rows that are there have a default or allow NULL, and none of the rows has
-- a NULL in `password_changed_at`, so that `set_not_null` is not refused.
unfoldable pub touch : Operation → Contents → Option Contents
touch (execute create_pgcrypto) c = some (record c { pgcrypto = true })
touch (execute seed_password_changed_at) c = some c
touch (execute lower_emails) c =
    Option.map (λ us. record c { accounts = us }) (lower_rows [] c.accounts)
touch (drop_table n) c =
    if text_eq n (codes "users") then some (record c { accounts = [] }) else some c
touch o c = some c

unfoldable pub touch_all : List Operation → Contents → Option Contents
touch_all [] c = some c
touch_all (o ∷ os) c = elim (touch o c) [ none ↦ none | some c' ↦ touch_all os c' ]

-- The operations in turn; the first that is refused ends them.
unfoldable pub perform : List Operation → Database → Option Database
perform [] d = some d
perform (o ∷ os) d = elim (apply o d.schema) [
  | none ↦ none
  | some s ↦ elim (touch o d.contents) [
    | none ↦ none
    | some c ↦ perform os (record { schema = s; contents = c })
  ]
]

-- Where the schema allows every operation, it is the contents that decide.
pub perform-run :
    (os : List Operation) (s s' : Schema) (c : Contents)
    → run os s ≡ some s'
    → perform os (record { schema = s; contents = c })
      ≡ Option.map (λ c'. record { schema = s'; contents = c' }) (touch_all os c)
unfolding perform run touch_all
perform-run [] s s' c e = ground (arith, e)
perform-run (o ∷ os) s s' c e = elim (Option-cases (apply o s)) [
  | inl n ↦ absurd (ground (arith, e, n))
  | inr (r, a) ↦
      let rest : run os r ≡ some s' = ground (arith, e, a) in
      elim (Option-cases (touch o c)) [
        | inl n ↦ rw (perform, touch_all, a, n) refl
        | inr (c', t) ↦ rw (perform, touch_all, a, t) (perform-run os r s' c' rest)
      ]
]
