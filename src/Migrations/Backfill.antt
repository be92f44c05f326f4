-- ===== src/Migrations/Backfill.antt =====
-- The rows of `users` under the third revision: what `upgrade` of
-- alembic/versions/0003_email_verification_and_reset.py does to the accounts that are there. The
-- emails are lowered one row after another, and the unique key is checked with each row.
use stock_quant_backend.Prelude.{
  ℕ, ◌≡◌, refl, ap, sym, ◌∙◌, subst, Bool, true, false, ◌&&◌, ◌||◌, not, Option, none, some, List,
  [], ◌∷◌, ◌++◌, map, any, if◌then◌else◌, arith, Bool-cases, inl, inr, All, ◌==◌,
}
use mathlib.Core.Option
use mathlib.Core.List.{append-nil, append_assoc}
use stock_quant_backend.Prelude.Text.{Text, text_eq, text_eq_sound, text_eq_self, lower, strip}
use stock_quant_backend.Prelude.Distinct.{Distinct}
use stock_quant_backend.RateLimit.{Limiter}
use stock_quant_backend.Users.{User, World, normalize_email}
use stock_quant_backend.Users.Email.{strip-lower, lower_idem}
use stock_quant_backend.Auth.Invariant.{IsWellFormed}

-- A row before the revision.
pub record OldUser : Type 0 where
  pub id : ℕ
  pub email : Text
  pub password_hash : Text
  pub display_name : Option Text
  pub created_at : ℕ

abbrev pub lowered : OldUser → OldUser
lowered u = record u { email = lower u.email }

abbrev pub has_email : Text → OldUser → Bool
has_email e u = text_eq u.email e

-- `UPDATE users SET email = lower(email)`; `none` is the unique index's refusal.
unfoldable pub lower_rows : List OldUser → List OldUser → Option (List OldUser)
lower_rows done [] = some done
lower_rows done (u ∷ rest) =
    let more = lower_rows (done ++ lowered u ∷ []) rest in
    if any (has_email (lower u.email)) done || any (has_email (lower u.email)) rest
    then none
    else more

-- The new columns: `password_changed_at` from `created_at`, not verified, version 0.
abbrev pub with_new_columns : OldUser → User
with_new_columns u = record {
  id = u.id;
  email = u.email;
  password_hash = u.password_hash;
  display_name = u.display_name;
  email_verified_at = none;
  password_changed_at = u.created_at;
  token_version = 0;
  created_at = u.created_at;
}

unfoldable pub backfill : List OldUser → Option (List User)
backfill rows = Option.map (map with_new_columns) (lower_rows [] rows)

-- No two addresses are equal when lowered.
abbrev pub is_lowered_apart : List OldUser → Bool
is_lowered_apart [] = true
is_lowered_apart (u ∷ us) =
    not (any (λ v. text_eq (lower u.email) (lower v.email)) us) && is_lowered_apart us

-- A row done has the lowered address of one to come.
abbrev meets : List OldUser → List OldUser → Bool
meets done rest = any (λ v. any (has_email (lower v.email)) done) rest

any_snoc :
    (p : OldUser → Bool) (xs : List OldUser) (x : OldUser)
    → any p (xs ++ x ∷ []) ≡ (any p xs || p x)
any_snoc p [] x = ground arith
any_snoc p (y ∷ xs) x = ground (arith, any_snoc p xs x)

meets_snoc :
    (done : List OldUser) (u : OldUser) (rest : List OldUser)
    → meets (done ++ lowered u ∷ []) rest
      ≡ (meets done rest || any (λ v. text_eq (lower u.email) (lower v.email)) rest)
meets_snoc done u [] = refl
meets_snoc done u (v ∷ rest) =
    ground (arith, any_snoc (has_email (lower v.email)) done (lowered u), meets_snoc done u rest)

-- A row that is lowered already is met by its lowered form.
met_lowered :
    (u : OldUser) (rest : List OldUser)
    → any (has_email (lower u.email)) rest ≡ true
    → any (λ v. text_eq (lower u.email) (lower v.email)) rest ≡ true
met_lowered u [] h = absurd (cc)
met_lowered u (v ∷ rest) h = elim (Bool-cases (has_email (lower u.email) v)) [
  | inl y ↦
      let same : lower v.email ≡ lower u.email =
        ap lower (text_eq_sound v.email (lower u.email) y) ∙ lower_idem u.email in
      let here : text_eq (lower u.email) (lower v.email) ≡ true =
        ap (text_eq (lower u.email)) same ∙ text_eq_self (lower u.email) in
      ground arith
  | inr n ↦ let there = met_lowered u rest (ground arith) in ground arith
]

same_test :
    {A : Type 0} (a b c : Bool) (x y : A)
    → (if a && not (c || b) then x else y) ≡ (if (not b && a) && not c then x else y)
same_test a true true x y = ground arith
same_test a true false x y = ground arith
same_test a false true x y = ground arith
same_test a false false x y = ground arith

lower_rows_lem :
    (done rest : List OldUser)
    → lower_rows done rest ≡ (
        if is_lowered_apart rest && not (meets done rest)
        then some (done ++ map lowered rest)
        else none)
unfolding lower_rows
lower_rows_lem done [] = ap some (sym (append-nil done))
lower_rows_lem done (u ∷ rest) =
    let ih = lower_rows_lem (done ++ lowered u ∷ []) rest in
    let snoc = meets_snoc done u rest in
    let assoc = append_assoc done (lowered u ∷ []) (map lowered rest) in
    elim (Bool-cases (any (has_email (lower u.email)) done)) [
      | inl y ↦ rw (lower_rows, y) (ground arith)
      | inr n ↦ elim (Bool-cases (any (has_email (lower u.email)) rest)) [
        | inl y ↦ let met = met_lowered u rest y in rw (lower_rows, n, y) (ground arith)
        | inr m ↦
            rw (lower_rows, n, m)
              (ih ∙ rw (snoc, assoc) (same_test (is_lowered_apart rest) _ (meets done rest) _ _))
      ]
    ]

meets_none : (rest : List OldUser) → meets [] rest ≡ false
meets_none [] = refl
meets_none (u ∷ rest) = meets_none rest

-- The whole table.
pub lower_rows_whole :
    (us : List OldUser)
    → lower_rows [] us ≡ (if is_lowered_apart us then some (map lowered us) else none)
lower_rows_whole us = lower_rows_lem [] us ∙ rw (meets_none us) (ground arith)

-- What becomes of a row.
abbrev pub migrated : OldUser → User
migrated u = with_new_columns (lowered u)

map-map :
    {A B C : Type 0} (g : B → C) (f : A → B) (xs : List A)
    → map g (map f xs) ≡ map (λ x. g (f x)) xs
map-map g f [] = refl
map-map g f (x ∷ xs) = ap (λ l. g (f x) ∷ l) (map-map g f xs)

pub backfill_lem :
    (us : List OldUser)
    → backfill us ≡ (if is_lowered_apart us then some (map migrated us) else none)
unfolding backfill
backfill_lem us =
    ap (Option.map (map with_new_columns)) (lower_rows_lem [] us)
    ∙ elim (Bool-cases (is_lowered_apart us)) [
      | inl y ↦ rw (y, meets_none us) (ap some (map-map with_new_columns lowered us))
      | inr n ↦ rw n refl
    ]

-- The database after the revision: no token is stored yet.
abbrev pub migrated_world : Limiter → List User → World
migrated_world limiter users = record { limiter = limiter; users = users; tokens = []; outbox = [] }

migrated_emails :
    (us : List OldUser)
    → is_lowered_apart us ≡ true
    → Distinct (λ (u v : User). text_eq u.email v.email) (map migrated us)
migrated_emails [] h = tt
migrated_emails (u ∷ us) h = (far us (ground arith), migrated_emails us (ground arith))
  where
    far :
        (vs : List OldUser)
        → any (λ v. text_eq (lower u.email) (lower v.email)) vs ≡ false
        → All (λ (v : User). text_eq (lower u.email) v.email ≡ false) (map migrated vs)
    far [] h = tt
    far (v ∷ vs) h = (ground arith, far vs (ground arith))

migrated_ids :
    (us : List OldUser)
    → Distinct (λ (u v : OldUser). u.id == v.id) us
    → Distinct (λ (u v : User). u.id == v.id) (map migrated us)
migrated_ids [] h = tt
migrated_ids (u ∷ us) (h, k) = (far us h, migrated_ids us k)
  where
    far :
        (vs : List OldUser)
        → All (λ v. (u.id == v.id) ≡ false) vs
        → All (λ (v : User). (u.id == v.id) ≡ false) (map migrated vs)
    far [] h = tt
    far (v ∷ vs) (h, k) = (h, far vs k)

migrated_normal :
    (us : List OldUser)
    → All (λ u. strip u.email ≡ u.email) us
    → All (λ (u : User). normalize_email u.email ≡ u.email) (map migrated us)
unfolding normalize_email
migrated_normal [] h = tt
migrated_normal (u ∷ us) (h, k) =
    (ap lower (strip-lower u.email ∙ ap lower h) ∙ lower_idem u.email, migrated_normal us k)

-- Where the third revision goes through on accounts with different ids, whose addresses have no
-- space around them, the database satisfies the invariant that the handlers keep: addresses and
-- ids are unique and every address is stored as `normalize_email` gives it.
pub backfill-IsWellFormed :
    (limiter : Limiter) (us : List OldUser) (users : List User)
    → Distinct (λ (u v : OldUser). u.id == v.id) us
    → All (λ u. strip u.email ≡ u.email) us
    → backfill us ≡ some users
    → IsWellFormed (migrated_world limiter users)
backfill-IsWellFormed limiter us users ids tight e = elim (Bool-cases (is_lowered_apart us)) [
  | inr n ↦ absurd (ground (arith, backfill_lem us))
  | inl y ↦
      let same : map migrated us ≡ users = ground (arith, backfill_lem us) in
      subst (λ vs. IsWellFormed (migrated_world limiter vs)) same
        (record {
          emails = migrated_emails us y;
          ids = migrated_ids us ids;
          normal = migrated_normal us tight;
          hashes = tt;
          token_ids = tt;
          owned = tt;
        })
]
