-- ===== src/Migrations/Frame.antt =====
-- Operations on tables and indexes of given names, beside tables that have nothing to do with them.
use stock_quant_backend.Prelude.{
  ◌≡◌, refl, ap, sym, ◌∙◌, Bool, true, false, ◌&&◌, ◌||◌, not, Option, none, some, List, [], ◌∷◌,
  ◌++◌, any, select, if◌then◌else◌, arith, Bool-cases, Option-cases, inl, inr,
}
use mathlib.Core.Option
use mathlib.Core.List.{append_assoc}
use stock_quant_backend.Prelude.Text.{Text, text_eq, text_eq_sound}
use stock_quant_backend.Prelude.Distinct.{any_mono}
use stock_quant_backend.Migrations.{
  Constraint, primary_key, unique, foreign_key, Index, Table, Schema, Operation, create_table,
  drop_table, create_index, drop_index, add_column, drop_column, set_not_null, execute, named,
  has_table, has_index, is_referenced, refers, dangles, lacks, alter, with_index, apply, run,
}

module _ (tables indexes : List Text) where
  -- A table with one of the names, with an index of one of the names, or with a reference to one.
  abbrev pub clashes : Table → Bool
  clashes t =
      any (text_eq t.name) tables
      || any (λ i. any (text_eq i.name) indexes) t.indexes
      || any (λ c. any (λ n. refers n c) tables) t.constraints

  -- No table of the schema has to do with the names.
  abbrev pub IsApart : Schema → Type 0
  IsApart s = any clashes s ≡ false

  abbrev pub is_listed : Text → Bool
  is_listed n = any (text_eq n) tables

  -- The tables that a constraint refers to.
  abbrev pub targets_listed : Constraint → Bool
  targets_listed (foreign_key columns target others) = is_listed target
  targets_listed c = true

  -- An operation on the names only.
  abbrev pub keeps_to : Operation → Bool
  keeps_to (create_table n columns constraints) =
      is_listed n && not (any (λ c. not (targets_listed c)) constraints)
  keeps_to (drop_table n) = is_listed n
  keeps_to (create_index i n) = is_listed n && any (text_eq i.name) indexes
  keeps_to (drop_index i n) = is_listed n
  keeps_to (add_column n c) = is_listed n
  keeps_to (drop_column n c) = is_listed n
  keeps_to (set_not_null n c) = is_listed n
  keeps_to (execute statement) = true

  any_past : (p : Table → Bool) (s ts : Schema) → any p s ≡ false → any p (s ++ ts) ≡ any p ts
  any_past p [] ts h = refl
  any_past p (t ∷ s) ts h = ground (arith, any_past p s ts)

  any-refers :
      (n : Text) (c : Constraint) (ns : List Text)
      → any (text_eq n) ns ≡ true
      → refers n c ≡ true
      → any (λ m. refers m c) ns ≡ true
  any-refers n c [] h e = absurd (cc)
  any-refers n c (k ∷ ns) h e = elim (Bool-cases (text_eq n k)) [
    | inl y ↦
        let here : refers k c ≡ true = ap (λ m. refers m c) (sym (text_eq_sound n k y)) ∙ e in
        ground arith
    | inr z ↦ let there = any-refers n c ns (ground arith) e in ground arith
  ]

  any-refers_all :
      (n : Text) (cs : List Constraint)
      → is_listed n ≡ true
      → any (refers n) cs ≡ true
      → any (λ c. any (λ m. refers m c) tables) cs ≡ true
  any-refers_all n [] l h = absurd (cc)
  any-refers_all n (c ∷ cs) l h = elim (Bool-cases (refers n c)) [
    | inl y ↦ let here = any-refers n c tables l y in ground arith
    | inr z ↦ let there = any-refers_all n cs l (ground arith) in ground arith
  ]

  module _ (s : Schema) (apart : IsApart s) where
    -- No table here has a listed name.
    unnamed :
        (n : Text) (q : Table → Bool) → is_listed n ≡ true → any (λ t. named n t && q t) s ≡ false
    unnamed n q l =
        any_mono clashes (λ t. named n t && q t) s
          (λ t e.
            let is_named : text_eq t.name n ≡ true = ground arith in
            let same = text_eq_sound t.name n is_named in
            let found : any (text_eq t.name) tables ≡ true = ap is_listed same ∙ l in ground arith)
          apart

    unnamed_table : (n : Text) → is_listed n ≡ true → any (named n) s ≡ false
    unnamed_table n l =
        any_mono clashes (named n) s
          (λ t e.
            let same = text_eq_sound t.name n e in
            let found : any (text_eq t.name) tables ≡ true = ap is_listed same ∙ l in ground arith)
          apart

    any_same :
        (n : Text) (is : List Index)
        → any (text_eq n) indexes ≡ true
        → any (λ i. text_eq i.name n) is ≡ true
        → any (λ i. any (text_eq i.name) indexes) is ≡ true
    any_same n [] l h = absurd (cc)
    any_same n (i ∷ is) l h = elim (Bool-cases (text_eq i.name n)) [
      | inl y ↦
          let here : any (text_eq i.name) indexes ≡ true =
            ap (λ m. any (text_eq m) indexes) (text_eq_sound i.name n y) ∙ l in
          ground arith
      | inr z ↦ let there = any_same n is l (ground arith) in ground arith
    ]

    unindexed : (n : Text) → any (text_eq n) indexes ≡ true → has_index n s ≡ false
    unfolding has_index
    unindexed n l =
        any_mono clashes _ s (λ t e. let also = any_same n t.indexes l e in ground arith) apart

    unreferenced : (n : Text) → is_listed n ≡ true → is_referenced n s ≡ false
    unfolding is_referenced
    unreferenced n l =
        any_mono clashes _ s
          (λ t e.
            let referred : any (refers n) t.constraints ≡ true = ground arith in
            let also = any-refers_all n t.constraints l referred in ground arith)
          apart

    alter_past :
        (n : Text) (f : Table → Table) (ts : Schema) (r : Schema)
        → any (named n) r ≡ false
        → alter n f (r ++ ts) ≡ r ++ alter n f ts
    unfolding alter
    alter_past n f ts [] h = refl
    alter_past n f ts (t ∷ r) h = ground (arith, alter_past n f ts r)

    select_past :
        (n : Text) (ts : Schema) (r : Schema)
        → any (named n) r ≡ false
        → select (λ t. not (named n t)) (r ++ ts) ≡ r ++ select (λ t. not (named n t)) ts
    select_past n ts [] h = refl
    select_past n ts (t ∷ r) h = ground (arith, select_past n ts r)

    has_table_past :
        (n : Text) (ts : Schema) → is_listed n ≡ true → has_table n (s ++ ts) ≡ has_table n ts
    unfolding has_table
    has_table_past n ts l = any_past (named n) s ts (unnamed_table n l)

    has_index_past :
        (n : Text) (ts : Schema)
        → any (text_eq n) indexes ≡ true
        → has_index n (s ++ ts) ≡ has_index n ts
    unfolding has_index
    has_index_past n ts l = any_past _ s ts (unindexed n l)

    referenced_past :
        (n : Text) (ts : Schema)
        → is_listed n ≡ true
        → is_referenced n (s ++ ts) ≡ is_referenced n ts
    unfolding is_referenced
    referenced_past n ts l = any_past _ s ts (unreferenced n l)

    dangles_past :
        (c : Constraint) (ts : Schema)
        → targets_listed c ≡ true
        → dangles (s ++ ts) c ≡ dangles ts c
    dangles_past (primary_key cs) ts h = refl
    dangles_past (unique n cs) ts h = refl
    dangles_past (foreign_key cs target others) ts h = ap not (has_table_past target ts h)

    any-dangles :
        (cs : List Constraint) (ts : Schema)
        → any (λ c. not (targets_listed c)) cs ≡ false
        → any (dangles (s ++ ts)) cs ≡ any (dangles ts) cs
    any-dangles [] ts h = refl
    any-dangles (c ∷ cs) ts h = ground (arith, dangles_past c ts, any-dangles cs ts)

    abbrev beside : Option Schema → Option Schema
    beside = Option.map (λ ts. s ++ ts)

    done_past :
        (b : Bool) (r : Schema)
        → (if b then some (s ++ r) else none) ≡ beside (if b then some r else none)
    done_past true r = refl
    done_past false r = refl

    refused_past :
        (b : Bool) (r : Schema)
        → (if b then none else some (s ++ r)) ≡ beside (if b then none else some r)
    refused_past true r = refl
    refused_past false r = refl

    -- A test on the tables of one name, and what is done with one.
    changed :
        (n : Text) (q : Table → Bool) (f : Table → Table) (ts : Schema)
        → is_listed n ≡ true
        → (if any (λ t. named n t && q t) (s ++ ts) then some (alter n f (s ++ ts)) else none)
          ≡ beside (if any (λ t. named n t && q t) ts then some (alter n f ts) else none)
    changed n q f ts l =
        let test = any_past (λ t. named n t && q t) s ts (unnamed n q l) in
        let value = alter_past n f ts s (unnamed_table n l) in
        rw (test, value) (done_past (any (λ t. named n t && q t) ts) (alter n f ts))

    apply_past :
        (o : Operation) (ts : Schema) → keeps_to o ≡ true → apply o (s ++ ts) ≡ beside (apply o ts)
    unfolding apply
    apply_past (create_table n columns constraints) ts h =
        let listed : is_listed n ≡ true = ground arith in
        let targets : any (λ c. not (targets_listed c)) constraints ≡ false = ground arith in
        let t : Table = record {
          name = n;
          columns = columns;
          constraints = constraints;
          indexes = [];
        } in
        rw
          (
            has_table_past n ts listed,
            any-dangles constraints ts targets,
            append_assoc s ts (t ∷ []),
          )
          (refused_past (has_table n ts || any (dangles ts) constraints) (ts ++ t ∷ []))
    apply_past (drop_table n) ts h =
        rw (has_table_past n ts h, referenced_past n ts h, select_past n ts s (unnamed_table n h))
          (done_past (has_table n ts && not (is_referenced n ts))
            (select (λ t. not (named n t)) ts))
    apply_past (create_index i n) ts h =
        let listed : is_listed n ≡ true = ground arith in
        let indexed : any (text_eq i.name) indexes ≡ true = ground arith in
        let q : Table → Bool = λ t. not (lacks t i.columns) in
        rw
          (
            has_index_past i.name ts indexed,
            any_past (λ t. named n t && q t) s ts (unnamed n q listed),
            alter_past n (with_index i) ts s (unnamed_table n listed),
          )
          (done_past (not (has_index i.name ts) && any (λ t. named n t && q t) ts)
            (alter n (with_index i) ts))
    apply_past (drop_index i n) ts h = changed n _ _ ts h
    apply_past (add_column n c) ts h = changed n _ _ ts h
    apply_past (drop_column n c) ts h = changed n _ _ ts h
    apply_past (set_not_null n c) ts h = changed n _ _ ts h
    apply_past (execute statement) ts h = refl

    -- Operations on the names do beside `s` what they do without it.
    pub run_past :
        (os : List Operation) (ts : Schema)
        → any (λ o. not (keeps_to o)) os ≡ false
        → run os (s ++ ts) ≡ beside (run os ts)
    unfolding run
    run_past [] ts h = refl
    run_past (o ∷ os) ts h =
        let kept : keeps_to o ≡ true = ground arith in
        let one = apply_past o ts kept in
        elim (Option-cases (apply o ts)) [
          | inl e ↦ rw (run, one, e) refl
          | inr (r, e) ↦ rw (run, one, e) (run_past os r (ground arith))
        ]
