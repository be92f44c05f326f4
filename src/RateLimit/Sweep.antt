-- ===== src/RateLimit/Sweep.antt =====
-- The periodic sweep of `_maybe_sweep` cannot be observed through `check`.
use stock_quant_backend.Prelude.{
  ℕ, ◌+◌, ◌*◌, ◌≤◌, ◌≡◌, refl, List, [], ◌∷◌, ◌++◌, leb, ltb, if◌then◌else◌, length, All, arith,
  Bool-cases, Option-cases, inl, inr, ◌⊎◌,
}
use stock_quant_backend.Prelude.Text.{Text, text_eq}
use stock_quant_backend.Prelude.Counting.{All-mono, All-append}
use stock_quant_backend.RateLimit.{
  Rule, window, Hits, Limiter, second, widest_of, lookup, insert, hits_of, is_drained, drop_drained,
  maybe_sweep, prune, retry_after, admit, check,
}
use stock_quant_backend.RateLimit.Deque.{
  Ascending, IsDict, lookup-drop_drained, drop_drained-IsDict, is_drained_dead, hits_of-insert_self,
  hits_of-insert_ne, prune-Ascending, All-prune, append-Ascending, insert-IsDict,
}

-- The widest window of `RULES`, an hour.
abbrev pub widest : ℕ
widest = 3600 * second

-- Distinct keys, and for each key ascending times, none after `now`.
pub record IsValid (now : ℕ) (l : Limiter) : Type 0 where
  pub dict : IsDict l.hits
  pub ascending : (k : Text) → Ascending (hits_of k l.hits)
  pub past : (k : Text) → All (λ a. a ≤ now) (hits_of k l.hits)

-- What `drop_drained` leaves of one key's deque.
drop_drained_cases :
    (now : ℕ) (k : Text) (d : Hits)
    → IsDict d
    → Ascending (hits_of k d)
    → (hits_of k (drop_drained now widest d) ≡ hits_of k d)
      ⊎ ((hits_of k (drop_drained now widest d) ≡ []) × All (λ a. a + widest ≤ now) (hits_of k d))
unfolding hits_of
drop_drained_cases now k d h asc = elim (Option-cases (lookup k d)) [
  | inl e ↦ inl (ground (arith, lookup-drop_drained k now widest d h))
  | inr (v, e) ↦ elim (Bool-cases (is_drained now widest v)) [
    | inl old ↦ inr (
      ground (arith, lookup-drop_drained k now widest d h),
      rw (e, hits_of) (is_drained_dead now widest v (rw (e, hits_of) at asc) old),
    )
    | inr new ↦ inl (ground (arith, lookup-drop_drained k now widest d h))
  ]
]

-- A sweep leaves a key's deque alone, or empties it when every hit in it has expired.
pub maybe_sweep_cases :
    (now : ℕ) (k : Text) (l : Limiter)
    → IsDict l.hits
    → Ascending (hits_of k l.hits)
    → (hits_of k (maybe_sweep now l).hits ≡ hits_of k l.hits)
      ⊎ ((hits_of k (maybe_sweep now l).hits ≡ []) × All (λ a. a + widest ≤ now) (hits_of k l.hits))
unfolding maybe_sweep widest_of
maybe_sweep_cases now k l h asc = elim (Bool-cases (ltb now (l.last_sweep + 600 * second))) [
  | inl e ↦ inl (rw e)
  | inr e ↦ rw e (drop_drained_cases now k l.hits h asc)
]

pub prune_dead : (now w : ℕ) (v : List ℕ) → All (λ a. a + w ≤ now) v → prune now w v ≡ []
unfolding prune
prune_dead now w [] h = refl
prune_dead now w (a ∷ v) h = ground (arith, prune_dead now w v h.1)

module _ (now : ℕ) (key : Text) (rule : Rule) (l : Limiter) (narrow : window rule ≤ widest) where
  expired : (v : List ℕ) → All (λ a. a + widest ≤ now) v → All (λ a. a + window rule ≤ now) v
  expired v h = All-mono (λ a p. omega arith) v h

  -- After pruning, a swept limiter and the limiter itself hold the same hits.
  pub prune-maybe_sweep :
      IsDict l.hits
      → Ascending (hits_of key l.hits)
      → prune now (window rule) (hits_of key (maybe_sweep now l).hits)
        ≡ prune now (window rule) (hits_of key l.hits)
  unfolding prune
  prune-maybe_sweep d asc = elim (maybe_sweep_cases now key l d asc) [
    | inl e ↦ rw e
    | inr (e, dead) ↦ rw (e, prune_dead now (window rule) (hits_of key l.hits) (expired _ dead))
  ]

  -- The answer of one `check`, where keys are distinct and the key's deque is ascending, is the one
  -- without its sweep.
  pub check-eq-admit :
      IsDict l.hits
      → Ascending (hits_of key l.hits)
      → (check now key rule l).0
        ≡ (admit key rule now (prune now (window rule) (hits_of key l.hits)) l).0
  unfolding check admit
  check-eq-admit d asc = elim (maybe_sweep_cases now key l d asc) [
    | inl e ↦ ground (arith, prune-maybe_sweep d asc)
    | inr (e, dead) ↦ ground (arith, prune-maybe_sweep d asc)
  ]

-- The deque of the checked key afterwards.
abbrev pub recorded : Rule → ℕ → List ℕ → List ℕ
recorded r now v = if leb r.limit (length v) then v else v ++ now ∷ []

pub hits-admit :
    (now : ℕ) (key : Text) (rule : Rule) (v : List ℕ) (l : Limiter)
    → (admit key rule now v l).1.hits ≡ insert key (recorded rule now v) l.hits
unfolding admit retry_after
hits-admit now key rule [] l = ground arith
hits-admit now key rule (a ∷ v) l = ground arith

module _ (now : ℕ) (key : Text) (rule : Rule) (l : Limiter) where
  pub hits-check :
      (check now key rule l).1.hits
      ≡ insert key
          (recorded rule now (prune now (window rule) (hits_of key (maybe_sweep now l).hits)))
          (maybe_sweep now l).hits
  unfolding check
  hits-check = hits-admit now key rule _ (maybe_sweep now l)

maybe_sweep-IsDict : (now : ℕ) (l : Limiter) → IsDict l.hits → IsDict (maybe_sweep now l).hits
unfolding maybe_sweep
maybe_sweep-IsDict now l d = elim (Bool-cases (ltb now (l.last_sweep + 600 * second))) [
  | inl e ↦ rw e d
  | inr e ↦ rw e (drop_drained-IsDict now _ l.hits d)
]

-- A sweep keeps the invariant.
pub maybe_sweep-IsValid :
    {now now' : ℕ} {l : Limiter} → now ≤ now' → IsValid now l → IsValid now' (maybe_sweep now' l)
maybe_sweep-IsValid {now} {now'} {l} later h = record {
  dict = maybe_sweep-IsDict now' l h.dict;
  ascending = λ k. elim (maybe_sweep_cases now' k l h.dict (h.ascending k)) [
    | inl e ↦ rw e (h.ascending k)
    | inr (e, _) ↦ rw e tt
  ];
  past = λ k. elim (maybe_sweep_cases now' k l h.dict (h.ascending k)) [
    | inl e ↦ rw e (All-mono (λ a p. omega arith) _ (h.past k))
    | inr (e, _) ↦ rw e tt
  ];
}

recorded_fits :
    (now : ℕ) (rule : Rule) (v : List ℕ)
    → Ascending v
    → All (λ a. a ≤ now) v
    → Ascending (recorded rule now v) × All (λ a. a ≤ now) (recorded rule now v)
recorded_fits now rule v asc old = elim (Bool-cases (leb rule.limit (length v))) [
  | inl e ↦ rw e (asc, old)
  | inr e ↦
      rw e (append-Ascending now v asc old, All-append (λ a. a ≤ now) v _ old (omega arith, tt))
]

-- `check` keeps the invariant, whatever the key and the rule.
pub check-IsValid :
    {now now' : ℕ} {l : Limiter} (key : Text) (rule : Rule)
    → now ≤ now'
    → IsValid now l
    → IsValid now' (check now' key rule l).1
check-IsValid {now} {now'} {l} key rule later h =
    let s = maybe_sweep now' l in
    let v = prune now' (window rule) (hits_of key s.hits) in
    let k : IsValid now' s = maybe_sweep-IsValid later h in
    let fit : Ascending (recorded rule now' v) × All (λ a. a ≤ now') (recorded rule now' v) =
      recorded_fits now' rule v (prune-Ascending now' _ _ (k.ascending key))
        (All-prune _ now' _ _ (k.past key)) in
    record {
      dict = rw (hits-check now' key rule l) (insert-IsDict key _ s.hits k.dict);
      ascending = λ j. elim (Bool-cases (text_eq key j)) [
        | inl e ↦ rw (hits-check now' key rule l, hits_of-insert_self j key _ s.hits e) fit.0
        | inr e ↦
            rw (hits-check now' key rule l, hits_of-insert_ne j key _ s.hits e) (k.ascending j)
      ];
      past = λ j. elim (Bool-cases (text_eq key j)) [
        | inl e ↦ rw (hits-check now' key rule l, hits_of-insert_self j key _ s.hits e) fit.1
        | inr e ↦ rw (hits-check now' key rule l, hits_of-insert_ne j key _ s.hits e) (k.past j)
      ];
    }
