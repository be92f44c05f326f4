-- ===== src/RateLimit/Refusal.antt =====
-- What a refused attempt is told, and what refusals and other keys leave alone.
use stock_quant_backend.Prelude.{
  ℕ, ◌+◌, ◌*◌, ◌≤◌, ◌<◌, ◌≡◌, ◌∙◌, true, false, List, [], ◌∷◌, length, arith, inl, inr, le→leb, sym,
}
use stock_quant_backend.Prelude.Text.{Text, text_eq, text_eq_self}
use stock_quant_backend.Prelude.Counting.{All-mono}
use stock_quant_backend.Http.{ok}
use stock_quant_backend.RateLimit.{
  Rule, window, second, Limiter, hits_of, maybe_sweep, prune, retry_after, admit, check,
}
use stock_quant_backend.RateLimit.Deque.{hits_of-insert_self, hits_of-insert_ne, length-prune-le}
use stock_quant_backend.RateLimit.Sweep.{
  widest, IsValid, recorded, hits-check, maybe_sweep_cases, prune-maybe_sweep, check-eq-admit,
  check-IsValid, prune_dead,
}
use stock_quant_backend.RateLimit.Window.{allowed, allowed-admit}

-- The wait that a refusal names ends no earlier than the oldest hit's window, and is between one
-- second and one more than the window's.
refused_wait :
    (now : ℕ) (r : Rule) (a : ℕ) (v : List ℕ) (s : ℕ) (l : Limiter) (k : Text)
    → (admit k r now (a ∷ v) l).0 ≡ ok (false, s)
    → a + window r ≤ now + s * second
unfolding admit retry_after
refused_wait now r a v s l k e = ground arith

-- A full deque of at most `limit` hits loses its oldest hit once the named seconds are over.
retry_room :
    (now later : ℕ) (r : Rule) (v : List ℕ) (s : ℕ) (l : Limiter) (k : Text)
    → 0 < r.limit
    → length v ≤ r.limit
    → (admit k r now v l).0 ≡ ok (false, s)
    → now + s * second ≤ later
    → length (prune later (window r) v) < r.limit
unfolding prune
retry_room now later r [] s l k pos fits e p = omega arith
retry_room now later r (a ∷ v) s l k pos fits e p =
    rw (le→leb (a + window r) later (omega (arith, refused_wait now r a v s l k e)))
      (omega (arith, length-prune-le later (window r) v))

refused_full :
    (now : ℕ) (r : Rule) (v : List ℕ) (s : ℕ) (l : Limiter) (k : Text)
    → (admit k r now v l).0 ≡ ok (false, s)
    → recorded r now v ≡ v
unfolding admit retry_after
refused_full now r [] s l k e = ground arith
refused_full now r (a ∷ v) s l k e = ground arith

module _ (k : Text) (r : Rule) (narrow : window r ≤ widest) (pos : 0 < r.limit) (now : ℕ)
    (l : Limiter) (valid : IsValid now l) where
  -- In a valid limiter whose deque of `k` holds at most `limit` hits: when an attempt is refused
  -- with `Retry-After: s`, an attempt `s` seconds later or more is let through, if nothing else
  -- came in between.
  pub retry_after_suffices :
      length (hits_of k l.hits) ≤ r.limit
      → (s : ℕ) → (check now k r l).0 ≡ ok (false, s)
      → (later : ℕ) → now + s * second ≤ later
      → allowed (check later k r (check now k r l).1).0 ≡ true
  retry_after_suffices fits s e later p =
      let l' = (check now k r l).1 in
      let v = prune now (window r) (hits_of k l.hits) in
      let refused : (admit k r now v l).0 ≡ ok (false, s) =
        sym (check-eq-admit now k r l narrow valid.dict (valid.ascending k)) ∙ e in
      let h : IsValid now l' = check-IsValid k r (omega arith) valid in
      let left : hits_of k l'.hits ≡ v =
        rw
          (
            hits-check now k r l,
            hits_of-insert_self k k _ (maybe_sweep now l).hits (text_eq_self k),
            prune-maybe_sweep now k r l narrow valid.dict (valid.ascending k),
          )
          (refused_full now r v s l k refused) in
      let room : length (prune later (window r) v) < r.limit =
        retry_room now later r v s l k pos
          (omega (arith, length-prune-le now (window r) (hits_of k l.hits))) refused p in
      rw
        (
          check-eq-admit later k r l' narrow h.dict (h.ascending k),
          allowed-admit k r later (prune later (window r) (hits_of k l'.hits)) l',
          left,
        )
        (ground arith)

admit-independent :
    (k : Text) (r : Rule) (now : ℕ) (v : List ℕ) (l l' : Limiter)
    → (admit k r now v l).0 ≡ (admit k r now v l').0
unfolding admit retry_after
admit-independent k r now [] l l' = ground arith
admit-independent k r now (a ∷ v) l l' = ground arith

-- An attempt on another key, whatever its rule and answer, does not change what a later attempt
-- on `k` is told: one noisy client cannot use up another's attempts.
pub check-check_other :
    (j k : Text) (q r : Rule) (now later : ℕ) (l : Limiter)
    → text_eq j k ≡ false
    → window r ≤ widest
    → now ≤ later
    → IsValid now l
    → (check later k r (check now j q l).1).0 ≡ (check later k r l).0
unfolding prune
check-check_other j k q r now later l other narrow p valid =
    let l' = (check now j q l).1 in
    let h : IsValid now l' = check-IsValid j q (omega arith) valid in
    let same : hits_of k l'.hits ≡ hits_of k (maybe_sweep now l).hits =
      rw (hits-check now j q l) (hits_of-insert_ne k j _ (maybe_sweep now l).hits other) in
    rw
      (
        check-eq-admit later k r l' narrow h.dict (h.ascending k),
        check-eq-admit later k r l narrow valid.dict (valid.ascending k),
        same,
      )
      (elim (maybe_sweep_cases now k l valid.dict (valid.ascending k)) [
        | inl e ↦ rw e (admit-independent k r later _ l' l)
        | inr (e, dead) ↦
            rw
              (
                e,
                prune_dead later (window r) (hits_of k l.hits)
                    (All-mono (λ a d. omega arith) _ dead),
                prune,
              )
              (admit-independent k r later [] l' l)
      ])
