-- ===== src/RateLimit/Window.antt =====
-- The promise of the limiter, over any sequence of attempts on any keys: no window of a rule
-- holds more admitted attempts than its limit.
use stock_quant_backend.Prelude.{
  ℕ, ◌+◌, ◌≤◌, ◌≡◌, ap, Bool, true, false, ◌&&◌, List, [], ◌∷◌, ◌++◌, leb, ltb, if◌then◌else◌,
  length, count, All, arith, Bool-cases, inl, inr, count-append, count-le-length, leb→le, ◌∙◌,
}
use mathlib.Core.List.{append_assoc}
use stock_quant_backend.Prelude.Text.{Text, text_eq, text_eq_sound}
use stock_quant_backend.Prelude.Counting.{count_zero, All-mono, All-append}
use stock_quant_backend.Http.{Result, ok, raise}
use stock_quant_backend.RateLimit.{
  Rule, window, Limiter, hits_of, maybe_sweep, lookup, prune, admit, retry_after, check, init,
}
use stock_quant_backend.RateLimit.Deque.{
  live, hits_of-insert_self, hits_of-insert_ne, count-live-prune,
}
use stock_quant_backend.RateLimit.Sweep.{
  widest, IsValid, recorded, hits-check, maybe_sweep_cases, prune-maybe_sweep, check-IsValid,
}

pub record Attempt : Type 0 where
  pub at : ℕ
  pub key : Text
  pub rule : Rule

-- Whether the answer lets the attempt through.
abbrev pub allowed : Result (Bool × ℕ) → Bool
allowed (ok (b, _)) = b
allowed (raise _) = false

-- The times at which attempts on `k` are let through.
pub admitted : Text → List Attempt → Limiter → List ℕ
admitted k [] l = []
admitted k (a ∷ rest) l =
    let (r, l') = check a.at a.key a.rule l in
    let later = admitted k rest l' in if text_eq a.key k && allowed r then a.at ∷ later else later

-- The clock never runs backwards.
abbrev pub IsTimed : ℕ → List Attempt → Type 0
IsTimed now [] = Unit
IsTimed now (a ∷ rest) = (now ≤ a.at) × IsTimed a.at rest

-- Every attempt on `k` comes with the rule `r`.
abbrev pub Follows : Text → Rule → List Attempt → Type 0
Follows k r = All (λ a. text_eq a.key k ≡ true → a.rule ≡ r)

-- The hits of the `w` ticks that end at `t`: t - w < a ≤ t.
abbrev pub in_window : ℕ → ℕ → ℕ → Bool
in_window w t a = leb a t && ltb t (a + w)

pub allowed-admit :
    (key : Text) (r : Rule) (now : ℕ) (v : List ℕ) (l : Limiter)
    → allowed (admit key r now v l).0 ≡ ltb (length v) r.limit
unfolding admit retry_after
allowed-admit key r now [] l = ground arith
allowed-admit key r now (a ∷ v) l = ground arith

module _ (k : Text) (r : Rule) (narrow : window r ≤ widest) where
  -- The limiter's deque of `k` covers every admitted attempt that can still matter.
  record Tracks (now : ℕ) (hist : List ℕ) (l : Limiter) : Type 0 where
    valid : IsValid now l
    past : All (λ a. a ≤ now) hist
    covered :
        (t : ℕ)
        → now ≤ t
        → count (in_window (window r) t) hist ≤ count (live (window r) t) (hits_of k l.hits)
    bounded : (t : ℕ) → count (in_window (window r) t) hist ≤ r.limit

  -- A sweep hides no live hit of `k`.
  live-maybe_sweep :
      {now : ℕ} (now' t : ℕ) (l : Limiter)
      → IsValid now l
      → now' ≤ t
      → count (live (window r) t) (hits_of k (maybe_sweep now' l).hits)
        ≡ count (live (window r) t) (hits_of k l.hits)
  live-maybe_sweep now' t l h later = elim (maybe_sweep_cases now' k l h.dict (h.ascending k)) [
    | inl e ↦ rw e
    | inr (e, dead) ↦ rw (
      e,
      count_zero (live (window r) t) (hits_of k l.hits) (All-mono (λ a p. ground arith) _ dead),
    )
  ]

  -- An attempt on another key, or one that is refused.
  Tracks-kept :
      {now : ℕ} {hist : List ℕ} {l : Limiter} (a : Attempt)
      → now ≤ a.at
      → Tracks now hist l
      → ((t : ℕ)
          → a.at ≤ t
          → count (live (window r) t) (hits_of k (check a.at a.key a.rule l).1.hits)
            ≡ count (live (window r) t) (hits_of k l.hits))
      → Tracks a.at hist (check a.at a.key a.rule l).1
  Tracks-kept a later h same = record {
    valid = check-IsValid a.key a.rule later h.valid;
    past = All-mono (λ b p. omega arith) _ h.past;
    covered = λ t p. omega (arith, same t p, h.covered t (omega arith));
    bounded = h.bounded;
  }

  other_key :
      {now : ℕ} (l : Limiter) (a : Attempt)
      → IsValid now l
      → text_eq a.key k ≡ false
      → (t : ℕ) → a.at ≤ t
      → count (live (window r) t) (hits_of k (check a.at a.key a.rule l).1.hits)
        ≡ count (live (window r) t) (hits_of k l.hits)
  other_key l a h e t p =
      rw (hits-check a.at a.key a.rule l, hits_of-insert_ne k a.key _ (maybe_sweep a.at l).hits e)
        (live-maybe_sweep a.at t l h p)

  -- The deque after an attempt on `k` itself, seen without the sweep.
  own_key :
      (l : Limiter) (a : Attempt) {now : ℕ}
      → IsValid now l
      → text_eq a.key k ≡ true
      → a.key ≡ k
      → a.rule ≡ r
      → hits_of k (check a.at a.key a.rule l).1.hits
        ≡ recorded r a.at (prune a.at (window r) (hits_of k l.hits))
  own_key l a h e e' er =
      rw
        (
          hits-check a.at a.key a.rule l,
          hits_of-insert_self k a.key _ (maybe_sweep a.at l).hits e,
          e',
          er,
        )
        (ap (recorded r a.at) (prune-maybe_sweep a.at k r l narrow h.dict (h.ascending k)))

  own_allowed :
      (l : Limiter) (a : Attempt) {now : ℕ}
      → IsValid now l
      → a.key ≡ k
      → a.rule ≡ r
      → allowed (check a.at a.key a.rule l).0
        ≡ ltb (length (prune a.at (window r) (hits_of k l.hits))) r.limit
  unfolding check
  own_allowed l a h e' er =
      rw (e', er, allowed-admit k r a.at _ (maybe_sweep a.at l))
        (ap (λ v. ltb (length v) r.limit)
          (prune-maybe_sweep a.at k r l narrow h.dict (h.ascending k)))

  refused_keeps :
      (now t : ℕ) (v : List ℕ)
      → ltb (length v) r.limit ≡ false
      → count (live (window r) t) (recorded r now v) ≡ count (live (window r) t) v
  refused_keeps now t v e = ground arith

  admitted_count :
      (now t : ℕ) (hist v : List ℕ)
      → now ≤ t
      → ltb (length v) r.limit ≡ true
      → count (in_window (window r) t) hist ≤ count (live (window r) t) v
      → count (in_window (window r) t) (hist ++ now ∷ [])
        ≤ count (live (window r) t) (recorded r now v)
  admitted_count now t hist v p room h = ground (
    arith,
    count-append (in_window (window r) t) hist (now ∷ []),
    count-append (live (window r) t) v (now ∷ []),
  )

  admitted_bound :
      (now t : ℕ) (hist v : List ℕ)
      → ltb (length v) r.limit ≡ true
      → count (in_window (window r) t) hist ≤ r.limit
      → (now ≤ t → count (in_window (window r) t) hist ≤ count (live (window r) t) v)
      → count (in_window (window r) t) (hist ++ now ∷ []) ≤ r.limit
  admitted_bound now t hist v room h k = elim (Bool-cases (leb now t)) [
    | inl e ↦
        let q : count (in_window (window r) t) hist ≤ count (live (window r) t) v =
          k (leb→le now t e) in
        ground (
          arith,
          count-append (in_window (window r) t) hist (now ∷ []),
          count-le-length (live (window r) t) v,
        )
    | inr e ↦ ground (arith, count-append (in_window (window r) t) hist (now ∷ []))
  ]

  -- An attempt that is let through.
  Tracks-admitted :
      {now : ℕ} {hist : List ℕ} {l : Limiter} (a : Attempt)
      → now ≤ a.at
      → Tracks now hist l
      → ltb (length (prune a.at (window r) (hits_of k l.hits))) r.limit ≡ true
      → hits_of k (check a.at a.key a.rule l).1.hits
        ≡ recorded r a.at (prune a.at (window r) (hits_of k l.hits))
      → Tracks a.at (hist ++ a.at ∷ []) (check a.at a.key a.rule l).1
  Tracks-admitted {now} {hist} {l} a later h room e =
      let v = prune a.at (window r) (hits_of k l.hits) in
      let cover : (t : ℕ)
          → a.at ≤ t
          → count (in_window (window r) t) hist ≤ count (live (window r) t) v =
        λ t p. omega (
          arith,
          h.covered t (omega arith),
          count-live-prune a.at (window r) t (hits_of k l.hits) p,
        ) in
      record {
        valid = check-IsValid a.key a.rule later h.valid;
        past =
            All-append (λ b. b ≤ a.at) hist _ (All-mono (λ b p. omega arith) _ h.past)
              (omega arith, tt);
        covered = λ t p. rw e (admitted_count a.at t hist v p room (cover t p));
        bounded = λ t. admitted_bound a.at t hist v room (h.bounded t) (cover t);
      }

  Tracks-own :
      {now : ℕ} {hist : List ℕ} {l : Limiter} (a : Attempt)
      → now ≤ a.at
      → Tracks now hist l
      → text_eq a.key k ≡ true
      → a.key ≡ k
      → a.rule ≡ r
      → let (ans, l') = check a.at a.key a.rule l in
        Tracks a.at (if allowed ans then hist ++ a.at ∷ [] else hist) l'
  Tracks-own {now} {hist} {l} a later h e e' er =
      let v = prune a.at (window r) (hits_of k l.hits) in
      elim (Bool-cases (ltb (length v) r.limit)) [
        | inl room ↦
            rw (own_allowed l a h.valid e' er, room)
              (Tracks-admitted a later h room (own_key l a h.valid e e' er))
        | inr full ↦
            rw (own_allowed l a h.valid e' er, full)
              (Tracks-kept a later h (λ t p.
                rw (own_key l a h.valid e e' er)
                  (refused_keeps a.at t v full ∙ count-live-prune a.at (window r) t _ p)))
      ]

  run-bounded :
      {now : ℕ} (hist : List ℕ) (rest : List Attempt) {l : Limiter}
      → IsTimed now rest
      → Follows k r rest
      → Tracks now hist l
      → (t : ℕ) → count (in_window (window r) t) (hist ++ admitted k rest l) ≤ r.limit
  unfolding admitted
  run-bounded hist [] timed follows h t =
      omega (arith, count-append (in_window (window r) t) hist [], h.bounded t)
  run-bounded {now} hist (a ∷ rest) {l} timed follows h t = elim (Bool-cases (text_eq a.key k)) [
    | inr other ↦ rw other (
        run-bounded {now = a.at} hist rest timed.1 follows.1
          (Tracks-kept a timed.0 h (other_key l a h.valid other)) t)
    | inl own ↦
        let (ans, l') = check a.at a.key a.rule l in
        let step : Tracks a.at (if allowed ans then hist ++ a.at ∷ [] else hist) l' =
          Tracks-own a timed.0 h own (text_eq_sound a.key k own) (follows.0 own) in
        elim (Bool-cases (allowed ans)) [
          | inl yea ↦
              rw (own, yea, ← append_assoc hist (a.at ∷ []) (admitted k rest l'))
                (run-bounded {now = a.at} (hist ++ a.at ∷ []) rest timed.1 follows.1
                  (rw yea at step) t)
          | inr nay ↦
              rw (own, nay)
                (run-bounded {now = a.at} hist rest timed.1 follows.1 (rw nay at step) t)
        ]
  ]

  init-Tracks : (now : ℕ) → Tracks now [] (init now)
  unfolding init hits_of lookup
  init-Tracks now = record {
    valid = record { dict = tt; ascending = λ _. tt; past = λ _. tt };
    past = tt;
    covered = λ t p. omega arith;
    bounded = λ t. omega arith;
  }

  -- On a limiter created at `start`, in any sequence of attempts on any keys with any rules, where
  -- the clock does not run backwards and every attempt on `k` comes with the rule `r`, whose window
  -- is at most the widest of `RULES`: whatever the time `t`, at most `r.limit` attempts on `k` are
  -- let through in the window that ends at `t`.
  pub admitted-le-limit :
      (start : ℕ) (rest : List Attempt)
      → IsTimed start rest
      → Follows k r rest
      → (t : ℕ) → count (in_window (window r) t) (admitted k rest (init start)) ≤ r.limit
  admitted-le-limit start rest timed follows t =
      run-bounded [] rest timed follows (init-Tracks start) t
