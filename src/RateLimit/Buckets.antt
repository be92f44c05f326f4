-- ===== src/RateLimit/Buckets.antt =====
-- `enforce`: the buckets of `RULES`, their keys, and how a call ends.
use stock_quant_backend.Prelude.{
  ℕ, ◌+◌, ◌≤◌, ◌<◌, ◌≡◌, refl, sym, Bool, true, false, List, [], ◌∷◌, leb, ◌==◌, subst, length, All,
  arith, Bool-cases, Option-cases, inl, inr, Option, none, some, any,
}
use stock_quant_backend.Prelude.Text.{Text, text_eq}
use stock_quant_backend.Prelude.Counting.{All-mono}
use stock_quant_backend.Http.{Result, ok, raise, too_many_requests, pure, Action, ◌>>=◌}
use stock_quant_backend.RateLimit.{
  Rule, window, rules, Limiter, lookup, retry_after, admit, check, bucket_key, enforce, answer,
}
use stock_quant_backend.RateLimit.Sweep.{IsValid, check-eq-admit}
use stock_quant_backend.RateLimit.Deque.{All-prune}

abbrev has_colon : Text → Bool
has_colon = any (λ c. c == b':')

-- Keys of different buckets never meet, and within a bucket a key names one identifier: of a key
-- whose bucket has no colon both parts can be read back, colons in the identifier or not.
pub bucket_key-injective :
    (b b' i i' : Text)
    → has_colon b ≡ false
    → has_colon b' ≡ false
    → bucket_key b i ≡ bucket_key b' i'
    → (b ≡ b') × (i ≡ i')
unfolding bucket_key
bucket_key-injective [] [] i i' h h' e = (refl, cc)
bucket_key-injective [] (c ∷ b') i i' h h' e = absurd (ground arith)
bucket_key-injective (c ∷ b) [] i i' h h' e = absurd (ground arith)
bucket_key-injective (c ∷ b) (c' ∷ b') i i' h h' e = ground (arith, bucket_key-injective b b' i i')

-- What a rule of `RULES` satisfies: it admits something, and its window is at most an hour.
abbrev IsSound : Rule → Type 0
IsSound r = (0 < r.limit) × (r.window_seconds ≤ 3600)

lookup-All :
    (P : Rule → Type 0) (k : Text) (d : List (Text × Rule))
    → All (λ e. P e.1) d
    → (r : Rule) → lookup k d ≡ some r
    → P r
unfolding lookup
lookup-All P k [] h r e = cc
lookup-All P k ((j, q) ∷ d) h r e = elim (Bool-cases (text_eq j k)) [
  | inl same ↦ subst P (ground arith) h.0
  | inr other ↦ lookup-All P k d h.1 r (ground arith)
]

rules-IsSound : All (λ e. IsSound e.1) rules
rules-IsSound = omega arith

-- An answer of `check` under a sound rule: let through, or refused with a wait in seconds.
abbrev IsAnswer : Rule → Result (Bool × ℕ) → Type 0
IsAnswer r (ok (true, s)) = Unit
IsAnswer r (ok (false, s)) = (1 ≤ s) × (s ≤ r.window_seconds + 1)
IsAnswer r (raise e) = ⊥

admit-IsAnswer :
    (k : Text) (r : Rule) (now : ℕ) (v : List ℕ) (l : Limiter)
    → 0 < r.limit
    → All (λ a. a ≤ now) v
    → IsAnswer r (admit k r now v l).0
unfolding admit retry_after
admit-IsAnswer k r now [] l pos h = elim (Bool-cases (leb r.limit 0)) [
  | inl e ↦ absurd (ground arith)
  | inr e ↦ rw e tt
]
admit-IsAnswer k r now (a ∷ v) l pos h = elim (Bool-cases (leb r.limit (length (a ∷ v)))) [
  | inl e ↦ rw e (omega arith, omega arith)
  | inr e ↦ rw e tt
]

check-IsAnswer :
    (k : Text) (r : Rule) {before : ℕ} (now : ℕ) (l : Limiter)
    → IsSound r
    → before ≤ now
    → IsValid before l
    → IsAnswer r (check now k r l).0
check-IsAnswer k r now l sound later valid =
    rw (check-eq-admit now k r l (omega arith) valid.dict (valid.ascending k)) (
      admit-IsAnswer k r now _ l sound.0 (
        All-prune (λ a. a ≤ now) now (window r) _ (All-mono (λ a p. omega arith) _ (valid.past k))))

-- How a call of `enforce` may end: it passes, or it answers 429 for a bucket of `RULES`, with a
-- `Retry-After` of at least a second and at most one more than that bucket's window.
abbrev pub Enforced : Bool → Text → Result (Unit {0}) → Type 0
Enforced on b (ok _) = Unit
Enforced on b (raise (too_many_requests s)) =
    (on ≡ true) × (r : Rule) × (lookup b rules ≡ some r) × (1 ≤ s) × (s ≤ r.window_seconds + 1)
Enforced on b (raise _) = ⊥

answered :
    (b : Text) (r : Rule) (x : Result (Bool × ℕ)) (l l' : Limiter)
    → lookup b rules ≡ some r
    → IsAnswer r x
    → Enforced true b (((λ _. (x, l')) >>= answer) l).0
unfolding answer ◌>>=◌
answered b r (ok (true, s)) l l' e h = tt
answered b r (ok (false, s)) l l' e h = (refl, r, e, h.0, h.1)
answered b r (raise x) l l' e h = absurd h

-- On a valid limiter `enforce` never fails with anything but a 429 whose wait is in range, for a
-- known bucket and with the limiter enabled.
pub enforce-Enforced :
    (on : Bool) {before : ℕ} (now : ℕ) (b i : Text) (l : Limiter)
    → before ≤ now
    → IsValid before l
    → Enforced on b (enforce on now b i l).0
unfolding enforce ◌>>=◌
enforce-Enforced false now b i l later valid = tt
enforce-Enforced true now b i l later valid = elim (Option-cases (lookup b rules)) [
  | inl e ↦ subst (λ o. Enforced true b ((run o) l).0) (sym e) tt
  | inr (r, e) ↦
      subst (λ o. Enforced true b ((run o) l).0) (sym e)
        (answered b r (check now (bucket_key b i) r l).0 l _ e (
          check-IsAnswer (bucket_key b i) r now l (lookup-All IsSound b rules rules-IsSound r e)
            later valid))
]
  where
    run : Option Rule → Action Limiter (Unit {0})
    run o = elim o [ none ↦ pure tt | some rule ↦ check now (bucket_key b i) rule >>= answer ]
