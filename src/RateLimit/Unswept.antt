-- ===== src/RateLimit/Unswept.antt =====
-- A limiter without the periodic sweep of `_maybe_sweep`, and a run of attempts through both.
use stock_quant_backend.Prelude.{
  ℕ, ◌+◌, ◌≤◌, ◌≡◌, refl, sym, ◌∙◌, Bool, List, [], ◌∷◌, All, arith, Bool-cases, inl, inr, ◌⊎◌,
}
use stock_quant_backend.Prelude.Text.{Text, text_eq}
use stock_quant_backend.Prelude.Counting.{All-mono}
use stock_quant_backend.Http.{Action, Result}
use stock_quant_backend.RateLimit.{
  Rule, window, Limiter, hits_of, maybe_sweep, prune, retry_after, admit, check,
}
use stock_quant_backend.RateLimit.Window.{Attempt, IsTimed}
use stock_quant_backend.RateLimit.Deque.{hits_of-insert_self, hits_of-insert_ne}
use stock_quant_backend.RateLimit.Sweep.{
  widest, IsValid, maybe_sweep_cases, prune_dead, recorded, hits-admit, check-IsValid,
}

-- `check` without its call of `_maybe_sweep`.
unfoldable pub check_unswept : ℕ → Text → Rule → Action Limiter (Bool × ℕ)
check_unswept now key rule l = admit key rule now (prune now (window rule) (hits_of key l.hits)) l

-- The answers to a run of attempts.
unfoldable pub answers :
    (ℕ → Text → Rule → Action Limiter (Bool × ℕ))
    → List Attempt
    → Limiter
    → List (Result (Bool × ℕ))
answers f [] l = []
answers f (a ∷ calls) l = let (r, l') = f a.at a.key a.rule l in r ∷ answers f calls l'

-- Windows that are at most an hour.
abbrev pub AreNarrow : List Attempt → Type 0
AreNarrow = All (λ a. window a.rule ≤ widest)

-- Of each key, the two limiters hold the same hits, or the first has dropped expired ones.
abbrev Agrees : ℕ → Limiter → Limiter → Type 0
Agrees now l m =
    (k : Text)
    → (hits_of k l.hits ≡ hits_of k m.hits)
      ⊎ ((hits_of k l.hits ≡ []) × All (λ a. a + widest ≤ now) (hits_of k m.hits))

maybe_sweep-Agrees :
    (now now' : ℕ) (l m : Limiter)
    → now ≤ now'
    → IsValid now l
    → Agrees now l m
    → Agrees now' (maybe_sweep now' l) m
maybe_sweep-Agrees now now' l m later h same k = elim (same k) [
  | inl e ↦ elim (maybe_sweep_cases now' k l h.dict (h.ascending k)) [
    | inl kept ↦ inl (kept ∙ e)
    | inr (gone, dead) ↦ inr (gone, rw (e) at dead)
  ]
  | inr (e, dead) ↦ elim (maybe_sweep_cases now' k l h.dict (h.ascending k)) [
    | inl kept ↦ inr (kept ∙ e, All-mono (λ a p. omega arith) _ dead)
    | inr (gone, _) ↦ inr (gone, All-mono (λ a p. omega arith) _ dead)
  ]
]

prune-Agrees :
    (now : ℕ) (l m : Limiter) (key : Text) (rule : Rule)
    → window rule ≤ widest
    → Agrees now l m
    → prune now (window rule) (hits_of key l.hits) ≡ prune now (window rule) (hits_of key m.hits)
unfolding prune
prune-Agrees now l m key rule narrow same = elim (same key) [
  | inl e ↦ rw e refl
  | inr (e, dead) ↦
      rw
        (
          e,
          prune_dead now (window rule) (hits_of key m.hits) (All-mono (λ a p. omega arith) _ dead),
        )
        refl
]

admit-answer :
    (now : ℕ) (key : Text) (rule : Rule) (v : List ℕ) (l m : Limiter)
    → (admit key rule now v l).0 ≡ (admit key rule now v m).0
unfolding admit retry_after
admit-answer now key rule [] l m = ground arith
admit-answer now key rule (a ∷ v) l m = ground arith

admit-Agrees :
    (now : ℕ) (l m : Limiter) (key : Text) (rule : Rule) (v : List ℕ)
    → Agrees now l m
    → Agrees now (admit key rule now v l).1 (admit key rule now v m).1
admit-Agrees now l m key rule v same k =
    rw (hits-admit now key rule v l, hits-admit now key rule v m)
      (elim (Bool-cases (text_eq key k)) [
        | inl e ↦
            inl (hits_of-insert_self k key _ l.hits e ∙ sym (hits_of-insert_self k key _ m.hits e))
        | inr e ↦
            rw
              (
                hits_of-insert_ne k key (recorded rule now v) l.hits e,
                hits_of-insert_ne k key (recorded rule now v) m.hits e,
              )
              (same k)
      ])

check-Agrees :
    (now now' : ℕ) (l m : Limiter) (key : Text) (rule : Rule)
    → now ≤ now'
    → window rule ≤ widest
    → IsValid now l
    → Agrees now l m
    → ((check now' key rule l).0 ≡ (check_unswept now' key rule m).0)
      × Agrees now' (check now' key rule l).1 (check_unswept now' key rule m).1
unfolding check check_unswept
check-Agrees now now' l m key rule later narrow h same =
    let swept : Agrees now' (maybe_sweep now' l) m = maybe_sweep-Agrees now now' l m later h same in
    rw (prune-Agrees now' (maybe_sweep now' l) m key rule narrow swept) (
      admit-answer now' key rule _ (maybe_sweep now' l) m,
      admit-Agrees now' (maybe_sweep now' l) m key rule _ swept,
    )

answers_agree :
    (calls : List Attempt) (now : ℕ) (l m : Limiter)
    → IsTimed now calls
    → AreNarrow calls
    → IsValid now l
    → Agrees now l m
    → answers check calls l ≡ answers check_unswept calls m
unfolding answers
answers_agree [] now l m timed narrow h same = refl
answers_agree (a ∷ calls) now l m (later, timed) (n, narrow) h same =
    let (first, after) = check-Agrees now a.at l m a.key a.rule later n h same in
    let valid = check-IsValid a.key a.rule later h in
    let rest = answers_agree calls a.at _ _ timed narrow valid after in rw (first, rest) refl

-- The periodic sweep cannot be observed through the answers. Take any run of attempts, on any keys
-- and under any rules whose windows are at most the widest of `RULES`, at times that do not go
-- back, and any limiter with distinct keys whose deques are ascending and hold no time after the
-- run begins: `check` gives the answers that a limiter gives which never sweeps.
pub answers_lem :
    (calls : List Attempt) (now : ℕ) (l : Limiter)
    → IsTimed now calls
    → AreNarrow calls
    → IsValid now l
    → answers check calls l ≡ answers check_unswept calls l
answers_lem calls now l timed narrow h = answers_agree calls now l l timed narrow h (λ k. inl refl)
