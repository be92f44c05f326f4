-- ===== src/RateLimit/Deque.antt =====
-- The deques and their dictionary: what pruning, recording and sweeping keep.
use stock_quant_backend.Prelude.{
  ℕ, ◌+◌, ◌≤◌, ◌<◌, ◌≡◌, refl, Bool, true, false, none, some, List, [], ◌∷◌, ◌++◌, leb, ltb,
  if◌then◌else◌, length, count, All, arith, Bool-cases, inl, inr, leb→le,
}
use stock_quant_backend.Prelude.Text.{Text, text_eq}
use stock_quant_backend.Prelude.Order.{IsSorted}
use stock_quant_backend.RateLimit.{Hits, lookup, insert, hits_of, is_drained, drop_drained, prune}

-- A hit that a window of `w` ticks still holds at the time `t`.
abbrev pub live : ℕ → ℕ → ℕ → Bool
live w t a = ltb t (a + w)

abbrev pub Ascending : List ℕ → Type 0
Ascending v = IsSorted leb v

-- No key stands twice.
abbrev pub IsDict : Hits → Type 0
IsDict [] = Unit
IsDict ((k, v) ∷ d) = (lookup k d ≡ none) × IsDict d

pub lookup-insert :
    (j k : Text) (v : List ℕ) (d : Hits)
    → lookup j (insert k v d) ≡ (if text_eq k j then some v else lookup j d)
unfolding lookup insert
lookup-insert j k v [] = refl
lookup-insert j k v ((i, u) ∷ d) = ground (arith, lookup-insert j k v d)

pub hits_of-insert_self :
    (j k : Text) (v : List ℕ) (d : Hits) → text_eq k j ≡ true → hits_of j (insert k v d) ≡ v
unfolding hits_of
hits_of-insert_self j k v d e = ground (arith, lookup-insert j k v d)

pub hits_of-insert_ne :
    (j k : Text) (v : List ℕ) (d : Hits)
    → text_eq k j ≡ false
    → hits_of j (insert k v d) ≡ hits_of j d
unfolding hits_of
hits_of-insert_ne j k v d e = ground (arith, lookup-insert j k v d)

pub insert-IsDict : (k : Text) (v : List ℕ) (d : Hits) → IsDict d → IsDict (insert k v d)
unfolding lookup insert
insert-IsDict k v [] h = (refl, tt)
insert-IsDict k v ((i, u) ∷ d) h = ground (arith, insert-IsDict k v d h.1, lookup-insert i k v d)

-- A sweep drops exactly the drained keys.
pub lookup-drop_drained :
    (k : Text) (now w : ℕ) (d : Hits)
    → IsDict d
    → lookup k (drop_drained now w d)
      ≡ elim (lookup k d) [ none ↦ none | some v ↦ if is_drained now w v then none else some v ]
unfolding lookup drop_drained
lookup-drop_drained k now w [] h = refl
lookup-drop_drained k now w ((i, u) ∷ d) h = ground (arith, lookup-drop_drained k now w d h.1)

pub drop_drained-IsDict : (now w : ℕ) (d : Hits) → IsDict d → IsDict (drop_drained now w d)
unfolding drop_drained
drop_drained-IsDict now w [] h = tt
drop_drained-IsDict now w ((i, u) ∷ d) h =
    ground (arith, drop_drained-IsDict now w d h.1, lookup-drop_drained i now w d h.1)

-- Pruning removes no hit that is live now or later.
pub count-live-prune :
    (now w t : ℕ) (v : List ℕ) → now ≤ t → count (live w t) (prune now w v) ≡ count (live w t) v
unfolding prune
count-live-prune now w t [] h = refl
count-live-prune now w t (a ∷ v) h = ground (arith, count-live-prune now w t v h)

pub prune-Ascending : (now w : ℕ) (v : List ℕ) → Ascending v → Ascending (prune now w v)
unfolding prune
prune-Ascending now w [] h = tt
prune-Ascending now w (a ∷ v) h = ground (arith, prune-Ascending now w v h.1)

pub All-prune : (P : ℕ → Type 0) (now w : ℕ) (v : List ℕ) → All P v → All P (prune now w v)
unfolding prune
All-prune P now w [] h = tt
All-prune P now w (a ∷ v) h = elim (Bool-cases (leb (a + w) now)) [
  | inl e ↦ rw e (All-prune P now w v h.1)
  | inr e ↦ rw e h
]

pub length-prune-le : (now w : ℕ) (v : List ℕ) → length (prune now w v) ≤ length v
unfolding prune
length-prune-le now w [] = omega arith
length-prune-le now w (a ∷ v) = ground (arith, length-prune-le now w v)

-- What stands behind a live hit is live.
live_after :
    (now w a : ℕ) (v : List ℕ)
    → now < a + w
    → All (λ b. leb a b ≡ true) v
    → All (λ b. now < b + w) v
live_after now w a [] p h = tt
live_after now w a (b ∷ v) p h = (omega (arith, leb→le a b h.0), live_after now w a v p h.1)

-- Of an ascending deque pruning keeps only live hits.
pub prune_live : (now w : ℕ) (v : List ℕ) → Ascending v → All (λ a. now < a + w) (prune now w v)
unfolding prune
prune_live now w [] h = tt
prune_live now w (a ∷ v) h = elim (Bool-cases (leb (a + w) now)) [
  | inl e ↦ rw e (prune_live now w v h.1)
  | inr e ↦ let p : now < a + w = ground arith in rw e (p, live_after now w a v p h.0)
]

-- Pruning stops at once on a deque whose hits are all live.
pub prune_of_live : (now w : ℕ) (v : List ℕ) → All (λ a. now < a + w) v → prune now w v ≡ v
unfolding prune
prune_of_live now w [] h = refl
prune_of_live now w (a ∷ v) h = ground arith

pub append-Ascending :
    (now : ℕ) (v : List ℕ) → Ascending v → All (λ a. a ≤ now) v → Ascending (v ++ now ∷ [])
append-Ascending now [] h k = (tt, tt)
append-Ascending now (a ∷ v) h k = (last v h.0, append-Ascending now v h.1 k.1)
  where
    last : (v : List ℕ) → All (λ b. leb a b ≡ true) v → All (λ b. leb a b ≡ true) (v ++ now ∷ [])
    last [] h = (ground arith, tt)
    last (b ∷ v) h = (h.0, last v h.1)

-- A drained ascending deque holds no live hit.
pub is_drained_dead :
    (now w : ℕ) (v : List ℕ) → Ascending v → is_drained now w v ≡ true → All (λ a. a + w ≤ now) v
unfolding is_drained
is_drained_dead now w [] h e = tt
is_drained_dead now w (a ∷ []) h e = (ground arith, tt)
is_drained_dead now w (a ∷ b ∷ v) h e =
    let ih = is_drained_dead now w (b ∷ v) h.1 e in (ground (arith, ih), ih)
