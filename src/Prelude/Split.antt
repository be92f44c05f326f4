-- ===== src/Prelude/Split.antt =====
-- Python's `str.split` by one character, and `str.join`.
use Prim.Native.Nat.{ℕ}
use mathlib.Core.Path.{◌≡◌, refl, ap, ◌∙◌}
use mathlib.Core.Logic.{inl, inr}
use mathlib.Core.Bool.{Bool, false}
use mathlib.Core.List.{List, [], ◌∷◌, ◌++◌}
use native.Mathlib.Omega.{arith}
use stock_quant_backend.Prelude.Lists.{All, any}
use stock_quant_backend.Prelude.Tests.{Bool-cases, if◌then◌else◌, ◌==◌}
use stock_quant_backend.Prelude.Text.{Text}

-- A character before the first part.
abbrev pub push : ℕ → List Text → List Text
push c [] = (c ∷ []) ∷ []
push c (p ∷ ps) = (c ∷ p) ∷ ps

unfoldable pub split : ℕ → Text → List Text
split sep [] = [] ∷ []
split sep (c ∷ s) = if c == sep then [] ∷ split sep s else push c (split sep s)

unfoldable pub join : ℕ → List Text → Text
join sep [] = []
join sep (p ∷ []) = p
join sep (p ∷ q ∷ ps) = p ++ sep ∷ join sep (q ∷ ps)

abbrev pub has_char : ℕ → Text → Bool
has_char c = any (λ d. d == c)

-- There is at least one part.
split-eq-cons : (sep : ℕ) (s : Text) → (p : Text) × (ps : List Text) × (split sep s ≡ p ∷ ps)
unfolding split
split-eq-cons sep [] = ([], [], refl)
split-eq-cons sep (c ∷ s) = elim (Bool-cases (c == sep)) [
  | inl y ↦ ([], split sep s, rw y refl)
  | inr n ↦ let (p, ps, e) = split-eq-cons sep s in (c ∷ p, ps, rw (n, e) refl)
]

pub split_whole : (sep : ℕ) (s : Text) → has_char sep s ≡ false → split sep s ≡ s ∷ []
unfolding split
split_whole sep [] h = refl
split_whole sep (c ∷ s) h =
    let far : (c == sep) ≡ false = ground arith in
    let rest : split sep s ≡ s ∷ [] = split_whole sep s (ground arith) in rw (far, rest) refl

-- A separator ends a part, whatever stands before it.
pub split-append : (sep : ℕ) (a b : Text) → split sep (a ++ sep ∷ b) ≡ split sep a ++ split sep b
unfolding split
split-append sep [] b = ground arith
split-append sep (c ∷ a) b = elim (Bool-cases (c == sep)) [
  | inl y ↦ rw (y, split-append sep a b) refl
  | inr n ↦ let (p, ps, e) = split-eq-cons sep a in rw (n, split-append sep a b, e) refl
]

-- Parts without the separator come back.
pub split-join :
    (sep : ℕ) (p : Text) (ps : List Text)
    → All (λ q. has_char sep q ≡ false) (p ∷ ps)
    → split sep (join sep (p ∷ ps)) ≡ p ∷ ps
unfolding join
split-join sep p [] h = split_whole sep p h.0
split-join sep p (q ∷ ps) h =
    split-append sep p (join sep (q ∷ ps))
    ∙ ap (λ xs. xs ++ split sep (join sep (q ∷ ps))) (split_whole sep p h.0)
    ∙ ap (λ xs. p ∷ xs) (split-join sep q ps h.1)
