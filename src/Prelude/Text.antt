-- ===== src/Prelude/Text.antt =====
-- Python's `str` as its code points, with `==`, `<=`, `strip` and `lower`. The two methods are
-- those of ASCII text: other code points are neither space nor letter.
use Prim.Native.Nat.{ℕ, ◌+◌}
use Prim.Native.Char.{code}
use Prim.Native.String.{String}
use mathlib.Core.Path.{◌≡◌}
use mathlib.Core.Logic.{◌≢◌}
use mathlib.Core.Bool.{Bool, true, false, ◌&&◌, ◌||◌}
use mathlib.Core.List.{List, [], ◌∷◌, map}
unfoldable use native.Mathlib.Decide.{ℕ_discrete}
use native.Mathlib.Omega.{arith}
use stock_quant_backend.Prelude.Tests.{if◌then◌else◌, leb, ltb, ◌==◌, decided}

abbrev pub Text : Type 0
Text = List ℕ

-- A text literal's code points.
abbrev pub codes : String → Text
codes String.[] = []
codes (String.◌∷◌ c s) = code c ∷ codes s

unfoldable pub text_dec : Discrete Text
unfolding ℕ_discrete
text_dec = hlevel ℕ_discrete

abbrev pub text_eq : Text → Text → Bool
text_eq a b = decided (text_dec a b)

-- `a <= b` on strings: by code points, a prefix first.
unfoldable pub text_leb : Text → Text → Bool
text_leb [] _ = true
text_leb (x ∷ a) [] = false
text_leb (x ∷ a) (y ∷ b) = ltb x y || (x == y && text_leb a b)

-- The characters that `strip` takes off.
unfoldable pub is_space : ℕ → Bool
is_space c = c == 32 || (leb 9 c && leb c 13) || (leb 28 c && leb c 31)

unfoldable pub lower_char : ℕ → ℕ
lower_char c = if leb 65 c && leb c 90 then c + 32 else c

unfoldable pub lower : Text → Text
lower = map lower_char

unfoldable pub lstrip : Text → Text
unfolding is_space
lstrip [] = []
lstrip (c ∷ s) = if is_space c then lstrip s else c ∷ s

-- A character before a text that is stripped on the right.
unfoldable pub keep : ℕ → Text → Text
unfolding is_space
keep c [] = if is_space c then [] else c ∷ []
keep c (d ∷ t) = c ∷ d ∷ t

unfoldable pub rstrip : Text → Text
unfolding keep
rstrip [] = []
rstrip (c ∷ s) = keep c (rstrip s)

unfoldable pub strip : Text → Text
unfolding lstrip rstrip
strip s = lstrip (rstrip s)

pub text_eq_sound : (a b : Text) → text_eq a b ≡ true → a ≡ b
text_eq_sound a b h = ground arith

pub text_eq_self : (a : Text) → text_eq a a ≡ true
text_eq_self a = ground arith

pub text_eq_complete : (a b : Text) → text_eq a b ≡ false → a ≢ b
text_eq_complete a b h = ground arith
