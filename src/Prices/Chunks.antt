-- ===== src/Prices/Chunks.antt =====
-- The chunks of `load_close_prices` (app/crud.py): the loop over them ends.
use stock_quant_backend.Prelude.{
  ℕ, suc, zero, ◌+◌, ◌*◌, ◌-◌, ◌≤◌, ◌<◌, ◌≡◌, List, [], ◌∷◌, take, drop, length, arith,
}
use stock_quant_backend.Prelude.Text.{Text}
use stock_quant_backend.Prices.{DailyPrice, CloseMap, store_closes, close_query, load_chunks}

length-drop : (n : ℕ) (xs : List Text) → length (drop n xs) ≡ length xs - n
length-drop zero xs = omega arith
length-drop (suc n) [] = omega arith
length-drop (suc n) (x ∷ xs) = omega (arith, length-drop n xs)

-- The bounds on the number of turns, with one more turn.
one_more :
    (k size whole rest : ℕ)
    → rest ≡ whole - size
    → 1 ≤ whole
    → 1 ≤ size
    → k ≤ rest
    → rest ≤ k * size
    → k * size < rest + size
    → (suc k ≤ whole) × (whole ≤ suc k * size) × (suc k * size < whole + size)
one_more zero size whole rest e filled pos small all tight =
    (omega (arith, filled), omega (arith, e, all), omega (arith, filled))
one_more (suc k) size whole rest e filled pos small all tight =
    (omega (arith, e, small, pos), omega (arith, e, all), omega (arith, e, tight, small))

module _ {F D : Type 0} (to_float : D → F) (size day : ℕ) (rows : List (DailyPrice D)) where
  -- The loop as a relation: with so many turns, one statement each, it leads from the symbols that
  -- are left and the dictionary to the dictionary at its end.
  pub data Turns : ℕ → List Text → CloseMap F → CloseMap F → Type 0 where
    done : (out : CloseMap F) → Turns 0 [] out out
    turn :
        (k : ℕ) (s : Text) (symbols : List Text) (out end : CloseMap F)
        → Turns k
            (drop size (s ∷ symbols))
            (store_closes to_float (close_query day (take size (s ∷ symbols)) rows) out)
            end
        → Turns (suc k) (s ∷ symbols) out end

  -- The loop over the chunks of a day ends: with a chunk size above zero and fuel for each symbol,
  -- what `load_chunks` gives is where the loop arrives when no symbol is left, and it takes as many
  -- turns as the number of symbols divided by the chunk size, rounded up.
  pub load_chunks-Turns :
      (fuel : ℕ) (symbols : List Text) (out : CloseMap F)
      → 1 ≤ size
      → length symbols ≤ fuel
      → (k : ℕ) × Turns k symbols out (load_chunks to_float fuel size day symbols rows out)
        × (k ≤ length symbols)
        × (length symbols ≤ k * size)
        × (k * size < length symbols + size)
  unfolding load_chunks
  load_chunks-Turns zero [] out pos enough =
      (0, done out, omega arith, omega arith, omega (arith, pos))
  load_chunks-Turns zero (s ∷ symbols) out pos enough = absurd (omega (arith, enough))
  load_chunks-Turns (suc fuel) [] out pos enough =
      (0, done out, omega arith, omega arith, omega (arith, pos))
  load_chunks-Turns (suc fuel) (s ∷ symbols) out pos enough =
      let rest = drop size (s ∷ symbols) in
      let short = length-drop size (s ∷ symbols) in
      let out' = store_closes to_float (close_query day (take size (s ∷ symbols)) rows) out in
      let (k, t, small, all, tight) =
        load_chunks-Turns fuel rest out' pos (omega (arith, short, enough, pos)) in
      let (few, covered, close) =
        one_more k size (suc (length symbols)) (length rest) short (omega arith) pos small all
          tight in
      (suc k, turn k s symbols out _ t, few, covered, close)
