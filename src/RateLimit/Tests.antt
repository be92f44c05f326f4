-- ===== src/RateLimit/Tests.antt =====
-- Tests and examples of the rate limiter: three attempts allowed within an hour, on two keys.
use stock_quant_backend.Prelude.{
  ℕ, ◌+◌, ◌*◌, ◌≤◌, ◌≡◌, refl, true, false, List, [], ◌∷◌, ◌++◌, some, count, length, arith,
  ℕ_discrete, Bool-cases, inl, inr,
}
use stock_quant_backend.Prelude.Text.{
  Text, codes, text_eq, text_dec, strip, lstrip, rstrip, keep, is_space,
}
use stock_quant_backend.Http.{ok}
use stock_quant_backend.RateLimit.{
  Rule, Limiter, second, window, init, check, admit, prune, hits_of, lookup, insert, maybe_sweep,
  drop_drained, is_drained, widest_of, retry_after, enforce,
}
use stock_quant_backend.RateLimit.Sweep.{IsValid}
use stock_quant_backend.RateLimit.Unswept.{answers, check_unswept, answers_lem}
use stock_quant_backend.RateLimit.Window.{Attempt, admitted, in_window, allowed, admitted-le-limit}
use stock_quant_backend.RateLimit.Refusal.{retry_after_suffices}
use stock_quant_backend.RateLimit.Client.{client_ip, client_ip-appended}
use stock_quant_backend.RateLimit.Buckets.{Enforced, enforce-Enforced}

abbrev one_hour : Rule
one_hour = record { limit = 2; window_seconds = 3600 }

abbrev alice : Text
alice = 97 ∷ []

abbrev bob : Text
bob = 98 ∷ []

abbrev attempt : ℕ → Text → Attempt
attempt t k = record { at = t * second; key = k; rule = one_hour }

abbrev attempts : List Attempt
attempts =
    attempt 1 alice ∷ attempt 2 bob ∷ attempt 3 alice ∷ attempt 4 alice ∷ attempt 3602 alice ∷ []

admitted-le-limit_example :
    count (in_window (window one_hour) (4 * second)) (admitted alice attempts (init 0)) ≤ 2
admitted-le-limit_example =
    admitted-le-limit alice one_hour (omega arith) 0 attempts
      (omega arith, (omega arith, (omega arith, (omega arith, (omega arith, tt)))))
      ((λ _. refl), ((λ _. refl), ((λ _. refl), ((λ _. refl), ((λ _. refl), tt))))) (4 * second)

-- A limiter with two hits of one key, whose next attempt is refused.
abbrev full : Limiter
full = record { hits = (alice, 1000000 ∷ 3000000 ∷ []) ∷ []; last_sweep = 0 }

full-IsValid : (now : ℕ) → 3000000 ≤ now → IsValid now full
unfolding hits_of lookup
full-IsValid now h = record {
  dict = (refl, tt);
  ascending = λ k. elim (Bool-cases (text_eq alice k)) [
    | inl e ↦ rw (hits_of, e) ((refl, tt), (tt, tt))
    | inr e ↦ rw (hits_of, e) tt
  ];
  past = λ k. elim (Bool-cases (text_eq alice k)) [
    | inl e ↦ rw (hits_of, e) (omega (arith, h), (h, tt))
    | inr e ↦ rw (hits_of, e) tt
  ];
}

refused : (check (4 * second) alice one_hour full).0 ≡ ok (false, 3598)
unfolding check init maybe_sweep prune hits_of lookup insert admit retry_after drop_drained
    is_drained widest_of text_dec ℕ_discrete
refused = refl

full_fits : length (hits_of alice full.hits) ≤ 2
unfolding check init maybe_sweep prune hits_of lookup insert admit retry_after drop_drained
    is_drained widest_of text_dec ℕ_discrete
full_fits = omega arith

retry_after_suffices_example :
    allowed
      (check
        (4 * second + 3598 * second)
        alice
        one_hour
        (check (4 * second) alice one_hour full).1).0
    ≡ true
retry_after_suffices_example =
    retry_after_suffices alice one_hour (omega arith) (omega arith) (4 * second) full
      (full-IsValid (4 * second) (omega arith)) full_fits 3598 refused (4 * second + 3598 * second)
      (omega arith)

-- A refusal, a sweep that empties two deques, and an attempt on each key.
abbrev hours : List Attempt
hours = attempt 4 alice ∷ attempt 5 bob ∷ attempt 7300 bob ∷ attempt 7301 alice ∷ []

answers_example : answers check hours full ≡ answers check_unswept hours full
answers_example =
    answers_lem hours (3 * second) full
      (omega arith, (omega arith, (omega arith, (omega arith, tt))))
      (omega arith, (omega arith, (omega arith, (omega arith, tt))))
      (full-IsValid (3 * second) (omega arith))

enforce-Enforced_example :
    Enforced true
      (codes "login_ip")
      (enforce true (4 * second) (codes "login_ip") (codes "10.0.0.1") full).0
enforce-Enforced_example =
    enforce-Enforced true {before = 3 * second} (4 * second) (codes "login_ip") (codes "10.0.0.1")
      full (omega arith) (full-IsValid (3 * second) (omega arith))

client_ip-appended_example :
    client_ip (some (codes "1.1.1.1, 10.9.9.9" ++ 44 ∷ codes " 10.0.0.1")) (some (codes "10.0.0.2"))
    ≡ strip (codes " 10.0.0.1")
unfolding strip lstrip rstrip keep is_space ℕ_discrete
client_ip-appended_example =
    client_ip-appended (codes "1.1.1.1, 10.9.9.9") (codes " 10.0.0.1") (some (codes "10.0.0.2"))
      refl refl
