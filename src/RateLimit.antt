-- ===== src/RateLimit.antt =====
-- The sliding-window rate limiter (app/ratelimit.py): `Rule`, `RULES`, `SlidingWindowLimiter`
-- and `enforce`. A time is a reading of the monotonic clock in microseconds. The source's floats
-- of seconds are read as exact, and its comparisons with `now - w` are written without the
-- subtraction.
pub mod Deque
pub mod Sweep
pub mod Window
pub mod Unswept
pub mod Refusal
pub mod Buckets
pub mod Client
mod Tests
use stock_quant_backend.Prelude.{
  ℕ, ◌+◌, ◌-◌, ◌*◌, ◌/◌, max, Bool, true, false, ◌||◌, Option, none, some, List, [], ◌∷◌, ◌++◌, leb,
  ltb, if◌then◌else◌, length,
}
use stock_quant_backend.Prelude.Text.{Text, codes, text_eq, text_dec}
use stock_quant_backend.Http.{
  Action, ok, raise, Failure, too_many_requests, index_error, ◌>>=◌, ◌>>◌, pure, raise_if, throw,
}

abbrev pub second : ℕ
second = 1000000

pub record Rule : Type 0 where
  pub limit : ℕ
  pub window_seconds : ℕ

-- The rule's window in clock ticks.
abbrev pub window : Rule → ℕ
window r = r.window_seconds * second

abbrev pub rules : List (Text × Rule)
rules =
    (codes "login_ip", record { limit = 10; window_seconds = 15 * 60 })
    ∷ (codes "login_email", record { limit = 10; window_seconds = 15 * 60 })
    ∷ (codes "register_ip", record { limit = 5; window_seconds = 60 * 60 })
    ∷ (codes "forgot_ip", record { limit = 10; window_seconds = 60 * 60 })
    ∷ (codes "forgot_email", record { limit = 3; window_seconds = 60 * 60 })
    ∷ (codes "resend_user", record { limit = 3; window_seconds = 60 * 60 })
    ∷ []

-- A `dict` keyed by strings.
module _ {V : Type 0} where
  unfoldable pub lookup : Text → List (Text × V) → Option V
  lookup k [] = none
  lookup k ((j, v) ∷ d) = if text_eq j k then some v else lookup k d

  unfoldable pub insert : Text → V → List (Text × V) → List (Text × V)
  insert k v [] = (k, v) ∷ []
  insert k v ((j, w) ∷ d) = if text_eq j k then (k, v) ∷ d else (j, w) ∷ insert k v d

-- A key's deque in a `defaultdict(deque)`, oldest first.
abbrev pub Hits : Type 0
Hits = List (Text × List ℕ)

unfoldable pub hits_of : Text → Hits → List ℕ
hits_of k d = elim (lookup k d) [ none ↦ [] | some v ↦ v ]

pub record Limiter : Type 0 where
  pub hits : Hits
  pub last_sweep : ℕ

-- `SlidingWindowLimiter.__init__`
unfoldable pub init : ℕ → Limiter
init now = record { hits = []; last_sweep = now }

abbrev pub sweep_interval : ℕ
sweep_interval = 600 * second

-- `max((r.window_seconds for r in RULES.values()), default=3600)`
unfoldable pub widest_of : List (Text × Rule) → ℕ
widest_of [] = 3600
widest_of ((_, r) ∷ []) = r.window_seconds
widest_of ((_, r) ∷ e ∷ d) = max r.window_seconds (widest_of (e ∷ d))

-- `not v or v[-1] <= now - widest`
unfoldable pub is_drained : ℕ → ℕ → List ℕ → Bool
is_drained now widest [] = true
is_drained now widest (h ∷ []) = leb (h + widest) now
is_drained now widest (h ∷ g ∷ v) = is_drained now widest (g ∷ v)

unfoldable pub drop_drained : ℕ → ℕ → Hits → Hits
drop_drained now widest [] = []
drop_drained now widest ((k, v) ∷ d) =
    if is_drained now widest v
    then drop_drained now widest d
    else (k, v) ∷ drop_drained now widest d

unfoldable pub maybe_sweep : ℕ → Limiter → Limiter
maybe_sweep now l =
    if ltb now (l.last_sweep + sweep_interval)
    then l
    else record { hits = drop_drained now (widest_of rules * second) l.hits; last_sweep = now }

-- `while hits and hits[0] <= now - window: hits.popleft()`
unfoldable pub prune : ℕ → ℕ → List ℕ → List ℕ
prune now w [] = []
prune now w (h ∷ v) = if leb (h + w) now then prune now w v else h ∷ v

-- `max(int(hits[0] + window - now) + 1, 1)`; `hits[0]` raises on an empty deque.
unfoldable pub retry_after : ℕ → ℕ → List ℕ → Option ℕ
retry_after now w [] = none
retry_after now w (h ∷ v) = some (max ((h + w - now) / second + 1) 1)

-- `if len(hits) >= rule.limit: …` of `check`, on the pruned deque.
unfoldable pub admit : Text → Rule → ℕ → List ℕ → Action Limiter (Bool × ℕ)
admit key rule now v l =
    if leb rule.limit (length v)
    then elim (retry_after now (window rule) v) [
      | none ↦ (raise index_error, record l { hits = insert key v l.hits })
      | some r ↦ (ok (false, r), record l { hits = insert key v l.hits })
    ]
    else (ok (true, 0), record l { hits = insert key (v ++ now ∷ []) l.hits })

-- `SlidingWindowLimiter.check`, whose clock reads `now`: (allowed, retry_after).
unfoldable pub check : ℕ → Text → Rule → Action Limiter (Bool × ℕ)
check now key rule l =
    let swept = maybe_sweep now l in
    admit key rule now (prune now (window rule) (hits_of key swept.hits)) swept

-- f"{bucket}:{identifier}"
unfoldable pub bucket_key : Text → Text → Text
bucket_key bucket identifier = bucket ++ codes ":" ++ identifier

-- `if not allowed: raise HTTPException(429, …)`
unfoldable pub answer : Bool × ℕ → Action Limiter (Unit {0})
answer (true, retry) = pure tt
answer (false, retry) = throw (too_many_requests retry)

-- `enforce`; the flag is `settings.RATE_LIMIT_ENABLED`.
unfoldable pub enforce : Bool → ℕ → Text → Text → Action Limiter (Unit {0})
enforce false now bucket identifier = pure tt
enforce true now bucket identifier = elim (lookup bucket rules) [
  | none ↦ pure tt
  | some rule ↦ check now (bucket_key bucket identifier) rule >>= answer
]

-- `reset`: one key, or everything.
unfoldable pub erase : Text → Hits → Hits
erase k [] = []
erase k ((j, v) ∷ d) = if text_eq j k then d else (j, v) ∷ erase k d

unfoldable pub reset : Option Text → Limiter → Limiter
unfolding erase
reset none l = record l { hits = [] }
reset (some k) l = record l { hits = erase k l.hits }
