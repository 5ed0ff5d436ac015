-- ===== src/RateLimit.antt =====
-- internal/httpapi/ratelimit.go: the token bucket of each client. A number of type float64 is an
-- element of `F`, and what is done with it is a field of `Floats`. The map of buckets is a list in
-- which a key stands once. An instant is nanoseconds, and a reading of the clock is an argument.
pub mod Lookup
pub mod Spending
pub mod Counting
pub mod Instant
pub mod Tests
use headnet.Base.{
  ◌-◌, ◌^◌, Bool, List, Option, [], false, if◌then◌else◌, length, leb, min, none, not, some, true,
  ℕ, ◌||◌, ◌∷◌,
}
use headnet.Base.Int.{ℤ, int_leb, int_max, negsuc, pos}
use headnet.Text.{Text, eq}

-- The float64 arithmetic of Go and of its package math.
pub record Floats (F : Type 0) : Type 0 where
  -- float64(n)
  pub of_int : ℤ → F
  pub add : F → F → F
  pub sub : F → F → F
  pub mul : F → F → F
  pub div : F → F → F
  -- math.Min
  pub least : F → F → F
  -- x < y
  pub less : F → F → Bool
  -- x <= y
  pub at_most : F → F → Bool
  -- Duration.Seconds
  pub seconds : ℤ → F
  -- time.Duration(x)
  pub duration : F → ℤ

pub record Bucket (F : Type 0) : Type 0 where
  pub tokens : F
  pub last_seen : ℕ

abbrev pub Buckets : Type 0 → Type 0
Buckets F = List (Text × Bucket F)

pub record Limiter (F : Type 0) : Type 0 where
  pub buckets : Buckets F
  pub rate_per_second : F
  pub burst : F
  pub last_sweep : ℕ
  pub sweep_every : ℤ
  pub idle_ttl : ℤ

-- The results of Allow.
pub record Decision : Type 0 where
  pub allowed : Bool
  pub retry_after : ℤ

-- time.Second
abbrev pub second : ℕ
second = 1000000000

abbrev pub default_sweep_every : ℤ
default_sweep_every = pos 60000000000

abbrev pub default_idle_ttl : ℤ
default_idle_ttl = pos 600000000000

-- Time.Sub, which stays within the range of a Duration.
unfoldable pub elapsed : ℕ → ℕ → ℤ
elapsed now since =
    if leb since now
    then pos (min (now - since) (2 ^ 63 - 1))
    else negsuc (min (since - now - 1) (2 ^ 63 - 1))

abbrev pub pass : Decision
pass = record { allowed = true; retry_after = pos 0 }

module _ {F : Type 0} where
  -- l.buckets[key]
  unfoldable pub lookup_bucket : Text → Buckets F → Option (Bucket F)
  lookup_bucket key [] = none
  lookup_bucket key ((name, b) ∷ rest) = if eq name key then some b else lookup_bucket key rest

  -- l.buckets[key] = b
  unfoldable pub store_bucket : Text → Bucket F → Buckets F → Buckets F
  store_bucket key b [] = (key, b) ∷ []
  store_bucket key b ((name, old) ∷ rest) =
      let others = store_bucket key b rest in
      if eq name key then (name, b) ∷ rest else (name, old) ∷ others

  -- The loop of sweepLocked.
  unfoldable pub keep_recent : ℕ → ℤ → Buckets F → Buckets F
  unfolding elapsed
  keep_recent now ttl [] = []
  keep_recent now ttl ((name, b) ∷ rest) =
      let others = keep_recent now ttl rest in
      if not (int_leb (elapsed now b.last_seen) ttl) then others else (name, b) ∷ others

  -- sweepLocked
  unfoldable pub sweep : ℕ → Limiter F → Limiter F
  unfolding keep_recent elapsed
  sweep now l =
      if not (int_leb l.sweep_every (elapsed now l.last_sweep))
      then l
      else record l { last_sweep = now; buckets = keep_recent now l.idle_ttl l.buckets }

  module _ (fl : Floats F) where
    -- newLimiter
    unfoldable pub new_limiter : ℤ → ℤ → ℕ → Limiter F
    new_limiter requests_per_minute burst now = record {
      buckets = [];
      rate_per_second = fl.div (fl.of_int requests_per_minute) (fl.of_int (pos 60));
      burst = fl.of_int burst;
      last_sweep = now;
      sweep_every = default_sweep_every;
      idle_ttl = default_idle_ttl;
    }

    -- A limiter that lets everything pass.
    unfoldable pub is_off : Limiter F → Bool
    is_off l =
        fl.at_most l.rate_per_second (fl.of_int (pos 0)) || fl.at_most l.burst (fl.of_int (pos 0))

    unfoldable pub refill : ℕ → Limiter F → Bucket F → Bucket F
    unfolding elapsed
    refill now l b =
        let passed = fl.seconds (elapsed now b.last_seen) in
        let tokens =
          if fl.less (fl.of_int (pos 0)) passed
          then fl.least l.burst (fl.add b.tokens (fl.mul passed l.rate_per_second))
          else b.tokens in
        record { tokens = tokens; last_seen = now }

    unfoldable pub wait_for : Limiter F → F → ℤ
    wait_for l tokens =
        let deficit = fl.sub (fl.of_int (pos 1)) tokens in
        int_max (fl.duration (fl.mul (fl.div deficit l.rate_per_second) (fl.of_int (pos second))))
          (pos second)

    -- The rest of Allow, for the bucket of the key after its refill.
    unfoldable pub spend_token : Text → Bucket F → Limiter F → Decision × Limiter F
    unfolding store_bucket wait_for
    spend_token key b l =
        if fl.less b.tokens (fl.of_int (pos 1))
        then (
          record { allowed = false; retry_after = wait_for l b.tokens },
          record l { buckets = store_bucket key b l.buckets },
        )
        else (
          pass,
          record l {
            buckets =
                store_bucket key (record b { tokens = fl.sub b.tokens (fl.of_int (pos 1)) })
                  l.buckets;
          },
        )

    -- The rest of Allow after the sweep, with what the map has for the key.
    unfoldable pub decide : Text → ℕ → Option (Bucket F) → Limiter F → Decision × Limiter F
    unfolding store_bucket refill spend_token
    decide key now none l = (
      pass,
      record l {
        buckets =
            store_bucket key
              (record { tokens = fl.sub l.burst (fl.of_int (pos 1)); last_seen = now }) l.buckets;
      },
    )
    decide key now (some b) l = spend_token key (refill now l b) l

    -- Limiter.Allow
    unfoldable pub allow : Text → ℕ → Limiter F → Decision × Limiter F
    unfolding is_off sweep lookup_bucket decide
    allow key now l =
        if is_off l
        then (pass, l)
        else let swept = sweep now l in decide key now (lookup_bucket key swept.buckets) swept

    -- A sequence of requests, each the key of its client and its time, and what they are answered.
    unfoldable pub allow_all : List (Text × ℕ) → Limiter F → List Decision × Limiter F
    unfolding allow
    allow_all [] l = ([], l)
    allow_all ((key, now) ∷ requests) l =
        let (decision, next) = allow key now l in
        let (decisions, last) = allow_all requests next in (decision ∷ decisions, last)

  -- Limiter.Size
  unfoldable pub size : Limiter F → ℕ
  size l = length l.buckets
