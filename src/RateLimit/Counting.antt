-- ===== src/RateLimit/Counting.antt =====
-- A limiter at one reading of the clock, as a counter of the requests of each client.
use headnet.Base.{
  ℕ, zero, suc, ◌-◌, ◌^◌, ◌<◌, ◌≡◌, refl, sym, ap, subst, inl, inr, Bool, true, false, Option, none,
  some, List, [], ◌∷◌, arith, ltb, if◌then◌else◌, Bool-cases,
}
use headnet.Base.Int.{pos}
use headnet.Text.{Text, eq, eq_refl, eq→≡}
use headnet.RateLimit.Lookup.{elapsed_same, lookup_bucket-store_bucket, lookup_bucket-store_other}
use headnet.RateLimit.{
  lookup_bucket, Floats, Decision, Bucket, Limiter, allow, allow_all, is_off, store_bucket, sweep,
  spend_token, refill, decide, new_limiter, default_sweep_every,
}

unfoldable pub occurrences : Text → List Text → ℕ
occurrences key [] = 0
occurrences key (client ∷ clients) =
    let rest = occurrences key clients in if eq client key then suc rest else rest

-- Whether each of a list of requests is among the first `burst` of its client, after some earlier
-- ones.
unfoldable pub among_first : ℕ → List Text → List Text → List Bool
unfolding occurrences
among_first burst earlier [] = []
among_first burst earlier (client ∷ clients) =
    ltb (occurrences client earlier) burst ∷ among_first burst (client ∷ earlier) clients

-- The requests of some clients, all at one reading of the clock.
abbrev pub at_once : ℕ → List Text → List (Text × ℕ)
at_once now [] = []
at_once now (client ∷ clients) = (client, now) ∷ at_once now clients

abbrev pub answers : List Decision → List Bool
answers [] = []
answers (d ∷ ds) = d.allowed ∷ answers ds

module _ {F : Type 0} (fl : Floats F) where
  abbrev nat : ℕ → F
  nat k = fl.of_int (pos k)

  -- What the map of a limiter of a burst has for a client after some requests of it.
  abbrev Entry : ℕ → ℕ → ℕ → Option (Bucket F) → Type 0
  Entry burst now count none = count ≡ 0
  Entry burst now count (some b) =
      (b.tokens ≡ nat (burst - count)) × (b.last_seen ≡ now) × (0 < count)

  abbrev Counts : ℕ → ℕ → List Text → Limiter F → Type 0
  Counts n now earlier l =
      (l.burst ≡ nat (suc n))
      × (fl.less (nat 0) l.rate_per_second ≡ true)
      × (l.last_sweep ≡ now)
      × (l.sweep_every ≡ default_sweep_every)
      × ((key : Text) → Entry (suc n) now (occurrences key earlier) (lookup_bucket key l.buckets))

  module _ (less→above : (x : F) → fl.less (nat 0) x ≡ true → fl.at_most x (nat 0) ≡ false)
      (suc_positive : (k : ℕ) → fl.less (nat 0) (nat (suc k)) ≡ true)
      (suc_whole : (k : ℕ) → fl.less (nat (suc k)) (nat 1) ≡ false)
      (zero_short : fl.less (nat 0) (nat 1) ≡ true)
      (no_time : fl.less (nat 0) (fl.seconds (pos 0)) ≡ false)
      (sub_exact : (k : ℕ) → k < 2 ^ 53 → fl.sub (nat (suc k)) (nat 1) ≡ nat k) where
    allow_counting :
        (n now : ℕ) (earlier : List Text) (key : Text) (l : Limiter F)
        → Counts n now earlier l
        → allow fl key now l ≡ decide fl key now (lookup_bucket key l.buckets) l
    unfolding allow is_off sweep
    allow_counting n now earlier key l (burst, rate, swept, every, _) =
        rw
          (
            less→above l.rate_per_second rate,
            burst,
            less→above (nat (suc n)) (suc_positive n),
            every,
            swept,
            elapsed_same now,
          )
          refl

    -- The answer counts, and the bucket that is written counts one more.
    abbrev Counted : ℕ → ℕ → ℕ → Text → Limiter F → Decision × Limiter F → Type 0
    Counted n now count key l (d, next) =
        (d.allowed ≡ ltb count (suc n))
        × ((b : Bucket F) × Entry (suc n) now (suc count) (some b)
            × (next ≡ record l { buckets = store_bucket key b l.buckets }))

    spend_token-Counted :
        (n now count left : ℕ) (key : Text) (l : Limiter F)
        → n < 2 ^ 53
        → 0 < count
        → suc n - count ≡ left
        → Counted n now count key l
            (spend_token fl key (record { tokens = nat left; last_seen = now }) l)
    unfolding spend_token
    spend_token-Counted n now count zero key l fits asked is_left = rw zero_short (
      ground arith,
      (record { tokens = nat 0; last_seen = now }, (ap nat (omega arith), refl, omega arith), refl),
    )
    spend_token-Counted n now count (suc left) key l fits asked is_left =
        rw (suc_whole left, sub_exact left (omega arith))
          (
            ground arith,
            (
              record { tokens = nat left; last_seen = now },
              (ap nat (omega arith), refl, omega arith),
              refl,
            ),
          )

    refill_same :
        (now : ℕ) (l : Limiter F) (b : Bucket F)
        → b.last_seen ≡ now
        → refill fl now l b ≡ record { tokens = b.tokens; last_seen = now }
    unfolding refill
    refill_same now l b seen = rw (seen, elapsed_same now, no_time) refl

    decide-Counted :
        (n now count : ℕ) (key : Text) (found : Option (Bucket F)) (l : Limiter F)
        → n < 2 ^ 53
        → l.burst ≡ nat (suc n)
        → Entry (suc n) now count found
        → Counted n now count key l (decide fl key now found l)
    unfolding decide
    decide-Counted n now count key none l fits burst entry = (
      rw entry (ground arith),
      (
        record { tokens = fl.sub l.burst (nat 1); last_seen = now },
        (rw (burst, sub_exact n fits, entry) (ap nat (omega arith)), refl, omega arith),
        refl,
      ),
    )
    decide-Counted n now count key (some b) l fits burst (tokens, seen, asked) =
        let same : refill fl now l b ≡ record { tokens = nat (suc n - count); last_seen = now } =
          rw (refill_same now l b seen, tokens) refl in
        subst (λ (next : Bucket F). Counted n now count key l (spend_token fl key next l))
          (sym same) (spend_token-Counted n now count (suc n - count) key l fits asked refl)

    store_bucket-Counts :
        (n now : ℕ) (earlier : List Text) (key : Text) (b : Bucket F) (l : Limiter F)
        → Counts n now earlier l
        → Entry (suc n) now (suc (occurrences key earlier)) (some b)
        → Counts n now (key ∷ earlier) (record l { buckets = store_bucket key b l.buckets })
    unfolding occurrences
    store_bucket-Counts n now earlier key b l (burst, rate, swept, every, entries) entry = (
      burst,
      rate,
      swept,
      every,
      λ other. elim (Bool-cases (eq key other)) [
        | inl same ↦
            subst
              (λ (z : Text).
                Entry (suc n) now (occurrences z (key ∷ earlier))
                  (lookup_bucket z (store_bucket key b l.buckets)))
              (eq→≡ key other same)
              (rw (eq_refl key, lookup_bucket-store_bucket key b l.buckets) entry)
        | inr apart ↦
            rw (apart, lookup_bucket-store_other key other b l.buckets apart) (entries other)
      ],
    )

    run-among_first :
        (n now : ℕ) (earlier clients : List Text) (l : Limiter F)
        → n < 2 ^ 53
        → Counts n now earlier l
        → answers (allow_all fl (at_once now clients) l).0 ≡ among_first (suc n) earlier clients
    unfolding allow_all among_first
    run-among_first n now earlier [] l fits counts = refl
    run-among_first n now earlier (key ∷ clients) l fits (burst, rate, swept, every, entries) =
        let counts : Counts n now earlier l = (burst, rate, swept, every, entries) in
        let (answer, (b, entry, is)) =
          decide-Counted n now (occurrences key earlier) key (lookup_bucket key l.buckets) l fits
            burst (entries key) in
        let next : Counts n now (key ∷ earlier)
            (record l { buckets = store_bucket key b l.buckets }) =
          store_bucket-Counts n now earlier key b l counts entry in
        rw (allow_counting n now earlier key l counts, answer, is)
          (ap (◌∷◌ (ltb (occurrences key earlier) (suc n))) (
            run-among_first n now (key ∷ earlier) clients
              (record l { buckets = store_bucket key b l.buckets }) fits next))

    -- At one reading of the clock a new limiter answers as a counter of the requests of each client
    -- would: a request passes exactly when fewer than the burst of its client were made before it,
    -- whatever the other clients do, as long as the rate is positive and the burst at most 2^53,
    -- given what float64 arithmetic is documented to do.
    pub allow_all-among_first :
        (n requests_per_minute now : ℕ)
        → n < 2 ^ 53
        → fl.less (nat 0) (fl.div (nat requests_per_minute) (nat 60)) ≡ true
        → (clients : List Text)
        → answers
            (allow_all fl
              (at_once now clients)
              (new_limiter fl (pos requests_per_minute) (pos (suc n)) now)).0
          ≡ among_first (suc n) [] clients
    unfolding new_limiter occurrences lookup_bucket
    allow_all-among_first n requests_per_minute now fits rate clients =
        run-among_first n now [] clients
          (new_limiter fl (pos requests_per_minute) (pos (suc n)) now) fits
          (refl, rate, refl, refl, λ key. refl)
