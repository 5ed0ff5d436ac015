-- ===== src/RateLimit/Spending.antt =====
-- What one request does to the bucket of its client.
use headnet.Base.{
  ℕ, zero, suc, ◌^◌, ◌≤◌, ◌<◌, ◌≡◌, refl, ◌⊎◌, inl, inr, true, false, Option, none, some, arith,
  Bool-cases, All,
}
use headnet.Text.{Text}
use headnet.RateLimit.Lookup.{
  elapsed_same, lookup_bucket-store_bucket, lookup_bucket-keep_recent, keep_recent-All,
  lookup_bucket-All,
}
use headnet.RateLimit.{
  int_leb, store_bucket, sweep, decide, Buckets, is_off, refill, spend_token, pos, elapsed,
  default_idle_ttl, lookup_bucket, Floats, Decision, Bucket, Limiter, allow,
}

-- What the counting relies on of float64 arithmetic, for whole numbers up to 2^53.
pub record FloatLaws (F : Type 0) (fl : Floats F) : Type 0 where
  pub above_zero :
      (x : F) → fl.less (fl.of_int (pos 0)) x ≡ true → fl.at_most x (fl.of_int (pos 0)) ≡ false
  pub suc_positive : (k : ℕ) → fl.less (fl.of_int (pos 0)) (fl.of_int (pos (suc k))) ≡ true
  pub suc_whole : (k : ℕ) → fl.less (fl.of_int (pos (suc k))) (fl.of_int (pos 1)) ≡ false
  pub at_most_refl : (k : ℕ) → fl.at_most (fl.of_int (pos k)) (fl.of_int (pos k)) ≡ true
  pub at_most_suc :
      (x : F) (k : ℕ)
      → fl.at_most x (fl.of_int (pos k)) ≡ true
      → fl.at_most x (fl.of_int (pos (suc k))) ≡ true
  pub none_left :
      (x : F) → fl.at_most x (fl.of_int (pos 0)) ≡ true → fl.less x (fl.of_int (pos 1)) ≡ true
  pub no_time : fl.less (fl.of_int (pos 0)) (fl.seconds (pos 0)) ≡ false
  pub refilled :
      (x e r : F) (k : ℕ)
      → fl.at_most (fl.of_int (pos 0)) x ≡ true
      → fl.at_most x (fl.of_int (pos k)) ≡ true
      → fl.less (fl.of_int (pos 0)) e ≡ true
      → fl.less (fl.of_int (pos 0)) r ≡ true
      → (fl.at_most (fl.of_int (pos 0)) (fl.least (fl.of_int (pos k)) (fl.add x (fl.mul e r)))
          ≡ true)
        × (fl.at_most (fl.least (fl.of_int (pos k)) (fl.add x (fl.mul e r))) (fl.of_int (pos k))
            ≡ true)
  pub taken :
      (x : F) (k : ℕ)
      → k < 2 ^ 53
      → fl.less x (fl.of_int (pos 1)) ≡ false
      → fl.at_most x (fl.of_int (pos (suc k))) ≡ true
      → (fl.at_most (fl.of_int (pos 0)) (fl.sub x (fl.of_int (pos 1))) ≡ true)
        × (fl.at_most (fl.sub x (fl.of_int (pos 1))) (fl.of_int (pos k)) ≡ true)

module _ {F : Type 0} (fl : Floats F) where
  abbrev pub nat : ℕ → F
  nat k = fl.of_int (pos k)

  -- The tokens of a bucket are from 0 to k.
  abbrev pub Within : ℕ → Bucket F → Type 0
  Within k b = (fl.at_most (nat 0) b.tokens ≡ true) × (fl.at_most b.tokens (nat k) ≡ true)

  -- The parts of a limiter that no request changes.
  abbrev pub IsConfigured : ℕ → Limiter F → Type 0
  IsConfigured n l =
      (l.burst ≡ nat (suc n))
      × (fl.less (nat 0) l.rate_per_second ≡ true)
      × (l.idle_ttl ≡ default_idle_ttl)

  abbrev pub IsFilled : ℕ → Limiter F → Type 0
  IsFilled n l = IsConfigured n l × All (λ (e : Text × Bucket F). Within (suc n) e.1) l.buckets

  -- The bucket of the key was looked at now, and has k tokens at most.
  abbrev pub Holds : ℕ → ℕ → Text → Limiter F → Type 0
  Holds k now key l =
      (b : Bucket F) × (lookup_bucket key l.buckets ≡ some b) × (b.last_seen ≡ now) × Within k b

  -- What a request of the key at a bucket of k tokens gives.
  abbrev pub Spent : ℕ → ℕ → Text → Decision × Limiter F → Type 0
  Spent k now key (d, l) =
      ((d.allowed ≡ false) × Holds k now key l)
      ⊎ ((j : ℕ) × (k ≡ suc j) × (d.allowed ≡ true) × Holds j now key l)

  -- A bucket that the map may have for the key.
  abbrev pub Found : ℕ → Option (Bucket F) → Type 0
  Found n none = Unit
  Found n (some b) = Within (suc n) b

  module _ (laws : FloatLaws F fl) where
    pub spend_token-Spent :
        (k now : ℕ) (key : Text) (b : Bucket F) (l : Limiter F)
        → k ≤ 2 ^ 53
        → b.last_seen ≡ now
        → Within k b
        → Spent k now key (spend_token fl key b l)
    unfolding spend_token
    spend_token-Spent zero now key b l fits seen within =
        rw (laws.none_left b.tokens within.1)
          (inl (refl, (b, lookup_bucket-store_bucket key b l.buckets, seen, within)))
    spend_token-Spent (suc k) now key b l fits seen within =
        elim (Bool-cases (fl.less b.tokens (nat 1))) [
          | inl short ↦
              rw short (inl (refl, (b, lookup_bucket-store_bucket key b l.buckets, seen, within)))
          | inr whole ↦
              let next : Bucket F = record b { tokens = fl.sub b.tokens (nat 1) } in
              rw whole (
                inr (
                  k,
                  refl,
                  refl,
                  (
                    next,
                    lookup_bucket-store_bucket key next l.buckets,
                    seen,
                    laws.taken b.tokens k (omega arith) whole within.1,
                  ),
                ))
        ]

    refill-Within :
        (n now : ℕ) (l : Limiter F) (b : Bucket F)
        → IsConfigured n l
        → Within (suc n) b
        → Within (suc n) (refill fl now l b)
    unfolding refill
    refill-Within n now l b (burst, rate, _) within =
        elim (Bool-cases (fl.less (nat 0) (fl.seconds (elapsed now b.last_seen)))) [
          | inl later ↦
              rw (later, burst)
                (laws.refilled b.tokens (fl.seconds (elapsed now b.last_seen)) l.rate_per_second
                  (suc n) within.0 within.1 later rate)
          | inr still ↦ rw still within
        ]

    -- A second look at the same time refills nothing.
    pub refill_again :
        (k now : ℕ) (l : Limiter F) (b : Bucket F)
        → b.last_seen ≡ now
        → Within k b
        → Within k (refill fl now l b)
    unfolding refill
    refill_again k now l b seen within = rw (seen, elapsed_same now, laws.no_time) within

    pub sweep-IsFilled : (n now : ℕ) (l : Limiter F) → IsFilled n l → IsFilled n (sweep now l)
    unfolding sweep
    sweep-IsFilled n now l (set, all) =
        elim (Bool-cases (int_leb l.sweep_every (elapsed now l.last_sweep))) [
          | inl due ↦ rw due (set, keep_recent-All (Within (suc n)) now l.idle_ttl l.buckets all)
          | inr early ↦ rw early (set, all)
        ]

    pub sweep-Holds :
        (n k now : ℕ) (key : Text) (l : Limiter F)
        → IsConfigured n l
        → Holds k now key l
        → Holds k now key (sweep now l)
    unfolding sweep
    sweep-Holds n k now key l (_, _, ttl) (b, found, seen, within) =
        let recent : int_leb (elapsed now b.last_seen) l.idle_ttl ≡ true =
          rw (seen, elapsed_same now, ttl) refl in
        elim (Bool-cases (int_leb l.sweep_every (elapsed now l.last_sweep))) [
          | inl due ↦ rw due (
            b,
            lookup_bucket-keep_recent now l.idle_ttl key b l.buckets found recent,
            seen,
            within,
          )
          | inr early ↦ rw early (b, found, seen, within)
        ]

    pub allow_on :
        (n now : ℕ) (key : Text) (l : Limiter F)
        → IsConfigured n l
        → allow fl key now l
          ≡ decide fl key now (lookup_bucket key (sweep now l).buckets) (sweep now l)
    unfolding allow is_off
    allow_on n now key l (burst, rate, _) =
        rw
          (
            laws.above_zero l.rate_per_second rate,
            burst,
            laws.above_zero (nat (suc n)) (laws.suc_positive n),
          )
          refl

    pub lookup_bucket-Found :
        (n : ℕ) (key : Text) (buckets : Buckets F) (found : Option (Bucket F))
        → lookup_bucket key buckets ≡ found
        → All (λ (e : Text × Bucket F). Within (suc n) e.1) buckets
        → Found n found
    lookup_bucket-Found n key buckets none is all = tt
    lookup_bucket-Found n key buckets (some b) is all =
        lookup_bucket-All (Within (suc n)) key b buckets all is

    first_taken :
        (n : ℕ) (l : Limiter F)
        → n < 2 ^ 53
        → IsConfigured n l
        → (fl.at_most (nat 0) (fl.sub l.burst (nat 1)) ≡ true)
          × (fl.at_most (fl.sub l.burst (nat 1)) (nat n) ≡ true)
    first_taken n l fits (burst, _, _) =
        rw burst (laws.taken (nat (suc n)) n fits (laws.suc_whole n) (laws.at_most_refl (suc n)))

    pub decide-Spent :
        (n now : ℕ) (key : Text) (found : Option (Bucket F)) (l : Limiter F)
        → n < 2 ^ 53
        → IsConfigured n l
        → Found n found
        → Spent (suc n) now key (decide fl key now found l)
    unfolding decide refill
    decide-Spent n now key none l fits set within =
        let b : Bucket F = record { tokens = fl.sub l.burst (nat 1); last_seen = now } in
        inr (
          n,
          refl,
          refl,
          (b, lookup_bucket-store_bucket key b l.buckets, refl, first_taken n l fits set),
        )
    decide-Spent n now key (some b) l fits set within =
        spend_token-Spent (suc n) now key (refill fl now l b) l (omega arith) refl
          (refill-Within n now l b set within)

    -- Whatever the decision is, one bucket is written.
    pub decide-stores :
        (n now : ℕ) (key : Text) (found : Option (Bucket F)) (l : Limiter F)
        → n < 2 ^ 53
        → IsConfigured n l
        → Found n found
        → (b : Bucket F) × Within (suc n) b
          × ((decide fl key now found l).1 ≡ record l { buckets = store_bucket key b l.buckets })
    unfolding decide spend_token
    decide-stores n now key none l fits set within =
        let (low, high) = first_taken n l fits set in
        (
          record { tokens = fl.sub l.burst (nat 1); last_seen = now },
          (low, laws.at_most_suc _ n high),
          refl,
        )
    decide-stores n now key (some b) l fits set within =
        let next : Bucket F = refill fl now l b in
        let filled : Within (suc n) next = refill-Within n now l b set within in
        elim (Bool-cases (fl.less next.tokens (nat 1))) [
          | inl short ↦ (next, filled, rw short refl)
          | inr whole ↦
              let (low, high) = laws.taken next.tokens n fits whole filled.1 in
              (
                record next { tokens = fl.sub next.tokens (nat 1) },
                (low, laws.at_most_suc _ n high),
                rw whole refl,
              )
        ]
