-- ===== src/RateLimit/Instant.antt =====
-- How many requests of one client pass at one reading of the clock.
use headnet.Base.{
  ℕ, suc, ◌+◌, ◌^◌, ◌≤◌, ◌<◌, ◌≡◌, refl, ◌∙◌, inl, inr, true, false, ◌&&◌, List, [], ◌∷◌, arith,
  if◌then◌else◌, Bool-cases,
}
use headnet.Text.{Text, eq, eq→≡}
use headnet.RateLimit.Lookup.{lookup_bucket-store_other, store_bucket-All}
use headnet.RateLimit.{
  new_limiter, sweep, decide, refill, pos, eq, Floats, Limiter, allow, allow_all,
}
use headnet.RateLimit.Spending.{
  FloatLaws, Within, IsFilled, Holds, Spent, sweep-IsFilled, sweep-Holds, allow_on,
  lookup_bucket-Found, decide-Spent, decide-stores, spend_token-Spent, refill_again,
}

-- The requests of a client that pass, of those that the clients of a list make at one time.
unfoldable pub passed : {F : Type 0} → Floats F → Text → ℕ → List Text → Limiter F → ℕ
passed fl key now [] l = 0
passed fl key now (client ∷ clients) l =
    let (decision, next) = allow fl client now l in
    (if eq client key && decision.allowed then 1 else 0) + passed fl key now clients next

module _ {F : Type 0} (fl : Floats F) where
  abbrev nat : ℕ → F
  nat k = fl.of_int (pos k)

  module _ (laws : FloatLaws F fl) where
    mine-Filled :
        (n now : ℕ) (key : Text) (l : Limiter F)
        → n < 2 ^ 53
        → IsFilled fl n l
        → Spent fl (suc n) now key (allow fl key now l)
    mine-Filled n now key l fits (set, all) =
        let (set', all') = sweep-IsFilled fl laws n now l (set, all) in
        rw (allow_on fl laws n now key l set) (
          decide-Spent fl laws n now key _ (sweep now l) fits set'
            (lookup_bucket-Found fl laws n key _ _ refl all'))

    mine-Holds :
        (n k now : ℕ) (key : Text) (l : Limiter F)
        → k ≤ 2 ^ 53
        → IsFilled fl n l
        → Holds fl k now key l
        → Spent fl k now key (allow fl key now l)
    unfolding decide refill
    mine-Holds n k now key l fits (set, all) holds =
        let (b, found, seen, within) = sweep-Holds fl laws n k now key l set holds in
        rw (allow_on fl laws n now key l set, found)
          (spend_token-Spent fl laws k now key (refill fl now (sweep now l) b) (sweep now l) fits
            refl (refill_again fl laws k now (sweep now l) b seen within))

    allow-IsFilled :
        (n now : ℕ) (key : Text) (l : Limiter F)
        → n < 2 ^ 53
        → IsFilled fl n l
        → IsFilled fl n (allow fl key now l).1
    allow-IsFilled n now key l fits (set, all) =
        let (set', all') = sweep-IsFilled fl laws n now l (set, all) in
        let (b, within, is) =
          decide-stores fl laws n now key _ (sweep now l) fits set'
            (lookup_bucket-Found fl laws n key _ _ refl all') in
        rw (allow_on fl laws n now key l set, is)
          (set', store_bucket-All (Within fl (suc n)) key b (sweep now l).buckets within all')

    other-Holds :
        (n k now : ℕ) (key client : Text) (l : Limiter F)
        → n < 2 ^ 53
        → eq client key ≡ false
        → IsFilled fl n l
        → Holds fl k now key l
        → Holds fl k now key (allow fl client now l).1
    other-Holds n k now key client l fits apart (set, all) holds =
        let (set', all') = sweep-IsFilled fl laws n now l (set, all) in
        let (kept, found, seen, within) = sweep-Holds fl laws n k now key l set holds in
        let (b, _, is) =
          decide-stores fl laws n now client _ (sweep now l) fits set'
            (lookup_bucket-Found fl laws n client _ _ refl all') in
        rw (allow_on fl laws n now client l set, is)
          (
            kept,
            lookup_bucket-store_other client key b (sweep now l).buckets apart ∙ found,
            seen,
            within,
          )

    -- At most k requests pass at a bucket of k tokens.
    passed-Holds :
        (n k now : ℕ) (key : Text) (clients : List Text) (l : Limiter F)
        → n < 2 ^ 53
        → k ≤ suc n
        → IsFilled fl n l
        → Holds fl k now key l
        → passed fl key now clients l ≤ k
    unfolding passed
    passed-Holds n k now key [] l fits le filled holds = omega arith
    passed-Holds n k now key (client ∷ clients) l fits le filled holds =
        let next = (allow fl client now l).1 in
        let filled' : IsFilled fl n next = allow-IsFilled n now client l fits filled in
        elim (Bool-cases (eq client key)) [
          | inl same ↦
              let spent : Spent fl k now key (allow fl client now l) =
                rw (eq→≡ client key same) (mine-Holds n k now key l (omega arith) filled holds) in
              elim spent [
                | inl (refused, holds') ↦
                    let rest : passed fl key now clients next ≤ k =
                      passed-Holds n k now key clients next fits le filled' holds' in
                    rw (same, refused) (omega arith)
                | inr (j, is_suc, allowed, holds') ↦
                    let rest : passed fl key now clients next ≤ j =
                      passed-Holds n j now key clients next fits (omega arith) filled' holds' in
                    rw (same, allowed) (omega arith)
              ]
          | inr apart ↦
              let rest : passed fl key now clients next ≤ k =
                passed-Holds n k now key clients next fits le filled'
                  (other-Holds n k now key client l fits apart filled holds) in
              rw apart (omega arith)
        ]

    passed-IsFilled :
        (n now : ℕ) (key : Text) (clients : List Text) (l : Limiter F)
        → n < 2 ^ 53
        → IsFilled fl n l
        → passed fl key now clients l ≤ suc n
    unfolding passed
    passed-IsFilled n now key [] l fits filled = omega arith
    passed-IsFilled n now key (client ∷ clients) l fits filled =
        let next = (allow fl client now l).1 in
        let filled' : IsFilled fl n next = allow-IsFilled n now client l fits filled in
        elim (Bool-cases (eq client key)) [
          | inl same ↦
              let spent : Spent fl (suc n) now key (allow fl client now l) =
                rw (eq→≡ client key same) (mine-Filled n now key l fits filled) in
              elim spent [
                | inl (refused, holds') ↦
                    let rest : passed fl key now clients next ≤ suc n =
                      passed-Holds n (suc n) now key clients next fits (omega arith) filled'
                        holds' in
                    rw (same, refused) (omega arith)
                | inr (j, is_suc, allowed, holds') ↦
                    let rest : passed fl key now clients next ≤ j =
                      passed-Holds n j now key clients next fits (omega arith) filled' holds' in
                    rw (same, allowed) (omega arith)
              ]
          | inr apart ↦
              let rest : passed fl key now clients next ≤ suc n =
                passed-IsFilled n now key clients next fits filled' in
              rw apart (omega arith)
        ]

    allow_all-IsFilled :
        (n : ℕ) (history : List (Text × ℕ)) (l : Limiter F)
        → n < 2 ^ 53
        → IsFilled fl n l
        → IsFilled fl n (allow_all fl history l).1
    unfolding allow_all
    allow_all-IsFilled n [] l fits filled = filled
    allow_all-IsFilled n ((key, now) ∷ history) l fits filled =
        allow_all-IsFilled n history (allow fl key now l).1 fits
          (allow-IsFilled n now key l fits filled)

  module _ (less→above : (x : F) → fl.less (nat 0) x ≡ true → fl.at_most x (nat 0) ≡ false)
      (suc_positive : (k : ℕ) → fl.less (nat 0) (nat (suc k)) ≡ true)
      (suc_whole : (k : ℕ) → fl.less (nat (suc k)) (nat 1) ≡ false)
      (at_most_refl : (k : ℕ) → fl.at_most (nat k) (nat k) ≡ true)
      (at_most_suc : (x : F) (k : ℕ)
        → fl.at_most x (nat k) ≡ true
        → fl.at_most x (nat (suc k)) ≡ true)
      (none_left : (x : F) → fl.at_most x (nat 0) ≡ true → fl.less x (nat 1) ≡ true)
      (no_time : fl.less (nat 0) (fl.seconds (pos 0)) ≡ false)
      (refilled : (x e r : F) (k : ℕ)
        → fl.at_most (nat 0) x ≡ true
        → fl.at_most x (nat k) ≡ true
        → fl.less (nat 0) e ≡ true
        → fl.less (nat 0) r ≡ true
        → (fl.at_most (nat 0) (fl.least (nat k) (fl.add x (fl.mul e r))) ≡ true)
          × (fl.at_most (fl.least (nat k) (fl.add x (fl.mul e r))) (nat k) ≡ true))
      (taken : (x : F) (k : ℕ)
        → k < 2 ^ 53
        → fl.less x (nat 1) ≡ false
        → fl.at_most x (nat (suc k)) ≡ true
        → (fl.at_most (nat 0) (fl.sub x (nat 1)) ≡ true)
          × (fl.at_most (fl.sub x (nat 1)) (nat k) ≡ true)) where
    -- Of the requests that are made at one reading of the clock, no more of one client pass than
    -- the burst, whatever requests were made before and at whichever readings, as long as the rate
    -- is positive and the burst at most 2^53, given what float64 arithmetic is documented to do.
    pub passed-le :
        (n requests_per_minute start : ℕ)
        → n < 2 ^ 53
        → fl.less (nat 0) (fl.div (nat requests_per_minute) (nat 60)) ≡ true
        → (history : List (Text × ℕ)) (now : ℕ) (key : Text) (clients : List Text)
        → passed fl key now clients
            (allow_all fl history (new_limiter fl (pos requests_per_minute) (pos (suc n)) start)).1
          ≤ suc n
    unfolding new_limiter
    passed-le n requests_per_minute start fits rate history now key clients =
        let fresh = new_limiter fl (pos requests_per_minute) (pos (suc n)) start in
        passed-IsFilled laws n now key clients _ fits
          (allow_all-IsFilled laws n history fresh fits ((refl, rate, refl), tt))
      where
        laws : FloatLaws F fl
        laws = record {
          above_zero = less→above;
          suc_positive = suc_positive;
          suc_whole = suc_whole;
          at_most_refl = at_most_refl;
          at_most_suc = at_most_suc;
          none_left = none_left;
          no_time = no_time;
          refilled = refilled;
          taken = taken;
        }
