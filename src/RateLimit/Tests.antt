-- ===== src/RateLimit/Tests.antt =====
-- Runs of the limiter, with whole numbers for the floating-point ones.
use headnet.Base.{
  ℕ, suc, ◌+◌, ◌-◌, ◌*◌, ◌/◌, ◌^◌, ◌≤◌, ◌<◌, min, ◌≡◌, refl, true, false, [], ◌∷◌, arith, ltb, leb,
}
use headnet.Base.Int.{pos, pos_part}
use headnet.Text.{Text, codes, eq}
use headnet.RateLimit.Instant.{passed, passed-le}
use headnet.RateLimit.Counting.{occurrences, among_first, at_once, answers, allow_all-among_first}
use headnet.RateLimit.{
  elapsed, lookup_bucket, Floats, Limiter, allow, allow_all, is_off, store_bucket, sweep,
  keep_recent, spend_token, refill, decide, new_limiter, wait_for, size,
}

program : Unit {0}
unfolding eq elapsed lookup_bucket store_bucket keep_recent sweep new_limiter is_off refill wait_for
    spend_token decide allow allow_all size passed occurrences among_first
program = tt

abbrev pub whole : Floats ℕ
whole = record {
  of_int = pos_part;
  add = λ a b. a + b;
  sub = λ a b. a - b;
  mul = λ a b. a * b;
  div = λ a b. a / b;
  least = min;
  less = ltb;
  at_most = leb;
  seconds = λ d. pos_part d / 1000000000;
  duration = pos;
}

abbrev alice : Text
alice = codes "10.0.0.1"

abbrev bob : Text
bob = codes "10.0.0.2"

-- 60 requests a minute with a burst of 2.
abbrev pub fresh : Limiter ℕ
fresh = new_limiter whole (pos 60) (pos 2) 5000000000

-- A third request at once is refused; a second later the client may come again, and a minute
-- later the idle clients are forgotten.
main :
    (answers
        (allow_all whole
          ((alice, 5000000000)
            ∷ (alice, 5000000000)
            ∷ (bob, 5000000000)
            ∷ (alice, 5000000000)
            ∷ (alice, 6000000000)
            ∷ [])
          fresh).0
      ≡ true ∷ true ∷ true ∷ false ∷ true ∷ [])
    × (size (allow_all whole ((alice, 5000000000) ∷ (bob, 5000000000) ∷ []) fresh).1 ≡ 2)
    × (size
          (allow_all whole
            ((alice, 5000000000) ∷ (bob, 5000000000) ∷ (bob, 700000000000) ∷ [])
            fresh).1
        ≡ 1)
    × ((allow whole alice 0 (new_limiter whole (pos 60) (pos 0) 0)).0.allowed ≡ true)
    × ((allow whole alice 5000000000
          (allow_all whole ((alice, 5000000000) ∷ (alice, 5000000000) ∷ []) fresh).1).0.retry_after
        ≡ pos 1000000000)
unfolding program
main = (refl, refl, refl, refl, refl)

less→above : (x : ℕ) → ltb 0 x ≡ true → leb x 0 ≡ false
less→above x h = ground arith

refilled :
    (x e r k : ℕ)
    → leb 0 x ≡ true
    → leb x k ≡ true
    → ltb 0 e ≡ true
    → ltb 0 r ≡ true
    → (leb 0 (min k (x + e * r)) ≡ true) × (leb (min k (x + e * r)) k ≡ true)
refilled x e r k low high later rate = (ground arith, ground arith)

taken :
    (x k : ℕ)
    → k < 2 ^ 53
    → ltb x 1 ≡ false
    → leb x (suc k) ≡ true
    → (leb 0 (x - 1) ≡ true) × (leb (x - 1) k ≡ true)
taken x k fits has high = (ground arith, ground arith)

passed-le_example :
    passed whole alice 7000000000
      (alice ∷ bob ∷ alice ∷ alice ∷ alice ∷ [])
      (allow_all whole ((alice, 5000000000) ∷ (bob, 5000000000) ∷ []) fresh).1
    ≤ 2
passed-le_example =
    passed-le whole less→above (λ k. ground arith) (λ k. ground arith) (λ k. ground arith)
      (λ x k h. ground arith) (λ x h. ground arith) refl refilled taken 1 60 5000000000
      (omega arith) refl ((alice, 5000000000) ∷ (bob, 5000000000) ∷ []) 7000000000 alice
      (alice ∷ bob ∷ alice ∷ alice ∷ alice ∷ [])

allow_all-among_first_example :
    answers (allow_all whole (at_once 5000000000 (alice ∷ bob ∷ alice ∷ alice ∷ [])) fresh).0
    ≡ true ∷ true ∷ true ∷ false ∷ []
unfolding program
allow_all-among_first_example =
    allow_all-among_first whole less→above (λ k. ground arith) (λ k. ground arith) refl refl
      (λ k h. omega arith) 1 60 5000000000 (omega arith) refl (alice ∷ bob ∷ alice ∷ alice ∷ [])
