-- ===== src/RateLimit/Lookup.antt =====
-- The map of buckets: what a lookup_bucket finds after a store_bucket and after a sweep.
use headnet.Base.{subst, Bool-cases, [], arith, false, inl, inr, some, true, ℕ, ◌≡◌, ◌∷◌, All}
use headnet.Base.Int.{ℤ, int_leb, pos}
use headnet.Text.{Text, eq, eq_refl, eq→≡}
use headnet.RateLimit.{Bucket, Buckets, elapsed, keep_recent, lookup_bucket, store_bucket}

pub elapsed_same : (now : ℕ) → elapsed now now ≡ pos 0
unfolding elapsed
elapsed_same now = ground arith

module _ {F : Type 0} where
  pub lookup_bucket-store_bucket :
      (key : Text) (b : Bucket F) (buckets : Buckets F)
      → lookup_bucket key (store_bucket key b buckets) ≡ some b
  unfolding lookup_bucket store_bucket
  lookup_bucket-store_bucket key b [] = rw (eq_refl key)
  lookup_bucket-store_bucket key b ((name, old) ∷ rest) = elim (Bool-cases (eq name key)) [
    | inl same ↦ rw (same, same)
    | inr apart ↦ rw (apart, apart, lookup_bucket-store_bucket key b rest)
  ]

  pub lookup_bucket-store_other :
      (key other : Text) (b : Bucket F) (buckets : Buckets F)
      → eq key other ≡ false
      → lookup_bucket other (store_bucket key b buckets) ≡ lookup_bucket other buckets
  unfolding lookup_bucket store_bucket
  lookup_bucket-store_other key other b [] apart = rw apart
  lookup_bucket-store_other key other b ((name, old) ∷ rest) apart =
      elim (Bool-cases (eq name key)) [
        | inl same ↦
            let is_other : eq name other ≡ false = rw (eq→≡ name key same) apart in
            rw (same, is_other)
        | inr different ↦ rw (different, lookup_bucket-store_other key other b rest apart)
      ]

  pub lookup_bucket-keep_recent :
      (now : ℕ) (ttl : ℤ) (key : Text) (b : Bucket F) (buckets : Buckets F)
      → lookup_bucket key buckets ≡ some b
      → int_leb (elapsed now b.last_seen) ttl ≡ true
      → lookup_bucket key (keep_recent now ttl buckets) ≡ some b
  unfolding lookup_bucket keep_recent
  lookup_bucket-keep_recent now ttl key b [] found recent = cc
  lookup_bucket-keep_recent now ttl key b ((name, old) ∷ rest) found recent =
      elim (Bool-cases (eq name key)) [
        | inl same ↦
            let is_old : old ≡ b = (let at : some old ≡ some b = rw same at found in cc) in
            let kept : int_leb (elapsed now old.last_seen) ttl ≡ true = rw is_old recent in
            rw (kept, same, is_old)
        | inr apart ↦
            let later : lookup_bucket key (keep_recent now ttl rest) ≡ some b =
              lookup_bucket-keep_recent now ttl key b rest (rw apart at found) recent in
            elim (Bool-cases (int_leb (elapsed now old.last_seen) ttl)) [
              | inl old_recent ↦ rw (old_recent, apart, later)
              | inr old_idle ↦ rw (old_idle, later)
            ]
      ]

  module _ (P : Bucket F → Type 0) where
    pub store_bucket-All :
        (key : Text) (b : Bucket F) (buckets : Buckets F)
        → P b
        → All (λ (e : Text × Bucket F). P e.1) buckets
        → All (λ (e : Text × Bucket F). P e.1) (store_bucket key b buckets)
    unfolding store_bucket
    store_bucket-All key b [] holds all = (holds, tt)
    store_bucket-All key b ((name, old) ∷ rest) holds (first, all) =
        elim (Bool-cases (eq name key)) [
          | inl same ↦ rw same (holds, all)
          | inr apart ↦ rw apart (first, store_bucket-All key b rest holds all)
        ]

    pub keep_recent-All :
        (now : ℕ) (ttl : ℤ) (buckets : Buckets F)
        → All (λ (e : Text × Bucket F). P e.1) buckets
        → All (λ (e : Text × Bucket F). P e.1) (keep_recent now ttl buckets)
    unfolding keep_recent
    keep_recent-All now ttl [] all = tt
    keep_recent-All now ttl ((name, b) ∷ rest) (first, all) =
        elim (Bool-cases (int_leb (elapsed now b.last_seen) ttl)) [
          | inl recent ↦ rw recent (first, keep_recent-All now ttl rest all)
          | inr idle ↦ rw idle (keep_recent-All now ttl rest all)
        ]

    pub lookup_bucket-All :
        (key : Text) (b : Bucket F) (buckets : Buckets F)
        → All (λ (e : Text × Bucket F). P e.1) buckets
        → lookup_bucket key buckets ≡ some b
        → P b
    unfolding lookup_bucket
    lookup_bucket-All key b [] all found = absurd cc
    lookup_bucket-All key b ((name, old) ∷ rest) (first, all) found =
        elim (Bool-cases (eq name key)) [
          | inl same ↦
              (let at : some old ≡ some b = rw same at found in
                let is_old : old ≡ b = cc in subst P is_old first)
          | inr apart ↦ lookup_bucket-All key b rest all (rw apart at found)
        ]
