-- ===== src/Shared/RoundTrip.antt =====
-- An identifier splits into what it was made of.
use headnet.Base.{ℕ, ◌≡◌, false, some, [], ◌∷◌, ◌++◌, ◌==◌, arith, ==_refl}
use headnet.Text.{Text, has_char, eq}
use headnet.Shared.{new_id, cut, split_id, has_prefix}

cut-append :
    (sep : ℕ) (before after : Text)
    → has_char sep before ≡ false
    → cut sep (before ++ sep ∷ after) ≡ some (before, after)
unfolding cut has_char
cut-append sep [] after h = rw (==_refl sep)
cut-append sep (c ∷ before) after h =
    let apart : (c == sep) ≡ false = ground arith in
    let rest : has_char sep before ≡ false = ground arith in
    rw (apart, cut-append sep before after rest)

module _ (prefix encoded : Text) where
  -- For a prefix that is not empty and has no underscore, and an encoding that is not empty,
  -- SplitID takes the identifier that NewID makes apart into the two, and HasPrefix finds exactly
  -- that prefix.
  pub split_id-new_id :
      (other : Text)
      → eq prefix [] ≡ false
      → has_char b'_' prefix ≡ false
      → eq encoded [] ≡ false
      → (split_id (new_id prefix encoded) ≡ some (prefix, encoded))
        × (has_prefix (new_id prefix encoded) other ≡ eq prefix other)
  unfolding split_id new_id has_prefix
  split_id-new_id other named plain present =
      let halves = cut-append b'_' prefix encoded plain in
      (rw (named, halves, named, present), rw (named, halves, named, present))
