-- ===== src/Shared.antt =====
-- packages/shared/id.go: identifiers that say what they identify. What the base32 encoding of the
-- random bytes gives is an argument.
pub mod RoundTrip
pub mod Tests
use headnet.Base.{
  ℕ, Bool, true, false, ◌&&◌, ◌||◌, Option, none, some, List, [], ◌∷◌, ◌++◌, ◌==◌, if◌then◌else◌,
}
use headnet.Text.{Text, eq}

-- NewID
unfoldable pub new_id : Text → Text → Text
new_id prefix encoded = if eq prefix [] then encoded else prefix ++ b'_' ∷ encoded

abbrev pub behind : ℕ → Option (Text × Text) → Option (Text × Text)
behind c none = none
behind c (some (before, after)) = some (c ∷ before, after)

-- strings.Cut at a separator of one character; `none` where it is not found.
unfoldable pub cut : ℕ → Text → Option (Text × Text)
cut sep [] = none
cut sep (c ∷ s) = let rest = cut sep s in if c == sep then some ([], s) else behind c rest

abbrev pub both_present : Option (Text × Text) → Option (Text × Text)
both_present none = none
both_present (some (prefix, value)) =
    if eq prefix [] || eq value [] then none else some (prefix, value)

-- SplitID, which returns the identifier itself where this is `none`.
unfoldable pub split_id : Text → Option (Text × Text)
unfolding cut
split_id id = both_present (cut b'_' id)

abbrev pub starts : Text → Option (Text × Text) → Bool
starts prefix none = false
starts prefix (some (got, value)) = eq got prefix

-- HasPrefix
unfoldable pub has_prefix : Text → Text → Bool
has_prefix id prefix = starts prefix (split_id id)
