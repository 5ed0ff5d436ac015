-- ===== src/Protocol.antt =====
-- packages/protocol: the negotiation of a protocol version and of capabilities. A Set, a map in the
-- source, is the list of its keys.
pub mod Sets
pub mod Negotiation
pub mod Tests
use headnet.Base.{Bool, true, false, ◌&&◌, ◌||◌, not, List, [], ◌∷◌, ltb, length, if◌then◌else◌}
use headnet.Base.Int.{ℤ, pos, negsuc, int_leb, int_min, int_max}
use headnet.Text.{Text, codes, eq, trim_space, text_leb, decimal}
use headnet.Base.Sorting.{sort_by}
use headnet.Base.{suc, ◌++◌}
use headnet.Platform.{Platform, lower}

abbrev pub Capability : Type 0
Capability = Text

abbrev pub Set : Type 0
Set = List Capability

-- Set.Has
unfoldable pub has : Set → Capability → Bool
has [] c = false
has (x ∷ xs) c = eq x c || has xs c

-- s[c] = struct{}{}
unfoldable pub put : Set → Capability → Set
unfolding has
put s c = if has s c then s else c ∷ s

-- The loop of NewSet, with the set so far.
unfoldable pub collect : List Capability → Set → Set
unfolding put
collect [] s = s
collect (c ∷ caps) s = if eq c [] then collect caps s else collect caps (put s c)

-- NewSet
unfoldable pub new_set : List Capability → Set
unfolding collect
new_set caps = collect caps []

-- The loop of ParseCapabilities, with the set so far.
unfoldable pub collect_names : Platform → List Text → Set → Set
unfolding put
collect_names p [] s = s
collect_names p (v ∷ values) s =
    let name = lower p (trim_space v) in
    if eq name [] then collect_names p values s else collect_names p values (put s name)

-- ParseCapabilities
unfoldable pub parse_capabilities : Platform → List Text → Set
unfolding collect_names
parse_capabilities p values = collect_names p values []

-- The loop of Set.Intersect.
unfoldable pub keep_common : Set → Set → Set
unfolding has
keep_common [] large = []
keep_common (c ∷ small) large =
    let rest = keep_common small large in if has large c then c ∷ rest else rest

-- Set.Intersect
unfoldable pub intersect : Set → Set → Set
unfolding keep_common
intersect s other =
    if ltb (length other) (length s) then keep_common other s else keep_common s other

pub record Range : Type 0 where
  pub version : ℤ
  pub min_version : ℤ

-- Range.Valid
unfoldable pub valid : Range → Bool
valid r = int_leb (pos 1) r.min_version && int_leb r.min_version r.version

pub data NegotiationError : Type 0 where
  invalid_local invalid_peer : NegotiationError
  -- IncompatibleError
  incompatible : Range → Range → Bool → NegotiationError

pub data Outcome : Type 0 where
  agreed : ℤ → Set → Outcome
  refused : NegotiationError → Outcome

-- Negotiate
unfoldable pub negotiate : Range → Range → Set → Set → Outcome
unfolding valid intersect
negotiate local remote local_caps remote_caps =
    if not (valid local)
    then refused invalid_local
    else if not (valid remote)
    then refused invalid_peer
    else let high = int_min local.version remote.version in
      let low = int_max local.min_version remote.min_version in
      if not (int_leb low high)
      then refused (incompatible local remote (not (int_leb local.min_version remote.version)))
      else agreed high (intersect local_caps remote_caps)

-- Set.Strings, with Set.Sorted
unfoldable pub sorted_names : Set → List Text
unfolding sort_by
sorted_names s = sort_by text_leb s

-- Version
abbrev pub newest_version : ℤ
newest_version = pos 1

-- MinVersion
abbrev pub oldest_version : ℤ
oldest_version = pos 1

-- Local
abbrev pub local_range : Range
local_range = record { version = newest_version; min_version = oldest_version }

-- Supported
abbrev pub supported : List Capability
supported = codes "protocol.negotiation" ∷ []

-- What the verb %d prints.
abbrev pub print_int : ℤ → Text
print_int (pos n) = decimal n
print_int (negsuc n) = b'-' ∷ decimal (suc n)

abbrev pub print_range : Range → Text
print_range r = print_int r.min_version ++ codes ".." ++ print_int r.version

-- The texts of the errors of Negotiate.
unfoldable pub refusal_text : NegotiationError → Range → Range → Text
unfolding decimal
refusal_text invalid_local local remote = codes "invalid local protocol range " ++ print_range local
refusal_text invalid_peer local remote = codes "invalid peer protocol range " ++ print_range remote
refusal_text (incompatible ours theirs true) local remote =
    codes "incompatible protocol version: the peer is too old (local supports "
    ++ print_range ours
    ++ codes ", peer supports "
    ++ print_range theirs
    ++ codes "); upgrade the peer"
refusal_text (incompatible ours theirs false) local remote =
    codes "incompatible protocol version: this build is too old (local supports "
    ++ print_range ours
    ++ codes ", peer supports "
    ++ print_range theirs
    ++ codes "); upgrade this component"
