-- ===== src/Protocol/Sets.antt =====
-- What the operations on capability sets do to membership.
use headnet.Base.{◌≡◌, refl, true, ◌&&◌, ◌||◌, not, List, [], ◌∷◌, arith, Bool-cases, inl, inr}
use headnet.Text.{eq, eq→≡, eq_refl}
use headnet.Protocol.{Set, Capability, has, put, collect, new_set, keep_common, intersect}

has-eq : (s : Set) (c d : Capability) → eq c d ≡ true → has s c ≡ has s d
has-eq s c d e = rw (eq→≡ c d e)

has-keep_common :
    (small large : Set) (c : Capability)
    → has (keep_common small large) c ≡ has small c && has large c
unfolding has keep_common
has-keep_common [] large c = refl
has-keep_common (x ∷ small) large c = elim (Bool-cases (eq x c)) [
  | inl same ↦ ground (arith, has-eq large x c same, has-keep_common small large c)
  | inr apart ↦ ground (arith, has-keep_common small large c)
]

-- A capability is in the intersection exactly when it is in both sets, whichever is the smaller.
pub has-intersect :
    (s other : Set) (c : Capability) → has (intersect s other) c ≡ has s c && has other c
unfolding intersect
has-intersect s other c = ground (arith, has-keep_common other s c, has-keep_common s other c)

has-put : (s : Set) (x c : Capability) → has (put s x) c ≡ has s c || eq x c
unfolding has put
has-put s x c = elim (Bool-cases (eq x c)) [
  | inl same ↦ ground (arith, has-eq s x c same)
  | inr apart ↦ ground arith
]

has-collect :
    (caps : List Capability) (s : Set) (c : Capability)
    → has (collect caps s) c ≡ has s c || (has caps c && not (eq c []))
unfolding has collect
has-collect [] s c = ground arith
has-collect (x ∷ caps) s c = elim (Bool-cases (eq x c)) [
  | inl same ↦
      rw (eq→≡ x c same) (
        ground
          (arith, has-collect caps s c, has-collect caps (put s c) c, has-put s c c, eq_refl c))
  | inr apart ↦ ground (arith, has-collect caps s c, has-collect caps (put s x) c, has-put s x c)
]

-- NewSet has exactly the capabilities of the list that are not empty.
has-new_set :
    (caps : List Capability) (c : Capability) → has (new_set caps) c ≡ has caps c && not (eq c [])
unfolding has new_set
has-new_set caps c = has-collect caps [] c
