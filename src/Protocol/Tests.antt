-- ===== src/Protocol/Tests.antt =====
-- Runs of the negotiation.
use headnet.Base.{◌≡◌, refl, true, false, [], ◌∷◌, none}
use headnet.Base.Int.{ℤ, pos, negsuc, int_leb}
use headnet.Text.{codes, eq, is_space, trim_left, trim_space}
use headnet.Platform.{Platform}
use headnet.Protocol.{
  Set, has, put, collect, new_set, collect_names, parse_capabilities, keep_common, intersect, Range,
  valid, agreed, refused, incompatible, invalid_peer, negotiate,
}
use headnet.Protocol.Negotiation.{accepts, negotiate-highest, negotiate-symmetric}

program : Unit {0}
unfolding eq is_space trim_left trim_space has put collect new_set collect_names parse_capabilities
    keep_common intersect valid negotiate
program = tt

abbrev plain : Platform
plain = record {
  sha256 = λ t. t;
  decode_base64 = λ t. none;
  decode_raw_url = λ t. none;
  to_lower = λ c. c;
}

abbrev old_build : Range
old_build = record { version = pos 3; min_version = pos 1 }

abbrev new_build : Range
new_build = record { version = pos 5; min_version = pos 2 }

abbrev future_build : Range
future_build = record { version = pos 9; min_version = pos 7 }

abbrev ours : Set
ours = codes "dns" ∷ codes "relay" ∷ []

abbrev theirs : Set
theirs = codes "relay" ∷ codes "acl" ∷ codes "ssh" ∷ []

main :
    (negotiate old_build new_build ours theirs ≡ agreed (pos 3) (codes "relay" ∷ []))
    × (negotiate old_build (record { version = pos 1; min_version = negsuc 0 }) ours theirs
        ≡ refused invalid_peer)
    × (negotiate old_build future_build ours theirs
        ≡ refused (incompatible old_build future_build false))
    × (parse_capabilities plain (codes " relay " ∷ codes " " ∷ codes "relay" ∷ [])
        ≡ codes "relay" ∷ [])
unfolding program
main = (refl, refl, refl, refl)

negotiate-highest_example :
    (v : ℤ) × (negotiate old_build new_build ours theirs ≡ agreed v (intersect ours theirs))
    × (accepts old_build v ≡ true)
    × (accepts new_build v ≡ true)
    × (int_leb (pos 2) v ≡ true)
unfolding program
negotiate-highest_example =
    negotiate-highest old_build new_build ours theirs (pos 2) refl refl refl refl

negotiate-symmetric_example :
    (caps' : Set) × (negotiate new_build old_build theirs ours ≡ agreed (pos 3) caps')
    × (has caps' (codes "relay") ≡ has (codes "relay" ∷ []) (codes "relay"))
unfolding program
negotiate-symmetric_example =
    negotiate-symmetric old_build new_build ours theirs (codes "relay") refl
