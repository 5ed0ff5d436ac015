-- ===== src/Shared/Tests.antt =====
-- Runs of the identifiers.
use headnet.Base.{◌≡◌, refl, false, none, some}
use headnet.Text.{has_char, codes, eq}
use headnet.Shared.{new_id, cut, split_id, has_prefix}
use headnet.Shared.RoundTrip.{split_id-new_id}

program : Unit {0}
unfolding eq new_id cut split_id has_prefix has_char
program = tt

main :
    (split_id (codes "dev_4K_Q") ≡ some (codes "dev", codes "4K_Q"))
    × (split_id (codes "_4K") ≡ none)
    × (has_prefix (codes "dev_4K") (codes "de") ≡ false)
unfolding program
main = (refl, refl, refl)

split_id-new_id_example :
    (split_id (new_id (codes "dev") (codes "4KQ")) ≡ some (codes "dev", codes "4KQ"))
    × (has_prefix (new_id (codes "dev") (codes "4KQ")) (codes "sk") ≡ eq (codes "dev") (codes "sk"))
unfolding program
split_id-new_id_example = split_id-new_id (codes "dev") (codes "4KQ") (codes "sk") refl refl refl
