-- ===== src/Tests/Volume.antt =====
-- The volume table at small inputs.
use frommel.Base.{◌≡◌, refl, none, some, codes, List, [], ◌∷◌}
use frommel.Volume.{Volume, add_volume, find_volume}
use frommel.Tests.Data.{sys, volumes}

not_there : find_volume volumes (codes "DATA") ≡ none
unfolding find_volume
not_there = refl

added_at_one : (add_volume volumes (codes "DATA") (codes "/data") 0).0 ≡ some 1
unfolding add_volume
added_at_one = refl

sys_found : find_volume volumes (codes "SYS") ≡ some 0
unfolding find_volume
sys_found = refl

abbrev full : List Volume
full = sys ∷ sys ∷ []
