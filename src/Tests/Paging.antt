-- ===== src/Tests/Paging.antt =====
-- The paging structures of a domain that maps two pages of a device.
use sel4cp.Prelude.{◌≡◌, refl, [], ◌∷◌, ok, All}
use sel4cp.Words.{mask_bits}
use sel4cp.Builder.Paging.{page_vaddrs, find_region, parts, Structures, structures}
use sel4cp.Builder.Paging.Covered.{Rises, IsCovered, structures-PartsOf}
use sel4cp.Tests.Description.{uart, parent}

abbrev found : Structures
found = record { uds = 0 ∷ []; ds = 0 ∷ []; pts = 0x2000000 ∷ [] }

structures_run : structures uart parent.maps ≡ ok found
unfolding structures page_vaddrs find_region parts mask_bits
structures_run = refl

structures-PartsOf_example :
    All (IsCovered uart found) parent.maps
    × Rises 0 (0 ∷ [])
    × Rises 0 (0 ∷ [])
    × Rises 0 (0x2000000 ∷ [])
structures-PartsOf_example = structures-PartsOf uart parent.maps found structures_run
