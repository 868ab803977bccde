-- ===== src/Nvmem/Tests.antt =====
-- Runs of the definitions of Nvmem at concrete inputs.
use arduino_spider_l3s_libra.Base.{ℕ, ◌≡◌, List, [], ◌∷◌}
use arduino_spider_l3s_libra.Driver.Sample.{idle_driver}
use arduino_spider_l3s_libra.Socket.{Host}
use arduino_spider_l3s_libra.Nvmem.{nvmem_write_patch}
use arduino_spider_l3s_libra.Nvmem.Portions.{write_all, split, joined, nvmem_write_patch-write_all}

abbrev host : Host
host = record { driver = idle_driver; incoming = [] }

abbrev patch : List ℕ
patch =
    1 ∷ 2 ∷ 3 ∷ 4 ∷ 5 ∷ 6 ∷ 7 ∷ 8 ∷ 9 ∷ 10 ∷ 11 ∷ 12 ∷ 13 ∷ 14 ∷ 15 ∷ 16 ∷ 17 ∷ 18 ∷ 19 ∷ 20 ∷ 21
    ∷ 22 ∷ 23 ∷ 24 ∷ 25 ∷ 26 ∷ 27 ∷ 28 ∷ 29 ∷ 30 ∷ 31 ∷ 32 ∷ 33 ∷ 34 ∷ []

nvmem_write_patch-write_all_example :
    (nvmem_write_patch 4 34 patch host ≡ write_all 4 (split patch) host)
    × (joined (split patch) ≡ patch)
nvmem_write_patch-write_all_example = nvmem_write_patch-write_all 4 patch host
