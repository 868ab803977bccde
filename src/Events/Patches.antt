-- ===== src/Events/Patches.antt =====
-- `hci_unsol_handle_patch_request`: the device asks for one of three patches.
use arduino_spider_l3s_libra.Base.{
  ℕ, ◌==◌, List, [], none, some, length, if◌then◌else◌, Result, ok, ◌>>=◌,
}
use arduino_spider_l3s_libra.Stream.{stream_to_uint8}
use arduino_spider_l3s_libra.Hci.{hci_patch_send}
use arduino_spider_l3s_libra.Driver.{Driver, PatchSource}

-- The patch that a callback gives, or an empty one. The length that it reports is the patch's own.
unfoldable pub send_patch : ℕ → PatchSource → Driver → Result Driver
send_patch request source d =
    hci_patch_send request (patch source) (length (patch source)) d.port >>= λ p.
    ok (record d { port = p })
  where
    patch : PatchSource → List ℕ
    patch none = []
    patch (some none) = []
    patch (some (some bytes)) = bytes

unfoldable pub hci_unsol_handle_patch_request : List ℕ → Driver → Result Driver
hci_unsol_handle_patch_request event d = do
  request ← stream_to_uint8 event 5
  if request == 1
      then send_patch 1 d.driver_patches d
      else if request == 2
      then send_patch 2 d.fw_patches d
      else if request == 3
      then send_patch 3 d.boot_loader_patches d
      else ok d
