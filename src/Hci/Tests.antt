-- ===== src/Hci/Tests.antt =====
-- Runs of hci.c on small buffers.
use arduino_spider_l3s_libra.Base.{ℕ, ◌≡◌, refl, List, [], ◌∷◌, ok, arith}
use arduino_spider_l3s_libra.Spi.Frame.{Port, last_byte}
use arduino_spider_l3s_libra.Hci.{hci_command_send, hci_patch_send, patch_portion}
use arduino_spider_l3s_libra.Hci.Frames.{hci_command_send-packet}
use arduino_spider_l3s_libra.Hci.Patch.{hci_patch_send-packet, patch_portion-damaged}

abbrev command_buffer : Port
command_buffer = record {
  tx = 0 ∷ 0 ∷ 0 ∷ 0 ∷ 0 ∷ 0 ∷ 0 ∷ 0 ∷ 0 ∷ 10 ∷ 20 ∷ 30 ∷ 40 ∷ 50 ∷ 60 ∷ 70 ∷ 0xde ∷ [];
  wire = [];
}

hci_command_send-packet_example :
    hci_command_send 0x1001 2 command_buffer
    ≡ ok (record {
      tx = 1 ∷ 0 ∷ 7 ∷ 0 ∷ 0 ∷ 1 ∷ 1 ∷ 0x10 ∷ 2 ∷ 10 ∷ 20 ∷ 30 ∷ 40 ∷ 50 ∷ 60 ∷ 70 ∷ 0xde ∷ [];
      wire = (1 ∷ 0 ∷ 7 ∷ 0 ∷ 0 ∷ 1 ∷ 1 ∷ 0x10 ∷ 2 ∷ 10 ∷ 20 ∷ 30 ∷ []) ∷ [];
    })
unfolding last_byte
hci_command_send-packet_example =
    hci_command_send-packet 0x1001 2 command_buffer (omega arith) (omega arith) (omega arith) refl

hci_patch_send-packet_example :
    hci_patch_send 7 (1 ∷ 2 ∷ 3 ∷ []) 3 command_buffer
    ≡ ok (record {
      tx = 1 ∷ 0 ∷ 9 ∷ 0 ∷ 0 ∷ 3 ∷ 7 ∷ 5 ∷ 0 ∷ 3 ∷ 0 ∷ 1 ∷ 2 ∷ 3 ∷ 60 ∷ 70 ∷ 0xde ∷ [];
      wire = (1 ∷ 0 ∷ 9 ∷ 0 ∷ 0 ∷ 3 ∷ 7 ∷ 5 ∷ 0 ∷ 3 ∷ 0 ∷ 1 ∷ 2 ∷ 3 ∷ []) ∷ [];
    })
unfolding last_byte
hci_patch_send-packet_example =
    hci_patch_send-packet 7 3 (1 ∷ 2 ∷ 3 ∷ []) command_buffer (omega arith) (omega arith)
      (omega arith) (omega arith) refl

-- Of the portion 1, 2, 3, 4 only the 4 is sent.
patch_portion-damaged_example :
    (tx : List ℕ) × (patch_portion (1 ∷ 2 ∷ 3 ∷ 4 ∷ []) 4 command_buffer
      ≡ ok (record {
        tx = tx;
        wire = (1 ∷ 0 ∷ 7 ∷ 0 ∷ 0 ∷ 4 ∷ 30 ∷ 40 ∷ 50 ∷ 60 ∷ 70 ∷ 0xde ∷ []) ∷ [];
      }))
unfolding last_byte
patch_portion-damaged_example =
    patch_portion-damaged 4 (1 ∷ 2 ∷ 3 ∷ 4 ∷ []) command_buffer (omega arith) (omega arith)
      (omega arith) (omega arith) refl
