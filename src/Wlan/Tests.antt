-- ===== src/Wlan/Tests.antt =====
-- Runs of the definitions of Wlan at concrete inputs.
use arduino_spider_l3s_libra.Base.{
  ℕ, ◌-◌, List, [], ◌∷◌, ◌++◌, none, ok, inr, drop, ◌>>=◌, u16, ◌≡◌, refl, arith, IfReturns, IsByte,
}
use arduino_spider_l3s_libra.Stream.{Cursor, load}
use arduino_spider_l3s_libra.Stream.Memory.{splice}
use arduino_spider_l3s_libra.Aes.{Block, IsBlock, aes_encrypt}
use arduino_spider_l3s_libra.Socket.{uint32s_to_stream}
use arduino_spider_l3s_libra.Wlan.Profile.{Profile, profile_args, wlan_add_profile}
use arduino_spider_l3s_libra.Wlan.Lengths.{profile_args-length}
use arduino_spider_l3s_libra.Wlan.SmartConfig.{block_bytes, process_profile}
use arduino_spider_l3s_libra.Socket.{Host}
use arduino_spider_l3s_libra.Driver.Sample.{idle_driver}
use arduino_spider_l3s_libra.Wlan.Passphrase.{key_field, process_profile-aes_encrypt}
use arduino_spider_l3s_libra.Wlan.Start.{zeros}

abbrev home : Profile
home = record {
  sec_type = 2;
  ssid = 104 ∷ 111 ∷ 109 ∷ 101 ∷ [];
  ssid_len = 4;
  bssid = none;
  priority = 1;
  pairwise_cipher_or_tx_key_len = 0x18;
  group_cipher_tx_key_index = 0x1e;
  key_mgmt = 2;
  pf_or_key = 107 ∷ 101 ∷ 121 ∷ [];
  pass_phrase_len = 3;
}

abbrev args_cursor : Cursor
args_cursor = record { buffer = zeros 80; position = 9 }

profile_args-length_example :
    IfReturns
      (λ d. u16 (d.position - 9) ≡ (profile_args home 0).1)
      (uint32s_to_stream args_cursor (2 ∷ []) >>= (profile_args home 0).0)
profile_args-length_example = profile_args-length home 0 args_cursor (omega arith)

abbrev block_of : ℕ → Block
block_of n = record {
  c0 = record { r0 = n; r1 = 1; r2 = 2; r3 = 3 };
  c1 = record { r0 = 4; r1 = 5; r2 = 6; r3 = 7 };
  c2 = record { r0 = 8; r1 = 9; r2 = 10; r3 = 11 };
  c3 = record { r0 = 12; r1 = 13; r2 = 14; r3 = 15 };
}

block_of-IsBlock : (n : ℕ) → IsByte n → IsBlock (block_of n)
block_of-IsBlock n h = omega arith

-- The name has two bytes, the key 20.
abbrev profile_array : List ℕ
profile_array = 2 ∷ 65 ∷ 66 ∷ 20 ∷ 3 ∷ zeros 62

-- A passphrase of 20 bytes, in two blocks with its length.
abbrev passphrase : List ℕ
passphrase =
    1 ∷ 2 ∷ 3 ∷ 4 ∷ 5 ∷ 6 ∷ 7 ∷ 8 ∷ 9 ∷ 10 ∷ 11 ∷ 12 ∷ 13 ∷ 14 ∷ 15 ∷ 16 ∷ 17 ∷ 18 ∷ 19 ∷ 20 ∷ []

abbrev first_block : Block
first_block = record {
  c0 = record { r0 = 20; r1 = 1; r2 = 2; r3 = 3 };
  c1 = record { r0 = 4; r1 = 5; r2 = 6; r3 = 7 };
  c2 = record { r0 = 8; r1 = 9; r2 = 10; r3 = 11 };
  c3 = record { r0 = 12; r1 = 13; r2 = 14; r3 = 15 };
}

abbrev second_block : Block
second_block = record {
  c0 = record { r0 = 16; r1 = 17; r2 = 18; r3 = 19 };
  c1 = record { r0 = 20; r1 = 0; r2 = 0; r3 = 0 };
  c2 = record { r0 = 0; r1 = 0; r2 = 0; r3 = 0 };
  c3 = record { r0 = 0; r1 = 0; r2 = 0; r3 = 0 };
}

abbrev idle_host : Host
idle_host = record { driver = idle_driver; incoming = [] }

process_profile-aes_encrypt_example :
    process_profile
      (block_bytes (block_of 7))
      (splice profile_array 5 (
        block_bytes (aes_encrypt first_block (block_of 7))
        ++ block_bytes (aes_encrypt second_block (block_of 7))))
      0
      []
      idle_host
    ≡ (wlan_add_profile
          (record {
            sec_type = 3;
            ssid = drop 1 (splice profile_array 5 (key_field passphrase));
            ssid_len = 2;
            bssid = none;
            priority = 1;
            pairwise_cipher_or_tx_key_len = 0x18;
            group_cipher_tx_key_index = 0x1e;
            key_mgmt = 2;
            pf_or_key = passphrase ++ zeros 41;
            pass_phrase_len = 20;
          })
          0
          []
          idle_host
        >>= λ r. ok (
          record {
            return_value = r.0;
            key = block_bytes (block_of 7);
            profile_array = splice profile_array 5 (key_field passphrase);
          },
          r.1,
        ))
process_profile-aes_encrypt_example =
    process_profile-aes_encrypt profile_array 2 20 3 passphrase first_block second_block
      (block_of 7) 0 [] idle_host (omega arith) (omega arith) (block_of-IsBlock 7 (omega arith))
      refl (omega arith) (omega arith) (unfold load in refl) (unfold load in refl) (omega arith)
      (unfold load in refl) (inr refl)
