-- ===== src/Wlan/SmartConfig.antt =====
-- `wlan_smart_config_process` of wlan.c: the profile that the device left in its memory is read, its key
-- decrypted with the key of nvmem.c, and the profile added. `profile_array` is the 67 bytes of the global,
-- `key` the 16 of the other one.
use arduino_spider_l3s_libra.Base.{
  ◌||◌, ◌++◌, ℕ, ◌+◌, ◌==◌, ltb, not, List, [], ◌∷◌, none, drop, if◌then◌else◌, Result, ok, ◌>>=◌,
}
use arduino_spider_l3s_libra.Stream.{load, store_bytes}
use arduino_spider_l3s_libra.Aes.{Column, Block, aes_decrypt}
use arduino_spider_l3s_libra.Socket.{Host}
use arduino_spider_l3s_libra.Nvmem.{nvmem_read, aes_read_key}
use arduino_spider_l3s_libra.Wlan.Profile.{sec_unsec, sec_wep, sec_wpa, sec_wpa2, wlan_add_profile}

-- NVMEM_SHARED_MEM_FILEID and SMART_CONFIG_PROFILE_SIZE
abbrev pub shared_mem_fileid : ℕ
shared_mem_fileid = 13

abbrev pub smart_config_profile_size : ℕ
smart_config_profile_size = 67

unfoldable pub load_column : List ℕ → ℕ → Result Column
load_column b i = do
  r0 ← load b i
  r1 ← load b (i + 1)
  r2 ← load b (i + 2)
  r3 ← load b (i + 3)
  ok (record { r0 = r0; r1 = r1; r2 = r2; r3 = r3 })

-- The sixteen bytes at `i`, as the ciphers take them.
unfoldable pub load_block : List ℕ → ℕ → Result Block
load_block b i = do
  c0 ← load_column b i
  c1 ← load_column b (i + 4)
  c2 ← load_column b (i + 8)
  c3 ← load_column b (i + 12)
  ok (record { c0 = c0; c1 = c1; c2 = c2; c3 = c3 })

abbrev pub column_bytes : Column → List ℕ
column_bytes c = c.r0 ∷ c.r1 ∷ c.r2 ∷ c.r3 ∷ []

abbrev pub block_bytes : Block → List ℕ
block_bytes s = column_bytes s.c0 ++ (column_bytes s.c1 ++ (column_bytes s.c2 ++ column_bytes s.c3))

-- `aes_decrypt(b + i, key)`, in place.
unfoldable pub decrypt_at : List ℕ → List ℕ → ℕ → Result (List ℕ)
decrypt_at key b i = do
  k ← load_block key 0
  s ← load_block b i
  store_bytes b i (block_bytes (aes_decrypt s k))

-- Where the key begins in the decrypted profile, and its length.
unfoldable pub key_at : List ℕ → ℕ → Result (ℕ × ℕ)
key_at profile_array i = do
  last ← load profile_array (i + 31)
  first ← load profile_array i
  ok (if not (last == 0) then (if first == 31 then (i + 1, 31) else (i, 32)) else (i + 1, first))

-- The globals and the caller's view of them after a call: the result and both arrays.
pub record Processed : Type 0 where
  pub return_value : ℕ
  pub key : List ℕ
  pub profile_array : List ℕ

-- The switch over the security type; another one leaves `returnValue` 0.
unfoldable pub add_by_type : ℕ → List ℕ → ℕ → List ℕ → ℕ → ℕ → List ℕ → Host → Result (ℕ × Host)
add_by_type sec_type ssid ssid_len dec_key key_len arg_len0 local h =
    if sec_type == sec_unsec
    then wlan_add_profile
        (record {
          sec_type = sec_type;
          ssid = ssid;
          ssid_len = ssid_len;
          bssid = none;
          priority = 1;
          pairwise_cipher_or_tx_key_len = 0;
          group_cipher_tx_key_index = 0;
          key_mgmt = 0;
          pf_or_key = [];
          pass_phrase_len = 0;
        })
        arg_len0 local h
    else if sec_type == sec_wep
    then wlan_add_profile
        (record {
          sec_type = sec_type;
          ssid = ssid;
          ssid_len = ssid_len;
          bssid = none;
          priority = 1;
          pairwise_cipher_or_tx_key_len = key_len;
          group_cipher_tx_key_index = 0;
          key_mgmt = 0;
          pf_or_key = dec_key;
          pass_phrase_len = 0;
        })
        arg_len0 local h
    else if sec_type == sec_wpa || sec_type == sec_wpa2
    then wlan_add_profile
        (record {
          sec_type = sec_wpa2;
          ssid = ssid;
          ssid_len = ssid_len;
          bssid = none;
          priority = 1;
          pairwise_cipher_or_tx_key_len = 0x18;
          group_cipher_tx_key_index = 0x1e;
          key_mgmt = 2;
          pf_or_key = dec_key;
          pass_phrase_len = key_len;
        })
        arg_len0 local h
    else ok (0, h)

-- Both blocks of the key, the second only when the key's length says so.
unfoldable pub decrypt_key : List ℕ → List ℕ → ℕ → Result (List ℕ)
decrypt_key key profile_array ssid_len = do
  p1 ← decrypt_at key profile_array (ssid_len + 3)
  encrypted_len ← load p1 (ssid_len + 1)
  if ltb 16 encrypted_len then decrypt_at key p1 (ssid_len + 19) else ok p1

-- What follows the two reads.
unfoldable pub process_profile : List ℕ → List ℕ → ℕ → List ℕ → Host → Result (Processed × Host)
process_profile key profile_array arg_len0 local h = do
  ssid_len ← load profile_array 0
  p ← decrypt_key key profile_array ssid_len
  (dec_key, key_len) ← key_at p (ssid_len + 3)
  sec_type ← load p (ssid_len + 2)
  r ← add_by_type sec_type (drop 1 p) ssid_len (drop dec_key p) key_len arg_len0 local h
  ok (record { return_value = r.0; key = key; profile_array = p }, r.1)

unfoldable pub wlan_smart_config_process :
    List ℕ → List ℕ → ℕ → List ℕ → Host → Result (Processed × Host)
wlan_smart_config_process key profile_array arg_len0 local h = do
  k ← aes_read_key key h
  if not (k.0 == 0)
      then ok (record { return_value = k.0; key = k.1; profile_array = profile_array }, k.2)
      else (do
        p ← nvmem_read shared_mem_fileid smart_config_profile_size 0 profile_array k.2
        if not (p.0 == 0)
            then ok (record { return_value = p.0; key = k.1; profile_array = p.1 }, p.2)
            else process_profile k.1 p.1 arg_len0 local p.2)
