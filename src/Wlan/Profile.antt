-- ===== src/Wlan/Profile.antt =====
-- `wlan_add_profile` of wlan.c, as it is built without CC3000_TINY_DRIVER.
use arduino_spider_l3s_libra.Base.{
  ◌||◌, ℕ, zero, suc, ◌+◌, ◌*◌, ◌==◌, List, [], ◌∷◌, Option, if◌then◌else◌, Result, ok, ◌>>=◌, u16,
  u32,
}
use arduino_spider_l3s_libra.Stream.{Cursor, load_bytes, array_to_stream, uint16_to_stream}
use arduino_spider_l3s_libra.Driver.Opcode
use arduino_spider_l3s_libra.Socket.{Host, uint32s_to_stream}
use arduino_spider_l3s_libra.Wlan.{bssid_to_stream, number_command}

-- WLAN_SEC_UNSEC, WLAN_SEC_WEP, WLAN_SEC_WPA and WLAN_SEC_WPA2
abbrev pub sec_unsec : ℕ
sec_unsec = 0

abbrev pub sec_wep : ℕ
sec_wep = 1

abbrev pub sec_wpa : ℕ
sec_wpa = 2

abbrev pub sec_wpa2 : ℕ
sec_wpa2 = 3

-- The parameters, with the source's words; `pf_or_key` is the memory at `ucPf_OrKey`.
pub record Profile : Type 0 where
  pub sec_type : ℕ
  pub ssid : List ℕ
  pub ssid_len : ℕ
  pub bssid : Option (List ℕ)
  pub priority : ℕ
  pub pairwise_cipher_or_tx_key_len : ℕ
  pub group_cipher_tx_key_index : ℕ
  pub key_mgmt : ℕ
  pub pf_or_key : List ℕ
  pub pass_phrase_len : ℕ

-- `ARRAY_TO_STREAM(args, p, n)` with `p` at `offset` and an unsigned `n`.
unfoldable pub part_to_stream : List ℕ → ℕ → ℕ → Cursor → Result Cursor
part_to_stream p offset n c = load_bytes p offset n >>= λ bytes. array_to_stream c bytes

-- What the three branches have in common after the security type: a number, the length of the SSID, a
-- UINT16 0, the BSSID, the priority.
unfoldable pub common_args : ℕ → Profile → Cursor → Result Cursor
common_args number p c = do
  c1 ← uint32s_to_stream c (number ∷ p.ssid_len ∷ [])
  c2 ← uint16_to_stream c1 0
  c3 ← bssid_to_stream p.bssid c2
  uint32s_to_stream c3 (p.priority ∷ [])

-- `for(i = 0; i < 4; i++)`, with `left` keys to go.
unfoldable pub wep_keys : ℕ → ℕ → Profile → Cursor → Result Cursor
wep_keys zero i p c = ok c
wep_keys (suc left) i p c = do
  d ←
      part_to_stream p.pf_or_key (u32 (i * p.pairwise_cipher_or_tx_key_len))
        p.pairwise_cipher_or_tx_key_len c
  wep_keys left (i + 1) p d

unfoldable pub unsec_args : Profile → Cursor → Result Cursor
unsec_args p c = common_args 0x14 p c >>= part_to_stream p.ssid 0 p.ssid_len

unfoldable pub wep_args : Profile → Cursor → Result Cursor
wep_args p c = do
  c1 ← common_args 0x20 p c
  c2 ←
      uint32s_to_stream c1 (
        u32 (0xc + p.ssid_len) ∷ p.pairwise_cipher_or_tx_key_len ∷ p.group_cipher_tx_key_index ∷ [])
  c3 ← part_to_stream p.ssid 0 p.ssid_len c2
  wep_keys 4 0 p c3

unfoldable pub wpa_args : Profile → Cursor → Result Cursor
wpa_args p c = do
  c1 ← common_args 0x28 p c
  c2 ← uint32s_to_stream c1 (
      p.pairwise_cipher_or_tx_key_len
      ∷ p.group_cipher_tx_key_index
      ∷ p.key_mgmt
      ∷ u32 (8 + p.ssid_len)
      ∷ p.pass_phrase_len
      ∷ [])
  c3 ← part_to_stream p.ssid 0 p.ssid_len c2
  part_to_stream p.pf_or_key 0 p.pass_phrase_len c3

-- The arguments behind the security type and `arg_len`, a UINT16. For another security type nothing sets
-- `arg_len`, which stays `arg_len0`, and nothing is written.
unfoldable pub profile_args : Profile → ℕ → (Cursor → Result Cursor) × ℕ
profile_args p arg_len0 =
    if p.sec_type == sec_unsec
    then (unsec_args p, u16 (24 + p.ssid_len))
    else if p.sec_type == sec_wep
    then (wep_args p, u16 (36 + p.ssid_len + p.pairwise_cipher_or_tx_key_len * 4))
    else if p.sec_type == sec_wpa || p.sec_type == sec_wpa2
    then (wpa_args p, u16 (44 + p.ssid_len + p.pass_phrase_len))
    else (λ c. ok c, arg_len0)

unfoldable pub wlan_add_profile : Profile → ℕ → List ℕ → Host → Result (ℕ × Host)
wlan_add_profile p arg_len0 local h =
    let args = profile_args p arg_len0 in
    number_command Opcode.cmnd_wlan_add_profile args.1
      (λ c. uint32s_to_stream c (p.sec_type ∷ []) >>= args.0) local h
