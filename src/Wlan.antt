-- ===== src/Wlan.antt =====
-- wlan.c: the calls that send one command and wait for its reply, as they are built without
-- CC3000_TINY_DRIVER unless their names say otherwise. `SpiReceiveHandler` is in Events.Unsolicited.
pub mod Profile
pub mod Lengths
pub mod Start
pub mod SmartConfig
pub mod Keys
pub mod Passphrase
pub mod Tiny
mod Tests
use arduino_spider_l3s_libra.Base.{
  ℕ, ◌+◌, ◌-◌, ◌==◌, ◌&&◌, not, List, [], ◌∷◌, ◌++◌, Option, none, some, if◌then◌else◌, Result, ok,
  ◌>>=◌, u32, bit_and, bit_or, is_nonneg32,
}
use arduino_spider_l3s_libra.Stream.{
  Cursor, load_bytes, store_bytes, array_to_stream, uint16_to_stream, stream_to_uint32,
}
use arduino_spider_l3s_libra.Stream.Memory.{le32}
use arduino_spider_l3s_libra.Driver.Opcode
use arduino_spider_l3s_libra.Socket.{Host, efail, with_errno, uint32s_to_stream, command}
use arduino_spider_l3s_libra.Socket.Transfer.{copied}

-- A command whose reply is the INT32 `ret`, which starts as `local`.
unfoldable pub number_command : ℕ → ℕ → (Cursor → Result Cursor) → List ℕ → Host → Result (ℕ × Host)
number_command opcode len write_args local h = do
  r ← command opcode len opcode write_args local h
  ret ← stream_to_uint32 r.0 0
  ok (ret, r.1)

abbrev pub bssid_zero : List ℕ
bssid_zero = 0 ∷ 0 ∷ 0 ∷ 0 ∷ 0 ∷ 0 ∷ []

-- The six bytes at `bssid`, or of `bssid_zero` when it is a null pointer.
unfoldable pub bssid_to_stream : Option (List ℕ) → Cursor → Result Cursor
bssid_to_stream none c = array_to_stream c bssid_zero
bssid_to_stream (some bssid) c = load_bytes bssid 0 6 >>= λ bytes. array_to_stream c bytes

-- `ARRAY_TO_STREAM(args, p, n)` of an INT32 length.
unfoldable pub bytes_to_stream : List ℕ → ℕ → Cursor → Result Cursor
bytes_to_stream p n c = load_bytes p 0 (copied n) >>= λ bytes. array_to_stream c bytes

-- `if (key_len && key)`
unfoldable pub key_to_stream : Option (List ℕ) → ℕ → Cursor → Result Cursor
key_to_stream none key_len c = ok c
key_to_stream (some key) key_len c = bytes_to_stream key key_len c

unfoldable pub wlan_connect :
    ℕ → List ℕ → ℕ → Option (List ℕ) → Option (List ℕ) → ℕ → Host → Result (ℕ × Host)
wlan_connect sec_type ssid ssid_len bssid key key_len h =
    number_command Opcode.cmnd_wlan_connect (u32 (29 + ssid_len + key_len - 1))
      (λ c.
        uint32s_to_stream c (0x1c ∷ ssid_len ∷ sec_type ∷ u32 (0x10 + ssid_len) ∷ key_len ∷ [])
        >>= λ c1. uint16_to_stream c1 0 >>= λ c2. bssid_to_stream bssid c2 >>= λ c3.
            bytes_to_stream ssid ssid_len c3 >>= λ c4. key_to_stream key key_len c4)
      (le32 efail) h
    >>= λ r. ok (r.0, with_errno r.0 r.1)

-- `wlan_connect` of builds with CC3000_TINY_DRIVER, which knows open networks only.
unfoldable pub wlan_connect_tiny : List ℕ → ℕ → Host → Result (ℕ × Host)
wlan_connect_tiny ssid ssid_len h =
    number_command Opcode.cmnd_wlan_connect (u32 (29 + ssid_len - 1))
      (λ c. uint32s_to_stream c (0x1c ∷ ssid_len ∷ 0 ∷ u32 (0x10 + ssid_len) ∷ 0 ∷ []) >>= λ c1.
        uint16_to_stream c1 0 >>= λ c2.
        array_to_stream c2 (0 ∷ 0 ∷ 0 ∷ 0 ∷ 0 ∷ 0 ∷ []) >>= λ c3. bytes_to_stream ssid ssid_len c3)
      (le32 efail) h
    >>= λ r. ok (r.0, with_errno r.0 r.1)

unfoldable pub wlan_disconnect : Host → Result (ℕ × Host)
wlan_disconnect h = number_command Opcode.cmnd_wlan_disconnect 0 (λ c. ok c) (le32 efail) h >>= λ r.
    ok (r.0, with_errno r.0 r.1)

unfoldable pub wlan_ioctl_set_connection_policy : ℕ → ℕ → ℕ → Host → Result (ℕ × Host)
wlan_ioctl_set_connection_policy should_connect_to_open_ap should_use_fast_connect use_profiles h =
    number_command Opcode.cmnd_wlan_set_connection_policy 12
      (λ c.
        uint32s_to_stream c
          (should_connect_to_open_ap ∷ should_use_fast_connect ∷ use_profiles ∷ []))
      (le32 efail) h

unfoldable pub wlan_ioctl_del_profile : ℕ → Host → Result (ℕ × Host)
wlan_ioctl_del_profile index h =
    number_command Opcode.cmnd_wlan_del_profile 4 (λ c. uint32s_to_stream c (index ∷ []))
      (le32 efail) h

-- `results` is the memory at `ucResults`; the call itself returns 0.
unfoldable pub wlan_ioctl_get_scan_results : ℕ → List ℕ → Host → Result (List ℕ × Host)
wlan_ioctl_get_scan_results scan_timeout results h =
    command Opcode.cmnd_wlan_get_scan_results 4 Opcode.cmnd_wlan_get_scan_results
      (λ c. uint32s_to_stream c (scan_timeout ∷ [])) results h

pub record ScanParams : Type 0 where
  pub enable : ℕ
  pub min_dwell_time : ℕ
  pub max_dwell_time : ℕ
  pub num_of_probe_requests : ℕ
  pub channel_mask : ℕ
  pub rssi_threshold : ℕ
  pub snr_threshold : ℕ
  pub default_tx_power : ℕ
  -- The 64 bytes of the sixteen intervals.
  pub interval_list : List ℕ

unfoldable pub wlan_ioctl_set_scan_params : ScanParams → List ℕ → Host → Result (ℕ × Host)
wlan_ioctl_set_scan_params p local h =
    number_command Opcode.cmnd_wlan_set_scanparam 100
      (λ c.
        uint32s_to_stream c (
          36 ∷ p.enable ∷ p.min_dwell_time ∷ p.max_dwell_time ∷ p.num_of_probe_requests
          ∷ p.channel_mask ∷ p.rssi_threshold ∷ p.snr_threshold ∷ p.default_tx_power ∷ [])
        >>= λ c1. bytes_to_stream p.interval_list 64 c1)
      local h

-- The mask that is sent, or `none` when there is nothing to send; `~` has 32 bits.
unfoldable pub device_mask : ℕ → Option ℕ
device_mask mask =
    if bit_and mask Opcode.evnt_wlan_tx_complete == Opcode.evnt_wlan_tx_complete
    then (if mask == Opcode.evnt_wlan_tx_complete
        then none
        else some (
            bit_or (bit_and mask (0xffffffff - Opcode.evnt_wlan_tx_complete))
              Opcode.evnt_wlan_unsol_base))
    else some mask

abbrev pub inform : ℕ → ℕ
inform mask =
    if bit_and mask Opcode.evnt_wlan_tx_complete == Opcode.evnt_wlan_tx_complete then 0 else 1

abbrev pub with_inform : ℕ → Host → Host
with_inform v h = record h { driver = record h.driver { inform_host_on_tx_complete = v } }

unfoldable pub wlan_set_event_mask : ℕ → Host → Result (ℕ × Host)
wlan_set_event_mask mask h = elim (device_mask mask) [
  | none ↦ ok (0, with_inform (inform mask) h)
  | some m ↦
      number_command Opcode.cmnd_event_mask 4 (λ c. uint32s_to_stream c (m ∷ [])) (le32 efail)
        (with_inform (inform mask) h)
]

unfoldable pub wlan_ioctl_statusget : Host → Result (ℕ × Host)
wlan_ioctl_statusget h = number_command Opcode.cmnd_wlan_statusget 0 (λ c. ok c) (le32 efail) h

unfoldable pub wlan_smart_config_start : ℕ → Host → Result (ℕ × Host)
wlan_smart_config_start algo_encrypted_flag h =
    number_command Opcode.cmnd_wlan_simple_config_start 4
      (λ c. uint32s_to_stream c (algo_encrypted_flag ∷ [])) (le32 efail) h

unfoldable pub wlan_smart_config_stop : Host → Result (ℕ × Host)
wlan_smart_config_stop h =
    number_command Opcode.cmnd_wlan_simple_config_stop 0 (λ c. ok c) (le32 efail) h

-- The caller's memory at `cNewPrefix`, unless that is null, becomes "TTT" first.
unfoldable pub wlan_smart_config_set_prefix :
    Option (List ℕ) → Host → Result (ℕ × Option (List ℕ) × Host)
wlan_smart_config_set_prefix none h = ok (efail, none, h)
wlan_smart_config_set_prefix (some new_prefix) h = do
  p ← store_bytes new_prefix 0 (84 ∷ 84 ∷ 84 ∷ [])
  r ←
      number_command Opcode.cmnd_wlan_simple_config_set_prefix 3 (bytes_to_stream p 3) (le32 efail)
        h
  ok (r.0, some p, r.1)
