-- ===== src/Events/Solicited.antt =====
-- The replies that `hci_event_handler` copies to the caller: the switch over the opcode of an event.
-- `ret` is the memory from `pRetParams` on; a reply is written there as the AVR stores it, lowest byte
-- first.
pub mod Laws
use arduino_spider_l3s_libra.Base.{ℕ, ◌+◌, ◌==◌, List, [], ◌∷◌, if◌then◌else◌, Result, ok, ◌>>=◌}
use arduino_spider_l3s_libra.Stream.{
  stream_to_uint8, stream_to_uint16, stream_to_uint32, load_bytes, store, store_bytes,
}
use arduino_spider_l3s_libra.Stream.Memory.{le16, le32}
use arduino_spider_l3s_libra.Driver.{Driver}
use arduino_spider_l3s_libra.Driver.Opcode
use arduino_spider_l3s_libra.Driver.Status.{inactive, set_socket_active_status}
use arduino_spider_l3s_libra.Events.Unsolicited.{one_of, error_socket_inactive}

-- The opcodes whose reply is the status byte of the event.
abbrev pub status_replies : List ℕ
status_replies =
    Opcode.cmnd_wlan_configure_patch ∷ Opcode.netapp_dhcp ∷ Opcode.netapp_ping_send
    ∷ Opcode.netapp_ping_stop ∷ Opcode.netapp_arp_flush ∷ Opcode.netapp_set_debug_level
    ∷ Opcode.netapp_set_timers ∷ Opcode.cmnd_nvmem_read ∷ Opcode.cmnd_nvmem_create_entry
    ∷ Opcode.cmnd_nvmem_write_patch ∷ Opcode.netapp_ping_report ∷ Opcode.cmnd_mdns_advertise ∷ []

-- The opcodes whose reply is one 32-bit number.
abbrev pub number_replies : List ℕ
number_replies =
    Opcode.cmnd_setsockopt ∷ Opcode.cmnd_wlan_connect ∷ Opcode.cmnd_wlan_statusget
    ∷ Opcode.evnt_wlan_add_profile ∷ Opcode.cmnd_wlan_del_profile
    ∷ Opcode.cmnd_wlan_set_connection_policy ∷ Opcode.cmnd_wlan_set_scanparam
    ∷ Opcode.cmnd_wlan_simple_config_start ∷ Opcode.cmnd_wlan_simple_config_stop
    ∷ Opcode.cmnd_wlan_simple_config_set_prefix ∷ Opcode.cmnd_event_mask
    ∷ Opcode.evnt_wlan_disconnect ∷ Opcode.cmnd_socket ∷ Opcode.cmnd_bind ∷ Opcode.cmnd_listen
    ∷ Opcode.cmnd_close_socket ∷ Opcode.cmnd_connect ∷ Opcode.evnt_nvmem_write ∷ []

-- The 32-bit number at `offset` of the parameters, which begin at byte 5, to `ret[position]`.
unfoldable pub reply_uint32 : List ℕ → ℕ → List ℕ → ℕ → Result (List ℕ)
reply_uint32 event offset ret position = do
  value ← stream_to_uint32 event (5 + offset)
  store_bytes ret position (le32 value)

-- HCI_EVNT_RECV and HCI_EVNT_RECVFROM. `pRetParams` has moved by eight bytes when it is read as a
-- `tBsdReadReturnParams` again, so its number of bytes is looked for at byte 12 and its socket at byte 8.
unfoldable pub recv_reply : List ℕ → List ℕ → Driver → Result (List ℕ × Driver)
recv_reply event ret d = do
  r1 ← reply_uint32 event 0 ret 0
  r2 ← reply_uint32 event 4 r1 4
  r3 ← reply_uint32 event 8 r2 8
  number_of_bytes ← stream_to_uint32 r3 12
  sd ← stream_to_uint32 r3 8
  ok (
    r3,
    (if number_of_bytes == error_socket_inactive
        then record d {
          socket_active_status = set_socket_active_status sd inactive d.socket_active_status;
        }
        else d),
  )

-- HCI_CMND_WLAN_IOCTL_GET_SCAN_RESULTS. The two 16-bit fields are stored as 32-bit numbers; what each
-- writes too much is overwritten next.
unfoldable pub scan_reply : List ℕ → List ℕ → Result (List ℕ)
scan_reply event ret = do
  r1 ← reply_uint32 event 0 ret 0
  r2 ← reply_uint32 event 4 r1 4
  valid_to_ssid_len ← stream_to_uint16 event 13
  r3 ← store_bytes r2 8 (le32 valid_to_ssid_len)
  frame_time ← stream_to_uint16 event 15
  r4 ← store_bytes r3 10 (le32 frame_time)
  rest ← load_bytes event 17 38
  store_bytes r4 12 rest

-- The replies that are made of numbers only; `none` of the cases leaves `ret` as it is.
unfoldable pub number_reply : ℕ → List ℕ → List ℕ → Result (List ℕ)
number_reply opcode event ret =
    if one_of opcode status_replies
    then (stream_to_uint8 event 4 >>= λ status. store ret 0 status)
    else if one_of opcode number_replies
    then reply_uint32 event 0 ret 0
    else if opcode == Opcode.cmnd_read_sp_version
    then (do status ← stream_to_uint8 event 4; r ← store ret 0 status; reply_uint32 event 0 r 1)
    else if opcode == Opcode.cmnd_gethostname
    then (reply_uint32 event 0 ret 0 >>= λ r. reply_uint32 event 4 r 4)
    else if opcode == Opcode.cmnd_getmssvalue
    then (stream_to_uint16 event 5 >>= λ mss. store_bytes ret 0 (le16 mss))
    else if opcode == Opcode.cmnd_accept
    then (do
      r1 ← reply_uint32 event 0 ret 0
      r2 ← reply_uint32 event 4 r1 4
      address ← load_bytes event 13 16
      store_bytes r2 8 address)
    else if one_of opcode (Opcode.evnt_send ∷ Opcode.evnt_sendto ∷ [])
    then (reply_uint32 event 0 ret 0 >>= λ r. reply_uint32 event 4 r 4)
    else if opcode == Opcode.cmnd_select
    then (do
      r1 ← reply_uint32 event 0 ret 0
      r2 ← reply_uint32 event 4 r1 4
      r3 ← reply_uint32 event 8 r2 8
      reply_uint32 event 12 r3 12)
    else if opcode == Opcode.cmnd_getsockopt
    then (do
      status ← stream_to_uint8 event 4
      r ← store ret 4 status
      value ← load_bytes event 5 4
      store_bytes r 0 value)
    else if opcode == Opcode.cmnd_wlan_get_scan_results
    then scan_reply event ret
    else if opcode == Opcode.netapp_ipconfig
    then (load_bytes event 5 58 >>= λ config. store_bytes ret 0 config)
    else ok ret

-- The whole switch.
unfoldable pub store_reply : ℕ → List ℕ → List ℕ → Driver → Result (List ℕ × Driver)
store_reply opcode event ret d =
    if opcode == Opcode.cmnd_read_buffer_size
    then (do
      buffers ← stream_to_uint8 event 5
      buffer_length ← stream_to_uint16 event 6
      ok (ret, record d { number_of_free_buffers = buffers; sl_buffer_length = buffer_length }))
    else if one_of opcode (Opcode.cmnd_recv ∷ Opcode.cmnd_recvfrom ∷ [])
    then recv_reply event ret d
    else (number_reply opcode event ret >>= λ r. ok (r, d))
