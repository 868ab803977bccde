-- ===== src/Events/Unsolicited.antt =====
-- `hci_unsol_event_handler`, `hci_unsolicited_event_handler` and `SpiReceiveHandler`. The Boolean that
-- a handler returns is the C functions' 1 or 0. The branches for builds with MDNS_ADVERTISE_HOST,
-- which copy the address to `localIP`, are left out.
pub mod Laws
use arduino_spider_l3s_libra.Base.{
  ℕ, ◌+◌, ◌==◌, ◌&&◌, ◌||◌, not, Bool, true, false, bit_and, List, [], ◌∷◌, ◌++◌, if◌then◌else◌,
  Result, ok, trap, Trap, ◌>>=◌,
}
use arduino_spider_l3s_libra.Stream.{
  stream_to_uint8, stream_to_uint16, stream_to_uint32, load_bytes,
}
use arduino_spider_l3s_libra.Stream.Memory.{le32}
use arduino_spider_l3s_libra.Driver.{Driver, Call}
use arduino_spider_l3s_libra.Driver.Opcode
use arduino_spider_l3s_libra.Driver.Status.{inactive, set_socket_active_status}
use arduino_spider_l3s_libra.Events.FlowControl.{flow_control_handler}

-- ERROR_SOCKET_INACTIVE of error_codes.h, -57, as the pattern of an INT32.
abbrev pub error_socket_inactive : ℕ
error_socket_inactive = 0xffffffc7

-- `if (tSLInformation.sWlanCB) tSLInformation.sWlanCB(event_type, data, length)`
unfoldable pub call_back : ℕ → List ℕ → Driver → Driver
call_back event_type payload d =
    if d.wlan_callback
    then record d {
      calls = d.calls ++ (record { event_type = event_type; payload = payload } ∷ []);
    }
    else d

abbrev pub one_of : ℕ → List ℕ → Bool
one_of x [] = false
one_of x (y ∷ ys) = x == y || one_of x ys

-- `event_type & mask`
abbrev pub has_bit : ℕ → ℕ → Bool
has_bit event_type mask = not (bit_and event_type mask == 0)

-- The address, the mask, the gateway and the two servers, then the status of the event.
unfoldable pub dhcp_event : List ℕ → Driver → Result Driver
dhcp_event event d = do
  addresses ← load_bytes event 5 20
  status ← stream_to_uint8 event 4
  ok (call_back Opcode.evnt_wlan_unsol_dhcp (addresses ++ (status ∷ [])) d)

unfoldable pub ping_event : List ℕ → Driver → Result Driver
ping_event event d = do
  packets_sent ← stream_to_uint32 event 5
  packets_received ← stream_to_uint32 event 9
  min_round_time ← stream_to_uint32 event 13
  max_round_time ← stream_to_uint32 event 17
  avg_round_time ← stream_to_uint32 event 21
  ok (
      call_back Opcode.evnt_wlan_async_ping_report
        (le32 packets_sent
          ++ (le32 packets_received
              ++ (le32 min_round_time ++ (le32 max_round_time ++ le32 avg_round_time))))
        d)

-- The events that come without parameters.
abbrev pub no_argument_events : List ℕ
no_argument_events =
    Opcode.evnt_wlan_keepalive ∷ Opcode.evnt_wlan_unsol_connect ∷ Opcode.evnt_wlan_unsol_disconnect
    ∷ Opcode.evnt_wlan_unsol_init ∷ Opcode.evnt_wlan_async_simple_config_done
    ∷ Opcode.evnt_async_arp_done ∷ Opcode.evnt_async_arp_waiting ∷ []

-- The switch under HCI_EVNT_WLAN_UNSOL_BASE.
unfoldable pub wlan_event : ℕ → List ℕ → Driver → Result (Driver × Bool)
wlan_event event_type event d =
    if one_of event_type no_argument_events
    then ok (call_back event_type [] d, true)
    else if event_type == Opcode.evnt_wlan_unsol_dhcp
    then (dhcp_event event d >>= λ e. ok (e, true))
    else if event_type == Opcode.evnt_wlan_async_ping_report
    then (ping_event event d >>= λ e. ok (e, true))
    else if event_type == Opcode.evnt_bsd_tcp_close_wait
    then (if d.wlan_callback
        then (load_bytes event 5 1 >>= λ socket. ok (call_back event_type socket d, true))
        else ok (d, true))
    else ok (d, false)

-- `update_socket_active_status`, with `resp_params` at the event's parameters.
unfoldable pub update_socket_active_status : List ℕ → Driver → Result Driver
update_socket_active_status event d = do
  sd ← stream_to_uint32 event 5
  status ← stream_to_uint32 event 9
  ok (
      if status == error_socket_inactive
      then record d {
        socket_active_status = set_socket_active_status sd inactive d.socket_active_status;
      }
      else d)

-- The report of a transmission: an inactive socket is noted with the error, any other is a reply.
unfoldable pub transmit_event : List ℕ → Driver → Result (Driver × Bool)
transmit_event event d = do
  status ← stream_to_uint32 event 9
  if status == error_socket_inactive
      then (do
        error ← stream_to_uint8 event 4
        e ← update_socket_active_status event (record d { transmit_data_error = error })
        ok (e, true))
      else ok (d, false)

-- HCI_EVNT_DATA_UNSOL_FREE_BUFF. This call of `sWlanCB` is made without a test for a null pointer.
unfoldable pub free_buffer_event : List ℕ → Driver → Result (Driver × Bool)
free_buffer_event event d = do
  e ← flow_control_handler event d
  if e.number_of_released_packets == e.number_of_sent_packets
        && not (e.inform_host_on_tx_complete == 0)
      then (if e.wlan_callback
          then ok (
            record e {
              calls =
                  e.calls
                  ++ (record { event_type = Opcode.event_can_shut_down; payload = [] } ∷ []);
            },
            true,
          )
          else trap Trap.out_of_bounds)
      else ok (e, true)

-- The events that report a transmission.
abbrev pub transmit_events : List ℕ
transmit_events = Opcode.evnt_send ∷ Opcode.evnt_sendto ∷ Opcode.evnt_write ∷ []

-- `hci_unsol_event_handler`
unfoldable pub hci_unsol_event_handler : List ℕ → Driver → Result (Driver × Bool)
hci_unsol_event_handler event d = do
  event_type ← stream_to_uint16 event 1
  if has_bit event_type Opcode.evnt_unsol_base && event_type == Opcode.evnt_data_unsol_free_buff
      then free_buffer_event event d
      else if has_bit event_type Opcode.evnt_wlan_unsol_base
      then wlan_event event_type event d
      else if one_of event_type transmit_events
      then transmit_event event d
      else ok
          (d, not (event_type == d.rx_event_opcode) && not (event_type == Opcode.evnt_patches_req))

-- `hci_unsolicited_event_handler`
unfoldable pub hci_unsolicited_event_handler : Driver → Result (Driver × Bool)
hci_unsolicited_event_handler d = if d.event_or_data_received == 0 then ok (d, false) else (do
  packet_type ← stream_to_uint8 d.received_data 0
  if packet_type == Opcode.type_evnt
      then (hci_unsol_event_handler d.received_data d >>= λ r. ok (
          if r.1
          then (record r.0 { event_or_data_received = 0; spi_enabled = true }, true)
          else (r.0, false)))
      else ok (d, false))

-- `SpiTriggerRxProcessing` pauses the SPI and hands the packet to `SpiReceiveHandler`.
unfoldable pub spi_receive : List ℕ → Driver → Result Driver
spi_receive packet d =
    hci_unsolicited_event_handler
      (record d { spi_enabled = false; event_or_data_received = 1; received_data = packet })
    >>= λ r. ok r.0
