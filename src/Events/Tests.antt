-- ===== src/Events/Tests.antt =====
-- Runs of the event handlers.
use arduino_spider_l3s_libra.Base.{
  trap, Trap, ℕ, ◌≡◌, refl, List, [], ◌∷◌, ◌++◌, none, true, inl, ok, arith,
}
use arduino_spider_l3s_libra.Stream.{stream_to_uint8, stream_to_uint16, load}
use arduino_spider_l3s_libra.Driver.{Driver}
use arduino_spider_l3s_libra.Driver.Opcode
use arduino_spider_l3s_libra.Driver.Sample.{idle_driver}
use arduino_spider_l3s_libra.Driver.Status.{status_init, set_socket_active_status, inactive}
use arduino_spider_l3s_libra.Events.FlowControl.Laws.{Handle}
use arduino_spider_l3s_libra.Events.Unsolicited.{
  error_socket_inactive, call_back, wlan_event, hci_unsol_event_handler,
  hci_unsolicited_event_handler, spi_receive,
}
use arduino_spider_l3s_libra.Events.Unsolicited.Laws.{
  Received, transmit_packet, spi_receive-Received, hci_unsol_event_handler-inactive,
}
use arduino_spider_l3s_libra.Events.Solicited.{store_reply}
use arduino_spider_l3s_libra.Events.Solicited.Laws.{recv_packet, store_reply-recv_packet}
use arduino_spider_l3s_libra.Events.Loop.{simple_link_wait_event}
use arduino_spider_l3s_libra.Events.Loop.Laws.{
  Consumes, number_packet, simple_link_wait_event-number_packet,
}

abbrev handles : List Handle
handles =
    record { socket = 0; block_mode = 0; free_buffers = 2 }
    ∷ record { socket = 1; block_mode = 0; free_buffers = 3 }
    ∷ []

-- HCI_EVNT_WLAN_KEEPALIVE
abbrev keepalive : List ℕ
keepalive = 0x04 ∷ 0x00 ∷ 0x82 ∷ 0 ∷ 0 ∷ []

abbrev kept_alive : Driver → Driver
kept_alive d = record d {
  received_data = keepalive;
  event_or_data_received = 0;
  spi_enabled = true;
  calls = d.calls ++ (record { event_type = 0x8200; payload = [] } ∷ []);
}

keepalive_run : (d : Driver) → d.wlan_callback ≡ true → spi_receive keepalive d ≡ ok (kept_alive d)
unfolding spi_receive hci_unsolicited_event_handler hci_unsol_event_handler wlan_event call_back
    stream_to_uint8 stream_to_uint16 load
keepalive_run d e = rw e refl

spi_receive-Received_example : Received keepalive idle_driver (kept_alive idle_driver)
spi_receive-Received_example =
    spi_receive-Received keepalive idle_driver (kept_alive idle_driver)
      (keepalive_run idle_driver refl)

hci_unsol_event_handler-inactive_example :
    hci_unsol_event_handler (transmit_packet 0x1003 10 57 2 error_socket_inactive []) idle_driver
    ≡ ok (
      record idle_driver {
        transmit_data_error = 57;
        socket_active_status = set_socket_active_status 2 inactive status_init;
      },
      true,
    )
hci_unsol_event_handler-inactive_example =
    hci_unsol_event_handler-inactive 0x1003 10 57 2 [] idle_driver (inl refl)

abbrev waiting_driver : Driver
waiting_driver = record idle_driver { rx_event_opcode = Opcode.cmnd_bind }

simple_link_wait_event-number_packet_example :
    simple_link_wait_event Opcode.cmnd_bind
      (keepalive ∷ number_packet Opcode.cmnd_bind 9 0 0x01020304 [] ∷ [])
      (9 ∷ 9 ∷ 9 ∷ 9 ∷ [])
      idle_driver
    ≡ ok (
      record { ret = 4 ∷ 3 ∷ 2 ∷ 1 ∷ []; from = none },
      record (kept_alive waiting_driver) {
        rx_event_opcode = 0;
        received_data = number_packet Opcode.cmnd_bind 9 0 0x01020304 [];
      },
      [],
    )
simple_link_wait_event-number_packet_example =
    simple_link_wait_event-number_packet Opcode.cmnd_bind 9 0 0x01020304 [] (9 ∷ 9 ∷ 9 ∷ 9 ∷ [])
      (keepalive ∷ []) [] idle_driver (kept_alive waiting_driver) refl refl refl (omega arith)
      (Consumes.packet (keepalive_run waiting_driver refl) refl Consumes.nothing)

store_reply-recv_packet_example :
    store_reply Opcode.cmnd_recv
      (recv_packet 17 0 1 100 0 [])
      (0 ∷ 0 ∷ 0 ∷ 0 ∷ 0 ∷ 0 ∷ 0 ∷ 0 ∷ 0 ∷ 0 ∷ 0 ∷ 0 ∷ [])
      idle_driver
    ≡ trap Trap.out_of_bounds
store_reply-recv_packet_example =
    store_reply-recv_packet 17 0 1 100 0 [] (0 ∷ 0 ∷ 0 ∷ 0 ∷ 0 ∷ 0 ∷ 0 ∷ 0 ∷ 0 ∷ 0 ∷ 0 ∷ 0 ∷ [])
      idle_driver refl
