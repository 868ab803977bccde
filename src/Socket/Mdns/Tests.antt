-- ===== src/Socket/Mdns/Tests.antt =====
-- Runs of the mDNS packet.
use arduino_spider_l3s_libra.Base.{
  ℕ, ◌≡◌, refl, List, [], ◌∷◌, ◌++◌, ok, trap, Trap, some, replicate, arith,
}
use arduino_spider_l3s_libra.Base.Text.{codes}
use arduino_spider_l3s_libra.Spi.Frame.{last_byte}
use arduino_spider_l3s_libra.Driver.{Driver}
use arduino_spider_l3s_libra.Driver.Opcode
use arduino_spider_l3s_libra.Driver.Sample.{idle_driver}
use arduino_spider_l3s_libra.Driver.Status.{
  active, get_socket_active_status, set_socket_active_status, status_init,
}
use arduino_spider_l3s_libra.Events.Loop.Laws.{Consumes, number_packet}
use arduino_spider_l3s_libra.Socket.{Host}
use arduino_spider_l3s_libra.Socket.Commands.{socket}
use arduino_spider_l3s_libra.Socket.Commands.Laws.{awaiting, answered, le32s, socket-reply}
use arduino_spider_l3s_libra.Socket.Transfer.{
  flow_round, consume_loop, host_flow_control_consume_buff,
}
use arduino_spider_l3s_libra.Socket.Mdns.{mdns_response, mdns_advertiser_host}
use arduino_spider_l3s_libra.Socket.Mdns.Laws.{mdns_response-encode_message}
use arduino_spider_l3s_libra.Socket.Mdns.Message.{encode_message, service_answers}
use arduino_spider_l3s_libra.Socket.Mdns.Overflow.{
  mdns_response-out_of_bounds, mdns_advertiser_host-out_of_bounds,
}

mdns_response-encode_message_example :
    mdns_response (codes "spider") (10 ∷ 0 ∷ 168 ∷ 192 ∷ [])
    ≡ ok (
      encode_message (service_answers (codes "spider") (192 ∷ 168 ∷ 0 ∷ 10 ∷ [])) ++ replicate 31 0,
      189,
    )
mdns_response-encode_message_example =
    mdns_response-encode_message (codes "spider") 10 0 168 192 (omega arith)

mdns_response-out_of_bounds_example :
    mdns_response (codes "a_name_of_22_character") (10 ∷ 0 ∷ 168 ∷ 192 ∷ [])
    ≡ trap Trap.out_of_bounds
mdns_response-out_of_bounds_example =
    mdns_response-out_of_bounds (codes "a_name_of_22_character") (10 ∷ 0 ∷ 168 ∷ 192 ∷ [])
      (omega arith)

abbrev answer : List ℕ
answer = number_packet Opcode.cmnd_socket 9 0 3 []

-- A host with one free buffer, before the call, while it waits for the socket, and with the socket.
abbrev start : Host
start = record {
  driver = record idle_driver { number_of_free_buffers = 1 };
  incoming = answer ∷ [];
}

abbrev socket_sent : Driver
socket_sent = awaiting start Opcode.cmnd_socket (le32s (2 ∷ 2 ∷ 17 ∷ []))

abbrev opened : Host
opened = record {
  driver = record (answered socket_sent answer) {
    errno = 3;
    socket_active_status = set_socket_active_status 3 active status_init;
  };
  incoming = [];
}

socket_run : socket 2 2 17 start ≡ ok (3, opened)
unfolding last_byte
socket_run =
    (socket-reply 2 2 17 9 0 3 [] start [] [] socket_sent (refl, refl, omega arith, refl) refl
      Consumes.nothing).0

credit_run :
    host_flow_control_consume_buff 3 opened
    ≡ ok (0, record opened { driver = record opened.driver { number_of_free_buffers = 0 } })
unfolding host_flow_control_consume_buff consume_loop flow_round get_socket_active_status
    set_socket_active_status
credit_run = refl

mdns_advertiser_host-out_of_bounds_example :
    mdns_advertiser_host
      (some (codes "spider"))
      6
      (10 ∷ 0 ∷ 168 ∷ 192 ∷ [])
      (0 ∷ 0 ∷ 0 ∷ 0 ∷ 0 ∷ 0 ∷ 0 ∷ 0 ∷ [])
      []
      start
    ≡ trap Trap.out_of_bounds
mdns_advertiser_host-out_of_bounds_example =
    mdns_advertiser_host-out_of_bounds (codes "spider") 6 10 0 168 192
      (0 ∷ 0 ∷ 0 ∷ 0 ∷ 0 ∷ 0 ∷ 0 ∷ 0 ∷ []) [] 3 start opened
      (record opened { driver = record opened.driver { number_of_free_buffers = 0 } }) (omega arith)
      refl socket_run refl credit_run
