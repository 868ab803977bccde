-- ===== src/Socket/Tests.antt =====
-- Runs of the socket calls.
use arduino_spider_l3s_libra.Base.{
  ◌++◌, ℕ, ◌≡◌, refl, inl, List, [], ◌∷◌, ok, ◌>>=◌, trap, Trap, u16, arith, none,
}
use arduino_spider_l3s_libra.Spi.Frame.{last_byte}
use arduino_spider_l3s_libra.Driver.{Driver}
use arduino_spider_l3s_libra.Driver.Opcode
use arduino_spider_l3s_libra.Driver.Sample.{idle_driver}
use arduino_spider_l3s_libra.Driver.Status.{
  active, get_socket_active_status, set_socket_active_status, status_init,
}
use arduino_spider_l3s_libra.Events.FlowControl.Laws.{Handle, free_buffer_packet}
use arduino_spider_l3s_libra.Events.Unsolicited.Laws.{credit}
use arduino_spider_l3s_libra.Events.Loop.Laws.{Consumes, number_packet}
use arduino_spider_l3s_libra.Socket.{Host, extend16, wait_event}
use arduino_spider_l3s_libra.Socket.Commands.{socket, gethostbyname}
use arduino_spider_l3s_libra.Socket.Commands.Laws.{
  awaiting, answered, command_port, le32s, socket-reply, gethostbyname-out_of_bounds,
}
use arduino_spider_l3s_libra.Events.Solicited.Laws.{recv_packet}
use arduino_spider_l3s_libra.Events.Loop.Data.{data_packet}
use arduino_spider_l3s_libra.Socket.Transfer.Recv.{Holds, expecting, recv-data_packet}
use arduino_spider_l3s_libra.Socket.Transfer.Send.{send_port, sent_bytes, send-wait_event}
use arduino_spider_l3s_libra.Socket.Transfer.{
  send, recv, flow_round, consume_loop, host_flow_control_consume_buff, simple_link_send,
}
use arduino_spider_l3s_libra.Socket.Transfer.Laws.{
  Outcome, refilled, simple_link_send-refused, host_flow_control_consume_buff-credit,
  host_flow_control_consume_buff-free_buffer_packet,
}

abbrev host_with : Driver → List (List ℕ) → Host
host_with d packets = record { driver = d; incoming = packets }

abbrev socket_answer : List ℕ
socket_answer = number_packet Opcode.cmnd_socket 9 0 3 []

abbrev socket_sent : Driver
socket_sent =
    awaiting (host_with idle_driver (socket_answer ∷ [])) Opcode.cmnd_socket
      (le32s (2 ∷ 1 ∷ 6 ∷ []))

socket-reply_example :
    (socket 2 1 6 (host_with idle_driver (socket_answer ∷ []))
      ≡ ok (
        3,
        record {
          driver = record (answered socket_sent socket_answer) {
            errno = 3;
            socket_active_status = set_socket_active_status 3 active status_init;
          };
          incoming = [];
        },
      ))
    × (socket_sent.port ≡ command_port idle_driver.port Opcode.cmnd_socket (le32s (2 ∷ 1 ∷ 6 ∷ [])))
unfolding last_byte
socket-reply_example =
    socket-reply 2 1 6 9 0 3 [] (host_with idle_driver (socket_answer ∷ [])) [] [] socket_sent
      (refl, refl, omega arith, refl) refl Consumes.nothing

abbrev zeros12 : List ℕ
zeros12 = 0 ∷ 0 ∷ 0 ∷ 0 ∷ 0 ∷ 0 ∷ 0 ∷ 0 ∷ 0 ∷ 0 ∷ 0 ∷ 0 ∷ []

-- Two bytes, 7 and 8, for socket 3.
abbrev recv_answer : List ℕ
recv_answer = recv_packet 17 0 3 2 0 []

abbrev two_bytes : List ℕ
two_bytes = data_packet 0x85 zeros12 (7 ∷ 8 ∷ []) []

abbrev recv_host : Host
recv_host = host_with idle_driver (recv_answer ∷ two_bytes ∷ [])

abbrev recv_sent : Driver
recv_sent = awaiting recv_host Opcode.cmnd_recv (le32s (3 ∷ 4 ∷ 0 ∷ []))

recv-data_packet_example :
    (recv 3 (1 ∷ 2 ∷ 3 ∷ 4 ∷ []) 4 0 (zeros12 ++ (0 ∷ 0 ∷ 0 ∷ 0 ∷ [])) recv_host
      ≡ ok (
        record { result = 2; buf = 7 ∷ 8 ∷ 3 ∷ 4 ∷ []; from = none },
        record {
          driver = record (answered recv_sent two_bytes) { rx_data_pending = 0; errno = 2 };
          incoming = [];
        },
      ))
    × (recv_sent.port ≡ command_port idle_driver.port Opcode.cmnd_recv (le32s (3 ∷ 4 ∷ 0 ∷ [])))
unfolding last_byte
recv-data_packet_example =
    recv-data_packet 3 4 0 (1 ∷ 2 ∷ 3 ∷ 4 ∷ []) (zeros12 ++ (0 ∷ 0 ∷ 0 ∷ 0 ∷ [])) recv_host 17 0 3 0
      0x85 [] zeros12 (7 ∷ 8 ∷ []) [] [] [] [] recv_sent (expecting recv_sent recv_answer)
      (refl, refl, omega arith, refl)
      (Holds.holds zeros12 0 0 0 0 [] refl (λ e. absurd (omega (arith, e)))) (omega arith)
      (omega arith) (omega arith) (omega arith) refl Consumes.nothing Consumes.nothing

gethostbyname-out_of_bounds_example :
    gethostbyname (97 ∷ 98 ∷ 99 ∷ 100 ∷ 101 ∷ 102 ∷ 103 ∷ 104 ∷ []) 8 [] (host_with idle_driver [])
    ≡ trap Trap.out_of_bounds
gethostbyname-out_of_bounds_example =
    gethostbyname-out_of_bounds (97 ∷ 98 ∷ 99 ∷ 100 ∷ 101 ∷ 102 ∷ 103 ∷ 104 ∷ []) 8 []
      (host_with idle_driver []) (omega arith) (omega arith) (omega arith) (omega arith)

abbrev open_driver : Driver
open_driver = record idle_driver { socket_active_status = 0xfff7 }

open_run : get_socket_active_status (extend16 (u16 3)) 0xfff7 ≡ active
unfolding get_socket_active_status
open_run = refl

abbrev failed_driver : Driver
failed_driver = record open_driver { transmit_data_error = 57 }

simple_link_send-refused_example :
    simple_link_send 3 (1 ∷ []) 1 0 [] 0 0x81 [] (host_with failed_driver [])
    ≡ ok (57, host_with (record failed_driver { errno = 57; transmit_data_error = 0 }) [])
simple_link_send-refused_example =
    simple_link_send-refused 3 (1 ∷ []) 1 0 [] 0 0x81 [] (host_with failed_driver [])
      (inl (λ e. absurd (omega (arith, e))))

abbrev supplied_driver : Driver
supplied_driver = record open_driver { number_of_free_buffers = 4 }

taken_run :
    host_flow_control_consume_buff 3 (host_with supplied_driver [])
    ≡ ok (0, host_with (record supplied_driver { number_of_free_buffers = 3 }) [])
unfolding host_flow_control_consume_buff consume_loop flow_round get_socket_active_status
taken_run = refl

host_flow_control_consume_buff-credit_example :
    Outcome (credit supplied_driver) (0, record supplied_driver { number_of_free_buffers = 3 })
host_flow_control_consume_buff-credit_example =
    host_flow_control_consume_buff-credit 3 0 (host_with supplied_driver [])
      (host_with (record supplied_driver { number_of_free_buffers = 3 }) []) taken_run

abbrev handles : List Handle
handles = record { socket = 3; block_mode = 0; free_buffers = 2 } ∷ []

host_flow_control_consume_buff-free_buffer_packet_example :
    host_flow_control_consume_buff 3
      (host_with open_driver (free_buffer_packet 8 0 handles [] ∷ []))
    ≡ ok (
      0,
      record {
        driver = record (refilled 8 0 handles [] open_driver) { number_of_free_buffers = 1 };
        incoming = [];
      },
    )
host_flow_control_consume_buff-free_buffer_packet_example =
    host_flow_control_consume_buff-free_buffer_packet 8 0 handles [] 3 []
      (host_with open_driver (free_buffer_packet 8 0 handles [] ∷ [])) refl open_run refl refl refl
      (omega arith) (λ e. absurd (omega (arith, e))) refl

-- A transmit buffer of 32 bytes.
abbrev sending_driver : Driver
sending_driver = record supplied_driver {
  port = record {
    tx =
        0 ∷ 0 ∷ 0 ∷ 0 ∷ 0 ∷ 0 ∷ 0 ∷ 0 ∷ 0 ∷ 0 ∷ 0 ∷ 0 ∷ 0 ∷ 0 ∷ 0 ∷ 0 ∷ 0 ∷ 0 ∷ 0 ∷ 0 ∷ 0 ∷ 0 ∷ 0
        ∷ 0 ∷ 0 ∷ 0 ∷ 0 ∷ 0 ∷ 0 ∷ 0 ∷ 0 ∷ 0xde ∷ [];
    wire = [];
  };
}

abbrev granted_host : Host
granted_host = host_with (record sending_driver { number_of_free_buffers = 3 }) []

granted_run : host_flow_control_consume_buff 3 (host_with sending_driver []) ≡ ok (0, granted_host)
unfolding host_flow_control_consume_buff consume_loop flow_round get_socket_active_status
granted_run = refl

send-wait_event_example : send 3 (7 ∷ 8 ∷ 9 ∷ []) 2 0 [] (host_with sending_driver []) ≡ (
    wait_event Opcode.evnt_send [] (record granted_host {
      driver = record granted_host.driver {
        number_of_sent_packets = 1;
        port = send_port granted_host.driver.port (sent_bytes 3 2 0 (7 ∷ 8 ∷ 9 ∷ []));
      };
    })
    >>= λ w. ok (2, w.1))
unfolding last_byte
send-wait_event_example =
    send-wait_event 3 2 0 (7 ∷ 8 ∷ 9 ∷ []) [] (host_with sending_driver []) granted_host granted_run
      (omega arith) (omega arith) (omega arith) refl
