-- ===== src/Events/Loop/Data.antt =====
-- What the wait for data comes to: the payload of a data packet in the caller's buffer.
use arduino_spider_l3s_libra.Base.{
  ℕ, ◌+◌, ◌-◌, ◌≤◌, ◌<◌, ◌≡◌, refl, ap, ◌∙◌, List, ◌∷◌, ◌++◌, length, true, false, none, Result, ok,
  u16, arith,
}
use arduino_spider_l3s_libra.Stream.{load, load_bytes, stream_to_uint8, stream_to_uint16}
use arduino_spider_l3s_libra.Stream.Memory.{splice, le16, store_bytes-splice}
use arduino_spider_l3s_libra.Stream.Parts.{load_bytes-part}
use arduino_spider_l3s_libra.Driver.{Driver}
use arduino_spider_l3s_libra.Events.Unsolicited.{hci_unsolicited_event_handler, spi_receive}
use arduino_spider_l3s_libra.Events.Loop.{
  Caller, Round, store_from, handle_data, handle_packet, loop_round, simple_link_wait_data,
}
use arduino_spider_l3s_libra.Events.Loop.Laws.{
  Consumes, Consumes-idle, hci_event_handler-Consumes, hci_event_handler-packet,
  hci_event_handler-returned,
}

-- HCI_TYPE_DATA
abbrev type_data : ℕ
type_data = 2

-- A data packet: its opcode, its arguments and the payload, and what follows it in the receive buffer.
abbrev pub data_packet : ℕ → List ℕ → List ℕ → List ℕ → List ℕ
data_packet opcode args payload rest =
    type_data
    ∷ opcode
    ∷ length args
    ∷ (le16 (length args + length payload) ++ (args ++ (payload ++ rest)))

module _ (opcode : ℕ) (args payload rest : List ℕ) (few : length args < 256)
    (small : length args + length payload < 65536) where
  abbrev packet : List ℕ
  packet = data_packet opcode args payload rest

  length_lem : stream_to_uint16 packet 3 ≡ ok (length args + length payload)
  unfolding stream_to_uint16 load
  length_lem = ap {B = Result ℕ} ok (omega arith)

  payload_lem : load_bytes packet (5 + length args) (length payload) ≡ ok payload
  payload_lem =
      load_bytes-part
        (type_data ∷ opcode ∷ length args ∷ (le16 (length args + length payload) ++ args)) payload
        rest (5 + length args) (length payload) (omega arith) refl

  module _ (d : Driver) where
    abbrev pub arrived : Driver
    arrived = record d { spi_enabled = false; event_or_data_received = 1; received_data = packet }

    spi_receive-data : spi_receive packet d ≡ ok arrived
    unfolding spi_receive hci_unsolicited_event_handler stream_to_uint8 load
    spi_receive-data = refl

    handle_packet-data :
        (buf : List ℕ)
        → length payload ≤ length buf
        → handle_packet (record { ret = buf; from = none }) arrived
          ≡ ok (
            record { ret = splice buf 0 payload; from = none },
            record arrived { rx_data_pending = 0; event_or_data_received = 0; spi_enabled = true },
          )
    unfolding handle_packet handle_data store_from stream_to_uint8 load
    handle_packet-data buf room =
        rw (length_lem, size, payload_lem, store_bytes-splice buf 0 payload (omega arith)) refl
      where
        size : u16 (length args + length payload + 65536 - length args) ≡ length payload
        size = omega arith

-- A host that waits for data, with the SPI idle, no reply outstanding and no place for the sender's
-- address: after any packets that the interrupt consumes, and that take the driver, the wait noted, to
-- `e`, a data packet ends the wait, whatever its arguments are (less than 256 bytes), if its payload fits
-- the buffer. The payload is at the front of the buffer and the rest of that is left alone; the host
-- waits for nothing any more, the SPI runs, nothing is pending, all else is as in `e`, and the packets
-- behind it are still to come.
pub simple_link_wait_data-data_packet :
    (opcode : ℕ) (args payload rest buf : List ℕ) (ps qs : List (List ℕ)) (d e : Driver)
    → length args < 256
    → length args + length payload < 65536
    → length payload ≤ length buf
    → d.event_or_data_received ≡ 0
    → d.rx_event_opcode ≡ 0
    → Consumes ps (record d { rx_data_pending = 1 }) e
    → simple_link_wait_data
        (ps ++ (data_packet opcode args payload rest ∷ qs))
        (record { ret = buf; from = none })
        d
      ≡ ok (
        record { ret = splice buf 0 payload; from = none },
        record e {
          rx_data_pending = 0;
          event_or_data_received = 0;
          spi_enabled = true;
          received_data = data_packet opcode args payload rest;
        },
        qs,
      )
unfolding simple_link_wait_data
simple_link_wait_data-data_packet opcode args payload rest buf ps qs d e few small room idle
      no_reply before =
    hci_event_handler-Consumes ps (packet ∷ qs) c d' e idle before
    ∙ (hci_event_handler-packet packet qs c e (arrived opcode args payload rest few small e)
          at_end.0 (spi_receive-data opcode args payload rest few small e)
        ∙ hci_event_handler-returned qs c _ _ _ round)
  where
    packet : List ℕ
    packet = data_packet opcode args payload rest

    c : Caller
    c = record { ret = buf; from = none }

    d' : Driver
    d' = record d { rx_data_pending = 1 }

    at_end :
        (e.event_or_data_received ≡ 0)
        × (e.rx_event_opcode ≡ d.rx_event_opcode)
        × (e.rx_data_pending ≡ 1)
    at_end = Consumes-idle ps d' e idle before

    no_reply' : e.rx_event_opcode ≡ 0
    no_reply' = at_end.1 ∙ no_reply

    round :
        loop_round c (arrived opcode args payload rest few small e)
        ≡ ok (
            Round.returned
              (record { ret = splice buf 0 payload; from = none })
              (record e {
                rx_data_pending = 0;
                event_or_data_received = 0;
                spi_enabled = true;
                received_data = packet;
              }))
    round =
        unfold loop_round in
        rw (handle_packet-data opcode args payload rest few small e buf room, no_reply') refl
