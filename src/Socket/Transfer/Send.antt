-- ===== src/Socket/Transfer/Send.antt =====
-- `send`, up to its packet on the bus.
use arduino_spider_l3s_libra.Base.{
  ℕ, ◌+◌, ◌≤◌, ◌<◌, true, ◌≡◌, refl, ◌∙◌, List, [], ◌∷◌, ◌++◌, length, length-append, length-take,
  take, drop, ok, ◌>>=◌, u16, u32, is_nonneg32, arith,
}
use arduino_spider_l3s_libra.Stream.{load_bytes}
use arduino_spider_l3s_libra.Stream.Memory.{splice, array_to_stream-nil}
use arduino_spider_l3s_libra.Stream.RoundTrip.{array_to_stream-splice, length-splice, splice-append}
use arduino_spider_l3s_libra.Spi.Frame.{Port, pad, spi_header}
use arduino_spider_l3s_libra.Spi.Frame.Laws.{
  HasMagic, last_byte-splice, drop-splice, load_bytes-take,
}
use arduino_spider_l3s_libra.Hci.{with_tx}
use arduino_spider_l3s_libra.Hci.Frames.{data_header, hci_data_send-packet}
use arduino_spider_l3s_libra.Driver.{Driver}
use arduino_spider_l3s_libra.Driver.Opcode
use arduino_spider_l3s_libra.Socket.{Host, wait_event}
use arduino_spider_l3s_libra.Socket.Commands.Laws.{le32s, uint32s_to_stream-le32s}
use arduino_spider_l3s_libra.Socket.Transfer.{
  host_flow_control_consume_buff, send_packet, simple_link_send, send,
}

-- The port after a data packet of HCI_CMND_SEND with the bytes `body`, 16 of them arguments.
abbrev pub send_port : Port → List ℕ → Port
send_port port body =
    let n = length body in
    let behind = body ++ drop n (drop 10 port.tx) in
    record {
      tx = spi_header (n + 5) ++ (data_header Opcode.cmnd_send 16 n ++ behind);
      wire =
          port.wire
          ++ ((spi_header (n + 5)
                ++ (data_header Opcode.cmnd_send 16 n ++ take (n + pad (n + 5)) behind))
              ∷ []);
    }

module _ (sd len flags : ℕ) (buf : List ℕ) where
  -- The arguments of `send` and the data.
  abbrev pub sent_bytes : List ℕ
  sent_bytes = le32s (sd ∷ 12 ∷ len ∷ flags ∷ []) ++ take len buf

  send_packet-port :
      (d : Driver)
      → len ≤ length buf
      → len < 65509
      → 27 + len < length d.port.tx
      → HasMagic d.port.tx
      → send_packet sd len flags 16 [] buf [] 0 Opcode.cmnd_send d
        ≡ ok (record d { port = send_port d.port sent_bytes })
  unfolding send_packet
  send_packet-port d enough small room mark =
      rw
        (
          uint32s_to_stream-le32s (record { buffer = tx; position = 10 })
              (sd ∷ 12 ∷ len ∷ flags ∷ []),
          array_to_stream-splice (record { buffer = tx; position = 10 }) args (omega (arith, room)),
          positive,
          load_bytes-take buf 0 len (omega arith),
          array_to_stream-splice (record { buffer = splice tx 10 args; position = 26 })
              (take len buf)
              (omega (arith, room, taken, length-splice tx 10 args (omega (arith, room)))),
          splice-append tx 10 26 args (take len buf) refl (omega (arith, room, taken)),
        )
        (rw
          (
            nothing_behind,
            array_to_stream-nil
                (record { buffer = written; position = 26 + length (take len buf) }),
            hci_data_send-packet Opcode.cmnd_send 16 len 0 (with_tx d.port written) (omega arith)
                (omega (arith, room, same_length)) (omega (arith, room, same_length, pad_le))
                (last_byte-splice tx 10 sent_bytes (omega (arith, room, size)) ∙ mark),
            drop-splice tx 10 sent_bytes (omega (arith, room)),
            size,
          )
          refl)
    where
      tx : List ℕ
      tx = d.port.tx

      args : List ℕ
      args = le32s (sd ∷ 12 ∷ len ∷ flags ∷ [])

      taken : length (take len buf) ≡ len
      taken = omega (arith, length-take len buf)

      size : 16 + len + 0 ≡ length sent_bytes
      size = omega (arith, length-append args (take len buf), taken)

      written : List ℕ
      written = splice tx 10 sent_bytes

      same_length : length written ≡ length tx
      same_length = length-splice tx 10 sent_bytes (omega (arith, room, size))

      pad_le : pad (16 + len + 0 + 5) ≤ 1
      pad_le = ground arith

      nothing_behind : load_bytes [] 0 0 ≡ ok []
      nothing_behind = unfold load_bytes in refl

      positive : is_nonneg32 len ≡ true
      positive = ground arith

-- `send`, when the flow control grants a buffer and leaves the host `h'`, with at least `len` bytes in
-- the array, `len` below 65509, and in the transmit buffer more than 27 + `len` bytes, the last of
-- them the mark: it counts one packet more as sent, puts HCI_CMND_SEND with the socket, 12, `len`,
-- the flags, the first `len` bytes of the array and the pad byte if any on the bus as one packet,
-- then it waits for the event of `send` in that host, and returns `len` when the wait ends.
pub send-wait_event :
    (sd len flags : ℕ) (buf local : List ℕ) (h h' : Host)
    → host_flow_control_consume_buff sd h ≡ ok (0, h')
    → len ≤ length buf
    → len < 65509
    → 27 + len < length h'.driver.port.tx
    → HasMagic h'.driver.port.tx
    → send sd buf len flags local h ≡ (
        wait_event Opcode.evnt_send local (record h' {
          driver = record h'.driver {
            number_of_sent_packets = u32 (h'.driver.number_of_sent_packets + 1);
            port = send_port h'.driver.port (sent_bytes sd len flags buf);
          };
        })
        >>= λ w. ok (len, w.1))
unfolding simple_link_send
send-wait_event sd len flags buf local h h' granted enough small room mark =
    rw
      (
        granted,
        send_packet-port sd len flags buf
            (record h'.driver {
              number_of_sent_packets = u32 (h'.driver.number_of_sent_packets + 1);
            })
            enough small room mark,
        whole,
      )
      refl
  where
    whole : u16 len ≡ len
    whole = omega arith
