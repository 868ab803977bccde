-- ===== src/Hci/Frames.antt =====
-- The packets that the functions of hci.c put on the bus.
use arduino_spider_l3s_libra.Base.{
  ℕ, suc, ◌+◌, ◌≤◌, ◌<◌, ◌≡◌, refl, sym, ap, ◌∙◌, List, [], ◌∷◌, ◌++◌, length, take, drop, Result,
  ok, ◌>>=◌, u8, u16, arith,
}
use arduino_spider_l3s_libra.Stream.{Cursor, uint8_to_stream, uint16_to_stream, array_to_stream}
use arduino_spider_l3s_libra.Stream.Memory.{
  splice, le16, array_to_stream-cons, array_to_stream-nil, >>=_assoc,
}
use arduino_spider_l3s_libra.Stream.RoundTrip.{array_to_stream-splice, length-splice}
use arduino_spider_l3s_libra.Spi.Frame.{Port, pad, spi_header, spi_write}
use arduino_spider_l3s_libra.Spi.Frame.Laws.{
  HasMagic, spi_write-frame, last_byte-splice, drop-splice, drop-drop,
}
use arduino_spider_l3s_libra.Hci.{
  stream_of, with_tx, hci_command_send, hci_data_send, hci_data_command_send,
}

-- `len` bytes after the SPI header, of which `header` are written and the others stand in the buffer.
abbrev pub sent : Port → List ℕ → ℕ → Port
sent port header len =
    let packet = header ++ drop (length header) (drop 5 port.tx) in
    record {
      tx = spi_header len ++ packet;
      wire = port.wire ++ ((spi_header len ++ take (len + pad len) packet) ∷ []);
    }

-- Sending what a write behind the SPI header left.
pub send_splice :
    (port : Port) (header : List ℕ) (len : ℕ)
    → len < 65530
    → 5 + length header < length port.tx
    → 5 + (len + pad len) ≤ length port.tx
    → HasMagic port.tx
    → spi_write 0 len (with_tx port (splice port.tx 5 header)) ≡ ok (sent port header len)
send_splice port header len small room fits mark =
    spi_write-frame 0 len (with_tx port (splice tx 5 header)) small (omega (arith, same_length))
      (omega (arith, same_length)) (last_byte-splice tx 5 header room ∙ mark)
    ∙ ap
        (λ packet. ok (record {
          tx = spi_header len ++ packet;
          wire = port.wire ++ ((spi_header len ++ take (len + pad len) packet) ∷ []);
        }))
        (drop-splice tx 5 header (omega arith))
  where
    tx : List ℕ
    tx = port.tx

    same_length : length (splice tx 5 header) ≡ length tx
    same_length = length-splice tx 5 header (omega arith)

-- Writing a header behind the SPI header and sending.
pub send_lem :
    (port : Port) (header : List ℕ) (len : ℕ)
    → len < 65530
    → 5 + length header < length port.tx
    → 5 + (len + pad len) ≤ length port.tx
    → HasMagic port.tx
    → (array_to_stream (stream_of port) header >>= λ c. spi_write 0 len (with_tx port c.buffer))
      ≡ ok (sent port header len)
send_lem port header len small room fits mark =
    rw (array_to_stream-splice (stream_of port) header (omega arith))
      (send_splice port header len small room fits mark)

command_chain :
    {A : Type 0} (opcode n : ℕ) (c : Cursor) (k : Cursor → Result A)
    → (uint8_to_stream c 1 >>= λ c1.
        uint16_to_stream c1 opcode >>= λ c2. uint8_to_stream c2 n >>= k)
      ≡ (array_to_stream c (1 ∷ le16 opcode ++ (u8 n ∷ [])) >>= k)
unfolding uint16_to_stream
command_chain opcode n c k =
    simp (array_to_stream-cons c 1, array_to_stream-cons, array_to_stream-nil, >>=_assoc)

abbrev pub command_header : ℕ → ℕ → List ℕ
command_header opcode n = 1 ∷ le16 opcode ++ (n ∷ [])

abbrev pub data_header : ℕ → ℕ → ℕ → List ℕ
data_header opcode n total = 2 ∷ u8 opcode ∷ u8 n ∷ le16 total

-- For fewer than 256 bytes of arguments that fit the buffer behind the nine header bytes, with the mark
-- in place: `hci_command_send` clocks out the SPI header, type 1, the opcode lowest byte first, the
-- length and the arguments, then a pad byte if their number is even; the arguments stay in place.
pub hci_command_send-packet :
    (opcode n : ℕ) (port : Port)
    → n < 256
    → 9 < length port.tx
    → 9 + (n + pad n) ≤ length port.tx
    → HasMagic port.tx
    → hci_command_send opcode n port
      ≡ ok (record {
        tx = spi_header (n + 4) ++ (command_header opcode n ++ drop 9 port.tx);
        wire =
            port.wire
            ++ ((spi_header (n + 4)
                  ++ (command_header opcode n ++ take (n + pad n) (drop 9 port.tx)))
                ∷ []);
      })
unfolding hci_command_send uint16_to_stream
hci_command_send-packet opcode n port small room fits mark =
    command_chain opcode (u8 n) (stream_of port)
      (λ c. spi_write 0 (u8 n + 4) (with_tx port c.buffer))
    ∙ rw (cast, cast)
        (send_lem port (command_header opcode n) (n + 4) (omega arith) room
            (omega (arith, same_pad)) mark
          ∙ rw (drop-drop 4 5 port.tx) (
              ap
                (λ body. ok (record {
                  tx = spi_header (n + 4) ++ (command_header opcode n ++ drop 9 port.tx);
                  wire =
                      port.wire
                      ++ ((spi_header (n + 4)
                            ++ take body (command_header opcode n ++ drop 9 port.tx))
                          ∷ []);
                }))
                whole))
  where
    same_pad : pad (n + 4) ≡ pad n
    same_pad = ground arith

    whole : n + 4 + pad (n + 4) ≡ suc (suc (suc (suc (n + pad n))))
    whole = omega (arith, same_pad)

    cast : u8 n ≡ n
    cast = omega arith

data_chain :
    {A : Type 0} (opcode n total : ℕ) (c : Cursor) (k : Cursor → Result A)
    → (uint8_to_stream c 2 >>= λ c1. uint8_to_stream c1 opcode >>= λ c2.
        uint8_to_stream c2 n >>= λ c3. uint16_to_stream c3 total >>= k)
      ≡ (array_to_stream c (data_header opcode n total) >>= k)
unfolding uint16_to_stream
data_chain opcode n total c k =
    simp (array_to_stream-cons c 2, array_to_stream-cons, array_to_stream-nil, >>=_assoc)

data_lem :
    (opcode n total len : ℕ) (port : Port)
    → len < 65525
    → 10 < length port.tx
    → 10 + (len + pad (len + 5)) ≤ length port.tx
    → HasMagic port.tx
    → (uint8_to_stream (stream_of port) 2 >>= λ c1. uint8_to_stream c1 opcode >>= λ c2.
        uint8_to_stream c2 n >>= λ c3.
        uint16_to_stream c3 total >>= λ c4. spi_write 0 (len + 5) (with_tx port c4.buffer))
      ≡ ok (record {
        tx = spi_header (len + 5) ++ (data_header opcode n total ++ drop 10 port.tx);
        wire =
            port.wire
            ++ ((spi_header (len + 5)
                  ++ (data_header opcode n total ++ take (len + pad (len + 5)) (drop 10 port.tx)))
                ∷ []);
      })
data_lem opcode n total len port small room fits mark =
    data_chain opcode n total (stream_of port) (λ c. spi_write 0 (len + 5) (with_tx port c.buffer))
    ∙ (send_lem port (data_header opcode n total) (len + 5) (omega arith) room (omega arith) mark
        ∙ rw (drop-drop 5 5 port.tx) (
            ap
              (λ body. ok (record {
                tx = spi_header (len + 5) ++ (data_header opcode n total ++ drop 10 port.tx);
                wire =
                    port.wire
                    ++ ((spi_header (len + 5)
                          ++ take body (data_header opcode n total ++ drop 10 port.tx))
                        ∷ []);
              }))
              whole))
  where
    whole : len + 5 + pad (len + 5) ≡ suc (suc (suc (suc (suc (len + pad (len + 5))))))
    whole = omega arith

-- For arguments, data and tail that fit the buffer behind the ten header bytes, with the mark in place:
-- `hci_data_send` clocks out the SPI header, type 2, the opcode, the number of argument bytes, the
-- number of all bytes that follow, and those bytes, then a pad byte if their number is odd.
pub hci_data_send-packet :
    (opcode a d t : ℕ) (port : Port)
    → a + d + t < 65525
    → 10 < length port.tx
    → 10 + (a + d + t + pad (a + d + t + 5)) ≤ length port.tx
    → HasMagic port.tx
    → hci_data_send opcode a d t port
      ≡ ok (record {
        tx = spi_header (a + d + t + 5) ++ (data_header opcode a (a + d + t) ++ drop 10 port.tx);
        wire =
            port.wire
            ++ ((spi_header (a + d + t + 5)
                  ++ (data_header opcode a (a + d + t)
                      ++ take (a + d + t + pad (a + d + t + 5)) (drop 10 port.tx)))
                ∷ []);
      })
unfolding hci_data_send
hci_data_send-packet opcode a d t port small room fits mark =
    rw (cast_a, cast_d, cast_t, order)
      (data_lem opcode a (a + d + t) (a + d + t) port small room fits mark)
  where
    cast_a : u16 a ≡ a
    cast_a = omega arith

    cast_d : u16 d ≡ d
    cast_d = omega arith

    cast_t : u16 t ≡ t
    cast_t = omega arith

    order : 5 + a + d + t ≡ a + d + t + 5
    order = omega arith

-- A command on the data channel is a data packet without a tail: for fewer than 256 argument bytes,
-- fewer than 65536 data bytes and any buffer, traps included, `hci_data_command_send` does what
-- `hci_data_send` does with the same opcode and lengths and a tail of 0.
pub hci_data_command_send-hci_data_send :
    (opcode a d : ℕ) (port : Port)
    → a < 256
    → d < 65536
    → hci_data_command_send opcode a d port ≡ hci_data_send opcode a d 0 port
unfolding hci_data_command_send hci_data_send uint8_to_stream
hci_data_command_send-hci_data_send opcode a d port byte small =
    rw (cast_opcode, cast_byte, cast_a, cast_d, sym total, sym order) refl
  where
    cast_opcode : u8 (u16 opcode) ≡ u8 opcode
    cast_opcode = omega arith

    cast_byte : u8 a ≡ a
    cast_byte = omega arith

    cast_a : u16 a ≡ a
    cast_a = omega arith

    cast_d : u16 d ≡ d
    cast_d = omega arith

    total : a + d ≡ a + d + 0
    total = omega arith

    order : a + d + 5 ≡ 5 + a + d + 0
    order = omega arith
