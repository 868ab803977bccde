-- ===== src/Socket/Transfer/Recv.antt =====
-- `recv`, from the command to the data in the caller's buffer.
use arduino_spider_l3s_libra.Base.{
  ℕ, ◌+◌, ◌≤◌, ◌<◌, ◌==◌, ◌&&◌, not, true, ◌≡◌, ◌≢◌, refl, ap, ◌∙◌, List, [], ◌∷◌, ◌++◌, length, ok,
  none, u16, Result, is_nonneg32, arith,
}
use arduino_spider_l3s_libra.Stream.{stream_to_uint32, load}
use arduino_spider_l3s_libra.Stream.Memory.{splice}
use arduino_spider_l3s_libra.Driver.{Driver}
use arduino_spider_l3s_libra.Driver.Opcode
use arduino_spider_l3s_libra.Events.Unsolicited.{error_socket_inactive}
use arduino_spider_l3s_libra.Events.Solicited.Laws.{recv_packet}
use arduino_spider_l3s_libra.Events.Loop.Laws.{Consumes, Consumes-port}
use arduino_spider_l3s_libra.Events.Loop.Data.{data_packet, simple_link_wait_data-data_packet}
use arduino_spider_l3s_libra.Events.Loop.Recv.{word, stored, simple_link_wait_event-recv_packet}
use arduino_spider_l3s_libra.Socket.{Host, uint32s_to_stream, wait_event}
use arduino_spider_l3s_libra.Socket.Commands.Laws.{
  IsReady, awaiting, answered, command_port, command-wait_event, le32s, uint32s_to_stream-le32s,
}
use arduino_spider_l3s_libra.Socket.Transfer.{simple_link_recv, recv}

-- The driver while it waits for the data, when the reply has come.
abbrev pub expecting : Driver → List ℕ → Driver
expecting e reply = record (answered e reply) { rx_data_pending = 1 }

-- What `local` holds: twelve bytes for the reply, and four behind them that are not the code of an
-- inactive socket.
pub data Holds : List ℕ → Type 0 where
  holds :
      (place : List ℕ) (b0 b1 b2 b3 : ℕ) (more : List ℕ)
      → length place ≡ 12
      → word b0 b1 b2 b3 ≢ error_socket_inactive
      → Holds (place ++ (b0 ∷ b1 ∷ b2 ∷ b3 ∷ more))

-- `recv` on a host that is ready, with room for the reply (and nothing behind it that reads as the code
-- of an inactive socket): after any packets that the interrupt consumes (and that take the driver, with
-- the command sent, to `e`) the reply tells of at least one byte, and after any others (that take the
-- driver, now waiting for the data, to `f`) a data packet brings that many, no more than the buffer has.
-- They are the result, `errno`, and the front of the buffer, whose rest is left alone. The host waits for
-- nothing any more, the SPI runs, nothing is pending, and the packets behind are left. The bus has
-- carried one packet more, the command with the socket, the length and the flags.
pub recv-data_packet :
    (sd len flags : ℕ) (buf local : List ℕ) (h : Host) (size status sd' flags' opcode : ℕ)
    (rest args payload behind : List ℕ) (ps qs rs : List (List ℕ)) (e f : Driver)
    → IsReady 12 h
    → Holds local
    → 0 < length payload
    → length args < 256
    → length args + length payload < 65536
    → length payload ≤ length buf
    → h.incoming
      ≡ ps
        ++ (recv_packet size status sd' (length payload) flags' rest
            ∷ (qs ++ (data_packet opcode args payload behind ∷ rs)))
    → Consumes ps (awaiting h Opcode.cmnd_recv (le32s (sd ∷ len ∷ flags ∷ []))) e
    → Consumes qs (expecting e (recv_packet size status sd' (length payload) flags' rest)) f
    → (recv sd buf len flags local h
        ≡ ok (
          record { result = length payload; buf = splice buf 0 payload; from = none },
          record {
            driver = record f {
              rx_data_pending = 0;
              event_or_data_received = 0;
              spi_enabled = true;
              received_data = data_packet opcode args payload behind;
              errno = length payload;
            };
            incoming = rs;
          },
        ))
      × (f.port ≡ command_port h.driver.port Opcode.cmnd_recv (le32s (sd ∷ len ∷ flags ∷ [])))
unfolding simple_link_recv
recv-data_packet sd len flags buf _ h size status sd' flags' opcode rest args payload behind ps qs
      rs e f ready (Holds.holds place b0 b1 b2 b3 more twelve works) some_data few small room coming
      before between =
    (
      rw
          (
            command-wait_event Opcode.cmnd_recv Opcode.cmnd_recv (le32s (sd ∷ len ∷ flags ∷ []))
                local (λ c. uint32s_to_stream c (sd ∷ len ∷ flags ∷ [])) h
                (λ c. uint32s_to_stream-le32s c (sd ∷ len ∷ flags ∷ [])) (omega arith) ready,
            waited,
            number_lem,
            positive,
            simple_link_wait_data-data_packet opcode args payload behind buf qs rs
                (answered e reply) f few small room refl refl between,
            fits,
          )
          refl,
      Consumes-port qs (expecting e reply) f between
          ∙ Consumes-port ps (awaiting h Opcode.cmnd_recv (le32s (sd ∷ len ∷ flags ∷ []))) e before,
    )
  where
    n : ℕ
    n = length payload

    local : List ℕ
    local = place ++ (b0 ∷ b1 ∷ b2 ∷ b3 ∷ more)

    reply : List ℕ
    reply = recv_packet size status sd' n flags' rest

    sent : Driver
    sent = record h.driver {
      port = command_port h.driver.port Opcode.cmnd_recv (le32s (sd ∷ len ∷ flags ∷ []));
    }

    left : List (List ℕ)
    left = qs ++ (data_packet opcode args payload behind ∷ rs)

    kept : List ℕ
    kept = stored size status sd' n flags' rest (b0 ∷ b1 ∷ b2 ∷ b3 ∷ more)

    waited :
        wait_event Opcode.cmnd_recv local (record h { driver = sent })
        ≡ ok (kept, record { driver = answered e reply; incoming = left })
    waited =
        unfold wait_event in
        rw
          (
            coming,
            simple_link_wait_event-recv_packet size status sd' n flags' rest place b0 b1 b2 b3 more
                ps left sent e twelve works ready.0 ready.1 before,
          )
          refl

    number_lem : stream_to_uint32 kept 4 ≡ ok n
    number_lem = unfold stream_to_uint32 load in ap {B = Result ℕ} ok (omega arith)

    positive : (is_nonneg32 n && not (n == 0)) ≡ true
    positive = ground arith

    fits : u16 n ≡ n
    fits = omega arith
