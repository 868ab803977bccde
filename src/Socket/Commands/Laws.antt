-- ===== src/Socket/Commands/Laws.antt =====
-- A command and its reply, end to end: what goes over the bus, what comes back, and what is remembered.
use arduino_spider_l3s_libra.Base.{
  >>=-cong, ℕ, ◌+◌, ◌≤◌, ◌<◌, ◌≡◌, refl, sym, ap, ◌∙◌, List, [], ◌∷◌, ◌++◌, length, drop, take,
  true, false, ltb, Result, ok, trap, Trap, u16, u32, arith, length-take,
}
use mathlib.Core.Path.{subst}
use arduino_spider_l3s_libra.Stream.{Cursor, array_to_stream, stream_to_uint32, load}
use arduino_spider_l3s_libra.Stream.Memory.{
  splice, le32, uint32_to_stream-le32, array_to_stream-nil, array_to_stream-append,
  store_bytes-out_of_bounds,
}
use arduino_spider_l3s_libra.Stream.RoundTrip.{array_to_stream-splice, length-splice}
use arduino_spider_l3s_libra.Spi.Frame.{Port, pad, spi_header}
use arduino_spider_l3s_libra.Spi.Frame.Laws.{
  HasMagic, last_byte-splice, drop-splice, load_bytes-take,
}
use arduino_spider_l3s_libra.Hci.{with_tx}
use arduino_spider_l3s_libra.Hci.Frames.{command_header, hci_command_send-packet}
use arduino_spider_l3s_libra.Driver.{Driver}
use arduino_spider_l3s_libra.Driver.Opcode
use arduino_spider_l3s_libra.Driver.Status.{active, inactive, set_socket_active_status}
use arduino_spider_l3s_libra.Events.Unsolicited.{one_of}
use arduino_spider_l3s_libra.Events.Solicited.{number_replies}
use arduino_spider_l3s_libra.Events.Loop.Laws.{
  Consumes, Consumes-port, number_packet, simple_link_wait_event-number_packet,
}
use arduino_spider_l3s_libra.Socket.{Host, efail, uint32s_to_stream, wait_event, command}
use arduino_spider_l3s_libra.Socket.Commands.{
  socket, closesocket, address_args, connect, name_args, gethostbyname,
}

abbrev pub le32s : List ℕ → List ℕ
le32s [] = []
le32s (v ∷ vs) = le32 v ++ le32s vs

pub uint32s_to_stream-le32s :
    (c : Cursor) (vs : List ℕ) → uint32s_to_stream c vs ≡ array_to_stream c (le32s vs)
unfolding uint32s_to_stream
uint32s_to_stream-le32s c [] = sym (array_to_stream-nil c)
uint32s_to_stream-le32s c (v ∷ vs) = rw (uint32_to_stream-le32 c v) (
    >>=-cong (array_to_stream c (le32 v)) (λ d. uint32s_to_stream d vs)
      (λ d. array_to_stream d (le32s vs)) (λ d. uint32s_to_stream-le32s d vs)
    ∙ array_to_stream-append c (le32 v) (le32s vs))

-- The port after a command with the bytes `args`.
abbrev pub command_port : Port → ℕ → List ℕ → Port
command_port port o args =
    let n = length args in
    let behind = args ++ drop n (drop 9 port.tx) in
    record {
      tx = spi_header (n + 4) ++ (command_header o n ++ behind);
      wire =
          port.wire
          ++ ((spi_header (n + 4) ++ (command_header o n ++ take (n + pad n) behind)) ∷ []);
    }

-- A host with nothing pending and room for `n` bytes of arguments and their padding.
abbrev pub IsReady : ℕ → Host → Type 0
IsReady n h =
    (h.driver.event_or_data_received ≡ 0)
    × (h.driver.rx_data_pending ≡ 0)
    × (9 + n < length h.driver.port.tx)
    × HasMagic h.driver.port.tx

-- The driver while it waits for the reply.
abbrev pub awaiting : Host → ℕ → List ℕ → Driver
awaiting h o args = record h.driver {
  port = command_port h.driver.port o args;
  rx_event_opcode = o;
}

-- The driver once the reply has come.
abbrev pub answered : Driver → List ℕ → Driver
answered e reply = record e {
  rx_event_opcode = 0;
  event_or_data_received = 0;
  spi_enabled = true;
  received_data = reply;
}

-- A command on a ready host goes over the bus with its arguments; then the host waits.
pub command-wait_event :
    (o event : ℕ) (args local : List ℕ) (write_args : Cursor → Result Cursor) (h : Host)
    → ((c : Cursor) → write_args c ≡ array_to_stream c args)
    → length args < 256
    → IsReady (length args) h
    → command o (length args) event write_args local h
      ≡ wait_event event local
          (record h { driver = record h.driver { port = command_port h.driver.port o args } })
unfolding command
command-wait_event o event args local write_args h writes small ready =
    rw
      (
        writes (record { buffer = tx; position = 9 }),
        array_to_stream-splice (record { buffer = tx; position = 9 }) args (omega (arith, ready.2)),
        hci_command_send-packet o (length args) (with_tx h.driver.port written) small
            (omega (arith, ready.2, same_length)) (omega (arith, ready.2, same_length, pad_le))
            (last_byte-splice tx 9 args ready.2 ∙ ready.3),
        drop-splice tx 9 args (omega (arith, ready.2)),
      )
      refl
  where
    tx : List ℕ
    tx = h.driver.port.tx

    written : List ℕ
    written = splice tx 9 args

    same_length : length written ≡ length tx
    same_length = length-splice tx 9 args (omega (arith, ready.2))

    pad_le : pad (length args) ≤ 1
    pad_le = ground arith

command-number_packet :
    (o len status value : ℕ) (rest args local : List ℕ) (write_args : Cursor → Result Cursor)
    (h : Host) (ps qs : List (List ℕ)) (e : Driver)
    → ((c : Cursor) → write_args c ≡ array_to_stream c args)
    → length args < 256
    → IsReady (length args) h
    → one_of o number_replies ≡ true
    → 4 ≤ length local
    → h.incoming ≡ ps ++ (number_packet o len status value rest ∷ qs)
    → Consumes ps (awaiting h o args) e
    → command o (length args) o write_args local h
      ≡ ok (
        splice local 0 (le32 value),
        record { driver = answered e (number_packet o len status value rest); incoming = qs },
      )
unfolding wait_event
command-number_packet o len status value rest args local write_args h ps qs e writes small ready
      known room coming before =
    command-wait_event o o args local write_args h writes small ready
    ∙ rw
        (
          coming,
          simple_link_wait_event-number_packet o len status value rest local ps qs
              (record h.driver { port = command_port h.driver.port o args }) e known ready.0 ready.1
              room before,
        )
        refl

-- The number in the caller's four bytes.
number_lem : (value : ℕ) → stream_to_uint32 (le32 value) 0 ≡ ok (u32 value)
unfolding stream_to_uint32 load
number_lem value = ap {B = Result ℕ} ok (omega arith)

-- `socket` on a host that is ready, the reply coming after any packets that the interrupt consumes (and
-- that take the driver, with the command sent, to `e`): it returns the number of the reply, which is
-- also `errno`, marks that socket active, and leaves the packets behind the reply. In `e` the bus has
-- carried one packet more, the command with the three arguments, lowest byte first.
pub socket-reply :
    (domain kind protocol len status value : ℕ) (rest : List ℕ) (h : Host) (ps qs : List (List ℕ))
    (e : Driver)
    → IsReady 12 h
    → h.incoming ≡ ps ++ (number_packet Opcode.cmnd_socket len status value rest ∷ qs)
    → Consumes ps (awaiting h Opcode.cmnd_socket (le32s (domain ∷ kind ∷ protocol ∷ []))) e
    → (socket domain kind protocol h
        ≡ ok (
          u32 value,
          record {
            driver = record (answered e (number_packet Opcode.cmnd_socket len status value rest)) {
              errno = u16 (u32 value);
              socket_active_status =
                  set_socket_active_status (u32 value) active e.socket_active_status;
            };
            incoming = qs;
          },
        ))
      × (e.port
          ≡ command_port h.driver.port Opcode.cmnd_socket (le32s (domain ∷ kind ∷ protocol ∷ [])))
unfolding socket
socket-reply domain kind protocol len status value rest h ps qs e ready coming before = (
  rw
      (
        command-number_packet Opcode.cmnd_socket len status value rest
            (le32s (domain ∷ kind ∷ protocol ∷ [])) (le32 efail)
            (λ c. uint32s_to_stream c (domain ∷ kind ∷ protocol ∷ [])) h ps qs e
            (λ c. uint32s_to_stream-le32s c (domain ∷ kind ∷ protocol ∷ [])) (omega arith) ready
            refl (omega arith) coming before,
        number_lem value,
      )
      refl,
  Consumes-port ps (awaiting h Opcode.cmnd_socket (le32s (domain ∷ kind ∷ protocol ∷ []))) e before,
)

-- `closesocket` on a host that is ready, the reply coming after any packets that the interrupt consumes
-- (and that take the driver, with the command sent, to `e`): whatever number the reply has, it is the
-- result and `errno`, the socket is marked inactive, and the packets behind the reply are left.
pub closesocket-reply :
    (sd len status value : ℕ) (rest : List ℕ) (h : Host) (ps qs : List (List ℕ)) (e : Driver)
    → IsReady 4 h
    → h.incoming ≡ ps ++ (number_packet Opcode.cmnd_close_socket len status value rest ∷ qs)
    → Consumes ps (awaiting h Opcode.cmnd_close_socket (le32 sd)) e
    → closesocket sd h
      ≡ ok (
        u32 value,
        record {
          driver =
              record (answered e (number_packet Opcode.cmnd_close_socket len status value rest)) {
                errno = u16 (u32 value);
                socket_active_status = set_socket_active_status sd inactive e.socket_active_status;
              };
          incoming = qs;
        },
      )
unfolding closesocket
closesocket-reply sd len status value rest h ps qs e ready coming before =
    rw
      (
        command-number_packet Opcode.cmnd_close_socket len status value rest (le32 sd) (le32 efail)
            (λ c. uint32s_to_stream c (sd ∷ [])) h ps qs e
            (λ c. uint32s_to_stream-le32s c (sd ∷ [])) (omega arith) ready refl (omega arith) coming
            before,
        number_lem value,
      )
      refl

-- A name that is not rejected, of at most 230 bytes, but longer than the transmit buffer has room for
-- behind the 17 bytes of headers and numbers, is written past the end of the buffer.
pub gethostbyname-out_of_bounds :
    (hostname : List ℕ) (n : ℕ) (local : List ℕ) (h : Host)
    → n ≤ 230
    → n ≤ length hostname
    → 17 ≤ length h.driver.port.tx
    → length h.driver.port.tx < 17 + n
    → gethostbyname hostname n local h ≡ trap Trap.out_of_bounds
unfolding gethostbyname command name_args array_to_stream
gethostbyname-out_of_bounds hostname n local h allowed enough room over =
    rw
      (
        not_rejected,
        uint32s_to_stream-le32s (record { buffer = tx; position = 9 }) (8 ∷ n ∷ []),
        array_to_stream-splice (record { buffer = tx; position = 9 }) numbers room,
        load_bytes-take hostname 0 n (omega arith),
        store_bytes-out_of_bounds (splice tx 9 numbers) 17 (take n hostname)
            (λ e. absurd (omega (arith, ap length e, taken))) (omega (arith, taken, same_length)),
      )
      refl
  where
    tx : List ℕ
    tx = h.driver.port.tx

    numbers : List ℕ
    numbers = le32s (8 ∷ n ∷ [])

    not_rejected : ltb 230 n ≡ false
    not_rejected = ground arith

    taken : length (take n hostname) ≡ n
    taken = omega (arith, length-take n hostname)

    same_length : length (splice tx 9 numbers) ≡ length tx
    same_length = length-splice tx 9 numbers room

address_args-bytes :
    (sd : ℕ) (addr : List ℕ) (c : Cursor)
    → 8 ≤ length addr
    → address_args sd addr c ≡ array_to_stream c (le32s (sd ∷ 8 ∷ 8 ∷ []) ++ take 8 addr)
unfolding address_args
address_args-bytes sd addr c enough =
    rw (uint32s_to_stream-le32s c (sd ∷ 8 ∷ 8 ∷ []), load_bytes-take addr 0 8 enough)
      (array_to_stream-append c (le32s (sd ∷ 8 ∷ 8 ∷ [])) (take 8 addr))

-- `connect` to an address of at least eight bytes, on a host that is ready: the command carries the
-- socket, twice the number 8, and the first eight bytes of the address; the reply's number is the result
-- and `errno`, and the status of the sockets is as the packets before the reply left it.
pub connect-reply :
    (sd len status value : ℕ) (addr rest : List ℕ) (h : Host) (ps qs : List (List ℕ)) (e : Driver)
    → 8 ≤ length addr
    → IsReady 20 h
    → h.incoming ≡ ps ++ (number_packet Opcode.cmnd_connect len status value rest ∷ qs)
    → Consumes ps (awaiting h Opcode.cmnd_connect (le32s (sd ∷ 8 ∷ 8 ∷ []) ++ take 8 addr)) e
    → (connect sd addr h
        ≡ ok (
          u32 value,
          record {
            driver = record (answered e (number_packet Opcode.cmnd_connect len status value rest)) {
              errno = u16 (u32 value);
            };
            incoming = qs;
          },
        ))
      × (e.port
          ≡ command_port h.driver.port Opcode.cmnd_connect (le32s (sd ∷ 8 ∷ 8 ∷ []) ++ take 8 addr))
unfolding connect
connect-reply sd len status value addr rest h ps qs e enough ready coming before = (
  rw (sent, number_lem value) refl,
  Consumes-port ps (awaiting h Opcode.cmnd_connect args) e before,
)
  where
    args : List ℕ
    args = le32s (sd ∷ 8 ∷ 8 ∷ []) ++ take 8 addr

    size : length args ≡ 20
    size = omega (arith, length-take 8 addr)

    sent :
        command Opcode.cmnd_connect 20 Opcode.cmnd_connect (address_args sd addr) (le32 efail) h
        ≡ ok (
          le32 value,
          record {
            driver = answered e (number_packet Opcode.cmnd_connect len status value rest);
            incoming = qs;
          },
        )
    sent =
        ap
          (λ n.
            command Opcode.cmnd_connect n Opcode.cmnd_connect (address_args sd addr) (le32 efail) h)
          (sym size)
        ∙ command-number_packet Opcode.cmnd_connect len status value rest args (le32 efail)
            (address_args sd addr) h ps qs e (λ c. address_args-bytes sd addr c enough)
            (omega (arith, size)) (subst (λ n. IsReady n h) (sym size) ready) refl (omega arith)
            coming before
