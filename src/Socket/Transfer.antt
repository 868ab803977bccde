-- ===== src/Socket/Transfer.antt =====
-- The calls of socket.c that move data: the credit of the device's buffers, `recv` and `send`.
pub mod Laws
pub mod Recv
pub mod Send
use arduino_spider_l3s_libra.Base.{
  ℕ, ◌+◌, ◌-◌, ◌==◌, ◌&&◌, not, ltb, Bool, true, false, List, [], ◌∷◌, Option, none, some,
  if◌then◌else◌, Result, ok, trap, Trap, ◌>>=◌, u16, u32, is_nonneg32,
}
use arduino_spider_l3s_libra.Stream.{load_bytes, store_bytes, array_to_stream, stream_to_uint32}
use arduino_spider_l3s_libra.Driver.{Driver}
use arduino_spider_l3s_libra.Driver.Opcode
use arduino_spider_l3s_libra.Driver.Status.{active, get_socket_active_status}
use arduino_spider_l3s_libra.Hci.{with_tx, hci_data_send}
use arduino_spider_l3s_libra.Events.Unsolicited.{spi_receive}
use arduino_spider_l3s_libra.Events.Loop.{Caller, simple_link_wait_data}
use arduino_spider_l3s_libra.Socket.{
  Host, extend16, with_errno, uint32s_to_stream, command, wait_event,
}

-- One round of the busy loop: the INT16 that is returned and the new state, or `none`, another round.
-- `sd` is an INT16.
unfoldable pub flow_round : ℕ → Driver → Option (ℕ × Driver)
flow_round sd d =
    if not (d.transmit_data_error == 0)
    then some (
      u16 d.transmit_data_error,
      record d { errno = u16 d.transmit_data_error; transmit_data_error = 0 },
    )
    else if not (get_socket_active_status (extend16 sd) d.socket_active_status == active)
    then some (0xffff, d)
    else if d.number_of_free_buffers == 0
    then none
    else some (0, record d { number_of_free_buffers = d.number_of_free_buffers - 1 })

-- The loop of HostFlowControlConsumeBuff in builds without SEND_NON_BLOCKING. The rounds between two
-- packets are all alike; a packet comes in only while the SPI is not paused.
unfoldable pub consume_loop : ℕ → List (List ℕ) → Driver → Result (ℕ × Host)
consume_loop sd [] d = elim (flow_round sd d) [
  | some r ↦ ok (r.0, record { driver = r.1; incoming = [] })
  | none ↦ trap Trap.hang
]
consume_loop sd (p ∷ ps) d = elim (flow_round sd d) [
  | some r ↦ ok (r.0, record { driver = r.1; incoming = p ∷ ps })
  | none ↦ elim d.spi_enabled [
    | true ↦ spi_receive p d >>= λ e. consume_loop sd ps e
    | false ↦ trap Trap.hang
  ]
]

unfoldable pub host_flow_control_consume_buff : ℕ → Host → Result (ℕ × Host)
host_flow_control_consume_buff sd h = consume_loop (u16 sd) h.incoming h.driver

-- What a receiving call gives back: the INT16 result, the memory at `buf`, and that at `from` and
-- `fromlen`.
pub record Received : Type 0 where
  pub result : ℕ
  pub buf : List ℕ
  pub from : Option (List ℕ × List ℕ)

-- `local` is the memory from `tSocketReadEvent` on.
unfoldable pub simple_link_recv :
    ℕ → List ℕ → ℕ → ℕ → Option (List ℕ × List ℕ) → ℕ → List ℕ → Host → Result (Received × Host)
simple_link_recv sd buf len flags from opcode local h = do
  r ← command opcode 12 opcode (λ c. uint32s_to_stream c (sd ∷ len ∷ flags ∷ [])) local h
  number_of_bytes ← stream_to_uint32 r.0 4
  e ←
      (if is_nonneg32 number_of_bytes && not (number_of_bytes == 0)
        then simple_link_wait_data r.1.incoming (record { ret = buf; from = from }) r.1.driver
        else ok (record { ret = buf; from = from }, r.1.driver, r.1.incoming))
  ok (
    record { result = u16 number_of_bytes; buf = e.0.ret; from = e.0.from },
    with_errno number_of_bytes (record { driver = e.1; incoming = e.2 }),
  )

abbrev pub recv : ℕ → List ℕ → ℕ → ℕ → List ℕ → Host → Result (Received × Host)
recv sd buf len flags local h = simple_link_recv sd buf len flags none Opcode.cmnd_recv local h

abbrev pub recvfrom :
    ℕ → List ℕ → ℕ → ℕ → List ℕ × List ℕ → List ℕ → Host → Result (Received × Host)
recvfrom sd buf len flags from local h =
    simple_link_recv sd buf len flags (some from) Opcode.cmnd_recvfrom local h

-- The bytes that `for (i = 0; i < len; i++)` copies of an INT32 length: none of a negative one.
abbrev pub copied : ℕ → ℕ
copied len = if is_nonneg32 len then len else 0

-- The packet of `send` and `sendto`, from the arguments behind HEADERS_SIZE_DATA to `hci_data_send`:
-- `arg_size` is `uArgSize`, `more` the arguments that only `sendto` has.
unfoldable pub send_packet :
    ℕ → ℕ → ℕ → ℕ → List ℕ → List ℕ → List ℕ → ℕ → ℕ → Driver → Result Driver
send_packet sd len flags arg_size more buf to tolen opcode d = do
  args ←
      uint32s_to_stream (record { buffer = d.port.tx; position = 10 })
        (sd ∷ (arg_size - 4) ∷ len ∷ flags ∷ more)
  bytes ← load_bytes buf 0 (copied len)
  data_ptr ← array_to_stream (record { buffer = args.buffer; position = 10 + arg_size }) bytes
  address ← load_bytes to 0 (copied tolen)
  b ← array_to_stream data_ptr address
  port ← hci_data_send opcode arg_size len tolen (with_tx d.port b.buffer)
  ok (record d { port = port })

-- `opcode` is HCI_CMND_SENDTO or HCI_CMND_SEND; for another one the code would write to a null pointer.
-- `local` is the memory from `tSocketSendEvent` on.
unfoldable pub simple_link_send :
    ℕ → List ℕ → ℕ → ℕ → List ℕ → ℕ → ℕ → List ℕ → Host → Result (ℕ × Host)
simple_link_send sd buf len flags to tolen opcode local h = do
  r ← host_flow_control_consume_buff sd h
  if not (r.0 == 0) then ok r else (do
    let d = record r.1.driver {
      number_of_sent_packets = u32 (r.1.driver.number_of_sent_packets + 1);
    }
    e ←
        (if opcode == Opcode.cmnd_sendto
          then send_packet sd len flags 24 (u32 (len + 8) ∷ 8 ∷ []) buf to tolen opcode d
          else if opcode == Opcode.cmnd_send
          then send_packet sd len flags 16 [] buf [] 0 opcode d
          else trap Trap.out_of_bounds)
    w ←
        wait_event (if opcode == Opcode.cmnd_sendto then Opcode.evnt_sendto else Opcode.evnt_send)
          local (record r.1 { driver = e })
    ok (u16 len, w.1))

abbrev pub send : ℕ → List ℕ → ℕ → ℕ → List ℕ → Host → Result (ℕ × Host)
send sd buf len flags local h = simple_link_send sd buf len flags [] 0 Opcode.cmnd_send local h

abbrev pub sendto : ℕ → List ℕ → ℕ → ℕ → List ℕ → ℕ → List ℕ → Host → Result (ℕ × Host)
sendto sd buf len flags to tolen local h =
    simple_link_send sd buf len flags to tolen Opcode.cmnd_sendto local h
