-- ===== src/Events/Loop.antt =====
-- `hci_event_handler`: the loop that waits until the reply or the data that the caller is after has
-- come. `packets` are the packets that the device sends while it waits, in order; the next one arrives
-- when the SPI has been resumed and nothing is pending. A wait without a packet does not end.
pub mod Laws
pub mod Data
pub mod Recv
use arduino_spider_l3s_libra.Base.{
  ℕ, ◌+◌, ◌-◌, ◌==◌, ◌&&◌, not, Bool, true, false, List, [], ◌∷◌, ◌++◌, Option, none, some,
  if◌then◌else◌, Result, ok, trap, Trap, ◌>>=◌, u8, u16,
}
use arduino_spider_l3s_libra.Stream.{
  stream_to_uint8, stream_to_uint16, stream_to_uint32, load_bytes, store_bytes,
}
use arduino_spider_l3s_libra.Stream.Memory.{le32}
use arduino_spider_l3s_libra.Driver.{Driver}
use arduino_spider_l3s_libra.Driver.Opcode
use arduino_spider_l3s_libra.Events.Unsolicited.{hci_unsol_event_handler, spi_receive}
use arduino_spider_l3s_libra.Events.Solicited.{store_reply}
use arduino_spider_l3s_libra.Events.Patches.{hci_unsol_handle_patch_request}

-- What the caller gave: the memory at `pRetParams`, and that at `from` and `fromlen` unless `from` is
-- null. `fromlen` points to a UINT32.
pub record Caller : Type 0 where
  pub ret : List ℕ
  pub from : Option (List ℕ × List ℕ)

-- A packet of type HCI_TYPE_EVNT, up to `usEventOrDataReceived = 0`. The pointer `pRetParams` that a reply
-- moves stays moved for the rest of the loop; here each packet is stored from its start, so that this is
-- the code for calls whose replies of several numbers end the loop.
unfoldable pub handle_event : List ℕ → Caller → Driver → Result (Caller × Driver)
handle_event event c d = do
  opcode ← stream_to_uint16 event 1
  r ← hci_unsol_event_handler event d
  s ← (if r.1 then ok (c.ret, r.0) else store_reply opcode event c.ret r.0)
  ok (
    record c { ret = s.0 },
    (if opcode == s.1.rx_event_opcode then record s.1 { rx_event_opcode = 0 } else s.1),
  )

-- `if (from)`: the length of the address, then that many of its bytes; `*fromlen` is read as a UINT8.
unfoldable pub store_from : List ℕ → Option (List ℕ × List ℕ) → Result (Option (List ℕ × List ℕ))
store_from packet none = ok none
store_from packet (some (from, fromlen)) = do
  n ← stream_to_uint32 packet 9
  l ← store_bytes fromlen 0 (le32 n)
  address ← load_bytes packet 21 (u8 n)
  f ← store_bytes from 0 address
  ok (some (f, l))

-- A packet of another type, which is data. `usLength - ucArgsize` is a UINT16 on the AVR.
unfoldable pub handle_data : List ℕ → Caller → Driver → Result (Caller × Driver)
handle_data packet c d = do
  arg_size ← stream_to_uint8 packet 2
  len ← stream_to_uint16 packet 3
  from ← store_from packet c.from
  payload ← load_bytes packet (5 + arg_size) (u16 (len + 65536 - arg_size))
  ret ← store_bytes c.ret 0 payload
  ok (record { ret = ret; from = from }, record d { rx_data_pending = 0 })

-- The body of the loop once a packet is pending.
unfoldable pub handle_packet : Caller → Driver → Result (Caller × Driver)
handle_packet c d = do
  let packet = d.received_data
  packet_type ← stream_to_uint8 packet 0
  let is_event = packet_type == Opcode.type_evnt
  r ← (if is_event then handle_event packet c d else handle_data packet c d)
  let resumed = record r.1 { event_or_data_received = 0; spi_enabled = true }
  opcode ← (if is_event then stream_to_uint16 packet 1 else ok 0)
  e ←
      (if is_event && opcode == Opcode.evnt_patches_req
        then hci_unsol_handle_patch_request packet resumed
        else ok resumed)
  ok (r.0, e)

-- Nothing that the caller waits for is outstanding.
abbrev pub is_done : Driver → Bool
is_done d = d.rx_event_opcode == 0 && d.rx_data_pending == 0

-- What a round of the loop comes to: it returns, or it waits for the next packet.
pub data Round : Type 0 where
  returned : Caller → Driver → Round
  waiting : Caller → Driver → Round

unfoldable pub loop_round : Caller → Driver → Result Round
loop_round c d =
    if d.event_or_data_received == 0
    then ok (Round.waiting c d)
    else (handle_packet c d >>= λ r.
        ok (if is_done r.1 then Round.returned r.0 r.1 else Round.waiting r.0 r.1))

-- The loop, with the packets that are left over when it returns.
unfoldable pub hci_event_handler :
    List (List ℕ) → Caller → Driver → Result (Caller × Driver × List (List ℕ))
hci_event_handler [] c d =
    loop_round c d
    >>= elim [ Round.returned c' d' ↦ ok (c', d', []) | Round.waiting c' d' ↦ trap Trap.hang ]
hci_event_handler (p ∷ ps) c d = loop_round c d >>= elim [
  | Round.returned c' d' ↦ ok (c', d', p ∷ ps)
  | Round.waiting c' d' ↦ spi_receive p d' >>= λ e. hci_event_handler ps c' e
]

-- SimpleLinkWaitEvent
unfoldable pub simple_link_wait_event :
    ℕ → List (List ℕ) → List ℕ → Driver → Result (Caller × Driver × List (List ℕ))
simple_link_wait_event opcode packets ret d =
    hci_event_handler packets (record { ret = ret; from = none })
      (record d { rx_event_opcode = opcode })

-- SimpleLinkWaitData
unfoldable pub simple_link_wait_data :
    List (List ℕ) → Caller → Driver → Result (Caller × Driver × List (List ℕ))
simple_link_wait_data packets c d = hci_event_handler packets c (record d { rx_data_pending = 1 })
