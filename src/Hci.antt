-- ===== src/Hci.antt =====
-- hci.c: the four kinds of packet that the host sends. The arguments stand in the transmit buffer
-- behind the headers already; each function writes its header in front of them and calls `SpiWrite`.
mod Tests
pub mod Frames
pub mod Patch
use arduino_spider_l3s_libra.Base.{
  ℕ, zero, suc, ◌+◌, ◌-◌, ◌*◌, ◌/◌, ◌==◌, leb, List, [], ◌∷◌, take, drop, length, if◌then◌else◌,
  Bool, true, false, Result, ok, trap, Trap, ◌>>=◌, u8, u16,
}
use arduino_spider_l3s_libra.Stream.{
  Cursor, store, store_bytes, load_bytes, uint8_to_stream, uint16_to_stream,
}
use arduino_spider_l3s_libra.Spi.Frame.{Port, spi_write}

-- `pucBuff + SPI_HEADER_SIZE`
abbrev pub stream_of : Port → Cursor
stream_of port = record { buffer = port.tx; position = 5 }

abbrev pub with_tx : Port → List ℕ → Port
with_tx port b = record port { tx = b }

unfoldable pub hci_command_send : ℕ → ℕ → Port → Result Port
hci_command_send opcode args_length port = do
  c1 ← uint8_to_stream (stream_of port) 0x1
  c2 ← uint16_to_stream c1 opcode
  c3 ← uint8_to_stream c2 (u8 args_length)
  spi_write 0 (u8 args_length + 4) (with_tx port c3.buffer)

unfoldable pub hci_data_send : ℕ → ℕ → ℕ → ℕ → Port → Result Port
hci_data_send opcode args_length data_length tail_length port = do
  c1 ← uint8_to_stream (stream_of port) 0x2
  c2 ← uint8_to_stream c1 opcode
  c3 ← uint8_to_stream c2 (u16 args_length)
  c4 ← uint16_to_stream c3 (u16 args_length + u16 data_length + u16 tail_length)
  spi_write 0 (5 + u16 args_length + u16 data_length + u16 tail_length) (with_tx port c4.buffer)

unfoldable pub hci_data_command_send : ℕ → ℕ → ℕ → Port → Result Port
hci_data_command_send opcode args_length data_length port = do
  c1 ← uint8_to_stream (stream_of port) 0x2
  c2 ← uint8_to_stream c1 (u16 opcode)
  c3 ← uint8_to_stream c2 (u8 args_length)
  c4 ← uint16_to_stream c3 (u8 args_length + u16 data_length)
  spi_write 0 (u8 args_length + u16 data_length + 5) (with_tx port c4.buffer)

-- SL_PATCH_PORTION_SIZE
abbrev pub portion_size : ℕ
portion_size = 1000

-- One round of `while (usDataLength)`: the portion and its length go to `data_ptr`, five bytes into
-- the buffer, and `SpiWrite` is given that address too.
unfoldable pub patch_portion : List ℕ → ℕ → Port → Result Port
patch_portion patch trans_length port = do
  portion ← load_bytes patch 0 trans_length
  c1 ← uint16_to_stream (stream_of port) trans_length
  b ← store_bytes c1.buffer 7 portion
  spi_write 5 (trans_length + 2) (with_tx port b)

-- The loop, with `fuel` rounds at most; `n` bytes of `patch` are left.
unfoldable pub patch_loop : ℕ → List ℕ → ℕ → Port → Result Port
patch_loop zero patch n port = trap Trap.hang
patch_loop (suc fuel) patch n port = elim (n == 0) [
  | true ↦ ok port
  | false ↦
      let trans_length = if leb n portion_size then n else portion_size in
      patch_portion patch trans_length port >>= λ p.
      patch_loop fuel (drop trans_length patch) (n - trans_length) p
]

-- The branch for a patch of one packet, `stream` being at `c3`. The first UINT16_TO_STREAM does not
-- move `stream`, so the second one writes at the same place.
unfoldable pub patch_single : List ℕ → ℕ → Cursor → Port → Result Port
patch_single patch n c3 port = do
  c4 ← uint16_to_stream c3 n
  c5 ← uint16_to_stream (record c3 { buffer = c4.buffer }) n
  portion ← load_bytes patch 0 n
  b ← store_bytes c5.buffer 11 portion
  spi_write 0 (n + 6) (with_tx port b)

-- The branch for a longer patch: there too the second UINT16_TO_STREAM writes over the first. A UINT16
-- length makes at most 66 rounds of the loop.
unfoldable pub patch_portions : List ℕ → ℕ → Cursor → Port → Result Port
patch_portions patch n c3 port = do
  c4 ← uint16_to_stream c3 (n + 2 + n / portion_size * 2)
  c5 ← uint16_to_stream (record c3 { buffer = c4.buffer }) portion_size
  portion ← load_bytes patch 0 portion_size
  b ← store_bytes c5.buffer 11 portion
  p ← spi_write 0 (portion_size + 6) (with_tx port b)
  patch_loop 66 (drop portion_size patch) (n - portion_size) p

-- `hci_patch_send`
unfoldable pub hci_patch_send : ℕ → List ℕ → ℕ → Port → Result Port
hci_patch_send opcode patch data_length port = do
  let n = u16 data_length
  c1 ← uint8_to_stream (stream_of port) 0x3
  c2 ← uint8_to_stream c1 opcode
  c3 ← uint16_to_stream c2 (n + 2)
  if leb n portion_size then patch_single patch n c3 port else patch_portions patch n c3 port
