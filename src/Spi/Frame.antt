-- ===== src/Spi/Frame.antt =====
-- The first half of `SpiWrite`: the padding, the five header bytes, the overrun check. The buffer is
-- `wlan_tx_buffer`, whose length is CC3000_TX_BUFFER_SIZE; `base` is where `pUserBuffer` points in it.
pub mod Laws
use arduino_spider_l3s_libra.Base.{
  ℕ, ◌+◌, ◌/◌, ◌%◌, ◌==◌, List, [], ◌∷◌, ◌++◌, Option, none, some, if◌then◌else◌, Result, ok, trap,
  Trap, ◌>>=◌, access, u16,
}
use arduino_spider_l3s_libra.Stream.{store_bytes, load_bytes}

-- CC3000_BUFFER_MAGIC_NUMBER
abbrev pub magic_number : ℕ
magic_number = 0xde

-- `wlan_tx_buffer[CC3000_TX_BUFFER_SIZE - 1]`
unfoldable pub last_byte : List ℕ → Option ℕ
last_byte [] = none
last_byte (x ∷ []) = some x
last_byte (x ∷ y ∷ ys) = last_byte (y ∷ ys)

-- `ucPad`: a byte is added when `usLength & 1` is 0.
abbrev pub pad : ℕ → ℕ
pad len = if len % 2 == 0 then 1 else 0

-- WRITE, HI and LO of the padded length, and two zeroes.
abbrev pub spi_header : ℕ → List ℕ
spi_header len = 1 ∷ (len + pad len) / 256 % 256 ∷ (len + pad len) % 256 ∷ 0 ∷ 0 ∷ []

-- The buffer with its header, and the number of bytes to clock out.
unfoldable pub spi_frame : List ℕ → ℕ → ℕ → Result (List ℕ × ℕ)
spi_frame tx base len = do
  b ← store_bytes tx base (spi_header (u16 len))
  magic ← access (last_byte b)
  if magic == magic_number then ok (b, u16 (u16 len + (5 + pad (u16 len)))) else trap Trap.hang

-- The transmit buffer and the packets that went over the bus, the latest last.
pub record Port : Type 0 where
  pub tx : List ℕ
  pub wire : List (List ℕ)

-- `SpiWrite` with the transfer done in one go: the handshake with the device is left out.
unfoldable pub spi_write : ℕ → ℕ → Port → Result Port
spi_write base len port = do
  (b, total) ← spi_frame port.tx base len
  packet ← load_bytes b base total
  ok (record { tx = b; wire = port.wire ++ (packet ∷ []) })
