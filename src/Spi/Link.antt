-- ===== src/Spi/Link.antt =====
-- spider_spi.cpp: the state of the link to the CC3000, the reception of a packet, and the handler of the
-- IRQ pin. Run by the interrupt, the handler is taken whole: the AVR runs it with interrupts off. What the
-- SPIRxHandler does with a packet is of Events; here it is `resumes`, which says of the packet whether
-- the SPIRxHandler ends in `SpiResumeSpi`.
pub mod Write
pub mod Interrupt
pub mod Sending
pub mod Steps
pub mod Runs
pub mod Reception
pub mod Handler
pub mod Open
mod Tests
use arduino_spider_l3s_libra.Base.{
  ℕ, zero, suc, ◌+◌, ◌%◌, ◌==◌, ◌&&◌, not, Bool, true, false, List, [], ◌∷◌, ◌++◌, length, drop,
  if◌then◌else◌, Result, ok, trap, Trap, ◌>>=◌, access,
}
use arduino_spider_l3s_libra.Stream.{store_bytes, stream_to_uint8, stream_to_uint16}
use arduino_spider_l3s_libra.Spi.Frame.{magic_number, last_byte}

-- `ulSpiState`
pub data SpiState : Type 0 where
  powerup initialized idle write_irq write_first_portion write_eot : SpiState
  read_irq read_first_portion read_eot : SpiState

abbrev pub is_idle : SpiState → Bool
is_idle idle = true
is_idle powerup = false
is_idle initialized = false
is_idle write_irq = false
is_idle write_first_portion = false
is_idle write_eot = false
is_idle read_irq = false
is_idle read_first_portion = false
is_idle read_eot = false

-- `enabled`, `process` and `missed` are the bits of WLAN_INT_STATUE_REG; `selected` is the CS pin, low;
-- `packet` is `pTxPacket`, `usTxPacketLength` bytes of it; `rx` is `wlan_rx_buffer`. `sent` are the bytes
-- that `SpiWriteDataSynchronous` put out, `received` the packets that came in, the latest last.
pub record Link : Type 0 where
  pub spi_state : SpiState
  pub enabled : Bool
  pub process : Bool
  pub missed : Bool
  pub selected : Bool
  pub packet : List ℕ
  pub rx : List ℕ
  pub sent : List ℕ
  pub received : List (List ℕ)

abbrev pub headers_size_evnt : ℕ
headers_size_evnt = 10

-- Byte `i` that the device clocks out in one transaction is `incoming i`.
abbrev pub clocked : (ℕ → ℕ) → ℕ → ℕ → List ℕ
clocked incoming from zero = []
clocked incoming from (suc n) = incoming from ∷ clocked incoming (from + 1) n

-- `SpiReadDataSynchronous(evnt_buff + from, size)`
unfoldable pub spi_read_data_synchronous : (ℕ → ℕ) → ℕ → ℕ → Link → Result Link
spi_read_data_synchronous incoming from size l = do
  rx ← store_bytes l.rx from (clocked incoming from size)
  ok (record l { rx = rx })

unfoldable pub spi_read_header : (ℕ → ℕ) → Link → Result Link
spi_read_header incoming l = spi_read_data_synchronous incoming 0 headers_size_evnt l

-- `data_to_recv` of a data packet whose header says `len`: what makes the total odd.
abbrev pub rest_of_data : ℕ → ℕ
rest_of_data len = if (headers_size_evnt + len) % 2 == 0 then len + 1 else len

-- `data_to_recv` of an event whose header says `len`: one less, which for 0 is -1, and what makes the
-- total even.
abbrev pub rest_of_event : ℕ → ℕ
rest_of_event zero = 0
rest_of_event (suc n) = if (headers_size_evnt + n) % 2 == 1 then n + 1 else n

-- `switch(type)`
unfoldable pub read_by_type : ℕ → (ℕ → ℕ) → Link → Result Link
read_by_type type incoming l = elim (type == 0x02) [
  | true ↦ do
    len ← stream_to_uint16 l.rx 8
    spi_read_data_synchronous incoming headers_size_evnt (rest_of_data len) l
  | false ↦ elim (type == 0x04) [
    | true ↦ do
      len ← stream_to_uint8 l.rx 8
      m ← spi_read_data_synchronous incoming headers_size_evnt (rest_of_event len) l
      ok (record m { spi_state = SpiState.read_eot })
    | false ↦ ok l
  ]
]

unfoldable pub spi_read_data_cont : (ℕ → ℕ) → Link → Result Link
spi_read_data_cont incoming l = do type ← stream_to_uint8 l.rx 5; read_by_type type incoming l

-- `SpiTriggerRxProcessing` up to the call of the SPIRxHandler.
unfoldable pub hand_over : Link → Result Link
hand_over l = do
  mark ← access (last_byte l.rx)
  elim (mark == magic_number) [
    | true ↦ ok (record l {
      enabled = false;
      selected = false;
      spi_state = SpiState.idle;
      received = l.received ++ (drop 5 l.rx ∷ []);
    })
    | false ↦ trap Trap.hang
  ]

-- A reception from the header to the call of the SPIRxHandler.
unfoldable pub receive : (ℕ → ℕ) → Link → Result Link
receive incoming l = do
  h ← spi_read_header incoming l
  m ← spi_read_data_cont incoming (record h { spi_state = SpiState.read_eot })
  hand_over m

-- The SPIRxHandler, called in the interrupt. In `SpiResumeSpi`, WLAN_INT_PROCESS being set,
-- `WlanInterruptEnable` does not call the handler for an interrupt that was missed.
unfoldable pub spi_rx_handler : (List ℕ → Bool) → Link → Link
spi_rx_handler resumes l = elim (resumes (drop 5 l.rx)) [
  | true ↦ record l { enabled = true; missed = false }
  | false ↦ l
]

unfoldable pub spi_trigger_rx_processing : (List ℕ → Bool) → Link → Result Link
spi_trigger_rx_processing resumes l = do m ← hand_over l; ok (spi_rx_handler resumes m)

unfoldable pub ssi_cont_read_operation : (List ℕ → Bool) → (ℕ → ℕ) → Link → Result Link
ssi_cont_read_operation resumes incoming l = do
  m ← spi_read_data_cont incoming l
  spi_trigger_rx_processing resumes m

-- `SpiWriteDataSynchronous(pTxPacket, usTxPacketLength)`, the state IDLE, CS high.
abbrev pub transfer_packet : Link → Link
transfer_packet l = record l {
  sent = l.sent ++ l.packet;
  spi_state = SpiState.idle;
  selected = false;
}

-- What WLAN_IRQ_Handler does in the state it finds.
unfoldable pub on_irq : SpiState → (List ℕ → Bool) → (ℕ → ℕ) → Link → Result Link
on_irq powerup resumes incoming l = ok (record l { spi_state = SpiState.initialized })
on_irq idle resumes incoming l = do
  m ← spi_read_header incoming (record l { spi_state = SpiState.read_irq; selected = true })
  ssi_cont_read_operation resumes incoming (record m { spi_state = SpiState.read_eot })
on_irq write_irq resumes incoming l = ok (transfer_packet l)
on_irq initialized resumes incoming l = ok l
on_irq write_first_portion resumes incoming l = ok l
on_irq write_eot resumes incoming l = ok l
on_irq read_irq resumes incoming l = ok l
on_irq read_first_portion resumes incoming l = ok l
on_irq read_eot resumes incoming l = ok l

unfoldable pub wlan_irq_handler : (List ℕ → Bool) → (ℕ → ℕ) → Link → Result Link
wlan_irq_handler resumes incoming l = elim (l.enabled) [
  | false ↦ ok (record l { missed = true })
  | true ↦ do
    m ← on_irq l.spi_state resumes incoming (record l { process = true })
    ok (record m { process = false })
]

-- `WlanInterruptEnable` after it has set the enable bit, called by the program with no interrupt coming
-- in meanwhile; `low` is its reading of the IRQ pin. Spi.Link.Write has it step by step.
unfoldable pub recall_missed : Bool → (List ℕ → Bool) → (ℕ → ℕ) → Link → Result Link
recall_missed low resumes incoming l = elim (l.missed) [
  | false ↦ ok l
  | true ↦ elim (low && not l.process) [
    | false ↦ ok (record l { missed = false })
    | true ↦ do m ← wlan_irq_handler resumes incoming l; ok (record m { missed = false })
  ]
]

unfoldable pub wlan_interrupt_enable : Bool → (List ℕ → Bool) → (ℕ → ℕ) → Link → Result Link
wlan_interrupt_enable low resumes incoming l =
    recall_missed low resumes incoming (record l { enabled = true })

abbrev pub wlan_interrupt_disable : Link → Link
wlan_interrupt_disable l = record l { enabled = false }
