-- ===== src/Spi/Link/Open.antt =====
-- `SpiOpen`, `SpiFirstWrite`, `SpiClose`: the link from the power-up to the first packet.
use arduino_spider_l3s_libra.Base.{
  ℕ, zero, suc, Bool, true, false, List, [], ◌∷◌, ◌++◌, Result, ok, ◌>>=◌, ◌≡◌, refl,
}
use arduino_spider_l3s_libra.Spi.Frame.{magic_number, last_byte}
use arduino_spider_l3s_libra.Spi.Frame.Laws.{HasMagic}
use arduino_spider_l3s_libra.Spi.Link.{
  SpiState, initialized, idle, Link, wlan_irq_handler, on_irq, recall_missed, wlan_interrupt_enable,
  wlan_interrupt_disable,
}

-- A buffer of `size` + 1 bytes after the memset, with the mark at its end.
abbrev pub marked_buffer : ℕ → List ℕ
marked_buffer zero = magic_number ∷ []
marked_buffer (suc n) = 0 ∷ marked_buffer n

-- `SpiOpen`; the receive buffer has `size` + 1 bytes.
unfoldable pub spi_open : ℕ → Bool → (List ℕ → Bool) → (ℕ → ℕ) → Link → Result Link
spi_open size low resumes incoming l =
    wlan_interrupt_enable low resumes incoming
      (record l { spi_state = SpiState.powerup; packet = []; rx = marked_buffer size })

-- `SpiFirstWrite`: the four first bytes and the others, which the device takes as one packet.
abbrev pub spi_first_write : List ℕ → Link → Link
spi_first_write packet l = record l {
  sent = l.sent ++ packet;
  spi_state = SpiState.idle;
  selected = false;
}

-- `SpiClose`; that it clears `pRxPacket` is left out, since nothing is received while interrupts are off.
abbrev pub spi_close : Link → Link
spi_close l = wlan_interrupt_disable l

-- `SpiPauseSpi` and `SpiResumeSpi`
abbrev pub spi_pause_spi : Link → Link
spi_pause_spi l = wlan_interrupt_disable l

abbrev pub spi_resume_spi : Bool → (List ℕ → Bool) → (ℕ → ℕ) → Link → Result Link
spi_resume_spi low resumes incoming l = wlan_interrupt_enable low resumes incoming l

marked_buffer-HasMagic : (size : ℕ) → HasMagic (marked_buffer size)
unfolding last_byte
marked_buffer-HasMagic zero = refl
marked_buffer-HasMagic (suc zero) = refl
marked_buffer-HasMagic (suc (suc n)) = marked_buffer-HasMagic (suc n)

-- After `SpiOpen` on a link that has missed no interrupt, the first interrupt initializes the link, and
-- the first packet, sent then, leaves it idle, with interrupts enabled and the overrun mark in place.
pub spi_open-ready :
    (size : ℕ) (low : Bool) (resumes : List ℕ → Bool) (incoming : ℕ → ℕ) (packet : List ℕ)
    (l : Link)
    → l.missed ≡ false
    → (m : Link) × ((spi_open size low resumes incoming l >>= wlan_irq_handler resumes incoming)
        ≡ ok m)
      × (m.spi_state ≡ initialized)
      × ((spi_first_write packet m).spi_state ≡ idle)
      × (m.enabled ≡ true)
      × HasMagic m.rx
      × ((spi_first_write packet m).sent ≡ l.sent ++ packet)
unfolding spi_open wlan_interrupt_enable recall_missed wlan_irq_handler on_irq
spi_open-ready size low resumes incoming packet l h = (
  record l {
    spi_state = initialized;
    packet = [];
    rx = marked_buffer size;
    enabled = true;
    process = false;
  },
  simp (h, recall_missed) refl,
  refl,
  refl,
  refl,
  marked_buffer-HasMagic size,
  refl,
)
