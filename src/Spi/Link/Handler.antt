-- ===== src/Spi/Link/Handler.antt =====
-- The handler of the IRQ pin on the idle link: what it receives, and the packet that is too long.
use arduino_spider_l3s_libra.Base.{
  ℕ, ◌+◌, ◌≤◌, ◌<◌, Bool, Bool-cases, inl, inr, not, ◌&&◌, true, false, List, [], ◌∷◌, ◌++◌, length,
  drop, ok, trap, Trap, ◌>>=◌, ◌≡◌, refl, ap, ◌∙◌, arith, Result,
}
use arduino_spider_l3s_libra.Spi.Frame.Laws.{HasMagic, last_byte-splice}
use arduino_spider_l3s_libra.Spi.Link.{
  SpiState, idle, Link, clocked, spi_read_header, spi_read_data_cont, hand_over, spi_rx_handler,
  spi_trigger_rx_processing, ssi_cont_read_operation, on_irq, wlan_irq_handler,
}
use arduino_spider_l3s_libra.Spi.Link.Reception.{
  rest_of, IsKnown, filled, length-clocked, spi_read_data_synchronous-splice, headed,
  spi_read_data_cont-filled, spi_read_data_cont-overrun,
}

abbrev unprocess : Link → Result Link
unprocess m = ok (record m { process = false })

-- The link after a packet, `rx` being what the buffer then holds and `resumed` whether the upper layer
-- resumes the SPI.
abbrev pub received_link : Bool → List ℕ → Link → Link
received_link resumed rx l = record l {
  spi_state = SpiState.idle;
  enabled = resumed;
  missed = not resumed && l.missed;
  process = false;
  selected = false;
  rx = rx;
  received = l.received ++ (drop 5 rx ∷ []);
}

hand_over-HasMagic :
    (l : Link)
    → HasMagic l.rx
    → hand_over l
      ≡ ok (record l {
        enabled = false;
        selected = false;
        spi_state = SpiState.idle;
        received = l.received ++ (drop 5 l.rx ∷ []);
      })
unfolding hand_over
hand_over-HasMagic l h = rw (h, hand_over) refl

spi_trigger_rx_processing-HasMagic :
    (resumes : List ℕ → Bool) (l : Link)
    → HasMagic l.rx
    → (spi_trigger_rx_processing resumes l >>= unprocess)
      ≡ ok (received_link (resumes (drop 5 l.rx)) l.rx l)
unfolding spi_trigger_rx_processing spi_rx_handler
spi_trigger_rx_processing-HasMagic resumes l h = elim (Bool-cases (resumes (drop 5 l.rx))) [
  | inl e ↦ rw (hand_over-HasMagic l h) (rw (e, spi_rx_handler) refl)
  | inr e ↦ rw (hand_over-HasMagic l h) (rw (e, spi_rx_handler) refl)
]

-- An interrupt on the idle link reads the header, the rest, and hands the packet over.
wlan_irq_handler-headed :
    (resumes : List ℕ → Bool) (incoming : ℕ → ℕ) (l : Link) (room : 10 ≤ length l.rx)
    → l.enabled ≡ true
    → l.spi_state ≡ idle
    → wlan_irq_handler resumes incoming l ≡ (
        (spi_read_data_cont incoming (headed incoming l room) >>= spi_trigger_rx_processing resumes)
        >>= unprocess)
unfolding wlan_irq_handler on_irq spi_read_header ssi_cont_read_operation
wlan_irq_handler-headed resumes incoming l room en idl =
    ap handled en
    ∙ (ap (λ st. on_irq st resumes incoming started >>= unprocess) idl
        ∙ ap
            (λ r.
              (r >>= λ m.
              ssi_cont_read_operation resumes incoming (record m { spi_state = SpiState.read_eot }))
              >>= unprocess)
            (spi_read_data_synchronous-splice incoming 0 10
              (record started { spi_state = SpiState.read_irq; selected = true }) room))
  where
    started : Link
    started = record l { process = true }

    handled : Bool → Result Link
    handled b = elim b [
      | false ↦ ok (record l { missed = true })
      | true ↦ on_irq l.spi_state resumes incoming started >>= unprocess
    ]

-- An interrupt on the idle link, interrupts being enabled, receives a data packet or an event that leaves
-- the last byte of the receive buffer alone: the buffer holds what the device clocked out, as many bytes
-- as the packet's own header says, the upper layer gets it from the sixth byte on, the link is idle
-- again; interrupts are enabled, and none is missed, if the upper layer resumes the SPI, and else they
-- are disabled.
pub wlan_irq_handler-received :
    (resumes : List ℕ → Bool) (incoming : ℕ → ℕ) (l : Link)
    → l.enabled ≡ true
    → l.spi_state ≡ idle
    → HasMagic l.rx
    → IsKnown incoming
    → 10 + rest_of incoming < length l.rx
    → wlan_irq_handler resumes incoming l
      ≡ ok (
          received_link
            (resumes (drop 5 (filled incoming (10 + rest_of incoming) l.rx)))
            (filled incoming (10 + rest_of incoming) l.rx)
            l)
wlan_irq_handler-received resumes incoming l en idl magic known room =
    wlan_irq_handler-headed resumes incoming l (omega arith) en idl
    ∙ (ap (λ r. (r >>= spi_trigger_rx_processing resumes) >>= unprocess)
          (spi_read_data_cont-filled incoming l (omega arith) known (omega arith))
        ∙ spi_trigger_rx_processing-HasMagic resumes full marked)
  where
    full : Link
    full = record (headed incoming l (omega arith)) {
      rx = filled incoming (10 + rest_of incoming) l.rx;
    }

    marked : HasMagic full.rx
    marked =
        last_byte-splice l.rx 0 (clocked incoming 0 (10 + rest_of incoming))
          (omega (arith, length-clocked incoming 0 (10 + rest_of incoming)))
        ∙ magic

-- A data packet or an event that is longer than the receive buffer is written past the end of the buffer
-- before the overrun mark is looked at.
pub wlan_irq_handler-overrun :
    (resumes : List ℕ → Bool) (incoming : ℕ → ℕ) (l : Link)
    → l.enabled ≡ true
    → l.spi_state ≡ idle
    → IsKnown incoming
    → 10 ≤ length l.rx
    → length l.rx < 10 + rest_of incoming
    → wlan_irq_handler resumes incoming l ≡ trap Trap.out_of_bounds
wlan_irq_handler-overrun resumes incoming l en idl known room long =
    wlan_irq_handler-headed resumes incoming l room en idl
    ∙ ap (λ r. (r >>= spi_trigger_rx_processing resumes) >>= unprocess)
        (spi_read_data_cont-overrun incoming l room known long)
