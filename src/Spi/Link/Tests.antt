-- ===== src/Spi/Link/Tests.antt =====
-- Runs of the definitions of Spi.Link at concrete inputs.
use arduino_spider_l3s_libra.Base.{
  ◌>>=◌, ℕ, Bool, true, false, List, [], ◌∷◌, get_or, ok, trap, Trap, ◌≡◌, refl, inr, arith,
}
use arduino_spider_l3s_libra.Spi.Frame.{last_byte}
use arduino_spider_l3s_libra.Spi.Link.{SpiState, Link, wlan_irq_handler, on_irq}
use arduino_spider_l3s_libra.Spi.Link.Write.{
  Control, System, write_step, Step, program, interrupt, Reach, called, later,
}
use arduino_spider_l3s_libra.Spi.Link.Runs.{Reach-sent, sent_inside}
use arduino_spider_l3s_libra.Spi.Link.Sending.{IsResent}
use arduino_spider_l3s_libra.Spi.Link.Open.{spi_open, spi_first_write, spi_open-ready}
use arduino_spider_l3s_libra.Spi.Frame.Laws.{HasMagic}
use arduino_spider_l3s_libra.Spi.Link.Reception.{filled}
use arduino_spider_l3s_libra.Spi.Link.Handler.{
  received_link, wlan_irq_handler-received, wlan_irq_handler-overrun,
}

-- A receive buffer of 16 bytes, and two packets of the device: events of 5 and of 9 bytes after the
-- header.
abbrev idle_link : Link
idle_link = record {
  spi_state = SpiState.idle;
  enabled = true;
  process = false;
  missed = false;
  selected = false;
  packet = [];
  rx = 0 ∷ 0 ∷ 0 ∷ 0 ∷ 0 ∷ 0 ∷ 0 ∷ 0 ∷ 0 ∷ 0 ∷ 0 ∷ 0 ∷ 0 ∷ 0 ∷ 0 ∷ 0xde ∷ [];
  sent = [];
  received = [];
}

abbrev short_event : ℕ → ℕ
short_event i = get_or (2 ∷ 0 ∷ 0 ∷ 0 ∷ 10 ∷ 4 ∷ 0x0f ∷ 0x10 ∷ 4 ∷ 0 ∷ 7 ∷ 8 ∷ 9 ∷ 1 ∷ []) i 0

abbrev long_event : ℕ → ℕ
long_event i = get_or (2 ∷ 0 ∷ 0 ∷ 0 ∷ 14 ∷ 4 ∷ 0x0f ∷ 0x10 ∷ 9 ∷ 0 ∷ 7 ∷ 8 ∷ 9 ∷ 1 ∷ []) i 0

abbrev packet : List ℕ
packet = 1 ∷ 0 ∷ 5 ∷ 0 ∷ 0 ∷ 1 ∷ []

abbrev stepped : (c : Control) → SpiState → Bool → Bool → List ℕ → List ℕ → System
stepped c state enabled selected p sent = record {
  control = c;
  link = record idle_link {
    spi_state = state;
    enabled = enabled;
    selected = selected;
    packet = p;
    sent = sent;
  };
}

-- The IRQ comes in between the enable bit and the reading of the pin.
until_done : Reach packet idle_link (stepped Control.done SpiState.idle true false packet packet)
unfolding write_step wlan_irq_handler on_irq
until_done =
    later
      (later
        (later
          (later (later (later (later (later called (go refl)) (go refl)) (go refl)) (go refl))
            (interrupt (λ p. true) short_event refl))
          (go refl))
        (go refl))
      (go refl)
  where
    go :
        {s t : System}
        → write_step packet false (λ p. true) short_event s.control s.link ≡ ok t
        → Step packet s t
    go e = program false (λ p. true) short_event e

Reach-sent_example : (SpiState.idle ≡ SpiState.idle) × IsResent [] packet packet
Reach-sent_example =
    Reach-sent packet idle_link (stepped Control.done SpiState.idle true false packet packet) refl
      until_done refl

-- The interrupt comes in after two bytes.
sent_inside_example :
    (t : System) × Reach packet idle_link t
    × (t.control ≡ Control.done)
    × (t.link.sent ≡ 1 ∷ 0 ∷ 1 ∷ 0 ∷ 5 ∷ 0 ∷ 0 ∷ 1 ∷ 5 ∷ 0 ∷ 0 ∷ 1 ∷ [])
sent_inside_example = sent_inside (1 ∷ 0 ∷ []) (5 ∷ 0 ∷ 0 ∷ 1 ∷ []) idle_link refl refl

wlan_irq_handler-received_example :
    wlan_irq_handler (λ p. true) short_event idle_link
    ≡ ok (received_link true (filled short_event 14 idle_link.rx) idle_link)
wlan_irq_handler-received_example =
    wlan_irq_handler-received (λ p. true) short_event idle_link refl refl (unfold last_byte in refl)
      (inr refl) (omega arith)

wlan_irq_handler-overrun_example :
    wlan_irq_handler (λ p. true) long_event idle_link ≡ trap Trap.out_of_bounds
wlan_irq_handler-overrun_example =
    wlan_irq_handler-overrun (λ p. true) long_event idle_link refl refl (inr refl) (omega arith)
      (omega arith)

spi_open-ready_example :
    (m : Link) × ((spi_open 15 true (λ p. true) short_event idle_link
        >>= wlan_irq_handler (λ p. true) short_event)
      ≡ ok m)
    × (m.spi_state ≡ SpiState.initialized)
    × ((spi_first_write packet m).spi_state ≡ SpiState.idle)
    × (m.enabled ≡ true)
    × HasMagic m.rx
    × ((spi_first_write packet m).sent ≡ packet)
spi_open-ready_example = spi_open-ready 15 true (λ p. true) short_event packet idle_link refl
