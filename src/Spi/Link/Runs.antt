-- ===== src/Spi/Link/Runs.antt =====
-- The runs of `SpiWrite` on an idle link, from its call to its return.
use arduino_spider_l3s_libra.Base.{
  ℕ, true, false, List, [], ◌∷◌, ◌++◌, append-nil, append_assoc, ok, ◌≡◌, refl, sym, ap, ◌∙◌, ap₂,
}
use mathlib.Core.Path.{subst}
use arduino_spider_l3s_libra.Spi.Link.{
  idle, write_irq, Link, wlan_interrupt_disable, transfer_packet,
}
use arduino_spider_l3s_libra.Spi.Link.Write.{
  Control, claim, recall, check, transfer, done, System, write_step, Step, program, interrupt,
  Reach, called, later,
}
use arduino_spider_l3s_libra.Spi.Link.Interrupt.{wlan_irq_handler-write_irq}
use arduino_spider_l3s_libra.Spi.Link.Sending.{Inv, IsResent}
use arduino_spider_l3s_libra.Spi.Link.Steps.{Reach-Inv}

Inv-at :
    (packet before : List ℕ) (s : System) (c : Control)
    → s.control ≡ c
    → Inv packet before s.control s.link
    → Inv packet before c s.link
Inv-at packet before s c e h = subst (λ k. Inv packet before k s.link) e h

-- A `SpiWrite` that is called on an idle link and returns leaves it idle. Between any two steps of it,
-- the bytes of its transfers among them, interrupts may come in, and the IRQ pin may read either way.
-- Then the bytes that were put out are the packet, once, or with the whole packet a second time within
-- or beside it, in one piece, and in either case perhaps the packet once more behind; and no others.
pub Reach-sent :
    (packet : List ℕ) (l : Link) (s : System)
    → l.spi_state ≡ idle
    → Reach packet l s
    → s.control ≡ Control.done
    → (s.link.spi_state ≡ idle) × IsResent l.sent packet s.link.sent
Reach-sent packet l s h r e =
    let a = Inv-at packet l.sent s done e (Reach-Inv packet l.sent (h, refl) r) in (a.0, a.2)

abbrev at : Control → Link → System
at c k = record { control = c; link = k }

module _ (packet : List ℕ) (l : Link) where
  step :
      {s t : System}
      → write_step packet true (λ p. false) (λ i. 0) s.control s.link ≡ ok t
      → Step packet s t
  step e = program true (λ p. false) (λ i. 0) e

  -- The program clocks out the bytes `xs` of what is left.
  bytes :
      (xs rest : List ℕ) (k : Link)
      → Reach packet l (at (transfer (xs ++ rest)) k)
      → (m : Link) × Reach packet l (at (transfer rest) m)
        × (m.spi_state ≡ k.spi_state)
        × (m.packet ≡ k.packet)
        × (m.enabled ≡ k.enabled)
        × (m.sent ≡ k.sent ++ xs)
  unfolding write_step
  bytes [] rest k r = (k, r, refl, refl, refl, sym (append-nil k.sent))
  bytes (x ∷ xs) rest k r =
      let (m, q, st, p, en, e) =
        bytes xs rest (record k { sent = k.sent ++ (x ∷ []) }) (later r (step refl)) in
      (m, q, st, p, en, e ∙ append_assoc k.sent (x ∷ []) xs)

  quiet : Link
  quiet = wlan_interrupt_disable l

  abbrev ready : Link
  ready = record l { spi_state = write_irq; packet = packet; selected = true; enabled = true }

  -- The way to the transfer that no interrupt has come before.
  to_transfer : l.spi_state ≡ idle → l.missed ≡ false → Reach packet l (at (transfer packet) ready)
  unfolding write_step quiet
  to_transfer h e = later checked (step refl)
    where
      claimed : Reach packet l (at claim quiet)
      claimed = later (later called (step refl)) (step (simp (h, write_step) refl))

      enabled : Reach packet l (at (recall 0) ready)
      enabled = later (later claimed (step refl)) (step refl)

      none_missed :
          write_step packet true (λ p. false) (λ i. 0) (recall 0) ready ≡ ok (at check ready)
      none_missed = simp (e, write_step) refl

      checked : Reach packet l (at check ready)
      checked = later enabled (step none_missed)

-- Called on an idle link with no interrupt missed, with the IRQ pin low, `SpiWrite` puts the whole of its
-- packet out between any first bytes of the packet and the others, when the interrupt comes in after
-- those first bytes.
pub sent_inside :
    (a c : List ℕ) (l : Link)
    → l.spi_state ≡ idle
    → l.missed ≡ false
    → (t : System) × Reach (a ++ c) l t
      × (t.control ≡ Control.done)
      × (t.link.sent ≡ l.sent ++ (a ++ ((a ++ c) ++ c)))
unfolding write_step
sent_inside a c l h e =
    let (m, r, st, p, en, f) =
      bytes (a ++ c) l a c (ready (a ++ c) l) (to_transfer (a ++ c) l h e) in
    let sent = record (transfer_packet m) { process = false } in
    let (k, q, st2, p2, en2, f2) = bytes (a ++ c) l c [] sent (
      subst (λ rest. Reach (a ++ c) l (at (transfer rest) sent)) (sym (append-nil c))
        (later r (
          interrupt (λ x. false) (λ i. 0)
            (wlan_irq_handler-write_irq (λ x. false) (λ i. 0) m st en)))) in
    (
      at done (record k { spi_state = idle; selected = false }),
      later (later (later q (step (a ++ c) l refl)) (step (a ++ c) l refl)) (step (a ++ c) l refl),
      refl,
      f2
          ∙ (ap (λ w. w ++ c) (ap₂ (◌++◌) f p)
              ∙ (append_assoc (l.sent ++ a) (a ++ c) c ∙ append_assoc l.sent a ((a ++ c) ++ c))),
    )
