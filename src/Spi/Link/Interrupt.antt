-- ===== src/Spi/Link/Interrupt.antt =====
-- What the handler of the IRQ pin does to the link in the states that matter.
use arduino_spider_l3s_libra.Base.{
  ℕ, Bool, drop, true, false, List, ◌++◌, ok, ap₂, ◌==◌, ◌≡◌, refl, sym, ◌∙◌, inl, inr, Bool-cases,
  IfReturns, IfReturns->>=, IfReturns-any, IfReturns-map, access,
}
use mathlib.Core.Path.{subst}
use arduino_spider_l3s_libra.Stream.{store_bytes, stream_to_uint8, stream_to_uint16}
use arduino_spider_l3s_libra.Spi.Frame.{magic_number, last_byte}
use arduino_spider_l3s_libra.Spi.Link.{
  SpiState, idle, write_irq, Link, clocked, rest_of_data, rest_of_event, spi_read_data_synchronous,
  spi_read_header, spi_read_data_cont, read_by_type, hand_over, spi_rx_handler, receive,
  spi_trigger_rx_processing, ssi_cont_read_operation, on_irq, wlan_irq_handler, transfer_packet,
}

-- What a reception leaves as it was.
abbrev pub IsKept : Link → Link → Type 0
IsKept l m = (m.packet ≡ l.packet) × (m.sent ≡ l.sent)

spi_read_data_synchronous-IsKept :
    (incoming : ℕ → ℕ) (from size : ℕ) (l : Link)
    → IfReturns (IsKept l) (spi_read_data_synchronous incoming from size l)
unfolding spi_read_data_synchronous
spi_read_data_synchronous-IsKept incoming from size l =
    IfReturns->>= _ _ (store_bytes l.rx from (clocked incoming from size)) _ (IfReturns-any _)
      (λ b p. (refl, refl))

spi_read_data_cont-IsKept :
    (incoming : ℕ → ℕ) (l : Link) → IfReturns (IsKept l) (spi_read_data_cont incoming l)
unfolding spi_read_data_cont read_by_type
spi_read_data_cont-IsKept incoming l =
    IfReturns->>= _ _ (stream_to_uint8 l.rx 5) _ (IfReturns-any _) (λ type p.
      elim (Bool-cases (type == 0x02)) [
        | inl e ↦
            rw (e, read_by_type)
              (IfReturns->>= _ _ (stream_to_uint16 l.rx 8) _ (IfReturns-any _)
                (λ len q. spi_read_data_synchronous-IsKept incoming 10 (rest_of_data len) l))
        | inr e ↦
            rw (e, read_by_type)
              (elim (Bool-cases (type == 0x04)) [
                | inl f ↦
                    rw (f, read_by_type)
                      (IfReturns->>= _ _ (stream_to_uint8 l.rx 8) _ (IfReturns-any _) (λ len q.
                        IfReturns->>= (IsKept l) _
                          (spi_read_data_synchronous incoming 10 (rest_of_event len) l) _
                          (spi_read_data_synchronous-IsKept incoming 10 (rest_of_event len) l)
                          (λ m k. k)))
                | inr f ↦ rw (f, read_by_type) (refl, refl)
              ])
      ])

pub hand_over-idle : (l : Link) → IfReturns (λ m. (m.spi_state ≡ idle) × IsKept l m) (hand_over l)
unfolding hand_over
hand_over-idle l = IfReturns->>= _ _ (access (last_byte l.rx)) _ (IfReturns-any _) (λ mark p.
    elim (Bool-cases (mark == magic_number)) [
      | inl e ↦ rw e (refl, (refl, refl))
      | inr e ↦ rw e tt
    ])

spi_rx_handler-IsKept :
    (resumes : List ℕ → Bool) (l : Link)
    → (((spi_rx_handler resumes l).spi_state ≡ l.spi_state) × IsKept l (spi_rx_handler resumes l))
unfolding spi_rx_handler
spi_rx_handler-IsKept resumes l = elim (Bool-cases (resumes (drop 5 l.rx))) [
  | inl e ↦ rw (e, spi_rx_handler) (refl, (refl, refl))
  | inr e ↦ rw (e, spi_rx_handler) (refl, (refl, refl))
]

IsKept-trans : (k l m : Link) → IsKept k l → IsKept l m → IsKept k m
IsKept-trans k l m p q = (q.0 ∙ p.0, q.1 ∙ p.1)

spi_trigger_rx_processing-idle :
    (resumes : List ℕ → Bool) (l : Link)
    → IfReturns (λ m. (m.spi_state ≡ idle) × IsKept l m) (spi_trigger_rx_processing resumes l)
unfolding spi_trigger_rx_processing
spi_trigger_rx_processing-idle resumes l =
    IfReturns->>= _ _ (hand_over l) _ (hand_over-idle l) (λ m q.
      let k = spi_rx_handler-IsKept resumes m in
      (k.0 ∙ q.0, IsKept-trans l m (spi_rx_handler resumes m) q.1 k.1))

ssi_cont_read_operation-idle :
    (resumes : List ℕ → Bool) (incoming : ℕ → ℕ) (l : Link)
    → IfReturns
        (λ m. (m.spi_state ≡ idle) × IsKept l m)
        (ssi_cont_read_operation resumes incoming l)
unfolding ssi_cont_read_operation
ssi_cont_read_operation-idle resumes incoming l =
    IfReturns->>= (IsKept l) _ (spi_read_data_cont incoming l) _
      (spi_read_data_cont-IsKept incoming l)
      (λ k p.
        IfReturns-map _ _ (spi_trigger_rx_processing resumes k)
          (spi_trigger_rx_processing-idle resumes k) (λ m q. (q.0, IsKept-trans l k m p q.1)))

on_irq-idle :
    (resumes : List ℕ → Bool) (incoming : ℕ → ℕ) (l : Link)
    → IfReturns (λ m. (m.spi_state ≡ idle) × IsKept l m) (on_irq idle resumes incoming l)
unfolding on_irq spi_read_header
on_irq-idle resumes incoming l =
    IfReturns->>= (IsKept l) _
      (spi_read_data_synchronous incoming 0 10
        (record l { spi_state = SpiState.read_irq; selected = true }))
      _
      (spi_read_data_synchronous-IsKept incoming 0 10
        (record l { spi_state = SpiState.read_irq; selected = true }))
      (λ k p.
        IfReturns-map _ _
          (ssi_cont_read_operation resumes incoming (record k { spi_state = SpiState.read_eot }))
          (ssi_cont_read_operation-idle resumes incoming
            (record k { spi_state = SpiState.read_eot }))
          (λ m q. (q.0, IsKept-trans l k m p q.1)))

-- An interrupt while nothing is to be sent receives a packet, and leaves the link idle.
pub wlan_irq_handler-idle :
    (resumes : List ℕ → Bool) (incoming : ℕ → ℕ) (l : Link)
    → l.spi_state ≡ idle
    → IfReturns (λ m. (m.spi_state ≡ idle) × IsKept l m) (wlan_irq_handler resumes incoming l)
unfolding wlan_irq_handler
wlan_irq_handler-idle resumes incoming l h = elim (Bool-cases (l.enabled)) [
  | inl e ↦
      simp (e, wlan_irq_handler)
        (IfReturns->>= (λ m. (m.spi_state ≡ idle) × IsKept l m) _
          (on_irq l.spi_state resumes incoming (record l { enabled = true; process = true })) _
          (subst
            (λ st.
              IfReturns (λ m. (m.spi_state ≡ idle) × IsKept l m)
                (on_irq st resumes incoming (record l { enabled = true; process = true })))
            (sym h) (on_irq-idle resumes incoming (record l { enabled = true; process = true })))
          (λ m q. q))
  | inr e ↦ rw e (h, (refl, refl))
]

-- An interrupt while a packet is to be sent sends it.
pub wlan_irq_handler-write_irq :
    (resumes : List ℕ → Bool) (incoming : ℕ → ℕ) (l : Link)
    → l.spi_state ≡ write_irq
    → l.enabled ≡ true
    → wlan_irq_handler resumes incoming l ≡ ok (record (transfer_packet l) { process = false })
unfolding wlan_irq_handler on_irq
wlan_irq_handler-write_irq resumes incoming l h e = rw (e, h) refl

-- An interrupt while a packet is read does nothing to what is sent.
pub wlan_irq_handler-read_irq :
    (resumes : List ℕ → Bool) (incoming : ℕ → ℕ) (l : Link)
    → l.spi_state ≡ SpiState.read_irq
    → IfReturns
        (λ m. (m.spi_state ≡ SpiState.read_irq) × IsKept l m)
        (wlan_irq_handler resumes incoming l)
unfolding wlan_irq_handler on_irq
wlan_irq_handler-read_irq resumes incoming l h = elim (Bool-cases (l.enabled)) [
  | inl e ↦ simp (e, h, wlan_irq_handler) (refl, (refl, refl))
  | inr e ↦ rw e (h, (refl, refl))
]

-- A reception leaves the link idle.
pub receive-idle :
    (incoming : ℕ → ℕ) (l : Link)
    → IfReturns (λ m. (m.spi_state ≡ idle) × IsKept l m) (receive incoming l)
unfolding receive spi_read_header
receive-idle incoming l =
    IfReturns->>= (IsKept l) _ (spi_read_data_synchronous incoming 0 10 l) _
      (spi_read_data_synchronous-IsKept incoming 0 10 l)
      (λ h p.
        let eot = record h { spi_state = SpiState.read_eot } in
        IfReturns->>= (IsKept eot) _ (spi_read_data_cont incoming eot) _
          (spi_read_data_cont-IsKept incoming eot)
          (λ k q.
            IfReturns-map _ _ (hand_over k) (hand_over-idle k)
              (λ m r. (r.0, IsKept-trans l h m p (IsKept-trans eot k m q r.1)))))

-- The link while `packet` waits to be sent, `before` being what was sent already.
abbrev pub IsWaiting : List ℕ → List ℕ → Link → Type 0
IsWaiting packet before l = (l.spi_state ≡ write_irq) × (l.packet ≡ packet) × (l.sent ≡ before)

-- The link with `packet` out of the program's hands, and something known of what was sent.
abbrev pub IsIdle : List ℕ → (List ℕ → Type 0) → Link → Type 0
IsIdle packet P l = (l.spi_state ≡ idle) × (l.packet ≡ packet) × P l.sent

pub handler-IsIdle :
    (packet : List ℕ) (P : List ℕ → Type 0) (resumes : List ℕ → Bool) (incoming : ℕ → ℕ) (l : Link)
    → IsIdle packet P l
    → IfReturns (IsIdle packet P) (wlan_irq_handler resumes incoming l)
handler-IsIdle packet P resumes incoming l h =
    IfReturns-map _ _ (wlan_irq_handler resumes incoming l)
      (wlan_irq_handler-idle resumes incoming l h.0)
      (λ m q. (q.0, q.1.0 ∙ h.1, subst P (sym q.1.1) h.2))

pub handler-IsWaiting :
    (packet : List ℕ) (xs : List ℕ) (resumes : List ℕ → Bool) (incoming : ℕ → ℕ) (l : Link)
    → IsWaiting packet xs l
    → l.enabled ≡ true
    → IfReturns (IsIdle packet (λ ys. ys ≡ xs ++ packet)) (wlan_irq_handler resumes incoming l)
handler-IsWaiting packet xs resumes incoming l h e =
    rw (wlan_irq_handler-write_irq resumes incoming l h.0 e) (refl, h.1, ap₂ (◌++◌) h.2 h.1)
