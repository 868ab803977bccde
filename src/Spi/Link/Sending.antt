-- ===== src/Spi/Link/Sending.antt =====
-- What `SpiWrite` has put on the bus at each of its points, wherever the interrupts come in.
use arduino_spider_l3s_libra.Base.{
  ℕ, Bool, true, List, [], ◌∷◌, ◌++◌, append-nil, append_assoc, ◌≡◌, sym, ap, ◌∙◌, ◌⊎◌, inl, inr,
  Bool-cases, IfReturns, IfReturns-map,
}
use mathlib.Core.Path.{subst}
use arduino_spider_l3s_libra.Spi.Link.{SpiState, idle, Link, wlan_irq_handler}
use arduino_spider_l3s_libra.Spi.Link.Write.{
  Control, start, wait_idle, claim, enable, recall, retest, handle, test_state, test_write,
  handler_transfer, handler_release, reception, deliver, handler_end, forget, check, transfer,
  release, wait_end, done,
}
use arduino_spider_l3s_libra.Spi.Link.Interrupt.{
  IsWaiting, IsIdle, wlan_irq_handler-idle, wlan_irq_handler-read_irq, handler-IsIdle,
  handler-IsWaiting,
}

-- `ys` is `before`, then `whole`, with `packet` put in between its first bytes and the others.
abbrev pub IsInside : List ℕ → List ℕ → List ℕ → List ℕ → Type 0
IsInside before packet whole ys =
    (a : List ℕ) × (c : List ℕ) × (a ++ c ≡ whole) × (ys ≡ before ++ (a ++ (packet ++ c)))

-- The packet went out once, or a second time within or beside the first.
abbrev pub IsSent : List ℕ → List ℕ → List ℕ → Type 0
IsSent before packet ys = (ys ≡ before ++ packet) ⊎ IsInside before packet packet ys

-- The same, or with the packet once more at the end.
abbrev pub IsResent : List ℕ → List ℕ → List ℕ → Type 0
IsResent before packet ys =
    IsSent before packet ys ⊎ ((xs : List ℕ) × IsSent before packet xs × (ys ≡ xs ++ packet))

pub IsInside-snoc :
    (before packet whole ys : List ℕ) (x : ℕ)
    → IsInside before packet whole ys
    → IsInside before packet (whole ++ (x ∷ [])) (ys ++ (x ∷ []))
IsInside-snoc before packet whole ys x (a, c, e, f) = (
  a,
  c ++ (x ∷ []),
  sym (append_assoc a c (x ∷ [])) ∙ ap (λ w. w ++ (x ∷ [])) e,
  ap (λ w. w ++ (x ∷ [])) f
      ∙ (append_assoc before (a ++ (packet ++ c)) (x ∷ [])
          ∙ ap (λ w. before ++ w)
              (append_assoc a (packet ++ c) (x ∷ [])
                ∙ ap (λ w. a ++ w) (append_assoc packet c (x ∷ [])))),
)

module _ (packet : List ℕ) (before : List ℕ) where
  -- The packet still waits, and an interrupt will send it.
  abbrev pub IsReady : List ℕ → Link → Type 0
  IsReady a l = IsWaiting packet (before ++ a) l × (l.enabled ≡ true)

  -- It waits, or it went out.
  abbrev pub IsPending : Link → Type 0
  IsPending l = IsReady [] l ⊎ IsIdle packet (IsSent before packet) l

  -- After the bytes `a` of a transfer that began while the packet waited.
  abbrev pub IsUnderWay : List ℕ → Link → Type 0
  IsUnderWay a l = IsReady a l ⊎ IsIdle packet (IsInside before packet a) l

  -- After the bytes `a` of a transfer that began when the packet was out.
  abbrev pub IsAgain : List ℕ → Link → Type 0
  IsAgain a l = IsIdle packet (λ ys. (xs : List ℕ) × IsSent before packet xs × (ys ≡ xs ++ a)) l

  abbrev pub IsQuiet : Link → Type 0
  IsQuiet l = (l.spi_state ≡ idle) × (l.sent ≡ before)

  abbrev pub IsReading : Link → Type 0
  IsReading l =
      (l.spi_state ≡ SpiState.read_irq) × (l.packet ≡ packet) × IsSent before packet l.sent

  -- What holds of the link at each point of `SpiWrite`.
  abbrev pub Inv : Control → Link → Type 0
  Inv start l = IsQuiet l
  Inv wait_idle l = IsQuiet l
  Inv claim l = IsQuiet l
  Inv enable l = IsWaiting packet before l ⊎ IsIdle packet (IsSent before packet) l
  Inv (recall n) l = IsPending l
  Inv (retest n) l = IsPending l
  Inv (handle n) l = IsPending l
  Inv (test_state n) l = IsPending l
  Inv (test_write n) l = IsPending l
  Inv (handler_transfer n rest) l = (a : List ℕ) × (a ++ rest ≡ packet) × IsUnderWay a l
  Inv (handler_release n) l = IsPending l
  Inv (reception n) l = IsReading l
  Inv (deliver n) l = IsPending l
  Inv (handler_end n) l = IsPending l
  Inv (forget n) l = IsPending l
  Inv check l = IsPending l
  Inv (transfer rest) l = (a : List ℕ) × (a ++ rest ≡ packet) × (IsUnderWay a l ⊎ IsAgain a l)
  Inv release l = IsReady [] l ⊎ IsIdle packet (IsResent before packet) l
  Inv wait_end l = IsReady [] l ⊎ IsIdle packet (IsResent before packet) l
  Inv done l = IsIdle packet (IsResent before packet) l

  module _ (resumes : List ℕ → Bool) (incoming : ℕ → ℕ) where
    handler-IsReady :
        (P : List ℕ → Type 0) (a : List ℕ) (l : Link)
        → ((ys : List ℕ) → ys ≡ (before ++ a) ++ packet → P ys)
        → IsReady a l ⊎ IsIdle packet P l
        → IfReturns (λ m. IsReady a m ⊎ IsIdle packet P m) (wlan_irq_handler resumes incoming l)
    handler-IsReady P a l f (inl h) =
        IfReturns-map _ _ (wlan_irq_handler resumes incoming l)
          (handler-IsWaiting packet (before ++ a) resumes incoming l h.0 h.1)
          (λ m q. inr (q.0, q.1, f m.sent q.2))
    handler-IsReady P a l f (inr h) =
        IfReturns-map _ _ (wlan_irq_handler resumes incoming l)
          (handler-IsIdle packet P resumes incoming l h) (λ m q. inr q)

    once : (ys : List ℕ) → ys ≡ (before ++ []) ++ packet → ys ≡ before ++ packet
    once ys e = e ∙ ap (λ b. b ++ packet) (append-nil before)

    handler-IsPending :
        (l : Link) → IsPending l → IfReturns IsPending (wlan_irq_handler resumes incoming l)
    handler-IsPending l h = handler-IsReady _ [] l (λ ys e. inl (once ys e)) h

    handler-IsResent :
        (l : Link)
        → IsReady [] l ⊎ IsIdle packet (IsResent before packet) l
        → IfReturns
            (λ m. IsReady [] m ⊎ IsIdle packet (IsResent before packet) m)
            (wlan_irq_handler resumes incoming l)
    handler-IsResent l h = handler-IsReady _ [] l (λ ys e. inl (inl (once ys e))) h

    handler-IsUnderWay :
        (a : List ℕ) (l : Link)
        → IsUnderWay a l
        → IfReturns (IsUnderWay a) (wlan_irq_handler resumes incoming l)
    handler-IsUnderWay a l h =
        handler-IsReady _ a l
          (λ ys e. (
            a,
            [],
            append-nil a,
            e
                ∙ (append_assoc before a packet
                    ∙ ap (λ w. before ++ (a ++ w)) (sym (append-nil packet))),
          ))
          h

    handler-IsQuiet :
        (l : Link) → IsQuiet l → IfReturns IsQuiet (wlan_irq_handler resumes incoming l)
    handler-IsQuiet l h =
        IfReturns-map _ _ (wlan_irq_handler resumes incoming l)
          (wlan_irq_handler-idle resumes incoming l h.0) (λ m q. (q.0, q.1.1 ∙ h.1))

    handler-enable :
        (l : Link) → Inv enable l → IfReturns (Inv enable) (wlan_irq_handler resumes incoming l)
    unfolding wlan_irq_handler
    handler-enable l (inl h) = elim (Bool-cases (l.enabled)) [
      | inl e ↦
          IfReturns-map _ _ (wlan_irq_handler resumes incoming l)
            (handler-IsWaiting packet before resumes incoming l h e)
            (λ m q. inr (q.0, q.1, inl q.2))
      | inr e ↦ rw e (inl h)
    ]
    handler-enable l (inr h) =
        IfReturns-map _ _ (wlan_irq_handler resumes incoming l)
          (handler-IsIdle packet _ resumes incoming l h) (λ m q. inr q)

    handler-IsReading :
        (l : Link) → IsReading l → IfReturns IsReading (wlan_irq_handler resumes incoming l)
    handler-IsReading l h =
        IfReturns-map _ _ (wlan_irq_handler resumes incoming l)
          (wlan_irq_handler-read_irq resumes incoming l h.0)
          (λ m q. (q.0, q.1.0 ∙ h.1, subst (IsSent before packet) (sym q.1.1) h.2))

    pub interrupt-Inv :
        (c : Control) (l : Link) → Inv c l → IfReturns (Inv c) (wlan_irq_handler resumes incoming l)
    interrupt-Inv start l h = handler-IsQuiet l h
    interrupt-Inv wait_idle l h = handler-IsQuiet l h
    interrupt-Inv claim l h = handler-IsQuiet l h
    interrupt-Inv enable l h = handler-enable l h
    interrupt-Inv (recall n) l h = handler-IsPending l h
    interrupt-Inv (retest n) l h = handler-IsPending l h
    interrupt-Inv (handle n) l h = handler-IsPending l h
    interrupt-Inv (test_state n) l h = handler-IsPending l h
    interrupt-Inv (test_write n) l h = handler-IsPending l h
    interrupt-Inv (handler_transfer n rest) l (a, e, h) =
        IfReturns-map _ _ (wlan_irq_handler resumes incoming l) (handler-IsUnderWay a l h)
          (λ m q. (a, e, q))
    interrupt-Inv (handler_release n) l h = handler-IsPending l h
    interrupt-Inv (reception n) l h = handler-IsReading l h
    interrupt-Inv (deliver n) l h = handler-IsPending l h
    interrupt-Inv (handler_end n) l h = handler-IsPending l h
    interrupt-Inv (forget n) l h = handler-IsPending l h
    interrupt-Inv check l h = handler-IsPending l h
    interrupt-Inv (transfer rest) l (a, e, inl h) =
        IfReturns-map _ _ (wlan_irq_handler resumes incoming l) (handler-IsUnderWay a l h)
          (λ m q. (a, e, inl q))
    interrupt-Inv (transfer rest) l (a, e, inr h) =
        IfReturns-map _ _ (wlan_irq_handler resumes incoming l)
          (handler-IsIdle packet _ resumes incoming l h) (λ m q. (a, e, inr q))
    interrupt-Inv release l h = handler-IsResent l h
    interrupt-Inv wait_end l h = handler-IsResent l h
    interrupt-Inv done l h = handler-IsIdle packet _ resumes incoming l h
