-- ===== src/Spi/Link/Steps.antt =====
-- The steps of `SpiWrite` keep what is known of the bus.
use arduino_spider_l3s_libra.Base.{
  ℕ, zero, suc, Bool, true, false, List, [], ◌∷◌, ◌++◌, append-nil, append_assoc, ◌≡◌, refl, sym,
  ap, ◌∙◌, ◌⊎◌, inl, inr, Bool-cases, IfReturns, IfReturns->>=, IfReturns-ok, ◌&&◌, not, drop,
}
use mathlib.Core.Path.{subst}
use arduino_spider_l3s_libra.Spi.Link.{idle, Link, receive}
use arduino_spider_l3s_libra.Spi.Link.Write.{
  Control, start, wait_idle, claim, enable, recall, retest, handle, test_state, test_write,
  handler_transfer, handler_release, reception, deliver, handler_end, forget, check, transfer,
  release, wait_end, done, enabled_to, System, write_step, Step, program, interrupt, Reach, called,
  later,
}
use arduino_spider_l3s_libra.Spi.Link.Interrupt.{IsIdle, receive-idle}
use arduino_spider_l3s_libra.Spi.Link.Sending.{
  IsInside, IsSent, IsResent, IsInside-snoc, IsReady, IsPending, IsUnderWay, IsAgain, Inv,
  interrupt-Inv,
}

module _ (packet : List ℕ) (before : List ℕ) where
  abbrev pub I : Control → Link → Type 0
  I c l = Inv packet before c l

  -- One byte more.
  IsUnderWay-snoc :
      (a : List ℕ) (x : ℕ) (l : Link)
      → IsUnderWay packet before a l
      → IsUnderWay packet before (a ++ (x ∷ [])) (record l { sent = l.sent ++ (x ∷ []) })
  IsUnderWay-snoc a x l (inl h) =
      inl ((h.0.0, h.0.1, ap (λ w. w ++ (x ∷ [])) h.0.2 ∙ append_assoc before a (x ∷ [])), h.1)
  IsUnderWay-snoc a x l (inr h) = inr (h.0, h.1, IsInside-snoc before packet a l.sent x h.2)

  IsAgain-snoc :
      (a : List ℕ) (x : ℕ) (l : Link)
      → IsAgain packet before a l
      → IsAgain packet before (a ++ (x ∷ [])) (record l { sent = l.sent ++ (x ∷ []) })
  IsAgain-snoc a x l (i, p, (xs, o, e)) =
      (i, p, (xs, o, ap (λ w. w ++ (x ∷ [])) e ∙ append_assoc xs a (x ∷ [])))

  moved :
      (a : List ℕ) (x : ℕ) (rest : List ℕ)
      → a ++ (x ∷ rest) ≡ packet
      → (a ++ (x ∷ [])) ++ rest ≡ packet
  moved a x rest e = append_assoc a (x ∷ []) rest ∙ e

  -- The transfer is over.
  IsUnderWay-end :
      (a : List ℕ) (l : Link)
      → a ++ [] ≡ packet
      → IsUnderWay packet before a l
      → IsIdle packet (IsSent before packet) (record l { spi_state = idle })
  IsUnderWay-end a l e (inl h) =
      (refl, h.0.1, inl (h.0.2 ∙ ap (λ w. before ++ w) (sym (append-nil a) ∙ e)))
  IsUnderWay-end a l e (inr h) =
      (refl, h.1, inr (subst (λ w. IsInside before packet w l.sent) (sym (append-nil a) ∙ e) h.2))

  IsAgain-end :
      (a : List ℕ) (l : Link)
      → a ++ [] ≡ packet
      → IsAgain packet before a l
      → IsIdle packet (IsResent before packet) (record l { spi_state = idle })
  IsAgain-end a l e (i, p, (xs, o, f)) =
      (refl, p, inr (xs, o, f ∙ ap (λ w. xs ++ w) (sym (append-nil a) ∙ e)))

  IsPending-IsResent :
      (l : Link)
      → IsPending packet before l
      → IsReady packet before [] l ⊎ IsIdle packet (IsResent before packet) l
  IsPending-IsResent l (inl h) = inl h
  IsPending-IsResent l (inr h) = inr (h.0, h.1, inl h.2)

  IsPending-enabled :
      (l : Link) → IsPending packet before l → IsPending packet before (record l { enabled = true })
  IsPending-enabled l (inl h) = inl (h.0, refl)
  IsPending-enabled l (inr h) = inr h

  enabled_to-Inv : (n : ℕ) (l : Link) → IsPending packet before l → I (enabled_to n) l
  enabled_to-Inv zero l h = h
  enabled_to-Inv (suc n) l h = h

  write_step-Inv :
      (low : Bool) (resumes : List ℕ → Bool) (incoming : ℕ → ℕ) (c : Control) (l : Link)
      → I c l
      → IfReturns (λ t. I t.control t.link) (write_step packet low resumes incoming c l)
  unfolding write_step
  write_step-Inv low resumes incoming start l h = h
  write_step-Inv low resumes incoming wait_idle l h = simp (h.0, write_step) (refl, h.1)
  write_step-Inv low resumes incoming claim l h = inl (refl, refl, h.1)
  write_step-Inv low resumes incoming enable l (inl h) =
      inl ((h.0, h.1, h.2 ∙ sym (append-nil before)), refl)
  write_step-Inv low resumes incoming enable l (inr h) = inr h
  write_step-Inv low resumes incoming (recall n) l h = elim (Bool-cases (l.missed)) [
    | inl e ↦ simp (e, write_step) h
    | inr e ↦ simp (e, write_step) (enabled_to-Inv n l h)
  ]
  write_step-Inv low resumes incoming (retest n) l h = elim (Bool-cases (low && not l.process)) [
    | inl e ↦ simp (e, write_step) h
    | inr e ↦ simp (e, write_step) h
  ]
  write_step-Inv low resumes incoming (handle n) l (inl h) =
      simp (h.1, write_step) (inl (h.0, refl))
  write_step-Inv low resumes incoming (handle n) l (inr h) = elim (Bool-cases (l.enabled)) [
    | inl e ↦ simp (e, write_step) (inr h)
    | inr e ↦ simp (e, write_step) (inr h)
  ]
  write_step-Inv low resumes incoming (test_state n) l (inl h) =
      rw (h.0.0, write_step) (inl ((refl, h.0.1, h.0.2), h.1))
  write_step-Inv low resumes incoming (test_state n) l (inr h) =
      rw (h.0, write_step) (refl, h.1, h.2)
  write_step-Inv low resumes incoming (test_write n) l (inl h) =
      rw (h.0.0, write_step) ([], h.0.1, inl ((refl, h.0.1, h.0.2), h.1))
  write_step-Inv low resumes incoming (test_write n) l (inr h) =
      rw (h.0, write_step) (inr (refl, h.1, h.2))
  write_step-Inv low resumes incoming (handler_transfer n (x ∷ rest)) l (a, e, h) =
      (a ++ (x ∷ []), moved a x rest e, IsUnderWay-snoc a x l h)
  write_step-Inv low resumes incoming (handler_transfer n []) l (a, e, h) =
      inr (IsUnderWay-end a l e h)
  write_step-Inv low resumes incoming (handler_release n) l h = h
  write_step-Inv low resumes incoming (reception n) l h =
      IfReturns->>= _ _ (receive incoming l) _ (receive-idle incoming l)
        (λ m q. inr (q.0, q.1.0 ∙ h.1, subst (IsSent before packet) (sym q.1.1) h.2))
  write_step-Inv low resumes incoming (deliver n) l h = elim (Bool-cases (resumes (drop 5 l.rx))) [
    | inl e ↦ simp (e, write_step) (IsPending-enabled l h)
    | inr e ↦ simp (e, write_step) h
  ]
  write_step-Inv low resumes incoming (handler_end n) l h = h
  write_step-Inv low resumes incoming (forget n) l h =
      enabled_to-Inv n (record l { missed = false }) h
  write_step-Inv true resumes incoming check l (inl h) = ([], h.0.1, inl (inl h))
  write_step-Inv true resumes incoming check l (inr h) =
      ([], h.1, inr (h.0, h.1, (l.sent, h.2, sym (append-nil l.sent))))
  write_step-Inv false resumes incoming check l h = IsPending-IsResent l h
  write_step-Inv low resumes incoming (transfer (x ∷ rest)) l (a, e, inl h) =
      (a ++ (x ∷ []), moved a x rest e, inl (IsUnderWay-snoc a x l h))
  write_step-Inv low resumes incoming (transfer (x ∷ rest)) l (a, e, inr h) =
      (a ++ (x ∷ []), moved a x rest e, inr (IsAgain-snoc a x l h))
  write_step-Inv low resumes incoming (transfer []) l (a, e, inl h) =
      let s = IsUnderWay-end a l e h in inr (s.0, s.1, inl s.2)
  write_step-Inv low resumes incoming (transfer []) l (a, e, inr h) = inr (IsAgain-end a l e h)
  write_step-Inv low resumes incoming release l h = h
  write_step-Inv low resumes incoming wait_end l (inl h) =
      simp (h.0.0, write_step) (inl ((refl, h.0.1, h.0.2), h.1))
  write_step-Inv low resumes incoming wait_end l (inr h) = simp (h.0, write_step) (refl, h.1, h.2)
  write_step-Inv low resumes incoming done l h = h

  Step-Inv : {s t : System} → I s.control s.link → Step packet s t → I t.control t.link
  Step-Inv {s} h (program low resumes incoming e) =
      IfReturns-ok (λ t. I t.control t.link) e
        (write_step-Inv low resumes incoming s.control s.link h)
  Step-Inv {s} h (interrupt resumes incoming e) =
      IfReturns-ok (I s.control) e (interrupt-Inv packet before resumes incoming s.control s.link h)

  pub Reach-Inv :
      {l : Link} {s : System}
      → (l.spi_state ≡ idle) × (l.sent ≡ before)
      → Reach packet l s
      → I s.control s.link
  Reach-Inv h called = h
  Reach-Inv h (later r step) = Step-Inv (Reach-Inv h r) step
