-- ===== src/Spi/Link/Write.antt =====
-- `SpiWrite` from the test of the state on, as steps of the program, between any two of which the handler
-- of the IRQ pin may run. A step is a test, an assignment, or a byte of `SpiWriteDataSynchronous`; steps
-- that an interrupt cannot tell apart stand together: the assignments before `WlanInterruptEnable`, with
-- interrupts disabled, and the reads of a reception, since the handler does nothing in the states READ.
use arduino_spider_l3s_libra.Base.{
  ℕ, zero, suc, Bool, true, false, not, ◌&&◌, List, [], ◌∷◌, ◌++◌, drop, Result, ok, ◌>>=◌, ◌≡◌,
}
use arduino_spider_l3s_libra.Spi.Link.{
  SpiState, powerup, idle, write_irq, is_idle, Link, receive, wlan_irq_handler,
  wlan_interrupt_disable,
}

-- Where `SpiWrite` stands: before `WlanInterruptDisable`; in the wait for IDLE; before the state
-- WRITE_IRQ; in `WlanInterruptEnable`; before the last reading of the pin; in the transfer, with the bytes
-- that are left; before CS goes high; in the last wait; at the return.
--
-- In `WlanInterruptEnable`: before the enable bit; before the test of WLAN_INT_MISSED, and of the pin and
-- WLAN_INT_PROCESS; in WLAN_IRQ_Handler, which the program calls itself; before WLAN_INT_MISSED is cleared.
-- In WLAN_IRQ_Handler: at its start; before its tests of the state; in its transfer, and before CS goes
-- high; in a reception, and before the SPIRxHandler; at its end. The SPIRxHandler may call
-- `WlanInterruptEnable` again: the number says how many calls of the handler are to be ended.
pub data Control : Type 0 where
  start wait_idle claim enable check release wait_end done : Control
  transfer : List ℕ → Control
  recall retest handle test_state test_write handler_release : ℕ → Control
  reception deliver handler_end forget : ℕ → Control
  handler_transfer : ℕ → List ℕ → Control

pub record System : Type 0 where
  pub control : Control
  pub link : Link

-- The tests for POWERUP and IDLE in WLAN_IRQ_Handler.
abbrev pub test_state_step : ℕ → SpiState → Link → System
test_state_step n powerup l = record {
  control = Control.handler_end n;
  link = record l { spi_state = SpiState.initialized };
}
test_state_step n idle l = record {
  control = Control.reception n;
  link = record l { spi_state = SpiState.read_irq; selected = true };
}
test_state_step n _ l = record { control = Control.test_write n; link = l }

-- The test for WRITE_IRQ.
abbrev pub test_write_step : ℕ → SpiState → Link → System
test_write_step n write_irq l = record { control = Control.handler_transfer n l.packet; link = l }
test_write_step n _ l = record { control = Control.handler_end n; link = l }

-- Where `WlanInterruptEnable` returns to.
abbrev pub enabled_to : ℕ → Control
enabled_to zero = Control.check
enabled_to (suc n) = Control.handler_end n

-- One step of `SpiWrite` of `packet`; `low` is the reading of the IRQ pin, where the step reads it,
-- `incoming` what the device clocks out, and `resumes` says what the SPIRxHandler does.
unfoldable pub write_step :
    List ℕ → Bool → (List ℕ → Bool) → (ℕ → ℕ) → Control → Link → Result System
write_step packet low resumes incoming start l =
    ok (record { control = Control.wait_idle; link = wlan_interrupt_disable l })
write_step packet low resumes incoming wait_idle l = elim (is_idle l.spi_state) [
  | true ↦ ok (record { control = Control.claim; link = l })
  | false ↦ ok (record { control = Control.wait_idle; link = l })
]
write_step packet low resumes incoming claim l = ok (record {
  control = Control.enable;
  link = record l { spi_state = SpiState.write_irq; packet = packet; selected = true };
})
write_step packet low resumes incoming enable l =
    ok (record { control = Control.recall zero; link = record l { enabled = true } })
write_step packet low resumes incoming (recall n) l = elim (l.missed) [
  | true ↦ ok (record { control = Control.retest n; link = l })
  | false ↦ ok (record { control = enabled_to n; link = l })
]
write_step packet low resumes incoming (retest n) l = elim (low && not l.process) [
  | true ↦ ok (record { control = Control.handle n; link = l })
  | false ↦ ok (record { control = Control.forget n; link = l })
]
write_step packet low resumes incoming (handle n) l = elim (l.enabled) [
  | true ↦ ok (record { control = Control.test_state n; link = record l { process = true } })
  | false ↦ ok (record { control = Control.forget n; link = record l { missed = true } })
]
write_step packet low resumes incoming (test_state n) l = ok (test_state_step n l.spi_state l)
write_step packet low resumes incoming (test_write n) l = ok (test_write_step n l.spi_state l)
write_step packet low resumes incoming (handler_transfer n (x ∷ rest)) l = ok (record {
  control = Control.handler_transfer n rest;
  link = record l { sent = l.sent ++ (x ∷ []) };
})
write_step packet low resumes incoming (handler_transfer n []) l =
    ok (record {
      control = Control.handler_release n;
      link = record l { spi_state = SpiState.idle };
    })
write_step packet low resumes incoming (handler_release n) l =
    ok (record { control = Control.handler_end n; link = record l { selected = false } })
write_step packet low resumes incoming (reception n) l = do
  m ← receive incoming l
  ok (record { control = Control.deliver n; link = m })
write_step packet low resumes incoming (deliver n) l = elim (resumes (drop 5 l.rx)) [
  | true ↦ ok (record { control = Control.recall (suc n); link = record l { enabled = true } })
  | false ↦ ok (record { control = Control.handler_end n; link = l })
]
write_step packet low resumes incoming (handler_end n) l =
    ok (record { control = Control.forget n; link = record l { process = false } })
write_step packet low resumes incoming (forget n) l =
    ok (record { control = enabled_to n; link = record l { missed = false } })
write_step packet low resumes incoming check l = elim low [
  | true ↦ ok (record { control = Control.transfer l.packet; link = l })
  | false ↦ ok (record { control = Control.wait_end; link = l })
]
write_step packet low resumes incoming (transfer (x ∷ rest)) l =
    ok (record { control = Control.transfer rest; link = record l { sent = l.sent ++ (x ∷ []) } })
write_step packet low resumes incoming (transfer []) l =
    ok (record { control = Control.release; link = record l { spi_state = SpiState.idle } })
write_step packet low resumes incoming release l =
    ok (record { control = Control.wait_end; link = record l { selected = false } })
write_step packet low resumes incoming wait_end l = elim (is_idle l.spi_state) [
  | true ↦ ok (record { control = Control.done; link = l })
  | false ↦ ok (record { control = Control.wait_end; link = l })
]
write_step packet low resumes incoming done l = ok (record { control = Control.done; link = l })

-- The program goes on, or an interrupt comes in. A step that traps, in the loop for a lost mark or past a
-- buffer, has no next state: the run has come to its last state.
pub data Step (packet : List ℕ) (s : System) : System → Type 0 where
  program :
      (low : Bool) (resumes : List ℕ → Bool) (incoming : ℕ → ℕ) {t : System}
      → write_step packet low resumes incoming s.control s.link ≡ ok t
      → Step packet s t
  interrupt :
      (resumes : List ℕ → Bool) (incoming : ℕ → ℕ) {m : Link}
      → wlan_irq_handler resumes incoming s.link ≡ ok m
      → Step packet s (record { control = s.control; link = m })

-- What `SpiWrite` can come to when it is called on the link `l`.
pub data Reach (packet : List ℕ) (l : Link) : System → Type 0 where
  called : Reach packet l (record { control = Control.start; link = l })
  later : {s t : System} → Reach packet l s → Step packet s t → Reach packet l t
