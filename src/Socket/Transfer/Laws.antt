-- ===== src/Socket/Transfer/Laws.antt =====
-- The credit that a transmission takes, the refusals of `send`, and the wait for a free buffer.
use arduino_spider_l3s_libra.Base.{
  ℕ, ◌+◌, ◌-◌, ◌<◌, ◌≡◌, ◌≢◌, refl, ap, ◌∙◌, ◌⊎◌, inl, inr, List, [], ◌∷◌, length, true, false,
  Bool, ok, trap, Trap, ◌>>=◌, u16, u32, arith, Option, none, some, ◌==◌, not, ◌&&◌, if◌then◌else◌,
  Bool-cases,
}
use mathlib.Core.Path.{subst}
use arduino_spider_l3s_libra.Stream.{stream_to_uint16, stream_to_uint8, load}
use arduino_spider_l3s_libra.Driver.{Driver}
use arduino_spider_l3s_libra.Driver.Status.{active, get_socket_active_status}
use arduino_spider_l3s_libra.Events.FlowControl.Laws.{
  Handle, total_freed, free_buffer_packet, flow_control_handler-free_buffer_packet,
}
use arduino_spider_l3s_libra.Events.Unsolicited.{
  free_buffer_event, hci_unsol_event_handler, hci_unsolicited_event_handler, spi_receive,
}
use arduino_spider_l3s_libra.Events.Unsolicited.Laws.{
  credit, both_ways, Holds, Holds-then, of_ok, spi_receive-Holds,
}
use arduino_spider_l3s_libra.Socket.{Host, extend16}
use arduino_spider_l3s_libra.Socket.Transfer.{
  flow_round, consume_loop, host_flow_control_consume_buff, simple_link_send,
}

-- The loop ends where a round does.
consume_loop-some :
    (sd : ℕ) (ps : List (List ℕ)) (d : Driver) (r : ℕ × Driver)
    → flow_round sd d ≡ some r
    → consume_loop sd ps d ≡ ok (r.0, record { driver = r.1; incoming = ps })
unfolding consume_loop
consume_loop-some sd [] d r e = rw (e, consume_loop) refl
consume_loop-some sd (p ∷ ps) d r e = rw (e, consume_loop) refl

module _ (sd : ℕ) (d : Driver) where
  abbrev SocketInactive : Type 0
  SocketInactive = get_socket_active_status (extend16 (u16 sd)) d.socket_active_status ≢ active

  flow_round-error :
      d.transmit_data_error ≢ 0
      → flow_round (u16 sd) d
        ≡ some (
          u16 d.transmit_data_error,
          record d { errno = u16 d.transmit_data_error; transmit_data_error = 0 },
        )
  unfolding flow_round
  flow_round-error bad = rw failed refl
    where
      failed : (d.transmit_data_error == 0) ≡ false
      failed = ground arith

  flow_round-inactive :
      d.transmit_data_error ≡ 0 → SocketInactive → flow_round (u16 sd) d ≡ some (0xffff, d)
  unfolding flow_round
  flow_round-inactive good closed = rw (no_error, is_closed) refl
    where
      no_error : (d.transmit_data_error == 0) ≡ true
      no_error = ground arith

      is_closed :
          (get_socket_active_status (extend16 (u16 sd)) d.socket_active_status == active) ≡ false
      is_closed = ground arith

-- `send` and `sendto` refuse before they touch anything but the error: when a transmission failed (with
-- an error whose low 16 bits are not all 0), or when none failed but the socket is not active. A failure
-- is returned, left in `errno` and cleared; otherwise the result is -1 and nothing changes. No packet is
-- sent or awaited and no buffer is taken.
pub simple_link_send-refused :
    (sd : ℕ) (buf : List ℕ) (len flags : ℕ) (to : List ℕ) (tolen opcode : ℕ) (local : List ℕ)
    (h : Host)
    → (u16 h.driver.transmit_data_error ≢ 0)
      ⊎ (h.driver.transmit_data_error ≡ 0)
        × (get_socket_active_status (extend16 (u16 sd)) h.driver.socket_active_status ≢ active)
    → simple_link_send sd buf len flags to tolen opcode local h
      ≡ ok (
          if h.driver.transmit_data_error == 0 then (0xffff, h) else (
            u16 h.driver.transmit_data_error,
            record h {
              driver = record h.driver {
                errno = u16 h.driver.transmit_data_error;
                transmit_data_error = 0;
              };
            },
          ))
unfolding simple_link_send host_flow_control_consume_buff
simple_link_send-refused sd buf len flags to tolen opcode local h (inl bad) =
    let nonzero : h.driver.transmit_data_error ≢ 0 = λ e. bad (omega arith) in
    let error : (u16 h.driver.transmit_data_error == 0) ≡ false = ground arith in
    let failed : (h.driver.transmit_data_error == 0) ≡ false = ground arith in
    rw
      (
        consume_loop-some (u16 sd) h.incoming h.driver _ (flow_round-error sd h.driver nonzero),
        error,
        failed,
      )
      refl
simple_link_send-refused sd buf len flags to tolen opcode local h (inr (good, closed)) =
    let no_error : (h.driver.transmit_data_error == 0) ≡ true = ground arith in
    rw
      (
        consume_loop-some (u16 sd) h.incoming h.driver _
            (flow_round-inactive sd h.driver good closed),
        no_error,
      )
      refl

-- What a call of the flow control may come to when the credit before it was `before`: a buffer is taken,
-- for the packet that the caller then counts as sent, or it is refused and the credit is the same.
abbrev pub Outcome : ℕ → ℕ × Driver → Type 0
Outcome before (result, d) =
    (result ≡ 0)
      × (credit (record d { number_of_sent_packets = u32 (d.number_of_sent_packets + 1) }) ≡ before)
    ⊎ (credit d ≡ before) × ((result ≡ 0xffff) ⊎ (d.transmit_data_error ≡ 0) × (result ≡ d.errno))

data Found {A : Type 0} (P : A → Type 0) : Option A → Type 0 where
  found : {a : A} → P a → Found P (some a)
  missing : Found P none

flow_round-Outcome : (sd : ℕ) (d : Driver) → Found (Outcome (credit d)) (flow_round sd d)
unfolding flow_round
flow_round-Outcome sd d =
    both_ways P (not (d.transmit_data_error == 0)) (Found.found (inr (refl, inr (refl, refl)))) (
      both_ways P (not (get_socket_active_status (extend16 sd) d.socket_active_status == active))
        (Found.found (inr (refl, inl refl)))
        (elim (Bool-cases (d.number_of_free_buffers == 0)) [
          | inl e ↦ rw e Found.missing
          | inr e ↦ rw e (Found.found (inl (refl, ground (arith, e))))
        ]))
  where
    P : Option (ℕ × Driver) → Type 0
    P = Found (Outcome (credit d))

abbrev Consumed : ℕ → ℕ × Host → Type 0
Consumed before r = Outcome before (r.0, r.1.driver)

consume_loop-Outcome :
    (sd : ℕ) (ps : List (List ℕ)) (d : Driver) → Holds (Consumed (credit d)) (consume_loop sd ps d)
unfolding consume_loop
consume_loop-Outcome sd [] d = go (flow_round sd d) (flow_round-Outcome sd d)
  where
    go :
        (o : Option (ℕ × Driver))
        → Found (Outcome (credit d)) o
        → Holds (Consumed (credit d)) (elim o [
          | some r ↦ ok (r.0, record { driver = r.1; incoming = [] })
          | none ↦ trap Trap.hang
        ])
    go _ (Found.found k) = Holds.holds k
    go _ Found.missing = Holds.vacuous
consume_loop-Outcome sd (p ∷ ps) d =
    go (flow_round sd d) (flow_round-Outcome sd d) d.spi_enabled (λ e. consume_loop-Outcome sd ps e)
  where
    go :
        (o : Option (ℕ × Driver))
        → Found (Outcome (credit d)) o
        → (b : Bool) → ((e : Driver) → Holds (Consumed (credit e)) (consume_loop sd ps e))
        → Holds (Consumed (credit d)) (elim o [
          | some r ↦ ok (r.0, record { driver = r.1; incoming = p ∷ ps })
          | none ↦ elim b [
            | true ↦ spi_receive p d >>= λ e. consume_loop sd ps e
            | false ↦ trap Trap.hang
          ]
        ])
    go _ (Found.found k) b ih = Holds.holds k
    go _ Found.missing false ih = Holds.vacuous
    go _ Found.missing true ih =
        Holds-then (Consumed (credit d)) (spi_receive p d) (spi_receive-Holds p d)
          (λ e k. subst (λ n. Holds (Consumed n) (consume_loop sd ps e)) k.5 (ih e))

-- When the flow control returns, whatever packets came in while it waited, either it returns 0 and the
-- free buffers, the packets sent and one more less those released have the sum they had before, or it
-- returns -1 or the transmit error that it left in `errno`, and the sum is the same without one more.
pub host_flow_control_consume_buff-credit :
    (sd result : ℕ) (h h' : Host)
    → host_flow_control_consume_buff sd h ≡ ok (result, h')
    → Outcome (credit h.driver) (result, h'.driver)
unfolding host_flow_control_consume_buff
host_flow_control_consume_buff-credit sd result h h' e = of_ok (
    subst (Holds (Consumed (credit h.driver))) e
      (consume_loop-Outcome (u16 sd) h.incoming h.driver))

module _ (len status : ℕ) (hs : List Handle) (rest : List ℕ) where
  abbrev report : List ℕ
  report = free_buffer_packet len status hs rest

  -- The driver once a report of freed buffers came in.
  abbrev pub refilled : Driver → Driver
  refilled d = record d {
    number_of_free_buffers = u16 (d.number_of_free_buffers + total_freed hs);
    number_of_released_packets = u32 (d.number_of_released_packets + total_freed hs);
    event_or_data_received = 0;
    spi_enabled = true;
    received_data = report;
  }

  spi_receive-report :
      (d : Driver)
      → length hs < 65536
      → d.inform_host_on_tx_complete ≡ 0
      → spi_receive report d ≡ ok (refilled d)
  unfolding spi_receive hci_unsolicited_event_handler hci_unsol_event_handler free_buffer_event
      stream_to_uint8 stream_to_uint16 load
  spi_receive-report d few quiet =
      rw
        (
          flow_control_handler-free_buffer_packet len status hs rest
              (record d { spi_enabled = false; event_or_data_received = 1; received_data = report })
              few,
          no_notice,
        )
        refl
    where
      no_notice :
          (u32 (d.number_of_released_packets + total_freed hs) == d.number_of_sent_packets
            && not (d.inform_host_on_tx_complete == 0))
          ≡ false
      no_notice = ground arith

-- A call that finds no free buffer waits for one and takes it. With no transmit error, an active socket,
-- the SPI running and no notice of completion asked for, when the next packet is a report that frees a
-- number of buffers not divisible by 2^16, the call returns 0, one buffer less is free than the report
-- gave, the released packets are counted, and the packets behind the report are still to come.
pub host_flow_control_consume_buff-free_buffer_packet :
    (len status : ℕ) (hs : List Handle) (rest : List ℕ) (sd : ℕ) (qs : List (List ℕ)) (h : Host)
    → h.driver.transmit_data_error ≡ 0
    → get_socket_active_status (extend16 (u16 sd)) h.driver.socket_active_status ≡ active
    → h.driver.number_of_free_buffers ≡ 0
    → h.driver.spi_enabled ≡ true
    → h.driver.inform_host_on_tx_complete ≡ 0
    → length hs < 65536
    → u16 (total_freed hs) ≢ 0
    → h.incoming ≡ free_buffer_packet len status hs rest ∷ qs
    → host_flow_control_consume_buff sd h
      ≡ ok (
        0,
        record {
          driver = record (refilled len status hs rest h.driver) {
            number_of_free_buffers = u16 (total_freed hs) - 1;
          };
          incoming = qs;
        },
      )
unfolding host_flow_control_consume_buff
host_flow_control_consume_buff-free_buffer_packet len status hs rest sd qs h good open_socket empty
      running quiet few freed coming =
    ap (λ ps. consume_loop (u16 sd) ps d) coming
    ∙ (first ∙ consume_loop-some (u16 sd) qs _ _ second)
  where
    d : Driver
    d = h.driver

    d' : Driver
    d' = refilled len status hs rest d

    no_error : (d.transmit_data_error == 0) ≡ true
    no_error = ground arith

    is_open : (get_socket_active_status (extend16 (u16 sd)) d.socket_active_status == active) ≡ true
    is_open = ground arith

    is_empty : (d.number_of_free_buffers == 0) ≡ true
    is_empty = ground arith

    some_freed : (u16 (d.number_of_free_buffers + total_freed hs) == 0) ≡ false
    some_freed = ground arith

    waits : flow_round (u16 sd) d ≡ none
    waits = unfold flow_round in rw (no_error, is_open, is_empty) refl

    first :
        consume_loop (u16 sd) (free_buffer_packet len status hs rest ∷ qs) d
        ≡ consume_loop (u16 sd) qs d'
    first =
        unfold consume_loop in
        rw (waits, consume_loop, running, spi_receive-report len status hs rest d few quiet) refl

    second :
        flow_round (u16 sd) d'
        ≡ some (0, record d' { number_of_free_buffers = u16 (total_freed hs) - 1 })
    second =
        unfold flow_round in
        rw (no_error, is_open, some_freed)
          (ap (λ n. Option.some (0, record d' { number_of_free_buffers = n })) (omega arith))
