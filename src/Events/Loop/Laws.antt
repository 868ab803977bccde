-- ===== src/Events/Loop/Laws.antt =====
-- What the wait for a reply comes to when other packets arrive before it.
use arduino_spider_l3s_libra.Base.{
  ℕ, ◌≤◌, ◌≡◌, refl, sym, ap, ◌∙◌, inl, inr, List, [], ◌∷◌, ◌++◌, length, true, false, none, Result,
  ok, ◌>>=◌, if◌then◌else◌, u16, u32, arith, ◌==◌, ◌&&◌, not, All, Bool-cases, ==_iff,
}
use mathlib.Core.Path.{subst}
use arduino_spider_l3s_libra.Stream.{load, stream_to_uint8, stream_to_uint16, stream_to_uint32}
use arduino_spider_l3s_libra.Stream.Memory.{splice, le16, le32, store_bytes-splice}
use arduino_spider_l3s_libra.Driver.{Driver}
use arduino_spider_l3s_libra.Driver.Opcode
use arduino_spider_l3s_libra.Events.Unsolicited.{
  one_of, has_bit, transmit_events, hci_unsol_event_handler, hci_unsolicited_event_handler,
  spi_receive,
}
use arduino_spider_l3s_libra.Events.Unsolicited.Laws.{spi_receive-Received}
use arduino_spider_l3s_libra.Events.Solicited.{
  status_replies, number_replies, number_reply, reply_uint32, store_reply,
}
use arduino_spider_l3s_libra.Events.Loop.{
  Caller, Round, is_done, handle_event, handle_packet, loop_round, hci_event_handler,
  simple_link_wait_event,
}

-- `Consumes ps d e`: the packets `ps`, one after the other, are handled in the interrupt, which takes
-- the state from `d` to `e`.
pub data Consumes : List (List ℕ) → Driver → Driver → Type 0 where
  nothing : {d : Driver} → Consumes [] d d
  packet :
      {p : List ℕ} {ps : List (List ℕ)} {d e f : Driver}
      → spi_receive p d ≡ ok e
      → e.event_or_data_received ≡ 0
      → Consumes ps e f
      → Consumes (p ∷ ps) d f

loop_round-idle :
    (c : Caller) (d : Driver)
    → d.event_or_data_received ≡ 0
    → loop_round c d ≡ ok (Round.waiting c d)
unfolding loop_round
loop_round-idle c d idle =
    ap
      (λ n.
        if n == 0
        then ok (Round.waiting c d)
        else (handle_packet c d >>= λ r.
            ok (if is_done r.1 then Round.returned r.0 r.1 else Round.waiting r.0 r.1)))
      idle

-- The loop returns when a round does.
pub hci_event_handler-returned :
    (qs : List (List ℕ)) (c c' : Caller) (d d' : Driver)
    → loop_round c d ≡ ok (Round.returned c' d')
    → hci_event_handler qs c d ≡ ok (c', d', qs)
unfolding hci_event_handler
hci_event_handler-returned [] c c' d d' h = rw h refl
hci_event_handler-returned (q ∷ qs) c c' d d' h = rw h refl

-- A packet that the interrupt leaves pending is the next round's.
pub hci_event_handler-packet :
    (p : List ℕ) (qs : List (List ℕ)) (c : Caller) (d e : Driver)
    → d.event_or_data_received ≡ 0
    → spi_receive p d ≡ ok e
    → hci_event_handler (p ∷ qs) c d ≡ hci_event_handler qs c e
unfolding hci_event_handler
hci_event_handler-packet p qs c d e idle received = rw (loop_round-idle c d idle, received) refl

-- The loop waits while nothing is pending.
pub hci_event_handler-Consumes :
    (ps qs : List (List ℕ)) (c : Caller) (d e : Driver)
    → d.event_or_data_received ≡ 0
    → Consumes ps d e
    → hci_event_handler (ps ++ qs) c d ≡ hci_event_handler qs c e
hci_event_handler-Consumes _ qs c d _ idle Consumes.nothing = refl
hci_event_handler-Consumes _ qs c d f idle (Consumes.packet {p} {ps} {e = e} received idle' rest) =
    hci_event_handler-packet p (ps ++ qs) c d e idle received
    ∙ hci_event_handler-Consumes ps qs c e f idle' rest

pub Consumes-idle :
    (ps : List (List ℕ)) (d e : Driver)
    → d.event_or_data_received ≡ 0
    → Consumes ps d e
    → (e.event_or_data_received ≡ 0)
      × (e.rx_event_opcode ≡ d.rx_event_opcode)
      × (e.rx_data_pending ≡ d.rx_data_pending)
Consumes-idle _ d _ idle Consumes.nothing = (idle, refl, refl)
Consumes-idle _ d f idle (Consumes.packet {p} {ps} {e = e} received idle' rest) =
    let k = spi_receive-Received p d e received in
    let l = Consumes-idle ps e f idle' rest in (l.0, l.1 ∙ k.2, l.2 ∙ k.3)

pub Consumes-port : (ps : List (List ℕ)) (d e : Driver) → Consumes ps d e → e.port ≡ d.port
Consumes-port _ d _ Consumes.nothing = refl
Consumes-port _ d f (Consumes.packet {p} {ps} {e = e} received idle rest) =
    Consumes-port ps e f rest ∙ (spi_receive-Received p d e received).4

-- What sets the opcodes of numeric replies apart from the others.
abbrev IsNumberReply : ℕ → Type 0
IsNumberReply o =
    ((has_bit o Opcode.evnt_unsol_base && o == Opcode.evnt_data_unsol_free_buff) ≡ false)
    × (has_bit o Opcode.evnt_wlan_unsol_base ≡ false)
    × (one_of o transmit_events ≡ false)
    × ((o == Opcode.evnt_patches_req) ≡ false)
    × ((o == Opcode.cmnd_read_buffer_size) ≡ false)
    × (one_of o (Opcode.cmnd_recv ∷ Opcode.cmnd_recvfrom ∷ []) ≡ false)
    × (one_of o status_replies ≡ false)
    × (one_of o number_replies ≡ true)
    × (u16 o ≡ o)

one_of-All : (P : ℕ → Type 0) (o : ℕ) (os : List ℕ) → one_of o os ≡ true → All P os → P o
one_of-All P o [] h a = cc
one_of-All P o (x ∷ xs) h (p, ps) = elim (Bool-cases (o == x)) [
  | inl e ↦ subst P (sym ((==_iff o x).0 e)) p
  | inr e ↦ one_of-All P o xs (ground (arith, h, e)) ps
]

number_replies-All : All IsNumberReply number_replies
number_replies-All = (
  (refl, refl, refl, refl, refl, refl, refl, refl, refl),
  (
    (refl, refl, refl, refl, refl, refl, refl, refl, refl),
    (
      (refl, refl, refl, refl, refl, refl, refl, refl, refl),
      (
        (refl, refl, refl, refl, refl, refl, refl, refl, refl),
        (
          (refl, refl, refl, refl, refl, refl, refl, refl, refl),
          (
            (refl, refl, refl, refl, refl, refl, refl, refl, refl),
            (
              (refl, refl, refl, refl, refl, refl, refl, refl, refl),
              (
                (refl, refl, refl, refl, refl, refl, refl, refl, refl),
                (
                  (refl, refl, refl, refl, refl, refl, refl, refl, refl),
                  (
                    (refl, refl, refl, refl, refl, refl, refl, refl, refl),
                    (
                      (refl, refl, refl, refl, refl, refl, refl, refl, refl),
                      (
                        (refl, refl, refl, refl, refl, refl, refl, refl, refl),
                        (
                          (refl, refl, refl, refl, refl, refl, refl, refl, refl),
                          (
                            (refl, refl, refl, refl, refl, refl, refl, refl, refl),
                            (
                              (refl, refl, refl, refl, refl, refl, refl, refl, refl),
                              (
                                (refl, refl, refl, refl, refl, refl, refl, refl, refl),
                                (
                                  (refl, refl, refl, refl, refl, refl, refl, refl, refl),
                                  ((refl, refl, refl, refl, refl, refl, refl, refl, refl), tt),
                                ),
                              ),
                            ),
                          ),
                        ),
                      ),
                    ),
                  ),
                ),
              ),
            ),
          ),
        ),
      ),
    ),
  ),
)

-- A reply with one number, and what follows it in the receive buffer.
abbrev pub number_packet : ℕ → ℕ → ℕ → ℕ → List ℕ → List ℕ
number_packet opcode len status value rest =
    Opcode.type_evnt ∷ (le16 opcode ++ (len ∷ status ∷ (le32 value ++ rest)))

module _ (o len status value : ℕ) (rest : List ℕ) (k : IsNumberReply o) where
  abbrev reply : List ℕ
  reply = number_packet o len status value rest

  opcode_lem : stream_to_uint16 reply 1 ≡ ok o
  unfolding stream_to_uint16 load
  opcode_lem = ap {B = Result ℕ} ok (omega (arith, k.8))

  not_unsolicited :
      (d : Driver) → hci_unsol_event_handler reply d ≡ ok (d, not (o == d.rx_event_opcode) && true)
  unfolding hci_unsol_event_handler
  not_unsolicited d = rw (opcode_lem, k.0, k.1, k.2, k.3) refl

  value_lem : stream_to_uint32 reply 5 ≡ ok (u32 value)
  unfolding stream_to_uint32 load
  value_lem = ap {B = Result ℕ} ok (omega arith)

  store_reply_lem :
      (ret : List ℕ) (d : Driver)
      → 4 ≤ length ret
      → store_reply o reply ret d ≡ ok (splice ret 0 (le32 value), d)
  unfolding store_reply number_reply reply_uint32
  store_reply_lem ret d room =
      rw (k.4, k.5, k.6, k.7, value_lem, twice, store_bytes-splice ret 0 (le32 value) room) refl
    where
      twice : u32 (u32 value) ≡ u32 value
      twice = omega arith

  module _ (d : Driver) (waits : d.rx_event_opcode ≡ o) where
    abbrev pending : Driver
    pending = record d { spi_enabled = false; event_or_data_received = 1; received_data = reply }

    same : (o == d.rx_event_opcode) ≡ true
    same = (==_iff o d.rx_event_opcode).1 (sym waits)

    spi_receive-reply : spi_receive reply d ≡ ok pending
    unfolding spi_receive hci_unsolicited_event_handler stream_to_uint8 load
    spi_receive-reply = rw (not_unsolicited pending, same) refl

    handle_packet-reply :
        (c : Caller)
        → 4 ≤ length c.ret
        → handle_packet c pending
          ≡ ok (
            record c { ret = splice c.ret 0 (le32 value) },
            record pending { rx_event_opcode = 0; event_or_data_received = 0; spi_enabled = true },
          )
    unfolding handle_packet handle_event stream_to_uint8 load
    handle_packet-reply c room =
        rw
          (opcode_lem, not_unsolicited pending, same, store_reply_lem c.ret pending room, same, k.3)
          refl

    hci_event_handler-reply :
        (c : Caller) (qs : List (List ℕ))
        → d.event_or_data_received ≡ 0
        → d.rx_data_pending ≡ 0
        → 4 ≤ length c.ret
        → hci_event_handler (reply ∷ qs) c d
          ≡ ok (
            record c { ret = splice c.ret 0 (le32 value) },
            record pending { rx_event_opcode = 0; event_or_data_received = 0; spi_enabled = true },
            qs,
          )
    hci_event_handler-reply c qs idle no_data room =
        hci_event_handler-packet reply qs c d pending idle spi_receive-reply
        ∙ hci_event_handler-returned qs c _ pending _ round
      where
        round :
            loop_round c pending
            ≡ ok (
                Round.returned
                  (record c { ret = splice c.ret 0 (le32 value) })
                  (record pending {
                    rx_event_opcode = 0;
                    event_or_data_received = 0;
                    spi_enabled = true;
                  }))
        round = unfold loop_round in rw (handle_packet-reply c room, no_data) refl

-- A host that waits for a reply with one number, with the SPI idle, no data outstanding and four bytes
-- at `pRetParams`: after any packets that the interrupt consumes, and that take the driver, the awaited
-- opcode noted, to `e`, the reply ends the wait. The number lies in the first four bytes, lowest first; the host waits
-- for nothing any more, the SPI runs, nothing is pending, all else is as in `e`, and the packets behind
-- the reply are still to come.
pub simple_link_wait_event-number_packet :
    (o len status value : ℕ) (rest ret : List ℕ) (ps qs : List (List ℕ)) (d e : Driver)
    → one_of o number_replies ≡ true
    → d.event_or_data_received ≡ 0
    → d.rx_data_pending ≡ 0
    → 4 ≤ length ret
    → Consumes ps (record d { rx_event_opcode = o }) e
    → simple_link_wait_event o (ps ++ (number_packet o len status value rest ∷ qs)) ret d
      ≡ ok (
        record { ret = splice ret 0 (le32 value); from = none },
        record e {
          rx_event_opcode = 0;
          event_or_data_received = 0;
          spi_enabled = true;
          received_data = number_packet o len status value rest;
        },
        qs,
      )
unfolding simple_link_wait_event
simple_link_wait_event-number_packet o len status value rest ret ps qs d e known idle no_data room
      before =
    hci_event_handler-Consumes ps (number_packet o len status value rest ∷ qs) c d' e idle before
    ∙ hci_event_handler-reply o len status value rest
        (one_of-All IsNumberReply o number_replies known number_replies-All) e at_end.1 c qs
        at_end.0 (at_end.2 ∙ no_data) room
  where
    c : Caller
    c = record { ret = ret; from = none }

    d' : Driver
    d' = record d { rx_event_opcode = o }

    at_end :
        (e.event_or_data_received ≡ 0)
        × (e.rx_event_opcode ≡ o)
        × (e.rx_data_pending ≡ d.rx_data_pending)
    at_end = Consumes-idle ps d' e idle before
