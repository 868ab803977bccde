-- ===== src/Events/Loop/Recv.antt =====
-- The wait for the reply to `recv`.
use arduino_spider_l3s_libra.Base.{
  ℕ, ◌+◌, ◌≡◌, ◌≢◌, refl, sym, ap, ◌∙◌, List, [], ◌∷◌, ◌++◌, length, length-take, length-drop, take,
  drop, true, false, none, Result, ok, u32, ◌<<<◌, arith, append_assoc, ◌==◌, ==_iff, not, ◌&&◌,
}
use arduino_spider_l3s_libra.Stream.{load, stream_to_uint8, stream_to_uint16, stream_to_uint32}
use arduino_spider_l3s_libra.Stream.Memory.{le32}
use arduino_spider_l3s_libra.Stream.Parts.{store_bytes-part}
use arduino_spider_l3s_libra.Stream.RoundTrip.{take-append-drop}
use arduino_spider_l3s_libra.Driver.{Driver}
use arduino_spider_l3s_libra.Driver.Opcode
use arduino_spider_l3s_libra.Events.Unsolicited.{
  error_socket_inactive, hci_unsol_event_handler, hci_unsolicited_event_handler, spi_receive,
}
use arduino_spider_l3s_libra.Events.Solicited.{reply_uint32, recv_reply, store_reply}
use arduino_spider_l3s_libra.Events.Solicited.Laws.{recv_packet}
use arduino_spider_l3s_libra.Events.Loop.{
  Caller, Round, handle_event, handle_packet, loop_round, simple_link_wait_event,
}
use arduino_spider_l3s_libra.Events.Loop.Laws.{
  Consumes, Consumes-idle, hci_event_handler-Consumes, hci_event_handler-packet,
  hci_event_handler-returned,
}

-- The 32-bit number in four bytes.
abbrev pub word : ℕ → ℕ → ℕ → ℕ → ℕ
word b0 b1 b2 b3 = u32 (u32 (b3 <<< 24) + u32 (b2 <<< 16) + u32 (b1 <<< 8) + b0)

module _ (len status sd number flags : ℕ) (rest : List ℕ) where
  abbrev reply : List ℕ
  reply = recv_packet len status sd number flags rest

  abbrev pub stored : List ℕ → List ℕ
  stored behind = le32 (u32 sd) ++ (le32 (u32 number) ++ (le32 (u32 flags) ++ behind))

  first_lem : stream_to_uint32 reply 5 ≡ ok (u32 sd)
  unfolding stream_to_uint32 load
  first_lem = ap {B = Result ℕ} ok (omega arith)

  second_lem : stream_to_uint32 reply 9 ≡ ok (u32 number)
  unfolding stream_to_uint32 load
  second_lem = ap {B = Result ℕ} ok (omega arith)

  third_lem : stream_to_uint32 reply 13 ≡ ok (u32 flags)
  unfolding stream_to_uint32 load
  third_lem = ap {B = Result ℕ} ok (omega arith)

  -- The reply lies in the twelve bytes of the structure; what the code reads behind them is no error.
  store_reply-room :
      (place : List ℕ) (b0 b1 b2 b3 : ℕ) (more : List ℕ)
      → length place ≡ 12
      → word b0 b1 b2 b3 ≢ error_socket_inactive
      → (d : Driver)
      → store_reply Opcode.cmnd_recv reply (place ++ (b0 ∷ b1 ∷ b2 ∷ b3 ∷ more)) d
        ≡ ok (stored (b0 ∷ b1 ∷ b2 ∷ b3 ∷ more), d)
  unfolding store_reply recv_reply reply_uint32
  store_reply-room place b0 b1 b2 b3 more twelve works d =
      rw
        (
          first_lem,
          split,
          store_bytes-part [] p1 (p2 ++ (p3 ++ tail)) (le32 (u32 sd)) 0 refl (omega (arith, size1)),
          second_lem,
          store_bytes-part (le32 (u32 sd)) p2 (p3 ++ tail) (le32 (u32 number)) 4 refl
              (omega (arith, size2)),
          third_lem,
          store_bytes-part (le32 (u32 sd) ++ le32 (u32 number)) p3 tail (le32 (u32 flags)) 8 refl
              (omega (arith, size3)),
          behind,
          flags_at,
          sound,
        )
        refl
    where
      tail : List ℕ
      tail = b0 ∷ b1 ∷ b2 ∷ b3 ∷ more

      p1 : List ℕ
      p1 = take 4 place

      p2 : List ℕ
      p2 = take 4 (drop 4 place)

      p3 : List ℕ
      p3 = drop 4 (drop 4 place)

      size1 : length p1 ≡ 4
      size1 = omega (arith, twelve, length-take 4 place)

      size2 : length p2 ≡ 4
      size2 = omega (arith, twelve, length-take 4 (drop 4 place), length-drop 4 place)

      size3 : length p3 ≡ 4
      size3 = omega (arith, twelve, length-drop 4 (drop 4 place), length-drop 4 place)

      split : place ++ tail ≡ p1 ++ (p2 ++ (p3 ++ tail))
      split =
          ap (λ b. b ++ tail) (sym (take-append-drop 4 place))
          ∙ (append_assoc p1 (drop 4 place) tail
              ∙ ap (◌++◌ p1) (
                  ap (λ b. b ++ tail) (sym (take-append-drop 4 (drop 4 place)))
                  ∙ append_assoc p2 p3 tail))

      behind : stream_to_uint32 (stored tail) 12 ≡ ok (word b0 b1 b2 b3)
      behind = unfold stream_to_uint32 load in refl

      flags_at : stream_to_uint32 (stored tail) 8 ≡ ok (u32 flags)
      flags_at = unfold stream_to_uint32 load in ap {B = Result ℕ} ok (omega arith)

      sound : (word b0 b1 b2 b3 == error_socket_inactive) ≡ false
      sound = ground (arith, works)

  opcode_lem : stream_to_uint16 reply 1 ≡ ok Opcode.cmnd_recv
  unfolding stream_to_uint16 load
  opcode_lem = refl

  not_unsolicited :
      (d : Driver)
      → hci_unsol_event_handler reply d
        ≡ ok (d, not (Opcode.cmnd_recv == d.rx_event_opcode) && true)
  unfolding hci_unsol_event_handler
  not_unsolicited d = rw opcode_lem refl

  module _ (d : Driver) (waits : d.rx_event_opcode ≡ Opcode.cmnd_recv) where
    abbrev pending : Driver
    pending = record d { spi_enabled = false; event_or_data_received = 1; received_data = reply }

    same : (Opcode.cmnd_recv == d.rx_event_opcode) ≡ true
    same = (==_iff Opcode.cmnd_recv d.rx_event_opcode).1 (sym waits)

    spi_receive-reply : spi_receive reply d ≡ ok pending
    unfolding spi_receive hci_unsolicited_event_handler stream_to_uint8 load
    spi_receive-reply = rw (not_unsolicited pending, same) refl

    handle_packet-reply :
        (c : Caller) (ret : List ℕ)
        → ((d : Driver) → store_reply Opcode.cmnd_recv reply c.ret d ≡ ok (ret, d))
        → handle_packet c pending
          ≡ ok (
            record c { ret = ret },
            record pending { rx_event_opcode = 0; event_or_data_received = 0; spi_enabled = true },
          )
    unfolding handle_packet handle_event stream_to_uint8 load
    handle_packet-reply c ret stores =
        rw (opcode_lem, not_unsolicited pending, same, stores pending, same) refl

-- The wait for the reply to `recv`, on a host as `Socket.command` leaves it.
pub simple_link_wait_event-recv_packet :
    (len status sd number flags : ℕ) (rest place : List ℕ) (b0 b1 b2 b3 : ℕ) (more : List ℕ)
    (ps qs : List (List ℕ)) (d e : Driver)
    → length place ≡ 12
    → word b0 b1 b2 b3 ≢ error_socket_inactive
    → d.event_or_data_received ≡ 0
    → d.rx_data_pending ≡ 0
    → Consumes ps (record d { rx_event_opcode = Opcode.cmnd_recv }) e
    → simple_link_wait_event Opcode.cmnd_recv
        (ps ++ (recv_packet len status sd number flags rest ∷ qs))
        (place ++ (b0 ∷ b1 ∷ b2 ∷ b3 ∷ more))
        d
      ≡ ok (
        record {
          ret = stored len status sd number flags rest (b0 ∷ b1 ∷ b2 ∷ b3 ∷ more);
          from = none;
        },
        record e {
          rx_event_opcode = 0;
          event_or_data_received = 0;
          spi_enabled = true;
          received_data = recv_packet len status sd number flags rest;
        },
        qs,
      )
unfolding simple_link_wait_event
simple_link_wait_event-recv_packet len status sd number flags rest place b0 b1 b2 b3 more ps qs d e
      twelve works idle no_data before =
    hci_event_handler-Consumes ps (packet ∷ qs) c d' e idle before
    ∙ (hci_event_handler-packet packet qs c e _ at_end.0
          (spi_receive-reply len status sd number flags rest e at_end.1)
        ∙ hci_event_handler-returned qs c _ _ _ round)
  where
    packet : List ℕ
    packet = recv_packet len status sd number flags rest

    c : Caller
    c = record { ret = place ++ (b0 ∷ b1 ∷ b2 ∷ b3 ∷ more); from = none }

    d' : Driver
    d' = record d { rx_event_opcode = Opcode.cmnd_recv }

    at_end :
        (e.event_or_data_received ≡ 0)
        × (e.rx_event_opcode ≡ Opcode.cmnd_recv)
        × (e.rx_data_pending ≡ d.rx_data_pending)
    at_end = Consumes-idle ps d' e idle before

    no_data' : e.rx_data_pending ≡ 0
    no_data' = at_end.2 ∙ no_data

    round :
        loop_round c
          (record e { spi_enabled = false; event_or_data_received = 1; received_data = packet })
        ≡ ok (
            Round.returned
              (record {
                ret = stored len status sd number flags rest (b0 ∷ b1 ∷ b2 ∷ b3 ∷ more);
                from = none;
              })
              (record e {
                rx_event_opcode = 0;
                event_or_data_received = 0;
                spi_enabled = true;
                received_data = packet;
              }))
    round =
        unfold loop_round in
        rw
          (
            handle_packet-reply len status sd number flags rest e at_end.1 c _ (
                store_reply-room len status sd number flags rest place b0 b1 b2 b3 more twelve
                  works),
            no_data',
          )
          refl
