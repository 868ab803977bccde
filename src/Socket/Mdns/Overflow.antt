-- ===== src/Socket/Mdns/Overflow.antt =====
-- Names for which the packet of `mdnsAdvertiser` is larger than its 220 bytes, and the call that sends
-- it.
use arduino_spider_l3s_libra.Base.{
  ℕ, ◌+◌, ◌-◌, ◌*◌, ◌≤◌, ◌<◌, ◌≡◌, refl, List, [], ◌∷◌, length, some, ltb, false, true, Result, ok,
  trap, Trap, ◌>>=◌, u8, u32, arith, IfInBounds, IfInBounds->>=, >>=-out_of_bounds, is_nonneg32,
}
use arduino_spider_l3s_libra.Stream.{Cursor, store, store_bytes, load, memmove, load_bytes}
use arduino_spider_l3s_libra.Stream.InBounds.{
  HasSize, Any, store-HasSize, store_bytes-HasSize, load-in_bounds, memmove-HasSize,
  store-out_of_bounds, load_bytes-out_of_bounds, load_bytes-in_bounds, array_to_stream-in_bounds,
  uint32_to_stream-in_bounds,
}
use arduino_spider_l3s_libra.Stream.{uint32_to_stream}
use arduino_spider_l3s_libra.Socket.Mdns.{
  insert_name, fill_template, mdns_response, mdns_address, mdns_send, mdns_advertiser_host,
}
use arduino_spider_l3s_libra.Socket.Mdns.Laws.{template_parts, mdns_response-encode_message}
use native.Mathlib.Decide.{dec_lt}
use arduino_spider_l3s_libra.Driver.{Driver}
use arduino_spider_l3s_libra.Driver.Opcode
use arduino_spider_l3s_libra.Socket.{Host, uint32s_to_stream}
use arduino_spider_l3s_libra.Socket.Commands.{socket}
use arduino_spider_l3s_libra.Socket.Transfer.{
  copied, send_packet, simple_link_send, sendto, host_flow_control_consume_buff,
}

insert_name-HasSize :
    (m : ℕ) (b : List ℕ) (p : ℕ) (name : List ℕ) (count : ℕ)
    → HasSize m b
    → IfInBounds (HasSize m) (insert_name b p name count)
unfolding insert_name
insert_name-HasSize m b p name count e =
    IfInBounds->>= (HasSize m) (HasSize m) (memmove b (p + length name) p count)
      (λ c. store_bytes c p name) (memmove-HasSize m b (p + length name) p count e)
      (λ c k. store_bytes-HasSize m c p name k)

module _ (name local_ip : List ℕ) (long : 22 ≤ length name) where
  abbrev n : ℕ
  n = length name

  -- The last byte of the address lies behind the buffer.
  fill_template-out_of_bounds :
      (t : Cursor)
      → HasSize 220 t.buffer
      → t.position ≡ 173
      → fill_template name local_ip t ≡ trap Trap.out_of_bounds
  unfolding fill_template
  fill_template-out_of_bounds t size position =
      step (store t.buffer 46 (u8 (3 + n))) _ (store-HasSize 220 t.buffer 46 (u8 (3 + n)) size)
        λ b1 e1. step (store b1 47 (u8 n)) _ (store-HasSize 220 b1 47 (u8 n) e1) λ b2 e2.
          step (insert_name b2 48 name (t.position - 48)) _
            (insert_name-HasSize 220 b2 48 name (t.position - 48) e2)
            λ b4 e4.
              step (store b4 (151 + n) (u8 (9 + n))) _
                (store-HasSize 220 b4 (151 + n) (u8 (9 + n)) e4)
                λ b5 e5.
                  step (store b5 (158 + n) (u8 n)) _ (store-HasSize 220 b5 (158 + n) (u8 n) e5)
                    λ b6 e6.
                      step (insert_name b6 (159 + n) name (t.position - 158)) _
                        (insert_name-HasSize 220 b6 (159 + n) name (t.position - 158) e6)
                        λ b8 e8.
                          >>=-out_of_bounds Any (load local_ip 3) _ (load-in_bounds local_ip 3)
                            λ ip3 _.
                              step (store b8 (t.position + n + n) ip3) _
                                (store-HasSize 220 b8 (t.position + n + n) ip3 e8)
                                λ b9 e9.
                                  >>=-out_of_bounds Any (load local_ip 2) _
                                    (load-in_bounds local_ip 2)
                                    λ ip2 _.
                                      step (store b9 (t.position + n + n + 1) ip2) _
                                        (store-HasSize 220 b9 (t.position + n + n + 1) ip2 e9)
                                        λ b10 e10.
                                          >>=-out_of_bounds Any (load local_ip 1) _
                                            (load-in_bounds local_ip 1)
                                            λ ip1 _.
                                              step (store b10 (t.position + n + n + 2) ip1) _
                                                (store-HasSize 220 b10 (t.position + n + n + 2) ip1
                                                  e10)
                                                λ b11 e11.
                                                  >>=-out_of_bounds Any (load local_ip 0) _
                                                    (load-in_bounds local_ip 0)
                                                    λ ip0 _.
                                                      rw
                                                        (store-out_of_bounds b11
                                                          (t.position + n + n + 3) ip0
                                                          (omega (arith, e11, position, long)))
                                                        refl
    where
      step :
          {B : Type 0} (m : Result (List ℕ)) (f : List ℕ → Result B)
          → IfInBounds (HasSize 220) m
          → ((b : List ℕ) → HasSize 220 b → f b ≡ trap Trap.out_of_bounds)
          → (m >>= f) ≡ trap Trap.out_of_bounds
      step = >>=-out_of_bounds (HasSize 220)

-- For a name of 22 bytes or more the code writes past the end of `mdnsResponse`; a name may have 32.
pub mdns_response-out_of_bounds :
    (name local_ip : List ℕ)
    → 22 ≤ length name
    → mdns_response name local_ip ≡ trap Trap.out_of_bounds
unfolding mdns_response
mdns_response-out_of_bounds name local_ip long =
    rw template_parts (fill_template-out_of_bounds name local_ip long _ refl refl)

uint32s_to_stream-in_bounds : (c : Cursor) (vs : List ℕ) → IfInBounds Any (uint32s_to_stream c vs)
unfolding uint32s_to_stream
uint32s_to_stream-in_bounds c [] = tt
uint32s_to_stream-in_bounds c (v ∷ vs) =
    IfInBounds->>= Any Any (uint32_to_stream c v) (λ d. uint32s_to_stream d vs)
      (uint32_to_stream-in_bounds c v) (λ d _. uint32s_to_stream-in_bounds d vs)

-- What `send_packet` reads behind the end of the address is out of bounds, whatever came before.
send_packet-out_of_bounds :
    (sd len flags arg_size : ℕ) (more buf to : List ℕ) (tolen opcode : ℕ) (d : Driver)
    → length to < copied tolen
    → send_packet sd len flags arg_size more buf to tolen opcode d ≡ trap Trap.out_of_bounds
unfolding send_packet
send_packet-out_of_bounds sd len flags arg_size more buf to tolen opcode d over =
    >>=-out_of_bounds Any _ _
      (uint32s_to_stream-in_bounds (record { buffer = d.port.tx; position = 10 })
        (sd ∷ (arg_size - 4) ∷ len ∷ flags ∷ more))
      λ args _.
        >>=-out_of_bounds Any (load_bytes buf 0 (copied len)) _
          (load_bytes-in_bounds buf 0 (copied len))
          λ bytes _.
            >>=-out_of_bounds Any _ _
              (array_to_stream-in_bounds (record { buffer = args.buffer; position = 10 + arg_size })
                bytes)
              λ data_ptr _.
                rw
                  (load_bytes-out_of_bounds to 0 (copied tolen) (omega arith) (omega (arith, over)))
                  refl

sendto-out_of_bounds :
    (sd : ℕ) (buf : List ℕ) (len flags : ℕ) (to : List ℕ) (tolen : ℕ) (local : List ℕ) (h h' : Host)
    → host_flow_control_consume_buff sd h ≡ ok (0, h')
    → length to < copied tolen
    → sendto sd buf len flags to tolen local h ≡ trap Trap.out_of_bounds
unfolding simple_link_send
sendto-out_of_bounds sd buf len flags to tolen local h h' granted over =
    rw
      (
        granted,
        send_packet-out_of_bounds sd len flags 24 (u32 (len + 8) ∷ 8 ∷ []) buf to tolen
            Opcode.cmnd_sendto
            (record h'.driver {
              number_of_sent_packets = u32 (h'.driver.number_of_sent_packets + 1);
            })
            over,
      )
      refl

-- A call with a name, a length of at most 32 and an address of four bytes that opens its socket, and that
-- the flow control grants a buffer, always reads or writes memory out of bounds: it passes the packet's
-- size as that of the 16-byte address, or has written past the end of the packet before.
pub mdns_advertiser_host-out_of_bounds :
    (name : List ℕ) (name_len a b c d : ℕ) (unset local : List ℕ) (sd : ℕ) (h h1 h2 : Host)
    → name_len ≤ 32
    → length unset ≡ 8
    → socket 2 2 17 h ≡ ok (sd, h1)
    → is_nonneg32 sd ≡ true
    → host_flow_control_consume_buff sd h1 ≡ ok (0, h2)
    → mdns_advertiser_host (some name) name_len (a ∷ b ∷ c ∷ d ∷ []) unset local h
      ≡ trap Trap.out_of_bounds
unfolding mdns_advertiser_host mdns_send
mdns_advertiser_host-out_of_bounds name name_len a b c d unset local sd h h1 h2 allowed size opened
      valid granted =
    rw (not_rejected, opened, valid)
      (elim (dec_lt 21 (length name)) [
        | yes long ↦ rw (mdns_response-out_of_bounds name (a ∷ b ∷ c ∷ d ∷ []) (omega arith)) refl
        | no short ↦
            rw
              (
                mdns_response-encode_message name a b c d (omega arith),
                sendto-out_of_bounds sd _ 220 0 (mdns_address unset) (177 + 2 * length name) local
                    h1 h2 granted (ground arith),
              )
              refl
      ])
  where
    not_rejected : ltb 32 name_len ≡ false
    not_rejected = ground arith
