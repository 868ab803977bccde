-- ===== src/Socket/Mdns.antt =====
-- socket.c: `mdnsAdvertiser` of builds with MDNS_ADVERTISE_HOST, which writes the packet itself and
-- sends it to 224.0.0.251. The name is the bytes before its NUL, and `none` is a null pointer; `local_ip`
-- is `localIP`.
mod Tests
pub mod Message
pub mod Fill
pub mod Laws
pub mod Overflow
use arduino_spider_l3s_libra.Base.{
  ℕ, zero, suc, ◌+◌, ◌-◌, ltb, List, [], ◌∷◌, Option, none, some, if◌then◌else◌, Result, ok, ◌>>=◌,
  u8, u16, length, replicate, is_nonneg32,
}
use arduino_spider_l3s_libra.Base.Text.{codes}
use arduino_spider_l3s_libra.Stream.{Cursor, store, store_bytes, load, memmove}
use arduino_spider_l3s_libra.Socket.{Host, efail}
use arduino_spider_l3s_libra.Socket.Commands.{socket, closesocket}
use arduino_spider_l3s_libra.Socket.Transfer.{sendto}

-- `*p = v` for a CHAR.
abbrev write : ℕ → Cursor → Result Cursor
write v c = do b ← store c.buffer c.position (u8 v); ok (record c { buffer = b })

-- `p += n`
abbrev advance : ℕ → Cursor → Result Cursor
advance n c = ok (record c { position = c.position + n })

-- `*p++ = v`
abbrev put : ℕ → Cursor → Result Cursor
put v c = do d ← write v c; advance 1 d

-- `memcpy(p, s, n)` of a text of `n` bytes.
abbrev copy : List ℕ → Cursor → Result Cursor
copy s c = do b ← store_bytes c.buffer c.position s; ok (record c { buffer = b })

-- One statement after the other.
abbrev in_order : List (Cursor → Result Cursor) → Cursor → Result Cursor
in_order [] c = ok c
in_order (w ∷ ws) c = w c >>= λ d. in_order ws d

unfoldable pub device_answer : Cursor → Result Cursor
device_answer = in_order (
    put 12
    ∷ copy (codes "_device-info")
    ∷ advance 12
    ∷ put 4
    ∷ copy (codes "_udp")
    ∷ advance 4
    ∷ put 5
    ∷ copy (codes "local")
    ∷ advance 7
    ∷ write 0xc
    ∷ advance 2
    ∷ write 0x1
    ∷ advance 3
    ∷ put 0x11
    ∷ write 0x94
    ∷ advance 4
    ∷ put 0xc0
    ∷ put 0x0c
    ∷ [])

unfoldable pub services_answer : Cursor → Result Cursor
services_answer = in_order (
    put 9
    ∷ copy (codes "_services")
    ∷ advance 9
    ∷ put 7
    ∷ copy (codes "_dns-sd")
    ∷ advance 7
    ∷ put 4
    ∷ copy (codes "_udp")
    ∷ advance 4
    ∷ put 5
    ∷ copy (codes "local")
    ∷ advance 7
    ∷ write 0xc
    ∷ advance 2
    ∷ write 0x1
    ∷ advance 3
    ∷ put 0x11
    ∷ write 0x94
    ∷ advance 2
    ∷ put 2
    ∷ put 0xc0
    ∷ put 0x0c
    ∷ [])

-- What the last three answers share: a pointer into the packet, its type, the class and the TTL.
abbrev unicast : (Cursor → Result Cursor) → ℕ → List (Cursor → Result Cursor)
unicast pointer kind =
    put 0xc0
    ∷ pointer
    ∷ advance 2
    ∷ put kind
    ∷ put 0x80
    ∷ write 0x1
    ∷ advance 3
    ∷ put 0x11
    ∷ write 0x94
    ∷ advance 2
    ∷ []

unfoldable pub text_answer : Cursor → Result Cursor
text_answer c = do
  d ← in_order (unicast (write 0x2f) 0x10) c
  in_order
      (put 36
        ∷ put 10
        ∷ copy (codes "dev=CC3000")
        ∷ advance 10
        ∷ put 24
        ∷ copy (codes "vendor=Texas-Instruments")
        ∷ advance 24
        ∷ [])
      d

unfoldable pub service_answer : Cursor → Result Cursor
service_answer c = do
  d ← in_order (unicast (write 0x2f) 0x21) c
  in_order (advance 5 ∷ put 0x4 ∷ put 0xd2 ∷ advance 1 ∷ put 0xc0 ∷ put 0x1e ∷ []) d

unfoldable pub address_answer : Cursor → Result Cursor
address_answer c = do d ← in_order (unicast (λ e. write (u16 e.position - 4) e) 0x1) c; put 4 d

-- The packet without the name and the address, in the 220 bytes of `mdnsResponse`.
unfoldable pub mdns_template : Result Cursor
unfolding device_answer services_answer text_answer service_answer address_answer store store_bytes
mdns_template = do
  b ← store (replicate 220 0) 2 0x84
  b1 ← store b 7 0x5
  in_order (device_answer ∷ services_answer ∷ text_answer ∷ service_answer ∷ address_answer ∷ [])
      (record { buffer = b1; position = 12 })

-- The `count` bytes from `p` on pushed behind the place of the name, and the name put there.
unfoldable pub insert_name : List ℕ → ℕ → List ℕ → ℕ → Result (List ℕ)
insert_name b p name count = do
  pushed ← memmove b (p + length name) p count
  store_bytes pushed p name

-- The name and the address put into the template, from the domain's length on: the packet in
-- `mdnsResponse`, and its length.
unfoldable pub fill_template : List ℕ → List ℕ → Cursor → Result (List ℕ × ℕ)
fill_template name local_ip t = do
  let n = length name
  b1 ← store t.buffer 46 (u8 (3 + n))
  b2 ← store b1 47 (u8 n)
  b4 ← insert_name b2 48 name (t.position - 48)
  b5 ← store b4 (151 + n) (u8 (9 + n))
  b6 ← store b5 (158 + n) (u8 n)
  b8 ← insert_name b6 (159 + n) name (t.position - 158)
  ip3 ← load local_ip 3
  b9 ← store b8 (t.position + n + n) ip3
  ip2 ← load local_ip 2
  b10 ← store b9 (t.position + n + n + 1) ip2
  ip1 ← load local_ip 1
  b11 ← store b10 (t.position + n + n + 2) ip1
  ip0 ← load local_ip 0
  b12 ← store b11 (t.position + n + n + 3) ip0
  pointer ← load b12 (t.position + n + n + 4 - 15)
  b13 ← store b12 (t.position + n + n + 4 - 15) (u8 (pointer + n))
  ok (b13, u16 (t.position + n + n + 4))

unfoldable pub mdns_response : List ℕ → List ℕ → Result (List ℕ × ℕ)
mdns_response name local_ip = mdns_template >>= λ t. fill_template name local_ip t

-- AF_INET, port 5353 of 224.0.0.251, and the bytes of `tSocketAddr` that are not set.
abbrev pub mdns_address : List ℕ → List ℕ
mdns_address unset = 2 ∷ 0 ∷ 0x14 ∷ 0xe9 ∷ 0xe0 ∷ 0x00 ∷ 0x00 ∷ 0xfb ∷ unset

-- What is sent, and the end; the socket is then marked as none.
unfoldable pub mdns_send : ℕ → List ℕ × ℕ → List ℕ → List ℕ → Host → Result (ℕ × Host)
mdns_send mdns_socket response unset local h = do
  sent ← sendto mdns_socket response.0 220 0 (mdns_address unset) response.1 local h
  closed ← closesocket mdns_socket sent.1
  ok (u16 0xffffffff, closed.1)

-- The result is an INT16. `unset` and `local` are what the stack holds behind the address that is set
-- and in the variable of `sendto` that takes the reply.
unfoldable pub mdns_advertiser_host :
    Option (List ℕ) → ℕ → List ℕ → List ℕ → List ℕ → Host → Result (ℕ × Host)
mdns_advertiser_host none name_len local_ip unset local h = ok (u16 efail, h)
mdns_advertiser_host (some name) name_len local_ip unset local h =
    if ltb 32 name_len then ok (u16 efail, h) else (do
      s ← socket 2 2 17 h
      if is_nonneg32 s.0
          then (do response ← mdns_response name local_ip; mdns_send s.0 response unset local s.1)
          else ok (0xffff, s.1))
