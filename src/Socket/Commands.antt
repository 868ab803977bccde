-- ===== src/Socket/Commands.antt =====
-- The calls of socket.c that send one command and wait for its reply.
pub mod Laws
use arduino_spider_l3s_libra.Base.{
  ℕ, ◌+◌, ◌-◌, ltb, List, [], ◌∷◌, Option, none, some, if◌then◌else◌, Result, ok, ◌>>=◌, u8, u16,
  u32, is_nonneg32,
}
use arduino_spider_l3s_libra.Stream.{
  Cursor, load_bytes, store_bytes, array_to_stream, stream_to_uint8, stream_to_uint16,
  stream_to_uint32,
}
use arduino_spider_l3s_libra.Stream.Memory.{le32}
use arduino_spider_l3s_libra.Driver.Opcode
use arduino_spider_l3s_libra.Driver.Status.{active, inactive, is_valid_sd}
use arduino_spider_l3s_libra.Socket.{
  Host, efail, extend16, with_errno, with_status, uint32s_to_stream, command,
}

unfoldable pub socket : ℕ → ℕ → ℕ → Host → Result (ℕ × Host)
socket domain kind protocol h = do
  r ←
      command Opcode.cmnd_socket 12 Opcode.cmnd_socket
        (λ c. uint32s_to_stream c (domain ∷ kind ∷ protocol ∷ [])) (le32 efail) h
  ret ← stream_to_uint32 r.0 0
  ok (ret, with_status ret active (with_errno ret r.1))

unfoldable pub closesocket : ℕ → Host → Result (ℕ × Host)
closesocket sd h = do
  r ←
      command Opcode.cmnd_close_socket 4 Opcode.cmnd_close_socket
        (λ c. uint32s_to_stream c (sd ∷ [])) (le32 efail) h
  ret ← stream_to_uint32 r.0 0
  ok (ret, with_status sd inactive (with_errno ret r.1))

-- `addr` is the memory at the caller's address; the new `addr` and `*addrlen`, 8, are results.
unfoldable pub accept : ℕ → List ℕ → List ℕ → Host → Result (ℕ × List ℕ × ℕ × Host)
accept sd addr local h = do
  r ← command Opcode.cmnd_accept 4 Opcode.cmnd_accept (λ c. uint32s_to_stream c (sd ∷ [])) local h
  socket_address ← load_bytes r.0 8 8
  a ← store_bytes addr 0 socket_address
  status ← stream_to_uint32 r.0 4
  let ret = extend16 (u16 status)
  let e = with_errno status r.1
  ok (ret, a, 8, (if is_valid_sd ret then with_status ret active e else with_status sd inactive e))

-- The arguments of `bind` and `connect`, which send eight bytes of the address.
unfoldable pub address_args : ℕ → List ℕ → Cursor → Result Cursor
address_args sd addr c = do
  d ← uint32s_to_stream c (sd ∷ 0x8 ∷ 0x8 ∷ [])
  bytes ← load_bytes addr 0 8
  array_to_stream d bytes

unfoldable pub bind : ℕ → List ℕ → Host → Result (ℕ × Host)
bind sd addr h = do
  r ← command Opcode.cmnd_bind 20 Opcode.cmnd_bind (address_args sd addr) (le32 efail) h
  ret ← stream_to_uint32 r.0 0
  ok (ret, with_errno ret r.1)

unfoldable pub listen : ℕ → ℕ → Host → Result (ℕ × Host)
listen sd backlog h = do
  r ←
      command Opcode.cmnd_listen 8 Opcode.cmnd_listen (λ c. uint32s_to_stream c (sd ∷ backlog ∷ []))
        (le32 efail) h
  ret ← stream_to_uint32 r.0 0
  ok (ret, with_errno ret r.1)

unfoldable pub connect : ℕ → List ℕ → Host → Result (ℕ × Host)
connect sd addr h = do
  r ← command Opcode.cmnd_connect 20 Opcode.cmnd_connect (address_args sd addr) (le32 efail) h
  ret ← stream_to_uint32 r.0 0
  ok (ret, with_errno ret r.1)

-- HOSTNAME_MAX_LENGTH
abbrev pub hostname_max_length : ℕ
hostname_max_length = 230

unfoldable pub name_args : List ℕ → List ℕ → ℕ → Cursor → Result Cursor
name_args numbers name len c = do
  d ← uint32s_to_stream c numbers
  bytes ← load_bytes name 0 len
  array_to_stream d bytes

-- The result is an INT16; the address is left alone, `none`, when the name is too long.
unfoldable pub gethostbyname : List ℕ → ℕ → List ℕ → Host → Result (ℕ × Option ℕ × Host)
gethostbyname hostname name_len local h =
    let h0 = with_errno efail h in
    if ltb hostname_max_length name_len then ok (u16 efail, none, h0) else (do
      r ←
          command Opcode.cmnd_gethostname (9 + name_len - 1) Opcode.cmnd_gethostname
            (name_args (8 ∷ name_len ∷ []) hostname name_len) local h0
      ret_val ← stream_to_uint32 r.0 0
      output_address ← stream_to_uint32 r.0 4
      ok (u16 ret_val, some output_address, with_errno ret_val r.1))

-- MDNS_DEVICE_SERVICE_MAX_LENGTH is 32. This is the function for builds without MDNS_ADVERTISE_HOST; the
-- result is an INT8, widened to an INT16.
unfoldable pub mdns_advertiser : ℕ → List ℕ → ℕ → List ℕ → Host → Result (ℕ × Host)
mdns_advertiser mdns_enabled name name_len local h =
    if ltb 32 name_len then ok (u16 efail, h) else (do
      r ←
          command Opcode.cmnd_mdns_advertise (12 + name_len) Opcode.cmnd_mdns_advertise
            (name_args (mdns_enabled ∷ 8 ∷ name_len ∷ []) name name_len) local h
      ret ← stream_to_uint8 r.0 0
      ok ((if ltb ret 0x80 then ret else ret + 0xff00), r.1))

unfoldable pub getmssvalue : ℕ → List ℕ → Host → Result (ℕ × Host)
getmssvalue sd local h = do
  r ←
      command Opcode.cmnd_getmssvalue 4 Opcode.cmnd_getmssvalue (λ c. uint32s_to_stream c (sd ∷ []))
        local h
  ret ← stream_to_uint16 r.0 0
  ok (ret, r.1)

-- The result is an INT16.
unfoldable pub setsockopt : ℕ → ℕ → ℕ → List ℕ → ℕ → List ℕ → Host → Result (ℕ × Host)
setsockopt sd level optname optval optlen local h = do
  r ←
      command Opcode.cmnd_setsockopt (20 + optlen) Opcode.cmnd_setsockopt
        (name_args (sd ∷ level ∷ optname ∷ 0x8 ∷ optlen ∷ []) optval optlen) local h
  ret ← stream_to_uint32 r.0 0
  ok (if is_nonneg32 ret then (0, r.1) else (u16 ret, with_errno ret r.1))

-- The result is an INT16; `*optval` and `*optlen` = 4 are set, `some`, unless the status is negative. CHAR
-- is signed on the AVR.
unfoldable pub getsockopt : ℕ → ℕ → ℕ → List ℕ → Host → Result (ℕ × Option (List ℕ) × Host)
getsockopt sd level optname local h = do
  r ←
      command Opcode.cmnd_getsockopt 12 Opcode.cmnd_getsockopt
        (λ c. uint32s_to_stream c (sd ∷ level ∷ optname ∷ [])) local h
  status ← stream_to_uint8 r.0 4
  value ← load_bytes r.0 0 4
  let e = status + 0xff00
  ok (if ltb status 0x80 then (0, some value, r.1) else (e, none, with_errno e r.1))
