-- ===== src/Ntp/Client.antt =====
-- NTP.c: `NTP_begin`, and the request and the reply of `NTP_get_time`. `local` is the memory of the locals that
-- take the replies of the driver.
use arduino_spider_l3s_libra.Base.{
  ℕ, not, ltb, List, [], ◌∷◌, length, Option, none, some, Bool, false, if◌then◌else◌, Result, ok,
  ◌>>=◌, u8, u16, ◌>>>◌, is_nonneg32,
}
use arduino_spider_l3s_libra.Stream.Memory.{le32}
use arduino_spider_l3s_libra.Socket.{Host}
use arduino_spider_l3s_libra.Socket.Commands.{socket, closesocket, gethostbyname, setsockopt}
use arduino_spider_l3s_libra.Socket.Transfer.{sendto, recvfrom}
use arduino_spider_l3s_libra.Spider.{Board, with_host, spider_start_arp_event}
use arduino_spider_l3s_libra.Ntp.{timestamp_now, Time, time_of}

-- The globals of NTP.c, and `first_send`.
pub record Client : Type 0 where
  pub ntp_socket : ℕ
  pub host_addr : List ℕ
  pub gmt : ℕ
  pub first_send : Bool

abbrev pub zero_address : List ℕ
zero_address = 0 ∷ 0 ∷ 0 ∷ 0 ∷ 0 ∷ 0 ∷ 0 ∷ 0 ∷ 0 ∷ 0 ∷ 0 ∷ 0 ∷ 0 ∷ 0 ∷ 0 ∷ 0 ∷ []

-- AF_INET, port 123, the address and zeroes.
abbrev pub ntp_address : ℕ → List ℕ
ntp_address ip =
    2
    ∷ 0
    ∷ 0
    ∷ 123
    ∷ u8 (ip >>> 24)
    ∷ u8 (ip >>> 16)
    ∷ u8 (ip >>> 8)
    ∷ u8 ip
    ∷ 0
    ∷ 0
    ∷ 0
    ∷ 0
    ∷ 0
    ∷ 0
    ∷ 0
    ∷ 0
    ∷ []

-- From the socket on: the result, 0, -2 or -3.
unfoldable pub ntp_open : ℕ → List ℕ → Client → Host → Result (ℕ × Client × Host)
ntp_open ip local c h = do
  s ← socket 2 2 17 h
  if not (is_nonneg32 s.0) then ok (0xfffe, record c { ntp_socket = 0xffffffff }, s.1) else (do
    t ← setsockopt s.0 0xffff 1 (le32 1000) 4 local s.1
    if ltb t.0 0x8000
        then ok (0, record c { ntp_socket = s.0; host_addr = ntp_address ip }, t.1)
        else (closesocket s.0 t.1 >>= λ q. ok (0xfffd, record c { ntp_socket = 0xffffffff }, q.1)))

unfoldable pub ntp_begin : ℕ → List ℕ → List ℕ → Client → Host → Result (ℕ × Client × Host)
ntp_begin loc_gmt server_addr local c h =
    let d = record c { host_addr = zero_address; gmt = loc_gmt } in
    gethostbyname server_addr (u16 (length server_addr)) local h >>= λ r. elim (r.1) [
      | none ↦ ok (0xffff, d, r.2)
      | some ip ↦ if ltb r.0 0x8000 then ntp_open ip local d r.2 else ok (0xffff, d, r.2)
    ]

-- `msg`, version 3 and mode client, and zeroes.
abbrev pub ntp_request : List ℕ
ntp_request =
    0x23 ∷ 0 ∷ 0 ∷ 0 ∷ 0 ∷ 0 ∷ 0 ∷ 0 ∷ 0 ∷ 0 ∷ 0 ∷ 0 ∷ 0 ∷ 0 ∷ 0 ∷ 0 ∷ 0 ∷ 0 ∷ 0 ∷ 0 ∷ 0 ∷ 0 ∷ 0 ∷ 0
    ∷ 0 ∷ 0 ∷ 0 ∷ 0 ∷ 0 ∷ 0 ∷ 0 ∷ 0 ∷ 0 ∷ 0 ∷ 0 ∷ 0 ∷ 0 ∷ 0 ∷ 0 ∷ 0 ∷ 0 ∷ 0 ∷ 0 ∷ 0 ∷ 0 ∷ 0 ∷ 0 ∷ 0
    ∷ []

-- The first time the ARP flag is set to INIT; the wait after it, while the flag is DONE, ends at once.
abbrev pub first_sent : Client → Board → Board
first_sent c b = if c.first_send then spider_start_arp_event b else b

-- The reply: the result, and the time that the caller's pointers get; `*day` was `day0`.
unfoldable pub ntp_receive : ℕ → List ℕ → Client → Board → Result (ℕ × Option Time × Client × Board)
ntp_receive day0 local c b = do
  r ← recvfrom c.ntp_socket ntp_request 48 0 (zero_address, 0 ∷ 0 ∷ 0 ∷ 0 ∷ []) local b.host
  if not (ltb r.0.result 0x8000) then ok (r.0.result, none, c, with_host b r.1) else (do
    now ← timestamp_now r.0.buf c.gmt
    time ← time_of now day0
    ok (1, some time, c, with_host b r.1))

unfoldable pub ntp_get_time :
    ℕ → List ℕ → Client → Board → Result (ℕ × Option Time × Client × Board)
ntp_get_time day0 local c b = do
  s ← sendto c.ntp_socket ntp_request 48 0 c.host_addr 16 local b.host
  let d = record c { first_send = false }
  let e = first_sent c (with_host b s.1)
  if ltb s.0 0x8000 then ntp_receive day0 local d e else ok (s.0, none, d, e)
