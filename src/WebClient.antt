-- ===== src/WebClient.antt =====
-- WebClient.c over socket.c. A string is its bytes without the zero at its end; an int has 16 bits. `local` is
-- the memory of the locals that take the replies.
pub mod Overflow
pub mod GetRequest
mod Tests
use arduino_spider_l3s_libra.Base.{
  ℕ, zero, suc, ◌+◌, ◌-◌, ◌/◌, ◌%◌, ◌^◌, ◌==◌, ◌&&◌, not, ltb, List, [], ◌∷◌, ◌++◌, length, take,
  drop, Option, some, none, Bool, true, false, if◌then◌else◌, Result, ok, ◌>>=◌, u8, u16, u32,
  ◌>>>◌, is_nonneg32, bit_and,
}
use arduino_spider_l3s_libra.Stream.{store_bytes}
use arduino_spider_l3s_libra.Stream.Memory.{le32}
use arduino_spider_l3s_libra.Socket.{Host}
use arduino_spider_l3s_libra.Socket.Commands.{
  socket, closesocket, connect, gethostbyname, setsockopt,
}
use arduino_spider_l3s_libra.Socket.Select.{Sets, select}
use arduino_spider_l3s_libra.Socket.Transfer.{Received, recv, send}

-- WEB_CLI_OK and the others, as patterns of an int.
abbrev pub web_cli_ok : ℕ
web_cli_ok = 0

abbrev pub web_cli_error : ℕ
web_cli_error = 0xffff

abbrev pub web_cli_host_str_fail : ℕ
web_cli_host_str_fail = 0xfffe

abbrev pub web_cli_host_ip_fail : ℕ
web_cli_host_ip_fail = 0xfffd

abbrev pub web_cli_get_socket_fail : ℕ
web_cli_get_socket_fail = 0xfffc

abbrev pub web_cli_set_socket_to_fail : ℕ
web_cli_set_socket_to_fail = 0xfffb

abbrev pub web_cli_server_conn_fail : ℕ
web_cli_server_conn_fail = 0xfffa

abbrev pub web_cli_server_send_fail : ℕ
web_cli_server_send_fail = 0xfff9

abbrev pub web_cli_server_recv_fail : ℕ
web_cli_server_recv_fail = 0xfff8

abbrev pub default_web_port : ℕ
default_web_port = 80

abbrev pub web_client_recv_to : ℕ
web_client_recv_to = 2000

-- `Host_Info`, with the memory of the address.
pub record HostInfo : Type 0 where
  pub host_socket : ℕ
  pub host_addr : List ℕ

abbrev pub is_prefix : List ℕ → List ℕ → Bool
is_prefix [] text = true
is_prefix (p ∷ ps) [] = false
is_prefix (p ∷ ps) (t ∷ ts) = p == t && is_prefix ps ts

-- `strstr`, as the offset of what it finds.
unfoldable pub strstr : List ℕ → List ℕ → Option ℕ
strstr [] pattern_ = if is_prefix pattern_ [] then some 0 else none
strstr (t ∷ ts) pattern_ =
    let rest = strstr ts pattern_ in
    if is_prefix pattern_ (t ∷ ts)
    then some 0
    else elim rest [ none ↦ none | some i ↦ some (i + 1) ]

-- "http://"
abbrev pub http_prefix : List ℕ
http_prefix = 104 ∷ 116 ∷ 116 ∷ 112 ∷ 58 ∷ 47 ∷ 47 ∷ []

-- `sp1`, and how far `sp2` is behind it.
unfoldable pub split_url : List ℕ → Option (List ℕ × ℕ)
split_url url_link = elim (strstr url_link http_prefix) [
  | none ↦ none
  | some i ↦
      let sp1 = drop (i + length http_prefix) url_link in
      elim (strstr sp1 (47 ∷ [])) [ none ↦ none | some n ↦ some (sp1, n) ]
]

-- AF_INET, the port in network order, the four bytes of the address, and what memset left.
abbrev pub host_address : ℕ → List ℕ → List ℕ
host_address port ip =
    2 ∷ 0 ∷ port / 256 % 256 ∷ port % 256 ∷ (ip ++ (0 ∷ 0 ∷ 0 ∷ 0 ∷ 0 ∷ 0 ∷ 0 ∷ 0 ∷ []))

-- `ucip[3]` to `ucip[0]`.
abbrev pub ip_bytes : ℕ → List ℕ
ip_bytes ip = u8 (ip >>> 24) ∷ u8 (ip >>> 16) ∷ u8 (ip >>> 8) ∷ u8 ip ∷ []

abbrev pub cleared_info : HostInfo
cleared_info = record {
  host_socket = 0xffffffff;
  host_addr = 0 ∷ 0 ∷ 0 ∷ 0 ∷ 0 ∷ 0 ∷ 0 ∷ 0 ∷ 0 ∷ 0 ∷ 0 ∷ 0 ∷ 0 ∷ 0 ∷ 0 ∷ 0 ∷ [];
}

-- The socket, its timeout and the address.
unfoldable pub open_socket : List ℕ → List ℕ → Host → Result (ℕ × HostInfo × Host)
open_socket host_addr local h = do
  s ← socket 2 1 6 h
  if not (is_nonneg32 s.0) then ok (web_cli_get_socket_fail, cleared_info, s.1) else (do
    t ← setsockopt s.0 0xffff 1 (le32 web_client_recv_to) 4 local s.1
    if ltb t.0 0x8000
        then ok (web_cli_ok, record { host_socket = s.0; host_addr = host_addr }, t.1)
        else (closesocket s.0 t.1 >>= λ c. ok (web_cli_set_socket_to_fail, cleared_info, c.1)))

-- The address of the host of the URL: the result of `WebClient_Get_HostIP` and the four bytes.
unfoldable pub web_client_get_host_ip : List ℕ → List ℕ → Host → Result (ℕ × Option (List ℕ) × Host)
web_client_get_host_ip url_link local h = elim (split_url url_link) [
  | none ↦ ok (web_cli_host_str_fail, none, h)
  | some s ↦ gethostbyname s.0 (u16 s.1) local h >>= λ r.
      ok (
        if ltb r.0 0x8000
        then (web_cli_ok, address r.1, r.2)
        else (web_cli_host_ip_fail, none, r.2))
]
  where
    address : Option ℕ → Option (List ℕ)
    address none = none
    address (some ip) = some (ip_bytes ip)

unfoldable pub web_client_begin_url : List ℕ → List ℕ → Host → Result (ℕ × HostInfo × Host)
web_client_begin_url url_link local h = web_client_get_host_ip url_link local h >>= λ r.
    elim (r.1) [
      | none ↦ ok (r.0, cleared_info, r.2)
      | some ip ↦ open_socket (host_address default_web_port ip) local r.2
    ]

unfoldable pub web_client_begin_ip : List ℕ → ℕ → List ℕ → Host → Result (ℕ × HostInfo × Host)
web_client_begin_ip ip port local h = open_socket (host_address port ip) local h

unfoldable pub web_client_connect : HostInfo → Host → Result (ℕ × Host)
web_client_connect info h = do
  r ← connect info.host_socket info.host_addr h
  ok ((if ltb (u16 r.0) 0x8000 then u16 r.0 else web_cli_server_conn_fail), r.1)

-- WebGet_MsgFnt, WebGet_MsgMid and WebGet_MsgEnd: "GET ", " HTTP/1.1\r\nHost: " and
-- "\r\nConnection: close\r\n\r\n".
abbrev pub web_get_msg_fnt : List ℕ
web_get_msg_fnt = 71 ∷ 69 ∷ 84 ∷ 32 ∷ []

abbrev pub web_get_msg_mid : List ℕ
web_get_msg_mid =
    32 ∷ 72 ∷ 84 ∷ 84 ∷ 80 ∷ 47 ∷ 49 ∷ 46 ∷ 49 ∷ 13 ∷ 10 ∷ 72 ∷ 111 ∷ 115 ∷ 116 ∷ 58 ∷ 32 ∷ []

abbrev pub web_get_msg_end : List ℕ
web_get_msg_end =
    13 ∷ 10 ∷ 67 ∷ 111 ∷ 110 ∷ 110 ∷ 101 ∷ 99 ∷ 116 ∷ 105 ∷ 111 ∷ 110 ∷ 58 ∷ 32 ∷ 99 ∷ 108 ∷ 111
    ∷ 115 ∷ 101 ∷ 13 ∷ 10 ∷ 13 ∷ 10 ∷ []

-- The parts one after the other, until one is not sent.
unfoldable pub send_parts : HostInfo → List (List ℕ) → List ℕ → Host → Result (ℕ × Host)
send_parts info [] local h = ok (0, h)
send_parts info (part ∷ parts) local h = send info.host_socket part (length part) 0 local h >>= λ r.
    elim (ltb r.0 0x8000) [
      | true ↦ send_parts info parts local r.1
      | false ↦ ok (web_cli_server_send_fail, r.1)
    ]

unfoldable pub web_client_send_request : HostInfo → List ℕ → List ℕ → Host → Result (ℕ × Host)
web_client_send_request info url_link local h = elim (split_url url_link) [
  | none ↦ ok (web_cli_host_str_fail, h)
  | some s ↦
      send_parts info
        (web_get_msg_fnt ∷ drop s.1 s.0 ∷ web_get_msg_mid ∷ take s.1 s.0 ∷ web_get_msg_end ∷ [])
        local h
]

-- `WebClient_RecvData`: the result and the memory at `ret_buf`.
unfoldable pub web_client_recv_data :
    HostInfo → List ℕ → ℕ → List ℕ → Host → Result (ℕ × List ℕ × Host)
web_client_recv_data info ret_buf buf_size local h = do
  r ← recv info.host_socket ret_buf buf_size 0 local h
  ok ((if ltb r.0.result 0x8000 then r.0.result else web_cli_server_recv_fail), r.0.buf, r.1)

abbrev pub zeroes : ℕ → List ℕ
zeroes zero = []
zeroes (suc n) = 0 ∷ zeroes n

-- `strncpy(&buf[at], src, n)`, which always writes `n` bytes.
unfoldable pub strncpy : List ℕ → ℕ → List ℕ → ℕ → Result (List ℕ)
strncpy buf at src n = store_bytes buf at (take n src ++ zeroes (n - length src))

-- `strncpy(&send_buffer[ptr], src, (sizeof(send_buffer) - ptr))`; the difference is a size_t of 16 bits.
unfoldable pub put_part : List ℕ → ℕ → List ℕ → Result (List ℕ)
put_part send_buffer ptr src = strncpy send_buffer ptr src (u16 (500 + 65536 - ptr))

-- `send_buffer` and `ptr` of `WebClient_Get`; the third part ends where `sp1` does, not at the host's end.
unfoldable pub get_request : List ℕ → ℕ → Result (List ℕ × ℕ)
get_request sp1 n = do
  let sp2 = drop n sp1
  let p1 = length web_get_msg_fnt
  let p2 = u16 (p1 + length sp2)
  let p3 = u16 (p2 + length web_get_msg_mid)
  let p4 = u16 (p3 + n)
  b1 ← put_part (zeroes 500) 0 web_get_msg_fnt
  b2 ← put_part b1 p1 sp2
  b3 ← put_part b2 p2 web_get_msg_mid
  b4 ← put_part b3 p3 sp1
  b5 ← put_part b4 p4 web_get_msg_end
  ok (b5, u16 (p4 + length web_get_msg_end))

unfoldable pub web_client_get :
    HostInfo → List ℕ → List ℕ → ℕ → List ℕ → Host → Result (ℕ × List ℕ × Host)
web_client_get info url_link ret_buf buf_size local h = elim (split_url url_link) [
  | none ↦ ok (web_cli_host_str_fail, ret_buf, h)
  | some s ↦ get_request s.0 s.1 >>= λ q. send info.host_socket q.0 q.1 0 local h >>= λ r.
      elim (ltb r.0 0x8000) [
        | true ↦ web_client_recv_data info ret_buf buf_size local r.1
        | false ↦ ok (web_cli_server_send_fail, ret_buf, r.1)
      ]
]

unfoldable pub web_client_close : HostInfo → Host → Result (ℕ × Host)
web_client_close info h = do
  r ← closesocket info.host_socket h
  ok ((if r.0 == 0 then web_cli_ok else web_cli_error), r.1)

-- `WebClient_DataAvailable`: the bit of the socket in the set after `select`, with 5 ms to wait.
unfoldable pub web_client_data_available : HostInfo → List ℕ → Host → Result (Bool × Host)
web_client_data_available info local h = do
  r ←
      select (u32 (info.host_socket + 1))
        (record {
          readsds = some (2 ^ info.host_socket);
          writesds = none;
          exceptsds = none;
          timeout = some (0, 5000);
        })
        local h
  ok (is_set r.1.readsds, r.2)
  where
    is_set : Option ℕ → Bool
    is_set none = false
    is_set (some w) = not (bit_and w (2 ^ info.host_socket) == 0)
