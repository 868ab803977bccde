-- ===== src/WebServer.antt =====
-- WebServer.c over socket.c. An int has 16 bits on the AVR, and is its pattern. `local` is the memory of the
-- locals that take the replies.
pub mod Reader
pub mod Requests
mod Tests
use arduino_spider_l3s_libra.Base.{
  ℕ, zero, suc, ◌+◌, ◌/◌, ◌%◌, ◌==◌, ◌&&◌, not, ltb, List, [], ◌∷◌, ◌++◌, length, if◌then◌else◌,
  Bool, true, false, Result, ok, ◌>>=◌, u8, u16, u32, Option, some, none, bit_and, ◌^◌,
}
use arduino_spider_l3s_libra.Stream.{load_bytes}
use arduino_spider_l3s_libra.Stream.Memory.{le32}
use arduino_spider_l3s_libra.Socket.{Host, extend16}
use arduino_spider_l3s_libra.Socket.Commands.{socket, closesocket, accept, bind, listen, setsockopt}
use arduino_spider_l3s_libra.Socket.Select.{Sets, select}
use arduino_spider_l3s_libra.Socket.Transfer.{Received, recv, send}
use arduino_spider_l3s_libra.WebServer.Reader.{
  Libc, Sizes, RequestState, Request, spaces, process_bytes,
}

-- `0 <= x` for the int whose pattern is `w`.
abbrev pub is_nonneg16 : ℕ → Bool
is_nonneg16 w = ltb w 0x8000

-- SOL_SOCKET and SOCKOPT_RECV_TIMEOUT, a long of milliseconds.
unfoldable pub set_timeout : ℕ → ℕ → List ℕ → Host → Result (ℕ × Host)
set_timeout sd timeout local h = setsockopt sd 0xffff 1 (le32 timeout) 4 local h

-- The eight bytes that `bind` takes of `name`: AF_INET, the port in network order and the address 0.
abbrev pub server_name : ℕ → List ℕ
server_name port = 2 ∷ 0 ∷ port / 256 % 256 ∷ port % 256 ∷ 0 ∷ 0 ∷ 0 ∷ 0 ∷ []

-- `closesocket(sd)`, and the result that stands after it.
unfoldable pub give_up : ℕ → ℕ → Host → Result (ℕ × Host)
give_up sd result h = closesocket sd h >>= λ r. ok (result, r.1)

unfoldable pub web_server_begin : ℕ → List ℕ → Host → Result (ℕ × Host)
web_server_begin port local h = do
  s ← socket 2 1 0 h
  let httpd = u16 s.0
  if not (is_nonneg16 httpd) then ok (0xffff, s.1) else (do
    t ← set_timeout (extend16 httpd) 100 local s.1
    if not (is_nonneg16 t.0) then give_up (extend16 httpd) 0xffff t.1 else (do
      b ← bind (extend16 httpd) (server_name port) t.1
      if not (ltb b.0 0x80000000) then give_up (extend16 httpd) 0xfffe b.1 else (do
        l ← listen (extend16 httpd) 0 b.1
        if not (ltb l.0 0x80000000) then give_up (extend16 httpd) 0xfffd l.1 else ok (httpd, l.1))))

unfoldable pub web_server_close : ℕ → Host → Result (ℕ × Host)
web_server_close server_socket h = closesocket (extend16 server_socket) h >>= λ r. ok (u16 r.0, r.1)

unfoldable pub web_server_wait_connect : ℕ → List ℕ → List ℕ → Host → Result (ℕ × Host)
web_server_wait_connect sd client_name local h = do
  (status, name, len, e) ← accept (extend16 sd) client_name local h
  let client_sock = u16 status
  if not (is_nonneg16 client_sock) then ok (client_sock, e) else (do
    t ← set_timeout (extend16 client_sock) 10 local e
    if not (is_nonneg16 t.0)
        then give_up (extend16 client_sock) 0xffff t.1
        else ok (client_sock, t.1))

-- The result, and the memory at `req_buf`.
unfoldable pub web_server_get_request : ℕ → List ℕ → ℕ → List ℕ → Host → Result (ℕ × List ℕ × Host)
web_server_get_request sd req_buf buf_len local h = do
  r ← recv (extend16 sd) req_buf buf_len 0 local h
  ok ((if is_nonneg16 r.0.result then r.0.result else 0xffff), r.0.buf, r.1)

-- `n` bytes of 0.
abbrev pub cleared : ℕ → List ℕ
cleared zero = []
cleared (suc n) = 0 ∷ cleared n

-- `while(millis() < tmr)`: `rounds` is how many rounds the clock lets pass.
unfoldable pub process_rounds :
    Libc → Sizes → ℕ → ℕ → List ℕ → Request → Host → Result (ℕ × Request × Host)
process_rounds libc sizes zero sd local r h = ok (0, r, h)
process_rounds libc sizes (suc rounds) sd local r h =
    web_server_get_request sd (cleared 100) 100 local h >>= λ g. elim (is_nonneg16 g.0) [
      | false ↦ ok (g.0, r, g.2)
      | true ↦ load_bytes g.1 0 g.0 >>= λ bytes. process_bytes libc sizes bytes r >>= λ s.
          elim s.0 [
            | true ↦ ok (0, s.1, g.2)
            | false ↦ process_rounds libc sizes rounds sd local s.1 g.2
          ]
    ]

-- The locals at the start, with the caller's buffers.
abbrev pub fresh_request : List ℕ → List ℕ → List ℕ → List ℕ → Request
fresh_request method filename content auth = record {
  state = RequestState.get_method;
  method = method;
  method_ptr = 0;
  filename = filename;
  filename_ptr = 0;
  content = content;
  content_ptr = 0;
  auth = auth;
  content_length = 0;
  str_fifo = spaces 50;
  content_head = cleared 4;
}

unfoldable pub web_server_process_request :
    Libc
    → Sizes
    → ℕ
    → ℕ
    → List ℕ
    → List ℕ
    → List ℕ
    → List ℕ
    → List ℕ
    → Host
    → Result (ℕ × Request × Host)
web_server_process_request libc sizes rounds sd method filename content auth local h =
    process_rounds libc sizes rounds sd local (fresh_request method filename content auth) h

unfoldable pub web_server_put_response : ℕ → List ℕ → ℕ → List ℕ → Host → Result (ℕ × Host)
web_server_put_response sd resp_buf buf_len local h = send (extend16 sd) resp_buf buf_len 0 local h

-- The strings one after the other; what `send` returns is ignored.
unfoldable pub put_lines : ℕ → List (List ℕ) → List ℕ → Host → Result Host
put_lines sd [] local h = ok h
put_lines sd (line ∷ lines) local h =
    web_server_put_response sd line (length line) local h >>= λ r. put_lines sd lines local r.1

-- `HTTP/1.0 400 Bad Request` and its line end.
abbrev pub bad_request_line : List ℕ
bad_request_line =
    72 ∷ 84 ∷ 84 ∷ 80 ∷ 47 ∷ 49 ∷ 46 ∷ 48 ∷ 32 ∷ 52 ∷ 48 ∷ 48 ∷ 32 ∷ 66 ∷ 97 ∷ 100 ∷ 32 ∷ 82 ∷ 101
    ∷ 113 ∷ 117 ∷ 101 ∷ 115 ∷ 116 ∷ 13 ∷ 10 ∷ []

-- `HTTP/1.0 404 Not Found` and its line end.
abbrev pub not_found_line : List ℕ
not_found_line =
    72 ∷ 84 ∷ 84 ∷ 80 ∷ 47 ∷ 49 ∷ 46 ∷ 48 ∷ 32 ∷ 52 ∷ 48 ∷ 52 ∷ 32 ∷ 78 ∷ 111 ∷ 116 ∷ 32 ∷ 70 ∷ 111
    ∷ 117 ∷ 110 ∷ 100 ∷ 13 ∷ 10 ∷ []

-- `Content-Type: text/html` and its line end.
abbrev pub content_type_line : List ℕ
content_type_line =
    67 ∷ 111 ∷ 110 ∷ 116 ∷ 101 ∷ 110 ∷ 116 ∷ 45 ∷ 84 ∷ 121 ∷ 112 ∷ 101 ∷ 58 ∷ 32 ∷ 116 ∷ 101 ∷ 120
    ∷ 116 ∷ 47 ∷ 104 ∷ 116 ∷ 109 ∷ 108 ∷ 13 ∷ 10 ∷ []

-- `Connection: close` and its line end.
abbrev pub close_line : List ℕ
close_line =
    67 ∷ 111 ∷ 110 ∷ 110 ∷ 101 ∷ 99 ∷ 116 ∷ 105 ∷ 111 ∷ 110 ∷ 58 ∷ 32 ∷ 99 ∷ 108 ∷ 111 ∷ 115 ∷ 101
    ∷ 13 ∷ 10 ∷ 13 ∷ 10 ∷ []

-- `<P>BAD REQUEST` and its line end.
abbrev pub bad_request_text : List ℕ
bad_request_text =
    60 ∷ 80 ∷ 62 ∷ 66 ∷ 65 ∷ 68 ∷ 32 ∷ 82 ∷ 69 ∷ 81 ∷ 85 ∷ 69 ∷ 83 ∷ 84 ∷ 13 ∷ 10 ∷ []

unfoldable pub web_server_put_badrequest : ℕ → List ℕ → Host → Result Host
web_server_put_badrequest sd local h =
    put_lines sd (bad_request_line ∷ content_type_line ∷ close_line ∷ bad_request_text ∷ []) local h

unfoldable pub web_server_put_notfound : ℕ → List ℕ → Host → Result Host
web_server_put_notfound sd local h =
    put_lines sd (not_found_line ∷ content_type_line ∷ close_line ∷ []) local h

unfoldable pub web_server_close_connect : ℕ → Host → Result (ℕ × Host)
web_server_close_connect sd h = closesocket (extend16 sd) h >>= λ r. ok (u16 r.0, r.1)

-- `FD_ISSET` of the one socket in the set.
abbrev pub fd_is_set : ℕ → Option ℕ → Bool
fd_is_set sd none = false
fd_is_set sd (some w) = not (bit_and w (2 ^ sd) == 0)

-- `select` on the one socket, with 5 ms to wait: 0, -2 when nothing came, -1.
unfoldable pub web_server_request_available : ℕ → List ℕ → Host → Result (ℕ × Host)
web_server_request_available sd local h = do
  r ←
      select (u32 (extend16 (u16 (sd + 1))))
        (record {
          readsds = some (2 ^ sd);
          writesds = none;
          exceptsds = none;
          timeout = some (0, 5000);
        })
        local h
  ok (
    (if not (is_nonneg16 r.0)
        then 0xffff
        else if r.0 == 0
        then 0xfffe
        else if fd_is_set sd r.1.readsds
        then 0
        else 0xffff),
    r.2,
  )
