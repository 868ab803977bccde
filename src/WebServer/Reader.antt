-- ===== src/WebServer/Reader.antt =====
-- The reading of a request, byte by byte: `WebServer_process_request` of WebServer.c.
pub mod Kept
pub mod RequestLine
pub mod Window
pub mod Headers
pub mod Content
use arduino_spider_l3s_libra.Base.{
  ℕ, zero, suc, ◌+◌, ◌==◌, ◌&&◌, not, ltb, List, [], ◌∷◌, ◌++◌, take, drop, get_or, Option, none,
  some, Bool, true, false, Result, ok, ◌>>=◌, u8,
}
use arduino_spider_l3s_libra.Stream.{store, store_bytes}

pub data RequestState : Type 0 where
  get_method get_filename get_content : RequestState

-- `strstr` and `sscanf`, of the C library, on a line that ends in a zero: what the first of the two
-- `sscanf` writes to `auth`, and the int that the second one finds.
pub record Libc : Type 0 where
  pub scan_auth : List ℕ → Option (List ℕ)
  pub scan_length : List ℕ → Option ℕ

pub record Sizes : Type 0 where
  pub method_size : ℕ
  pub filename_size : ℕ
  pub content_size : ℕ

-- The caller's buffers, and the locals. `auth_ptr` and `auth_size` are not used by the code.
pub record Request : Type 0 where
  pub state : RequestState
  pub method : List ℕ
  pub method_ptr : ℕ
  pub filename : List ℕ
  pub filename_ptr : ℕ
  pub content : List ℕ
  pub content_ptr : ℕ
  pub auth : List ℕ
  pub content_length : ℕ
  pub str_fifo : List ℕ
  pub content_head : List ℕ

-- `if(ptr < size)`, and the byte with its count.
unfoldable pub put_byte : ℕ → List ℕ → ℕ → ℕ → Result (List ℕ × ℕ)
put_byte size buf ptr byte = elim (ltb ptr size) [
  | true ↦ store buf ptr byte >>= λ b. ok (b, u8 (ptr + 1))
  | false ↦ ok (buf, ptr)
]

abbrev pub spaces : ℕ → List ℕ
spaces zero = []
spaces (suc n) = 32 ∷ spaces n

-- `str_fifo[sizeof(str_fifo) - 1] = byte`
abbrev pub with_last : List ℕ → ℕ → List ℕ
with_last fifo byte = take 49 fifo ++ (byte ∷ [])

-- `memcpy(&str_fifo[0], &str_fifo[1], 49)`
abbrev pub shifted : List ℕ → List ℕ
shifted fifo = drop 1 fifo ++ drop 49 fifo

abbrev pub ends_line : List ℕ → Bool
ends_line fifo = get_or fifo 48 0 == 13 && get_or fifo 49 0 == 10

abbrev pub put_auth : Option (List ℕ) → List ℕ → Result (List ℕ)
put_auth none auth = ok auth
put_auth (some bytes) auth = store_bytes auth 0 bytes

abbrev pub put_length : Option ℕ → ℕ → ℕ
put_length none content_length = content_length
put_length (some n) content_length = n

-- A header line, at its end.
unfoldable pub header_line : Libc → Request → Result Request
header_line libc r = do
  let line = take 48 r.str_fifo ++ (0 ∷ 0 ∷ [])
  auth ← put_auth (libc.scan_auth line) r.auth
  ok (record r {
    auth = auth;
    content_length = put_length (libc.scan_length line) r.content_length;
    str_fifo = spaces 50;
  })

unfoldable pub header_byte : Libc → ℕ → Request → Result Request
header_byte libc byte r =
    let s = record r { str_fifo = with_last r.str_fifo byte } in
    elim (ends_line s.str_fifo) [
      | true ↦ header_line libc s
      | false ↦ ok (record s { str_fifo = shifted s.str_fifo })
    ]

-- `"\r\n\r\n"`
abbrev pub is_blank_line : List ℕ → Bool
is_blank_line head =
    get_or head 0 0 == 13 && get_or head 1 0 == 10 && get_or head 2 0 == 13 && get_or head 3 0 == 10

-- What follows the header: whether the function returns.
unfoldable pub content_byte : Sizes → ℕ → Request → Result (Bool × Request)
content_byte sizes byte r = elim (is_blank_line r.content_head) [
  | false ↦ ok (false, record r { content_head = drop 1 r.content_head ++ (byte ∷ []) })
  | true ↦
      elim (ltb r.content_ptr sizes.content_size
        && (ltb r.content_length 0x8000 && ltb r.content_ptr r.content_length)) [
          | true ↦ store r.content r.content_ptr byte >>= λ b.
              ok (false, record r { content = b; content_ptr = u8 (r.content_ptr + 1) })
          | false ↦ ok (true, r)
        ]
]

-- `switch(state)`
unfoldable pub by_state : RequestState → Libc → Sizes → ℕ → Request → Result (Bool × Request)
by_state get_method libc sizes byte r = elim (byte == 32) [
  | true ↦ ok (false, record r { state = RequestState.get_filename })
  | false ↦ put_byte sizes.method_size r.method r.method_ptr byte >>= λ p.
      ok (false, record r { method = p.0; method_ptr = p.1 })
]
by_state get_filename libc sizes byte r = elim (byte == 32) [
  | true ↦ ok (false, record r { state = RequestState.get_content })
  | false ↦ put_byte sizes.filename_size r.filename r.filename_ptr byte >>= λ p.
      ok (false, record r { filename = p.0; filename_ptr = p.1 })
]
by_state get_content libc sizes byte r = header_byte libc byte r >>= content_byte sizes byte

-- `for(i = 0; i < ret; i++)`
unfoldable pub process_bytes : Libc → Sizes → List ℕ → Request → Result (Bool × Request)
process_bytes libc sizes [] r = ok (false, r)
process_bytes libc sizes (byte ∷ bytes) r = by_state r.state libc sizes byte r >>= λ s. elim s.0 [
  | true ↦ ok s
  | false ↦ process_bytes libc sizes bytes s.1
]
