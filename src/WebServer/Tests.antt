-- ===== src/WebServer/Tests.antt =====
-- Runs of the definitions of WebServer at concrete inputs.
use arduino_spider_l3s_libra.Base.{
  ◌≡◌, refl, arith, [], ◌∷◌, none, some, ℕ, ◌+◌, ◌-◌, List, Option, get_or, ok, true, false,
}
use arduino_spider_l3s_libra.Base.Text.{codes}
use arduino_spider_l3s_libra.WebClient.{strstr}
use arduino_spider_l3s_libra.WebServer.{fresh_request}
use arduino_spider_l3s_libra.WebServer.Reader.{
  Libc, Sizes, process_bytes, spaces, with_last, shifted,
}
use arduino_spider_l3s_libra.WebServer.Requests.{
  complete, request_bytes, process_bytes-request_bytes,
}
use arduino_spider_l3s_libra.WebServer.Reader.Headers.{scan_lines}
use arduino_spider_l3s_libra.WebServer.Reader.Window.{feed}

-- A scan that knows lengths of one digit.
one_digit : List ℕ → Option ℕ
unfolding strstr
one_digit line = elim (strstr line (codes "Content-Length:")) [
  | none ↦ none
  | some i ↦ some (get_or line (i + 16) 48 - 48)
]

abbrev one_digit_libc : Libc
one_digit_libc = record { scan_auth = λ line. none; scan_length = one_digit }

abbrev wide_sizes : Sizes
wide_sizes = record { method_size = 4; filename_size = 3; content_size = 5 }

abbrev five : List ℕ
five = 0 ∷ 0 ∷ 0 ∷ 0 ∷ 0 ∷ []

scanned_run :
    scan_lines one_digit_libc (codes "HTTP/1.1" ∷ (codes "Content-Length: 2" ∷ [] ∷ [])) (five, 0)
    ≡ ok (five, 2)
unfolding one_digit
scanned_run = refl

process_bytes-request_bytes_example :
    (process_bytes one_digit_libc wide_sizes
        (request_bytes
          (codes "PUT")
          (codes "/a")
          (codes "HTTP/1.1" ∷ codes "Content-Length: 2" ∷ [])
          (codes "hi"))
        (fresh_request five five five five)
      ≡ ok (
        false,
        complete wide_sizes
            (codes "PUT")
            (codes "/a")
            five
            five
            five
            five
            (five, 2)
            (codes "hi")
            (feed (spaces 50) (codes "hi")),
      ))
    × (process_bytes one_digit_libc wide_sizes
          (request_bytes
            (codes "PUT")
            (codes "/a")
            (codes "HTTP/1.1" ∷ codes "Content-Length: 2" ∷ [])
            (codes "hi!"))
          (fresh_request five five five five)
        ≡ ok (
          true,
          complete wide_sizes
              (codes "PUT")
              (codes "/a")
              five
              five
              five
              five
              (five, 2)
              (codes "hi")
              (shifted (with_last (feed (spaces 50) (codes "hi")) 33)),
        ))
process_bytes-request_bytes_example =
    process_bytes-request_bytes one_digit_libc wide_sizes (codes "PUT") (codes "/a")
      (codes "HTTP/1.1") (codes "Content-Length: 2" ∷ []) (codes "hi") 33 [] five five five five
      (five, 2) (ground arith) (ground arith) (ground arith) (ground arith) (ground arith)
      (λ e. absurd (omega (arith, e))) (omega arith) (omega arith) (omega arith) scanned_run
      (omega arith) (omega arith)
