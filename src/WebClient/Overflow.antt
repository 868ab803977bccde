-- ===== src/WebClient/Overflow.antt =====
-- The buffer of `WebClient_Get`.
use arduino_spider_l3s_libra.Base.{
  ℕ, zero, suc, ◌+◌, ◌-◌, ◌≤◌, ◌<◌, List, ◌++◌, length, length-append, length-take, take, drop,
  trap, Trap, ok, u16, ◌≡◌, refl, ap, ◌∙◌, arith,
}
use arduino_spider_l3s_libra.Stream.{store_bytes}
use arduino_spider_l3s_libra.Stream.Memory.{splice, store_bytes-splice, store_bytes-out_of_bounds}
use arduino_spider_l3s_libra.Stream.RoundTrip.{length-splice}
use arduino_spider_l3s_libra.WebClient.{
  zeroes, strncpy, put_part, get_request, web_get_msg_fnt, web_get_msg_mid,
}

length-zeroes : (n : ℕ) → length (zeroes n) ≡ n
length-zeroes zero = refl
length-zeroes (suc n) = omega (arith, length-zeroes n)

-- What `strncpy` writes.
abbrev pub padded : List ℕ → ℕ → List ℕ
padded src n = take n src ++ zeroes (n - length src)

pub length-padded : (src : List ℕ) (n : ℕ) → length (padded src n) ≡ n
length-padded src n = omega (
  arith,
  length-append (take n src) (zeroes (n - length src)),
  length-take n src,
  length-zeroes (n - length src),
)

-- As long as the position is in the buffer, the part goes up to its end.
put_part-fits :
    (buf : List ℕ) (ptr : ℕ) (src : List ℕ)
    → length buf ≡ 500
    → ptr ≤ 500
    → (c : List ℕ) × (put_part buf ptr src ≡ ok c) × (length c ≡ 500)
unfolding put_part strncpy
put_part-fits buf ptr src size h =
    let n : u16 (500 + 65536 - ptr) ≡ 500 - ptr = omega arith in
    let fits : ptr + length (padded src (500 - ptr)) ≤ length buf =
      omega (arith, length-padded src (500 - ptr), size) in
    (
      splice buf ptr (padded src (500 - ptr)),
      ap (λ k. store_bytes buf ptr (padded src k)) n
          ∙ store_bytes-splice buf ptr (padded src (500 - ptr)) fits,
      length-splice buf ptr (padded src (500 - ptr)) fits ∙ size,
    )

-- Behind the end of the buffer the difference wraps around.
put_part-behind :
    (buf : List ℕ) (ptr : ℕ) (src : List ℕ)
    → length buf ≡ 500
    → 500 < ptr
    → ptr < 65536
    → put_part buf ptr src ≡ trap Trap.out_of_bounds
unfolding put_part strncpy
put_part-behind buf ptr src size h small =
    store_bytes-out_of_bounds buf ptr (padded src n)
      (λ empty. absurd (omega (arith, ap length empty, length-padded src n)))
      (omega (arith, length-padded src n, size))
  where
    n : ℕ
    n = u16 (500 + 65536 - ptr)

-- A path, from its slash on, of more than 496 bytes makes `WebClient_Get` write outside of `send_buffer`.
pub get_request-out_of_bounds :
    (sp1 : List ℕ) (n : ℕ)
    → 496 < length (drop n sp1)
    → length (drop n sp1) < 65532
    → get_request sp1 n ≡ trap Trap.out_of_bounds
unfolding get_request
get_request-out_of_bounds sp1 n long small =
    let b1 = put_part-fits (zeroes 500) 0 web_get_msg_fnt refl (omega arith) in
    let b2 = put_part-fits b1.0 4 (drop n sp1) b1.2 (omega arith) in
    let behind =
      put_part-behind b2.0 (u16 (4 + length (drop n sp1))) web_get_msg_mid b2.2 (omega arith)
        (omega arith) in
    rw (b1.1, b2.1, behind) refl
