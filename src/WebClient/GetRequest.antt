-- ===== src/WebClient/GetRequest.antt =====
-- The request that `WebClient_Get` builds from a URL.
use arduino_spider_l3s_libra.Base.{
  ℕ, zero, suc, ◌+◌, ◌-◌, ◌≤◌, ◌<◌, ◌≢◌, ◌==◌, ◌&&◌, List, [], ◌∷◌, ◌++◌, append-nil, append_assoc,
  length, length-append, take, ok, some, false, true, All, u16, ◌≡◌, refl, sym, ap, ap₂, ◌∙◌, arith,
}
use arduino_spider_l3s_libra.Base.Text.{codes}
use arduino_spider_l3s_libra.Stream.{store_bytes}
use arduino_spider_l3s_libra.Stream.Parts.{store_bytes-part, drop-append}
use arduino_spider_l3s_libra.WebClient.{
  zeroes, strncpy, put_part, get_request, strstr, split_url, web_get_msg_fnt, web_get_msg_mid,
  web_get_msg_end, http_prefix,
}
use arduino_spider_l3s_libra.WebClient.Overflow.{padded, length-padded}

-- The part that fits whole, and the padding of the rest.
padded-append :
    (xs ys : List ℕ) (m : ℕ) → length xs ≤ m → padded (xs ++ ys) m ≡ xs ++ padded ys (m - length xs)
padded-append [] ys m h = ap (padded ys) (omega arith)
padded-append (x ∷ xs) ys zero h = absurd (omega arith)
padded-append (x ∷ xs) ys (suc m) h =
    let e : suc m - suc (length (xs ++ ys)) ≡ m - length (xs ++ ys) = omega arith in
    let k : m - length xs ≡ suc m - suc (length xs) = omega arith in
    ap (λ j. x ∷ (take m (xs ++ ys) ++ zeroes j)) e
    ∙ (ap (◌∷◌ x) (padded-append xs ys m (omega arith)) ∙ ap (λ j. x ∷ (xs ++ padded ys j)) k)

-- A part put behind what was written before, up to the end of the buffer.
put_part-next :
    (pre tail src more : List ℕ) (ptr : ℕ)
    → ptr ≡ length pre
    → length tail ≡ 500 - ptr
    → ptr + length src ≤ 500
    → put_part (pre ++ tail) ptr (src ++ more)
      ≡ ok ((pre ++ src) ++ padded more (500 - ptr - length src))
unfolding put_part strncpy
put_part-next pre tail src more ptr e size room =
    ap (λ n. store_bytes (pre ++ tail) ptr (padded (src ++ more) n)) whole
    ∙ (ap (λ b. store_bytes (pre ++ b) ptr (padded (src ++ more) (500 - ptr)))
          (sym (append-nil tail))
        ∙ (store_bytes-part pre tail [] (padded (src ++ more) (500 - ptr)) ptr e
              (length-padded (src ++ more) (500 - ptr) ∙ sym size)
            ∙ ap ok (
                ap (◌++◌ pre) (
                  append-nil (padded (src ++ more) (500 - ptr))
                  ∙ padded-append src more (500 - ptr) (omega arith))
                ∙ sym (append_assoc pre src (padded more (500 - ptr - length src))))))
  where
    whole : u16 (500 + 65536 - ptr) ≡ 500 - ptr
    whole = omega (arith, e)

put_part-whole :
    (pre tail src : List ℕ) (ptr : ℕ)
    → ptr ≡ length pre
    → length tail ≡ 500 - ptr
    → ptr + length src ≤ 500
    → put_part (pre ++ tail) ptr src ≡ ok ((pre ++ src) ++ padded [] (500 - ptr - length src))
put_part-whole pre tail src ptr e size room =
    ap (put_part (pre ++ tail) ptr) (sym (append-nil src))
    ∙ put_part-next pre tail src [] ptr e size room

padded-nil : (m : ℕ) → padded [] m ≡ zeroes m
padded-nil zero = refl
padded-nil (suc m) = let e : suc m - 0 ≡ suc m = omega arith in ap zeroes e

abbrev crlf : List ℕ
crlf = 13 ∷ 10 ∷ []

-- The request for a path, from its slash on, at a host.
abbrev pub request_text : List ℕ → List ℕ → List ℕ
request_text host path =
    codes "GET "
    ++ (path
        ++ ((codes " HTTP/1.1" ++ (crlf ++ codes "Host: "))
            ++ (host ++ (crlf ++ (codes "Connection: close" ++ (crlf ++ crlf))))))

get_request-request_text :
    (host path : List ℕ)
    → length path + length host ≤ 456
    → get_request (host ++ path) (length host)
      ≡ ok (
        request_text host path ++ zeroes (456 - (length path + length host)),
        44 + (length path + length host),
      )
unfolding get_request
get_request-request_text host path room =
    rw
      (
        drop-append host path (length host) refl,
        p2,
        p3,
        p4,
        put_part-whole [] (zeroes 500) fnt 0 refl refl (omega arith),
        put_part-whole fnt (padded [] 496) path 4 refl (length-padded [] 496) (omega arith),
        put_part-whole (fnt ++ path) (padded [] (500 - 4 - length path)) mid (4 + length path)
            (omega (arith, length-append fnt path))
            (length-padded [] (500 - 4 - length path) ∙ omega arith) (omega arith),
        put_part-next to_host (padded [] (500 - (4 + length path) - 17)) host path
            (21 + length path) to_host_length
            (length-padded [] (500 - (4 + length path) - 17) ∙ omega arith) (omega arith),
        put_part-whole (to_host ++ host) (padded path (500 - (21 + length path) - length host)) end
            (21 + (length path + length host))
            (omega (arith, to_host_length, length-append to_host host))
            (length-padded path (500 - (21 + length path) - length host) ∙ omega arith)
            (omega arith),
        padded-nil (500 - (21 + (length path + length host)) - length end),
      )
      (ap₂ (λ b n. ok (b, n)) whole (omega arith))
  where
    fnt : List ℕ
    fnt = web_get_msg_fnt

    mid : List ℕ
    mid = web_get_msg_mid

    end : List ℕ
    end = web_get_msg_end

    to_host : List ℕ
    to_host = (fnt ++ path) ++ mid

    to_host_length : 21 + length path ≡ length to_host
    to_host_length = omega (arith, length-append (fnt ++ path) mid, length-append fnt path)

    left : 500 - (21 + (length path + length host)) - length end ≡ 456 - (length path + length host)
    left = omega arith

    whole :
        ((to_host ++ host) ++ end) ++ zeroes (500 - (21 + (length path + length host)) - length end)
        ≡ request_text host path ++ zeroes (456 - (length path + length host))
    whole = simp (left, append_assoc)

    p2 : u16 (4 + length path) ≡ 4 + length path
    p2 = omega arith

    p3 : u16 (4 + length path + 17) ≡ 21 + length path
    p3 = omega arith

    p4 : u16 (21 + length path + length host) ≡ 21 + (length path + length host)
    p4 = omega arith

abbrev pub IsNotSlash : ℕ → Type 0
IsNotSlash c = c ≢ 47

strstr-slash :
    (host rest : List ℕ)
    → All IsNotSlash host
    → strstr (host ++ (47 ∷ rest)) (47 ∷ []) ≡ some (length host)
unfolding strstr
strstr-slash [] rest all = refl
strstr-slash (c ∷ host) rest all =
    let ih = strstr-slash host rest all.1 in
    let other : (47 == c && true) ≡ false = ground (arith, all.0) in
    let plus : length host + 1 ≡ suc (length host) = omega arith in simp (other, ih, plus, strstr)

-- "http://host/page" is split at the host's end, and the request that `WebClient_Get` then builds in its
-- 500 bytes is the HTTP request for the page, followed by zeros: for a host without a slash and, with the
-- page's slash, at most 456 bytes of host and page.
pub get_request-split_url :
    (host page : List ℕ)
    → All IsNotSlash host
    → length host + length page < 456
    → (split_url (codes "http://" ++ (host ++ (47 ∷ page)))
        ≡ some (host ++ (47 ∷ page), length host))
      × (get_request (host ++ (47 ∷ page)) (length host)
          ≡ ok (
            request_text host (47 ∷ page) ++ zeroes (455 - (length host + length page)),
            45 + (length host + length page),
          ))
unfolding split_url
get_request-split_url host page all room = (
  simp (found, strstr-slash host page all, split_url),
  get_request-request_text host (47 ∷ page) (omega arith)
      ∙ ap₂ (λ k n. ok (request_text host (47 ∷ page) ++ zeroes k, n)) (omega arith) (omega arith),
)
  where
    found : strstr (http_prefix ++ (host ++ (47 ∷ page))) http_prefix ≡ some 0
    found = unfold strstr in refl
