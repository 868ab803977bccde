-- ===== src/WebServer/Requests.antt =====
-- A whole request, from the method to the content, read from the start.
use arduino_spider_l3s_libra.Base.{
  ℕ, ◌+◌, ◌≤◌, ◌<◌, min, List, [], ◌∷◌, ◌++◌, length, take, All, true, false, ok, ◌≡◌, refl, sym,
  ap, ◌∙◌, append-nil, arith,
}
use arduino_spider_l3s_libra.Stream.Memory.{splice}
use arduino_spider_l3s_libra.WebServer.{fresh_request}
use arduino_spider_l3s_libra.WebServer.Reader.{
  Libc, Sizes, RequestState, Request, spaces, with_last, shifted, process_bytes,
}
use arduino_spider_l3s_libra.WebServer.Reader.RequestLine.{
  IsNotSpace, process_bytes-request_line, process_bytes-returned,
}
use arduino_spider_l3s_libra.WebServer.Reader.Headers.{IsNotNewline, scan_lines, crlf_lines}
use arduino_spider_l3s_libra.WebServer.Reader.Window.{feed, feed-window}
use arduino_spider_l3s_libra.WebServer.Reader.Content.{
  IsLine, with_content, process_bytes-header, process_bytes-content, by_state-content,
  content_byte_complete,
}

module _ (sizes : Sizes) (m f method filename content auth : List ℕ) where
  -- A request as far as the file name.
  abbrev named : Request
  named = record (fresh_request method filename content auth) {
    state = RequestState.get_content;
    method = splice method 0 (take sizes.method_size m);
    method_ptr = min sizes.method_size (length m);
    filename = splice filename 0 (take sizes.filename_size f);
    filename_ptr = min sizes.filename_size (length f);
  }

  -- The request with the header's findings and the content.
  abbrev pub complete : List ℕ × ℕ → List ℕ → List ℕ → Request
  complete found body fifo = record named {
    auth = found.0;
    content_length = found.1;
    str_fifo = fifo;
    content_head = 13 ∷ 10 ∷ 13 ∷ 10 ∷ [];
    content = splice content 0 body;
    content_ptr = length body;
  }

-- The bytes of a request: method, file name, the lines of the rest of the header, an empty line, content.
abbrev pub request_bytes : List ℕ → List ℕ → List (List ℕ) → List ℕ → List ℕ
request_bytes m f lines body = m ++ (32 ∷ (f ++ (32 ∷ (crlf_lines lines ++ (13 ∷ 10 ∷ body)))))

-- A request with a header line behind the file name and others, none of them empty, and an empty line
-- behind them, no newline in the content, and a content as long as the room for it or as the header's
-- scans say (below 2^15), whichever is less: read from the start, in buffers at least as large as their
-- sizes, which are below 256, the method and the file name are kept, cut off at their sizes, the content
-- is kept whole, and the scans of the last 48 bytes of each line, padded with spaces, decide about `auth`
-- and the length. The function does not return yet; it does at the next byte, unless that is a newline.
pub process_bytes-request_bytes :
    (libc : Libc) (sizes : Sizes) (m f l : List ℕ) (ls : List (List ℕ)) (body : List ℕ) (y : ℕ)
    (rest method filename content auth : List ℕ) (found : List ℕ × ℕ)
    → All IsNotSpace m
    → All IsNotSpace f
    → IsLine l
    → All IsLine ls
    → All IsNotNewline body
    → IsNotNewline y
    → (sizes.method_size < 256) × (sizes.method_size ≤ length method)
    → (sizes.filename_size < 256) × (sizes.filename_size ≤ length filename)
    → (sizes.content_size < 256) × (sizes.content_size ≤ length content)
    → scan_lines libc (l ∷ (ls ++ ([] ∷ []))) (auth, 0) ≡ ok found
    → found.1 < 0x8000
    → length body ≡ min sizes.content_size found.1
    → (process_bytes libc sizes
          (request_bytes m f (l ∷ ls) body)
          (fresh_request method filename content auth)
        ≡ ok (
          false,
          complete sizes m f method filename content auth found body (feed (spaces 50) body),
        ))
      × (process_bytes libc sizes
            (request_bytes m f (l ∷ ls) (body ++ (y ∷ rest)))
            (fresh_request method filename content auth)
          ≡ ok (
            true,
            complete sizes m f method filename content auth found body
                (shifted (with_last (feed (spaces 50) body) y)),
          ))
process_bytes-request_bytes libc sizes m f l ls body y rest method filename content auth found no_m
      no_f first others plain more in_method in_filename in_content scanned small size =
    (
      ap (λ b. process_bytes libc sizes (request_bytes m f (l ∷ ls) b) start)
            (sym (append-nil body))
          ∙ (reads [] ∙ (unfold process_bytes in refl)),
      reads (y ∷ rest)
          ∙ process_bytes-returned libc sizes y rest _ _ (
              by_state-content libc sizes name found small in_content.0 y (feed (spaces 50) body)
                (splice content 0 body) (length body) fed more
              ∙ content_byte_complete libc sizes name found small in_content.0 y
                  (shifted (with_last (feed (spaces 50) body) y)) (splice content 0 body)
                  (length body) size),
    )
  where
    start : Request
    start = fresh_request method filename content auth

    name : Request
    name = named sizes m f method filename content auth

    fed : length (feed (spaces 50) body) ≡ 50
    fed = (feed-window (spaces 49) body (spaces 50) refl (refl, refl)).1

    at_end : List ℕ → Request
    at_end fifo = complete sizes m f method filename content auth found body fifo

    none_before : 0 + length body ≡ length body
    none_before = omega arith

    reads :
        (ys : List ℕ)
        → process_bytes libc sizes (request_bytes m f (l ∷ ls) (body ++ ys)) start
          ≡ process_bytes libc sizes ys (at_end (feed (spaces 50) body))
    reads ys =
        process_bytes-request_line libc sizes m f (crlf_lines (l ∷ ls) ++ (13 ∷ 10 ∷ (body ++ ys)))
          start refl refl refl no_m no_f in_method.0 in_method.1 in_filename.0 in_filename.1
        ∙ (process_bytes-header libc sizes name (body ++ ys) l ls (auth, 0) found first others
              scanned
            ∙ process_bytes-content libc sizes name found small in_content.0 body ys (spaces 50)
                content 0 refl plain in_content.1 (omega (arith, size))
            ∙ ap
                (λ n.
                  process_bytes libc sizes ys
                    (with_content name found (feed (spaces 50) body) (splice content 0 body) n))
                none_before)
