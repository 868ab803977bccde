-- ===== src/WebServer/Reader/Content.antt =====
-- A whole request: its request line, its header and its content.
use arduino_spider_l3s_libra.Base.{
  ℕ, ◌+◌, ◌≤◌, ◌<◌, ◌&&◌, ltb, min, List, [], ◌∷◌, ◌++◌, length, length-append, length-drop,
  length-take, take, drop, append_assoc, All, Bool, true, false, Result, ok, ◌>>=◌, >>=-cong, u8,
  ◌≡◌, ◌≢◌, refl, sym, ap, ap₂, ◌∙◌, arith,
}
use arduino_spider_l3s_libra.Stream.Memory.{splice, >>=_assoc}
use arduino_spider_l3s_libra.Stream.RoundTrip.{splice-append, length-splice, take-append-drop}
use arduino_spider_l3s_libra.WebServer.Reader.{
  Libc, Sizes, RequestState, get_content, Request, spaces, with_last, shifted, is_blank_line,
  header_byte, content_byte, by_state, process_bytes,
}
use arduino_spider_l3s_libra.WebServer.Reader.Kept.{store-splice}
use arduino_spider_l3s_libra.WebServer.Reader.RequestLine.{process_bytes-next}
use arduino_spider_l3s_libra.WebServer.Reader.Headers.{
  IsNotNewline, line_end, scan_line, scan_lines, crlf_lines, headed, process_bytes-line,
}
use arduino_spider_l3s_libra.WebServer.Reader.Window.{feed, push_all, ends_line-with_last}

-- A line of the header that is not empty.
abbrev pub IsLine : List ℕ → Type 0
IsLine [] = ⊥
IsLine (x ∷ l) = All IsNotNewline (x ∷ l)

-- The four bytes that are left of a line.
record Ending (head : List ℕ) : Type 0 where
  a : ℕ
  b : ℕ
  c : ℕ
  d : ℕ
  four : head ≡ a ∷ b ∷ c ∷ d ∷ []
  open_line : d ≢ 10

push_all-Ending :
    (a b c d x : ℕ) (l : List ℕ) → IsLine (x ∷ l) → Ending (push_all (a ∷ b ∷ c ∷ d ∷ []) (x ∷ l))
unfolding push_all
push_all-Ending a b c d x [] all = record {
  a = b;
  b = c;
  c = d;
  d = x;
  four = refl;
  open_line = all.0;
}
push_all-Ending a b c d x (y ∷ l) all = push_all-Ending b c d x y l all.1

blank : List ℕ
blank = 13 ∷ 10 ∷ 13 ∷ 10 ∷ []

is_blank_line-open : (a b c d : ℕ) → d ≢ 10 → is_blank_line (a ∷ b ∷ c ∷ d ∷ []) ≡ false
is_blank_line-open a b c d other = ground (arith, other)

is_blank_line-line : (a b : ℕ) → b ≢ 10 → is_blank_line (a ∷ b ∷ 13 ∷ 10 ∷ []) ≡ false
is_blank_line-line a b other = ground (arith, other)

module _ (libc : Libc) (sizes : Sizes) (r : Request) (rest : List ℕ) where
  goes_on : List ℕ × ℕ → Result (Bool × Request)
  goes_on f = process_bytes libc sizes rest (headed r f (spaces 50) blank)

  -- The lines behind the first one, and the empty line.
  process_bytes-lines :
      (ls : List (List ℕ)) (found : List ℕ × ℕ) (a b : ℕ)
      → b ≢ 10
      → All IsLine ls
      → process_bytes libc sizes
          (crlf_lines ls ++ (13 ∷ 10 ∷ rest))
          (headed r found (spaces 50) (a ∷ b ∷ 13 ∷ 10 ∷ []))
        ≡ (scan_lines libc (ls ++ ([] ∷ [])) found >>= goes_on)
  unfolding goes_on blank
  process_bytes-lines [] found a b other all =
      process_bytes-line libc sizes r [] rest found a b 13 10 a b 13 10
        (is_blank_line-line a b other) tt (unfold push_all in refl) (is_blank_line-line a b other)
      ∙ sym (>>=_assoc (scan_line libc (line_end []) found) (scan_lines libc []) goes_on)
  process_bytes-lines ([] ∷ ls) found a b other all = absurd all.0
  process_bytes-lines ((x ∷ l) ∷ ls) found a b other all =
      ap (λ bs. process_bytes libc sizes bs (headed r found (spaces 50) (a ∷ b ∷ 13 ∷ 10 ∷ [])))
        (append_assoc (x ∷ l) (13 ∷ 10 ∷ crlf_lines ls) (13 ∷ 10 ∷ rest))
      ∙ (process_bytes-line libc sizes r (x ∷ l) (crlf_lines ls ++ (13 ∷ 10 ∷ rest)) found a b 13 10
            end.a end.b end.c end.d (is_blank_line-line a b other) all.0 end.four
            (is_blank_line-open end.a end.b end.c end.d end.open_line)
          ∙ (>>=-cong (scan_line libc (line_end (x ∷ l)) found) _
                (λ f. scan_lines libc (ls ++ ([] ∷ [])) f >>= goes_on)
                (λ f. process_bytes-lines ls f end.c end.d end.open_line all.1)
              ∙ sym (
                  >>=_assoc (scan_line libc (line_end (x ∷ l)) found)
                    (scan_lines libc (ls ++ ([] ∷ []))) goes_on)))
    where
      end : Ending (push_all (a ∷ b ∷ 13 ∷ 10 ∷ []) (x ∷ l))
      end = push_all-Ending a b 13 10 x l all.0

  -- The header, when its lines' scans come to `f`.
  pub process_bytes-header :
      (l : List ℕ) (ls : List (List ℕ)) (found f : List ℕ × ℕ)
      → IsLine l
      → All IsLine ls
      → scan_lines libc (l ∷ (ls ++ ([] ∷ []))) found ≡ ok f
      → process_bytes libc sizes
          (crlf_lines (l ∷ ls) ++ (13 ∷ 10 ∷ rest))
          (headed r found (spaces 50) (0 ∷ 0 ∷ 0 ∷ 0 ∷ []))
        ≡ process_bytes libc sizes rest (headed r f (spaces 50) (13 ∷ 10 ∷ 13 ∷ 10 ∷ []))
  unfolding goes_on blank
  process_bytes-header [] ls found f one all scanned = absurd one
  process_bytes-header (x ∷ l) ls found f one all scanned =
      ap (λ bs. process_bytes libc sizes bs (headed r found (spaces 50) (0 ∷ 0 ∷ 0 ∷ 0 ∷ [])))
        (append_assoc (x ∷ l) (13 ∷ 10 ∷ crlf_lines ls) (13 ∷ 10 ∷ rest))
      ∙ (process_bytes-line libc sizes r (x ∷ l) (crlf_lines ls ++ (13 ∷ 10 ∷ rest)) found 0 0 0 0
            end.a end.b end.c end.d refl one end.four
            (is_blank_line-open end.a end.b end.c end.d end.open_line)
          ∙ (>>=-cong (scan_line libc (line_end (x ∷ l)) found) _
                (λ f. scan_lines libc (ls ++ ([] ∷ [])) f >>= goes_on)
                (λ f. process_bytes-lines ls f end.c end.d end.open_line all)
              ∙ (sym (
                    >>=_assoc (scan_line libc (line_end (x ∷ l)) found)
                      (scan_lines libc (ls ++ ([] ∷ []))) goes_on)
                  ∙ ap (λ m. m >>= goes_on) scanned)))
    where
      end : Ending (push_all (0 ∷ 0 ∷ 0 ∷ 0 ∷ []) (x ∷ l))
      end = push_all-Ending 0 0 0 0 x l one

-- The request behind its header, with what was kept of the content.
abbrev pub with_content : Request → List ℕ × ℕ → List ℕ → List ℕ → ℕ → Request
with_content r found fifo content content_ptr = record r {
  state = RequestState.get_content;
  auth = found.0;
  content_length = found.1;
  str_fifo = fifo;
  content_head = 13 ∷ 10 ∷ 13 ∷ 10 ∷ [];
  content = content;
  content_ptr = content_ptr;
}

length-shifted :
    (fifo : List ℕ) (x : ℕ) → length fifo ≡ 50 → length (shifted (with_last fifo x)) ≡ 50
length-shifted fifo x size = omega (
  arith,
  size,
  length-take 49 fifo,
  length-drop 1 (with_last fifo x),
  length-drop 49 (with_last fifo x),
  length-append (take 49 fifo) (x ∷ []),
  length-append (drop 1 (with_last fifo x)) (drop 49 (with_last fifo x)),
)

module _ (libc : Libc) (sizes : Sizes) (r : Request) (found : List ℕ × ℕ) (small : found.1 < 0x8000)
    (narrow : sizes.content_size < 256) where
  content_byte-kept :
      (x : ℕ) (fifo content : List ℕ) (ptr : ℕ)
      → sizes.content_size ≤ length content
      → ptr < sizes.content_size
      → ptr < found.1
      → content_byte sizes x (with_content r found fifo content ptr)
        ≡ ok (false, with_content r found fifo (splice content ptr (x ∷ [])) (ptr + 1))
  unfolding content_byte
  content_byte-kept x fifo content ptr room h1 h2 =
      rw (free, content_byte, store-splice content ptr x (omega arith))
        (ap (λ n. ok (false, with_content r found fifo (splice content ptr (x ∷ [])) n)) next)
    where
      next : u8 (ptr + 1) ≡ ptr + 1
      next = omega arith

      free : (ltb ptr sizes.content_size && (ltb found.1 0x8000 && ltb ptr found.1)) ≡ true
      free = ground arith

  pub content_byte_complete :
      (x : ℕ) (fifo content : List ℕ) (ptr : ℕ)
      → ptr ≡ min sizes.content_size found.1
      → content_byte sizes x (with_content r found fifo content ptr)
        ≡ ok (true, with_content r found fifo content ptr)
  unfolding content_byte
  content_byte_complete x fifo content ptr e = rw (full, content_byte) refl
    where
      full : (ltb ptr sizes.content_size && (ltb found.1 0x8000 && ltb ptr found.1)) ≡ false
      full = ground (arith, e)

  pub by_state-content :
      (x : ℕ) (fifo content : List ℕ) (ptr : ℕ)
      → length fifo ≡ 50
      → x ≢ 10
      → by_state get_content libc sizes x (with_content r found fifo content ptr)
        ≡ content_byte sizes x (with_content r found (shifted (with_last fifo x)) content ptr)
  unfolding by_state header_byte
  by_state-content x fifo content ptr size other =
      simp (ends_line-with_last fifo x size other, header_byte)

  -- The bytes of the content, as far as there is room and the header said.
  pub process_bytes-content :
      (xs rest fifo content : List ℕ) (ptr : ℕ)
      → length fifo ≡ 50
      → All IsNotNewline xs
      → sizes.content_size ≤ length content
      → ptr + length xs ≤ min sizes.content_size found.1
      → process_bytes libc sizes (xs ++ rest) (with_content r found fifo content ptr)
        ≡ process_bytes libc sizes rest
            (with_content r found (feed fifo xs) (splice content ptr xs) (ptr + length xs))
  unfolding feed
  process_bytes-content [] rest fifo content ptr size all room h =
      ap₂ (λ b n. process_bytes libc sizes rest (with_content r found fifo b n))
        (sym (take-append-drop ptr content)) (omega arith)
  process_bytes-content (x ∷ xs) rest fifo content ptr size all room h =
      process_bytes-next libc sizes x (xs ++ rest) _ _ (
        by_state-content x fifo content ptr size all.0
        ∙ content_byte-kept x (shifted (with_last fifo x)) content ptr room (omega arith)
            (omega arith))
      ∙ (process_bytes-content xs rest (shifted (with_last fifo x)) (splice content ptr (x ∷ []))
            (ptr + 1) (length-shifted fifo x size) all.1
            (omega (arith, length-splice content ptr (x ∷ []) (omega arith))) (omega arith)
          ∙ ap₂
              (λ b n.
                process_bytes libc sizes rest
                  (with_content r found (feed (shifted (with_last fifo x)) xs) b n))
              (splice-append content ptr (ptr + 1) (x ∷ []) xs refl (omega arith)) (omega arith))
