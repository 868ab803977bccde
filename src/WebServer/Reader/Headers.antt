-- ===== src/WebServer/Reader/Headers.antt =====
-- The header of a request: how `WebServer_process_request` finds its lines in the last 50 bytes that it
-- keeps of them, and its end.
use arduino_spider_l3s_libra.Base.{
  ℕ, suc, ◌==◌, ◌&&◌, List, [], ◌∷◌, ◌++◌, length, length-append, length-drop, length-take, take,
  drop, take-append, append_assoc, get_or, All, Bool, true, false, Result, ok, trap, ◌>>=◌, ◌≡◌,
  ◌≢◌, refl, ap, ap₂, ◌∙◌, arith,
}
use arduino_spider_l3s_libra.WebServer.Reader.{
  Libc, Sizes, RequestState, get_content, Request, spaces, with_last, shifted, ends_line, put_auth,
  put_length, header_line, header_byte, is_blank_line, content_byte, by_state, process_bytes,
}
use arduino_spider_l3s_libra.WebServer.Reader.RequestLine.{process_bytes-next}
use arduino_spider_l3s_libra.WebServer.Reader.Window.{
  feed, push, push_all, feed-window, ends_line-with_last, window_next, get_or-append, drop_one,
  drop-append_le,
}

abbrev pub IsNotNewline : ℕ → Type 0
IsNotNewline x = x ≢ 10

-- The last 48 bytes of a line with spaces before it.
abbrev pub line_end : List ℕ → List ℕ
line_end l = drop (suc (length l)) (spaces 49 ++ l)

-- What the two scans of a line, with two zeros behind it, make of `auth` and `content_length`.
abbrev pub scan_line : Libc → List ℕ → List ℕ × ℕ → Result (List ℕ × ℕ)
scan_line libc line found = do
  auth ← put_auth (libc.scan_auth (line ++ (0 ∷ 0 ∷ []))) found.0
  ok (auth, put_length (libc.scan_length (line ++ (0 ∷ 0 ∷ []))) found.1)

abbrev pub scan_lines : Libc → List (List ℕ) → List ℕ × ℕ → Result (List ℕ × ℕ)
scan_lines libc [] found = ok found
scan_lines libc (l ∷ ls) found = scan_line libc (line_end l) found >>= scan_lines libc ls

abbrev pub crlf_lines : List (List ℕ) → List ℕ
crlf_lines [] = []
crlf_lines (l ∷ ls) = l ++ (13 ∷ 10 ∷ crlf_lines ls)

pub is_blank_line-push :
    (a b c d x : ℕ) → x ≢ 10 → is_blank_line (push (a ∷ b ∷ c ∷ d ∷ []) x) ≡ false
is_blank_line-push a b c d x other = ground (arith, other)

is_blank_line-push_twice : (a b c d x y : ℕ) → x ≢ 10 → is_blank_line (a ∷ x ∷ c ∷ y ∷ []) ≡ false
is_blank_line-push_twice a b c d x y other = ground (arith, other)

-- The request with what the header's lines change.
abbrev pub headed : Request → List ℕ × ℕ → List ℕ → List ℕ → Request
headed r found fifo head = record r {
  state = RequestState.get_content;
  auth = found.0;
  content_length = found.1;
  str_fifo = fifo;
  content_head = head;
}

module _ (libc : Libc) (sizes : Sizes) (r : Request) where
  by_state-quiet :
      (x : ℕ) (found : List ℕ × ℕ) (fifo head : List ℕ)
      → length fifo ≡ 50
      → is_blank_line head ≡ false
      → x ≢ 10
      → by_state get_content libc sizes x (headed r found fifo head)
        ≡ ok (false, headed r found (shifted (with_last fifo x)) (push head x))
  unfolding by_state header_byte content_byte
  by_state-quiet x found fifo head size quiet other =
      simp (ends_line-with_last fifo x size other, header_byte, quiet, content_byte)

  -- Bytes in which no line ends.
  process_bytes-quiet :
      (l rest : List ℕ) (found : List ℕ × ℕ) (fifo : List ℕ) (a b c d : ℕ)
      → length fifo ≡ 50
      → is_blank_line (a ∷ b ∷ c ∷ d ∷ []) ≡ false
      → All IsNotNewline l
      → process_bytes libc sizes (l ++ rest) (headed r found fifo (a ∷ b ∷ c ∷ d ∷ []))
        ≡ process_bytes libc sizes rest
            (headed r found (feed fifo l) (push_all (a ∷ b ∷ c ∷ d ∷ []) l))
  unfolding feed push_all
  process_bytes-quiet [] rest found fifo a b c d size quiet all = refl
  process_bytes-quiet (x ∷ l) rest found fifo a b c d size quiet all =
      process_bytes-next libc sizes x (l ++ rest) _ _
        (by_state-quiet x found fifo (a ∷ b ∷ c ∷ d ∷ []) size quiet all.0)
      ∙ process_bytes-quiet l rest found (shifted (with_last fifo x)) b c d x
          (omega (
            arith,
            size,
            length-take 49 fifo,
            length-drop 1 (with_last fifo x),
            length-drop 49 (with_last fifo x),
            length-append (take 49 fifo) (x ∷ []),
            length-append (drop 1 (with_last fifo x)) (drop 49 (with_last fifo x)),
          ))
          (is_blank_line-push a b c d x all.0) all.1

  -- The newline that ends a line.
  by_state-newline :
      (line : List ℕ) (found : List ℕ × ℕ) (fifo head : List ℕ)
      → length line ≡ 48
      → take 49 fifo ≡ line ++ (13 ∷ [])
      → is_blank_line head ≡ false
      → by_state get_content libc sizes 10 (headed r found fifo head)
        ≡ (scan_line libc line found >>= λ f. ok (false, headed r f (spaces 50) (push head 10)))
  unfolding by_state header_byte content_byte header_line
  by_state-newline line found fifo head size shows quiet =
      simp (shows, ends, header_byte, seen, header_line)
        (go (put_auth (libc.scan_auth (line ++ (0 ∷ 0 ∷ []))) found.0))
    where
      n : ℕ
      n = put_length (libc.scan_length (line ++ (0 ∷ 0 ∷ []))) found.1

      go :
          (m : Result (List ℕ))
          → ((m >>= λ auth. ok (headed r (auth, n) (spaces 50) head)) >>= content_byte sizes 10) ≡ (
              (m >>= λ auth. ok (auth, n)) >>= λ f.
              ok (false, headed r f (spaces 50) (push head 10)))
      go (ok auth) = simp (quiet, content_byte)
      go (trap t) = refl

      ends : ends_line ((line ++ (13 ∷ [])) ++ (10 ∷ [])) ≡ true
      ends =
          ap₂ (λ x y. x == 13 && y == 10)
            (ap (λ b. get_or b 48 0) (append_assoc line (13 ∷ []) (10 ∷ []))
              ∙ get_or-append line 13 (10 ∷ []) 48 (omega (arith, size)))
            (get_or-append (line ++ (13 ∷ [])) 10 [] 49
              (omega (arith, size, length-append line (13 ∷ []))))

      seen : take 48 ((line ++ (13 ∷ [])) ++ (10 ∷ [])) ≡ line
      seen =
          ap (take 48) (append_assoc line (13 ∷ []) (10 ∷ []))
          ∙ take-append line (13 ∷ 10 ∷ []) 48 (omega (arith, size))

  -- A whole line: the bytes from `after` on, with the line's end in the fifo.
  pub process_bytes-line :
      (l rest : List ℕ) (found : List ℕ × ℕ) (a b c d a' b' c' d' : ℕ)
      → is_blank_line (a ∷ b ∷ c ∷ d ∷ []) ≡ false
      → All IsNotNewline l
      → push_all (a ∷ b ∷ c ∷ d ∷ []) l ≡ a' ∷ b' ∷ c' ∷ d' ∷ []
      → is_blank_line (a' ∷ b' ∷ c' ∷ d' ∷ []) ≡ false
      → process_bytes libc sizes
          (l ++ (13 ∷ 10 ∷ rest))
          (headed r found (spaces 50) (a ∷ b ∷ c ∷ d ∷ []))
        ≡ (scan_line libc (line_end l) found >>= λ f.
            process_bytes libc sizes rest (headed r f (spaces 50) (c' ∷ d' ∷ 13 ∷ 10 ∷ [])))
  process_bytes-line l rest found a b c d a' b' c' d' quiet all last quiet' =
      process_bytes-quiet l (13 ∷ 10 ∷ rest) found (spaces 50) a b c d refl quiet all
      ∙ (ap (λ h. process_bytes libc sizes (13 ∷ 10 ∷ rest) (headed r found (feed (spaces 50) l) h))
            last
          ∙ (process_bytes-next libc sizes 13 (10 ∷ rest) _ _ (
                by_state-quiet 13 found (feed (spaces 50) l) (a' ∷ b' ∷ c' ∷ d' ∷ []) fed.1 quiet'
                  other)
              ∙ newline))
    where
      fed :
          (take 49 (feed (spaces 50) l) ≡ drop (length l) (spaces 49 ++ l))
          × (length (feed (spaces 50) l) ≡ 50)
      fed = feed-window (spaces 49) l (spaces 50) refl (refl, refl)

      other : IsNotNewline 13
      other e = absurd (omega (arith, e))

      line_size : length (line_end l) ≡ 48
      line_size =
          omega (arith, length-drop (length l) (spaces 48 ++ l), length-append (spaces 48) l)

      shows : take 49 (shifted (with_last (feed (spaces 50) l) 13)) ≡ line_end l ++ (13 ∷ [])
      shows =
          window_next (drop (length l) (spaces 49 ++ l)) 13 (feed (spaces 50) l)
            (omega (arith, length-drop (length l) (spaces 49 ++ l), length-append (spaces 49) l))
            fed
          ∙ (drop-append_le 1 (drop (length l) (spaces 49 ++ l)) (13 ∷ []) (
                omega (arith, length-drop (length l) (spaces 49 ++ l), length-append (spaces 49) l))
              ∙ ap (λ w. w ++ (13 ∷ [])) (drop_one (length l) (spaces 49 ++ l)))

      ended : List ℕ × ℕ → Result (Bool × Request)
      ended f = ok (false, headed r f (spaces 50) (c' ∷ d' ∷ 13 ∷ 10 ∷ []))

      go_on : Bool × Request → Result (Bool × Request)
      go_on s = elim s.0 [ true ↦ ok s | false ↦ process_bytes libc sizes rest s.1 ]

      next :
          (m : Result (List ℕ × ℕ))
          → ((m >>= ended) >>= go_on) ≡ (
              m >>= λ f.
              process_bytes libc sizes rest (headed r f (spaces 50) (c' ∷ d' ∷ 13 ∷ 10 ∷ [])))
      next (ok f) = refl
      next (trap t) = refl

      newline :
          process_bytes libc sizes
            (10 ∷ rest)
            (headed r found (shifted (with_last (feed (spaces 50) l) 13)) (b' ∷ c' ∷ d' ∷ 13 ∷ []))
          ≡ (scan_line libc (line_end l) found >>= λ f.
              process_bytes libc sizes rest (headed r f (spaces 50) (c' ∷ d' ∷ 13 ∷ 10 ∷ [])))
      newline =
          unfold process_bytes in
          rw
            (by_state-newline (line_end l) found (shifted (with_last (feed (spaces 50) l) 13))
              (b' ∷ c' ∷ d' ∷ 13 ∷ []) line_size shows (is_blank_line-push a' b' c' d' 13 other))
            (next (scan_line libc (line_end l) found))
