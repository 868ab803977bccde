-- ===== src/WebServer/Reader/RequestLine.antt =====
-- The request line: what `WebServer_process_request` keeps of the method and of the file name.
use arduino_spider_l3s_libra.Base.{
  ℕ, suc, ◌+◌, ◌≤◌, ◌<◌, min, ◌==◌, List, [], ◌∷◌, ◌++◌, length, take, true, false, ok, ◌>>=◌, ◌≡◌,
  ◌≢◌, refl, sym, ap, ap₂, ◌∙◌, All, arith,
}
use arduino_spider_l3s_libra.Stream.Memory.{splice}
use arduino_spider_l3s_libra.WebServer.Reader.{
  Libc, Sizes, RequestState, get_method, get_filename, Request, by_state, process_bytes,
}
use arduino_spider_l3s_libra.WebServer.Reader.Kept.{
  kept, put_byte-kept, kept-append, kept-nothing, kept-start, length-kept,
}

abbrev pub IsNotSpace : ℕ → Type 0
IsNotSpace x = x ≢ 32

pub process_bytes-next :
    (libc : Libc) (sizes : Sizes) (byte : ℕ) (bytes : List ℕ) (r s : Request)
    → by_state r.state libc sizes byte r ≡ ok (false, s)
    → process_bytes libc sizes (byte ∷ bytes) r ≡ process_bytes libc sizes bytes s
unfolding process_bytes
process_bytes-next libc sizes byte bytes r s e =
    ap (λ m. m >>= λ t. elim t.0 [ true ↦ ok t | false ↦ process_bytes libc sizes bytes t.1 ]) e

pub process_bytes-returned :
    (libc : Libc) (sizes : Sizes) (byte : ℕ) (bytes : List ℕ) (r s : Request)
    → by_state r.state libc sizes byte r ≡ ok (true, s)
    → process_bytes libc sizes (byte ∷ bytes) r ≡ ok (true, s)
unfolding process_bytes
process_bytes-returned libc sizes byte bytes r s e =
    ap (λ m. m >>= λ t. elim t.0 [ true ↦ ok t | false ↦ process_bytes libc sizes bytes t.1 ]) e

abbrev with_method : List ℕ → ℕ → Request → Request
with_method buf n r = record r { method = buf; method_ptr = n }

abbrev with_filename : List ℕ → ℕ → Request → Request
with_filename buf n r = record r { filename = buf; filename_ptr = n }

module _ (libc : Libc) (sizes : Sizes) where
  method_token :
      (m rest : List ℕ) (r : Request)
      → r.state ≡ get_method
      → All IsNotSpace m
      → sizes.method_size < 256
      → sizes.method_size ≤ length r.method
      → r.method_ptr ≤ sizes.method_size
      → process_bytes libc sizes (m ++ rest) r
        ≡ process_bytes libc sizes rest (
            with_method
              (kept sizes.method_size r.method r.method_ptr m)
              (min sizes.method_size (r.method_ptr + length m))
              r)
  unfolding by_state
  method_token [] rest r st all small room h =
      let same : r.method_ptr ≡ min sizes.method_size (r.method_ptr + 0) = omega arith in
      ap₂ (λ b n. process_bytes libc sizes rest (with_method b n r))
        (sym (kept-nothing sizes.method_size r.method r.method_ptr)) same
  method_token (x ∷ m) rest r st all small room h =
      process_bytes-next libc sizes x (m ++ rest) r after stepped
      ∙ (method_token m rest after st all.1 small
            (omega (arith, length-kept sizes.method_size r.method r.method_ptr (x ∷ []) room h))
            (omega arith)
          ∙ ap₂ (λ b n. process_bytes libc sizes rest (with_method b n r))
              (kept-append sizes.method_size r.method r.method_ptr x m room h) total)
    where
      after : Request
      after =
          with_method (kept sizes.method_size r.method r.method_ptr (x ∷ []))
            (min sizes.method_size (r.method_ptr + 1)) r

      letter : (x == 32) ≡ false
      letter = ground (arith, all.0)

      stepped : by_state r.state libc sizes x r ≡ ok (false, after)
      stepped =
          ap (λ k. by_state k libc sizes x r) st
          ∙ simp (letter, by_state)
              (ap (λ q. q >>= λ p. ok (false, with_method p.0 p.1 r))
                (put_byte-kept sizes.method_size r.method r.method_ptr x small room h))

      total :
          min sizes.method_size (min sizes.method_size (r.method_ptr + 1) + length m)
          ≡ min sizes.method_size (r.method_ptr + (suc (length m)))
      total = omega arith

  filename_token :
      (m rest : List ℕ) (r : Request)
      → r.state ≡ get_filename
      → All IsNotSpace m
      → sizes.filename_size < 256
      → sizes.filename_size ≤ length r.filename
      → r.filename_ptr ≤ sizes.filename_size
      → process_bytes libc sizes (m ++ rest) r
        ≡ process_bytes libc sizes rest (
            with_filename
              (kept sizes.filename_size r.filename r.filename_ptr m)
              (min sizes.filename_size (r.filename_ptr + length m))
              r)
  unfolding by_state
  filename_token [] rest r st all small room h =
      let same : r.filename_ptr ≡ min sizes.filename_size (r.filename_ptr + 0) = omega arith in
      ap₂ (λ b n. process_bytes libc sizes rest (with_filename b n r))
        (sym (kept-nothing sizes.filename_size r.filename r.filename_ptr)) same
  filename_token (x ∷ m) rest r st all small room h =
      process_bytes-next libc sizes x (m ++ rest) r after stepped
      ∙ (filename_token m rest after st all.1 small
            (omega
              (arith, length-kept sizes.filename_size r.filename r.filename_ptr (x ∷ []) room h))
            (omega arith)
          ∙ ap₂ (λ b n. process_bytes libc sizes rest (with_filename b n r))
              (kept-append sizes.filename_size r.filename r.filename_ptr x m room h) total)
    where
      after : Request
      after =
          with_filename (kept sizes.filename_size r.filename r.filename_ptr (x ∷ []))
            (min sizes.filename_size (r.filename_ptr + 1)) r

      letter : (x == 32) ≡ false
      letter = ground (arith, all.0)

      stepped : by_state r.state libc sizes x r ≡ ok (false, after)
      stepped =
          ap (λ k. by_state k libc sizes x r) st
          ∙ simp (letter, by_state)
              (ap (λ q. q >>= λ p. ok (false, with_filename p.0 p.1 r))
                (put_byte-kept sizes.filename_size r.filename r.filename_ptr x small room h))

      total :
          min sizes.filename_size (min sizes.filename_size (r.filename_ptr + 1) + length m)
          ≡ min sizes.filename_size (r.filename_ptr + (suc (length m)))
      total = omega arith

-- A request that begins with a method and a file name, neither with a space in it and each followed by
-- one: `method` and `filename` get them, cut off at their sizes, the rest of both buffers is left alone,
-- and reading goes on with the header. The sizes are below 256 and no larger than the buffers.
pub process_bytes-request_line :
    (libc : Libc) (sizes : Sizes) (m f rest : List ℕ) (r : Request)
    → r.state ≡ get_method
    → r.method_ptr ≡ 0
    → r.filename_ptr ≡ 0
    → All IsNotSpace m
    → All IsNotSpace f
    → sizes.method_size < 256
    → sizes.method_size ≤ length r.method
    → sizes.filename_size < 256
    → sizes.filename_size ≤ length r.filename
    → process_bytes libc sizes (m ++ (32 ∷ (f ++ (32 ∷ rest)))) r
      ≡ process_bytes libc sizes rest (record r {
        state = RequestState.get_content;
        method = splice r.method 0 (take sizes.method_size m);
        method_ptr = min sizes.method_size (length m);
        filename = splice r.filename 0 (take sizes.filename_size f);
        filename_ptr = min sizes.filename_size (length f);
      })
unfolding by_state
process_bytes-request_line libc sizes m f rest r st mp fp no_m no_f small1 room1 small2 room2 =
    method_token libc sizes m (32 ∷ (f ++ (32 ∷ rest))) r st no_m small1 room1 (omega (arith, mp))
    ∙ (process_bytes-next libc sizes 32 (f ++ (32 ∷ rest)) named opened
          (ap (λ k. by_state k libc sizes 32 named) st)
        ∙ (filename_token libc sizes f (32 ∷ rest) opened refl no_f small2 room2 (omega (arith, fp))
            ∙ (process_bytes-next libc sizes 32 rest _ _ refl
                ∙ (ap₂
                      (λ b n.
                        process_bytes libc sizes rest (final b n (opened_name f) (opened_count f)))
                      (kept-start sizes.method_size r.method r.method_ptr m mp) method_count
                    ∙ ap₂
                        (λ b n. process_bytes libc sizes rest (
                          final (splice r.method 0 (take sizes.method_size m))
                            (min sizes.method_size (length m)) b n))
                        (kept-start sizes.filename_size r.filename r.filename_ptr f fp)
                        filename_count))))
  where
    named : Request
    named =
        with_method (kept sizes.method_size r.method r.method_ptr m)
          (min sizes.method_size (r.method_ptr + length m)) r

    opened : Request
    opened = record named { state = RequestState.get_filename }

    opened_name : List ℕ → List ℕ
    opened_name xs = kept sizes.filename_size r.filename r.filename_ptr xs

    opened_count : List ℕ → ℕ
    opened_count xs = min sizes.filename_size (r.filename_ptr + length xs)

    method_count :
        min sizes.method_size (r.method_ptr + length m) ≡ min sizes.method_size (length m)
    method_count = omega (arith, mp)

    filename_count :
        min sizes.filename_size (r.filename_ptr + length f) ≡ min sizes.filename_size (length f)
    filename_count = omega (arith, fp)

    final : List ℕ → ℕ → List ℕ → ℕ → Request
    final method method_ptr filename filename_ptr = record r {
      state = RequestState.get_content;
      method = method;
      method_ptr = method_ptr;
      filename = filename;
      filename_ptr = filename_ptr;
    }
