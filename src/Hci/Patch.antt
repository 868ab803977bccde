-- ===== src/Hci/Patch.antt =====
-- `hci_patch_send`: what reaches the bus of a patch in one packet, and of the portions that follow the
-- first one of a longer patch.
use arduino_spider_l3s_libra.Base.{
  ℕ, zero, suc, ◌+◌, ◌≤◌, ◌<◌, leb, ◌≡◌, refl, sym, ap, ◌∙◌, List, [], ◌∷◌, ◌++◌, length, take,
  drop, true, Result, ok, ◌>>=◌, u8, u16, arith, length-take, if◌then◌else◌, length-drop,
}
use arduino_spider_l3s_libra.Stream.{Cursor, uint8_to_stream, uint16_to_stream, array_to_stream}
use arduino_spider_l3s_libra.Stream.Memory.{
  splice, le16, store_bytes-splice, array_to_stream-cons, array_to_stream-nil, >>=_assoc,
  uint16_to_stream-le16,
}
use arduino_spider_l3s_libra.Stream.RoundTrip.{
  array_to_stream-splice, splice_twice, splice-append, length-splice,
}
use arduino_spider_l3s_libra.Spi.Frame.{Port, pad, spi_header}
use arduino_spider_l3s_libra.Spi.Frame.Laws.{
  HasMagic, spi_write-frame, last_byte-splice, drop-splice, drop-drop, load_bytes-take,
}
use arduino_spider_l3s_libra.Hci.{
  stream_of, with_tx, patch_single, patch_portions, patch_portion, hci_patch_send,
}
use arduino_spider_l3s_libra.Hci.Frames.{sent, send_splice}

abbrev pub patch_header : ℕ → ℕ → List ℕ
patch_header opcode n = 3 ∷ u8 opcode ∷ le16 (n + 2)

patch_chain :
    {A : Type 0} (opcode n : ℕ) (c : Cursor) (k : Cursor → Result A)
    → (uint8_to_stream c 3 >>= λ c1.
        uint8_to_stream c1 opcode >>= λ c2. uint16_to_stream c2 (n + 2) >>= k)
      ≡ (array_to_stream c (patch_header opcode n) >>= k)
unfolding uint16_to_stream
patch_chain opcode n c k =
    simp (array_to_stream-cons c 3, array_to_stream-cons, array_to_stream-nil, >>=_assoc)

module _ (opcode n : ℕ) (patch : List ℕ) (port : Port) (enough : n ≤ length patch)
    (room : 11 + n < length port.tx) where
  abbrev all_bytes : List ℕ
  all_bytes = patch_header opcode n ++ le16 n ++ take n patch

  portion_length : length (take n patch) ≡ n
  portion_length = omega (arith, length-take n patch)

  -- The two writes of the length and the copy of the patch are one write behind the header.
  patch_buffer :
      let tx = port.tx in
      let head = patch_header opcode n in
      splice (splice (splice (splice tx 5 head) 9 (le16 n)) 9 (le16 n)) 11 (take n patch)
      ≡ splice tx 5 all_bytes
  patch_buffer =
      rw
        (splice_twice (splice port.tx 5 (patch_header opcode n)) 9 (le16 n)
          (omega (arith, head_length)))
        (rw (splice-append port.tx 5 9 (patch_header opcode n) (le16 n) refl (omega arith)) (
          splice-append port.tx 5 11 (patch_header opcode n ++ le16 n) (take n patch) refl
            (omega (arith, portion_length))))
    where
      head_length : length (splice port.tx 5 (patch_header opcode n)) ≡ length port.tx
      head_length = length-splice port.tx 5 (patch_header opcode n) (omega arith)

  patch_single-sent :
      let c3 : Cursor = record {
        buffer = splice port.tx 5 (patch_header opcode n);
        position = 9;
      } in
      n ≤ 1000
      → 11 + n + pad (n + 6) ≤ length port.tx
      → HasMagic port.tx
      → patch_single patch n c3 port ≡ ok (sent port all_bytes (n + 6))
  unfolding patch_single
  patch_single-sent small fits mark =
      rw
        (
          uint16_to_stream-le16,
          array_to_stream-splice (at (splice tx 5 head)) (le16 n) (omega (arith, head_length)),
          uint16_to_stream-le16,
          array_to_stream-splice (at (splice (splice tx 5 head) 9 (le16 n))) (le16 n)
              (omega (arith, first_length)),
          load_bytes-take patch 0 n (omega arith),
          store_bytes-splice (splice (splice (splice tx 5 head) 9 (le16 n)) 9 (le16 n)) 11
              (take n patch) (omega (arith, second_length, portion_length)),
          patch_buffer,
        )
        (send_splice port all_bytes (n + 6) (omega arith) (omega (arith, portion_length))
          (omega arith) mark)
    where
      tx : List ℕ
      tx = port.tx

      head : List ℕ
      head = patch_header opcode n

      at : List ℕ → Cursor
      at b = record { buffer = b; position = 9 }

      head_length : length (splice tx 5 head) ≡ length tx
      head_length = length-splice tx 5 head (omega arith)

      first_length : length (splice (splice tx 5 head) 9 (le16 n)) ≡ length tx
      first_length =
          length-splice (splice tx 5 head) 9 (le16 n) (omega (arith, head_length)) ∙ head_length

      second_length : length (splice (splice (splice tx 5 head) 9 (le16 n)) 9 (le16 n)) ≡ length tx
      second_length =
          length-splice (splice (splice tx 5 head) 9 (le16 n)) 9 (le16 n)
            (omega (arith, first_length))
          ∙ first_length

-- A patch of at most 1000 bytes that fits the buffer goes out in one packet, the mark being in place:
-- SPI header, type 3, the opcode, the length plus 2, the length, the patch, and a pad byte if needed.
pub hci_patch_send-packet :
    (opcode n : ℕ) (patch : List ℕ) (port : Port)
    → n ≤ 1000
    → n ≤ length patch
    → 11 + n < length port.tx
    → 11 + n + pad (n + 6) ≤ length port.tx
    → HasMagic port.tx
    → hci_patch_send opcode patch n port
      ≡ ok (sent port (patch_header opcode n ++ le16 n ++ take n patch) (n + 6))
unfolding hci_patch_send
hci_patch_send-packet opcode n patch port small enough room fits mark =
    patch_chain opcode (u16 n) (stream_of port) (λ c3.
      if leb (u16 n) 1000
      then patch_single patch (u16 n) c3 port
      else patch_portions patch (u16 n) c3 port)
    ∙ (ap
          (λ m. array_to_stream (stream_of port) (patch_header opcode m) >>= λ c3.
            if leb m 1000 then patch_single patch m c3 port else patch_portions patch m c3 port)
          cast
        ∙ rw (short, array_to_stream-splice (stream_of port) (patch_header opcode n) (omega arith))
            (patch_single-sent opcode n patch port enough room small fits mark))
  where
    cast : u16 n ≡ n
    cast = omega arith

    short : leb n 1000 ≡ true
    short = ground arith

take-append-add :
    (xs ys : List ℕ) (m k : ℕ) → m ≡ length xs + k → take m (xs ++ ys) ≡ xs ++ take k ys
take-append-add [] ys m k e = let e' : m ≡ k = omega arith in ap (λ i. take i ys) e'
take-append-add (x ∷ xs) ys zero k e = absurd (omega arith)
take-append-add (x ∷ xs) ys (suc m) k e = ap (◌∷◌ x) (take-append-add xs ys m k (omega arith))

drop-append-le : (k : ℕ) (xs ys : List ℕ) → k ≤ length xs → drop k (xs ++ ys) ≡ drop k xs ++ ys
drop-append-le zero xs ys h = refl
drop-append-le (suc k) [] ys h = absurd (omega arith)
drop-append-le (suc k) (x ∷ xs) ys h = drop-append-le k xs ys (omega arith)

-- A later portion of a long patch is damaged: when it has between 3 and 1000 bytes and fits the buffer,
-- with the mark in place, the SPI header overwrites its length and its first three bytes, so that only
-- the bytes from the fourth on are sent, followed by five or six bytes left over in the buffer.
pub patch_portion-damaged :
    (n : ℕ) (patch : List ℕ) (port : Port)
    → 3 ≤ n
    → n ≤ 1000
    → n ≤ length patch
    → 12 + n + pad (n + 2) ≤ length port.tx
    → HasMagic port.tx
    → (tx : List ℕ) × (patch_portion patch n port
        ≡ ok (record {
          tx = tx;
          wire =
              port.wire
              ++ ((spi_header (n + 2)
                    ++ (drop 3 (take n patch) ++ take (5 + pad (n + 2)) (drop (7 + n) port.tx)))
                  ∷ []);
        }))
unfolding patch_portion
patch_portion-damaged n patch port low small enough fits mark = (
  splice written 5 (spi_header (n + 2)),
  rw
      (
        load_bytes-take patch 0 n (omega arith),
        uint16_to_stream-le16,
        array_to_stream-splice (stream_of port) (le16 n) (omega arith),
        store_bytes-splice (splice port.tx 5 (le16 n)) 7 (take n patch)
            (omega (arith, first_length, portion_length)),
        splice-append port.tx 5 7 (le16 n) (take n patch) refl (omega (arith, portion_length)),
        spi_write-frame 5 (n + 2) (with_tx port written) (omega arith)
            (omega (arith, written_length)) (omega (arith, written_length)) written_mark,
      )
      (ap
        (λ body. ok (record {
          tx = splice written 5 (spi_header (n + 2));
          wire = port.wire ++ ((spi_header (n + 2) ++ body) ∷ []);
        }))
        body_lem),
)
  where
    portion_length : length (take n patch) ≡ n
    portion_length = omega (arith, length-take n patch)

    first_length : length (splice port.tx 5 (le16 n)) ≡ length port.tx
    first_length = length-splice port.tx 5 (le16 n) (omega arith)

    written : List ℕ
    written = splice port.tx 5 (le16 n ++ take n patch)

    written_length : length written ≡ length port.tx
    written_length =
        length-splice port.tx 5 (le16 n ++ take n patch) (omega (arith, portion_length))

    written_mark : HasMagic written
    written_mark =
        last_byte-splice port.tx 5 (le16 n ++ take n patch) (omega (arith, portion_length)) ∙ mark

    left_over : List ℕ
    left_over = drop (suc (suc (length (take n patch)))) (drop 5 port.tx)

    same_left_over : left_over ≡ drop (7 + n) port.tx
    same_left_over =
        drop-drop (suc (suc (length (take n patch)))) 5 port.tx ∙ ap (λ k. drop k port.tx) rest
      where
        rest : 5 + suc (suc (length (take n patch))) ≡ 7 + n
        rest = omega (arith, portion_length)

    body_lem :
        take (n + 2 + pad (n + 2)) (drop 10 written)
        ≡ drop 3 (take n patch) ++ take (5 + pad (n + 2)) (drop (7 + n) port.tx)
    body_lem =
        ap (take (n + 2 + pad (n + 2))) (
          sym (drop-drop 5 5 written)
          ∙ (ap (drop 5) (drop-splice port.tx 5 (le16 n ++ take n patch) (omega arith))
              ∙ drop-append-le 3 (take n patch) left_over (omega (arith, portion_length))))
        ∙ (take-append-add (drop 3 (take n patch)) left_over (n + 2 + pad (n + 2)) (5 + pad (n + 2))
              (omega (arith, length-drop 3 (take n patch), portion_length))
            ∙ ap (λ r. drop 3 (take n patch) ++ take (5 + pad (n + 2)) r) same_left_over)
