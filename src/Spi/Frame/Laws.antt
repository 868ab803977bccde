-- ===== src/Spi/Frame/Laws.antt =====
-- What `SpiWrite` sends of a buffer that holds the packet, and when it hangs.
use arduino_spider_l3s_libra.Base.{
  ℕ, zero, suc, ◌+◌, ◌≤◌, ◌<◌, ◌≡◌, refl, ap, ◌∙◌, List, [], ◌∷◌, ◌++◌, length, take, drop, some,
  sym, ok, ◌>>=◌, arith, length-append, length-drop, u16,
}
use arduino_spider_l3s_libra.Stream.{load, load_bytes}
use arduino_spider_l3s_libra.Stream.Memory.{splice, store_bytes-splice}
use arduino_spider_l3s_libra.Stream.RoundTrip.{length-splice}
use arduino_spider_l3s_libra.Spi.Frame.{
  last_byte, pad, spi_header, magic_number, spi_frame, Port, spi_write,
}

-- The overrun mark stands at the end of the buffer.
abbrev pub HasMagic : List ℕ → Type 0
HasMagic b = last_byte b ≡ some magic_number

load_bytes-cons : (x : ℕ) (b : List ℕ) (p n : ℕ) → load_bytes (x ∷ b) (suc p) n ≡ load_bytes b p n
unfolding load_bytes load
load_bytes-cons x b p zero = refl
load_bytes-cons x b p (suc n) =
    ap (λ r. load b p >>= λ y. r >>= λ ys. ok (y ∷ ys)) (load_bytes-cons x b (suc p) n)

pub load_bytes-take :
    (b : List ℕ) (p n : ℕ) → p + n ≤ length b → load_bytes b p n ≡ ok (take n (drop p b))
load_bytes-take b zero zero h = unfold load_bytes in refl
load_bytes-take [] zero (suc n) h = absurd (omega arith)
load_bytes-take [] (suc p) n h = absurd (omega arith)
load_bytes-take (x ∷ b) zero (suc n) h = first (load_bytes-take b zero n (omega arith))
  where
    first : load_bytes b 0 n ≡ ok (take n b) → load_bytes (x ∷ b) 0 (suc n) ≡ ok (x ∷ take n b)
    first ih = unfold load_bytes load in rw (load_bytes-cons x b 0 n, ih)
load_bytes-take (x ∷ b) (suc p) n h = load_bytes-cons x b p n ∙ load_bytes-take b p n (omega arith)

last_byte-cons : (x : ℕ) (b : List ℕ) → 0 < length b → last_byte (x ∷ b) ≡ last_byte b
unfolding last_byte
last_byte-cons x [] h = absurd (omega arith)
last_byte-cons x (y ∷ b) h = refl

pub last_byte-append : (xs b : List ℕ) → 0 < length b → last_byte (xs ++ b) ≡ last_byte b
last_byte-append [] b h = refl
last_byte-append (x ∷ xs) b h =
    last_byte-cons x (xs ++ b) (omega (arith, length-append xs b)) ∙ last_byte-append xs b h

pub last_byte-drop : (n : ℕ) (b : List ℕ) → n < length b → last_byte (drop n b) ≡ last_byte b
last_byte-drop zero b h = refl
last_byte-drop (suc n) [] h = refl
last_byte-drop (suc n) (x ∷ b) h =
    last_byte-drop n b (omega arith) ∙ sym (last_byte-cons x b (omega arith))

pub last_byte-splice :
    (b : List ℕ) (p : ℕ) (xs : List ℕ)
    → p + length xs < length b
    → last_byte (splice b p xs) ≡ last_byte b
last_byte-splice b p xs h =
    let tail = drop (length xs) (drop p b) in
    let some_left : length xs < length (drop p b) = omega (arith, length-drop p b) in
    last_byte-append (take p b) (xs ++ tail)
      (omega (arith, length-append xs tail, length-drop (length xs) (drop p b)))
    ∙ (last_byte-append xs tail (omega (arith, length-drop (length xs) (drop p b)))
        ∙ (last_byte-drop (length xs) (drop p b) some_left ∙ last_byte-drop p b (omega arith)))

pub drop-drop : (m n : ℕ) (b : List ℕ) → drop m (drop n b) ≡ drop (n + m) b
drop-drop m zero b = let e : m ≡ 0 + m = omega arith in ap (λ k. drop k b) e
drop-drop m (suc n) [] = drop-nil m ∙ sym (drop-nil (suc n + m))
  where
    drop-nil : (k : ℕ) → drop {A = ℕ} k [] ≡ []
    drop-nil zero = refl
    drop-nil (suc k) = refl
drop-drop m (suc n) (x ∷ b) =
    let e : suc (n + m) ≡ suc n + m = omega arith in drop-drop m n b ∙ ap (λ k. drop k (x ∷ b)) e

pub drop-splice :
    (b : List ℕ) (p : ℕ) (xs : List ℕ)
    → p ≤ length b
    → drop p (splice b p xs) ≡ xs ++ drop (length xs) (drop p b)
drop-splice b zero xs h = refl
drop-splice [] (suc p) xs h = absurd (omega arith)
drop-splice (x ∷ b) (suc p) xs h = drop-splice b p xs (omega arith)

-- The bytes of the frame: header, packet, and the pad byte that happens to follow.
abbrev pub frame_bytes : List ℕ → ℕ → ℕ → List ℕ
frame_bytes tx base len = spi_header len ++ take (len + pad len) (drop (base + 5) tx)

-- For a length of at most 65529 where the frame, with its pad byte, fits the buffer behind `base` and
-- the header leaves the mark alone, `SpiWrite` writes the header at `base`, clocks out the header and
-- the packet that follows it, and leaves the rest of the buffer as it was.
pub spi_write-frame :
    (base len : ℕ) (port : Port)
    → len < 65530
    → base + 5 < length port.tx
    → base + 5 + (len + pad len) ≤ length port.tx
    → HasMagic port.tx
    → spi_write base len port
      ≡ ok (record {
        tx = splice port.tx base (spi_header len);
        wire = port.wire ++ (frame_bytes port.tx base len ∷ []);
      })
unfolding spi_write spi_frame
spi_write-frame base len port small room fits mark = rw (
  cast,
  store_bytes-splice tx base (spi_header len) (omega arith),
  last_byte-splice tx base (spi_header len) room,
  mark,
  total,
  load_bytes-take (splice tx base (spi_header len)) base (suc (suc (suc (suc (suc body))))) inside,
  drop-splice tx base (spi_header len) (omega arith),
  drop-drop 5 base tx,
)
  where
    tx : List ℕ
    tx = port.tx

    body : ℕ
    body = len + pad len

    cast : u16 len ≡ len
    cast = omega arith

    pad_le : pad len ≤ 1
    pad_le = ground arith

    total : u16 (len + (5 + pad len)) ≡ suc (suc (suc (suc (suc body))))
    total = omega (arith, pad_le)

    inside : base + suc (suc (suc (suc (suc body)))) ≤ length (splice tx base (spi_header len))
    inside = omega (arith, length-splice tx base (spi_header len) (omega arith))
