-- ===== src/Stream.antt =====
-- cc3000_common.c and the stream macros of cc3000_common.h: little-endian reads and writes at a
-- position of a byte buffer. A position outside of the buffer is a trap.
mod Tests
pub mod Memory
pub mod RoundTrip
pub mod Parts
pub mod InBounds
use arduino_spider_l3s_libra.Base.{
  ℕ, zero, suc, ◌+◌, ◌*◌, List, [], ◌∷◌, get_elem?, length, Result, ok, trap, Trap, ◌>>=◌, access,
  u8, u16, u32, ◌>>>◌, ◌<<<◌,
}

-- `p[i] = v`
unfoldable pub store : List ℕ → ℕ → ℕ → Result (List ℕ)
store [] i v = trap Trap.out_of_bounds
store (x ∷ xs) zero v = ok (v ∷ xs)
store (x ∷ xs) (suc i) v = store xs i v >>= λ ys. ok (x ∷ ys)

-- `memcpy` to position `i`, and the loop of ARRAY_TO_STREAM.
unfoldable pub store_bytes : List ℕ → ℕ → List ℕ → Result (List ℕ)
store_bytes b i [] = ok b
store_bytes b i (x ∷ xs) = store b i x >>= λ c. store_bytes c (suc i) xs

-- `p[i]`
unfoldable pub load : List ℕ → ℕ → Result ℕ
load b i = access (get_elem? b i)

-- The `n` bytes from position `i` on: `memcpy` from there, and the loop of STREAM_TO_STREAM.
unfoldable pub load_bytes : List ℕ → ℕ → ℕ → Result (List ℕ)
load_bytes b i zero = ok []
load_bytes b i (suc n) = do x ← load b i; xs ← load_bytes b (suc i) n; ok (x ∷ xs)

-- `memmove(b + to, b + from, n)`
unfoldable pub memmove : List ℕ → ℕ → ℕ → ℕ → Result (List ℕ)
memmove b to from n = do moved ← load_bytes b from n; store_bytes b to moved

-- A buffer with the pointer that the macros move along it.
pub record Cursor : Type 0 where
  pub buffer : List ℕ
  pub position : ℕ

unfoldable pub array_to_stream : Cursor → List ℕ → Result Cursor
array_to_stream c bs = store_bytes c.buffer c.position bs >>= λ b.
    ok (record { buffer = b; position = c.position + length bs })

unfoldable pub uint8_to_stream : Cursor → ℕ → Result Cursor
uint8_to_stream c v = do
  b ← store c.buffer c.position (u8 v)
  ok (record { buffer = b; position = c.position + 1 })

-- UINT16_TO_STREAM_f
unfoldable pub uint16_to_stream : Cursor → ℕ → Result Cursor
uint16_to_stream c u = do c1 ← uint8_to_stream c (u16 u); uint8_to_stream c1 (u16 u >>> 8)

-- UINT32_TO_STREAM_f
unfoldable pub uint32_to_stream : Cursor → ℕ → Result Cursor
uint32_to_stream c u = do
  c1 ← uint8_to_stream c (u32 u)
  c2 ← uint8_to_stream c1 (u32 u >>> 8)
  c3 ← uint8_to_stream c2 (u32 u >>> 16)
  uint8_to_stream c3 (u32 u >>> 24)

-- STREAM_TO_UINT8
unfoldable pub stream_to_uint8 : List ℕ → ℕ → Result ℕ
stream_to_uint8 p offset = load p offset

-- STREAM_TO_UINT16_f
unfoldable pub stream_to_uint16 : List ℕ → ℕ → Result ℕ
stream_to_uint16 p offset = do
  hi ← load p (offset + 1)
  lo ← load p offset
  ok (u16 (u16 (hi <<< 8) + lo))

-- STREAM_TO_UINT32_f
unfoldable pub stream_to_uint32 : List ℕ → ℕ → Result ℕ
stream_to_uint32 p offset = do
  b3 ← load p (offset + 3)
  b2 ← load p (offset + 2)
  b1 ← load p (offset + 1)
  b0 ← load p offset
  ok (u32 (u32 (b3 <<< 24) + u32 (b2 <<< 16) + u32 (b1 <<< 8) + b0))
