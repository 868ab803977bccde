-- ===== src/Stream/RoundTrip.antt =====
-- What the stream macros write is what they read back, and nothing else of the buffer changes.
use arduino_spider_l3s_libra.Base.{
  ℕ, zero, suc, ◌+◌, ◌≤◌, ◌<◌, ◌≡◌, refl, sym, ap, ◌∙◌, ◌⊎◌, inl, inr, List, [], ◌∷◌, ◌++◌, length,
  take, drop, get_elem?, Result, ok, ◌>>=◌, arith, u32, length-append, length-take, length-drop,
}
use arduino_spider_l3s_libra.Stream.{
  Cursor, store_bytes, load, array_to_stream, uint32_to_stream, stream_to_uint32,
}
use arduino_spider_l3s_libra.Stream.Memory.{
  splice, le32, store_bytes-splice, store_bytes-append, uint32_to_stream-le32,
}

get_elem?-append :
    (xs ys : List ℕ) (j : ℕ) → j < length xs → get_elem? (xs ++ ys) j ≡ get_elem? xs j
get_elem?-append [] ys j h = absurd (omega arith)
get_elem?-append (x ∷ xs) ys zero h = refl
get_elem?-append (x ∷ xs) ys (suc j) h = get_elem?-append xs ys j (omega arith)

get_elem?-drop :
    (xs ys zs : List ℕ) (j : ℕ)
    → length xs ≡ length ys
    → length xs ≤ j
    → get_elem? (xs ++ zs) j ≡ get_elem? (ys ++ zs) j
get_elem?-drop [] [] zs j e h = refl
get_elem?-drop [] (y ∷ ys) zs j e h = absurd (omega arith)
get_elem?-drop (x ∷ xs) [] zs j e h = absurd (omega arith)
get_elem?-drop (x ∷ xs) (y ∷ ys) zs zero e h = absurd (omega arith)
get_elem?-drop (x ∷ xs) (y ∷ ys) zs (suc j) e h =
    get_elem?-drop xs ys zs j (omega arith) (omega arith)

-- Inside of a splice are the bytes written.
pub get_elem?-splice :
    (b : List ℕ) (p : ℕ) (xs : List ℕ) (i j : ℕ)
    → p + length xs ≤ length b
    → i ≡ p + j
    → j < length xs
    → get_elem? (splice b p xs) i ≡ get_elem? xs j
get_elem?-splice b zero xs i j h e k =
    let e' : i ≡ j = omega arith in rw e' (get_elem?-append xs _ j k)
get_elem?-splice [] (suc p) xs i j h e k = absurd (omega arith)
get_elem?-splice (x ∷ b) (suc p) xs zero j h e k = absurd (omega arith)
get_elem?-splice (x ∷ b) (suc p) xs (suc i) j h e k =
    get_elem?-splice b p xs i j (omega arith) (omega arith) k

pub take-append-drop : (n : ℕ) (xs : List ℕ) → take n xs ++ drop n xs ≡ xs
take-append-drop zero xs = refl
take-append-drop (suc n) [] = refl
take-append-drop (suc n) (x ∷ xs) = ap (◌∷◌ x) (take-append-drop n xs)

-- Outside of it is the buffer as it was.
pub get_elem?-splice_outside :
    (b : List ℕ) (p : ℕ) (xs : List ℕ) (i : ℕ)
    → p + length xs ≤ length b
    → (i < p) ⊎ (p + length xs ≤ i)
    → get_elem? (splice b p xs) i ≡ get_elem? b i
get_elem?-splice_outside b zero xs i h (inl k) = elim k [ ]
get_elem?-splice_outside b zero xs i h (inr k) =
    get_elem?-drop xs (take (length xs) b) (drop (length xs) b) i
      (omega (arith, length-take (length xs) b)) (omega arith)
    ∙ ap (λ c. get_elem? c i) (take-append-drop (length xs) b)
get_elem?-splice_outside [] (suc p) xs i h k = absurd (omega arith)
get_elem?-splice_outside (x ∷ b) (suc p) xs zero h k = refl
get_elem?-splice_outside (x ∷ b) (suc p) xs (suc i) h k =
    get_elem?-splice_outside b p xs i (omega arith) (ground arith)

pub length-splice :
    (b : List ℕ) (p : ℕ) (xs : List ℕ)
    → p + length xs ≤ length b
    → length (splice b p xs) ≡ length b
length-splice b p xs h = omega (
  arith,
  length-append (take p b) (xs ++ drop (length xs) (drop p b)),
  length-append xs (drop (length xs) (drop p b)),
  length-take p b,
  length-drop p b,
  length-drop (length xs) (drop p b),
)

pub array_to_stream-splice :
    (c : Cursor) (xs : List ℕ)
    → c.position + length xs ≤ length c.buffer
    → array_to_stream c xs
      ≡ ok (record { buffer = splice c.buffer c.position xs; position = c.position + length xs })
unfolding array_to_stream
array_to_stream-splice c xs h = rw (store_bytes-splice c.buffer c.position xs h)

-- A second write of the same bytes at the same place changes nothing.
pub splice_twice :
    (b : List ℕ) (p : ℕ) (xs : List ℕ)
    → p + length xs ≤ length b
    → splice (splice b p xs) p xs ≡ splice b p xs
splice_twice b zero xs h = ap (◌++◌ xs) (drop-append xs (drop (length xs) b))
  where
    drop-append : (ys zs : List ℕ) → drop (length ys) (ys ++ zs) ≡ zs
    drop-append [] zs = refl
    drop-append (y ∷ ys) zs = drop-append ys zs
splice_twice [] (suc p) xs h = absurd (omega arith)
splice_twice (x ∷ b) (suc p) xs h = ap (◌∷◌ x) (splice_twice b p xs (omega arith))

-- Two writes next to one another are one.
pub splice-append :
    (b : List ℕ) (p q : ℕ) (xs ys : List ℕ)
    → q ≡ p + length xs
    → p + length xs + length ys ≤ length b
    → splice (splice b p xs) q ys ≡ splice b p (xs ++ ys)
splice-append b p q xs ys e h = ok-injective (
    sym (store_bytes-splice (splice b p xs) q ys (omega (arith, length-splice b p xs)))
    ∙ (rw (e) (
          sym (
            ap (λ r. r >>= λ c. store_bytes c (p + length xs) ys)
              (store_bytes-splice b p xs (omega arith))))
        ∙ (sym (store_bytes-append b p xs ys)
            ∙ store_bytes-splice b p (xs ++ ys) (omega (arith, length-append xs ys)))))
  where
    ok-injective : {A : Type 0} {x y : A} → Result.ok x ≡ ok y → x ≡ y
    ok-injective h = cc

-- Writing a 32-bit number where it fits and reading it back: UINT32_TO_STREAM moves the pointer by
-- four, STREAM_TO_UINT32 at the old pointer gives the number modulo 2^32, the buffer keeps its length,
-- and the byte at any index outside of the four keeps its value.
pub stream_to_uint32-uint32_to_stream :
    (c : Cursor) (n i : ℕ)
    → c.position + 4 ≤ length c.buffer
    → (i < c.position) ⊎ (c.position + 4 ≤ i)
    → (d : Cursor) × (uint32_to_stream c n ≡ ok d)
      × (d.position ≡ c.position + 4)
      × (stream_to_uint32 d.buffer c.position ≡ ok (u32 n))
      × (length d.buffer ≡ length c.buffer)
      × (get_elem? d.buffer i ≡ get_elem? c.buffer i)
unfolding array_to_stream stream_to_uint32 load
stream_to_uint32-uint32_to_stream c n i h k = (
  record { buffer = splice b p (le32 n); position = p + 4 },
  uint32_to_stream-le32 c n
      ∙ ap (λ r. r >>= λ d. ok (record { buffer = d; position = p + 4 }))
          (store_bytes-splice b p (le32 n) h),
  refl,
  rw
      (
        get_elem?-splice b p (le32 n) (p + 3) 3 h refl (omega arith),
        get_elem?-splice b p (le32 n) (p + 2) 2 h refl (omega arith),
        get_elem?-splice b p (le32 n) (p + 1) 1 h refl (omega arith),
        get_elem?-splice b p (le32 n) p 0 h (omega arith) (omega arith),
      )
      (ap {B = Result ℕ} ok (omega arith)),
  length-splice b p (le32 n) h,
  get_elem?-splice_outside b p (le32 n) i h k,
)
  where
    b : List ℕ
    b = c.buffer

    p : ℕ
    p = c.position
