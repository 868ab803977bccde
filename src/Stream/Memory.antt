-- ===== src/Stream/Memory.antt =====
-- What writes leave in a buffer: every chain of writes next to one another is one splice.
use arduino_spider_l3s_libra.Base.{
  ℕ, zero, suc, ◌+◌, ◌≤◌, ◌<◌, ◌≡◌, refl, ap, ◌∙◌, List, [], ◌∷◌, ◌++◌, length, take, drop,
  length-append, Trap, ◌≢◌, Result, ok, trap, ◌>>=◌, arith, u8, u16, u32, ◌>>>◌,
}
use arduino_spider_l3s_libra.Stream.{
  Cursor, store, store_bytes, array_to_stream, uint8_to_stream, uint16_to_stream, uint32_to_stream,
}
use native.Mathlib.Nat.{add-zero}

-- The buffer with `xs` at position `p`.
abbrev pub splice : List ℕ → ℕ → List ℕ → List ℕ
splice b p xs = take p b ++ (xs ++ drop (length xs) (drop p b))

-- The bytes of a 16-bit and of a 32-bit number, lowest first.
abbrev pub le16 : ℕ → List ℕ
le16 v = u8 (u16 v) ∷ u8 (u16 v >>> 8) ∷ []

abbrev pub le32 : ℕ → List ℕ
le32 v = u8 (u32 v) ∷ u8 (u32 v >>> 8) ∷ u8 (u32 v >>> 16) ∷ u8 (u32 v >>> 24) ∷ []

store_bytes-cons :
    (x : ℕ) (b : List ℕ) (p : ℕ) (xs : List ℕ)
    → store_bytes (x ∷ b) (suc p) xs ≡ (store_bytes b p xs >>= λ c. ok (x ∷ c))
unfolding store_bytes store
store_bytes-cons x b p [] = refl
store_bytes-cons x b p (y ∷ ys) = go (λ c. store_bytes-cons x c (suc p) ys) (store b p y)
  where
    go :
        ((c : List ℕ)
          → store_bytes (x ∷ c) (suc (suc p)) ys ≡ (store_bytes c (suc p) ys >>= λ c. ok (x ∷ c)))
        → (r : Result (List ℕ))
        → ((r >>= λ c. ok (x ∷ c)) >>= λ c. store_bytes c (suc (suc p)) ys)
          ≡ ((r >>= λ c. store_bytes c (suc p) ys) >>= λ c. ok (x ∷ c))
    go ih (ok c) = ih c
    go ih (trap t) = refl

store_bytes-head :
    (x y : ℕ) (b ys : List ℕ)
    → store_bytes (x ∷ b) 0 (y ∷ ys) ≡ (store_bytes b 0 ys >>= λ c. ok (y ∷ c))
unfolding store_bytes store
store_bytes-head x y b ys = store_bytes-cons y b 0 ys

-- Writing in bounds is a splice.
pub store_bytes-splice :
    (b : List ℕ) (p : ℕ) (xs : List ℕ)
    → p + length xs ≤ length b
    → store_bytes b p xs ≡ ok (splice b p xs)
store_bytes-splice b zero [] h = unfold store_bytes in refl
store_bytes-splice [] zero (y ∷ ys) h = absurd (omega arith)
store_bytes-splice [] (suc p) xs h = absurd (omega arith)
store_bytes-splice (x ∷ b) zero (y ∷ ys) h =
    store_bytes-head x y b ys
    ∙ ap (λ r. r >>= λ c. ok (y ∷ c)) (store_bytes-splice b 0 ys (omega arith))
store_bytes-splice (x ∷ b) (suc p) xs h =
    store_bytes-cons x b p xs
    ∙ ap (λ r. r >>= λ c. ok (x ∷ c)) (store_bytes-splice b p xs (omega arith))

-- Writing past the end is a trap.
pub store_bytes-out_of_bounds :
    (b : List ℕ) (p : ℕ) (xs : List ℕ)
    → xs ≢ []
    → length b < p + length xs
    → store_bytes b p xs ≡ trap Trap.out_of_bounds
store_bytes-out_of_bounds b p [] ne h = absurd (ne refl)
store_bytes-out_of_bounds [] p (y ∷ ys) ne h = unfold store_bytes store in refl
store_bytes-out_of_bounds (x ∷ b) zero (y ∷ ys) ne h =
    store_bytes-head x y b ys
    ∙ ap (λ r. r >>= λ c. ok (y ∷ c))
        (store_bytes-out_of_bounds b 0 ys (λ e. absurd (omega (arith, ap length e))) (omega arith))
store_bytes-out_of_bounds (x ∷ b) (suc p) (y ∷ ys) ne h =
    store_bytes-cons x b p (y ∷ ys)
    ∙ ap (λ r. r >>= λ c. ok (x ∷ c)) (store_bytes-out_of_bounds b p (y ∷ ys) ne (omega arith))

pub store_bytes-append :
    (b : List ℕ) (p : ℕ) (xs ys : List ℕ)
    → store_bytes b p (xs ++ ys) ≡ (store_bytes b p xs >>= λ c. store_bytes c (p + length xs) ys)
unfolding store_bytes
store_bytes-append b p [] ys = rw add-zero
store_bytes-append b p (x ∷ xs) ys = go (store b p x) (λ c. store_bytes-append c (suc p) xs ys)
  where
    shift : suc p + length xs ≡ p + suc (length xs)
    shift = omega arith

    go :
        (r : Result (List ℕ))
        → ((c : List ℕ)
            → store_bytes c (suc p) (xs ++ ys)
              ≡ (store_bytes c (suc p) xs >>= λ d. store_bytes d (suc p + length xs) ys))
        → (r >>= λ c. store_bytes c (suc p) (xs ++ ys))
          ≡ ((r >>= λ c. store_bytes c (suc p) xs) >>= λ d. store_bytes d (p + suc (length xs)) ys)
    go (ok c) ih = ih c ∙ ap (λ k. store_bytes c (suc p) xs >>= λ d. store_bytes d k ys) shift
    go (trap t) ih = refl

pub array_to_stream-cons :
    (c : Cursor) (v : ℕ) (xs : List ℕ)
    → array_to_stream c (u8 v ∷ xs) ≡ (uint8_to_stream c v >>= λ d. array_to_stream d xs)
unfolding array_to_stream uint8_to_stream store_bytes
array_to_stream-cons c v xs = go (store c.buffer c.position (u8 v))
  where
    position : c.position + suc (length xs) ≡ c.position + 1 + length xs
    position = omega arith

    next : suc c.position ≡ c.position + 1
    next = omega arith

    go :
        (r : Result (List ℕ))
        → ((r >>= λ b. store_bytes b (suc c.position) xs) >>= λ b.
            ok (record { buffer = b; position = c.position + suc (length xs) }))
          ≡ ((r >>= λ b. ok (record { buffer = b; position = c.position + 1 })) >>= λ d.
              array_to_stream d xs)
    go (ok b) = rw (next, position)
    go (trap t) = refl

pub array_to_stream-nil : (c : Cursor) → array_to_stream c [] ≡ ok c
unfolding array_to_stream store_bytes
array_to_stream-nil c = rw add-zero

>>=_ok : (m : Result Cursor) → (m >>= λ c. ok c) ≡ m
>>=_ok (ok c) = refl
>>=_ok (trap t) = refl

pub >>=_assoc {ℓ} :
    {A B C : Type ℓ} (m : Result A) (f : A → Result B) (g : B → Result C)
    → ((m >>= f) >>= g) ≡ (m >>= λ a. f a >>= g)
>>=_assoc (ok a) f g = refl
>>=_assoc (trap t) f g = refl

pub array_to_stream-append :
    (c : Cursor) (xs ys : List ℕ)
    → (array_to_stream c xs >>= λ d. array_to_stream d ys) ≡ array_to_stream c (xs ++ ys)
unfolding array_to_stream
array_to_stream-append c xs ys =
    rw (store_bytes-append c.buffer c.position xs ys) (go (store_bytes c.buffer c.position xs))
  where
    position : c.position + length xs + length ys ≡ c.position + length (xs ++ ys)
    position = omega (arith, length-append xs ys)

    go :
        (r : Result (List ℕ))
        → ((r >>= λ b. ok (record { buffer = b; position = c.position + length xs })) >>= λ d.
            array_to_stream d ys)
          ≡ ((r >>= λ b. store_bytes b (c.position + length xs) ys) >>= λ b.
              ok (record { buffer = b; position = c.position + length (xs ++ ys) }))
    go (ok b) = rw position
    go (trap t) = refl

-- The macros write the bytes of the number.
pub uint32_to_stream-le32 : (c : Cursor) (v : ℕ) → uint32_to_stream c v ≡ array_to_stream c (le32 v)
unfolding uint32_to_stream
uint32_to_stream-le32 c v = simp (array_to_stream-cons, array_to_stream-nil, >>=_ok)

pub uint16_to_stream-le16 : (c : Cursor) (v : ℕ) → uint16_to_stream c v ≡ array_to_stream c (le16 v)
unfolding uint16_to_stream
uint16_to_stream-le16 c v = simp (array_to_stream-cons, array_to_stream-nil, >>=_ok)
