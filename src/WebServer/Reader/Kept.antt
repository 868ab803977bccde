-- ===== src/WebServer/Reader/Kept.antt =====
-- The bytes that a caller's buffer keeps of a token of the request.
use arduino_spider_l3s_libra.Base.{
  ℕ, zero, suc, ◌+◌, ◌-◌, ◌≤◌, ◌<◌, min, ltb, ltb→lt, List, [], ◌∷◌, length, length-take, take,
  Result, ok, trap, ◌>>=◌, u8, ◌≡◌, refl, sym, ap, ap₂, ◌∙◌, arith, Bool-cases, inl, inr,
}
use arduino_spider_l3s_libra.Stream.{store, store_bytes}
use arduino_spider_l3s_libra.Stream.Memory.{splice, store_bytes-splice}
use arduino_spider_l3s_libra.Stream.RoundTrip.{splice-append, length-splice, take-append-drop}
use arduino_spider_l3s_libra.WebServer.Reader.{put_byte}

-- A buffer after the bytes `xs`, from position `ptr` on, as far as `size` goes.
abbrev pub kept : ℕ → List ℕ → ℕ → List ℕ → List ℕ
kept size buf ptr xs = splice buf ptr (take (size - ptr) xs)

pub store-splice :
    (buf : List ℕ) (ptr x : ℕ) → ptr < length buf → store buf ptr x ≡ ok (splice buf ptr (x ∷ []))
unfolding store_bytes
store-splice buf ptr x h =
    sym (returned (store buf ptr x)) ∙ store_bytes-splice buf ptr (x ∷ []) (omega arith)
  where
    returned : (m : Result (List ℕ)) → (m >>= λ c. ok c) ≡ m
    returned (ok a) = refl
    returned (trap t) = refl

take-nil : (n : ℕ) → take {A = ℕ} n [] ≡ []
take-nil zero = refl
take-nil (suc n) = refl

take-one : (n x : ℕ) → take (suc n) (x ∷ []) ≡ x ∷ []
take-one zero x = refl
take-one (suc n) x = refl

pub kept-free :
    (size : ℕ) (buf : List ℕ) (ptr x : ℕ) (xs : List ℕ)
    → ptr < size
    → kept size buf ptr (x ∷ xs) ≡ splice buf ptr (x ∷ take (size - (ptr + 1)) xs)
kept-free size buf ptr x xs h =
    let e : size - ptr ≡ suc (size - (ptr + 1)) = omega arith in
    ap (λ n. splice buf ptr (take n (x ∷ xs))) e

pub kept-full : (size : ℕ) (buf xs : List ℕ) → kept size buf size xs ≡ buf
kept-full size buf xs =
    let e : size - size ≡ 0 = omega arith in
    ap (λ n. splice buf size (take n xs)) e ∙ take-append-drop size buf

pub put_byte-kept :
    (size : ℕ) (buf : List ℕ) (ptr x : ℕ)
    → size < 256
    → size ≤ length buf
    → ptr ≤ size
    → put_byte size buf ptr x ≡ ok (kept size buf ptr (x ∷ []), min size (ptr + 1))
unfolding put_byte
put_byte-kept size buf ptr x small room h = elim (Bool-cases (ltb ptr size)) [
  | inl e ↦
      let inside : ptr < size = ltb→lt ptr size e in
      let fits : ptr < length buf = omega arith in
      let next : u8 (ptr + 1) ≡ min size (ptr + 1) = omega arith in
      let one : splice buf ptr (x ∷ []) ≡ kept size buf ptr (x ∷ []) = sym (
        kept-free size buf ptr x [] inside
        ∙ ap (λ t. splice buf ptr (x ∷ t)) (take-nil (size - (ptr + 1)))) in
      simp (e, put_byte)
        (ap (λ m. m >>= λ b. ok (b, u8 (ptr + 1))) (store-splice buf ptr x fits)
          ∙ ap₂ (λ b n. ok (b, n)) one next)
  | inr e ↦
      let full : ptr ≡ size = ground arith in
      let next : ptr ≡ min size (ptr + 1) = omega (arith, full) in
      simp (e, put_byte)
        (ap₂ (λ b n. ok (b, n))
          (sym (ap (λ n. kept size buf n (x ∷ [])) full ∙ kept-full size buf (x ∷ []))) next)
]

pub kept-append :
    (size : ℕ) (buf : List ℕ) (ptr x : ℕ) (xs : List ℕ)
    → size ≤ length buf
    → ptr ≤ size
    → kept size (kept size buf ptr (x ∷ [])) (min size (ptr + 1)) xs ≡ kept size buf ptr (x ∷ xs)
kept-append size buf ptr x xs room h = elim (Bool-cases (ltb ptr size)) [
  | inl e ↦
      let inside : ptr < size = ltb→lt ptr size e in
      let next : min size (ptr + 1) ≡ ptr + 1 = omega arith in
      let one : kept size buf ptr (x ∷ []) ≡ splice buf ptr (x ∷ []) =
        kept-free size buf ptr x [] inside
        ∙ ap (λ t. splice buf ptr (x ∷ t)) (take-nil (size - (ptr + 1))) in
      ap₂ (λ b n. kept size b n xs) one next
      ∙ (splice-append buf ptr (ptr + 1) (x ∷ []) (take (size - (ptr + 1)) xs) refl
            (omega (arith, length-take (size - (ptr + 1)) xs))
          ∙ sym (kept-free size buf ptr x xs inside))
  | inr e ↦
      let full : ptr ≡ size = ground arith in
      let next : min size (ptr + 1) ≡ size = omega (arith, full) in
      let left : (ys : List ℕ) → kept size buf ptr ys ≡ buf =
        λ ys. ap (λ n. kept size buf n ys) full ∙ kept-full size buf ys in
      ap₂ (λ b n. kept size b n xs) (left (x ∷ [])) next
      ∙ (kept-full size buf xs ∙ sym (left (x ∷ xs)))
]

pub kept-nothing : (size : ℕ) (buf : List ℕ) (ptr : ℕ) → kept size buf ptr [] ≡ buf
kept-nothing size buf ptr = ap (splice buf ptr) (take-nil (size - ptr)) ∙ take-append-drop ptr buf

pub length-kept :
    (size : ℕ) (buf : List ℕ) (ptr : ℕ) (xs : List ℕ)
    → size ≤ length buf
    → ptr ≤ size
    → length (kept size buf ptr xs) ≡ length buf
length-kept size buf ptr xs room h =
    length-splice buf ptr (take (size - ptr) xs) (omega (arith, length-take (size - ptr) xs))

pub kept-start :
    (size : ℕ) (buf : List ℕ) (ptr : ℕ) (xs : List ℕ)
    → ptr ≡ 0
    → kept size buf ptr xs ≡ splice buf 0 (take size xs)
kept-start size buf ptr xs e =
    let whole : size - 0 ≡ size = omega arith in
    ap (λ n. kept size buf n xs) e ∙ ap (λ n. splice buf 0 (take n xs)) whole
